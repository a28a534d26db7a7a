-- ===== src/Ctrl/BalanceSys/Create/Layout.antt =====
-- Where the entries of the gain matrix stand in the configuration.
use robo_band.Base.{ℕ, ◌+◌, ◌<◌, ◌≡◌, ◌∙◌, List, drop, get_elem?, get_elem?-take, get_elem?-drop}
use robo_band.Ctrl.BalanceSys.Create.{gains_of}

-- The entry in the row i and the column j is that at 10 i + j of the array: the configuration lists the
-- matrix row by row.
pub gains_of-rows :
    {F : Type 0} (k : List F) (j : ℕ)
    → j < 10
    → let g = gains_of k in
      (get_elem? g.row_0 j ≡ get_elem? k j)
      × (get_elem? g.row_1 j ≡ get_elem? k (10 + j))
      × (get_elem? g.row_2 j ≡ get_elem? k (20 + j))
      × (get_elem? g.row_3 j ≡ get_elem? k (30 + j))
unfolding gains_of
gains_of-rows k j h = (
  get_elem?-take 10 k j h,
  get_elem?-take 10 (drop 10 k) j h ∙ get_elem?-drop 10 k j,
  get_elem?-take 10 (drop 20 k) j h ∙ get_elem?-drop 20 k j,
  get_elem?-take 10 (drop 30 k) j h ∙ get_elem?-drop 30 k j,
)
