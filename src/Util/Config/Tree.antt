-- ===== src/Util/Config/Tree.antt =====
-- Tables to evaluate the configuration code on: nested association lists, where the first row of a
-- key counts. They meet what the code relies on.
use Prim.Native.String.{String}
use Prim.Native.Nat.{max}
use text.Mathlib.Text.{◌==◌ as str_eq}
use text.Mathlib.TextEquality.{eq_iff}
use text.Mathlib.TextPositions.{eq_refl}
use robo_band.Base.{ℕ, suc, ◌<◌, ◌≡◌, refl, Option, none, some, List, [], ◌∷◌, arith, if◌then◌else◌}
use robo_band.Base.Int.{ℤ}
use robo_band.Base.Float.Milli.{Milli}
use robo_band.Util.Config.{Toml, IsToml, Scalar, integer, floating, string, other, lookup, Distinct}

mutual
  pub data Rows : Type 0 where
    end : Rows
    row : String → Node → Rows → Rows

  pub data Node : Type 0 where
    leaf : Scalar Milli → Node
    table : Rows → Node
    array : Elems → Node

  pub data Elems : Type 0 where
    nil : Elems
    elem : Node → Elems → Elems

get : Rows → String → Option Node
get end k = none
get (row j v rest) k = if str_eq j k then some v else get rest k

insert_or_assign : Rows → String → Node → Rows
insert_or_assign end k v = row k v end
insert_or_assign (row j w rest) k v =
    if str_eq j k then row k v rest else row j w (insert_or_assign rest k v)

without : String → List (String × Node) → List (String × Node)
without k [] = []
without k ((j, v) ∷ es) = if str_eq j k then without k es else (j, v) ∷ without k es

entries : Rows → List (String × Node)
entries end = []
entries (row j v rest) = (j, v) ∷ without j (entries rest)

as_table : Node → Option Rows
as_table (table rows) = some rows
as_table _ = none

elements : Elems → List Node
elements nil = []
elements (elem v rest) = v ∷ elements rest

as_array : Node → Option (List Node)
as_array (array elems) = some (elements elems)
as_array _ = none

scalar : Node → Scalar Milli
scalar (leaf s) = s
scalar _ = other

value_int : Node → Option ℤ
value_int (leaf (integer i)) = some i
value_int _ = none

value_float : Node → Option Milli
value_float (leaf (floating x)) = some x
value_float _ = none

value_string : Node → Option String
value_string (leaf (string s)) = some s
value_string _ = none

mutual
  depth_node : Node → ℕ
  depth_node (leaf s) = 0
  depth_node (table rows) = depth rows
  depth_node (array elems) = 0

  depth : Rows → ℕ
  depth end = 0
  depth (row k v rest) = max (suc (depth_node v)) (depth rest)

unfoldable pub tree_toml : Toml Milli Rows Node
unfolding get insert_or_assign without entries as_table elements as_array scalar value_int
    value_float value_string
tree_toml = record {
  entries = entries;
  get = get;
  insert_or_assign = insert_or_assign;
  as_table = as_table;
  of_table = table;
  as_array = as_array;
  visit = scalar;
  value_int = value_int;
  value_float = value_float;
  value_string = value_string;
}

get-insert_or_assign :
    (t : Rows) (k j : String) (v : Node)
    → get (insert_or_assign t k v) j ≡ (if str_eq k j then some v else get t j)
unfolding get insert_or_assign
get-insert_or_assign end k j v = refl
get-insert_or_assign (row i w rest) k j v =
    ground (arith, eq_iff k j, eq_iff i k, eq_iff i j, get-insert_or_assign rest k j v)

lookup-without :
    (k j : String) (es : List (String × Node))
    → lookup k (without j es) ≡ (if str_eq j k then none else lookup k es)
unfolding without
lookup-without k j [] = ground arith
lookup-without k j ((i, v) ∷ es) =
    ground (arith, eq_iff j k, eq_iff i k, eq_iff i j, lookup-without k j es)

without-Distinct : (j : String) (es : List (String × Node)) → Distinct es → Distinct (without j es)
unfolding without
without-Distinct j [] d = tt
without-Distinct j ((i, v) ∷ es) (fresh, d) =
    ground (arith, lookup-without i j es, without-Distinct j es d)

get-entries : (t : Rows) (k : String) → get t k ≡ lookup k (entries t)
unfolding get entries
get-entries end k = refl
get-entries (row j v rest) k = ground (arith, lookup-without k j (entries rest), get-entries rest k)

entries-Distinct : (t : Rows) → Distinct (entries t)
unfolding entries
entries-Distinct end = tt
entries-Distinct (row j v rest) = (
  rw (lookup-without j j (entries rest), eq_refl j),
  without-Distinct j (entries rest) (entries-Distinct rest),
)

depth-get :
    (t : Rows) (k : String) (v : Node) (s : Rows)
    → get t k ≡ some v
    → as_table v ≡ some s
    → depth s < depth t
unfolding get as_table depth
depth-get end k v s h e = cc
depth-get (row j (leaf x) rest) k v s h e = ground (arith, depth-get rest k v s)
depth-get (row j (table x) rest) k v s h e = ground (arith, depth-get rest k v s)
depth-get (row j (array x) rest) k v s h e = ground (arith, depth-get rest k v s)

unfoldable pub tree_toml-IsToml : IsToml tree_toml
unfolding tree_toml get-insert_or_assign get-entries entries-Distinct depth-get lookup-without
    without-Distinct
tree_toml-IsToml = record {
  get-insert_or_assign = get-insert_or_assign;
  get-entries = get-entries;
  entries-Distinct = entries-Distinct;
  as_table-of_table = λ t. refl;
  depth = depth;
  depth-get = depth-get;
}
