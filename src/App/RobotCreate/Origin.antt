-- ===== src/App/RobotCreate/Origin.antt =====
-- Whose settings a robot is created with.
use Prim.Native.String.{String, ◌++◌}
use mathlib.Core.Option.{some-injective}
use robo_band.Base.{
  ℕ, ◌<◌, ◌≡◌, refl, ap, sym, ◌∙◌, Option, none, some, [], ◌∷◌, Option-cases, All, inl, inr, arith,
}
use robo_band.Base.Float.{Float}
use robo_band.Util.Config.{
  Toml, IsToml, Checked, ok, wrong_configuration, ◌>>=◌, or_throw, table_at, merge_config,
  get_table, get_value, get_array, element_float,
}
use robo_band.Util.Config.Parity.{node_at, IsLeaf, merge_config_parity}
use robo_band.App.RobotCreate.{Settings, aokee, new_aokee, create_aokee, robot_create}

bind-ok :
    {A B : Type 0} (c : Checked A) (g : A → Checked B) (b : B)
    → (c >>= g) ≡ ok b
    → (a : A) × (c ≡ ok a) × (g a ≡ ok b)
bind-ok (ok a) g b h = (a, refl, h)
bind-ok wrong_configuration g b h = cc

ok_injective : {A : Type 0} (a b : A) → ok a ≡ ok b → a ≡ b
ok_injective a b h = cc

or_throw-ok : {A : Type 0} (o : Option A) (a : A) → or_throw o ≡ ok a → o ≡ some a
or_throw-ok none a h = cc
or_throw-ok (some b) a h = cc

module _ {F T N : Type 0} ⦃f : Float F⦄ (toml : Toml F T N) where
  open toml use {get, as_table, value_float, value_string}

  get_value-at :
      {A : Type 0} (value : N → Option A) (t : T) (key : String) (a : A)
      → get_value toml value t key ≡ ok a
      → (v : N) × (get t key ≡ some v) × (value v ≡ some a)
  unfolding get_value
  get_value-at value t key a h = elim (Option-cases (get t key)) [
    | inl e ↦ cc (rw (e, get_value) at h)
    | inr (v, e) ↦ (v, e, or_throw-ok (value v) a (rw (e, get_value) at h))
  ]

  get_table-at :
      (t s : T) (key : String) → get_table toml t key ≡ ok s → table_at toml t key ≡ some s
  unfolding get_table
  get_table-at t s key h = or_throw-ok (table_at toml t key) s h

  -- Where the port and the speed come from in a configuration.
  new_aokee-settings :
      (config : T) (s : Settings F)
      → new_aokee toml config ≡ ok s
      → (io : T) × (table_at toml config "io" ≡ some io)
        × (get_value toml value_string io "rs485" ≡ ok s.rs485)
        × (get_value toml value_float config "retract_speed" ≡ ok s.retract_speed)
  unfolding new_aokee
  new_aokee-settings config s h =
      let (ctrl, ctrl_at, h₁) = bind-ok (get_table toml config "ctrl") _ s h in
      let (chassis, chassis_at, h₂) = bind-ok (get_table toml ctrl "chassis") _ s h₁ in
      let (cycle, cycle_at, h₃) = bind-ok (get_value toml value_float chassis "cycle_ms") _ s h₂ in
      let (leg, leg_at, h₄) =
        bind-ok (get_array toml (element_float toml) 3 chassis "leg_param") _ s h₃ in
      let (gravity, gravity_at, h₅) =
        bind-ok (get_value toml value_float chassis "F_gravity") _ s h₄ in
      let (pid, pid_at, h₆) =
        bind-ok (get_array toml (element_float toml) 5 chassis "pid_l_param") _ s h₅ in
      let (io, io_at, h₇) = bind-ok (get_table toml config "io") _ s h₆ in
      let (port, port_at, h₈) = bind-ok (get_value toml value_string io "rs485") _ s h₇ in
      let (dir, dir_at, h₉) =
        bind-ok (get_array toml (element_float toml) 6 config "motor_dir") _ s h₈ in
      let (retract, retract_at, h₁₀) =
        bind-ok (get_array toml (element_float toml) 5 config "pid_retract") _ s h₉ in
      let (speed, speed_at, h₁₁) =
        bind-ok (get_value toml value_float config "retract_speed") _ s h₁₀ in
      let (stop, stop_at, h₁₂) =
        bind-ok (get_value toml value_float config "motor_stop_speed") _ s h₁₁ in
      let (cyc, cyc_at, h₁₃) =
        bind-ok (get_value toml value_float config "retract_ctrl_cycle_ms") _ s h₁₂ in
      let (least, least_at, h₁₄) =
        bind-ok (get_value toml value_float config "retract_time_min_ms") _ s h₁₃ in
      let (limit, limit_at, h₁₅) =
        bind-ok (get_value toml value_float config "joint_limit_angle") _ s h₁₄ in
      let same = ok_injective _ s h₁₅ in
      (
        io,
        get_table-at config io "io" io_at,
        port_at ∙ ap (λ (t : Settings F). ok t.rs485) same,
        speed_at ∙ ap (λ (t : Settings F). ok t.retract_speed) same,
      )

  -- A robot is created from the two configurations, merged.
  robot_create-merged :
      (fuel : ℕ) (parse_file : String → Option T) (project_path user_path : String)
      (user default : T) (s : Settings F)
      → parse_file user_path ≡ some user
      → parse_file (project_path ++ "/app/Aokee/default.toml") ≡ some default
      → robot_create toml fuel parse_file project_path user_path ≡ aokee s
      → new_aokee toml (merge_config toml fuel user default).1 ≡ ok s
  unfolding robot_create create_aokee
  robot_create-merged fuel parse_file project_path user_path user default s hu hd h = ground arith

  node_at-below :
      (t s : T) (k j : String) → table_at toml t k ≡ some s → node_at toml t k (j ∷ []) ≡ get s j
  unfolding node_at
  node_at-below t s k j h = rw (h, node_at)

  -- For tables with the laws that are relied on: if both files can be parsed and both set the port
  -- of the serial line, at `io.rs485`, and the speed of the retraction, at `retract_speed`, to
  -- values that are no tables, then a robot that is created has the user's speed, but the port of
  -- the default file: that of the user is lost. More fuel than one is enough.
  pub robot_create-origin :
      (laws : IsToml toml) (fuel : ℕ) (parse_file : String → Option T)
      (project_path user_path : String) (user default : T) (s : Settings F)
      (user_port default_port user_speed default_speed : N)
      → 1 < fuel
      → parse_file user_path ≡ some user
      → parse_file (project_path ++ "/app/Aokee/default.toml") ≡ some default
      → node_at toml user "io" ("rs485" ∷ []) ≡ some user_port
      → node_at toml default "io" ("rs485" ∷ []) ≡ some default_port
      → node_at toml user "retract_speed" [] ≡ some user_speed
      → node_at toml default "retract_speed" [] ≡ some default_speed
      → All (IsLeaf toml) (user_port ∷ default_port ∷ user_speed ∷ default_speed ∷ [])
      → robot_create toml fuel parse_file project_path user_path ≡ aokee s
      → (value_string default_port ≡ some s.rs485) × (value_float user_speed ≡ some s.retract_speed)
  unfolding node_at
  robot_create-origin laws fuel parse_file project_path user_path user default s up dp us ds enough
        hu hd eup edp eus eds (lup, (ldp, (lus, (lds, _)))) h =
      let config = (merge_config toml fuel user default).1 in
      let made =
        robot_create-merged fuel parse_file project_path user_path user default s hu hd h in
      let (io, io_at, port_at, speed_at) = new_aokee-settings config s made in
      let (v, v_at, v_is) = get_value-at value_string io "rs485" s.rs485 port_at in
      let (w, w_at, w_is) =
        get_value-at value_float config "retract_speed" s.retract_speed speed_at in
      let port =
        merge_config_parity toml laws user default "io" ("rs485" ∷ []) fuel up dp enough eup edp lup
          ldp in
      let speed =
        merge_config_parity toml laws user default "retract_speed" [] fuel us ds (omega arith) eus
          eds lus lds in
      let below = node_at-below config io "io" "rs485" io_at in
      let same_port : dp ≡ v = some-injective dp v (sym port ∙ (below ∙ v_at)) in
      let same_speed : us ≡ w = some-injective us w (sym speed ∙ w_at) in
      (ap value_string same_port ∙ v_is, ap value_float same_speed ∙ w_is)
