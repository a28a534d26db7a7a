-- ===== src/App/Main/Examples.antt =====
-- The program started with a configuration, interrupted in its third round.
use robo_band.Base.{◌≡◌, refl, arith, none, some, List, [], ◌∷◌, take}
use Prim.Native.String.{String}
use robo_band.Base.Int.{pos, negsuc}
use robo_band.Base.Float.Milli.{milli_float}
use robo_band.Util.Config.Tree.{tree_toml}
use robo_band.App.RobotCreate.Examples.{parse_file, settings, created}
use robo_band.App.Main.{returned, exited, config_path, main}
use robo_band.App.Main.Endings.{started, StopsNothing, main-interrupted}

too_many :
    main tree_toml 4 parse_file "robot" ("band" ∷ "a" ∷ "b" ∷ []) 3 none ≡ (returned (negsuc 0), [])
unfolding main config_path
too_many = refl

abbrev argv : List String
argv = "band" ∷ "user.toml" ∷ []

main-interrupted_example :
    (main tree_toml 4 parse_file "robot" argv 3 (some 6) ≡ (exited (pos 0), take 6 (started 3)))
    × StopsNothing (take 6 (started 3))
unfolding config_path
main-interrupted_example =
    main-interrupted tree_toml 4 parse_file "robot" argv "user.toml" settings 3 6 refl created
      (omega arith)
