-- ===== src/Cmd.antt =====
-- cmd/root.go: which subcommand the arguments name.
pub mod Run
mod Samples
use shadow_stat.Base.{String, Bool, true, false, not, List, [], ◌∷◌, if◌then◌else◌, str_eq, ◌==◌}
use shadow_stat.Base.Text.{Text, codes}

-- The calls that Execute makes.
pub data Subcommand : Type 0 where
  run_cmd version_cmd install_service_cmd uninstall_service_cmd status_cmd :
      List String → Subcommand
  -- answered with 2
  unknown : String → Subcommand

abbrev starts_with_dash : Text → Bool
starts_with_dash [] = false
starts_with_dash (c ∷ s) = c == b'-'

unfoldable pub is_flag : String → Bool
is_flag s = starts_with_dash (codes s)

unfoldable pub dispatch : String → List String → Subcommand
dispatch sub args =
    if str_eq sub "run"
    then run_cmd args
    else if str_eq sub "version"
    then version_cmd args
    else if str_eq sub "install-service"
    then install_service_cmd args
    else if str_eq sub "uninstall-service"
    then uninstall_service_cmd args
    else if str_eq sub "status"
    then status_cmd args
    else unknown sub

-- os.Args[1:]
unfoldable pub execute : List String → Subcommand
unfolding is_flag dispatch
execute [] = dispatch "run" []
execute (a ∷ args) = if not (is_flag a) then dispatch a args else dispatch "run" (a ∷ args)
