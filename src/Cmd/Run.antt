-- ===== src/Cmd/Run.antt =====
-- cmd/run.go: the start of the program. The four loops that it then runs are Capture, Rollupjob,
-- Detect and Web.
pub mod Served
use shadow_stat.Base.{ℕ, String, Bool, true, false, ◌||◌, not, Option, none, some, if◌then◌else◌}
use shadow_stat.Base.Text.{Text}
use shadow_stat.Store.Driver.{Result, ok, err}
use shadow_stat.Config.{
  Settings, Loaded, loaded, load_settings_failed, parse_retention_days_failed,
  parse_flush_interval_failed, load, is_setup_complete,
}
use shadow_stat.Config.Paths.{FileSystem, resolve_data_dir, db_path, cert_path, key_path}
use shadow_stat.Config.Wizard.{WizardRun, Tables, run_first_run_wizard}

abbrev pub exit_no_interactive_setup : ℕ
exit_no_interactive_setup = 10

-- What the start meets. `flags` is the data directory and the promiscuous mode, `none` when they
-- cannot be parsed.
pub record Machine : Type 0 where
  pub flags : Option (String × Bool)
  pub files : FileSystem
  -- os.IsNotExist of Stat
  pub missing : String → Bool
  pub opens : String → Bool
  pub setup_query_fails : Bool
  pub load_fails : Bool
  pub wizard : WizardRun
  pub filter_compiles : Bool
  pub source_opens : Text → Bool → Bool
  -- by the address, the certificate and the key
  pub server_starts : Text → String → String → Bool
  -- what the server's loop returns at the end
  pub server_fails : Bool

pub data Outcome : Type 0 where
  exits : ℕ → Outcome
  -- The four loops run with the settings and the promiscuous mode; the exit code comes at the end.
  serves : Settings → Bool → ℕ → Outcome

module _ (parse_cidr : Text → Bool) (hash_password : Text → Option String) (m : Machine) where
  unfoldable pub serve : String → Bool → Settings → Outcome
  unfolding cert_path key_path
  serve data_dir promiscuous c =
      if not (parse_cidr c.lan_subnet_cidr)
      then exits 1
      else if not m.filter_compiles
      then exits 1
      else if not (m.source_opens c.capture_interface promiscuous)
      then exits 1
      else if not (
          m.server_starts c.http_listen_addr (cert_path m.files data_dir)
            (key_path m.files data_dir))
      then exits 1
      else serves c promiscuous (if m.server_fails then 1 else 0)

  abbrev pub with_loaded : String → Bool → Loaded → Outcome
  with_loaded data_dir promiscuous (loaded c) = serve data_dir promiscuous c
  with_loaded data_dir promiscuous load_settings_failed = exits 1
  with_loaded data_dir promiscuous parse_retention_days_failed = exits 1
  with_loaded data_dir promiscuous parse_flush_interval_failed = exits 1

  -- The outcome, and the tables after it.
  abbrev pub load_and_serve : String → Bool → Tables → Outcome × Tables
  load_and_serve data_dir promiscuous t =
      (with_loaded data_dir promiscuous (load m.load_fails t.settings), t)

  abbrev pub after_wizard : String → Bool → Bool × Tables → Outcome × Tables
  after_wizard data_dir promiscuous (true, t) = load_and_serve data_dir promiscuous t
  after_wizard data_dir promiscuous (false, t) = (exits 1, t)

  abbrev pub with_setup : String → Bool → Bool → Tables → Result Bool → Outcome × Tables
  with_setup data_dir promiscuous first_run t (err e) = (exits 1, t)
  with_setup data_dir promiscuous first_run t (ok setup_done) =
      if first_run || not setup_done
      then (if not (m.wizard).interactive
          then (exits exit_no_interactive_setup, t)
          else after_wizard data_dir promiscuous
              (run_first_run_wizard parse_cidr hash_password m.wizard t))
      else load_and_serve data_dir promiscuous t

  abbrev pub in_data_dir : Bool → Tables → Option String → Outcome × Tables
  in_data_dir promiscuous t none = (exits 1, t)
  in_data_dir promiscuous t (some data_dir) =
      let path = db_path m.files data_dir in
      if not (m.opens path)
      then (exits 1, t)
      else with_setup data_dir promiscuous (m.missing path) t
          (is_setup_complete m.setup_query_fails t.settings)

  abbrev pub with_flags : Tables → Option (String × Bool) → Outcome × Tables
  with_flags t none = (exits 2, t)
  with_flags t (some (data_dir, promiscuous)) =
      in_data_dir promiscuous t (resolve_data_dir m.files data_dir)

  unfoldable pub run : Tables → Outcome × Tables
  unfolding resolve_data_dir db_path is_setup_complete load run_first_run_wizard serve
  run t = with_flags t m.flags
