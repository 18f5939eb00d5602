-- ===== src/Cmd/Samples.antt =====
-- Tests of the command line and of the start, with its theorem at a first run.
use shadow_stat.Base.{◌≡◌, refl, true, false, some, [], ◌∷◌}
use Prim.Native.String.{◌++◌ as ◌+++◌}
use shadow_stat.Base.Text.{codes}
use shadow_stat.Base.Decimal.{pos}
use shadow_stat.Config.{Settings}
use shadow_stat.Config.Paths.{FileSystem}
use shadow_stat.Config.Samples.{parse_cidr, hash_password, typed, fresh}
use shadow_stat.Cmd.{run_cmd, unknown, execute}
use shadow_stat.Cmd.Run.{Machine, exits, serves, run}
use shadow_stat.Cmd.Run.Served.{IsServed, run-IsServed}

-- Flags without a subcommand are those of `run`.
execute-test : execute ("--data-dir" ∷ "/tmp" ∷ []) ≡ run_cmd ("--data-dir" ∷ "/tmp" ∷ [])
unfolding execute
execute-test = refl

execute-unknown : execute ("start" ∷ []) ≡ unknown "start"
unfolding execute
execute-unknown = refl

abbrev files : FileSystem
files = record {
  mkdir_all = λ d. true;
  exists = λ d. false;
  create = λ d. true;
  euid = 0;
  xdg_data_home = "";
  home_dir = some "/root";
  join = λ a b. a +++ "/" +++ b;
}

abbrev machine : Machine
machine = record {
  flags = some ("", true);
  files = files;
  missing = λ p. true;
  opens = λ p. true;
  setup_query_fails = false;
  load_fails = false;
  wizard = typed;
  filter_compiles = true;
  source_opens = λ i p. true;
  server_starts = λ a c k. true;
  server_fails = false;
}

abbrev typed_settings : Settings
typed_settings = record {
  capture_interface = codes "eth1";
  lan_subnet_cidr = codes "10.0.0.0/8";
  retention_days = pos 30;
  tls_cert_path = [];
  tls_key_path = [];
  http_listen_addr = codes ":8443";
  flush_interval = pos 10;
}

run-serves : (run parse_cidr hash_password machine fresh).0 ≡ serves typed_settings true 0
unfolding run
run-serves = refl

-- Without a terminal, the first run ends.
run-batch :
    (run parse_cidr hash_password
      (record machine { wizard = record typed { interactive = false } })
      fresh).0
    ≡ exits 10
unfolding run
run-batch = refl

run-IsServed_example :
    IsServed parse_cidr typed_settings (run parse_cidr hash_password machine fresh).1
run-IsServed_example =
    run-IsServed parse_cidr hash_password machine fresh typed_settings true 0 run-serves
