-- ===== src/Web/ApiSamples.antt =====
-- Tests of the reading handlers and of the settings, and their theorems at concrete tables.
use shadow_stat.Base.{
  String, str_eq, str_eq_iff, ◌≢◌, ℕ, arith, ◌*◌, ◌≡◌, refl, Bool, true, false, none, some, [], ◌∷◌,
}
use shadow_stat.Base.Text.{Text, codes}
use shadow_stat.Base.Decimal.{atoi, pos}
use shadow_stat.Store.Flows.{FlowRecord}
use shadow_stat.Store.Rollup.{Rows}
use shadow_stat.Store.Series.{series_of}
use shadow_stat.Store.Alerts.{Alert, Alerts}
use shadow_stat.Store.Hosts.{Hosts}
use shadow_stat.Web.Api.Alerts.{
  list_alerts_handler, ack_all_alerts_handler, ack_all_alerts_handler-clears,
  ack_all_alerts_handler-keeps_others,
}
use shadow_stat.Store.Settings.{key_retention_days}
use shadow_stat.Config.{load, parse_retention_days_failed}
use shadow_stat.Rollupjob.{Tables, Faults, prune, day}
use shadow_stat.Web.Api.{answers, refuses, host_flows_handler, put_settings_handler, series_between}
use shadow_stat.Web.Api.Pruned.{series_between-pruned, no_points}
use shadow_stat.Web.Api.Saved.{put_settings_handler-load}

abbrev flow : FlowRecord
flow = record {
  host_id = 1;
  direction = 0;
  proto = 6;
  local_ip = "10.0.0.5";
  local_port = 5000;
  remote_ip = "1.2.3.4";
  remote_port = 443;
  first_seen = 1000000;
  last_seen = 1000050;
  bytes_sent = 100;
  bytes_recv = 200;
  packets_sent = 1;
  packets_recv = 1;
}

host_flows_handler-range :
    host_flows_handler false 1000100 (codes "1") (codes "7") (codes "7") [] []
    ≡ refuses 400 "invalid_range"
unfolding host_flows_handler
host_flows_handler-range = refl

abbrev month : Text
month = codes "month"

put_settings_handler-load_example :
    (put_settings_handler false (some ((key_retention_days, month) ∷ [])) []).0 ≡ answers false
    × (load false (put_settings_handler false (some ((key_retention_days, month) ∷ [])) []).1
        ≡ parse_retention_days_failed)
unfolding atoi
put_settings_handler-load_example = put_settings_handler-load [] month (λ h. cc) refl

abbrev alert : ℕ → Bool → Alert
alert id acked = record {
  id = id;
  host_id = 1;
  kind = "port_scan";
  severity = "critical";
  summary = "";
  detail = "";
  dedupe_key = "";
  detected_at = 10 * id;
  acknowledged = acked;
}

abbrev alerts : Alerts
alerts = record { rows = alert 1 false ∷ alert 2 true ∷ alert 3 false ∷ []; next_id = 4 }

abbrev mixed_alerts : Alerts
mixed_alerts = record {
  rows = alert 1 false ∷ record (alert 2 false) { kind = "beaconing" } ∷ [];
  next_id = 3;
}

abbrev hosts : Hosts
hosts = record {
  hosts =
      record {
        id = 1;
        ip = "10.0.0.5";
        display_name = none;
        mac_address = none;
        first_seen = 0;
        last_seen = 10;
      }
      ∷ [];
  dhcp_hostnames = [];
  next_id = 2;
}

-- The newest first.
list_alerts_handler-test :
    list_alerts_handler false [] "1" "" hosts alerts
    ≡ answers (("10.0.0.5", alert 3 false) ∷ ("10.0.0.5", alert 1 false) ∷ [])
unfolding list_alerts_handler
list_alerts_handler-test = refl

ack_all_alerts_handler-clears_example :
    ((ack_all_alerts_handler false "port_scan" mixed_alerts).0 ≡ answers 1)
    × (list_alerts_handler false
          (codes "50")
          "1"
          "port_scan"
          hosts
          (ack_all_alerts_handler false "port_scan" mixed_alerts).1
        ≡ answers [])
ack_all_alerts_handler-clears_example =
    ack_all_alerts_handler-clears "port_scan" (codes "50") hosts mixed_alerts

distinct_kinds : (s t : String) → str_eq s t ≡ false → s ≢ t
distinct_kinds s t h e = ground (arith, str_eq_iff s t)

-- The alerts to acknowledge are of a kind that is in the table, the listed ones of another.
ack_all_alerts_handler-keeps_others_example :
    list_alerts_handler false
      (codes "50")
      "1"
      "port_scan"
      hosts
      (ack_all_alerts_handler false "beaconing" mixed_alerts).1
    ≡ list_alerts_handler false (codes "50") "1" "port_scan" hosts mixed_alerts
ack_all_alerts_handler-keeps_others_example =
    ack_all_alerts_handler-keeps_others false false "beaconing" "port_scan" "1" (codes "50") hosts
      mixed_alerts (distinct_kinds "beaconing" "" refl) (distinct_kinds "port_scan" "" refl)
      (distinct_kinds "port_scan" "beaconing" refl)

abbrev sums : Rows
sums =
    (
      record { host_id = 1; direction = 0; bucket_ts = 30 * day },
      record { bytes_sent = 100; bytes_recv = 200; packets_sent = 1; packets_recv = 1 },
    )
    ∷ []

abbrev tables : Tables
tables = record {
  flows_recent = [];
  rollups = record { rollup_1m = sums; rollup_5m = sums; rollup_1h = []; rollup_1d = [] };
}

abbrev no_faults : Faults
no_faults = record { rollup = false; prune_flows = false; prune_tier = λ g. false }

-- The page on the day before the 31st, ten days later.
series_between-pruned_example :
    (series_between false
        (40 * day)
        1
        (pos (30 * day))
        (pos (31 * day))
        none
        (prune no_faults 365 (40 * day) tables).flows_recent
        (prune no_faults 365 (40 * day) tables).rollups
      ≡ answers ("1m", no_points))
    × (series_of false 1
          (pos (30 * day))
          (pos (31 * day))
          none
          ((prune no_faults 365 (40 * day) tables).rollups).rollup_5m
        ≡ series_of false 1 (pos (30 * day)) (pos (31 * day)) none (tables.rollups).rollup_5m)
series_between-pruned_example =
    series_between-pruned no_faults 365 (40 * day) (40 * day) tables 1 (30 * day) (31 * day) none
      refl (omega arith) (omega arith) (omega arith) (omega arith)
