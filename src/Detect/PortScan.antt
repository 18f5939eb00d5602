-- ===== src/Detect/PortScan.antt =====
-- internal/detect/port_scan.go.
pub mod Ports
use shadow_stat.Base.{
  ℕ, ◌-◌, ◌*◌, String, Bool, true, false, Option, none, some, List, [], ◌∷◌, ltb, if◌then◌else◌,
  length, take,
}
use Prim.Native.String.{◌++◌ as ◌+++◌}
use shadow_stat.Store.Driver.{ok, err}
use shadow_stat.Store.Flows.{FlowRecord, dir_lan_to_wan, dir_lan_out, dir_lan_in}
use shadow_stat.Store.Hosts.{Host, Hosts}
use shadow_stat.Store.DetectQueries.{TargetKey, host_target_port_scans}
use shadow_stat.Store.Alerts.{Alerts, AlertRecord, alert_kind_port_scan, severity_critical}
use shadow_stat.Detect.Raise.{
  Texts, LoopFaults, Watch, host_label, alert_on, each, port_scan_cooldown,
}
use shadow_stat.Detect.PortScan.Ports.{group_concat, parse_ports_csv}

abbrev pub port_scan_window : ℕ
port_scan_window = 120

abbrev pub port_scan_ports_per_target_threshold : ℕ
port_scan_ports_per_target_threshold = 15

abbrev pub port_scan_detail_port_cap : ℕ
port_scan_detail_port_cap = 50

-- portScanCheck; the summary is made from the direction (Texts)
pub record PortScanCheck : Type 0 where
  pub direction : ℕ
  pub count_local_port : Bool
  pub dedupe_prefix : String
  pub detail_dir : String

abbrev pub port_scan_checks : List PortScanCheck
port_scan_checks =
    record {
      direction = dir_lan_to_wan;
      count_local_port = false;
      dedupe_prefix = "wan_out:";
      detail_dir = "outbound";
    }
    ∷ record {
      direction = dir_lan_out;
      count_local_port = false;
      dedupe_prefix = "lan_out:";
      detail_dir = "outbound";
    }
    ∷ record {
      direction = dir_lan_in;
      count_local_port = true;
      dedupe_prefix = "lan_in:";
      detail_dir = "inbound";
    }
    ∷ []

-- Which calls fail: the query of a check, and the calls about its targets.
pub record PortScanFaults : Type 0 where
  pub query_fails : ℕ → Bool
  pub target_faults : ℕ → ℕ → LoopFaults

unfoldable pub port_scan_alert : Texts → ℕ → PortScanCheck → TargetKey → List ℕ → Host → AlertRecord
unfolding host_label parse_ports_csv group_concat
port_scan_alert x now check t ports host =
    let parsed = parse_ports_csv (group_concat ports) in
    record {
      host_id = t.host_id;
      kind = alert_kind_port_scan;
      severity = severity_critical;
      summary = x.port_scan_summary check.direction (host_label host) t.remote_ip (length ports);
      detail =
          x.port_scan_detail check.detail_dir t.remote_ip (length ports)
            (take port_scan_detail_port_cap parsed) (ltb port_scan_detail_port_cap (length parsed));
      dedupe_key = check.dedupe_prefix +++ t.remote_ip;
      detected_at = now;
    }

module _ (x : Texts) (e : PortScanFaults) (now : ℕ) (hosts : Hosts) where
  unfoldable pub check_target : PortScanCheck → ℕ → TargetKey × List ℕ → Watch → Watch
  unfolding alert_on port_scan_alert
  check_target check n (t, ports) w =
      alert_on (e.target_faults check.direction n) t.host_id (port_scan_alert x now check t ports)
        (now - port_scan_cooldown) hosts w

  -- One of the checks.
  unfoldable pub run_check : List FlowRecord → ℕ → PortScanCheck → Watch → Watch
  unfolding check_target each host_target_port_scans
  run_check flows n check w =
      elim (host_target_port_scans (e.query_fails n) (now - port_scan_window) now check.direction
        check.count_local_port port_scan_ports_per_target_threshold flows) [
          | err _ ↦ w
          | ok targets ↦ each (check_target check) targets w
        ]

  unfoldable pub port_scan : List FlowRecord → Alerts → Alerts
  unfolding run_check each
  port_scan flows alerts =
      (each (run_check flows) port_scan_checks (record { loaded = []; alerts = alerts })).alerts
