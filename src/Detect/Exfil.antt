-- ===== src/Detect/Exfil.antt =====
-- internal/detect/exfil.go. The source compares a float64 ratio with 5; here the comparison is made
-- on the integers, with the same result while fewer than 2 ^ 50 bytes are received in an hour.
use shadow_stat.Base.{
  ℕ, ◌-◌, ◌*◌, String, Bool, true, false, ◌&&◌, List, [], ◌∷◌, ltb, if◌then◌else◌,
}
use shadow_stat.Store.Driver.{ok, err}
use shadow_stat.Store.Flows.{FlowRecord}
use shadow_stat.Store.Hosts.{Hosts, host_by_id}
use shadow_stat.Store.Alerts.{
  Alerts, AlertRecord, HostByteTotals, host_outbound_totals, alert_kind_exfil_ratio,
  severity_warning,
}
use shadow_stat.Detect.Raise.{RaiseFaults, Texts, host_label, raise_alert, exfil_cooldown, hour}

-- Which calls fail in one run.
pub record ExfilFaults : Type 0 where
  pub totals_fails : Bool
  pub host_fails : ℕ → Bool
  pub raise_faults : ℕ → RaiseFaults

abbrev pub exfil_window : ℕ
exfil_window = hour

abbrev pub exfil_min_bytes_sent : ℕ
exfil_min_bytes_sent = 20 * 1024 * 1024

unfoldable pub is_suspicious : HostByteTotals → Bool
is_suspicious t =
    if ltb t.bytes_sent exfil_min_bytes_sent
    then false
    else if ltb 0 t.bytes_recv && ltb t.bytes_sent (5 * t.bytes_recv)
    then false
    else true

abbrev pub exfil_alert : Texts → String → ℕ → ℕ → HostByteTotals → AlertRecord
exfil_alert x label host_id now t = record {
  host_id = host_id;
  kind = alert_kind_exfil_ratio;
  severity = severity_warning;
  summary = x.exfil_summary label t;
  detail = x.exfil_detail t;
  dedupe_key = "outbound_ratio";
  detected_at = now;
}

-- The loop over the totals.
unfoldable pub exfil_each :
    Texts → ExfilFaults → ℕ → List (ℕ × HostByteTotals) → Hosts → Alerts → Alerts
unfolding is_suspicious host_by_id host_label raise_alert
exfil_each x e now [] hosts alerts = alerts
exfil_each x e now ((id, t) ∷ rest) hosts alerts = exfil_each x e now rest hosts (
    if is_suspicious t
    then elim (host_by_id (e.host_fails id) id hosts) [
      | err _ ↦ alerts
      | ok host ↦
          raise_alert (e.raise_faults id) (exfil_alert x (host_label host) id now t)
            (now - exfil_cooldown) alerts
    ]
    else alerts)

unfoldable pub exfil_ratio : Texts → ExfilFaults → ℕ → List FlowRecord → Hosts → Alerts → Alerts
unfolding exfil_each host_outbound_totals
exfil_ratio x e now flows hosts alerts =
    if e.totals_fails
    then alerts
    else exfil_each x e now (host_outbound_totals (now - exfil_window) now flows) hosts alerts
