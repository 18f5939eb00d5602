-- ===== src/Detect/DnsAnomaly.antt =====
-- internal/detect/dns_anomaly.go.
pub mod Entropy
use shadow_stat.Base.{
  ℕ, ◌-◌, ◌*◌, String, Bool, true, false, ◌||◌, List, [], ◌∷◌, ltb, if◌then◌else◌, ◌≡◌, refl, arith,
}
use Prim.Native.String.{◌++◌ as ◌+++◌}
use shadow_stat.Base.Text.{codes, byte_length}
use shadow_stat.Base.Float.{Float}
use shadow_stat.Store.Driver.{ok, err}
use shadow_stat.Store.Hosts.{Host, Hosts}
use shadow_stat.Store.Dns.{DnsQueryRecord, DnsQueryRow, dns_query_counts, dns_queries_in_range}
use shadow_stat.Store.Alerts.{
  Alerts, AlertRecord, alert_kind_dns_anomaly, severity_info, severity_warning,
}
use shadow_stat.Detect.Raise.{
  Texts, LoopFaults, Watch, host_label, alert_on, each, dns_volume_cooldown, dns_entropy_cooldown,
}
use shadow_stat.Detect.DnsAnomaly.Entropy.{MapOrder, leftmost_label, shannon_entropy}

abbrev pub dns_window : ℕ
dns_window = 600

abbrev pub dns_volume_threshold : ℕ
dns_volume_threshold = 300

abbrev pub dns_entropy_min_label_len : ℕ
dns_entropy_min_label_len = 12

-- Which calls fail, and the order in which the characters counted in a label are met.
pub record DnsFaults : Type 0 where
  pub counts_fails : Bool
  pub queries_fails : Bool
  pub volume_faults : ℕ → LoopFaults
  pub entropy_faults : ℕ → LoopFaults
  pub order : MapOrder

abbrev pub volume_alert : Texts → ℕ → ℕ → ℕ → Host → AlertRecord
volume_alert x now host_id count host = record {
  host_id = host_id;
  kind = alert_kind_dns_anomaly;
  severity = severity_warning;
  summary = x.volume_summary (host_label host) count;
  detail = x.volume_detail count;
  dedupe_key = "volume";
  detected_at = now;
}

abbrev pub entropy_alert : Texts → ℕ → DnsQueryRow → Host → AlertRecord
entropy_alert x now r host = record {
  host_id = r.host_id;
  kind = alert_kind_dns_anomaly;
  severity = severity_info;
  summary = x.entropy_summary (host_label host) r.qname;
  detail = x.entropy_detail r.qname;
  dedupe_key = "entropy:" +++ r.qname;
  detected_at = now;
}

module _ {ℓ} {F : Type ℓ} (float : Float F) (x : Texts) (e : DnsFaults) (now : ℕ)
    (hosts : Hosts) where
  -- HostByID is called in every round.
  unfoldable pub check_count : ℕ → ℕ × ℕ → Alerts → Alerts
  unfolding alert_on host_label
  check_count n (host_id, count) alerts =
      if ltb count dns_volume_threshold
      then alerts
      else (alert_on (e.volume_faults n) host_id (volume_alert x now host_id count)
          (now - dns_volume_cooldown) hosts (record { loaded = []; alerts = alerts })).alerts

  unfoldable pub dns_volume : List DnsQueryRecord → Alerts → Alerts
  unfolding check_count each dns_query_counts
  dns_volume queries alerts =
      elim (dns_query_counts e.counts_fails (now - dns_window) now queries) [
        | err _ ↦ alerts
        | ok counts ↦ each check_count counts alerts
      ]

  -- 3.6 is the number nearest to 18 / 5.
  unfoldable pub check_query : ℕ → DnsQueryRow → Watch → Watch
  unfolding alert_on host_label leftmost_label shannon_entropy byte_length
  check_query n r w =
      let label = leftmost_label (codes r.qname) in
      if ltb (byte_length label) dns_entropy_min_label_len
      then w
      else if float.lt (shannon_entropy float e.order label)
          (float.div (float.of_int 18) (float.of_int 5))
      then w
      else alert_on (e.entropy_faults n) r.host_id (entropy_alert x now r)
          (now - dns_entropy_cooldown) hosts w

  unfoldable pub dns_entropy : List DnsQueryRecord → Alerts → Alerts
  unfolding check_query each dns_queries_in_range
  dns_entropy queries alerts =
      elim (dns_queries_in_range e.queries_fails (now - dns_window) now queries) [
        | err _ ↦ alerts
        | ok rows ↦ (each check_query rows (record { loaded = []; alerts = alerts })).alerts
      ]

  unfoldable pub dns_anomaly : List DnsQueryRecord → Alerts → Alerts
  unfolding dns_volume dns_entropy
  dns_anomaly queries alerts = dns_entropy queries (dns_volume queries alerts)
