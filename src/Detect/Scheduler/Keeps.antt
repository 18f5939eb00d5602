-- ===== src/Detect/Scheduler/Keeps.antt =====
-- What every raised alert of a kind keeps, the runs of the other detectors of that kind keep, and
-- so does a tick of the scheduler.
use shadow_stat.Base.{
  ℕ, ◌-◌, ◌≡◌, refl, ap, str_eq_iff, String, false, not, Option, none, some, List, [], ◌∷◌, ltb,
  inl, inr, Bool-cases, Option-cases, str_eq, arith,
}
use Prim.Native.String.{◌++◌ as ◌+++◌}
use Prim.Native.String.append
use mathlib.Core.Path.{sym, ◌∙◌}
use shadow_stat.Base.Float.{Float}
use shadow_stat.Base.Text.{Text, codes, byte_length}
use shadow_stat.Store.Driver.{Result-cases}
use shadow_stat.Store.Flows.{FlowRecord}
use shadow_stat.Store.Hosts.{Hosts}
use shadow_stat.Store.Settings.{SettingsTable, get_setting, key_geo_watchlist_countries}
use shadow_stat.Store.Dns.{DnsQueryRecord, DnsQueryRow, dns_query_counts, dns_queries_in_range}
use shadow_stat.Store.DetectQueries.{TargetKey, host_target_port_scans, peer_flow_timestamps}
use shadow_stat.Store.Alerts.{
  Alerts, PeerKey, DistinctRecentPeer, recent_flow_peers, alert_kind_port_scan,
  alert_kind_dns_anomaly, alert_kind_beaconing, alert_kind_geo_watchlist,
}
use shadow_stat.Detect.Raise.{
  Texts, Watch, Raises, alert_on-keeps, each-keeps, cooldown, port_scan_cooldown,
  dns_volume_cooldown, dns_entropy_cooldown, beaconing_cooldown, geo_watchlist_cooldown,
}
use shadow_stat.Detect.Keeps.{if-keeps}
use shadow_stat.Detect.PortScan.{
  PortScanFaults, PortScanCheck, port_scan_checks, port_scan_window,
  port_scan_ports_per_target_threshold, port_scan_alert, check_target, run_check, port_scan,
}
use shadow_stat.Detect.DnsAnomaly.{
  DnsFaults, dns_window, dns_volume_threshold, dns_entropy_min_label_len, volume_alert,
  entropy_alert, check_count, dns_volume, check_query, dns_entropy, dns_anomaly,
}
use shadow_stat.Detect.DnsAnomaly.Entropy.{leftmost_label, shannon_entropy}
use shadow_stat.Detect.Beaconing.{
  BeaconingFaults, beaconing_window, group_timestamps, is_beacon, beacon_alert, check_group,
  beaconing,
}
use shadow_stat.Detect.GeoWatchlist.{
  GeoTools, GeoFaults, GeoScan, geo_watchlist_scan_window, country_of_peer, has_code, geo_alert,
  is_seen, check_country, check_geo_peer, scan_peers, watched_codes, geo_watchlist, scan_watched,
  scan_setting,
}

module _ (P : Alerts → Type 0) (r : Raises P alert_kind_port_scan) (x : Texts) (e : PortScanFaults)
    (now : ℕ) (hosts : Hosts) where
  check_target-keeps :
      (check : PortScanCheck) (n : ℕ) (t : TargetKey × List ℕ) (w : Watch)
      → P w.alerts
      → P (check_target x e now hosts check n t w).alerts
  unfolding check_target cooldown port_scan_alert
  check_target-keeps check n (t, ports) w p =
      alert_on-keeps P alert_kind_port_scan (e.target_faults check.direction n) t.host_id
        (port_scan_alert x now check t ports) (now - port_scan_cooldown) hosts w r (λ h. refl)
        (λ h. refl) p

  run_check-keeps :
      (flows : List FlowRecord) (n : ℕ) (check : PortScanCheck) (w : Watch)
      → P w.alerts
      → P (run_check x e now hosts flows n check w).alerts
  unfolding run_check
  run_check-keeps flows n check w p =
      elim (Result-cases (
        host_target_port_scans (e.query_fails n) (now - port_scan_window) now check.direction
          check.count_local_port port_scan_ports_per_target_threshold flows)) [
            | inl (error, fails) ↦ rw (run_check, fails) p
            | inr (targets, found) ↦
                rw (run_check, found)
                  (each-keeps (λ v. P v.alerts) (check_target x e now hosts check)
                    (check_target-keeps check) targets w p)
          ]

  pub port_scan-keeps :
      (flows : List FlowRecord) (alerts : Alerts)
      → P alerts
      → P (port_scan x e now hosts flows alerts)
  unfolding port_scan
  port_scan-keeps flows alerts p =
      each-keeps (λ v. P v.alerts) (run_check x e now hosts flows) (run_check-keeps flows)
        port_scan_checks (record { loaded = []; alerts = alerts }) p

abbrev first : String → ℕ
first s = elim (codes s) [ [] ↦ 0 | c ∷ rest ↦ c ]

-- The key of an entropy alert is never the key of a volume alert.
entropy_key : (q : String) → str_eq ("entropy:" +++ q) "volume" ≡ false
entropy_key q = elim (Bool-cases (str_eq ("entropy:" +++ q) "volume")) [
  | inr other ↦ other
  | inl same ↦
      let h : first (String.◌∷◌ "e" ("ntropy:" +++ q)) ≡ first "volume" =
        ap first
          (sym (append.cons "e" "ntropy:" q) ∙ (str_eq_iff ("entropy:" +++ q) "volume").0 same) in
      ground arith
]

module _ {ℓ} {F : Type ℓ} (float : Float F) (P : Alerts → Type 0)
    (r : Raises P alert_kind_dns_anomaly) (x : Texts) (e : DnsFaults) (now : ℕ)
    (hosts : Hosts) where
  check_count-keeps :
      (n : ℕ) (c : ℕ × ℕ) (alerts : Alerts)
      → P alerts
      → P (check_count float x e now hosts n c alerts)
  unfolding check_count cooldown
  check_count-keeps n (host_id, count) alerts p =
      if-keeps P (ltb count dns_volume_threshold) alerts _ p (
        alert_on-keeps P alert_kind_dns_anomaly (e.volume_faults n) host_id
          (volume_alert x now host_id count) (now - dns_volume_cooldown) hosts
          (record { loaded = []; alerts = alerts }) r (λ h. refl) (λ h. refl) p)

  dns_volume-keeps :
      (queries : List DnsQueryRecord) (alerts : Alerts)
      → P alerts
      → P (dns_volume float x e now hosts queries alerts)
  unfolding dns_volume
  dns_volume-keeps queries alerts p =
      elim (Result-cases (dns_query_counts e.counts_fails (now - dns_window) now queries)) [
        | inl (error, fails) ↦ rw (dns_volume, fails) p
        | inr (counts, found) ↦
            rw (dns_volume, found)
              (each-keeps P (check_count float x e now hosts) check_count-keeps counts alerts p)
      ]

  entropy_cooldown :
      (q : String)
      → now - cooldown alert_kind_dns_anomaly ("entropy:" +++ q) ≡ now - dns_entropy_cooldown
  unfolding cooldown
  entropy_cooldown q = rw (entropy_key q) refl

  check_query-keeps :
      (n : ℕ) (q : DnsQueryRow) (w : Watch)
      → P w.alerts
      → P (check_query float x e now hosts n q w).alerts
  unfolding check_query
  check_query-keeps n q w p =
      if-keeps (λ v. P v.alerts)
        (ltb (byte_length (leftmost_label (codes q.qname))) dns_entropy_min_label_len) w _ p
        (if-keeps (λ v. P v.alerts)
          (float.lt (shannon_entropy float e.order (leftmost_label (codes q.qname)))
            (float.div (float.of_int 18) (float.of_int 5)))
          w _ p
          (alert_on-keeps P alert_kind_dns_anomaly (e.entropy_faults n) q.host_id
            (entropy_alert x now q) (now - dns_entropy_cooldown) hosts w r (λ h. refl)
            (λ h. entropy_cooldown q.qname) p))

  dns_entropy-keeps :
      (queries : List DnsQueryRecord) (alerts : Alerts)
      → P alerts
      → P (dns_entropy float x e now hosts queries alerts)
  unfolding dns_entropy
  dns_entropy-keeps queries alerts p =
      elim (Result-cases (dns_queries_in_range e.queries_fails (now - dns_window) now queries)) [
        | inl (error, fails) ↦ rw (dns_entropy, fails) p
        | inr (rows, found) ↦
            rw (dns_entropy, found)
              (each-keeps (λ v. P v.alerts) (check_query float x e now hosts) check_query-keeps rows
                (record { loaded = []; alerts = alerts }) p)
      ]

  pub dns_anomaly-keeps :
      (queries : List DnsQueryRecord) (alerts : Alerts)
      → P alerts
      → P (dns_anomaly float x e now hosts queries alerts)
  unfolding dns_anomaly
  dns_anomaly-keeps queries alerts p =
      dns_entropy-keeps queries (dns_volume float x e now hosts queries alerts)
        (dns_volume-keeps queries alerts p)

module _ {ℓ} {F : Type ℓ} (float : Float F) (P : Alerts → Type 0)
    (r : Raises P alert_kind_beaconing) (x : Texts) (e : BeaconingFaults) (now : ℕ)
    (hosts : Hosts) where
  check_group-keeps :
      (n : ℕ) (g : PeerKey × List ℕ) (w : Watch)
      → P w.alerts
      → P (check_group float x e now hosts n g w).alerts
  unfolding check_group cooldown
  check_group-keeps n (k, timestamps) w p =
      if-keeps (λ v. P v.alerts) (is_beacon float timestamps) _ w
        (alert_on-keeps P alert_kind_beaconing (e.peer_faults n) k.host_id
          (beacon_alert x now k timestamps) (now - beaconing_cooldown) hosts w r (λ h. refl)
          (λ h. refl) p)
        p

  pub beaconing-keeps :
      (flows : List FlowRecord) (alerts : Alerts)
      → P alerts
      → P (beaconing float x e now hosts flows alerts)
  unfolding beaconing
  beaconing-keeps flows alerts p =
      elim (Result-cases (peer_flow_timestamps e.rows_fails (now - beaconing_window) now flows)) [
        | inl (error, fails) ↦ rw (beaconing, fails) p
        | inr (rows, found) ↦
            rw (beaconing, found)
              (each-keeps (λ v. P v.alerts) (check_group float x e now hosts) check_group-keeps
                (e.order (group_timestamps rows [])) (record { loaded = []; alerts = alerts }) p)
      ]

module _ (P : Alerts → Type 0) (r : Raises P alert_kind_geo_watchlist) (g : GeoTools) (x : Texts)
    (e : GeoFaults) (now : ℕ) (hosts : Hosts) where
  check_country-keeps :
      (codes_watched : List Text) (n : ℕ) (k : PeerKey) (p : DistinctRecentPeer) (w : Watch)
      → P w.alerts
      → P (check_country g x e now hosts codes_watched n (k, p) w).alerts
  unfolding check_country cooldown
  check_country-keeps codes_watched n k p w h =
      elim (Option-cases (country_of_peer g k.remote_ip)) [
        | inl unknown ↦ rw (check_country, unknown) h
        | inr (country, found) ↦
            rw (check_country, found)
              (if-keeps (λ v. P v.alerts) (not (has_code country codes_watched)) w _ h
                (alert_on-keeps P alert_kind_geo_watchlist (e.peer_faults n) k.host_id
                  (geo_alert x now k p country) (now - geo_watchlist_cooldown) hosts w r (λ h. refl)
                  (λ h. refl) h))
      ]

  check_geo_peer-keeps :
      (codes_watched : List Text) (n : ℕ) (q : PeerKey × DistinctRecentPeer) (s : GeoScan)
      → P (s.watch).alerts
      → P ((check_geo_peer g x e now hosts codes_watched n q s).watch).alerts
  unfolding check_geo_peer
  check_geo_peer-keeps codes_watched n (k, p) s h =
      if-keeps (λ v. P (v.watch).alerts)
        (is_seen (record { host_id = k.host_id; remote_ip = k.remote_ip }) s.seen) s _ h
        (check_country-keeps codes_watched n k p s.watch h)

  scan_peers-keeps :
      (codes_watched : List Text) (flows : List FlowRecord) (alerts : Alerts)
      → P alerts
      → P (scan_peers g x e now hosts codes_watched flows alerts)
  unfolding scan_peers
  scan_peers-keeps codes_watched flows alerts h = if-keeps P e.peers_fails alerts _ h (
      each-keeps (λ v. P (v.watch).alerts) (check_geo_peer g x e now hosts codes_watched)
        (check_geo_peer-keeps codes_watched)
        (recent_flow_peers (now - geo_watchlist_scan_window) now flows)
        (record { seen = []; watch = record { loaded = []; alerts = alerts } }) h)

  scan_watched-keeps :
      (codes_watched : List Text) (flows : List FlowRecord) (alerts : Alerts)
      → P alerts
      → P (scan_watched g x e now hosts codes_watched flows alerts)
  scan_watched-keeps [] flows alerts h = h
  scan_watched-keeps (c ∷ rest) flows alerts h = scan_peers-keeps (c ∷ rest) flows alerts h

  set-keeps :
      (value : Option Text) (flows : List FlowRecord) (alerts : Alerts)
      → P alerts
      → P (scan_setting g x e now hosts value flows alerts)
  unfolding scan_setting
  set-keeps none flows alerts h = h
  set-keeps (some raw) flows alerts h = scan_watched-keeps (watched_codes g raw) flows alerts h

  pub geo_watchlist-keeps :
      (settings : SettingsTable) (flows : List FlowRecord) (alerts : Alerts)
      → P alerts
      → P (geo_watchlist g x e now hosts settings flows alerts)
  unfolding geo_watchlist
  geo_watchlist-keeps settings flows alerts h =
      elim (Result-cases (get_setting e.setting_fails key_geo_watchlist_countries settings)) [
        | inl (error, fails) ↦ rw (geo_watchlist, fails) h
        | inr (value, found) ↦ rw (geo_watchlist, found) (set-keeps value flows alerts h)
      ]
