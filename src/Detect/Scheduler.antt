-- ===== src/Detect/Scheduler.antt =====
-- internal/detect/scheduler.go: what each tick does to the known peers, the alerts and the DNS
-- queries. The order of the ticks, and what the rest of the program writes between them, are the
-- list of ticks.
pub mod Keeps
pub mod Ticks
pub mod Spaced
pub mod Disabled
use shadow_stat.Base.{ℕ, String, ◌-◌, ◌*◌, Bool, List, [], ◌∷◌, ◌++◌, if◌then◌else◌}
use shadow_stat.Base.Float.{Float}
use shadow_stat.Store.Driver.{ok, err}
use shadow_stat.Store.Flows.{FlowRecord}
use shadow_stat.Store.Hosts.{Hosts}
use shadow_stat.Store.Settings.{
  SettingsTable, detector_enabled, key_detector_new_destination, key_detector_port_scan,
  key_detector_dns_anomaly, key_detector_exfil_ratio, key_detector_beaconing,
  key_detector_geo_watchlist,
}
use shadow_stat.Store.Dns.{DnsQueryRecord, prune_dns_queries}
use shadow_stat.Store.Alerts.{Alerts, PeerKey, KnownPeer, acknowledge_alert, acknowledge_all_alerts}
use shadow_stat.Detect.Raise.{Texts, hour}
use shadow_stat.Detect.NewDestination.{NewDestinationFaults, new_destinations}
use shadow_stat.Detect.PortScan.{PortScanFaults, port_scan}
use shadow_stat.Detect.DnsAnomaly.{DnsFaults, dns_anomaly}
use shadow_stat.Detect.Exfil.{ExfilFaults, exfil_ratio}
use shadow_stat.Detect.Beaconing.{BeaconingFaults, beaconing}
use shadow_stat.Detect.GeoWatchlist.{GeoTools, GeoFaults, geo_watchlist}

abbrev pub dns_queries_retention : ℕ
dns_queries_retention = 48 * hour

-- The tables that the detectors write.
pub record Detected : Type 0 where
  pub known_peers : List (PeerKey × KnownPeer)
  pub alerts : Alerts
  pub dns_queries : List DnsQueryRecord

-- What a detector reads when it runs; `setting_fails` says that its own switch cannot be read.
pub record Reads : Type 0 where
  pub now : ℕ
  pub setting_fails : Bool
  pub settings : SettingsTable
  pub flows : List FlowRecord
  pub hosts : Hosts

-- The cases of the select, and what handlers and the pipeline write to these tables meanwhile.
pub data Tick : Type 0 where
  tick_new_dest : NewDestinationFaults → Reads → Tick
  tick_port_scan : PortScanFaults → Reads → Tick
  tick_dns : DnsFaults → Reads → Tick
  tick_exfil : ExfilFaults → Reads → Tick
  tick_beacon : BeaconingFaults → Reads → Tick
  tick_geo : GeoFaults → Reads → Tick
  tick_prune : (fails : Bool) (now : ℕ) → Tick
  queries_inserted : List DnsQueryRecord → Tick
  alert_acknowledged : (fails : Bool) (id : ℕ) → Tick
  alerts_acknowledged : (fails : Bool) (kind : String) → Tick

abbrev pub with_alerts : Alerts → Detected → Detected
with_alerts alerts d = record d { alerts = alerts }

module _ {ℓ} {F : Type ℓ} (float : Float F) (g : GeoTools) (x : Texts) where
  -- One round of the loop.
  unfoldable pub run_tick : Tick → Detected → Detected
  unfolding detector_enabled new_destinations port_scan dns_anomaly exfil_ratio beaconing
      geo_watchlist prune_dns_queries acknowledge_alert acknowledge_all_alerts
  run_tick (tick_new_dest e r) d =
      let out = new_destinations x e r.now r.flows r.hosts d.known_peers d.alerts in
      if detector_enabled r.setting_fails key_detector_new_destination r.settings
      then record d { known_peers = out.0; alerts = out.1 }
      else d
  run_tick (tick_port_scan e r) d =
      if detector_enabled r.setting_fails key_detector_port_scan r.settings
      then with_alerts (port_scan x e r.now r.hosts r.flows d.alerts) d
      else d
  run_tick (tick_dns e r) d =
      if detector_enabled r.setting_fails key_detector_dns_anomaly r.settings
      then with_alerts (dns_anomaly float x e r.now r.hosts d.dns_queries d.alerts) d
      else d
  run_tick (tick_exfil e r) d =
      if detector_enabled r.setting_fails key_detector_exfil_ratio r.settings
      then with_alerts (exfil_ratio x e r.now r.flows r.hosts d.alerts) d
      else d
  run_tick (tick_beacon e r) d =
      if detector_enabled r.setting_fails key_detector_beaconing r.settings
      then with_alerts (beaconing float x e r.now r.hosts r.flows d.alerts) d
      else d
  run_tick (tick_geo e r) d =
      if detector_enabled r.setting_fails key_detector_geo_watchlist r.settings
      then with_alerts (geo_watchlist g x e r.now r.hosts r.settings r.flows d.alerts) d
      else d
  run_tick (tick_prune fails now) d =
      elim (prune_dns_queries fails (now - dns_queries_retention) d.dns_queries) [
        | err _ ↦ d
        | ok queries ↦ record d { dns_queries = queries }
      ]
  run_tick (queries_inserted queries) d = record d { dns_queries = d.dns_queries ++ queries }
  run_tick (alert_acknowledged fails id) d = elim (acknowledge_alert fails id d.alerts) [
    | err _ ↦ d
    | ok alerts ↦ with_alerts alerts d
  ]
  run_tick (alerts_acknowledged fails kind) d = elim (acknowledge_all_alerts fails kind d.alerts) [
    | err _ ↦ d
    | ok (count, alerts) ↦ with_alerts alerts d
  ]

  unfoldable pub run_scheduler : List Tick → Detected → Detected
  unfolding run_tick
  run_scheduler [] d = d
  run_scheduler (t ∷ rest) d = run_scheduler rest (run_tick t d)
