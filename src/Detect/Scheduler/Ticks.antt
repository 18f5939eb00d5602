-- ===== src/Detect/Scheduler/Ticks.antt =====
-- A tick keeps what the alerts of its own kind keep, when its detector is enabled.
use shadow_stat.Base.{
  ◌-◌, ◌≡◌, refl, String, Bool, true, false, Option, none, some, inl, inr, if◌then◌else◌, ◌==◌,
  update_where,
}
use shadow_stat.Base.Float.{Float}
use shadow_stat.Store.Driver.{Result-cases}
use shadow_stat.Store.Settings.{
  detector_enabled, key_detector_new_destination, key_detector_port_scan, key_detector_dns_anomaly,
  key_detector_exfil_ratio, key_detector_beaconing, key_detector_geo_watchlist,
}
use shadow_stat.Store.Dns.{prune_dns_queries}
use shadow_stat.Store.Alerts.{
  Alert, Alerts, acknowledge_alert, acknowledge_all_alerts, acknowledged, is_open,
  alert_kind_new_destination, alert_kind_port_scan, alert_kind_dns_anomaly, alert_kind_exfil_ratio,
  alert_kind_beaconing, alert_kind_geo_watchlist,
}
use shadow_stat.Detect.Raise.{Texts, Raises}
use shadow_stat.Detect.GeoWatchlist.{GeoTools}
use shadow_stat.Detect.Keeps.{exfil_ratio-keeps, new_destinations-keeps}
use shadow_stat.Detect.Scheduler.Keeps.{
  port_scan-keeps, dns_anomaly-keeps, beaconing-keeps, geo_watchlist-keeps,
}
use shadow_stat.Detect.Scheduler.{
  Detected, Reads, Tick, tick_new_dest, tick_port_scan, tick_dns, tick_exfil, tick_beacon, tick_geo,
  tick_prune, queries_inserted, alert_acknowledged, alerts_acknowledged, run_tick,
  dns_queries_retention,
}

abbrev enabled_in : Reads → String → Bool
enabled_in r key = detector_enabled r.setting_fails key r.settings

-- The kind of alert that the detector of a tick raises, if it is enabled.
unfoldable pub runs_kind : Tick → Option String
unfolding detector_enabled
runs_kind (tick_new_dest e r) =
    if enabled_in r key_detector_new_destination then some alert_kind_new_destination else none
runs_kind (tick_port_scan e r) =
    if enabled_in r key_detector_port_scan then some alert_kind_port_scan else none
runs_kind (tick_dns e r) =
    if enabled_in r key_detector_dns_anomaly then some alert_kind_dns_anomaly else none
runs_kind (tick_exfil e r) =
    if enabled_in r key_detector_exfil_ratio then some alert_kind_exfil_ratio else none
runs_kind (tick_beacon e r) =
    if enabled_in r key_detector_beaconing then some alert_kind_beaconing else none
runs_kind (tick_geo e r) =
    if enabled_in r key_detector_geo_watchlist then some alert_kind_geo_watchlist else none
runs_kind (tick_prune fails now) = none
runs_kind (queries_inserted queries) = none
runs_kind (alert_acknowledged fails id) = none
runs_kind (alerts_acknowledged fails kind) = none

-- What holds of the branch taken holds of an `if`.
switch-keeps {ℓ κ} :
    {S : Type ℓ} (P : S → Type κ) (b : Bool) (kind : String) (s t : S)
    → ((if b then some kind else none) ≡ some kind → P s)
    → P t
    → P (if b then s else t)
switch-keeps P true kind s t h k = h refl
switch-keeps P false kind s t h k = k

module _ {ℓ} {F : Type ℓ} (float : Float F) (g : GeoTools) (x : Texts) (P : Alerts → Type 0) where
  pub run_tick-keeps :
      (t : Tick) (d : Detected)
      → ((kind : String) → runs_kind t ≡ some kind → Raises P kind)
      → ((p : Alert → Bool) (alerts : Alerts)
          → P alerts
          → P (record alerts { rows = update_where p acknowledged alerts.rows }))
      → P d.alerts
      → P (run_tick float g x t d).alerts
  unfolding run_tick runs_kind acknowledge_alert acknowledge_all_alerts
  run_tick-keeps (tick_new_dest e r) d k a p =
      switch-keeps (λ c. P c.alerts) (enabled_in r key_detector_new_destination)
        alert_kind_new_destination _ d
        (λ on.
          new_destinations-keeps P (k alert_kind_new_destination on) x e r.now r.flows r.hosts
            d.known_peers d.alerts p)
        p
  run_tick-keeps (tick_port_scan e r) d k a p =
      switch-keeps (λ c. P c.alerts) (enabled_in r key_detector_port_scan) alert_kind_port_scan _ d
        (λ on. port_scan-keeps P (k alert_kind_port_scan on) x e r.now r.hosts r.flows d.alerts p) p
  run_tick-keeps (tick_dns e r) d k a p =
      switch-keeps (λ c. P c.alerts) (enabled_in r key_detector_dns_anomaly) alert_kind_dns_anomaly
        _ d
        (λ on.
          dns_anomaly-keeps float P (k alert_kind_dns_anomaly on) x e r.now r.hosts d.dns_queries
            d.alerts p)
        p
  run_tick-keeps (tick_exfil e r) d k a p =
      switch-keeps (λ c. P c.alerts) (enabled_in r key_detector_exfil_ratio) alert_kind_exfil_ratio
        _ d
        (λ on.
          exfil_ratio-keeps P (k alert_kind_exfil_ratio on) x e r.now r.flows r.hosts d.alerts p)
        p
  run_tick-keeps (tick_beacon e r) d k a p =
      switch-keeps (λ c. P c.alerts) (enabled_in r key_detector_beaconing) alert_kind_beaconing _ d
        (λ on.
          beaconing-keeps float P (k alert_kind_beaconing on) x e r.now r.hosts r.flows d.alerts p)
        p
  run_tick-keeps (tick_geo e r) d k a p =
      switch-keeps (λ c. P c.alerts) (enabled_in r key_detector_geo_watchlist)
        alert_kind_geo_watchlist _ d
        (λ on.
          geo_watchlist-keeps P (k alert_kind_geo_watchlist on) g x e r.now r.hosts r.settings
            r.flows d.alerts p)
        p
  run_tick-keeps (tick_prune fails now) d k a p =
      elim (Result-cases (prune_dns_queries fails (now - dns_queries_retention) d.dns_queries)) [
        | inl (error, failed) ↦ rw (run_tick, failed) p
        | inr (queries, worked) ↦ rw (run_tick, worked) p
      ]
  run_tick-keeps (queries_inserted queries) d k a p = p
  run_tick-keeps (alert_acknowledged true id) d k a p = p
  run_tick-keeps (alert_acknowledged false id) d k a p = a (λ b. b.id == id) d.alerts p
  run_tick-keeps (alerts_acknowledged true kind) d k a p = p
  run_tick-keeps (alerts_acknowledged false kind) d k a p = a (is_open kind) d.alerts p
