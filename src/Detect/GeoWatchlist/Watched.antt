-- ===== src/Detect/GeoWatchlist/Watched.antt =====
-- The alerts of the country detector are about peers of watched countries.
use shadow_stat.Base.{
  append-nil, sym, string_eq, ℕ, ◌-◌, ◌≡◌, refl, true, some, List, [], ◌∷◌, inl, inr, Bool-cases,
  Option-cases,
}
use shadow_stat.Base.Text.{Text}
use shadow_stat.Base.Assoc.{lookup}
use shadow_stat.Geoip.Table.{Country}
use shadow_stat.Store.Flows.{FlowRecord}
use shadow_stat.Store.Hosts.{Hosts}
use shadow_stat.Store.Settings.{SettingsTable, get_setting, key_geo_watchlist_countries}
use shadow_stat.Store.Alerts.{Alert, Alerts, PeerKey, DistinctRecentPeer, recent_flow_peers}
use shadow_stat.Detect.Raise.{
  Texts, Watch, OnlyNew, raise_alert-OnlyNew, alert_on-holds, each-keeps, geo_watchlist_cooldown,
}
use shadow_stat.Detect.Keeps.{if-keeps}
use shadow_stat.Detect.GeoWatchlist.{
  GeoTools, GeoFaults, GeoScan, geo_watchlist_scan_window, country_of_peer, has_code, geo_alert,
  is_seen, check_country, check_geo_peer, scan_peers, watched_codes, geo_watchlist, scan_watched,
  scan_setting,
}

-- The peer of the alert is of a country that the setting names.
pub record IsWatched (g : GeoTools) (raw : Text) (a : Alert) : Type 0 where
  pub country : Country
  pub located : country_of_peer g a.dedupe_key ≡ some country
  pub named : has_code country (watched_codes g raw) ≡ true

module _ (g : GeoTools) (x : Texts) (e : GeoFaults) (now : ℕ) (hosts : Hosts) (raw : Text)
    (old : List Alert) where
  check_country-OnlyNew :
      (n : ℕ) (k : PeerKey) (p : DistinctRecentPeer) (w : Watch)
      → OnlyNew (IsWatched g raw) old (w.alerts).rows
      → OnlyNew
          (IsWatched g raw)
          old
          ((check_country g x e now hosts (watched_codes g raw) n (k, p) w).alerts).rows
  unfolding check_country
  check_country-OnlyNew n k p w h = elim (Option-cases (country_of_peer g k.remote_ip)) [
    | inl unknown ↦ rw (check_country, unknown) h
    | inr (country, found) ↦ elim (Bool-cases (has_code country (watched_codes g raw))) [
      | inr other ↦ rw (check_country, found, other) h
      | inl named ↦
          rw (check_country, found, named)
            (alert_on-holds (λ t. OnlyNew (IsWatched g raw) old t.rows) (e.peer_faults n) k.host_id
              (geo_alert x now k p country) (now - geo_watchlist_cooldown) hosts w
              (λ host.
                raise_alert-OnlyNew (IsWatched g raw) old (e.peer_faults n).raise_faults
                  (geo_alert x now k p country host) (now - geo_watchlist_cooldown) w.alerts
                  (λ id. record { country = country; located = found; named = named }))
              h)
    ]
  ]

  check_geo_peer-OnlyNew :
      (n : ℕ) (q : PeerKey × DistinctRecentPeer) (s : GeoScan)
      → OnlyNew (IsWatched g raw) old ((s.watch).alerts).rows
      → OnlyNew
          (IsWatched g raw)
          old
          (((check_geo_peer g x e now hosts (watched_codes g raw) n q s).watch).alerts).rows
  unfolding check_geo_peer
  check_geo_peer-OnlyNew n (k, p) s h =
      if-keeps (λ v. OnlyNew (IsWatched g raw) old ((v.watch).alerts).rows)
        (is_seen (record { host_id = k.host_id; remote_ip = k.remote_ip }) s.seen) s _ h
        (check_country-OnlyNew n k p s.watch h)

  scan_peers-OnlyNew :
      (flows : List FlowRecord) (alerts : Alerts)
      → OnlyNew (IsWatched g raw) old alerts.rows
      → OnlyNew
          (IsWatched g raw)
          old
          (scan_peers g x e now hosts (watched_codes g raw) flows alerts).rows
  unfolding scan_peers
  scan_peers-OnlyNew flows alerts h =
      if-keeps (λ t. OnlyNew (IsWatched g raw) old t.rows) e.peers_fails alerts _ h
        (each-keeps (λ v. OnlyNew (IsWatched g raw) old ((v.watch).alerts).rows)
          (check_geo_peer g x e now hosts (watched_codes g raw)) check_geo_peer-OnlyNew
          (recent_flow_peers (now - geo_watchlist_scan_window) now flows)
          (record { seen = []; watch = record { loaded = []; alerts = alerts } }) h)

  scan_watched-OnlyNew :
      (codes : List Text) (flows : List FlowRecord) (alerts : Alerts)
      → codes ≡ watched_codes g raw
      → OnlyNew (IsWatched g raw) old alerts.rows
      → OnlyNew (IsWatched g raw) old (scan_watched g x e now hosts codes flows alerts).rows
  scan_watched-OnlyNew [] flows alerts c h = h
  scan_watched-OnlyNew (code ∷ rest) flows alerts c h = rw c (scan_peers-OnlyNew flows alerts h)

-- A run of the country detector, whichever calls fail, appends alerts to those there were, and each
-- is about a peer whose address the table gives a country that the setting names.
pub geo_watchlist-OnlyNew :
    (g : GeoTools) (x : Texts) (e : GeoFaults) (now : ℕ) (hosts : Hosts) (settings : SettingsTable)
    (raw : Text) (flows : List FlowRecord) (alerts : Alerts)
    → lookup key_geo_watchlist_countries settings ≡ some raw
    → OnlyNew
        (IsWatched g raw)
        alerts.rows
        (geo_watchlist g x e now hosts settings flows alerts).rows
unfolding geo_watchlist get_setting scan_setting
geo_watchlist-OnlyNew g x e now hosts settings raw flows alerts h =
    elim (Bool-cases e.setting_fails) [
      | inl fails ↦ rw (geo_watchlist, fails) nothing_new
      | inr works ↦
          rw (geo_watchlist, works, h)
            (scan_watched-OnlyNew g x e now hosts raw alerts.rows (watched_codes g raw) flows alerts
              refl nothing_new)
    ]
  where
    nothing_new : OnlyNew (IsWatched g raw) alerts.rows alerts.rows
    nothing_new = record { new = []; appended = sym (append-nil alerts.rows); satisfied = tt }
