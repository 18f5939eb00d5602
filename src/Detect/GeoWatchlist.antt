-- ===== src/Detect/GeoWatchlist.antt =====
-- internal/detect/geo_watchlist.go.
pub mod Watched
use shadow_stat.Base.{
  ℕ, ◌-◌, ◌*◌, String, Bool, true, false, ◌&&◌, ◌||◌, not, Option, none, some, List, [], ◌∷◌, ltb,
  ◌==◌, if◌then◌else◌, str_eq,
}
use shadow_stat.Base.Text.{Text, codes, text_beq, trim_space, byte_length}
use shadow_stat.Geoip.Table.{Range, Country}
use shadow_stat.Geoip.Lookup.{country_for_ip}
use shadow_stat.Store.Driver.{ok, err}
use shadow_stat.Store.Flows.{FlowRecord}
use shadow_stat.Store.Hosts.{Host, Hosts}
use shadow_stat.Store.Settings.{SettingsTable, get_setting, key_geo_watchlist_countries}
use shadow_stat.Store.DetectQueries.{TargetKey, same_target}
use shadow_stat.Store.Alerts.{
  Alerts, AlertRecord, PeerKey, DistinctRecentPeer, recent_flow_peers, alert_kind_geo_watchlist,
  severity_warning,
}
use shadow_stat.Detect.Raise.{
  Texts, LoopFaults, Watch, host_label, classify_peer_direction, alert_on, each,
  geo_watchlist_cooldown,
}

abbrev pub geo_watchlist_scan_window : ℕ
geo_watchlist_scan_window = 120

abbrev is_separator : ℕ → Bool
is_separator c = (c == b',') || ((c == b' ') || ((c == 9) || ((c == 10) || (c == 13))))

abbrev cons_field : Text → List Text → List Text
cons_field [] fields = fields
cons_field (c ∷ s) fields = (c ∷ s) ∷ fields

-- strings.FieldsFunc: the characters up to the first separator, and the fields behind it.
unfoldable pub fields_from : Text → Text × List Text
fields_from [] = ([], [])
fields_from (c ∷ s) =
    let rest = fields_from s in
    if is_separator c then ([], cons_field rest.0 rest.1) else (c ∷ rest.0, rest.1)

unfoldable pub fields : Text → List Text
unfolding fields_from
fields s = cons_field (fields_from s).0 (fields_from s).1

abbrev country_text : Country → Text
country_text country = country.hi ∷ country.lo ∷ []

-- A set of codes, as a list.
unfoldable pub has_code : Country → List Text → Bool
unfolding text_beq
has_code country [] = false
has_code country (c ∷ rest) = text_beq c (country_text country) || has_code country rest

-- strings.ToUpper, net.ParseIP with To4, and the table of ranges.
pub record GeoTools : Type 0 where
  pub to_upper : Text → Text
  -- `none` when the text is no address, `some none` when the address is not of IPv4
  pub parse_ip : String → Option (Option ℕ)
  pub ranges : List Range

unfoldable pub parse_geo_watchlist : GeoTools → List Text → List Text
unfolding byte_length trim_space
parse_geo_watchlist g [] = []
parse_geo_watchlist g (part ∷ rest) =
    let code = g.to_upper (trim_space part) in
    let out = parse_geo_watchlist g rest in if byte_length code == 2 then code ∷ out else out

unfoldable pub country_of_peer : GeoTools → String → Option Country
unfolding country_for_ip
country_of_peer g ip = elim (g.parse_ip ip) [
  | none ↦ none
  | some target ↦ country_for_ip g.ranges target
]

-- Which calls fail in one run.
pub record GeoFaults : Type 0 where
  pub setting_fails : Bool
  pub peers_fails : Bool
  pub peer_faults : ℕ → LoopFaults

-- The pairs met in this run, and the hosts and alerts.
pub record GeoScan : Type 0 where
  pub seen : List TargetKey
  pub watch : Watch

unfoldable pub is_seen : TargetKey → List TargetKey → Bool
unfolding same_target
is_seen k [] = false
is_seen k (j ∷ rest) = same_target j k || is_seen k rest

abbrev pub geo_alert : Texts → ℕ → PeerKey → DistinctRecentPeer → Country → Host → AlertRecord
geo_alert x now k p country host =
    let direction = classify_peer_direction p.had_outbound p.had_inbound in
    record {
      host_id = k.host_id;
      kind = alert_kind_geo_watchlist;
      severity = severity_warning;
      summary = x.geo_summary (host_label host) direction.1 (country_text country) k.remote_ip;
      detail = x.geo_detail k.remote_ip (country_text country) direction.0;
      dedupe_key = k.remote_ip;
      detected_at = now;
    }

module _ (g : GeoTools) (x : Texts) (e : GeoFaults) (now : ℕ) (hosts : Hosts)
    (codes_watched : List Text) where
  -- A peer that is met for the first time in this run.
  unfoldable pub check_country : ℕ → PeerKey × DistinctRecentPeer → Watch → Watch
  unfolding alert_on host_label country_of_peer has_code
  check_country n (k, p) w = elim (country_of_peer g k.remote_ip) [
    | none ↦ w
    | some country ↦
        if not (has_code country codes_watched)
        then w
        else alert_on (e.peer_faults n) k.host_id (geo_alert x now k p country)
            (now - geo_watchlist_cooldown) hosts w
  ]

  unfoldable pub check_geo_peer : ℕ → PeerKey × DistinctRecentPeer → GeoScan → GeoScan
  unfolding check_country is_seen
  check_geo_peer n (k, p) s =
      let pair : TargetKey = record { host_id = k.host_id; remote_ip = k.remote_ip } in
      if is_seen pair s.seen
      then s
      else record { seen = pair ∷ s.seen; watch = check_country n (k, p) s.watch }

  unfoldable pub scan_peers : List FlowRecord → Alerts → Alerts
  unfolding check_geo_peer each recent_flow_peers
  scan_peers flows alerts =
      if e.peers_fails
      then alerts
      else ((each check_geo_peer (recent_flow_peers (now - geo_watchlist_scan_window) now flows)
          (record { seen = []; watch = record { loaded = []; alerts = alerts } })).watch
        ).alerts

-- With an empty set of codes nothing is scanned.
abbrev pub scan_watched :
    GeoTools → Texts → GeoFaults → ℕ → Hosts → List Text → List FlowRecord → Alerts → Alerts
scan_watched g x e now hosts [] flows alerts = alerts
scan_watched g x e now hosts (c ∷ rest) flows alerts =
    scan_peers g x e now hosts (c ∷ rest) flows alerts

unfoldable pub watched_codes : GeoTools → Text → List Text
unfolding parse_geo_watchlist fields
watched_codes g raw = parse_geo_watchlist g (fields raw)

-- What the setting says, when there is one.
unfoldable pub scan_setting :
    GeoTools → Texts → GeoFaults → ℕ → Hosts → Option Text → List FlowRecord → Alerts → Alerts
unfolding watched_codes scan_peers
scan_setting g x e now hosts none flows alerts = alerts
scan_setting g x e now hosts (some raw) flows alerts =
    scan_watched g x e now hosts (watched_codes g raw) flows alerts

unfoldable pub geo_watchlist :
    GeoTools → Texts → GeoFaults → ℕ → Hosts → SettingsTable → List FlowRecord → Alerts → Alerts
unfolding get_setting scan_setting
geo_watchlist g x e now hosts settings flows alerts =
    elim (get_setting e.setting_fails key_geo_watchlist_countries settings) [
      | err _ ↦ alerts
      | ok value ↦ scan_setting g x e now hosts value flows alerts
    ]
