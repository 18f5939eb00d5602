-- ===== src/Store/Alerts.antt =====
-- internal/store/alerts.go and internal/store/known_peers.go, with the totals of
-- internal/store/detect_queries.go: what the detectors read and write.
pub mod Spacing
pub mod Listing
use shadow_stat.Base.{
  ℕ, suc, ◌+◌, String, Bool, true, false, ◌&&◌, ◌||◌, not, Option, none, some, List, [], ◌∷◌, ◌++◌,
  ltb, leb, ◌==◌, if◌then◌else◌, str_eq, str_eq_iff, max, update_where, count_where, rows_where, Eq,
  nat_eq, ◌≡◌, ◌↔◌, arith,
}
use shadow_stat.Base.Assoc.{lookup, alter}
use shadow_stat.Store.Driver.{Result, ok, err, db_failed}
use shadow_stat.Store.Flows.{FlowRecord, dir_lan_to_wan, dir_wan_to_lan}

abbrev pub alert_kind_new_destination : String
alert_kind_new_destination = "new_destination"

abbrev pub alert_kind_exfil_ratio : String
alert_kind_exfil_ratio = "exfil_ratio"

abbrev pub alert_kind_beaconing : String
alert_kind_beaconing = "beaconing"

abbrev pub alert_kind_dns_anomaly : String
alert_kind_dns_anomaly = "dns_anomaly"

abbrev pub alert_kind_port_scan : String
alert_kind_port_scan = "port_scan"

abbrev pub alert_kind_geo_watchlist : String
alert_kind_geo_watchlist = "geo_watchlist"

abbrev pub severity_critical : String
severity_critical = "critical"

abbrev pub severity_info : String
severity_info = "info"

abbrev pub severity_warning : String
severity_warning = "warning"

-- A row of `alerts`.
pub record Alert : Type 0 where
  pub id : ℕ
  pub host_id : ℕ
  pub kind : String
  pub severity : String
  pub summary : String
  pub detail : String
  pub dedupe_key : String
  pub detected_at : ℕ
  pub acknowledged : Bool

pub record AlertRecord : Type 0 where
  pub host_id : ℕ
  pub kind : String
  pub severity : String
  pub summary : String
  pub detail : String
  pub dedupe_key : String
  pub detected_at : ℕ

pub record Alerts : Type 0 where
  pub rows : List Alert
  -- AUTOINCREMENT
  pub next_id : ℕ

unfoldable pub is_recent : ℕ → String → String → ℕ → Alert → Bool
is_recent host_id kind dedupe_key since a =
    (a.host_id == host_id)
    && str_eq a.kind kind
    && str_eq a.dedupe_key dedupe_key
    && leb since a.detected_at

unfoldable pub recent_alert_exists : Bool → ℕ → String → String → ℕ → Alerts → Result Bool
unfolding is_recent
recent_alert_exists fails host_id kind dedupe_key since t =
    if fails
    then err db_failed
    else ok (ltb 0 (count_where (is_recent host_id kind dedupe_key since) t.rows))

abbrev pub new_alert : ℕ → AlertRecord → Alert
new_alert id a = record {
  id = id;
  host_id = a.host_id;
  kind = a.kind;
  severity = a.severity;
  summary = a.summary;
  detail = a.detail;
  dedupe_key = a.dedupe_key;
  detected_at = a.detected_at;
  acknowledged = false;
}

unfoldable pub insert_alert : Bool → AlertRecord → Alerts → Result Alerts
insert_alert fails a t =
    if fails
    then err db_failed
    else ok (record { rows = t.rows ++ new_alert t.next_id a ∷ []; next_id = suc t.next_id })

abbrev pub acknowledged : Alert → Alert
acknowledged a = record a { acknowledged = true }

unfoldable pub acknowledge_alert : Bool → ℕ → Alerts → Result Alerts
acknowledge_alert fails id t =
    if fails
    then err db_failed
    else ok (record t { rows = update_where (λ a. a.id == id) acknowledged t.rows })

-- The rows that AcknowledgeAllAlerts is about; the empty kind is every kind.
abbrev pub is_open : String → Alert → Bool
is_open kind a = not a.acknowledged && (str_eq kind "" || str_eq a.kind kind)

-- The table after the update, and how many rows it changed.
unfoldable pub acknowledge_all_alerts : Bool → String → Alerts → Result (ℕ × Alerts)
acknowledge_all_alerts fails kind t =
    if fails
    then err db_failed
    else ok (
      count_where (is_open kind) t.rows,
      record t { rows = update_where (is_open kind) acknowledged t.rows },
    )

unfoldable pub count_unacknowledged_alerts : Bool → Alerts → Result ℕ
count_unacknowledged_alerts fails t =
    if fails then err db_failed else ok (count_where (λ a. not a.acknowledged) t.rows)

-- A pair of a host and a remote peer.
pub record PeerKey : Type 0 where
  pub host_id : ℕ
  pub remote_ip : String
  pub remote_port : ℕ

unfoldable pub same_peer : PeerKey → PeerKey → Bool
same_peer a b =
    (a.host_id == b.host_id) && str_eq a.remote_ip b.remote_ip && (a.remote_port == b.remote_port)

pub same_peer_iff : (a b : PeerKey) → (same_peer a b ≡ true) ↔ (a ≡ b)
unfolding same_peer
same_peer_iff a b = ground (arith, str_eq_iff a.remote_ip b.remote_ip)

instance abbrev pub peer_key_eq : Eq PeerKey
peer_key_eq = record { beq = same_peer; beq_iff = same_peer_iff }

-- A row of `known_peers`
pub record KnownPeer : Type 0 where
  pub first_seen : ℕ
  pub last_seen : ℕ

unfoldable pub known_peer_last_seen :
    Bool → PeerKey → List (PeerKey × KnownPeer) → Result (Option ℕ)
unfolding lookup
known_peer_last_seen fails k t =
    if fails
    then err db_failed
    else elim (lookup k t) [ none ↦ ok none | some s ↦ ok (some s.last_seen) ]

abbrev pub seen_again : ℕ → Option KnownPeer → KnownPeer
seen_again seen_at none = record { first_seen = seen_at; last_seen = seen_at }
seen_again seen_at (some s) = record s { last_seen = seen_at }

unfoldable pub upsert_known_peer :
    Bool → PeerKey → ℕ → List (PeerKey × KnownPeer) → Result (List (PeerKey × KnownPeer))
unfolding alter
upsert_known_peer fails k seen_at t =
    if fails then err db_failed else ok (alter (seen_again seen_at) k t)

abbrev pub in_window : ℕ → ℕ → FlowRecord → Bool
in_window since now f = leb since f.last_seen && leb f.last_seen now

pub record DistinctRecentPeer : Type 0 where
  pub first_seen : ℕ
  pub had_outbound : Bool
  pub had_inbound : Bool

abbrev pub with_flow : FlowRecord → Option DistinctRecentPeer → DistinctRecentPeer
with_flow f none = record {
  first_seen = f.first_seen;
  had_outbound = f.direction == dir_lan_to_wan;
  had_inbound = f.direction == dir_wan_to_lan;
}
with_flow f (some p) = record {
  first_seen = if ltb f.first_seen p.first_seen then f.first_seen else p.first_seen;
  had_outbound = p.had_outbound || (f.direction == dir_lan_to_wan);
  had_inbound = p.had_inbound || (f.direction == dir_wan_to_lan);
}

abbrev pub peer_of : FlowRecord → PeerKey
peer_of f = record { host_id = f.host_id; remote_ip = f.remote_ip; remote_port = f.remote_port }

-- GROUP BY host_id, remote_ip, remote_port
unfoldable pub recent_flow_peers : ℕ → ℕ → List FlowRecord → List (PeerKey × DistinctRecentPeer)
unfolding alter
recent_flow_peers since now [] = []
recent_flow_peers since now (f ∷ rest) =
    let peers = recent_flow_peers since now rest in
    if in_window since now f then alter (with_flow f) (peer_of f) peers else peers

pub record HostByteTotals : Type 0 where
  pub bytes_sent : ℕ
  pub bytes_recv : ℕ

abbrev pub with_bytes : FlowRecord → Option HostByteTotals → HostByteTotals
with_bytes f none = record { bytes_sent = f.bytes_sent; bytes_recv = f.bytes_recv }
with_bytes f (some h) = record {
  bytes_sent = h.bytes_sent + f.bytes_sent;
  bytes_recv = h.bytes_recv + f.bytes_recv;
}

-- GROUP BY host_id
unfoldable pub host_outbound_totals : ℕ → ℕ → List FlowRecord → List (ℕ × HostByteTotals)
unfolding alter
host_outbound_totals since now [] = []
host_outbound_totals since now (f ∷ rest) =
    let totals = host_outbound_totals since now rest in
    if (f.direction == dir_lan_to_wan) && in_window since now f
    then alter (with_bytes f) f.host_id totals
    else totals
