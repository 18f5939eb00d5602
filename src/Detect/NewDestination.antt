-- ===== src/Detect/NewDestination.antt =====
-- internal/detect/new_destination.go.
use shadow_stat.Base.{
  ℕ, ◌-◌, ◌*◌, String, Bool, true, ◌||◌, not, Option, none, some, List, [], ◌∷◌, ltb, if◌then◌else◌,
  str_eq, nat_eq,
}
use shadow_stat.Store.Driver.{ok, err}
use shadow_stat.Store.Flows.{FlowRecord}
use shadow_stat.Store.Hosts.{Host, Hosts}
use shadow_stat.Store.Alerts.{
  Alerts, AlertRecord, PeerKey, KnownPeer, DistinctRecentPeer, recent_flow_peers,
  known_peer_last_seen, upsert_known_peer, alert_kind_new_destination, severity_info,
  severity_warning,
}
use shadow_stat.Detect.Raise.{
  RaiseFaults, Texts, load_host, host_label, classify_peer_direction, raise_alert, hour,
  new_destination_cooldown,
}

-- Which calls fail in one run.
pub record NewDestinationFaults : Type 0 where
  pub peers_fails : Bool
  pub host_fails : PeerKey → Bool
  pub known_fails : PeerKey → Bool
  pub upsert_fails : PeerKey → Bool
  pub raise_faults : PeerKey → RaiseFaults

abbrev pub new_destination_scan_window : ℕ
new_destination_scan_window = 120

abbrev pub new_destination_novelty_window : ℕ
new_destination_novelty_window = 30 * 24 * hour

abbrev pub new_destination_learning_period : ℕ
new_destination_learning_period = 3 * 24 * hour

-- The hosts loaded in this run, and the two tables that it writes.
pub record Scan : Type 0 where
  pub loaded : List (ℕ × Host)
  pub known_peers : List (PeerKey × KnownPeer)
  pub alerts : Alerts

unfoldable pub is_new : ℕ → Option ℕ → Bool
is_new now none = true
is_new now (some last_seen) = ltb last_seen (now - new_destination_novelty_window)

abbrev pub severity_of : String → String
severity_of direction = if str_eq direction "inbound" then severity_warning else severity_info

abbrev pub destination_alert : Texts → Host → ℕ → PeerKey → DistinctRecentPeer → AlertRecord
destination_alert x host now k p =
    let direction = classify_peer_direction p.had_outbound p.had_inbound in
    record {
      host_id = k.host_id;
      kind = alert_kind_new_destination;
      severity = severity_of direction.0;
      summary = x.new_destination_summary (host_label host) direction.1 k;
      detail = x.new_destination_detail k direction.0;
      dedupe_key = x.peer k;
      detected_at = now;
    }

-- UpsertKnownPeer, whose error is logged
unfoldable pub remember_peer :
    Bool → PeerKey → ℕ → List (PeerKey × KnownPeer) → List (PeerKey × KnownPeer)
unfolding upsert_known_peer
remember_peer fails k now known = elim (upsert_known_peer fails k now known) [
  | err _ ↦ known
  | ok known' ↦ known'
]

-- One peer of the loop.
unfoldable pub check_peer :
    Texts → NewDestinationFaults → ℕ → Hosts → PeerKey → DistinctRecentPeer → Scan → Scan
unfolding load_host known_peer_last_seen is_new remember_peer raise_alert host_label
check_peer x e now hosts k p s = elim (load_host (e.host_fails k) k.host_id s.loaded hosts) [
  | none ↦ s
  | some (host, loaded) ↦ elim (known_peer_last_seen (e.known_fails k) k s.known_peers) [
    | err _ ↦ record s { loaded = loaded }
    | ok last_seen ↦ record {
      loaded = loaded;
      known_peers = remember_peer (e.upsert_fails k) k now s.known_peers;
      alerts =
          if not (is_new now last_seen)
            || ltb (now - host.first_seen) new_destination_learning_period
          then s.alerts
          else raise_alert (e.raise_faults k) (destination_alert x host now k p)
              (now - new_destination_cooldown) s.alerts;
    }
  ]
]

unfoldable pub check_peers :
    Texts → NewDestinationFaults → ℕ → Hosts → List (PeerKey × DistinctRecentPeer) → Scan → Scan
unfolding check_peer
check_peers x e now hosts [] s = s
check_peers x e now hosts ((k, p) ∷ rest) s =
    check_peers x e now hosts rest (check_peer x e now hosts k p s)

-- The known peers and the alerts after a run.
unfoldable pub new_destinations :
    Texts
    → NewDestinationFaults
    → ℕ
    → List FlowRecord
    → Hosts
    → List (PeerKey × KnownPeer)
    → Alerts
    → List (PeerKey × KnownPeer) × Alerts
unfolding check_peers recent_flow_peers
new_destinations x e now flows hosts known alerts =
    if e.peers_fails
    then (known, alerts)
    else let s =
        check_peers x e now hosts (recent_flow_peers (now - new_destination_scan_window) now flows)
          (record { loaded = []; known_peers = known; alerts = alerts }) in
      (s.known_peers, s.alerts)
