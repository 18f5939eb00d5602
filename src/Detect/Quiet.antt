-- ===== src/Detect/Quiet.antt =====
-- Peers that a host has met in the last 30 days raise no alert.
use shadow_stat.Base.{
  ℕ, ◌-◌, ◌≡◌, refl, ◌∙◌, Bool, true, false, some, List, [], ◌∷◌, ltb, inl, inr, Bool-cases,
  Option-cases, All, All-map, arith,
}
use shadow_stat.Base.Assoc.{lookup, alter, lookup-alter}
use shadow_stat.Store.Flows.{FlowRecord}
use shadow_stat.Store.Hosts.{Hosts}
use shadow_stat.Store.Alerts.{
  Alerts, PeerKey, KnownPeer, DistinctRecentPeer, peer_key_eq, same_peer, seen_again,
  recent_flow_peers, known_peer_last_seen, upsert_known_peer,
}
use shadow_stat.Detect.Raise.{Texts, load_host}
use shadow_stat.Detect.NewDestination.{
  NewDestinationFaults, Scan, is_new, remember_peer, check_peer, check_peers, new_destinations,
  new_destination_scan_window, new_destination_novelty_window,
}

-- The peer was seen within the novelty window.
pub record IsKnown (now : ℕ) (known : List (PeerKey × KnownPeer)) (k : PeerKey) : Type 0 where
  pub row : KnownPeer
  pub there : lookup k known ≡ some row
  pub recent : ltb row.last_seen (now - new_destination_novelty_window) ≡ false

not_before : (now w : ℕ) → ltb now (now - w) ≡ false
not_before now w = ground arith

altered-IsKnown :
    (now : ℕ) (known : List (PeerKey × KnownPeer)) (j k : PeerKey)
    → IsKnown now known k
    → IsKnown now (alter (seen_again now) j known) k
altered-IsKnown now known j k h = elim (Bool-cases (same_peer j k)) [
  | inl same ↦ record {
    row = seen_again now (some h.row);
    there = lookup-alter (seen_again now) j k known ∙ rw (same, h.there) refl;
    recent = not_before now new_destination_novelty_window;
  }
  | inr other ↦ record {
    row = h.row;
    there = lookup-alter (seen_again now) j k known ∙ rw other h.there;
    recent = h.recent;
  }
]

remember_peer-IsKnown :
    (fails : Bool) (now : ℕ) (known : List (PeerKey × KnownPeer)) (j k : PeerKey)
    → IsKnown now known k
    → IsKnown now (remember_peer fails j now known) k
unfolding remember_peer upsert_known_peer
remember_peer-IsKnown true now known j k h = h
remember_peer-IsKnown false now known j k h = altered-IsKnown now known j k h

-- A step that leaves the alerts as they were, and known peers known.
record IsQuiet (now : ℕ) (s s' : Scan) : Type 0 where
  same : s'.alerts ≡ s.alerts
  known : (j : PeerKey) → IsKnown now s.known_peers j → IsKnown now s'.known_peers j

check_peer-IsQuiet :
    (x : Texts) (e : NewDestinationFaults) (now : ℕ) (hosts : Hosts) (k : PeerKey)
    (p : DistinctRecentPeer) (s : Scan)
    → IsKnown now s.known_peers k
    → IsQuiet now s (check_peer x e now hosts k p s)
unfolding check_peer known_peer_last_seen is_new
check_peer-IsQuiet x e now hosts k p s h =
    elim (Option-cases (load_host (e.host_fails k) k.host_id s.loaded hosts)) [
      | inl absent ↦ rw (check_peer, absent) (record { same = refl; known = λ j i. i })
      | inr ((host, loaded), found) ↦ elim (Bool-cases (e.known_fails k)) [
        | inl fails ↦ rw (check_peer, found, fails) (record { same = refl; known = λ j i. i })
        | inr works ↦
            rw (check_peer, found, works, h.there, h.recent)
              (record {
                same = refl;
                known = λ j i. remember_peer-IsKnown (e.upsert_fails k) now s.known_peers k j i;
              })
      ]
    ]

check_peers-quiet :
    (x : Texts) (e : NewDestinationFaults) (now : ℕ) (hosts : Hosts)
    (peers : List (PeerKey × DistinctRecentPeer)) (s : Scan)
    → All (λ peer. IsKnown now s.known_peers peer.0) peers
    → (check_peers x e now hosts peers s).alerts ≡ s.alerts
unfolding check_peers
check_peers-quiet x e now hosts [] s h = refl
check_peers-quiet x e now hosts ((k, p) ∷ rest) s h =
    let q = check_peer-IsQuiet x e now hosts k p s h.0 in
    check_peers-quiet x e now hosts rest (check_peer x e now hosts k p s) (
      All-map (λ peer. IsKnown now s.known_peers peer.0)
        (λ peer. IsKnown now (check_peer x e now hosts k p s).known_peers peer.0) rest
        (λ peer i. q.known peer.0 i) h.1)
    ∙ q.same

-- When every peer of the scan window is known to its host and was last seen within the novelty
-- window, a run raises no alert, whichever calls fail.
pub new_destinations-quiet :
    (x : Texts) (e : NewDestinationFaults) (now : ℕ) (flows : List FlowRecord) (hosts : Hosts)
    (known : List (PeerKey × KnownPeer)) (alerts : Alerts)
    → All
        (λ peer. IsKnown now known peer.0)
        (recent_flow_peers (now - new_destination_scan_window) now flows)
    → (new_destinations x e now flows hosts known alerts).1 ≡ alerts
unfolding new_destinations
new_destinations-quiet x e now flows hosts known alerts h = elim (Bool-cases e.peers_fails) [
  | inl fails ↦ rw (new_destinations, fails) refl
  | inr works ↦
      rw (new_destinations, works)
        (check_peers-quiet x e now hosts
          (recent_flow_peers (now - new_destination_scan_window) now flows)
          (record { loaded = []; known_peers = known; alerts = alerts }) h)
]
