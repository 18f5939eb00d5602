-- ===== src/Detect/Keeps.antt =====
-- What every raised alert of a kind keeps, the runs of a detector of that kind keep: exfiltration
-- and new destinations.
use shadow_stat.Base.{
  ℕ, ◌-◌, refl, String, Bool, true, false, ◌||◌, not, List, [], ◌∷◌, ltb, inl, inr, Bool-cases,
  Option-cases, if◌then◌else◌,
}
use shadow_stat.Store.Driver.{Result-cases}
use shadow_stat.Store.Flows.{FlowRecord}
use shadow_stat.Store.Hosts.{Host, Hosts, host_by_id}
use shadow_stat.Store.Alerts.{
  Alerts, PeerKey, KnownPeer, DistinctRecentPeer, HostByteTotals, host_outbound_totals,
  recent_flow_peers, known_peer_last_seen, alert_kind_exfil_ratio, alert_kind_new_destination,
}
use shadow_stat.Detect.Raise.{
  load_host, Texts, RaiseFaults, raise_alert, host_label, cooldown, exfil_cooldown,
  new_destination_cooldown, Raises,
}
use shadow_stat.Detect.Exfil.{
  ExfilFaults, exfil_alert, exfil_each, exfil_ratio, is_suspicious, exfil_window,
}
use shadow_stat.Detect.NewDestination.{
  NewDestinationFaults, Scan, is_new, check_peer, check_peers, new_destinations, destination_alert,
  new_destination_learning_period, new_destination_scan_window,
}

-- Both branches keep it.
pub if-keeps {ℓ κ} :
    {S : Type ℓ} (P : S → Type κ) (b : Bool) (s t : S) → P s → P t → P (if b then s else t)
if-keeps P true s t h k = h
if-keeps P false s t h k = k

module _ (P : Alerts → Type 0) (r : Raises P alert_kind_exfil_ratio) where
  raise_exfil-keeps :
      (x : Texts) (e : RaiseFaults) (label : String) (id now : ℕ) (t : HostByteTotals)
      (alerts : Alerts)
      → P alerts
      → P (raise_alert e (exfil_alert x label id now t) (now - exfil_cooldown) alerts)
  unfolding cooldown
  raise_exfil-keeps x e label id now t alerts s = r e (exfil_alert x label id now t) alerts refl s

  exfil_one-keeps :
      (x : Texts) (e : ExfilFaults) (now id : ℕ) (t : HostByteTotals) (hosts : Hosts)
      (alerts : Alerts)
      → P alerts
      → P (exfil_each x e now ((id, t) ∷ []) hosts alerts)
  unfolding exfil_each
  exfil_one-keeps x e now id t hosts alerts s = elim (Bool-cases (is_suspicious t)) [
    | inr quiet ↦ rw (exfil_each, quiet) s
    | inl loud ↦ elim (Result-cases (host_by_id (e.host_fails id) id hosts)) [
      | inl (error, fails) ↦ rw (exfil_each, loud, fails) s
      | inr (host, found) ↦
          rw (exfil_each, loud, found)
            (raise_exfil-keeps x (e.raise_faults id) (host_label host) id now t alerts s)
    ]
  ]

  exfil_each-keeps :
      (x : Texts) (e : ExfilFaults) (now : ℕ) (totals : List (ℕ × HostByteTotals)) (hosts : Hosts)
      (alerts : Alerts)
      → P alerts
      → P (exfil_each x e now totals hosts alerts)
  unfolding exfil_each
  exfil_each-keeps x e now [] hosts alerts s = s
  exfil_each-keeps x e now ((id, t) ∷ rest) hosts alerts s =
      exfil_each-keeps x e now rest hosts _ (exfil_one-keeps x e now id t hosts alerts s)

  pub exfil_ratio-keeps :
      (x : Texts) (e : ExfilFaults) (now : ℕ) (flows : List FlowRecord) (hosts : Hosts)
      (alerts : Alerts)
      → P alerts
      → P (exfil_ratio x e now flows hosts alerts)
  unfolding exfil_ratio
  exfil_ratio-keeps x e now flows hosts alerts s =
      if-keeps P e.totals_fails alerts
        (exfil_each x e now (host_outbound_totals (now - exfil_window) now flows) hosts alerts) s
        (exfil_each-keeps x e now (host_outbound_totals (now - exfil_window) now flows) hosts alerts
          s)

module _ (P : Alerts → Type 0) (r : Raises P alert_kind_new_destination) where
  raise_destination-keeps :
      (x : Texts) (e : RaiseFaults) (host : Host) (now : ℕ) (k : PeerKey) (p : DistinctRecentPeer)
      (alerts : Alerts)
      → P alerts
      → P (raise_alert e (destination_alert x host now k p) (now - new_destination_cooldown) alerts)
  unfolding cooldown
  raise_destination-keeps x e host now k p alerts s =
      r e (destination_alert x host now k p) alerts refl s

  check_peer-keeps :
      (x : Texts) (e : NewDestinationFaults) (now : ℕ) (hosts : Hosts) (k : PeerKey)
      (p : DistinctRecentPeer) (s : Scan)
      → P s.alerts
      → P (check_peer x e now hosts k p s).alerts
  unfolding check_peer
  check_peer-keeps x e now hosts k p s h =
      elim (Option-cases (load_host (e.host_fails k) k.host_id s.loaded hosts)) [
        | inl absent ↦ rw (check_peer, absent) h
        | inr ((host, loaded), found) ↦
            elim (Result-cases (known_peer_last_seen (e.known_fails k) k s.known_peers)) [
              | inl (error, fails) ↦ rw (check_peer, found, fails) h
              | inr (last_seen, works) ↦
                  elim (Bool-cases (
                    not (is_new now last_seen)
                    || ltb (now - host.first_seen) new_destination_learning_period)) [
                      | inl quiet ↦ rw (check_peer, found, works, quiet) h
                      | inr loud ↦
                          rw (check_peer, found, works, loud)
                            (raise_destination-keeps x (e.raise_faults k) host now k p s.alerts h)
                    ]
            ]
      ]

  check_peers-keeps :
      (x : Texts) (e : NewDestinationFaults) (now : ℕ) (hosts : Hosts)
      (peers : List (PeerKey × DistinctRecentPeer)) (s : Scan)
      → P s.alerts
      → P (check_peers x e now hosts peers s).alerts
  unfolding check_peers
  check_peers-keeps x e now hosts [] s h = h
  check_peers-keeps x e now hosts ((k, p) ∷ rest) s h =
      check_peers-keeps x e now hosts rest (check_peer x e now hosts k p s)
        (check_peer-keeps x e now hosts k p s h)

  pub new_destinations-keeps :
      (x : Texts) (e : NewDestinationFaults) (now : ℕ) (flows : List FlowRecord) (hosts : Hosts)
      (known : List (PeerKey × KnownPeer)) (alerts : Alerts)
      → P alerts
      → P ((new_destinations x e now flows hosts known alerts).1)
  unfolding new_destinations
  new_destinations-keeps x e now flows hosts known alerts s =
      let peers = recent_flow_peers (now - new_destination_scan_window) now flows in
      let start : Scan = record { loaded = []; known_peers = known; alerts = alerts } in
      let scan = check_peers x e now hosts peers start in
      if-keeps {S = List (PeerKey × KnownPeer) × Alerts} (λ v. P v.1) e.peers_fails (known, alerts)
        (scan.known_peers, scan.alerts) s (check_peers-keeps x e now hosts peers start s)
