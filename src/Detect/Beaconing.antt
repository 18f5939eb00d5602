-- ===== src/Detect/Beaconing.antt =====
-- internal/detect/beaconing.go.
use shadow_stat.Base.{
  ℕ, ◌-◌, ◌*◌, Bool, true, false, ◌||◌, Option, none, some, List, [], ◌∷◌, ◌++◌, ltb, if◌then◌else◌,
  length,
}
use shadow_stat.Base.Assoc.{alter}
use shadow_stat.Base.Float.{Float}
use shadow_stat.Store.Driver.{ok, err}
use shadow_stat.Store.Flows.{FlowRecord}
use shadow_stat.Store.Hosts.{Host, Hosts}
use shadow_stat.Store.DetectQueries.{PeerFlowTimestamp, peer_flow_timestamps}
use shadow_stat.Store.Alerts.{
  Alerts, AlertRecord, PeerKey, peer_key_eq, alert_kind_beaconing, severity_warning,
}
use shadow_stat.Detect.Raise.{
  Texts, LoopFaults, Watch, host_label, alert_on, each, hour, beaconing_cooldown,
}

abbrev pub beaconing_window : ℕ
beaconing_window = 24 * hour

abbrev pub beaconing_min_observations : ℕ
beaconing_min_observations = 5

abbrev pub beaconing_min_interval : ℕ
beaconing_min_interval = 10

abbrev pub beaconing_max_interval : ℕ
beaconing_max_interval = 6 * hour

abbrev and_seen : ℕ → Option (List ℕ) → List ℕ
and_seen t none = t ∷ []
and_seen t (some ts) = ts ++ t ∷ []

-- The timestamps of each peer, in the order of the rows.
unfoldable pub group_timestamps :
    List PeerFlowTimestamp → List (PeerKey × List ℕ) → List (PeerKey × List ℕ)
unfolding alter
group_timestamps [] groups = groups
group_timestamps ((k, t) ∷ rest) groups = group_timestamps rest (alter (and_seen t) k groups)

-- Which calls fail in one run, and the order in which the groups are met, which Go leaves open.
pub record BeaconingFaults : Type 0 where
  pub rows_fails : Bool
  pub peer_faults : ℕ → LoopFaults
  pub order : List (PeerKey × List ℕ) → List (PeerKey × List ℕ)

module _ {ℓ} {F : Type ℓ} (float : Float F) where
  -- The gaps between consecutive timestamps, which are sorted.
  unfoldable pub deltas : List ℕ → List F
  deltas [] = []
  deltas (s ∷ []) = []
  deltas (s ∷ t ∷ rest) = float.of_int (t - s) ∷ deltas (t ∷ rest)

  unfoldable pub sum_floats : List F → F → F
  sum_floats [] sum = sum
  sum_floats (d ∷ rest) sum = sum_floats rest (float.add sum d)

  unfoldable pub sum_squares : F → List F → F → F
  sum_squares mean [] variance = variance
  sum_squares mean (d ∷ rest) variance =
      sum_squares mean rest (float.add variance (float.mul (float.sub d mean) (float.sub d mean)))

  -- The mean and the standard deviation.
  unfoldable pub interval_stats : List ℕ → F × F
  unfolding deltas sum_floats sum_squares
  interval_stats [] = (float.of_int 0, float.of_int 0)
  interval_stats (s ∷ []) = (float.of_int 0, float.of_int 0)
  interval_stats (s ∷ t ∷ rest) =
      let gaps = deltas (s ∷ t ∷ rest) in
      let n = float.of_int (length gaps) in
      let mean = float.div (sum_floats gaps (float.of_int 0)) n in
      (mean, float.sqrt (float.div (sum_squares mean gaps (float.of_int 0)) n))

  -- The three conditions on the mean and the deviation under which a peer is left out.
  unfoldable pub is_irregular : F → F → Bool
  is_irregular mean stddev =
      float.le mean (float.of_int 0)
      || ((float.lt mean (float.of_int beaconing_min_interval)
            || float.lt (float.of_int beaconing_max_interval) mean)
          || float.lt (float.div (float.of_int 1) (float.of_int 5)) (float.div stddev mean))

  unfoldable pub is_beacon : List ℕ → Bool
  unfolding interval_stats is_irregular
  is_beacon timestamps =
      let stats = interval_stats timestamps in
      if ltb (length timestamps) beaconing_min_observations
      then false
      else if is_irregular stats.0 stats.1
      then false
      else true

abbrev pub beacon_alert : Texts → ℕ → PeerKey → List ℕ → Host → AlertRecord
beacon_alert x now k timestamps host = record {
  host_id = k.host_id;
  kind = alert_kind_beaconing;
  severity = severity_warning;
  summary = x.beaconing_summary (host_label host) k timestamps;
  detail = x.beaconing_detail k timestamps;
  dedupe_key = x.peer k;
  detected_at = now;
}

module _ {ℓ} {F : Type ℓ} (float : Float F) (x : Texts) (e : BeaconingFaults) (now : ℕ)
    (hosts : Hosts) where
  unfoldable pub check_group : ℕ → PeerKey × List ℕ → Watch → Watch
  unfolding alert_on host_label is_beacon
  check_group n (k, timestamps) w =
      if is_beacon float timestamps
      then alert_on (e.peer_faults n) k.host_id (beacon_alert x now k timestamps)
          (now - beaconing_cooldown) hosts w
      else w

  unfoldable pub beaconing : List FlowRecord → Alerts → Alerts
  unfolding check_group each group_timestamps peer_flow_timestamps
  beaconing flows alerts =
      elim (peer_flow_timestamps e.rows_fails (now - beaconing_window) now flows) [
        | err _ ↦ alerts
        | ok rows ↦
            (each check_group (e.order (group_timestamps rows []))
              (record { loaded = []; alerts = alerts })).alerts
      ]
