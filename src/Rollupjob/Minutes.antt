-- ===== src/Rollupjob/Minutes.antt =====
-- The minute ticks of the scheduler: which flows reach rollup_1m.
use shadow_stat.Base.{
  ℕ, zero, suc, ◌+◌, ◌-◌, ◌*◌, ◌≤◌, ◌<◌, ◌≡◌, refl, sym, ◌∙◌, ap, Bool, false, none, List, [], ◌∷◌,
  ◌++◌, arith,
}
use shadow_stat.Store.Flows.{FlowRecord}
use shadow_stat.Store.Rollup.{Key, bucket}
use shadow_stat.Store.Rollup.Weights.{plus, weight, plus_assoc}
use shadow_stat.Store.Rollup.Sums.{flow_weight, flow_weight-join, weight-rollup_from_flows_recent}
use shadow_stat.Rollupjob.{Tables, Faults, Event, tick_1m, on_tick, rollup1m, run, ticks, inserts}

abbrev pub no_faults : Faults
no_faults = record { rollup = false; prune_flows = false; prune_tier = λ g. false }

-- `n` minute ticks, the first of them `late` seconds after minute `m`.
abbrev pub minute_ticks : ℕ → ℕ → ℕ → List Event
minute_ticks late m zero = []
minute_ticks late m (suc n) = ticks no_faults tick_1m (60 * m + late) ∷ minute_ticks late (suc m) n

minute_bucket : (late m : ℕ) → late < 60 → bucket 60 (60 * m + late) ≡ 60 * m
unfolding bucket
minute_bucket late m h = omega arith

tick_1m-weight :
    (p : Key → Bool) (days late m : ℕ) (t : Tables)
    → late < 60
    → weight p ((on_tick no_faults days tick_1m (60 * m + late) t).rollups).rollup_1m
      ≡ plus (flow_weight p (60 * m - 60) (60 * m) t.flows_recent) (weight p (t.rollups).rollup_1m)
unfolding on_tick rollup1m
tick_1m-weight p days late m t h =
    rw (minute_bucket late m h) (
      weight-rollup_from_flows_recent p (60 * m - 60) (60 * m) t.flows_recent (t.rollups).rollup_1m)

flows-tick_1m :
    (days now : ℕ) (t : Tables)
    → (on_tick no_faults days tick_1m now t).flows_recent ≡ t.flows_recent
unfolding on_tick rollup1m
flows-tick_1m days now t = refl

empty_window :
    (p : Key → Bool) (from to : ℕ) (flows : List FlowRecord)
    → to ≤ from
    → flow_weight p from to flows ≡ none
unfolding weight
empty_window p from to [] h = refl
empty_window p from to (f ∷ flows) h = ground (arith, empty_window p from to flows)

-- Minute ticks that all come, the first one in minute m + 1, add to rollup_1m just the flows of
-- minutes m to m + n - 1 that were in flows_recent, each once, whatever keys are asked for.
pub run-minute_ticks :
    (p : Key → Bool) (days late n m : ℕ) (t : Tables)
    → late < 60
    → weight p ((run days (minute_ticks late (suc m) n) t).rollups).rollup_1m
      ≡ plus (flow_weight p (60 * m) (60 * (m + n)) t.flows_recent) (weight p (t.rollups).rollup_1m)
unfolding run weight plus
run-minute_ticks p days late zero m t h =
    rw (empty_window p (60 * m) (60 * (m + 0)) t.flows_recent (omega arith))
run-minute_ticks p days late (suc n) m t h =
    let t' = on_tick no_faults days tick_1m (60 * suc m + late) t in
    let flows = t.flows_recent in
    let before : 60 * suc m - 60 ≡ 60 * m = omega arith in
    let after : 60 * (suc m + n) ≡ 60 * (m + suc n) = omega arith in
    let ih = run-minute_ticks p days late n (suc m) t' h in
    let one = tick_1m-weight p days late (suc m) t h in
    ih
    ∙ ap (λ w. plus (flow_weight p (60 * suc m) (60 * (suc m + n)) flows) w) one
    ∙ sym (
        plus_assoc (flow_weight p (60 * suc m) (60 * (suc m + n)) flows)
          (flow_weight p (60 * suc m - 60) (60 * suc m) flows) (weight p (t.rollups).rollup_1m))
    ∙ ap (λ w. plus w (weight p (t.rollups).rollup_1m))
        (rw (before, after)
          (flow_weight-join p (60 * m) (60 * suc m) (60 * (m + suc n)) flows (omega arith)
            (omega arith)))

outside_window :
    (p : Key → Bool) (from to : ℕ) (flows : List FlowRecord) (f : FlowRecord)
    → f.last_seen < from
    → flow_weight p from to (flows ++ f ∷ []) ≡ flow_weight p from to flows
unfolding weight
outside_window p from to [] f h = ground arith
outside_window p from to (g ∷ flows) f h = ground (arith, outside_window p from to flows f)

-- A flow that is inserted after the rollup of its minute never reaches rollup_1m: later minute
-- ticks leave the table as they would without the flow. (The pipeline inserts up to a flush
-- interval later than it sees a packet.)
pub late_flow_lost :
    (p : Key → Bool) (days late n m : ℕ) (f : FlowRecord) (t : Tables)
    → late < 60
    → f.last_seen < 60 * m
    → weight p ((run days (inserts (f ∷ []) ∷ minute_ticks late (suc m) n) t).rollups).rollup_1m
      ≡ weight p ((run days (minute_ticks late (suc m) n) t).rollups).rollup_1m
unfolding run
late_flow_lost p days late n m f t h k =
    run-minute_ticks p days late n m (record t { flows_recent = t.flows_recent ++ f ∷ [] }) h
    ∙ ap (λ w. plus w (weight p (t.rollups).rollup_1m))
        (outside_window p (60 * m) (60 * (m + n)) t.flows_recent f k)
    ∙ sym (run-minute_ticks p days late n m t h)
