-- ===== src/Rollupjob/Tiers.antt =====
-- From the flows through rollup_1m to rollup_5m: what a five-minute bucket holds in the end.
use shadow_stat.Base.{
  ℕ, zero, suc, ◌+◌, ◌-◌, ◌*◌, ◌≤◌, ◌<◌, ◌≡◌, refl, ◌∙◌, ap, Bool, true, none, List, [], ◌∷◌, ◌++◌,
  arith,
}
use shadow_stat.Store.Flows.{FlowRecord}
use shadow_stat.Store.Rollup.{Key, Rows, bucket, in_window, flow_row, rollup_from_finer}
use shadow_stat.Store.Rollup.Weights.{plus, weight, plus-none}
use shadow_stat.Store.Rollup.Sums.{flow_weight, in_source, weight-rollup_rows}
use shadow_stat.Rollupjob.{
  Tables, Faults, Tick, Event, tick_5m, on_tick, run, ticks, inserts, rollup_finer,
}
use shadow_stat.Rollupjob.Minutes.{no_faults, minute_ticks, run-minute_ticks}

-- No row's key passes the test.
abbrev pub IsEmptyAt : (Key → Bool) → Rows → Type 0
IsEmptyAt p t = weight p t ≡ none

weight_none :
    (p q : Key → Bool) (t : Rows)
    → ((k : Key) → p k ≡ true → q k ≡ true)
    → IsEmptyAt q t
    → IsEmptyAt p t
unfolding weight plus
weight_none p q [] h e = refl
weight_none p q ((k, c) ∷ t) h e = ground (arith, h k, weight_none p q t h)

-- The test of a key by its five-minute bucket.
abbrev pub by_bucket : ℕ → (Key → Bool) → Key → Bool
by_bucket width p k = p (record k { bucket_ts = bucket width k.bucket_ts })

minute_in_window :
    (ts a b : ℕ) → 60 * a ≤ ts → ts < 60 * b → (60 * a ≤ bucket 60 ts) × (bucket 60 ts < 60 * b)
unfolding bucket
minute_in_window ts a b h k = (omega arith, omega arith)

-- A flow of the window lies in a minute of the window.
flow_weight-in_source :
    (p : Key → Bool) (a b : ℕ) (flows : List FlowRecord)
    → flow_weight (in_source p 300 (60 * a) (60 * b)) (60 * a) (60 * b) flows
      ≡ flow_weight (by_bucket 300 p) (60 * a) (60 * b) flows
unfolding weight flow_row
flow_weight-in_source p a b [] = refl
flow_weight-in_source p a b (f ∷ flows) =
    ground (arith, flow_weight-in_source p a b flows, minute_in_window f.last_seen a b)

weight-tick_5m :
    (p : Key → Bool) (days now : ℕ) (t : Tables)
    → weight p ((on_tick no_faults days tick_5m now t).rollups).rollup_5m
      ≡ plus
          (weight (in_source p 300 (bucket 300 now - 300) (bucket 300 now)) (t.rollups).rollup_1m)
          (weight p (t.rollups).rollup_5m)
unfolding on_tick rollup_finer rollup_from_finer
weight-tick_5m p days now t =
    weight-rollup_rows p 300 _ _ (t.rollups).rollup_1m (t.rollups).rollup_5m

rollup_5m-run :
    (days late n m : ℕ) (t : Tables)
    → ((run days (minute_ticks late m n) t).rollups).rollup_5m ≡ (t.rollups).rollup_5m
unfolding run on_tick
rollup_5m-run days late zero m t = refl
rollup_5m-run days late (suc n) m t = rollup_5m-run days late n (suc m) _

run-append :
    (days : ℕ) (xs ys : List Event) (t : Tables)
    → run days (xs ++ ys) t ≡ run days ys (run days xs t)
unfolding run
run-append days [] ys t = refl
run-append days (ticks e k now ∷ xs) ys t = run-append days xs ys _
run-append days (inserts flows ∷ xs) ys t = run-append days xs ys _

run-last :
    (days : ℕ) (e : Faults) (k : Tick) (now : ℕ) (t : Tables)
    → run days (ticks e k now ∷ []) t ≡ on_tick e days k now t
unfolding run
run-last days e k now t = refl

-- The same for a number of minutes that is five, which keeps the list of ticks short.
run-period :
    (p : Key → Bool) (days late q n now : ℕ) (t : Tables)
    → n ≡ 5
    → late < 60
    → bucket 300 now ≡ 300 * q + 300
    → IsEmptyAt (λ k. in_window (300 * q) (300 * q + 300) k.bucket_ts) (t.rollups).rollup_1m
    → weight p
        ((run days
            (minute_ticks late (suc (5 * q)) n ++ ticks no_faults tick_5m now ∷ [])
            t).rollups
          ).rollup_5m
      ≡ plus
          (flow_weight (by_bucket 300 p) (300 * q) (300 * q + 300) t.flows_recent)
          (weight p (t.rollups).rollup_5m)
run-period p days late q n now t five h at empty =
    let minutes = minute_ticks late (suc (5 * q)) n in
    let t' = run days minutes t in
    let from : bucket 300 now - 300 ≡ 60 * (5 * q) = omega (arith, at) in
    let to : bucket 300 now ≡ 60 * (5 * q + n) = omega (arith, at, five) in
    let start : 300 * q ≡ 60 * (5 * q) = omega arith in
    let stop : 300 * q + 300 ≡ 60 * (5 * q + n) = omega (arith, five) in
    let source = in_source p 300 (60 * (5 * q)) (60 * (5 * q + n)) in
    let nothing : weight source (t.rollups).rollup_1m ≡ none =
      weight_none source (λ k. in_window (300 * q) (300 * q + 300) k.bucket_ts)
        (t.rollups).rollup_1m (λ k e. ground (arith, start, stop)) empty in
    ap (λ (u : Tables). weight p (u.rollups).rollup_5m)
      (run-append days minutes (ticks no_faults tick_5m now ∷ []) t
        ∙ run-last days no_faults tick_5m now t')
    ∙ weight-tick_5m p days now t'
    ∙ rw (from, to, rollup_5m-run days late n (suc (5 * q)) t, stop, start)
        (ap (λ w. plus w (weight p (t.rollups).rollup_5m))
          (run-minute_ticks source days late n (5 * q) t h
            ∙ ap (λ w. plus (flow_weight source (60 * (5 * q)) (60 * (5 * q + n)) t.flows_recent) w)
                nothing
            ∙ plus-none _
            ∙ flow_weight-in_source p (5 * q) (5 * q + n) t.flows_recent))

-- After the five minute ticks of a five-minute period and then its five-minute tick, rollup_5m
-- has gained just the flows of the period that were in flows_recent, each once and at the period,
-- whatever keys are asked for, if rollup_1m held nothing of the period before.
pub run-five_minutes :
    (p : Key → Bool) (days late q now : ℕ) (t : Tables)
    → late < 60
    → bucket 300 now ≡ 300 * q + 300
    → IsEmptyAt (λ k. in_window (300 * q) (300 * q + 300) k.bucket_ts) (t.rollups).rollup_1m
    → weight p
        ((run days
            (minute_ticks late (suc (5 * q)) 5 ++ ticks no_faults tick_5m now ∷ [])
            t).rollups
          ).rollup_5m
      ≡ plus
          (flow_weight (by_bucket 300 p) (300 * q) (300 * q + 300) t.flows_recent)
          (weight p (t.rollups).rollup_5m)
run-five_minutes p days late q now t h at empty = run-period p days late q 5 now t refl h at empty
