-- ===== src/Store/Rollup/Sums.antt =====
-- What the two rollup statements add to each key.
use shadow_stat.Base.{
  ℕ, ◌≤◌, ◌≡◌, refl, sym, ◌∙◌, ap, Bool, ◌&&◌, Option, List, [], ◌∷◌, arith, map, rows_where,
}
use shadow_stat.Store.Flows.{FlowRecord}
use shadow_stat.Store.Rollup.{
  Counters, Key, Rows, in_window, bucket, flow_row, coarser, rollup_from_flows_recent, rollup_rows,
}
use shadow_stat.Store.Rollup.Weights.{plus, only, weight, weight-grouped, plus_assoc, plus_comm}

-- The sum of the flows of a window whose key passes a test.
abbrev pub flow_weight : (Key → Bool) → ℕ → ℕ → List FlowRecord → Option Counters
flow_weight p from to flows =
    weight p (map flow_row (rows_where (λ f. in_window from to f.last_seen) flows))

-- Whatever keys are asked for, the minute rollup of [from, to) adds to rollup_1m just the flows
-- with last_seen in [from, to) that have these keys, each once.
pub weight-rollup_from_flows_recent :
    (p : Key → Bool) (from to : ℕ) (flows : List FlowRecord) (t : Rows)
    → weight p (rollup_from_flows_recent from to flows t)
      ≡ plus (flow_weight p from to flows) (weight p t)
unfolding rollup_from_flows_recent
weight-rollup_from_flows_recent p from to flows t = weight-grouped p _ t

plus_swap : (c : Option Counters) (x y : Option Counters) → plus c (plus x y) ≡ plus x (plus c y)
plus_swap c x y = sym (plus_assoc c x y) ∙ ap (λ w. plus w y) (plus_comm c x) ∙ plus_assoc x c y

-- Two windows that meet are one.
pub flow_weight-join :
    (p : Key → Bool) (from mid to : ℕ) (flows : List FlowRecord)
    → from ≤ mid
    → mid ≤ to
    → plus (flow_weight p mid to flows) (flow_weight p from mid flows) ≡ flow_weight p from to flows
unfolding weight plus
flow_weight-join p from mid to [] h k = refl
flow_weight-join p from mid to (f ∷ flows) h k = ground (
  arith,
  flow_weight-join p from mid to flows,
  plus_assoc (only (p (flow_row f).0) (flow_row f).1) (flow_weight p mid to flows)
      (flow_weight p from mid flows),
  plus_swap (flow_weight p mid to flows) (only (p (flow_row f).0) (flow_row f).1)
      (flow_weight p from mid flows),
)

-- The keys of the source rows in [from, to) whose coarser key passes a test.
abbrev pub in_source : (Key → Bool) → ℕ → ℕ → ℕ → Key → Bool
in_source p width from to k =
    in_window from to k.bucket_ts && p (record k { bucket_ts = bucket width k.bucket_ts })

weight-coarser :
    (p : Key → Bool) (width from to : ℕ) (src : Rows)
    → weight p (map (coarser width) (rows_where (λ r. in_window from to (r.0).bucket_ts) src))
      ≡ weight (in_source p width from to) src
unfolding weight coarser plus
weight-coarser p width from to [] = refl
weight-coarser p width from to ((k, c) ∷ src) = ground (arith, weight-coarser p width from to src)

-- Whatever keys are asked for, the rollup of the source rows with bucket_ts in [from, to) adds to
-- the coarser table just the sums of these rows, each at the key of its coarser bucket.
pub weight-rollup_rows :
    (p : Key → Bool) (width from to : ℕ) (src dst : Rows)
    → weight p (rollup_rows width from to src dst)
      ≡ plus (weight (in_source p width from to) src) (weight p dst)
unfolding rollup_rows
weight-rollup_rows p width from to src dst =
    weight-grouped p _ dst ∙ ap (λ w. plus w (weight p dst)) (weight-coarser p width from to src)
