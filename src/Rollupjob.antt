-- ===== src/Rollupjob.antt =====
-- internal/rollupjob/scheduler.go: the ticks of the five tickers, each handled to its end before
-- the next one. `now` is the time, in unix seconds, that the handler reads.
pub mod Minutes
pub mod Tiers
mod Samples
use shadow_stat.Base.{
  ◌++◌, ℕ, ◌+◌, ◌-◌, ◌*◌, ◌/◌, Bool, true, false, Option, none, some, String, List, [], ◌∷◌,
  if◌then◌else◌,
}
use shadow_stat.Store.Flows.{FlowRecord, prune_flows_recent}
use shadow_stat.Store.Rollup.{
  Rollups, bucket, rollup_from_flows_recent, rollup_from_finer, prune_rollup,
}

pub record Tables : Type 0 where
  pub flows_recent : List FlowRecord
  pub rollups : Rollups

abbrev pub day : ℕ
day = 24 * 3600

abbrev pub flows_recent_window : ℕ
flows_recent_window = day

abbrev pub rollup_1m_retention : ℕ
rollup_1m_retention = 7 * day

abbrev pub rollup_5m_retention : ℕ
rollup_5m_retention = 60 * day

abbrev pub rollup_1h_retention : ℕ
rollup_1h_retention = 2 * 365 * day

-- The driver's failures: a statement that fails is logged and changes nothing.
pub record Faults : Type 0 where
  pub rollup : Bool
  pub prune_flows : Bool
  pub prune_tier : String → Bool

abbrev pub or_same {ℓ} : {A : Type ℓ} → Option A → A → A
or_same none a = a
or_same (some b) a = b

-- time.Now().Truncate(time.Minute), and the minute before it
unfoldable pub rollup1m : Faults → ℕ → Tables → Tables
unfolding rollup_from_flows_recent bucket
rollup1m e now t =
    let to = bucket 60 now in
    if e.rollup then t else record t {
      rollups = record t.rollups {
        rollup_1m = rollup_from_flows_recent (to - 60) to t.flows_recent (t.rollups).rollup_1m;
      };
    }

unfoldable pub rollup_finer : Faults → String → String → ℕ → ℕ → Tables → Tables
unfolding rollup_from_finer bucket
rollup_finer e src dst width now t =
    let to = bucket width now in
    if e.rollup then t else record t {
      rollups = or_same (rollup_from_finer src dst width (to - width) to t.rollups) t.rollups;
    }

abbrev pub pruned : Faults → String → ℕ → Rollups → Rollups
pruned e granularity cutoff r =
    if e.prune_tier granularity then r else or_same (prune_rollup granularity cutoff r) r

-- Each deletion is made whether or not the one before it failed. The incremental vacuum changes
-- no row.
unfoldable pub prune : Faults → ℕ → ℕ → Tables → Tables
unfolding prune_flows_recent prune_rollup
prune e retention_days now t = record {
  flows_recent =
      if e.prune_flows
      then t.flows_recent
      else prune_flows_recent (now - flows_recent_window) t.flows_recent;
  rollups = pruned e "1d" (now - retention_days * day) (
      pruned e "1h" (now - rollup_1h_retention) (
        pruned e "5m" (now - rollup_5m_retention)
          (pruned e "1m" (now - rollup_1m_retention) t.rollups)));
}

pub data Tick : Type 0 where
  tick_1m tick_5m tick_1h tick_1d tick_prune : Tick

-- One round of Run's select.
unfoldable pub on_tick : Faults → ℕ → Tick → ℕ → Tables → Tables
unfolding rollup1m rollup_finer prune
on_tick e retention_days tick_1m now t = rollup1m e now t
on_tick e retention_days tick_5m now t = rollup_finer e "1m" "5m" (5 * 60) now t
on_tick e retention_days tick_1h now t = rollup_finer e "5m" "1h" 3600 now t
on_tick e retention_days tick_1d now t = rollup_finer e "1h" "1d" day now t
on_tick e retention_days tick_prune now t = prune e retention_days now t

-- What another goroutine does to the tables between ticks: the pipeline inserts flows.
pub data Event : Type 0 where
  ticks : Faults → Tick → ℕ → Event
  inserts : List FlowRecord → Event

unfoldable pub run : ℕ → List Event → Tables → Tables
unfolding on_tick
run retention_days [] t = t
run retention_days (ticks e k now ∷ rest) t =
    run retention_days rest (on_tick e retention_days k now t)
run retention_days (inserts flows ∷ rest) t =
    run retention_days rest (record t { flows_recent = t.flows_recent ++ flows })
