-- ===== src/Rollupjob/Samples.antt =====
-- Tests of the rollups, and their theorems at three flows of which one comes late.
use shadow_stat.Base.{ℕ, ◌≡◌, refl, Bool, true, List, [], ◌∷◌, ◌++◌, arith}
use shadow_stat.Store.Flows.{FlowRecord}
use shadow_stat.Store.Rollup.{Counters, Key, Rollups, bucket, rollup_from_flows_recent, rollup_rows}
use shadow_stat.Store.Rollup.Weights.{plus, weight}
use shadow_stat.Store.Rollup.Sums.{
  flow_weight, in_source, weight-rollup_from_flows_recent, weight-rollup_rows,
}
use shadow_stat.Rollupjob.{Tables, run, ticks, inserts, tick_5m}
use shadow_stat.Rollupjob.Minutes.{no_faults, minute_ticks, run-minute_ticks, late_flow_lost}
use shadow_stat.Rollupjob.Tiers.{by_bucket, run-five_minutes}

abbrev flow : ℕ → ℕ → FlowRecord
flow at sent = record {
  host_id = 1;
  direction = 0;
  proto = 6;
  local_ip = "10.0.0.5";
  local_port = 5000;
  remote_ip = "1.2.3.4";
  remote_port = 443;
  first_seen = at;
  last_seen = at;
  bytes_sent = sent;
  bytes_recv = 1;
  packets_sent = 1;
  packets_recv = 1;
}

abbrev flows : List FlowRecord
flows = flow 605 10 ∷ flow 650 20 ∷ flow 661 40 ∷ []

abbrev no_rows : Rollups
no_rows = record { rollup_1m = []; rollup_5m = []; rollup_1h = []; rollup_1d = [] }

abbrev tables : Tables
tables = record { flows_recent = flows; rollups = no_rows }

abbrev key : ℕ → Key
key ts = record { host_id = 1; direction = 0; bucket_ts = ts }

abbrev sums : ℕ → ℕ → Counters
sums sent n = record { bytes_sent = sent; bytes_recv = n; packets_sent = n; packets_recv = n }

minute_rows : rollup_from_flows_recent 600 660 flows [] ≡ (key 600, sums 30 2) ∷ []
unfolding rollup_from_flows_recent
minute_rows = refl

five_minute_row :
    rollup_rows 300 600 900 ((key 600, sums 30 2) ∷ (key 660, sums 40 1) ∷ []) []
    ≡ (key 600, sums 70 3) ∷ []
unfolding rollup_rows
five_minute_row = refl

abbrev any_key : Key → Bool
any_key k = true

weight-rollup_from_flows_recent_example :
    weight any_key (rollup_from_flows_recent 600 660 flows [])
    ≡ plus (flow_weight any_key 600 660 flows) (weight any_key [])
weight-rollup_from_flows_recent_example = weight-rollup_from_flows_recent any_key 600 660 flows []

weight-rollup_rows_example :
    weight any_key (rollup_rows 300 600 900 ((key 600, sums 30 2) ∷ []) [])
    ≡ plus (weight (in_source any_key 300 600 900) ((key 600, sums 30 2) ∷ [])) (weight any_key [])
weight-rollup_rows_example = weight-rollup_rows any_key 300 600 900 ((key 600, sums 30 2) ∷ []) []

run-minute_ticks_example :
    weight any_key ((run 30 (minute_ticks 15 11 2) tables).rollups).rollup_1m
    ≡ plus (flow_weight any_key 600 720 flows) (weight any_key [])
run-minute_ticks_example = run-minute_ticks any_key 30 15 2 10 tables (omega arith)

late_flow_lost_example :
    weight any_key
      ((run 30 (inserts (flow 599 7 ∷ []) ∷ minute_ticks 3 11 2) tables).rollups).rollup_1m
    ≡ weight any_key ((run 30 (minute_ticks 3 11 2) tables).rollups).rollup_1m
late_flow_lost_example =
    late_flow_lost any_key 30 3 2 10 (flow 599 7) tables (omega arith) (omega arith)

run-five_minutes_example :
    weight any_key
      ((run 30 (minute_ticks 15 11 5 ++ ticks no_faults tick_5m 915 ∷ []) tables).rollups).rollup_5m
    ≡ plus (flow_weight (by_bucket 300 any_key) 600 900 flows) (weight any_key [])
unfolding weight bucket
run-five_minutes_example = run-five_minutes any_key 30 15 2 915 tables (omega arith) refl refl
