-- ===== src/Store/Rollup.antt =====
-- internal/store/rollup.go: the tables rollup_1m, rollup_5m, rollup_1h and rollup_1d. A row is a
-- primary key (host_id, direction, bucket_ts) with its sums. The sums are taken without a bound;
-- SQLite's integers are exact below 2 ^ 63.
pub mod Weights
pub mod Sums
use shadow_stat.Base.{
  Eq, ℕ, ◌+◌, ◌*◌, ◌/◌, ◌≡◌, ◌↔◌, Bool, true, false, not, ◌&&◌, Option, none, some, String, List,
  [], ◌∷◌, arith, ltb, leb, ◌==◌, if◌then◌else◌, str_eq, rows_where, map,
}
use shadow_stat.Base.Assoc.{alter}
use shadow_stat.Store.Flows.{FlowRecord}

pub record Counters : Type 0 where
  pub bytes_sent : ℕ
  pub bytes_recv : ℕ
  pub packets_sent : ℕ
  pub packets_recv : ℕ

unfoldable pub add_counters : Counters → Counters → Counters
add_counters a b = record {
  bytes_sent = a.bytes_sent + b.bytes_sent;
  bytes_recv = a.bytes_recv + b.bytes_recv;
  packets_sent = a.packets_sent + b.packets_sent;
  packets_recv = a.packets_recv + b.packets_recv;
}

pub record Key : Type 0 where
  pub host_id : ℕ
  pub direction : ℕ
  pub bucket_ts : ℕ

abbrev pub same_key : Key → Key → Bool
same_key a b = a.host_id == b.host_id && a.direction == b.direction && a.bucket_ts == b.bucket_ts

pub same_key_iff : (a b : Key) → (same_key a b ≡ true) ↔ (a ≡ b)
same_key_iff a b = ground arith

instance abbrev pub key_eq : Eq Key
key_eq = record { beq = same_key; beq_iff = same_key_iff }

abbrev pub Rows : Type 0
Rows = List (Key × Counters)

-- ON CONFLICT … DO UPDATE SET c = c + excluded.c
unfoldable pub upsert : Key → Counters → Rows → Rows
unfolding alter add_counters
upsert k c t = alter (λ old. elim old [ none ↦ c | some b ↦ add_counters b c ]) k t

-- One row after another; on an empty table this is SELECT … SUM … GROUP BY.
unfoldable pub upsert_all : Rows → Rows → Rows
upsert_all [] t = t
upsert_all ((k, c) ∷ rows) t = upsert_all rows (upsert k c t)

-- (ts / width) * width
unfoldable pub bucket : ℕ → ℕ → ℕ
bucket width ts = ts / width * width

unfoldable pub flow_row : FlowRecord → Key × Counters
unfolding bucket
flow_row f = (
  record { host_id = f.host_id; direction = f.direction; bucket_ts = bucket 60 f.last_seen },
  record {
    bytes_sent = f.bytes_sent;
    bytes_recv = f.bytes_recv;
    packets_sent = f.packets_sent;
    packets_recv = f.packets_recv;
  },
)

abbrev pub in_window : ℕ → ℕ → ℕ → Bool
in_window from to ts = leb from ts && ltb ts to

-- The rows of flows_recent in [from, to), summed by minute and added to rollup_1m.
unfoldable pub rollup_from_flows_recent : ℕ → ℕ → List FlowRecord → Rows → Rows
unfolding upsert_all upsert flow_row
rollup_from_flows_recent from to flows rollup_1m =
    upsert_all
      (upsert_all (map flow_row (rows_where (λ f. in_window from to f.last_seen) flows)) [])
      rollup_1m

unfoldable pub coarser : ℕ → Key × Counters → Key × Counters
unfolding bucket
coarser width (k, c) = (record k { bucket_ts = bucket width k.bucket_ts }, c)

pub record Rollups : Type 0 where
  pub rollup_1m : Rows
  pub rollup_5m : Rows
  pub rollup_1h : Rows
  pub rollup_1d : Rows

pub data Tier : Type 0 where
  tier_1m tier_5m tier_1h tier_1d : Tier

-- the map `rollupTables`; another name is an error
unfoldable pub tier_named : String → Option Tier
tier_named name =
    if str_eq name "1m"
    then some tier_1m
    else if str_eq name "5m"
    then some tier_5m
    else if str_eq name "1h"
    then some tier_1h
    else if str_eq name "1d"
    then some tier_1d
    else none

unfoldable pub table_of : Tier → Rollups → Rows
table_of tier_1m r = r.rollup_1m
table_of tier_5m r = r.rollup_5m
table_of tier_1h r = r.rollup_1h
table_of tier_1d r = r.rollup_1d

unfoldable pub with_table : Tier → Rows → Rollups → Rollups
with_table tier_1m t r = record r { rollup_1m = t }
with_table tier_5m t r = record r { rollup_5m = t }
with_table tier_1h t r = record r { rollup_1h = t }
with_table tier_1d t r = record r { rollup_1d = t }

-- The rows of the source table in [from, to), summed by bucket of the given width and added to the
-- destination table.
unfoldable pub rollup_rows : ℕ → ℕ → ℕ → Rows → Rows → Rows
unfolding upsert_all upsert coarser
rollup_rows width from to src dst =
    upsert_all
      (upsert_all (map (coarser width) (rows_where (λ r. in_window from to (r.0).bucket_ts) src))
        [])
      dst

-- `none` is the error for an unknown granularity.
unfoldable pub rollup_from_finer : String → String → ℕ → ℕ → ℕ → Rollups → Option Rollups
unfolding tier_named table_of with_table rollup_rows
rollup_from_finer src_granularity dst_granularity width from to r =
    elim (tier_named src_granularity) [
      | none ↦ none
      | some src ↦ elim (tier_named dst_granularity) [
        | none ↦ none
        | some dst ↦
            some (with_table dst (rollup_rows width from to (table_of src r) (table_of dst r)) r)
      ]
    ]

unfoldable pub prune_rollup : String → ℕ → Rollups → Option Rollups
unfolding tier_named table_of with_table
prune_rollup granularity cutoff r = elim (tier_named granularity) [
  | none ↦ none
  | some t ↦
      some (with_table t (rows_where (λ x. not (ltb (x.0).bucket_ts cutoff)) (table_of t r)) r)
]
