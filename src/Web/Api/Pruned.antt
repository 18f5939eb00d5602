-- ===== src/Web/Api/Pruned.antt =====
-- The series of an old range, after the retention of the minute table.
use shadow_stat.Base.{
  ℕ, ◌+◌, ◌-◌, ◌<◌, ◌≤◌, ◌≡◌, refl, ◌∙◌, ap, Bool, true, false, ◌&&◌, not, Option, List, [], ◌∷◌,
  map, ltb, if◌then◌else◌, rows_where, arith,
}
use shadow_stat.Base.Decimal.{pos}
use shadow_stat.Store.Driver.{ok}
use shadow_stat.Store.Rollup.{Rows, Rollups, prune_rollup, tier_named, table_of, with_table}
use shadow_stat.Store.Series.{
  row_in_range, direction_clause, row_point, series_of, group_points, host_series_from_rollup,
}
use shadow_stat.Rollupjob.{
  Tables, Faults, prune, pruned, rollup_1m_retention, rollup_5m_retention, rollup_1h_retention,
}
use shadow_stat.Web.Api.{
  answers, Columns, day_seconds, range_1m_max, span, span_le, is_recent_end, granularity_of,
  points_of, series_answer, series_between, to_columnar_series,
}

-- An old range of at most ten days is asked from the minute table.
granularity-old :
    (now a b : ℕ)
    → b - a ≤ range_1m_max
    → b + day_seconds < now
    → granularity_of now (pos a) (pos b) ≡ "1m"
unfolding granularity_of span span_le is_recent_end
granularity-old now a b h k = ground arith

rows_where-none {ℓ} :
    {A : Type ℓ} (p q : A → Bool) (xs : List A)
    → ((x : A) → p x ≡ true → q x ≡ false)
    → rows_where p (rows_where q xs) ≡ []
rows_where-none p q [] h = refl
rows_where-none p q (x ∷ xs) h = ground (arith, h x, rows_where-none p q xs h)

rows_where-same {ℓ} :
    {A : Type ℓ} (p q : A → Bool) (xs : List A)
    → ((x : A) → p x ≡ true → q x ≡ true)
    → rows_where p (rows_where q xs) ≡ rows_where p xs
rows_where-same p q [] h = refl
rows_where-same p q (x ∷ xs) h = ground (arith, h x, rows_where-same p q xs h)

if-field {ℓ} :
    {F : Type ℓ} (f : Rollups → F) (b : Bool) (r s : Rollups)
    → f s ≡ f r
    → f (if b then r else s) ≡ f r
if-field f true r s h = refl
if-field f false r s h = h

abbrev kept : ℕ → Rows → Rows
kept cutoff t = rows_where (λ x. not (ltb (x.0).bucket_ts cutoff)) t

-- The minute table after a pruning that deletes from it.
prune-rollup_1m :
    (e : Faults) (retention_days now : ℕ) (t : Tables)
    → e.prune_tier "1m" ≡ false
    → ((prune e retention_days now t).rollups).rollup_1m
      ≡ kept (now - rollup_1m_retention) (t.rollups).rollup_1m
unfolding prune prune_rollup tier_named table_of with_table
prune-rollup_1m e retention_days now t h =
    let minute = λ (r : Rollups). r.rollup_1m in
    let r1 = pruned e "1m" (now - rollup_1m_retention) t.rollups in
    let r5 = pruned e "5m" (now - rollup_5m_retention) r1 in
    let rh = pruned e "1h" (now - rollup_1h_retention) r5 in
    if-field minute (e.prune_tier "1d") rh _ refl
    ∙ if-field minute (e.prune_tier "1h") r5 _ refl
    ∙ if-field minute (e.prune_tier "5m") r1 _ refl
    ∙ ap
        (λ b. minute (
          if b then t.rollups else record t.rollups {
            rollup_1m = kept (now - rollup_1m_retention) (t.rollups).rollup_1m;
          }))
        h

-- The five-minute table after it: the same, or without its old rows.
prune-rollup_5m :
    (e : Faults) (retention_days now : ℕ) (t : Tables)
    → ((prune e retention_days now t).rollups).rollup_5m ≡ (
        if e.prune_tier "5m"
        then (t.rollups).rollup_5m
        else kept (now - rollup_5m_retention) (t.rollups).rollup_5m)
unfolding prune prune_rollup tier_named table_of with_table
prune-rollup_5m e retention_days now t =
    let five = λ (r : Rollups). r.rollup_5m in
    let r1 = pruned e "1m" (now - rollup_1m_retention) t.rollups in
    let r5 = pruned e "5m" (now - rollup_5m_retention) r1 in
    let rh = pruned e "1h" (now - rollup_1h_retention) r5 in
    if-field five (e.prune_tier "1d") rh _ refl
    ∙ if-field five (e.prune_tier "1h") r5 _ refl
    ∙ go (e.prune_tier "5m") r1 (if-field five (e.prune_tier "1m") t.rollups _ refl)
  where
    go :
        (b : Bool) (r : Rollups)
        → r.rollup_5m ≡ (t.rollups).rollup_5m
        → (if b
            then r
            else record r { rollup_5m = kept (now - rollup_5m_retention) r.rollup_5m }).rollup_5m
          ≡ (if b
              then (t.rollups).rollup_5m
              else kept (now - rollup_5m_retention) (t.rollups).rollup_5m)
    go true r h = h
    go false r h = ap (kept (now - rollup_5m_retention)) h

-- No row of a range that ends before the cutoff is left.
series_of-pruned :
    (fails : Bool) (id a b cutoff : ℕ) (direction : Option ℕ) (t : Rows)
    → b < cutoff
    → series_of fails id (pos a) (pos b) direction (kept cutoff t) ≡ []
unfolding series_of group_points
series_of-pruned fails id a b cutoff direction t h =
    ap (λ rows. group_points (map row_point rows))
      (rows_where-none
        (λ r. row_in_range fails id (pos a) (pos b) r && direction_clause direction (r.0).direction)
        (λ x. not (ltb (x.0).bucket_ts cutoff)) t (λ x k. ground arith))

-- All rows of a range that begins at the cutoff or later are left.
series_of-kept :
    (fails : Bool) (id a b cutoff : ℕ) (direction : Option ℕ) (t : Rows)
    → cutoff ≤ a
    → series_of fails id (pos a) (pos b) direction (kept cutoff t)
      ≡ series_of fails id (pos a) (pos b) direction t
unfolding series_of group_points
series_of-kept fails id a b cutoff direction t h =
    ap (λ rows. group_points (map row_point rows))
      (rows_where-same
        (λ r. row_in_range fails id (pos a) (pos b) r && direction_clause direction (r.0).direction)
        (λ x. not (ltb (x.0).bucket_ts cutoff)) t (λ x k. ground arith))

abbrev pub no_points : Columns
no_points = record { t = []; sent = []; recv = [] }

-- For a range of at most ten days that ended more than seven days before a pruning of the minute
-- table and began at most sixty days before it: the series that the page gets afterwards has
-- granularity "1m" and no point at all, while the five-minute table still has all its rows of the
-- range.
pub series_between-pruned :
    (e : Faults) (retention_days now later : ℕ) (t : Tables) (id a b : ℕ) (direction : Option ℕ)
    → e.prune_tier "1m" ≡ false
    → now ≤ later
    → b - a ≤ range_1m_max
    → b + rollup_1m_retention < now
    → now ≤ a + rollup_5m_retention
    → (series_between false later id
          (pos a)
          (pos b)
          direction
          (prune e retention_days now t).flows_recent
          (prune e retention_days now t).rollups
        ≡ answers ("1m", no_points))
      × (series_of false id
            (pos a)
            (pos b)
            direction
            ((prune e retention_days now t).rollups).rollup_5m
          ≡ series_of false id (pos a) (pos b) direction (t.rollups).rollup_5m)
unfolding series_between points_of host_series_from_rollup tier_named table_of to_columnar_series
series_between-pruned e retention_days now later t id a b direction p l s o y = (
  ap
        (λ g. series_answer g (
          points_of false g id (pos a) (pos b) direction (prune e retention_days now t).flows_recent
            (prune e retention_days now t).rollups))
        (granularity-old later a b s (omega arith))
      ∙ ap (λ rows. series_answer "1m" (ok (series_of false id (pos a) (pos b) direction rows)))
          (prune-rollup_1m e retention_days now t p)
      ∙ ap (λ points. series_answer "1m" (ok points))
          (series_of-pruned false id a b (now - rollup_1m_retention) direction (t.rollups).rollup_1m
            (omega arith)),
  ap (series_of false id (pos a) (pos b) direction) (prune-rollup_5m e retention_days now t)
      ∙ go (e.prune_tier "5m"),
)
  where
    go :
        (c : Bool)
        → series_of false id (pos a) (pos b) direction (
            if c
            then (t.rollups).rollup_5m
            else kept (now - rollup_5m_retention) (t.rollups).rollup_5m)
          ≡ series_of false id (pos a) (pos b) direction (t.rollups).rollup_5m
    go true = refl
    go false =
        series_of-kept false id a b (now - rollup_5m_retention) direction (t.rollups).rollup_5m
          (omega arith)
