-- ===== src/Store/Series.antt =====
-- What the pages read of flows_recent and the rollup tables: HostFlows and
-- HostSeriesFromFlowsRecent of internal/store/flows.go, HostSeriesFromRollup and SparklineSeries of
-- internal/store/rollup.go. A bound of a range may be negative.
use shadow_stat.Base.{
  ℕ, ◌+◌, String, Bool, true, false, ◌&&◌, Option, none, some, List, [], ◌∷◌, map, take, ltb, leb,
  ◌==◌, if◌then◌else◌, rows_where,
}
use shadow_stat.Base.Decimal.{ℤ, pos, negsuc}
use shadow_stat.Store.Driver.{Result, ok, err, db_failed}
use shadow_stat.Store.Flows.{FlowRecord}
use shadow_stat.Store.Rollup.{Counters, Key, Rows, Rollups, bucket, tier_named, table_of}
use shadow_stat.Store.DetectQueries.{sort_by}

-- ts >= from, and ts <= to
abbrev pub at_least : ℤ → ℕ → Bool
at_least (pos from) ts = leb from ts
at_least (negsuc from) ts = true

abbrev pub at_most : ℤ → ℕ → Bool
at_most (pos to) ts = leb ts to
at_most (negsuc to) ts = false

pub record SeriesPoint : Type 0 where
  pub bucket_ts : ℕ
  pub bytes_sent : ℕ
  pub bytes_recv : ℕ

-- No direction, -1 in the source, is every direction.
unfoldable pub direction_clause : Option ℕ → ℕ → Bool
direction_clause none d = true
direction_clause (some wanted) d = d == wanted

-- A point is added to that of its bucket, or placed in front of the first later bucket.
unfoldable pub add_point : SeriesPoint → List SeriesPoint → List SeriesPoint
add_point p [] = p ∷ []
add_point p (q ∷ rest) =
    let later = add_point p rest in
    if p.bucket_ts == q.bucket_ts
    then record q {
      bytes_sent = q.bytes_sent + p.bytes_sent;
      bytes_recv = q.bytes_recv + p.bytes_recv;
    }
      ∷ rest
    else if ltb p.bucket_ts q.bucket_ts
    then p ∷ q ∷ rest
    else q ∷ later

-- SUM … GROUP BY bucket ORDER BY bucket
unfoldable pub group_points : List SeriesPoint → List SeriesPoint
unfolding add_point
group_points [] = []
group_points (p ∷ rest) = add_point p (group_points rest)

abbrev pub flow_point : FlowRecord → SeriesPoint
flow_point f = record {
  bucket_ts = bucket 60 f.last_seen;
  bytes_sent = f.bytes_sent;
  bytes_recv = f.bytes_recv;
}

abbrev pub row_point : Key × Counters → SeriesPoint
row_point r = record {
  bucket_ts = (r.0).bucket_ts;
  bytes_sent = (r.1).bytes_sent;
  bytes_recv = (r.1).bytes_recv;
}

module _ (fails : Bool) (host_id : ℕ) (from to : ℤ) where
  abbrev pub flow_in_range : FlowRecord → Bool
  flow_in_range f = (f.host_id == host_id) && at_least from f.last_seen && at_most to f.last_seen

  abbrev pub row_in_range : Key × Counters → Bool
  row_in_range r =
      ((r.0).host_id == host_id) && at_least from (r.0).bucket_ts && at_most to (r.0).bucket_ts

  unfoldable pub host_series_from_flows_recent :
      Option ℕ → List FlowRecord → Result (List SeriesPoint)
  unfolding group_points direction_clause
  host_series_from_flows_recent direction flows =
      if fails
      then err db_failed
      else ok (
          group_points (
            map flow_point
              (rows_where (λ f. flow_in_range f && direction_clause direction f.direction) flows)))

  -- The points of a table.
  unfoldable pub series_of : Option ℕ → Rows → List SeriesPoint
  unfolding group_points direction_clause
  series_of direction table = group_points (
      map row_point
        (rows_where (λ r. row_in_range r && direction_clause direction (r.0).direction) table))

  -- An unknown granularity is an error too.
  unfoldable pub host_series_from_rollup : String → Option ℕ → Rollups → Result (List SeriesPoint)
  unfolding tier_named table_of series_of
  host_series_from_rollup granularity direction r = elim (tier_named granularity) [
    | none ↦ err db_failed
    | some tier ↦ if fails then err db_failed else ok (series_of direction (table_of tier r))
  ]

  unfoldable pub sparkline_series : Rollups → Result (List SeriesPoint)
  unfolding series_of
  sparkline_series r = if fails then err db_failed else ok (series_of none r.rollup_1m)

  -- The newest rows first, at most `limit`.
  unfoldable pub host_flows : ℕ → List FlowRecord → Result (List FlowRecord)
  host_flows limit flows =
      if fails
      then err db_failed
      else ok (
          take limit
            (sort_by (λ f g. leb g.last_seen f.last_seen) (rows_where flow_in_range flows)))
