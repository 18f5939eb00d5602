-- ===== src/Web/Api.antt =====
-- The reading handlers and the settings of internal/web/handlers_api.go. A query parameter is a
-- text, empty when it is not there.
pub mod Pruned
pub mod Saved
pub mod Limits
pub mod Alerts
use shadow_stat.Base.{
  ℕ, zero, suc, ◌+◌, ◌-◌, ◌*◌, ◌^◌, String, Bool, true, false, ◌&&◌, ◌||◌, not, Option, none, some,
  List, [], ◌∷◌, map, ltb, leb, ◌==◌, if◌then◌else◌, string_eq, str_eq, rows_where,
}
use shadow_stat.Base.Assoc.{lookup}
use shadow_stat.Base.Text.{Text, codes}
use shadow_stat.Base.Decimal.{ℤ, pos, negsuc, atoi}
use shadow_stat.Store.Driver.{Result, ok, err}
use shadow_stat.Store.Flows.{FlowRecord}
use shadow_stat.Store.Rollup.{Rollups}
use shadow_stat.Store.Series.{
  SeriesPoint, host_series_from_flows_recent, host_series_from_rollup, host_flows,
}
use shadow_stat.Store.Settings.{
  SettingsTable, all_settings, set_settings, key_setup_complete, key_capture_interface,
  key_lan_subnet_cidr,
}

-- The body on success, or the status and code of an error.
pub data Answer {ℓ} (A : Type ℓ) : Type ℓ where
  answers : A → Answer A
  refuses : ℕ → String → Answer A

abbrev pub day_seconds : ℕ
day_seconds = 24 * 3600

abbrev pub range_flows_recent_max : ℕ
range_flows_recent_max = day_seconds

abbrev pub range_1m_max : ℕ
range_1m_max = 10 * day_seconds

abbrev pub range_5m_max : ℕ
range_5m_max = 90 * day_seconds

abbrev pub range_1h_max : ℕ
range_1h_max = 2 * 365 * day_seconds

unfoldable pub parse_id_param : Text → Option ℕ
unfolding atoi
parse_id_param s = elim (atoi s) [
  | none ↦ none
  | some id ↦ elim id [ negsuc n ↦ none | pos n ↦ if n == 0 then none else some n ]
]

unfoldable pub less : ℤ → ℤ → Bool
less (pos a) (pos b) = ltb a b
less (pos a) (negsuc b) = false
less (negsuc a) (pos b) = true
less (negsuc a) (negsuc b) = ltb b a

abbrev pub ordered : Option ℤ → Option ℤ → Option (ℤ × ℤ)
ordered none t = none
ordered (some f) none = none
ordered (some f) (some t) = if less f t then some (f, t) else none

-- An empty text is no number.
unfoldable pub parse_range : Text → Text → Option (ℤ × ℤ)
unfolding atoi less
parse_range from to = ordered (atoi from) (atoi to)

-- The direction asked for, `some none` for all of them.
unfoldable pub parse_direction : Text → Option (Option ℕ)
unfolding atoi
parse_direction [] = some none
parse_direction (c ∷ s) = elim (atoi (c ∷ s)) [
  | none ↦ none
  | some d ↦ elim d [ negsuc n ↦ none | pos n ↦ if ltb 3 n then none else some (some n) ]
]

-- to - from, for from < to
unfoldable pub span : ℤ → ℤ → ℕ
span (pos a) (pos b) = b - a
span (negsuc a) (pos b) = b + a + 1
span (pos a) (negsuc b) = 0
span (negsuc a) (negsuc b) = a - b

-- span <= max, where a span from 2 ^ 63 on wraps to a negative number
unfoldable pub span_le : ℕ → ℕ → Bool
span_le n max = leb (2 ^ 63) n || leb n max

-- to >= now - rangeFlowsRecentMax
unfoldable pub is_recent_end : ℕ → ℤ → Bool
is_recent_end now (pos to) = leb (now - range_flows_recent_max) to
is_recent_end now (negsuc to) = false

-- The cases of the switch.
unfoldable pub granularity_of : ℕ → ℤ → ℤ → String
unfolding span span_le is_recent_end
granularity_of now from to =
    let n = span from to in
    if span_le n range_flows_recent_max && is_recent_end now to
    then "raw"
    else if span_le n range_1m_max
    then "1m"
    else if span_le n range_5m_max
    then "5m"
    else if span_le n range_1h_max
    then "1h"
    else "1d"

pub record Columns : Type 0 where
  pub t : List ℕ
  pub sent : List ℕ
  pub recv : List ℕ

unfoldable pub to_columnar_series : List SeriesPoint → Columns
to_columnar_series points = record {
  t = map (λ (p : SeriesPoint). p.bucket_ts) points;
  sent = map (λ (p : SeriesPoint). p.bytes_sent) points;
  recv = map (λ (p : SeriesPoint). p.bytes_recv) points;
}

abbrev pub internal_error {ℓ} : {A : Type ℓ} → Answer A
internal_error = refuses 500 "internal_error"

-- The query of a granularity.
unfoldable pub points_of :
    Bool → String → ℕ → ℤ → ℤ → Option ℕ → List FlowRecord → Rollups → Result (List SeriesPoint)
unfolding host_series_from_flows_recent host_series_from_rollup
points_of fails granularity host_id from to direction flows r =
    if str_eq granularity "raw"
    then host_series_from_flows_recent fails host_id from to direction flows
    else host_series_from_rollup fails host_id from to granularity direction r

abbrev pub series_answer : String → Result (List SeriesPoint) → Answer (String × Columns)
series_answer granularity (err e) = internal_error
series_answer granularity (ok points) = answers (granularity, to_columnar_series points)

-- The query when the parameters are valid.
unfoldable pub series_between :
    Bool → ℕ → ℕ → ℤ → ℤ → Option ℕ → List FlowRecord → Rollups → Answer (String × Columns)
unfolding granularity_of points_of to_columnar_series
series_between fails now host_id from to direction flows r =
    let granularity = granularity_of now from to in
    series_answer granularity (points_of fails granularity host_id from to direction flows r)

unfoldable pub host_series :
    Bool → ℕ → Text → Text → Text → Text → List FlowRecord → Rollups → Answer (String × Columns)
unfolding parse_id_param parse_range parse_direction series_between
host_series fails now id from to direction flows r = elim (parse_id_param id) [
  | none ↦ refuses 400 "invalid_host_id"
  | some host_id ↦ elim (parse_range from to) [
    | none ↦ refuses 400 "invalid_range"
    | some (f, t) ↦ elim (parse_direction direction) [
      | none ↦ refuses 400 "invalid_direction"
      | some d ↦ series_between fails now host_id f t d flows r
    ]
  ]
]

-- now - to > rangeFlowsRecentMax
unfoldable pub is_too_old : ℕ → ℤ → Bool
is_too_old now (pos to) = ltb range_flows_recent_max (now - to)
is_too_old now (negsuc to) =
    ltb (now + to + 1) (2 ^ 63) && ltb range_flows_recent_max (now + to + 1)

abbrev pub within_limit : ℕ → ℕ → Option ℤ → ℕ
within_limit default max none = default
within_limit default max (some (negsuc n)) = default
within_limit default max (some (pos n)) = if ltb 0 n && leb n max then n else default

-- A number of rows from 1 to `max`, and `default` for anything else.
unfoldable pub parse_limit : ℕ → ℕ → Text → ℕ
unfolding atoi
parse_limit default max s = within_limit default max (atoi s)

abbrev pub or_internal_error {ℓ} : {A : Type ℓ} → Result A → Answer A
or_internal_error (err e) = internal_error
or_internal_error (ok a) = answers a

abbrev pub flows_in :
    Bool → ℕ → ℕ → Text → List FlowRecord → Option (ℤ × ℤ) → Answer (List FlowRecord)
flows_in fails now host_id limit flows none = refuses 400 "invalid_range"
flows_in fails now host_id limit flows (some (f, t)) =
    if is_too_old now t
    then refuses 400 "range_too_old_for_flow_detail"
    else or_internal_error (host_flows fails host_id f t (parse_limit 500 5000 limit) flows)

abbrev pub flows_for :
    Bool → ℕ → Text → List FlowRecord → Option (ℤ × ℤ) → Option ℕ → Answer (List FlowRecord)
flows_for fails now limit flows range none = refuses 400 "invalid_host_id"
flows_for fails now limit flows range (some host_id) = flows_in fails now host_id limit flows range

unfoldable pub host_flows_handler :
    Bool → ℕ → Text → Text → Text → Text → List FlowRecord → Answer (List FlowRecord)
unfolding parse_id_param parse_range is_too_old parse_limit host_flows
host_flows_handler fails now id from to limit flows =
    flows_for fails now limit flows (parse_range from to) (parse_id_param id)

-- delete(kv, "setup_complete")
unfoldable pub get_settings_handler : Bool → SettingsTable → Answer SettingsTable
unfolding all_settings
get_settings_handler fails t = elim (all_settings fails t) [
  | err _ ↦ internal_error
  | ok kv ↦ answers (rows_where (λ e. not (str_eq e.0 key_setup_complete)) kv)
]

abbrev is_some {ℓ} : {A : Type ℓ} → Option A → Bool
is_some none = false
is_some (some a) = true

-- Whether a restart is required, and the table after it; the body is none when it is no JSON object
-- of texts.
unfoldable pub put_settings_handler :
    Bool → Option (List (String × Text)) → SettingsTable → Answer Bool × SettingsTable
unfolding set_settings lookup
put_settings_handler fails none t = (refuses 400 "invalid_request", t)
put_settings_handler fails (some req) t = elim (set_settings fails req t) [
  | err _ ↦ (internal_error, t)
  | ok t' ↦ (
    answers
        (is_some (lookup key_capture_interface req) || is_some (lookup key_lan_subnet_cidr req)),
    t',
  )
]
