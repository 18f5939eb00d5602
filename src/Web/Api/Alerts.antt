-- ===== src/Web/Api/Alerts.antt =====
-- internal/web/handlers_alerts.go, and listHosts of handlers_api.go. The JSON of a row has its
-- columns.
use shadow_stat.Base.{
  ℕ, zero, suc, ◌-◌, ◌*◌, ◌≡◌, refl, ◌∙◌, ap, String, Bool, true, false, Option, none, some, List,
  [], ◌∷◌, str_eq, str_eq_iff, ◌≢◌, arith, if◌then◌else◌, rows_where, update_where, count_where,
  take, length, inl, inr, Bool-cases,
}
use shadow_stat.Base.Text.{Text}
use shadow_stat.Base.Decimal.{pos}
use shadow_stat.Store.Driver.{Result, ok, err}
use shadow_stat.Store.Hosts.{Host, Hosts}
use shadow_stat.Store.Rollup.{Rollups}
use shadow_stat.Store.Series.{SeriesPoint, sparkline_series}
use shadow_stat.Store.Alerts.{
  Alert, Alerts, acknowledged, is_open, acknowledge_alert, acknowledge_all_alerts,
}
use shadow_stat.Store.Alerts.Listing.{
  Listed, newest_first, join_hosts, is_asked, list_alerts, list_alerts_for_host, list_hosts,
}
use shadow_stat.Web.Api.{
  Answer, answers, refuses, internal_error, or_internal_error, parse_id_param, parse_limit,
}

abbrev pub default_alert_limit : ℕ
default_alert_limit = 200

unfoldable pub list_alerts_handler :
    Bool → Text → String → String → Hosts → Alerts → Answer (List Listed)
unfolding list_alerts parse_limit
list_alerts_handler fails limit unacked_only kind hosts t = or_internal_error (
    list_alerts fails (parse_limit default_alert_limit 2000 limit) (str_eq unacked_only "1") kind
      hosts t)

unfoldable pub host_alerts_handler : Bool → Text → Hosts → Alerts → Answer (List Listed)
unfolding list_alerts_for_host parse_id_param
host_alerts_handler fails id hosts t = elim (parse_id_param id) [
  | none ↦ refuses 400 "invalid_host_id"
  | some host_id ↦
      or_internal_error (list_alerts_for_host fails host_id default_alert_limit hosts t)
]

abbrev pub saved {ℓ} : {A : Type ℓ} → A → Alerts → Result Alerts → Answer A × Alerts
saved a t (err e) = (internal_error, t)
saved a t (ok t') = (answers a, t')

-- The status, and the table after it.
unfoldable pub ack_alert_handler : Bool → Text → Alerts → Answer String × Alerts
unfolding acknowledge_alert parse_id_param
ack_alert_handler fails id t = elim (parse_id_param id) [
  | none ↦ (refuses 400 "invalid_alert_id", t)
  | some n ↦ saved "ok" t (acknowledge_alert fails n t)
]

abbrev pub counted : Alerts → Result (ℕ × Alerts) → Answer ℕ × Alerts
counted t (err e) = (internal_error, t)
counted t (ok (n, t')) = (answers n, t')

-- How many rows it acknowledged.
unfoldable pub ack_all_alerts_handler : Bool → String → Alerts → Answer ℕ × Alerts
unfolding acknowledge_all_alerts
ack_all_alerts_handler fails kind t = counted t (acknowledge_all_alerts fails kind t)

abbrev pub sparkline_window : ℕ
sparkline_window = 60 * 60

-- The rows of the hosts with their points, or nothing when one of the queries fails; `fails` tells
-- them apart by their number of remaining hosts.
unfoldable pub with_sparklines :
    (ℕ → Bool) → ℕ → List Host → Rollups → Option (List (Host × List SeriesPoint))
unfolding sparkline_series
with_sparklines fails now [] r = some []
with_sparklines fails now (h ∷ rest) r =
    let others = with_sparklines fails now rest r in
    elim (sparkline_series (fails (length rest)) h.id (pos (now - sparkline_window)) (pos now) r) [
      | err e ↦ none
      | ok points ↦ elim others [ none ↦ none | some out ↦ some ((h, points) ∷ out) ]
    ]

abbrev or_error {ℓ} : {A : Type ℓ} → Option A → Answer A
or_error none = internal_error
or_error (some a) = answers a

unfoldable pub list_hosts_handler :
    Bool → (ℕ → Bool) → ℕ → Hosts → Rollups → Answer (List (Host × List SeriesPoint))
unfolding list_hosts with_sparklines
list_hosts_handler fails series_fails now t r = elim (list_hosts fails t) [
  | err e ↦ internal_error
  | ok hosts ↦ or_error (with_sparklines series_fails now hosts r)
]

take_nil {ℓ} : {A : Type ℓ} (n : ℕ) → take {A = A} n [] ≡ []
take_nil zero = refl
take_nil (suc n) = refl

cleared :
    (kind : String) (rows : List Alert)
    → rows_where (is_asked true kind) (update_where (is_open kind) acknowledged rows) ≡ []
cleared kind [] = refl
cleared kind (a ∷ rest) = elim (Bool-cases (is_open kind a)) [
  | inl hit ↦ rw hit (cleared kind rest)
  | inr missed ↦
      let not_asked : is_asked true kind a ≡ false = missed in
      rw (missed, not_asked) (cleared kind rest)
]

-- The rows that are not acknowledged and of the kind; the empty kind is every kind.
abbrev pub how_many_open : String → List Alert → ℕ
how_many_open kind [] = 0
how_many_open kind (a ∷ rest) =
    let others = how_many_open kind rest in
    if a.acknowledged
    then others
    else if str_eq kind ""
    then suc others
    else if str_eq a.kind kind
    then suc others
    else others

count_where-is_open :
    (kind : String) (rows : List Alert) → count_where (is_open kind) rows ≡ how_many_open kind rows
count_where-is_open kind [] = refl
count_where-is_open kind (a ∷ rest) = ground (arith, count_where-is_open kind rest)

-- Acknowledging all alerts of a kind, or of every kind, answers how many rows of it were not yet
-- acknowledged, and the list of open alerts of that kind is empty afterwards, whatever the limit.
pub ack_all_alerts_handler-clears :
    (kind : String) (limit : Text) (hosts : Hosts) (t : Alerts)
    → ((ack_all_alerts_handler false kind t).0 ≡ answers (how_many_open kind t.rows))
      × (list_alerts_handler false limit "1" kind hosts (ack_all_alerts_handler false kind t).1
          ≡ answers [])
unfolding ack_all_alerts_handler acknowledge_all_alerts list_alerts_handler list_alerts join_hosts
ack_all_alerts_handler-clears kind limit hosts t = (
  ap answers (count_where-is_open kind t.rows),
  ap
        (λ rows. answers (
          take (parse_limit default_alert_limit 2000 limit) (newest_first (join_hosts hosts rows))))
        (cleared kind t.rows)
      ∙ ap answers (take_nil (parse_limit default_alert_limit 2000 limit)),
)

-- An open row of a kind is none that a list of another kind asks for.
open_not_asked :
    (kind other : String) (unacked : Bool) (a : Alert)
    → kind ≢ ""
    → other ≢ ""
    → other ≢ kind
    → is_open kind a ≡ true
    → (is_asked unacked other a ≡ false) × (is_asked unacked other (acknowledged a) ≡ false)
open_not_asked kind other unacked a k o n h = ground (
  arith,
  str_eq_iff kind "",
  str_eq_iff other "",
  str_eq_iff a.kind kind,
  str_eq_iff a.kind other,
)

kept :
    (kind other : String) (unacked : Bool) (rows : List Alert)
    → kind ≢ ""
    → other ≢ ""
    → other ≢ kind
    → rows_where (is_asked unacked other) (update_where (is_open kind) acknowledged rows)
      ≡ rows_where (is_asked unacked other) rows
kept kind other unacked [] k o n = refl
kept kind other unacked (a ∷ rest) k o n = elim (Bool-cases (is_open kind a)) [
  | inl hit ↦
      let (before, after) = open_not_asked kind other unacked a k o n hit in
      rw (hit, before, after) (kept kind other unacked rest k o n)
  | inr missed ↦ rw (missed, kept kind other unacked rest k o n) refl
]

-- Acknowledging all alerts of a kind changes no list of the alerts of another kind, open or not.
pub ack_all_alerts_handler-keeps_others :
    (fails list_fails : Bool) (kind other unacked : String) (limit : Text) (hosts : Hosts)
    (t : Alerts)
    → kind ≢ ""
    → other ≢ ""
    → other ≢ kind
    → list_alerts_handler list_fails limit unacked other hosts
        (ack_all_alerts_handler fails kind t).1
      ≡ list_alerts_handler list_fails limit unacked other hosts t
unfolding ack_all_alerts_handler acknowledge_all_alerts list_alerts_handler list_alerts
ack_all_alerts_handler-keeps_others true list_fails kind other unacked limit hosts t k o n = refl
ack_all_alerts_handler-keeps_others false true kind other unacked limit hosts t k o n = refl
ack_all_alerts_handler-keeps_others false false kind other unacked limit hosts t k o n =
    ap
      (λ rows.
        answers (
          take (parse_limit default_alert_limit 2000 limit) (newest_first (join_hosts hosts rows))))
      (kept kind other (str_eq unacked "1") t.rows k o n)
