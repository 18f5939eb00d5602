-- ===== src/Detect/Scheduler/Disabled.antt =====
-- A detector that is switched off raises nothing.
use shadow_stat.Base.{
  ℕ, ◌≡◌, ◌≢◌, refl, sym, ◌∙◌, ap, String, str_eq, str_eq_iff, Bool, false, some, List, [], ◌∷◌,
  ◌++◌, All, update_where, count_where, ltb, inl, inr, Bool-cases, arith,
}
use shadow_stat.Base.Float.{Float}
use shadow_stat.Store.Alerts.{
  Alert, AlertRecord, Alerts, new_alert, is_recent, acknowledged, recent_alert_exists, insert_alert,
}
use shadow_stat.Detect.Raise.{Texts, RaiseFaults, raise_alert}
use shadow_stat.Detect.GeoWatchlist.{GeoTools}
use shadow_stat.Detect.Scheduler.{Detected, Tick, run_tick, run_scheduler}
use shadow_stat.Detect.Scheduler.Ticks.{run_tick-keeps, runs_kind}

-- How many alerts of a kind there are.
unfoldable pub count_kind : String → Alerts → ℕ
count_kind kind t = count_where (λ a. str_eq a.kind kind) t.rows

count_where-append :
    (p : Alert → Bool) (rows : List Alert) (a : Alert)
    → p a ≡ false
    → count_where p (rows ++ a ∷ []) ≡ count_where p rows
count_where-append p [] a h = ground arith
count_where-append p (b ∷ rest) a h = ground (arith, count_where-append p rest a h)

count_where-acknowledged :
    (kind : String) (p : Alert → Bool) (rows : List Alert)
    → count_where (λ a. str_eq a.kind kind) (update_where p acknowledged rows)
      ≡ count_where (λ a. str_eq a.kind kind) rows
count_where-acknowledged kind p [] = refl
count_where-acknowledged kind p (a ∷ rest) = elim (Bool-cases (p a)) [
  | inl hit ↦ rw hit (ground (arith, count_where-acknowledged kind p rest))
  | inr missed ↦ rw missed (ground (arith, count_where-acknowledged kind p rest))
]

other_kind : (kind kind' : String) → kind ≢ kind' → str_eq kind kind' ≡ false
other_kind kind kind' h = elim (Bool-cases (str_eq kind kind')) [
  | inl same ↦ elim (h ((str_eq_iff kind kind').0 same)) [ ]
  | inr differ ↦ differ
]

-- Raising an alert leaves the number of alerts of other kinds as it was.
raise_alert-count_kind :
    (kind : String) (e : RaiseFaults) (a : AlertRecord) (since : ℕ) (t : Alerts)
    → a.kind ≢ kind
    → count_kind kind (raise_alert e a since t) ≡ count_kind kind t
unfolding raise_alert recent_alert_exists insert_alert count_kind
raise_alert-count_kind kind e a since t h = elim (Bool-cases e.exists_fails) [
  | inl fails ↦ rw (raise_alert, fails) refl
  | inr works ↦
      elim (Bool-cases
        (ltb 0 (count_where (is_recent a.host_id a.kind a.dedupe_key since) t.rows))) [
          | inl there ↦ rw (raise_alert, works, there) refl
          | inr absent ↦ elim (Bool-cases e.insert_fails) [
            | inl fails ↦ rw (raise_alert, works, absent, fails) refl
            | inr inserts ↦
                rw (raise_alert, works, absent, inserts)
                  (count_where-append (λ b. str_eq b.kind kind) t.rows (new_alert t.next_id a)
                    (other_kind a.kind kind h))
          ]
        ]
]

-- When at no tick the detector that runs is of a kind, because it is switched off, then no alert of
-- that kind is raised: there are as many as before.
pub run_scheduler-disabled {ℓ} :
    {F : Type ℓ} (float : Float F) (g : GeoTools) (x : Texts) (kind : String) (ticks : List Tick)
    (d : Detected)
    → All (λ t. runs_kind t ≢ some kind) ticks
    → count_kind kind (run_scheduler float g x ticks d).alerts ≡ count_kind kind d.alerts
unfolding run_scheduler count_kind
run_scheduler-disabled float g x kind [] d h = refl
run_scheduler-disabled float g x kind (t ∷ rest) d h =
    run_scheduler-disabled float g x kind rest (run_tick float g x t d) h.1
    ∙ run_tick-keeps float g x (λ a. count_kind kind a ≡ count_kind kind d.alerts) t d
        (λ k on e a u same c.
          raise_alert-count_kind kind e a _ u (λ is. h.0 (on ∙ ap some (sym same ∙ is))) ∙ c)
        (λ p u c. count_where-acknowledged kind p u.rows ∙ c) refl
