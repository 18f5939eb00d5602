-- ===== src/Store/Alerts/Spacing.antt =====
-- Alerts that say the same lie further apart than their cooldown.
use shadow_stat.Base.{
  ℕ, ◌+◌, ◌-◌, ◌<◌, ◌≡◌, String, Bool, true, false, ◌&&◌, List, [], ◌∷◌, ◌++◌, ◌==◌, str_eq,
  str_eq_iff, All, All-append, count_where, arith,
}
use shadow_stat.Store.Alerts.{Alert, is_recent}

-- Two alerts of one host, kind and dedupe key.
unfoldable pub same_alert : Alert → Alert → Bool
same_alert a b =
    (a.host_id == b.host_id) && str_eq a.kind b.kind && str_eq a.dedupe_key b.dedupe_key

-- The cooldown of a kind and dedupe key.
abbrev pub Cooldowns : Type 0
Cooldowns = String → String → ℕ

-- The later alert comes more than the cooldown after the earlier.
abbrev pub IsLater : Cooldowns → Alert → Alert → Type 0
IsLater cool a b = same_alert a b ≡ true → a.detected_at + cool a.kind a.dedupe_key < b.detected_at

-- Each alert against all that were inserted after it.
abbrev pub IsSpaced : Cooldowns → List Alert → Type 0
IsSpaced cool [] = Unit
IsSpaced cool (a ∷ rest) = All (λ b. IsLater cool a b) rest × IsSpaced cool rest

pub IsLater-than_old :
    (cool : Cooldowns) (a b : Alert)
    → is_recent b.host_id b.kind b.dedupe_key (b.detected_at - cool b.kind b.dedupe_key) a ≡ false
    → IsLater cool a b
unfolding same_alert is_recent
IsLater-than_old cool a b old same =
    grind (arith, str_eq_iff a.kind b.kind, str_eq_iff a.dedupe_key b.dedupe_key)

count-head :
    (p : Alert → Bool) (a : Alert) (rest : List Alert) → count_where p (a ∷ rest) ≡ 0 → p a ≡ false
count-head p a rest h = ground arith

count-tail :
    (p : Alert → Bool) (a : Alert) (rest : List Alert)
    → count_where p (a ∷ rest) ≡ 0
    → count_where p rest ≡ 0
count-tail p a rest h = ground arith

pub IsSpaced-append :
    (cool : Cooldowns) (rows : List Alert) (b : Alert)
    → IsSpaced cool rows
    → count_where
        (is_recent b.host_id b.kind b.dedupe_key (b.detected_at - cool b.kind b.dedupe_key))
        rows
      ≡ 0
    → IsSpaced cool (rows ++ b ∷ [])
IsSpaced-append cool [] b s h = (tt, tt)
IsSpaced-append cool (a ∷ rest) b s h = (
  All-append (λ x. IsLater cool a x) rest (b ∷ []) s.0
      (
        IsLater-than_old cool a b (
            count-head
              (is_recent b.host_id b.kind b.dedupe_key (b.detected_at - cool b.kind b.dedupe_key)) a
              rest h),
        tt,
      ),
  IsSpaced-append cool rest b s.1 (
      count-tail
        (is_recent b.host_id b.kind b.dedupe_key (b.detected_at - cool b.kind b.dedupe_key)) a rest
        h),
)
