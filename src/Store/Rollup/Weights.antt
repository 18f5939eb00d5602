-- ===== src/Store/Rollup/Weights.antt =====
-- The sum of the rows whose key passes a test, `none` if there is no such row, and what an upsert
-- does to it.
use shadow_stat.Base.{
  ◌≡◌, refl, sym, ◌∙◌, ap, Bool, true, false, Option, none, some, [], ◌∷◌, ◌++◌, arith,
  if◌then◌else◌, Bool-cases, inl, inr, fun_ext,
}
use shadow_stat.Store.Rollup.{
  Counters, Key, Rows, add_counters, upsert, upsert_all, same_key, same_key_iff,
}

unfoldable pub plus : Option Counters → Option Counters → Option Counters
unfolding add_counters
plus none y = y
plus (some a) none = some a
plus (some a) (some b) = some (add_counters a b)

pub plus_assoc : (x y z : Option Counters) → plus (plus x y) z ≡ plus x (plus y z)
unfolding plus
plus_assoc none y z = refl
plus_assoc (some a) none z = refl
plus_assoc (some a) (some b) none = refl
plus_assoc (some a) (some b) (some c) = ground arith

pub plus_comm : (x y : Option Counters) → plus x y ≡ plus y x
unfolding plus
plus_comm none none = refl
plus_comm none (some b) = refl
plus_comm (some a) none = refl
plus_comm (some a) (some b) = ground arith

pub plus-none : (x : Option Counters) → plus x none ≡ x
unfolding plus
plus-none none = refl
plus-none (some a) = refl

abbrev pub only : Bool → Counters → Option Counters
only b c = if b then some c else none

unfoldable pub weight : (Key → Bool) → Rows → Option Counters
unfolding plus
weight p [] = none
weight p ((k, c) ∷ rows) = plus (only (p k) c) (weight p rows)

plus_left_comm : (x y z : Option Counters) → plus x (plus y z) ≡ plus y (plus x z)
plus_left_comm x y z =
    sym (plus_assoc x y z) ∙ ap (λ w. plus w z) (plus_comm x y) ∙ plus_assoc y x z

-- Adding to a row is adding beside it.
only-add : (b : Bool) (c d : Counters) → only b (add_counters d c) ≡ plus (only b c) (only b d)
unfolding plus
only-add true c d = ground arith
only-add false c d = refl

weight-upsert :
    (p : Key → Bool) (k : Key) (c : Counters) (t : Rows)
    → weight p (upsert k c t) ≡ plus (only (p k) c) (weight p t)
unfolding weight upsert
weight-upsert p k c [] = refl
weight-upsert p k c ((j, b) ∷ t) = elim (Bool-cases (same_key j k)) [
  | inl e ↦
      let same : j ≡ k = (same_key_iff j k).0 e in
      let step : upsert k c ((j, b) ∷ t) ≡ (j, add_counters b c) ∷ t = ground arith in
      rw (step, same, only-add (p k) c b, plus_assoc)
  | inr e ↦
      let step : upsert k c ((j, b) ∷ t) ≡ (j, b) ∷ upsert k c t = ground arith in
      rw (step, weight-upsert p k c t, plus_left_comm (only (p j) b))
]

-- Whatever keys are asked for, their sum grows by that of the rows added with those keys.
pub weight-upsert_all :
    (p : Key → Bool) (rows t : Rows)
    → weight p (upsert_all rows t) ≡ plus (weight p rows) (weight p t)
unfolding weight upsert_all
weight-upsert_all p [] t = refl
weight-upsert_all p ((k, c) ∷ rows) t =
    weight-upsert_all p rows (upsert k c t)
    ∙ ap (λ w. plus (weight p rows) w) (weight-upsert p k c t)
    ∙ plus_left_comm (weight p rows) (only (p k) c) (weight p t)
    ∙ sym (plus_assoc (only (p k) c) (weight p rows) (weight p t))

weight-nil : (p : Key → Bool) (rows : Rows) → plus (weight p rows) (weight p []) ≡ weight p rows
unfolding weight
weight-nil p rows = plus-none (weight p rows)

-- Summing by key first changes no sum.
pub weight-grouped :
    (p : Key → Bool) (rows t : Rows)
    → weight p (upsert_all (upsert_all rows []) t) ≡ plus (weight p rows) (weight p t)
weight-grouped p rows t =
    weight-upsert_all p (upsert_all rows []) t
    ∙ ap (λ w. plus w (weight p t)) (weight-upsert_all p rows [] ∙ weight-nil p rows)

pub weight-append :
    (p : Key → Bool) (xs ys : Rows) → weight p (xs ++ ys) ≡ plus (weight p xs) (weight p ys)
unfolding weight
weight-append p [] ys = refl
weight-append p ((k, c) ∷ xs) ys =
    ap (λ w. plus (only (p k) c) w) (weight-append p xs ys)
    ∙ sym (plus_assoc (only (p k) c) (weight p xs) (weight p ys))

-- Equal tests give equal sums.
pub weight_congr :
    (p q : Key → Bool) (rows : Rows) → ((k : Key) → p k ≡ q k) → weight p rows ≡ weight q rows
weight_congr p q rows h = rw (fun_ext h)
