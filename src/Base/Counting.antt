-- ===== src/Base/Counting.antt =====
-- Counting rows across an UPDATE or a DELETE, and columns whose values are distinct.
use Prim.Native.Nat.{◌+◌, ◌≤◌}
use mathlib.Core.Path.{◌≡◌, refl, sym}
use mathlib.Core.Logic.{◌≢◌, inl, inr}
use mathlib.Core.Bool.{Bool, true, false, not}
use mathlib.Core.Option.{some, none}
use mathlib.Core.List.{List, [], ◌∷◌, ◌++◌}
use native.Mathlib.Omega.{arith}
use shadow_stat.Base.Equality.{Eq}
use shadow_stat.Base.Tests.{if◌then◌else◌, Bool-cases}
use shadow_stat.Base.Lists.{
  All, All-append, All-rows_where, count_where, rows_where, update_where, first_where,
}

module _ {ℓ} {A : Type ℓ} where
  pub count_where-append :
      (p : A → Bool) (xs ys : List A)
      → count_where p (xs ++ ys) ≡ count_where p xs + count_where p ys
  count_where-append p [] ys = omega arith
  count_where-append p (x ∷ xs) ys = omega (arith, count_where-append p xs ys)

  pub count-update_where-lower :
      (p q : A → Bool) (f : A → A) (xs : List A)
      → count_where p xs ≤ count_where p (update_where q f xs) + count_where q xs
  count-update_where-lower p q f [] = omega arith
  count-update_where-lower p q f (x ∷ xs) = ground (arith, count-update_where-lower p q f xs)

  pub count-update_where-grows :
      (p q : A → Bool) (f : A → A) (xs : List A)
      → ((x : A) → p (f x) ≡ true)
      → count_where p xs ≤ count_where p (update_where q f xs)
  count-update_where-grows p q f [] h = omega arith
  count-update_where-grows p q f (x ∷ xs) h =
      ground (arith, h x, count-update_where-grows p q f xs h)

  pub count-update_where-same :
      (p q : A → Bool) (f : A → A) (xs : List A)
      → ((x : A) → p (f x) ≡ p x)
      → count_where p (update_where q f xs) ≡ count_where p xs
  count-update_where-same p q f [] h = refl
  count-update_where-same p q f (x ∷ xs) h = ground (arith, h x, count-update_where-same p q f xs h)

  pub count-rows_where-lower :
      (p q : A → Bool) (xs : List A)
      → count_where p xs ≤ count_where p (rows_where (λ x. not (q x)) xs) + count_where q xs
  count-rows_where-lower p q [] = omega arith
  count-rows_where-lower p q (x ∷ xs) = ground (arith, count-rows_where-lower p q xs)

  pub count-rows_where-same :
      (p q : A → Bool) (xs : List A)
      → ((x : A) → p x ≡ true → q x ≡ true)
      → count_where p (rows_where q xs) ≡ count_where p xs
  count-rows_where-same p q [] h = refl
  count-rows_where-same p q (x ∷ xs) h = ground (arith, h x, count-rows_where-same p q xs h)

  pub update_where_none :
      (q : A → Bool) (f : A → A) (xs : List A) → count_where q xs ≡ 0 → update_where q f xs ≡ xs
  update_where_none q f [] h = refl
  update_where_none q f (x ∷ xs) h = ground (arith, update_where_none q f xs)

  pub rows_where_none :
      (q : A → Bool) (xs : List A) → count_where q xs ≡ 0 → rows_where (λ x. not (q x)) xs ≡ xs
  rows_where_none q [] h = refl
  rows_where_none q (x ∷ xs) h = ground (arith, rows_where_none q xs)

  pub first_where-count :
      (q : A → Bool) (xs : List A) {y : A} → first_where q xs ≡ some y → 1 ≤ count_where q xs
  first_where-count q [] h = cc
  first_where-count q (x ∷ xs) {y} h = ground (arith, first_where-count q xs {y = y})

  pub first_where-none :
      (q : A → Bool) (xs : List A) → first_where q xs ≡ none → All (λ x. q x ≡ false) xs
  first_where-none q [] h = tt
  first_where-none q (x ∷ xs) h = ground (arith, first_where-none q xs)

  pub All-update_where {κ} :
      (P : A → Type κ) (q : A → Bool) (f : A → A) (xs : List A)
      → ((x : A) → P x → P (f x))
      → All P xs
      → All P (update_where q f xs)
  All-update_where P q f [] k h = tt
  All-update_where P q f (x ∷ xs) k h = ground (arith, k x h.0, All-update_where P q f xs k h.1)

  pub All-map {κ μ} :
      (P : A → Type κ) (Q : A → Type μ) (xs : List A) → ((x : A) → P x → Q x) → All P xs → All Q xs
  All-map P Q [] k h = tt
  All-map P Q (x ∷ xs) k h = (k x h.0, All-map P Q xs k h.1)

  -- The rows that are left also pass the test.
  pub All-rows_where_test {κ μ} :
      (P : A → Type κ) (Q : A → Type μ) (q : A → Bool) (xs : List A)
      → ((x : A) → q x ≡ true → P x → Q x)
      → All P xs
      → All Q (rows_where q xs)
  All-rows_where_test P Q q [] k h = tt
  All-rows_where_test P Q q (x ∷ xs) k h = elim (Bool-cases (q x)) [
    | inl e ↦ rw (e, rows_where) (k x e h.0, All-rows_where_test P Q q xs k h.1)
    | inr e ↦ rw (e, rows_where) (All-rows_where_test P Q q xs k h.1)
  ]

module _ {ℓ} {A K : Type ℓ} where
  -- No two rows have the same key: a UNIQUE column.
  abbrev pub Distinct : (A → K) → List A → Type ℓ
  Distinct key [] = Unit
  Distinct key (x ∷ xs) = All (λ y. key y ≢ key x) xs × Distinct key xs

module _ {ℓ} {A K : Type ℓ} (key : A → K) where
  pub Distinct-append_one :
      (xs : List A) (z : A)
      → Distinct key xs
      → All (λ y. key y ≢ key z) xs
      → Distinct key (xs ++ z ∷ [])
  Distinct-append_one [] z d h = (tt, tt)
  Distinct-append_one (x ∷ xs) z d h = (
    All-append (λ y. key y ≢ key x) xs (z ∷ []) d.0 ((λ e. h.0 (sym e)), tt),
    Distinct-append_one xs z d.1 h.1,
  )

  pub Distinct-rows_where :
      (q : A → Bool) (xs : List A) → Distinct key xs → Distinct key (rows_where q xs)
  Distinct-rows_where q [] d = tt
  Distinct-rows_where q (x ∷ xs) d =
      ground (arith, Distinct-rows_where q xs d.1, All-rows_where (λ y. key y ≢ key x) q xs d.0)

  pub Distinct-update_where :
      (q : A → Bool) (f : A → A) (xs : List A)
      → ((x : A) → key (f x) ≡ key x)
      → Distinct key xs
      → Distinct key (update_where q f xs)
  Distinct-update_where q f [] k d = tt
  Distinct-update_where q f (x ∷ xs) k d =
      let e : key (if q x then f x else x) ≡ key x = ground (arith, k x) in
      rw e (
        All-update_where (λ y. key y ≢ key x) q f xs (λ y h. rw (k y) h) d.0,
        Distinct-update_where q f xs k d.1,
      )

module _ {ℓ} {A K : Type ℓ} ⦃e : Eq K⦄ (key : A → K) where
  pub count_absent :
      (k : K) (xs : List A) → All (λ y. key y ≢ k) xs → count_where (λ y. e.beq (key y) k) xs ≡ 0
  count_absent k [] h = refl
  count_absent k (x ∷ xs) h = ground (arith, h.0, e.beq_iff (key x) k, count_absent k xs h.1)

  pub Distinct-count-le :
      (k : K) (xs : List A) → Distinct key xs → count_where (λ y. e.beq (key y) k) xs ≤ 1
  Distinct-count-le k [] d = omega arith
  Distinct-count-le k (x ∷ xs) d =
      ground (arith, e.beq_iff (key x) k, Distinct-count-le k xs d.1, count_absent (key x) xs d.0)
