-- ===== src/Base/Assoc.antt =====
-- Go's map, and a SQL table with a primary key, as an association list. A map's iteration order is
-- not specified; this one is a legal order.
use mathlib.Core.Path.{◌≡◌}
use mathlib.Core.Option.{Option, none, some}
use mathlib.Core.List.{List, [], ◌∷◌}
use native.Mathlib.Omega.{arith}
use shadow_stat.Base.Tests.{if◌then◌else◌}
use shadow_stat.Base.Equality.{Eq}

module _ {ℓ κ} {K : Type ℓ} {V : Type κ} ⦃e : Eq K⦄ where
  unfoldable pub lookup : K → List (K × V) → Option V
  lookup k [] = none
  lookup k ((j, v) ∷ m) = let rest = lookup k m in if e.beq j k then some v else rest

  -- m[k] = f of what was there
  unfoldable pub alter : (Option V → V) → K → List (K × V) → List (K × V)
  alter f k [] = (k, f none) ∷ []
  alter f k ((j, v) ∷ m) =
      let rest = alter f k m in if e.beq j k then (j, f (some v)) ∷ m else (j, v) ∷ rest

  unfoldable pub insert : K → V → List (K × V) → List (K × V)
  unfolding alter
  insert k v m = alter (λ _. v) k m

  -- Reading after a write: the written key has the new value, every other key what it had.
  pub lookup-alter :
      (f : Option V → V) (k j : K) (m : List (K × V))
      → lookup j (alter f k m) ≡ (if e.beq k j then some (f (lookup j m)) else lookup j m)
  unfolding lookup alter
  lookup-alter f k j [] = ground (arith, e.beq_iff k j)
  lookup-alter f k j ((i, w) ∷ m) =
      ground (arith, e.beq_iff k j, e.beq_iff i k, e.beq_iff i j, lookup-alter f k j m)

  pub lookup-insert :
      (k j : K) (v : V) (m : List (K × V))
      → lookup j (insert k v m) ≡ (if e.beq k j then some v else lookup j m)
  unfolding insert
  lookup-insert k j v m = lookup-alter (λ _. v) k j m
