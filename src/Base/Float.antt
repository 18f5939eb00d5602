-- ===== src/Base/Float.antt =====
-- What the program does with float64 numbers, as an interface.
use Prim.Native.Nat.{ℕ}
use mathlib.Core.Bool.{Bool}

pub record Float {ℓ} (F : Type ℓ) : Type ℓ where
  -- float64 of an int64
  pub of_int : ℕ → F
  pub add : F → F → F
  pub sub : F → F → F
  pub mul : F → F → F
  pub div : F → F → F
  pub sqrt : F → F
  pub log2 : F → F
  -- `<`
  pub lt : F → F → Bool
  -- `<=`
  pub le : F → F → Bool
