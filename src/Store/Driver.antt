-- ===== src/Store/Driver.antt =====
-- What the statements of internal/store may return beside rows. The SQL driver is not part of the
-- program: any call of it may fail, and a statement that fails changes nothing.
use shadow_stat.Base.{Bool, true, false, ◌≡◌, refl, ◌⊎◌, inl, inr, if◌then◌else◌}

pub data Error : Type 0 where
  not_found invalid_credentials db_failed constraint_failed hash_failed : Error

pub data Result {ℓ} (A : Type ℓ) : Type ℓ where
  ok : A → Result A
  err : Error → Result A

-- The calls that one request makes, each at most once.
pub data Call : Type 0 where
  create_user_call user_by_username_call user_by_id_call password_hash_call list_users_call : Call
  count_admins_call update_user_role_call delete_user_call : Call
  create_session_call session_by_token_call elevate_session_call delete_session_call : Call

pub record Driver : Type 0 where
  pub fails : Call → Bool

-- What a statement that did not fail answered.
pub ok_of_unfailed {ℓ} :
    {A : Type ℓ} (failed : Bool) (e : Error) (x : A) {y : A}
    → (if failed then err e else ok x) ≡ ok y
    → x ≡ y
ok_of_unfailed true e x h = cc
ok_of_unfailed false e x h = cc

infixl 5 ◌>>=◌
abbrev pub ◌>>=◌ {ℓ κ} : {A : Type ℓ} {B : Type κ} → Result A → (A → Result B) → Result B
ok a >>= f = f a
err e >>= f = err e

pub Result-cases {ℓ} :
    {A : Type ℓ} (r : Result A) → ((e : Error) × (r ≡ err e)) ⊎ ((a : A) × (r ≡ ok a))
Result-cases (ok a) = inr (a, refl)
Result-cases (err e) = inl (e, refl)
