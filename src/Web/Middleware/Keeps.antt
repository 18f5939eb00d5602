-- ===== src/Web/Middleware/Keeps.antt =====
-- The gates of internal/web/middleware.go run the handler or leave the accounts alone.
use shadow_stat.Base.{Bool, inl, inr, Option-cases, Bool-cases, arith, ◌≡◌}
use shadow_stat.Store.Driver.{Driver, Result-cases}
use shadow_stat.Store.Accounts.{Accounts, Session, is_admin}
use shadow_stat.Auth.{validate, is_elevated}
use shadow_stat.Web.Middleware.{Request, Reply, require_session, admin_only, elevated_only}

-- What holds of the accounts and after the handler holds behind the gate.
module _ (P : Accounts → Type 0) (d : Driver) (r : Request) (next : Session → Accounts → Reply)
    (a : Accounts) (before : P a) (after : (s : Session) → P (next s a).1) where
  pub require_session-keeps : (is_api : Bool) → P (require_session d is_api r next a).1
  unfolding require_session
  require_session-keeps is_api = elim (Option-cases r.cookie) [
    | inl p ↦ rw (p, require_session) before
    | inr (token, p) ↦ elim (Result-cases (validate d token r.now a)) [
      | inl (e, q) ↦ let k : (require_session d is_api r next a).1 ≡ a = ground arith in rw k before
      | inr (s, q) ↦
          let k : require_session d is_api r next a ≡ next s a = ground arith in rw k (after s)
    ]
  ]

  pub elevated_only-keeps : (s : Session) → P (elevated_only d r next s a).1
  elevated_only-keeps s = elim (Bool-cases (is_elevated s r.later)) [
    | inl p ↦ rw p (after s)
    | inr p ↦ rw p before
  ]

  pub admin_only-keeps : (is_api : Bool) (s : Session) → P (admin_only d is_api next s a).1
  admin_only-keeps is_api s = elim (Bool-cases (is_admin s)) [
    | inl p ↦ rw p (after s)
    | inr p ↦ rw p before
  ]
