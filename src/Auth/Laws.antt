-- ===== src/Auth/Laws.antt =====
-- What a login and an elevation that succeed have checked, and when a session is valid.
use shadow_stat.Base.{ℕ, ◌+◌, ◌≡◌, inl, inr, String, Bool, true, arith}
use shadow_stat.Store.Driver.{Result, ok, Driver, Result-cases, ◌>>=◌}
use shadow_stat.Store.Accounts.{
  User, Accounts, Session, user_by_username, password_hash_by_user_id, create_session,
  elevate_session,
}
use shadow_stat.Auth.{validate, login, elevate, session_idle_timeout, elevation_duration}

module _ (d : Driver) (verify_password : String → String → Result Bool) where
  pub login_passed :
      (username password : String) (new_token : Result String) (now later : ℕ) (a : Accounts)
      (token : String) (a' : Accounts)
      → login d verify_password username password new_token now later a ≡ ok (token, a')
      → (u : User) × (user_by_username d username a ≡ ok u)
        × (verify_password password u.password_hash ≡ ok true)
        × (new_token ≡ ok token)
        × (create_session d token u.id now (later + session_idle_timeout) a ≡ ok a')
  unfolding login
  login_passed username password new_token now later a token a' h =
      elim (Result-cases (user_by_username d username a)) [
        | inl (e, p) ↦ absurd (ground arith)
        | inr (u, p) ↦ (u, p, ground arith, ground arith, ground arith)
      ]

  pub elevate_passed :
      (token password : String) (now later : ℕ) (a a' : Accounts)
      → elevate d verify_password token password now later a ≡ ok a'
      → (s : Session) × (validate d token now a ≡ ok s)
        × ((password_hash_by_user_id d s.user_id a >>= verify_password password) ≡ ok true)
        × (elevate_session d s.token (later + elevation_duration) a ≡ ok a')
  unfolding elevate
  elevate_passed token password now later a a' h = elim (Result-cases (validate d token now a)) [
    | inl (e, p) ↦ absurd (ground arith)
    | inr (s, p) ↦ (s, p, ground arith, ground arith)
  ]
