-- ===== src/Auth.antt =====
-- internal/auth/session.go: the session manager. Password verification is an argument; the random
-- token is one too, and so is each reading of the clock, in unix seconds.
pub mod Laws
pub mod Lifecycle
use shadow_stat.Base.{
  ℕ, ◌+◌, ◌*◌, String, Bool, true, false, Option, none, some, ltb, if◌then◌else◌,
}
use shadow_stat.Store.Driver.{Result, ok, err, Driver, not_found, invalid_credentials, ◌>>=◌}
use shadow_stat.Store.Accounts.{
  Accounts, Session, user_by_username, password_hash_by_user_id, create_session, session_by_token,
  elevate_session, delete_session,
}

abbrev pub session_idle_timeout : ℕ
session_idle_timeout = 24 * 3600

abbrev pub elevation_duration : ℕ
elevation_duration = 15 * 60

unfoldable pub is_elevated : Session → ℕ → Bool
is_elevated s now = elim s.elevated_until [ none ↦ false | some until ↦ ltb now until ]

module _ (d : Driver) where
  -- A session that has expired is not found.
  unfoldable pub validate : String → ℕ → Accounts → Result Session
  validate token now a =
      session_by_token d token a >>= λ s. if ltb s.expires_at now then err not_found else ok s

  unfoldable pub logout : String → Accounts → Result Accounts
  logout token a = delete_session d token a

module _ (d : Driver) (verify_password : String → String → Result Bool) where
  -- `new_token` is what NewToken returned; the clock is read once for each of the last arguments.
  unfoldable pub login :
      String → String → Result String → ℕ → ℕ → Accounts → Result (String × Accounts)
  login username password new_token now later a = user_by_username d username a >>= λ u.
      verify_password password u.password_hash >>= λ good.
      if good
      then (new_token >>= λ token.
          create_session d token u.id now (later + session_idle_timeout) a >>= λ a'. ok (token, a'))
      else err invalid_credentials

  unfoldable pub elevate : String → String → ℕ → ℕ → Accounts → Result Accounts
  unfolding validate
  elevate token password now later a = validate d token now a >>= λ s.
      (password_hash_by_user_id d s.user_id a >>= λ hash. verify_password password hash) >>= λ good.
      if good
      then elevate_session d s.token (later + elevation_duration) a
      else err invalid_credentials
