-- ===== src/Web/Middleware.antt =====
-- internal/web/middleware.go. A request carries the session cookie, if any, and the two readings
-- of the clock that the gates make.
pub mod Keeps
use shadow_stat.Base.{ℕ, String, Bool, true, false, Option, none, some, if◌then◌else◌}
use shadow_stat.Store.Driver.{Result, ok, err, Driver}
use shadow_stat.Store.Accounts.{Accounts, Session, is_admin}
use shadow_stat.Auth.{validate, is_elevated}

pub record Request : Type 0 where
  pub cookie : Option String
  -- when the session is validated
  pub now : ℕ
  -- when the elevation is looked at
  pub later : ℕ

pub data Response : Type 0 where
  -- writeJSONError: the status and the code
  failure : ℕ → String → Response
  -- http.Redirect with 303
  redirect : String → Response
  -- {"status": "ok"}
  success : Response
  -- {"id": …, "status": "ok"}
  created : ℕ → Response
  -- the token that goes into the cookie
  logged_in : String → Response

abbrev pub Reply : Type 0
Reply = Response × Accounts

unfoldable pub deny_unauthenticated : Bool → Response
deny_unauthenticated is_api = if is_api then failure 401 "unauthenticated" else redirect "/login"

unfoldable pub deny_forbidden : Bool → Response
deny_forbidden is_api = if is_api then failure 403 "admin_required" else redirect "/"

module _ (d : Driver) where
  unfoldable pub require_session : Bool → Request → (Session → Accounts → Reply) → Accounts → Reply
  unfolding deny_unauthenticated
  require_session is_api r next a = elim r.cookie [
    | none ↦ (deny_unauthenticated is_api, a)
    | some token ↦ elim (validate d token r.now a) [
      | err e ↦ (deny_unauthenticated is_api, a)
      | ok s ↦ next s a
    ]
  ]

  abbrev pub elevated_only : Request → (Session → Accounts → Reply) → Session → Accounts → Reply
  elevated_only r next s a =
      if is_elevated s r.later then next s a else (failure 403 "reauth_required", a)

  abbrev pub admin_only : Bool → (Session → Accounts → Reply) → Session → Accounts → Reply
  admin_only is_api next s a = if is_admin s then next s a else (deny_forbidden is_api, a)

  unfoldable pub require_elevated : Request → (Session → Accounts → Reply) → Accounts → Reply
  unfolding require_session
  require_elevated r next a = require_session true r (elevated_only r next) a

  unfoldable pub require_admin : Bool → Request → (Session → Accounts → Reply) → Accounts → Reply
  unfolding require_session deny_forbidden
  require_admin is_api r next a = require_session is_api r (admin_only is_api next) a

  unfoldable pub require_admin_elevated : Request → (Session → Accounts → Reply) → Accounts → Reply
  unfolding require_admin
  require_admin_elevated r next a = require_admin true r (elevated_only r next) a
