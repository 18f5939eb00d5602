-- ===== src/Web/Router/Gates.antt =====
-- Who can change the accounts through the routes of internal/web/router.go.
use shadow_stat.Base.{
  ℕ, ◌+◌, String, true, Option, none, some, inl, inr, Option-cases, arith, ◌≡◌, ◌≢◌, refl,
}
use shadow_stat.Store.Driver.{Driver, Result-cases, ok}
use shadow_stat.Store.Accounts.{
  Accounts, Session, is_admin, create_session, elevate_session, delete_session,
}
use shadow_stat.Auth.{
  validate, is_elevated, login, elevate, logout, session_idle_timeout, elevation_duration,
}
use shadow_stat.Auth.Laws.{login_passed, elevate_passed}
use shadow_stat.Web.Middleware.{Request, Reply, require_admin, require_admin_elevated, admin_only}
use shadow_stat.Web.Middleware.Keeps.{require_session-keeps, admin_only-keeps}
use shadow_stat.Web.Users.{LoginRequest, login_handler, logout_handler, reauth_handler}
use shadow_stat.Web.Router.{
  Route, Gate, Env, public_handler, session_handler, through_gate, gate, serve, open_to_all,
  session, admin, admin_elevated, post_login, post_logout, post_reauth, post_user, put_user_role,
  delete_user_route,
}

-- A session of an admin who has proved the password again.
pub record IsAuthorised (d : Driver) (r : Request) (a : Accounts) : Type 0 where
  pub token : String
  pub who : Session
  pub cookie : r.cookie ≡ some token
  pub valid : validate d token r.now a ≡ ok who
  pub admin_now : is_admin who ≡ true
  pub elevated_now : is_elevated who r.later ≡ true

module _ (d : Driver) (a : Accounts) where
  users-create_session :
      (token : String) (id now expires : ℕ) (a' : Accounts)
      → create_session d token id now expires a ≡ ok a'
      → a'.users ≡ a.users
  unfolding create_session
  users-create_session token id now expires a' h = ground arith

  users-elevate_session :
      (token : String) (until : ℕ) (a' : Accounts)
      → elevate_session d token until a ≡ ok a'
      → a'.users ≡ a.users
  unfolding elevate_session
  users-elevate_session token until a' h = ground arith

  users-logout : (token : String) (a' : Accounts) → logout d token a ≡ ok a' → a'.users ≡ a.users
  unfolding logout delete_session
  users-logout token a' h = ground arith

abbrev pub SameUsers : Accounts → Accounts → Type 0
SameUsers a a' = a'.users ≡ a.users

module _ (e : Env) (r : Request) (a : Accounts) where
  login_route-users :
      (body : Option LoginRequest) → SameUsers a (public_handler e (post_login body) r a).1
  unfolding public_handler login_handler
  login_route-users none = refl
  login_route-users (some req) =
      elim (Result-cases
        (login e.driver e.verify_password req.username req.password e.new_token r.now r.later a)) [
          | inl (x, p) ↦ ground arith
          | inr ((token, a'), p) ↦
              let (u, found, checked, made, added) =
                login_passed e.driver e.verify_password req.username req.password e.new_token r.now
                  r.later a token a' p in
              ground (
                arith,
                users-create_session e.driver a token u.id r.now (r.later + session_idle_timeout) a'
                    added,
              )
        ]

  logout_route-users : SameUsers a (public_handler e post_logout r a).1
  unfolding public_handler logout_handler
  logout_route-users = elim (Option-cases r.cookie) [
    | inl p ↦ ground arith
    | inr (token, p) ↦ elim (Result-cases (logout e.driver token a)) [
      | inl (x, q) ↦ ground arith
      | inr (a', q) ↦ ground (arith, users-logout e.driver a token a' q)
    ]
  ]

  public_handler-users : (route : Route) → SameUsers a (public_handler e route r a).1
  unfolding public_handler
  public_handler-users (post_login body) = login_route-users body
  public_handler-users post_logout = logout_route-users
  public_handler-users _ = refl

  reauth_route-users :
      (body : Option String) (s : Session)
      → SameUsers a (session_handler e (post_reauth body) r s a).1
  unfolding session_handler reauth_handler
  reauth_route-users none s = refl
  reauth_route-users (some password) s =
      elim (Result-cases (elevate e.driver e.verify_password s.token password r.now r.later a)) [
        | inl (x, p) ↦ ground arith
        | inr (a', p) ↦
            let (t, valid, checked, elevated) =
              elevate_passed e.driver e.verify_password s.token password r.now r.later a a' p in
            ground (
              arith,
              users-elevate_session e.driver a t.token (r.later + elevation_duration) a' elevated,
            )
      ]

  -- A session that need not be elevated changes no user.
  session_handler-users :
      (route : Route) (s : Session)
      → gate route ≢ admin_elevated
      → SameUsers a (session_handler e route r s a).1
  unfolding session_handler gate
  session_handler-users (post_reauth body) s h = reauth_route-users body s
  session_handler-users (post_user body) s h = absurd (h refl)
  session_handler-users (put_user_role id body) s h = absurd (h refl)
  session_handler-users (delete_user_route id) s h = absurd (h refl)
  session_handler-users _ s h = refl

  through_gate-users :
      (k : Gate) (route : Route)
      → gate route ≡ k
      → k ≢ admin_elevated
      → SameUsers a (through_gate e k route r a).1
  unfolding through_gate require_admin
  through_gate-users open_to_all route p h = public_handler-users route
  through_gate-users (session is_api) route p h =
      require_session-keeps (SameUsers a) e.driver r (session_handler e route r) a refl
        (λ s. session_handler-users route s (rw p h)) is_api
  through_gate-users (admin is_api) route p h =
      require_session-keeps (SameUsers a) e.driver r
        (admin_only e.driver is_api (session_handler e route r)) a refl
        (admin_only-keeps (SameUsers a) e.driver r (session_handler e route r) a refl
          (λ s. session_handler-users route s (rw p h)) is_api)
        is_api
  through_gate-users admin_elevated route p h = absurd (h refl)

  elevated_gate-IsAuthorised :
      (next : Session → Accounts → Reply)
      → ¬ SameUsers a (require_admin_elevated e.driver r next a).1
      → IsAuthorised e.driver r a
  unfolding require_admin_elevated
  elevated_gate-IsAuthorised next h = elim (Option-cases r.cookie) [
    | inl p ↦ absurd (h (ground arith))
    | inr (token, p) ↦ elim (Result-cases (validate e.driver token r.now a)) [
      | inl (x, q) ↦ absurd (h (ground arith))
      | inr (s, q) ↦ record {
        token = token;
        who = s;
        cookie = p;
        valid = q;
        admin_now = ground arith;
        elevated_now = ground arith;
      }
    ]
  ]

  elevated_route-IsAuthorised :
      (k : Gate) (route : Route)
      → gate route ≡ k
      → ¬ SameUsers a (through_gate e k route r a).1
      → IsAuthorised e.driver r a
  unfolding through_gate
  elevated_route-IsAuthorised admin_elevated route p h =
      elevated_gate-IsAuthorised (session_handler e route r) h
  elevated_route-IsAuthorised open_to_all route p h =
      absurd (h (through_gate-users open_to_all route p (λ q. cc)))
  elevated_route-IsAuthorised (session b) route p h =
      absurd (h (through_gate-users (session b) route p (λ q. cc)))
  elevated_route-IsAuthorised (admin b) route p h =
      absurd (h (through_gate-users (admin b) route p (λ q. cc)))

-- A request, on whichever route, that changes the table of users carries the cookie of a session
-- that is valid, belongs to a user who is an admin now, and is elevated.
pub serve-IsAuthorised :
    (e : Env) (route : Route) (r : Request) (a : Accounts)
    → ¬ SameUsers a (serve e route r a).1
    → IsAuthorised e.driver r a
unfolding serve
serve-IsAuthorised e route r a h = elevated_route-IsAuthorised e r a (gate route) route refl h
