-- ===== src/Web/Router/Admins.antt =====
-- Any requests, by whomever, one after another, leave an admin.
use shadow_stat.Base.{true, List, [], ◌∷◌}
use shadow_stat.Store.Accounts.{Accounts, Session}
use shadow_stat.Web.Middleware.{
  Request, require_admin, require_admin_elevated, admin_only, elevated_only,
}
use shadow_stat.Web.Middleware.Keeps.{require_session-keeps, elevated_only-keeps, admin_only-keeps}
use shadow_stat.Web.Users.Governed.{
  IsGoverned, update_user_role_handler-IsGoverned, delete_user_handler-IsGoverned,
  create_user_handler-IsGoverned, logout_handler-IsGoverned, login_handler-IsGoverned,
  reauth_handler-IsGoverned,
}
use shadow_stat.Web.Router.{
  Route, Gate, Env, Served, public_handler, session_handler, through_gate, gate, serve, serve_all,
  open_to_all, session, admin, admin_elevated, post_login, post_logout, post_reauth, post_user,
  put_user_role, delete_user_route,
}

module _ (e : Env) (r : Request) (a : Accounts) (g : IsGoverned a) where
  public_handler-IsGoverned : (route : Route) → IsGoverned (public_handler e route r a).1
  unfolding public_handler
  public_handler-IsGoverned (post_login body) =
      login_handler-IsGoverned e.driver a g e.verify_password r.now r.later e.new_token body
  public_handler-IsGoverned post_logout = logout_handler-IsGoverned e.driver a g r.cookie
  public_handler-IsGoverned _ = g

  session_handler-IsGoverned :
      (route : Route) (s : Session) → IsGoverned (session_handler e route r s a).1
  unfolding session_handler
  session_handler-IsGoverned (post_reauth body) s =
      reauth_handler-IsGoverned e.driver a g e.verify_password r.now r.later body s
  session_handler-IsGoverned (post_user body) s =
      create_user_handler-IsGoverned e.driver a g e.hash_password r.later body
  session_handler-IsGoverned (put_user_role id body) s =
      update_user_role_handler-IsGoverned e.driver a g id body s
  session_handler-IsGoverned (delete_user_route id) s =
      delete_user_handler-IsGoverned e.driver a g id s
  session_handler-IsGoverned _ s = g

  through_gate-IsGoverned : (k : Gate) (route : Route) → IsGoverned (through_gate e k route r a).1
  unfolding through_gate require_admin require_admin_elevated
  through_gate-IsGoverned open_to_all route = public_handler-IsGoverned route
  through_gate-IsGoverned (session is_api) route =
      require_session-keeps IsGoverned e.driver r (session_handler e route r) a g
        (session_handler-IsGoverned route) is_api
  through_gate-IsGoverned (admin is_api) route =
      require_session-keeps IsGoverned e.driver r
        (admin_only e.driver is_api (session_handler e route r)) a g
        (admin_only-keeps IsGoverned e.driver r (session_handler e route r) a g
          (session_handler-IsGoverned route) is_api)
        is_api
  through_gate-IsGoverned admin_elevated route =
      require_session-keeps IsGoverned e.driver r
        (admin_only e.driver true (elevated_only e.driver r (session_handler e route r))) a g
        (admin_only-keeps IsGoverned e.driver r
          (elevated_only e.driver r (session_handler e route r)) a g
          (elevated_only-keeps IsGoverned e.driver r (session_handler e route r) a g
            (session_handler-IsGoverned route))
          true)
        true

-- One request, on whichever route, keeps the tables' constraints and an admin, if there was one.
pub serve-IsGoverned :
    (e : Env) (route : Route) (r : Request) (a : Accounts)
    → IsGoverned a
    → IsGoverned (serve e route r a).1
unfolding serve
serve-IsGoverned e route r a g = through_gate-IsGoverned e r a g (gate route) route

-- From accounts with an admin and the constraints of the schema, any requests served one after
-- another, whoever sends them and whichever calls of the driver fail, leave such accounts.
pub serve_all-IsGoverned :
    (qs : List Served) (a : Accounts) → IsGoverned a → IsGoverned (serve_all qs a)
unfolding serve_all
serve_all-IsGoverned [] a g = g
serve_all-IsGoverned (q ∷ qs) a g =
    serve_all-IsGoverned qs _ (serve-IsGoverned q.env q.route q.request a g)
