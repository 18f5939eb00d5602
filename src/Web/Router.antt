-- ===== src/Web/Router.antt =====
-- newRouter of internal/web/router.go: every route with the gate in front of it and its handler.
-- The handlers of other components answer without touching the accounts; what they answer is an
-- argument.
pub mod Gates
pub mod Restricted
pub mod Admins
use shadow_stat.Base.{ℕ, String, Bool, true, false, Option, List, [], ◌∷◌}
use shadow_stat.Store.Driver.{Result, Driver}
use shadow_stat.Store.Accounts.{Accounts, Session}
use shadow_stat.Web.Middleware.{
  Request, Response, Reply, require_session, require_admin, require_admin_elevated,
}
use shadow_stat.Base.Decimal.{ℤ}
use shadow_stat.Web.Users.{
  CreateUserRequest, LoginRequest, create_user_handler, update_user_role_handler,
  delete_user_handler, logout_handler, login_handler, reauth_handler,
}

-- The routes, with what the handler reads of the request beside the cookie.
pub data Route : Type 0 where
  static_files get_login : Route
  get_dashboard get_host_page get_alerts_page get_settings_page : Route
  post_login : Option LoginRequest → Route
  post_logout : Route
  post_reauth : Option String → Route
  get_hosts get_host_series get_host_flows get_host_alerts get_alerts : Route
  post_ack post_ack_all get_settings put_settings get_interfaces get_users : Route
  post_user : Option CreateUserRequest → Route
  put_user_role : Option ℤ → Option String → Route
  delete_user_route : Option ℤ → Route

pub data Gate : Type 0 where
  open_to_all : Gate
  session : Bool → Gate
  admin : Bool → Gate
  admin_elevated : Gate

-- The wrapper around each handler; the flag says whether the route is one of the API.
unfoldable pub gate : Route → Gate
gate static_files = open_to_all
gate get_login = open_to_all
gate get_dashboard = session false
gate get_host_page = session false
gate get_alerts_page = session false
gate get_settings_page = admin false
gate (post_login body) = open_to_all
gate post_logout = open_to_all
gate (post_reauth body) = session true
gate get_hosts = session true
gate get_host_series = session true
gate get_host_flows = session true
gate get_host_alerts = session true
gate get_alerts = session true
gate post_ack = admin true
gate post_ack_all = admin true
gate get_settings = admin true
gate put_settings = admin_elevated
gate get_interfaces = admin true
gate get_users = admin true
gate (post_user body) = admin_elevated
gate (put_user_role id body) = admin_elevated
gate (delete_user_route id) = admin_elevated

-- What is outside the program and this component.
pub record Env : Type 0 where
  pub driver : Driver
  pub verify_password : String → String → Result Bool
  pub hash_password : String → Result String
  pub new_token : Result String
  -- the other components' answers
  pub other : Route → Response

module _ (e : Env) where
  unfoldable pub public_handler : Route → Request → Accounts → Reply
  public_handler (post_login body) r a =
      login_handler e.driver e.verify_password e.new_token r.now r.later body a
  public_handler post_logout r a = logout_handler e.driver r.cookie a
  public_handler route r a = (e.other route, a)

  unfoldable pub session_handler : Route → Request → Session → Accounts → Reply
  session_handler (post_reauth body) r s a =
      reauth_handler e.driver e.verify_password r.now r.later body s a
  session_handler (post_user body) r s a =
      create_user_handler e.driver e.hash_password r.later body a
  session_handler (put_user_role id body) r s a = update_user_role_handler e.driver id body s a
  session_handler (delete_user_route id) r s a = delete_user_handler e.driver id s a
  session_handler route r s a = (e.other route, a)

  unfoldable pub through_gate : Gate → Route → Request → Accounts → Reply
  through_gate open_to_all route r a = public_handler route r a
  through_gate (session is_api) route r a =
      require_session e.driver is_api r (session_handler route r) a
  through_gate (admin is_api) route r a =
      require_admin e.driver is_api r (session_handler route r) a
  through_gate admin_elevated route r a =
      require_admin_elevated e.driver r (session_handler route r) a

  unfoldable pub serve : Route → Request → Accounts → Reply
  unfolding through_gate gate
  serve route r a = through_gate (gate route) route r a

-- Requests one after another, each with what its environment does.
pub record Served : Type 0 where
  pub env : Env
  pub request : Request
  pub route : Route

unfoldable pub serve_all : List Served → Accounts → Accounts
serve_all [] a = a
serve_all (q ∷ qs) a = serve_all qs (serve q.env q.route q.request a).1
