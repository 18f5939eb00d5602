-- ===== src/Web/Router/Restricted.antt =====
-- The routes of the API in internal/web/router.go that only an admin may use.
use shadow_stat.Base.{String, Bool, true, false, ◌||◌, not, some, ◌⊎◌, ◌≡◌}
use shadow_stat.Store.Driver.{Driver, ok}
use shadow_stat.Store.Accounts.{Accounts, Session, is_admin}
use shadow_stat.Auth.{validate, is_elevated}
use shadow_stat.Web.Middleware.{Request, Reply, failure}
use shadow_stat.Web.Router.{
  Route, post_ack, post_ack_all, get_settings, put_settings, get_interfaces, get_users, post_user,
  put_user_role, delete_user_route,
}

-- What only an admin may do, whichever gate the router has for it. The flag says that the password
-- must have been given again.
pub data IsRestricted : Bool → Route → Type 0 where
  acknowledging : IsRestricted false post_ack
  acknowledging_all : IsRestricted false post_ack_all
  reading_settings : IsRestricted false get_settings
  listing_interfaces : IsRestricted false get_interfaces
  listing_users : IsRestricted false get_users
  changing_settings : IsRestricted true put_settings
  creating_user : {body : _} → IsRestricted true (post_user body)
  changing_role : {id : _} {body : _} → IsRestricted true (put_user_role id body)
  deleting_user : {id : _} → IsRestricted true (delete_user_route id)

-- The cookie is that of a session that is valid, of a user who is an admin now and, where it is
-- asked for, elevated.
pub record HasRights (elevated : Bool) (d : Driver) (r : Request) (a : Accounts) : Type 0 where
  pub token : String
  pub who : Session
  pub cookie : r.cookie ≡ some token
  pub valid : validate d token r.now a ≡ ok who
  pub admin_now : is_admin who ≡ true
  pub elevated_now : (not elevated || is_elevated who r.later) ≡ true

-- An answer with 401 or 403, and the accounts as they were.
abbrev pub IsRefused : Accounts → Reply → Type 0
IsRefused a reply =
    (reply ≡ (failure 401 "unauthenticated", a))
    ⊎ (reply ≡ (failure 403 "admin_required", a))
    ⊎ (reply ≡ (failure 403 "reauth_required", a))
