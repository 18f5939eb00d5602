-- ===== src/Web/Samples.antt =====
-- Tests of user management and of the sessions, and their theorems at two admins and a standard
-- user.
use shadow_stat.Base.{
  Bool, Option, ℕ, ◌≡◌, ◌≢◌, refl, String, true, false, none, some, List, [], ◌∷◌, arith, str_eq,
  str_eq_iff, map, ap, first_where,
}
use shadow_stat.Store.Driver.{Result, ok, err, not_found}
use shadow_stat.Store.Accounts.{
  User, is_admin, SessionRow, Session, Accounts, has_name, user_by_username, create_session,
  session_by_token, update_user_role, delete_user, user_by_id, count_admins,
}
use shadow_stat.Store.Accounts.Invariant.{IsWellFormed}
use shadow_stat.Store.Accounts.Admins.{admins}
use shadow_stat.Auth.{validate, login, is_elevated}
use shadow_stat.Auth.Lifecycle.{validate-update_user_role, validate-delete_user, validate-login}
use shadow_stat.Web.Middleware.{require_admin_elevated, Request, success}
use shadow_stat.Base.Decimal.{pos}
use shadow_stat.Web.Users.{update_user_role_handler, delete_user_handler}
use shadow_stat.Web.Users.Governed.{
  IsGoverned, update_user_role_handler-IsGoverned, delete_user_handler-IsGoverned,
}
use shadow_stat.Web.Users.Race.{sound, demote_at_once, demote_at_once-no_admin}
use shadow_stat.Web.Router.{
  Route, Env, serve, serve_all, put_user_role, delete_user_route, session_handler,
}
use shadow_stat.Web.Router.Admins.{serve-IsGoverned, serve_all-IsGoverned}
use shadow_stat.Web.Router.Gates.{SameUsers, IsAuthorised, serve-IsAuthorised}

abbrev ann : User
ann = record { id = 1; username = "ann"; password_hash = "h1"; role = "admin"; created_at = 10 }

abbrev bob : User
bob = record { id = 2; username = "bob"; password_hash = "h2"; role = "admin"; created_at = 20 }

abbrev cy : User
cy = record { id = 3; username = "cy"; password_hash = "h3"; role = "standard"; created_at = 30 }

abbrev row : String → ℕ → SessionRow
row token id = record {
  token = token;
  user_id = id;
  created_at = 40;
  expires_at = 90000;
  elevated_until = some 900;
}

abbrev accounts : Accounts
accounts = record {
  users = ann ∷ bob ∷ cy ∷ [];
  sessions = row "ta" 1 ∷ row "tb" 2 ∷ row "tc" 3 ∷ [];
  next_id = 4;
}

abbrev session_of : String → ℕ → String → Session
session_of token id role = record {
  token = token;
  user_id = id;
  role = role;
  created_at = 40;
  expires_at = 90000;
  elevated_until = some 900;
}

distinct_texts : (s t : String) → str_eq s t ≡ false → s ≢ t
distinct_texts s t h e = ground (arith, str_eq_iff s t)

accounts-IsWellFormed : IsWellFormed accounts
accounts-IsWellFormed = record {
  fresh = omega arith;
  ids = omega arith;
  names = (
    (distinct_texts "bob" "ann" refl, (distinct_texts "cy" "ann" refl, tt)),
    ((distinct_texts "cy" "bob" refl, tt), (tt, tt)),
  );
  tokens = (
    (distinct_texts "tb" "ta" refl, (distinct_texts "tc" "ta" refl, tt)),
    ((distinct_texts "tc" "tb" refl, tt), (tt, tt)),
  );
  owned = omega arith;
}

accounts-IsGoverned : IsGoverned accounts
accounts-IsGoverned = record { well_formed = accounts-IsWellFormed; some_admin = omega arith }

abbrev env : Env
env = record {
  driver = sound;
  verify_password = λ password hash. ok (str_eq password hash);
  hash_password = λ password. ok password;
  new_token = ok "t1";
  other = λ route. success;
}

abbrev from_ann : Request
from_ann = record { cookie = some "ta"; now = 100; later = 101 }

abbrev from_cy : Request
from_cy = record { cookie = some "tc"; now = 100; later = 101 }

abbrev demote_bob : Route
demote_bob = put_user_role (some (pos 2)) (some "standard")

abbrev second_role : List User → String
second_role (u ∷ v ∷ us) = v.role
second_role _ = ""

-- Ann demotes Bob; the change shows in the table, which a request of Cy's leaves as it is.
demotion : (serve env demote_bob from_ann accounts).0 ≡ success
unfolding serve require_admin_elevated session_handler update_user_role_handler validate
    session_by_token is_elevated user_by_id count_admins update_user_role
demotion = refl

roles_after :
    map (λ u. u.role) ((serve env demote_bob from_ann accounts).1).users
    ≡ "admin" ∷ "standard" ∷ "standard" ∷ []
unfolding serve require_admin_elevated session_handler update_user_role_handler validate
    session_by_token is_elevated user_by_id count_admins update_user_role
roles_after = refl

users_changed : ¬ SameUsers accounts (serve env demote_bob from_ann accounts).1
unfolding serve require_admin_elevated session_handler update_user_role_handler validate
    session_by_token is_elevated user_by_id count_admins update_user_role
users_changed h = distinct_texts "standard" "admin" refl (ap second_role h)

serve-IsGoverned_example :
    IsGoverned (serve env (delete_user_route (some (pos 2))) from_ann accounts).1
serve-IsGoverned_example =
    serve-IsGoverned env (delete_user_route (some (pos 2))) from_ann accounts accounts-IsGoverned

serve_all-IsGoverned_example : IsGoverned (
    serve_all
      (record { env = env; request = from_ann; route = demote_bob }
        ∷ record { env = env; request = from_ann; route = delete_user_route (some (pos 2)) }
        ∷ [])
      accounts)
serve_all-IsGoverned_example =
    serve_all-IsGoverned
      (record { env = env; request = from_ann; route = demote_bob }
        ∷ record { env = env; request = from_ann; route = delete_user_route (some (pos 2)) }
        ∷ [])
      accounts accounts-IsGoverned

serve-IsAuthorised_example : IsAuthorised sound from_ann accounts
serve-IsAuthorised_example = serve-IsAuthorised env demote_bob from_ann accounts users_changed

abbrev cookie_text : Option String → String
cookie_text none = ""
cookie_text (some token) = token

abbrev is_admin_result : Result Session → Bool
is_admin_result (err e) = false
is_admin_result (ok s) = is_admin s

update_user_role_handler-IsGoverned_example :
    IsGoverned
      (update_user_role_handler sound
        (some (pos 2))
        (some "standard")
        (session_of "ta" 1 "admin")
        accounts).1
update_user_role_handler-IsGoverned_example =
    update_user_role_handler-IsGoverned sound accounts accounts-IsGoverned (some (pos 2))
      (some "standard") (session_of "ta" 1 "admin")

delete_user_handler-IsGoverned_example :
    IsGoverned (delete_user_handler sound (some (pos 2)) (session_of "ta" 1 "admin") accounts).1
delete_user_handler-IsGoverned_example =
    delete_user_handler-IsGoverned sound accounts accounts-IsGoverned (some (pos 2))
      (session_of "ta" 1 "admin")

demote_at_once-no_admin_example :
    admins (demote_at_once (session_of "ta" 1 "admin") (session_of "tb" 2 "admin") 2 1 accounts) ≡ 0
demote_at_once-no_admin_example =
    demote_at_once-no_admin accounts ann bob (session_of "ta" 1 "admin") (session_of "tb" 2 "admin")
      accounts-IsWellFormed refl refl refl (omega arith) (omega arith) (omega arith) refl refl refl
      refl

abbrev bob_demoted : Accounts
bob_demoted = record accounts { users = ann ∷ record bob { role = "standard" } ∷ cy ∷ [] }

validate-update_user_role_example :
    validate sound "tb" 100 bob_demoted ≡ ok (session_of "tb" 2 "standard")
unfolding validate session_by_token update_user_role
validate-update_user_role_example =
    validate-update_user_role sound accounts bob_demoted "tb" (session_of "tb" 2 "admin") "standard"
      100 refl refl

abbrev bob_deleted : Accounts
bob_deleted = record accounts { users = ann ∷ cy ∷ []; sessions = row "ta" 1 ∷ row "tc" 3 ∷ [] }

validate-delete_user_example : validate sound "tb" 100 bob_deleted ≡ err not_found
unfolding validate session_by_token delete_user
validate-delete_user_example =
    validate-delete_user sound accounts bob_deleted "tb" (session_of "tb" 2 "admin") 100
      accounts-IsWellFormed refl refl

abbrev bob_logged_in : Accounts
bob_logged_in = record accounts {
  sessions =
      row "ta" 1
      ∷ row "tb" 2
      ∷ row "tc" 3
      ∷ record {
        token = "t1";
        user_id = 2;
        created_at = 500;
        expires_at = 86901;
        elevated_until = none;
      }
      ∷ [];
}

validate-login_example :
    (u : User) × (first_where (has_name "bob") accounts.users ≡ some u)
    × (env.verify_password "h2" u.password_hash ≡ ok true)
    × (validate sound "t1" 600 bob_logged_in
        ≡ ok (record {
          token = "t1";
          user_id = u.id;
          role = u.role;
          created_at = 500;
          expires_at = 86901;
          elevated_until = none;
        }))
unfolding login user_by_username create_session
validate-login_example =
    validate-login sound env.verify_password "bob" "h2" (ok "t1") 500 501 accounts bob_logged_in
      "t1" 600 accounts-IsWellFormed refl refl
