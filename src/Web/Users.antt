-- ===== src/Web/Users.antt =====
-- internal/web/handlers_users.go, and login, logout and reauth of internal/web/handlers_api.go.
-- A body that json.Decode refuses is `none`; the {id} of the path is what strconv.ParseInt made of
-- it, `none` for its error.
pub mod Checks
pub mod Governed
pub mod Race
use Prim.Native.String.{len}
use shadow_stat.Base.{
  ◌⊎◌, inl, inr, ℕ, zero, suc, String, Bool, true, false, ◌&&◌, not, Option, none, some, ltb, leb,
  ◌==◌, if◌then◌else◌, str_eq,
}
use shadow_stat.Base.Decimal.{ℤ, pos, negsuc}
use shadow_stat.Store.Driver.{Result, ok, err, Driver, Error, invalid_credentials, not_found}
use shadow_stat.Store.Accounts.{
  Accounts, Session, User, role_admin, role_standard, create_user, user_by_id, count_admins,
  update_user_role, delete_user,
}
use shadow_stat.Auth.{login, elevate, logout}
use shadow_stat.Web.Middleware.{Request, Response, Reply, failure, success, created, logged_in}

unfoldable pub parse_id_param : Option ℤ → Option ℕ
parse_id_param none = none
parse_id_param (some (negsuc n)) = none
parse_id_param (some (pos zero)) = none
parse_id_param (some (pos (suc n))) = some (suc n)

abbrev pub min_password_len : ℕ
min_password_len = 12

pub record CreateUserRequest : Type 0 where
  pub username : String
  pub password : String
  pub role : String

unfoldable pub is_role : String → Bool
is_role role = not (not (str_eq role role_admin) && not (str_eq role role_standard))

abbrev pub refuse : String → Accounts → Reply
refuse code a = (failure 400 code, a)

abbrev pub internal_error : Accounts → Reply
internal_error a = (failure 500 "internal_error", a)

module _ (d : Driver) where
  -- `hash_password` is auth.HashPassword with the salt that it drew
  unfoldable pub create_user_handler :
      (String → Result String) → ℕ → Option CreateUserRequest → Accounts → Reply
  unfolding is_role
  create_user_handler hash_password now none a = refuse "invalid_request" a
  create_user_handler hash_password now (some req) a =
      if str_eq req.username ""
      then refuse "username_required" a
      else if ltb (len req.password) min_password_len
      then refuse "password_too_short" a
      else if not (is_role req.role)
      then refuse "invalid_role" a
      else elim (hash_password req.password) [
        | err e ↦ internal_error a
        | ok hash ↦ elim (create_user d req.username hash req.role now a) [
          | err e ↦ (failure 409 "username_taken", a)
          | ok (id, a') ↦ (created id, a')
        ]
      ]

  -- The response that the guard writes, if it refuses.
  unfoldable pub guard_last_admin : Accounts → Option Response
  guard_last_admin a = elim (count_admins d a) [
    | err e ↦ some (failure 500 "internal_error")
    | ok count ↦ if leb count 1 then some (failure 400 "cannot_remove_last_admin") else none
  ]

  abbrev pub guarded : Bool → Accounts → Option Response
  guarded needed a = if needed then guard_last_admin a else none

  -- updateUserRole up to the write: a refusal, or the user and the role to write.
  unfoldable pub check_update_role :
      Option ℤ → Option String → Session → Accounts → Response ⊎ (ℕ × String)
  unfolding guard_last_admin parse_id_param is_role
  check_update_role path_id body s a = elim (parse_id_param path_id) [
    | none ↦ inl (failure 400 "invalid_user_id")
    | some id ↦ elim body [
      | none ↦ inl (failure 400 "invalid_request")
      | some role ↦
          if not (is_role role)
          then inl (failure 400 "invalid_role")
          else if s.user_id == id
          then inl (failure 400 "cannot_change_own_role")
          else elim (user_by_id d id a) [
            | err e ↦ inl (failure 404 "not_found")
            | ok target ↦
                elim (guarded (str_eq target.role role_admin && not (str_eq role role_admin)) a) [
                  | some refusal ↦ inl refusal
                  | none ↦ inr (id, role)
                ]
          ]
    ]
  ]

  unfoldable pub write_role : Response ⊎ (ℕ × String) → Accounts → Reply
  write_role (inl refusal) a = (refusal, a)
  write_role (inr (id, role)) a = elim (update_user_role d id role a) [
    | err e ↦ internal_error a
    | ok a' ↦ (success, a')
  ]

  unfoldable pub update_user_role_handler : Option ℤ → Option String → Session → Accounts → Reply
  unfolding check_update_role write_role
  update_user_role_handler path_id body s a = write_role (check_update_role path_id body s a) a

  -- deleteUser up to the write: a refusal, or the user to delete.
  unfoldable pub check_delete : Option ℤ → Session → Accounts → Response ⊎ ℕ
  unfolding guard_last_admin parse_id_param
  check_delete path_id s a = elim (parse_id_param path_id) [
    | none ↦ inl (failure 400 "invalid_user_id")
    | some id ↦
        if s.user_id == id
        then inl (failure 400 "cannot_delete_own_account")
        else elim (user_by_id d id a) [
          | err e ↦ inl (failure 404 "not_found")
          | ok target ↦ elim (guarded (str_eq target.role role_admin) a) [
            | some refusal ↦ inl refusal
            | none ↦ inr id
          ]
        ]
  ]

  unfoldable pub write_delete : Response ⊎ ℕ → Accounts → Reply
  write_delete (inl refusal) a = (refusal, a)
  write_delete (inr id) a = elim (delete_user d id a) [
    | err e ↦ internal_error a
    | ok a' ↦ (success, a')
  ]

  unfoldable pub delete_user_handler : Option ℤ → Session → Accounts → Reply
  unfolding check_delete write_delete
  delete_user_handler path_id s a = write_delete (check_delete path_id s a) a

  -- `_ = h.sessions.Logout(…)`: an error is ignored
  unfoldable pub logout_handler : Option String → Accounts → Reply
  logout_handler none a = (success, a)
  logout_handler (some token) a = elim (logout d token a) [
    | err e ↦ (success, a)
    | ok a' ↦ (success, a')
  ]

pub record LoginRequest : Type 0 where
  pub username : String
  pub password : String

-- errors.Is(err, ErrInvalidCredentials) || errors.Is(err, ErrNotFound)
unfoldable pub login_error : Error → Response
login_error invalid_credentials = failure 401 "invalid_credentials"
login_error not_found = failure 401 "invalid_credentials"
login_error _ = failure 500 "internal_error"

unfoldable pub reauth_error : Error → Response
reauth_error invalid_credentials = failure 401 "invalid_credentials"
reauth_error _ = failure 500 "internal_error"

module _ (d : Driver) (verify_password : String → String → Result Bool) where
  unfoldable pub login_handler : Result String → ℕ → ℕ → Option LoginRequest → Accounts → Reply
  unfolding login_error
  login_handler new_token now later none a = refuse "invalid_request" a
  login_handler new_token now later (some req) a =
      elim (login d verify_password req.username req.password new_token now later a) [
        | err e ↦ (login_error e, a)
        | ok (token, a') ↦ (logged_in token, a')
      ]

  unfoldable pub reauth_handler : ℕ → ℕ → Option String → Session → Accounts → Reply
  unfolding reauth_error
  reauth_handler now later none s a = refuse "invalid_request" a
  reauth_handler now later (some password) s a =
      elim (elevate d verify_password s.token password now later a) [
        | err e ↦ (reauth_error e, a)
        | ok a' ↦ (success, a')
      ]
