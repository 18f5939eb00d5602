-- ===== src/Store/Accounts.antt =====
-- internal/store/users.go and internal/store/sessions.go over the tables `users` and `sessions`
-- of schema.sql. Writes answer with the tables after the statement.
pub mod Invariant
pub mod Admins
use shadow_stat.Base.{
  ℕ, suc, String, Bool, true, false, ◌||◌, not, Option, none, some, List, [], ◌∷◌, ◌++◌, ltb, ◌==◌,
  if◌then◌else◌, str_eq, first_where, rows_where, update_where, count_where,
}
use shadow_stat.Store.Driver.{
  Result, ok, err, Driver, not_found, db_failed, constraint_failed, create_user_call,
  user_by_username_call, user_by_id_call, password_hash_call, list_users_call, count_admins_call,
  update_user_role_call, delete_user_call, create_session_call, session_by_token_call,
  elevate_session_call, delete_session_call, ◌>>=◌,
}

abbrev pub role_admin : String
role_admin = "admin"

abbrev pub role_standard : String
role_standard = "standard"

pub record User : Type 0 where
  pub id : ℕ
  pub username : String
  pub password_hash : String
  pub role : String
  pub created_at : ℕ

-- A row of `sessions`.
pub record SessionRow : Type 0 where
  pub token : String
  pub user_id : ℕ
  pub created_at : ℕ
  pub expires_at : ℕ
  pub elevated_until : Option ℕ

-- `Session`: the row joined with the role that its user has now.
pub record Session : Type 0 where
  pub token : String
  pub user_id : ℕ
  pub role : String
  pub created_at : ℕ
  pub expires_at : ℕ
  pub elevated_until : Option ℕ

pub record Accounts : Type 0 where
  pub users : List User
  pub sessions : List SessionRow
  -- AUTOINCREMENT: above every id ever given
  pub next_id : ℕ

abbrev pub has_id : ℕ → User → Bool
has_id id u = u.id == id

abbrev pub has_name : String → User → Bool
has_name name u = str_eq u.username name

abbrev pub is_admin_user : User → Bool
is_admin_user u = str_eq u.role role_admin

abbrev pub has_token : String → SessionRow → Bool
has_token token s = str_eq s.token token

abbrev pub of_user : ℕ → SessionRow → Bool
of_user id s = s.user_id == id

-- sql.ErrNoRows becomes ErrNotFound
abbrev pub or_not_found {ℓ} : {A : Type ℓ} → Option A → Result A
or_not_found none = err not_found
or_not_found (some a) = ok a

module _ (d : Driver) where
  -- UNIQUE on `username`; the id comes from LastInsertId
  unfoldable pub create_user : String → String → String → ℕ → Accounts → Result (ℕ × Accounts)
  create_user username password_hash role created_at a =
      if d.fails create_user_call
      then err db_failed
      else elim (first_where (has_name username) a.users) [
        | some u ↦ err constraint_failed
        | none ↦ ok (
          a.next_id,
          record a {
            users =
                a.users
                ++ record {
                  id = a.next_id;
                  username = username;
                  password_hash = password_hash;
                  role = role;
                  created_at = created_at;
                }
                  ∷ [];
            next_id = suc a.next_id;
          },
        )
      ]

  unfoldable pub user_by_username : String → Accounts → Result User
  user_by_username username a =
      if d.fails user_by_username_call
      then err db_failed
      else or_not_found (first_where (has_name username) a.users)

  unfoldable pub user_by_id : ℕ → Accounts → Result User
  user_by_id id a =
      if d.fails user_by_id_call
      then err db_failed
      else or_not_found (first_where (has_id id) a.users)

  unfoldable pub password_hash_by_user_id : ℕ → Accounts → Result String
  password_hash_by_user_id id a =
      if d.fails password_hash_call
      then err db_failed
      else (or_not_found (first_where (has_id id) a.users) >>= λ u. ok u.password_hash)

  unfoldable pub count_admins : Accounts → Result ℕ
  count_admins a =
      if d.fails count_admins_call then err db_failed else ok (count_where is_admin_user a.users)

  unfoldable pub update_user_role : ℕ → String → Accounts → Result Accounts
  update_user_role id role a =
      if d.fails update_user_role_call
      then err db_failed
      else ok
          (record a { users = update_where (has_id id) (λ u. record u { role = role }) a.users })

  -- ON DELETE CASCADE takes the user's sessions away
  unfoldable pub delete_user : ℕ → Accounts → Result Accounts
  delete_user id a =
      if d.fails delete_user_call
      then err db_failed
      else ok (record a {
        users = rows_where (λ u. not (has_id id u)) a.users;
        sessions = rows_where (λ s. not (of_user id s)) a.sessions;
      })

  -- `token` is the primary key, `user_id` a foreign key
  unfoldable pub create_session : String → ℕ → ℕ → ℕ → Accounts → Result Accounts
  create_session token user_id created_at expires_at a =
      if d.fails create_session_call
      then err db_failed
      else elim (first_where (has_token token) a.sessions) [
        | some s ↦ err constraint_failed
        | none ↦ elim (first_where (has_id user_id) a.users) [
          | none ↦ err constraint_failed
          | some u ↦ ok (record a {
            sessions =
                a.sessions
                ++ record {
                  token = token;
                  user_id = user_id;
                  created_at = created_at;
                  expires_at = expires_at;
                  elevated_until = none;
                }
                  ∷ [];
          })
        ]
      ]

  -- the JOIN: a session whose user is gone is no row of the answer
  unfoldable pub session_by_token : String → Accounts → Result Session
  session_by_token token a =
      if d.fails session_by_token_call
      then err db_failed
      else (or_not_found (first_where (has_token token) a.sessions) >>= λ s.
          or_not_found (first_where (has_id s.user_id) a.users) >>= λ u. ok (record {
            token = s.token;
            user_id = s.user_id;
            role = u.role;
            created_at = s.created_at;
            expires_at = s.expires_at;
            elevated_until = s.elevated_until;
          }))

  unfoldable pub elevate_session : String → ℕ → Accounts → Result Accounts
  elevate_session token elevated_until a =
      if d.fails elevate_session_call
      then err db_failed
      else ok (record a {
        sessions =
            update_where (has_token token) (λ s. record s { elevated_until = some elevated_until })
              a.sessions;
      })

  unfoldable pub delete_session : String → Accounts → Result Accounts
  delete_session token a =
      if d.fails delete_session_call
      then err db_failed
      else ok (record a { sessions = rows_where (λ s. not (has_token token s)) a.sessions })

unfoldable pub prune_expired_sessions : ℕ → Accounts → Accounts
prune_expired_sessions now a = record a {
  sessions = rows_where (λ s. not (ltb s.expires_at now)) a.sessions;
}

-- Session.IsAdmin
abbrev pub is_admin : Session → Bool
is_admin s = str_eq s.role role_admin
