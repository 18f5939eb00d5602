-- ===== src/Auth/Lifecycle.antt =====
-- What happens to the sessions of a user who logs in, changes role or is deleted.
use shadow_stat.Base.{
  nat_eq, ℕ, ◌+◌, ◌≤◌, ◌≡◌, ◌≢◌, refl, inl, inr, String, Bool, true, false, not, none, some, List,
  [], ◌∷◌, ◌++◌, arith, str_eq_iff, All, Distinct, first_where, rows_where, update_where,
  Option-cases, Bool-cases, ltb, if◌then◌else◌,
}
use shadow_stat.Store.Driver.{Result, ok, err, Driver, not_found, session_by_token_call}
use shadow_stat.Store.Accounts.{
  User, SessionRow, Accounts, Session, has_id, has_name, has_token, of_user, user_by_username,
  create_session, session_by_token, update_user_role, delete_user,
}
use shadow_stat.Store.Accounts.Invariant.{IsWellFormed}
use shadow_stat.Auth.{validate, login, session_idle_timeout}
use shadow_stat.Auth.Laws.{login_passed}

-- A session row as the JOIN with its user shows it.
abbrev joined : SessionRow → User → Session
joined s u = record {
  token = s.token;
  user_id = s.user_id;
  role = u.role;
  created_at = s.created_at;
  expires_at = s.expires_at;
  elevated_until = s.elevated_until;
}

module _ (d : Driver) where
  -- What a validation has read.
  validate_read :
      (token : String) (now : ℕ) (a : Accounts) (s : Session)
      → validate d token now a ≡ ok s
      → (row : SessionRow) × (first_where (has_token token) a.sessions ≡ some row)
        × (u : User) × (first_where (has_id row.user_id) a.users ≡ some u)
        × (s ≡ joined row u)
        × (now ≤ s.expires_at)
        × (d.fails session_by_token_call ≡ false)
  unfolding validate session_by_token
  validate_read token now a s h = elim (Option-cases (first_where (has_token token) a.sessions)) [
    | inl p ↦ absurd (ground arith)
    | inr (row, p) ↦ elim (Option-cases (first_where (has_id row.user_id) a.users)) [
      | inl q ↦ absurd (ground arith)
      | inr (u, q) ↦ (row, p, u, q, ground arith, ground arith, ground arith)
    ]
  ]

first_where-update_user :
    (id : ℕ) (role : String) (us : List User) (u : User)
    → first_where (has_id id) us ≡ some u
    → first_where (has_id id) (update_where (has_id id) (λ v. record v { role = role }) us)
      ≡ some (record u { role = role })
first_where-update_user id role [] u h = cc
first_where-update_user id role (v ∷ us) u h = ground (arith, first_where-update_user id role us u)

absent_stays :
    (token : String) (q : SessionRow → Bool) (ss : List SessionRow)
    → All (λ s. s.token ≢ token) ss
    → first_where (has_token token) (rows_where q ss) ≡ none
absent_stays token q [] h = refl
absent_stays token q (s ∷ ss) h =
    ground (arith, h.0, str_eq_iff s.token token, absent_stays token q ss h.1)

-- A session of the user with the id has gone, and no other row has its token.
first_where-deleted :
    (token : String) (id : ℕ) (ss : List SessionRow) (row : SessionRow)
    → Distinct (λ s. s.token) ss
    → first_where (has_token token) ss ≡ some row
    → row.user_id ≡ id
    → first_where (has_token token) (rows_where (λ s. not (of_user id s)) ss) ≡ none
first_where-deleted token id [] row d h k = cc
first_where-deleted token id (s ∷ ss) row d h k = elim (Bool-cases (has_token token s)) [
  | inl hit ↦
      let e : s.token ≡ token = (str_eq_iff s.token token).0 hit in
      let absent : All (λ t. t.token ≢ token) ss = rw (← e) d.0 in
      ground (arith, absent_stays token (λ t. not (of_user id t)) ss absent)
  | inr miss ↦ ground (arith, first_where-deleted token id ss row d.1)
]

module _ (d : Driver) (a a' : Accounts) (token : String) (s : Session) where
  -- A change of role shows in the very next validation of a session of the user.
  pub validate-update_user_role :
      (role : String) (now : ℕ)
      → validate d token now a ≡ ok s
      → update_user_role d s.user_id role a ≡ ok a'
      → validate d token now a' ≡ ok (record s { role = role })
  unfolding validate session_by_token update_user_role
  validate-update_user_role role now v h =
      let (row, p, u, q, e, le, up) = validate_read d token now a s v in
      ground (arith, first_where-update_user row.user_id role a.users u q)

  -- Deleting a user ends all of the user's sessions.
  pub validate-delete_user :
      (now : ℕ)
      → IsWellFormed a
      → validate d token now a ≡ ok s
      → delete_user d s.user_id a ≡ ok a'
      → validate d token now a' ≡ err not_found
  unfolding validate session_by_token delete_user
  validate-delete_user now w v h =
      let (row, p, u, q, e, le, up) = validate_read d token now a s v in
      ground (arith, first_where-deleted token row.user_id a.sessions row w.tokens p refl)

first_where-append_none :
    (token : String) (ss : List SessionRow) (new : SessionRow)
    → first_where (has_token token) ss ≡ none
    → new.token ≡ token
    → first_where (has_token token) (ss ++ new ∷ []) ≡ some new
first_where-append_none token [] new h e = ground (arith, str_eq_iff new.token token)
first_where-append_none token (s ∷ ss) new h e =
    ground (arith, first_where-append_none token ss new)

absent_id :
    (p : User → Bool) (id : ℕ) (us : List User) (u : User)
    → All (λ v. v.id ≢ id) us
    → first_where p us ≡ some u
    → u.id ≢ id
absent_id p id [] u h k = cc
absent_id p id (v ∷ us) u h k = ground (arith, h.0, absent_id p id us u h.1)

-- Ids are unique, so a user is the first row with its id.
first_where-own_id :
    (p : User → Bool) (us : List User) (u : User)
    → Distinct (λ v. v.id) us
    → first_where p us ≡ some u
    → first_where (has_id u.id) us ≡ some u
first_where-own_id p [] u d h = cc
first_where-own_id p (v ∷ us) u d h =
    ground (arith, first_where-own_id p us u d.1, absent_id p v.id us u d.0)

module _ (d : Driver) (verify_password : String → String → Result Bool) (username password : String)
    (new_token : Result String) (now later : ℕ) (a a' : Accounts) (token : String) where
  created_session :
      (id expires : ℕ)
      → create_session d token id now expires a ≡ ok a'
      → (first_where (has_token token) a.sessions ≡ none)
        × (a' ≡ record a {
          sessions =
              a.sessions
              ++ record {
                token = token;
                user_id = id;
                created_at = now;
                expires_at = expires;
                elevated_until = none;
              }
                ∷ [];
        })
  unfolding create_session
  created_session id expires h = (ground arith, ground arith)

  -- After a login the token is that of a session of the user with that name, not elevated, with
  -- the user's role, until 24 hours later, and not after.
  pub validate-login :
      (t : ℕ)
      → IsWellFormed a
      → d.fails session_by_token_call ≡ false
      → login d verify_password username password new_token now later a ≡ ok (token, a')
      → (u : User) × (first_where (has_name username) a.users ≡ some u)
        × (verify_password password u.password_hash ≡ ok true)
        × (validate d token t a' ≡ (
            if ltb (later + session_idle_timeout) t
            then err not_found
            else ok (record {
              token = token;
              user_id = u.id;
              role = u.role;
              created_at = now;
              expires_at = later + session_idle_timeout;
              elevated_until = none;
            })))
  unfolding validate session_by_token user_by_username
  validate-login t w up h =
      let (u, found, checked, made, added) =
        login_passed d verify_password username password new_token now later a token a' h in
      let named : first_where (has_name username) a.users ≡ some u = ground arith in
      let c = created_session u.id (later + session_idle_timeout) added in
      (
        u,
        named,
        checked,
        ground (
          arith,
          c.0,
          c.1,
          first_where-own_id (has_name username) a.users u w.ids named,
          first_where-append_none token a.sessions
              (record {
                token = token;
                user_id = u.id;
                created_at = now;
                expires_at = later + session_idle_timeout;
                elevated_until = none;
              })
              c.0 refl,
        ),
      )
