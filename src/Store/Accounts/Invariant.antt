-- ===== src/Store/Accounts/Invariant.antt =====
-- What the constraints of schema.sql keep: ids and names of users are unique, tokens are unique,
-- and every session belongs to a user.
use shadow_stat.Base.{
  ℕ, suc, ◌≤◌, ◌<◌, ◌≡◌, refl, ◌≢◌, inl, inr, Bool, false, not, none, String, List, [], ◌∷◌, ◌++◌,
  arith, All, str_eq_iff, first_where, rows_where, count_where, Distinct, All-append, All-map,
  first_where-none, Distinct-append_one, Distinct-rows_where, Distinct-update_where,
  count_where-append, All-update_where, All-rows_where, count-update_where-same,
  count-rows_where-same, All-rows_where_test, first_where-count, Option-cases,
}
use shadow_stat.Store.Driver.{
  Result, ok, Driver, db_failed, ok_of_unfailed, update_user_role_call, delete_user_call,
  elevate_session_call, delete_session_call,
}
use shadow_stat.Store.Accounts.{
  User, SessionRow, Accounts, has_id, has_name, has_token, create_user, update_user_role,
  delete_user, create_session, elevate_session, delete_session,
}

-- Some user has the id.
abbrev pub Exists : ℕ → List User → Type 0
Exists id us = 1 ≤ count_where (has_id id) us

pub record IsWellFormed (a : Accounts) : Type 0 where
  pub fresh : All (λ u. u.id < a.next_id) a.users
  pub ids : Distinct (λ u. u.id) a.users
  pub names : Distinct (λ u. u.username) a.users
  pub tokens : Distinct (λ s. s.token) a.sessions
  pub owned : All (λ s. Exists s.user_id a.users) a.sessions

-- A statement that succeeds leaves well-formed tables.
abbrev pub LeavesWellFormed : Result Accounts → Type 0
LeavesWellFormed r = (a' : Accounts) → r ≡ ok a' → IsWellFormed a'

no_such_name :
    (name : String) (us : List User)
    → first_where (has_name name) us ≡ none
    → All (λ u. u.username ≢ name) us
no_such_name name us h =
    All-map (λ u. has_name name u ≡ false) (λ u. u.username ≢ name) us
      (λ u k. ground (arith, str_eq_iff u.username name)) (first_where-none (has_name name) us h)

no_such_token :
    (token : String) (ss : List SessionRow)
    → first_where (has_token token) ss ≡ none
    → All (λ s. s.token ≢ token) ss
no_such_token token ss h =
    All-map (λ s. has_token token s ≡ false) (λ s. s.token ≢ token) ss
      (λ s k. ground (arith, str_eq_iff s.token token)) (first_where-none (has_token token) ss h)

added_user-IsWellFormed :
    (a : Accounts) (u : User)
    → IsWellFormed a
    → u.id ≡ a.next_id
    → first_where (has_name u.username) a.users ≡ none
    → IsWellFormed (record a { users = a.users ++ u ∷ []; next_id = suc a.next_id })
added_user-IsWellFormed a u w e h = record {
  fresh =
      All-append (λ v. v.id < suc a.next_id) a.users (u ∷ [])
        (All-map _ _ a.users (λ v k. omega arith) w.fresh) (omega arith, tt);
  ids =
      Distinct-append_one (λ v. v.id) a.users u w.ids
        (All-map _ _ a.users (λ v k. omega arith) w.fresh);
  names =
      Distinct-append_one (λ v. v.username) a.users u w.names (no_such_name u.username a.users h);
  tokens = w.tokens;
  owned =
      All-map _ _ a.sessions
        (λ s k. omega (arith, count_where-append (has_id s.user_id) a.users (u ∷ []))) w.owned;
}

module _ (d : Driver) (a : Accounts) (w : IsWellFormed a) where
  pub create_user-IsWellFormed :
      (name hash role : String) (now id : ℕ) (a' : Accounts)
      → create_user d name hash role now a ≡ ok (id, a')
      → IsWellFormed a'
  unfolding create_user
  create_user-IsWellFormed name hash role now id a' e = ground (
    arith,
    added_user-IsWellFormed a
        (record {
          id = a.next_id;
          username = name;
          password_hash = hash;
          role = role;
          created_at = now;
        })
        w refl,
  )

  pub update_user_role-IsWellFormed :
      (id : ℕ) (role : String) → LeavesWellFormed (update_user_role d id role a)
  unfolding update_user_role
  update_user_role-IsWellFormed id role a' e =
      rw (← ok_of_unfailed (d.fails update_user_role_call) db_failed _ e) (record {
        fresh = All-update_where _ (has_id id) _ a.users (λ u k. k) w.fresh;
        ids = Distinct-update_where (λ u. u.id) (has_id id) _ a.users (λ u. refl) w.ids;
        names = Distinct-update_where (λ u. u.username) (has_id id) _ a.users (λ u. refl) w.names;
        tokens = w.tokens;
        owned =
            All-map _ _ a.sessions
              (λ s k.
                rw
                  (count-update_where-same (has_id s.user_id) (has_id id)
                    (λ u. record u { role = role }) a.users (λ u. refl))
                  k)
              w.owned;
      })

  pub delete_user-IsWellFormed : (id : ℕ) → LeavesWellFormed (delete_user d id a)
  unfolding delete_user
  delete_user-IsWellFormed id a' e =
      rw (← ok_of_unfailed (d.fails delete_user_call) db_failed _ e) (record {
        fresh = All-rows_where _ _ a.users w.fresh;
        ids = Distinct-rows_where (λ u. u.id) _ a.users w.ids;
        names = Distinct-rows_where (λ u. u.username) _ a.users w.names;
        tokens = Distinct-rows_where (λ s. s.token) _ a.sessions w.tokens;
        owned =
            All-rows_where_test _ _ _ a.sessions
              (λ s t k.
                rw
                  (count-rows_where-same (has_id s.user_id) (λ u. not (has_id id u)) a.users
                    (λ u p. ground arith))
                  k)
              w.owned;
      })

  added_session-IsWellFormed :
      (s : SessionRow)
      → first_where (has_token s.token) a.sessions ≡ none
      → Exists s.user_id a.users
      → IsWellFormed (record a { sessions = a.sessions ++ s ∷ [] })
  added_session-IsWellFormed s free user = record {
    fresh = w.fresh;
    ids = w.ids;
    names = w.names;
    tokens =
        Distinct-append_one (λ s. s.token) a.sessions s w.tokens
          (no_such_token s.token a.sessions free);
    owned = All-append _ a.sessions (s ∷ []) w.owned (user, tt);
  }

  pub create_session-IsWellFormed :
      (token : String) (user_id now expires_at : ℕ)
      → LeavesWellFormed (create_session d token user_id now expires_at a)
  unfolding create_session
  create_session-IsWellFormed token user_id now expires_at a' e =
      elim (Option-cases (first_where (has_id user_id) a.users)) [
        | inl none_found ↦ ground arith
        | inr (u, found) ↦ ground (
          arith,
          first_where-count (has_id user_id) a.users found,
          added_session-IsWellFormed (record {
            token = token;
            user_id = user_id;
            created_at = now;
            expires_at = expires_at;
            elevated_until = none;
          }),
        )
      ]

  pub elevate_session-IsWellFormed :
      (token : String) (until : ℕ) → LeavesWellFormed (elevate_session d token until a)
  unfolding elevate_session
  elevate_session-IsWellFormed token until a' e =
      rw (← ok_of_unfailed (d.fails elevate_session_call) db_failed _ e) (record {
        fresh = w.fresh;
        ids = w.ids;
        names = w.names;
        tokens =
            Distinct-update_where (λ s. s.token) (has_token token) _ a.sessions (λ s. refl)
              w.tokens;
        owned = All-update_where _ (has_token token) _ a.sessions (λ s k. k) w.owned;
      })

  pub fewer_sessions-IsWellFormed :
      (q : SessionRow → Bool) → IsWellFormed (record a { sessions = rows_where q a.sessions })
  fewer_sessions-IsWellFormed q = record {
    fresh = w.fresh;
    ids = w.ids;
    names = w.names;
    tokens = Distinct-rows_where (λ s. s.token) q a.sessions w.tokens;
    owned = All-rows_where _ q a.sessions w.owned;
  }

  pub delete_session-IsWellFormed : (token : String) → LeavesWellFormed (delete_session d token a)
  unfolding delete_session
  delete_session-IsWellFormed token a' e =
      rw (← ok_of_unfailed (d.fails delete_session_call) db_failed _ e)
        (fewer_sessions-IsWellFormed (λ s. not (has_token token s)))
