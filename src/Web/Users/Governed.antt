-- ===== src/Web/Users/Governed.antt =====
-- No handler leaves the accounts without an admin, or without the tables' constraints.
use shadow_stat.Base.{
  ℕ, ◌+◌, ◌≤◌, ◌≡◌, refl, ◌⊎◌, inl, inr, String, Bool, true, not, ◌&&◌, Option, none, some, arith,
  str_eq, Bool-cases, count_where-append, [], ◌∷◌,
}
use shadow_stat.Store.Driver.{Result, ok, Driver, Result-cases}
use shadow_stat.Store.Accounts.{
  Accounts, Session, User, role_admin, is_admin_user, user_by_id, update_user_role, delete_user,
  create_user, create_session, elevate_session, delete_session,
}
use shadow_stat.Store.Accounts.Invariant.{
  IsWellFormed, update_user_role-IsWellFormed, delete_user-IsWellFormed, create_user-IsWellFormed,
  create_session-IsWellFormed, elevate_session-IsWellFormed, delete_session-IsWellFormed,
}
use shadow_stat.Store.Accounts.Admins.{
  admins, IsStandard, update_user_role-admins, delete_user-admins,
}
use shadow_stat.Auth.{login, elevate, logout, session_idle_timeout, elevation_duration}
use shadow_stat.Auth.Laws.{login_passed, elevate_passed}
use shadow_stat.Base.Decimal.{ℤ}
use shadow_stat.Web.Users.{
  CreateUserRequest, LoginRequest, guarded, check_update_role, check_delete, write_role,
  write_delete, update_user_role_handler, delete_user_handler, create_user_handler, logout_handler,
  login_handler, reauth_handler,
}
use shadow_stat.Web.Users.Checks.{
  found_user, guarded_ok, IsStandard-or_two, check_delete_passed, check_update_role_passed,
}
use shadow_stat.Web.Middleware.{Response}

pub record IsGoverned (a : Accounts) : Type 0 where
  pub well_formed : IsWellFormed a
  pub some_admin : 1 ≤ admins a

module _ (d : Driver) (a : Accounts) (g : IsGoverned a) where
  write_role-IsGoverned :
      (r : Response ⊎ (ℕ × String))
      → ((id : ℕ) (role : String)
          → r ≡ inr (id, role)
          → (str_eq role role_admin ≡ true) ⊎ (2 ≤ admins a) ⊎ IsStandard id a)
      → IsGoverned (write_role d r a).1
  unfolding write_role
  write_role-IsGoverned (inl refusal) safe = g
  write_role-IsGoverned (inr (id, role)) safe = elim (Result-cases (update_user_role d id role a)) [
    | inl (e, p) ↦ rw (p, write_role) g
    | inr (a', p) ↦
        rw (p, write_role)
          (record {
            well_formed = update_user_role-IsWellFormed d a g.well_formed id role a' p;
            some_admin =
                update_user_role-admins d a a' g.well_formed id role (safe id role refl)
                  g.some_admin p;
          })
  ]

  write_delete-IsGoverned :
      (r : Response ⊎ ℕ)
      → ((id : ℕ) → r ≡ inr id → (2 ≤ admins a) ⊎ IsStandard id a)
      → IsGoverned (write_delete d r a).1
  unfolding write_delete
  write_delete-IsGoverned (inl refusal) safe = g
  write_delete-IsGoverned (inr id) safe = elim (Result-cases (delete_user d id a)) [
    | inl (e, p) ↦ rw (p, write_delete) g
    | inr (a', p) ↦
        rw (p, write_delete)
          (record {
            well_formed = delete_user-IsWellFormed d a g.well_formed id a' p;
            some_admin = delete_user-admins d a a' g.well_formed id (safe id refl) g.some_admin p;
          })
  ]

  demotion_safe :
      (id : ℕ) (role : String) (t : User)
      → user_by_id d id a ≡ ok t
      → guarded d (str_eq t.role role_admin && not (str_eq role role_admin)) a ≡ none
      → (str_eq role role_admin ≡ true) ⊎ (2 ≤ admins a) ⊎ IsStandard id a
  demotion_safe id role t found passed = elim (Bool-cases (str_eq role role_admin)) [
    | inl e ↦ inl e
    | inr e ↦ elim (Bool-cases (str_eq t.role role_admin)) [
      | inl k ↦ inr (
          inl (
            guarded_ok d a (str_eq t.role role_admin && not (str_eq role role_admin)) passed
              (ground arith)))
      | inr k ↦ inr (inr (t, found_user d a id t found, k))
    ]
  ]

  -- Changing a role, whatever is asked and whoever asks, keeps the tables' constraints and at
  -- least one admin, if there was one.
  pub update_user_role_handler-IsGoverned :
      (path_id : Option ℤ) (body : Option String) (s : Session)
      → IsGoverned (update_user_role_handler d path_id body s a).1
  unfolding update_user_role_handler
  update_user_role_handler-IsGoverned path_id body s =
      write_role-IsGoverned (check_update_role d path_id body s a) λ id role p.
        let (t, found, passed, other, valid) =
          check_update_role_passed d a path_id body s id role p in
        demotion_safe id role t found passed

  -- So does deleting a user.
  pub delete_user_handler-IsGoverned :
      (path_id : Option ℤ) (s : Session) → IsGoverned (delete_user_handler d path_id s a).1
  unfolding delete_user_handler
  delete_user_handler-IsGoverned path_id s =
      write_delete-IsGoverned (check_delete d path_id s a) λ id p.
        let (t, found, passed, other) = check_delete_passed d a path_id s id p in
        IsStandard-or_two d a id t found passed

  create_user-IsGoverned :
      (name hash role : String) (now id : ℕ) (a' : Accounts)
      → create_user d name hash role now a ≡ ok (id, a')
      → IsGoverned a'
  unfolding create_user
  create_user-IsGoverned name hash role now id a' p = record {
    well_formed = create_user-IsWellFormed d a g.well_formed name hash role now id a' p;
    some_admin = ground (
      arith,
      g.some_admin,
      count_where-append is_admin_user a.users (
          record {
            id = a.next_id;
            username = name;
            password_hash = hash;
            role = role;
            created_at = now;
          }
          ∷ []),
    );
  }

  create_session-IsGoverned :
      (token : String) (id now expires : ℕ) (a' : Accounts)
      → create_session d token id now expires a ≡ ok a'
      → IsGoverned a'
  unfolding create_session
  create_session-IsGoverned token id now expires a' p = record {
    well_formed = create_session-IsWellFormed d a g.well_formed token id now expires a' p;
    some_admin = ground (arith, g.some_admin);
  }

  elevate_session-IsGoverned :
      (token : String) (until : ℕ) (a' : Accounts)
      → elevate_session d token until a ≡ ok a'
      → IsGoverned a'
  unfolding elevate_session
  elevate_session-IsGoverned token until a' p = record {
    well_formed = elevate_session-IsWellFormed d a g.well_formed token until a' p;
    some_admin = ground (arith, g.some_admin);
  }

  delete_session-IsGoverned :
      (token : String) (a' : Accounts) → delete_session d token a ≡ ok a' → IsGoverned a'
  unfolding delete_session
  delete_session-IsGoverned token a' p = record {
    well_formed = delete_session-IsWellFormed d a g.well_formed token a' p;
    some_admin = ground (arith, g.some_admin);
  }

  pub create_user_handler-IsGoverned :
      (hash_password : String → Result String) (now : ℕ) (body : Option CreateUserRequest)
      → IsGoverned (create_user_handler d hash_password now body a).1
  unfolding create_user_handler
  create_user_handler-IsGoverned hash_password now none = g
  create_user_handler-IsGoverned hash_password now (some req) =
      elim (Result-cases (hash_password req.password)) [
        | inl (e, p) ↦
            let same : (create_user_handler d hash_password now (some req) a).1 ≡ a =
              ground arith in
            rw same g
        | inr (hash, p) ↦ elim (Result-cases (create_user d req.username hash req.role now a)) [
          | inl (e, q) ↦
              let same : (create_user_handler d hash_password now (some req) a).1 ≡ a =
                ground arith in
              rw same g
          | inr ((id, a'), q) ↦
              let outcome : ((create_user_handler d hash_password now (some req) a).1 ≡ a)
                  ⊎ ((create_user_handler d hash_password now (some req) a).1 ≡ a') =
                ground arith in
              elim outcome [
                | inl same ↦ rw same g
                | inr new ↦ rw new (create_user-IsGoverned req.username hash req.role now id a' q)
              ]
        ]
      ]

  pub logout_handler-IsGoverned :
      (cookie : Option String) → IsGoverned (logout_handler d cookie a).1
  unfolding logout_handler logout
  logout_handler-IsGoverned none = g
  logout_handler-IsGoverned (some token) = elim (Result-cases (delete_session d token a)) [
    | inl (e, p) ↦ rw (p, logout_handler) g
    | inr (a', p) ↦ rw (p, logout_handler) (delete_session-IsGoverned token a' p)
  ]

  module _ (verify : String → String → Result Bool) (now later : ℕ) where
    pub login_handler-IsGoverned :
        (new_token : Result String) (body : Option LoginRequest)
        → IsGoverned (login_handler d verify new_token now later body a).1
    unfolding login_handler
    login_handler-IsGoverned new_token none = g
    login_handler-IsGoverned new_token (some req) =
        elim (Result-cases (login d verify req.username req.password new_token now later a)) [
          | inl (e, p) ↦ rw (p, login_handler) g
          | inr ((token, a'), p) ↦
              rw (p, login_handler)
                (let (u, found, checked, made, added) =
                    login_passed d verify req.username req.password new_token now later a token a'
                      p in
                  create_session-IsGoverned token u.id now (later + session_idle_timeout) a' added)
        ]

    pub reauth_handler-IsGoverned :
        (body : Option String) (s : Session)
        → IsGoverned (reauth_handler d verify now later body s a).1
    unfolding reauth_handler
    reauth_handler-IsGoverned none s = g
    reauth_handler-IsGoverned (some password) s =
        elim (Result-cases (elevate d verify s.token password now later a)) [
          | inl (e, p) ↦ rw (p, reauth_handler) g
          | inr (a', p) ↦
              rw (p, reauth_handler)
                (let (t, valid, checked, elevated) =
                    elevate_passed d verify s.token password now later a a' p in
                  elevate_session-IsGoverned t.token (later + elevation_duration) a' elevated)
        ]
