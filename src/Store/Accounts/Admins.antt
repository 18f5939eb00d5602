-- ===== src/Store/Accounts/Admins.antt =====
-- How many admins a change of a role or a deletion can cost.
use shadow_stat.Base.{
  nat_eq, ℕ, ◌≤◌, ◌≡◌, ◌⊎◌, inl, inr, true, false, not, some, String, List, [], ◌∷◌, arith, str_eq,
  first_where, rows_where, update_where, count_where, Distinct, count-update_where-lower,
  count-update_where-grows, count-rows_where-lower, Distinct-count-le, Bool-cases, count_absent,
  rows_where_none, update_where_none,
}
use shadow_stat.Store.Driver.{
  ok, Driver, db_failed, ok_of_unfailed, update_user_role_call, delete_user_call,
}
use shadow_stat.Store.Accounts.{
  User, Accounts, has_id, is_admin_user, role_admin, update_user_role, delete_user,
}
use shadow_stat.Store.Accounts.Invariant.{IsWellFormed}

abbrev pub admins : Accounts → ℕ
admins a = count_where is_admin_user a.users

-- The user with the id is there and is no admin.
abbrev pub IsStandard : ℕ → Accounts → Type 0
IsStandard id a =
    (t : User) × (first_where (has_id id) a.users ≡ some t) × (str_eq t.role role_admin ≡ false)

-- Rows of a non-admin can go or change without costing an admin.
update_standard :
    (id : ℕ) (f : User → User) (us : List User) (t : User)
    → Distinct (λ u. u.id) us
    → first_where (has_id id) us ≡ some t
    → str_eq t.role role_admin ≡ false
    → count_where is_admin_user us ≤ count_where is_admin_user (update_where (has_id id) f us)
update_standard id f [] t d h k = omega arith
update_standard id f (u ∷ us) t d h k = elim (Bool-cases (has_id id u)) [
  | inl hit ↦
      let e : id ≡ u.id = ground arith in
      let none_left : count_where (has_id id) us ≡ 0 =
        rw e (count_absent (λ u. u.id) u.id us d.0) in
      ground (arith, update_where_none (has_id id) f us none_left)
  | inr miss ↦ ground (arith, update_standard id f us t d.1)
]

delete_standard :
    (id : ℕ) (us : List User) (t : User)
    → Distinct (λ u. u.id) us
    → first_where (has_id id) us ≡ some t
    → str_eq t.role role_admin ≡ false
    → count_where is_admin_user us
      ≤ count_where is_admin_user (rows_where (λ u. not (has_id id u)) us)
delete_standard id [] t d h k = omega arith
delete_standard id (u ∷ us) t d h k = elim (Bool-cases (has_id id u)) [
  | inl hit ↦
      let e : id ≡ u.id = ground arith in
      let none_left : count_where (has_id id) us ≡ 0 =
        rw e (count_absent (λ u. u.id) u.id us d.0) in
      ground (arith, rows_where_none (has_id id) us none_left)
  | inr miss ↦ ground (arith, delete_standard id us t d.1)
]

module _ (d : Driver) (a a' : Accounts) (w : IsWellFormed a) (id : ℕ) where
  -- A change of role that keeps an admin: to admin, of one who was none, or with a second admin.
  pub update_user_role-admins :
      (role : String)
      → (str_eq role role_admin ≡ true) ⊎ (2 ≤ admins a) ⊎ IsStandard id a
      → 1 ≤ admins a
      → update_user_role d id role a ≡ ok a'
      → 1 ≤ admins a'
  unfolding update_user_role
  update_user_role-admins role why some_admin e =
      rw (← ok_of_unfailed (d.fails update_user_role_call) db_failed _ e) (elim why [
        | inl to_admin ↦ omega (
          arith,
          count-update_where-grows is_admin_user (has_id id) (λ u. record u { role = role }) a.users
              (λ u. to_admin),
        )
        | inr (inl two) ↦ omega (
          arith,
          count-update_where-lower is_admin_user (has_id id) (λ u. record u { role = role })
              a.users,
          Distinct-count-le (λ u. u.id) id a.users w.ids,
        )
        | inr (inr (t, found, standard)) ↦ omega (
          arith,
          update_standard id (λ u. record u { role = role }) a.users t w.ids found standard,
        )
      ])

  pub delete_user-admins :
      (2 ≤ admins a) ⊎ IsStandard id a → 1 ≤ admins a → delete_user d id a ≡ ok a' → 1 ≤ admins a'
  unfolding delete_user
  delete_user-admins why some_admin e =
      rw (← ok_of_unfailed (d.fails delete_user_call) db_failed _ e) (elim why [
        | inl two ↦ omega (
          arith,
          count-rows_where-lower is_admin_user (has_id id) a.users,
          Distinct-count-le (λ u. u.id) id a.users w.ids,
        )
        | inr (t, found, standard) ↦
            omega (arith, delete_standard id a.users t w.ids found standard)
      ])
