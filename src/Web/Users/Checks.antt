-- ===== src/Web/Users/Checks.antt =====
-- What the checks of updateUserRole and deleteUser have made sure of when the handler writes.
use shadow_stat.Base.{
  ℕ, ◌≤◌, ◌≡◌, ◌⊎◌, inl, inr, String, Bool, true, false, not, ◌&&◌, Option, none, some, arith,
  str_eq, ◌==◌, first_where, Bool-cases,
}
use shadow_stat.Store.Driver.{ok, Driver, Result-cases}
use shadow_stat.Store.Accounts.{
  Accounts, Session, User, has_id, role_admin, user_by_id, count_admins,
}
use shadow_stat.Store.Accounts.Admins.{admins, IsStandard}
use shadow_stat.Base.Decimal.{ℤ}
use shadow_stat.Web.Users.{guard_last_admin, guarded, check_update_role, check_delete, is_role}

module _ (d : Driver) (a : Accounts) where
  pub guarded_ok : (needed : Bool) → guarded d needed a ≡ none → (needed ≡ true) → 2 ≤ admins a
  unfolding guard_last_admin count_admins
  guarded_ok needed h n = ground arith

  pub found_user :
      (id : ℕ) (t : User) → user_by_id d id a ≡ ok t → first_where (has_id id) a.users ≡ some t
  unfolding user_by_id
  found_user id t h = ground arith

  pub IsStandard-or_two :
      (id : ℕ) (t : User)
      → user_by_id d id a ≡ ok t
      → guarded d (str_eq t.role role_admin) a ≡ none
      → (2 ≤ admins a) ⊎ IsStandard id a
  IsStandard-or_two id t h g = elim (Bool-cases (str_eq t.role role_admin)) [
    | inl e ↦ inl (guarded_ok (str_eq t.role role_admin) g e)
    | inr e ↦ inr (t, found_user id t h, e)
  ]

  pub check_delete_passed :
      (path_id : Option ℤ) (s : Session) (id : ℕ)
      → check_delete d path_id s a ≡ inr id
      → (t : User) × (user_by_id d id a ≡ ok t)
        × (guarded d (str_eq t.role role_admin) a ≡ none)
        × ((s.user_id == id) ≡ false)
  unfolding check_delete
  check_delete_passed path_id s id h = elim (Result-cases (user_by_id d id a)) [
    | inl (e, p) ↦ absurd (ground arith)
    | inr (t, p) ↦ (t, p, ground arith, ground arith)
  ]

  pub check_update_role_passed :
      (path_id : Option ℤ) (body : Option String) (s : Session) (id : ℕ) (role : String)
      → check_update_role d path_id body s a ≡ inr (id, role)
      → (t : User) × (user_by_id d id a ≡ ok t)
        × (guarded d (str_eq t.role role_admin && not (str_eq role role_admin)) a ≡ none)
        × ((s.user_id == id) ≡ false)
        × (is_role role ≡ true)
  unfolding check_update_role
  check_update_role_passed path_id body s id role h = elim (Result-cases (user_by_id d id a)) [
    | inl (e, p) ↦ absurd (ground arith)
    | inr (t, p) ↦ (t, p, ground arith, ground arith, ground arith)
  ]
