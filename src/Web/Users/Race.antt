-- ===== src/Web/Users/Race.antt =====
-- guardLastAdmin and the write that follows it are two calls of the database, and the server
-- handles requests at the same time. Here two demotions interleave: both are checked, then both
-- are written.
use shadow_stat.Base.{
  nat_eq, ℕ, suc, ◌≡◌, ◌≢◌, refl, inl, inr, true, false, ◌<◌, ◌+◌, some, List, [], ◌∷◌, arith,
  first_where, count_where, update_where, Distinct, count_absent, Distinct-update_where,
  update_where_none, Bool-cases, sym, ◌∙◌, zero, if◌then◌else◌,
}
use shadow_stat.Store.Driver.{Driver}
use shadow_stat.Store.Accounts.{
  Accounts, User, Session, has_id, is_admin_user, role_standard, user_by_id, update_user_role,
  count_admins,
}
use shadow_stat.Store.Accounts.Invariant.{IsWellFormed}
use shadow_stat.Store.Accounts.Admins.{admins}
use shadow_stat.Base.Decimal.{pos}
use shadow_stat.Web.Users.{check_update_role, write_role, parse_id_param}

-- A database of which no call fails.
abbrev pub sound : Driver
sound = record { fails = λ c. false }

-- Both requests are checked against the accounts as they are; then the two writes follow.
unfoldable pub demote_at_once : Session → Session → ℕ → ℕ → Accounts → Accounts
demote_at_once s t i j a =
    let first = check_update_role sound (some (pos i)) (some role_standard) s a in
    let second = check_update_role sound (some (pos j)) (some role_standard) t a in
    (write_role sound second (write_role sound first a).1).1

parse_positive : (n : ℕ) → 0 < n → parse_id_param (some (pos n)) ≡ some n
unfolding parse_id_param
parse_positive zero h = absurd (omega arith)
parse_positive (suc n) h = refl

abbrev demoted : ℕ → List User → List User
demoted id us = update_where (has_id id) (λ u. record u { role = role_standard }) us

-- Demoting an admin costs exactly one.
count-demoted :
    (id : ℕ) (us : List User) (u : User)
    → Distinct (λ v. v.id) us
    → first_where (has_id id) us ≡ some u
    → is_admin_user u ≡ true
    → count_where is_admin_user (demoted id us) + 1 ≡ count_where is_admin_user us
count-demoted id [] u d h k = cc
count-demoted id (v ∷ us) u d h k = elim (Bool-cases (has_id id v)) [
  | inl hit ↦
      let e : id ≡ v.id = ground arith in
      let none_left : count_where (has_id id) us ≡ 0 =
        rw e (count_absent (λ u. u.id) v.id us d.0) in
      let head : is_admin_user (if has_id id v then record v { role = role_standard } else v)
          ≡ false =
        rw hit in
      ground (
        arith,
        head,
        update_where_none (has_id id) (λ u. record u { role = role_standard }) us none_left,
      )
  | inr miss ↦ ground (arith, count-demoted id us u d.1)
]

first_where-demoted_other :
    (id other : ℕ) (us : List User) (u : User)
    → other ≢ id
    → first_where (has_id other) us ≡ some u
    → first_where (has_id other) (demoted id us) ≡ some u
first_where-demoted_other id other [] u n h = h
first_where-demoted_other id other (v ∷ us) u n h =
    ground (arith, first_where-demoted_other id other us u n)

-- The check lets an admin demote another one while there are two.
check_passes :
    (s : Session) (a : Accounts) (u : User)
    → admins a ≡ 2
    → 0 < u.id
    → s.user_id ≢ u.id
    → first_where (has_id u.id) a.users ≡ some u
    → check_update_role sound (some (pos u.id)) (some role_standard) s a ≡ inr (u.id, role_standard)
unfolding check_update_role user_by_id count_admins
check_passes s a u two p n f = ground (arith, parse_positive u.id p)

users-demote_at_once :
    (a : Accounts) (s t : Session) (i j : ℕ)
    → check_update_role sound (some (pos i)) (some role_standard) s a ≡ inr (i, role_standard)
    → check_update_role sound (some (pos j)) (some role_standard) t a ≡ inr (j, role_standard)
    → (demote_at_once s t i j a).users ≡ demoted j (demoted i a.users)
unfolding demote_at_once write_role update_user_role
users-demote_at_once a s t i j p q = rw (p, q, demote_at_once, write_role)

-- Two admins who demote one another at the same time both succeed, and no admin is left: the
-- guard against removing the last admin holds only for requests one after another.
pub demote_at_once-no_admin :
    (a : Accounts) (u v : User) (s t : Session)
    → IsWellFormed a
    → admins a ≡ 2
    → first_where (has_id u.id) a.users ≡ some u
    → first_where (has_id v.id) a.users ≡ some v
    → u.id ≢ v.id
    → 0 < u.id
    → 0 < v.id
    → is_admin_user u ≡ true
    → is_admin_user v ≡ true
    → s.user_id ≡ u.id
    → t.user_id ≡ v.id
    → admins (demote_at_once s t v.id u.id a) ≡ 0
demote_at_once-no_admin a u v s t w two fu fv ne pu pv au av su tv =
    rw
      (users-demote_at_once a s t v.id u.id (check_passes s a v two pv (λ e. ne (sym su ∙ e)) fv)
        (check_passes t a u two pu (λ e. ne (sym e ∙ tv)) fu))
      (omega (
        arith,
        count-demoted v.id a.users v w.ids fv av,
        count-demoted u.id (demoted v.id a.users) u
            (Distinct-update_where (λ x. x.id) (has_id v.id)
              (λ x. record x { role = role_standard }) a.users (λ x. refl) w.ids)
            (first_where-demoted_other v.id u.id a.users u ne fu) au,
      ))
