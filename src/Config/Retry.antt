-- ===== src/Config/Retry.antt =====
-- The first-run wizard after a run that created the admin and then failed.
use shadow_stat.Base.{
  ℕ, ◌≡◌, refl, ◌∙◌, ap, sym, String, Bool, false, Option, some, inl, inr, Bool-cases, Option-cases,
  some-injective, first_where,
}
use shadow_stat.Base.Text.{Text, text_string}
use shadow_stat.Store.Driver.{
  ok, err, Driver, Error, db_failed, constraint_failed, create_user_call,
}
use shadow_stat.Store.Accounts.{Accounts, User, create_user, has_name, role_admin}
use shadow_stat.Config.Finished.{created, create_user-there, run_first_run_wizard-cases}
use shadow_stat.Config.Wizard.{
  WizardRun, Tables, Answers, prompts, write_answers, run_first_run_wizard,
}

-- An answer whose name is taken cannot be written.
create_user-taken :
    (d : Driver) (name hash role : String) (now : ℕ) (t : Accounts) (u : User)
    → first_where (has_name name) t.users ≡ some u
    → (e : Error) × (create_user d name hash role now t ≡ err e)
unfolding create_user
create_user-taken d name hash role now t u there = elim (Bool-cases (d.fails create_user_call)) [
  | inl fails ↦ (db_failed, rw (create_user, fails) refl)
  | inr works ↦ (constraint_failed, rw (create_user, works, there) refl)
]

write_answers-taken :
    (parse_cidr : Text → Bool) (hash_password : Text → Option String) (s : WizardRun) (a : Answers)
    (t : Tables) (u : User)
    → first_where (has_name (text_string a.username)) t.accounts.users ≡ some u
    → (write_answers parse_cidr hash_password s a t).0 ≡ false
unfolding write_answers
write_answers-taken parse_cidr hash_password s a t u there =
    elim (Option-cases (hash_password a.password)) [
      | inl fails ↦ rw (write_answers, fails) refl
      | inr (hash, works) ↦
          let (e, taken) =
            create_user-taken s.driver (text_string a.username) hash role_admin s.now t.accounts u
              there in
          rw (write_answers, works, taken) refl
    ]

-- What a run leaves as accounts when the admin was created.
write_answers-accounts :
    (parse_cidr : Text → Bool) (hash_password : Text → Option String) (s : WizardRun) (a : Answers)
    (t : Tables) (hash : String) (r : ℕ × Accounts)
    → hash_password a.password ≡ some hash
    → create_user s.driver (text_string a.username) hash role_admin s.now t.accounts ≡ ok r
    → ((write_answers parse_cidr hash_password s a t).1).accounts ≡ r.1
unfolding write_answers
write_answers-accounts parse_cidr hash_password s a t hash r works c =
    rw (write_answers, works, c) refl

-- Once a run of the wizard has created the admin, every later run that is given the same name
-- returns an error, although setup was not completed.
pub run_first_run_wizard-retry :
    (parse_cidr : Text → Bool) (hash_password : Text → Option String) (s s' : WizardRun)
    (a a' : Answers) (t : Tables) (hash : String) (r : ℕ × Accounts)
    → prompts parse_cidr s' ≡ some a'
    → a'.username ≡ a.username
    → hash_password a.password ≡ some hash
    → create_user s.driver (text_string a.username) hash role_admin s.now t.accounts ≡ ok r
    → (run_first_run_wizard parse_cidr hash_password s'
        (write_answers parse_cidr hash_password s a t).1).0
      ≡ false
run_first_run_wizard-retry parse_cidr hash_password s s' a a' t hash r read same works c =
    let t' : Tables = (write_answers parse_cidr hash_password s a t).1 in
    let there : first_where (has_name (text_string a.username)) t'.accounts.users
        ≡ some (created (text_string a.username) hash role_admin s.now t.accounts) =
      ap (λ (x : Accounts). first_where (has_name (text_string a.username)) x.users)
        (write_answers-accounts parse_cidr hash_password s a t hash r works c)
      ∙ create_user-there s.driver (text_string a.username) hash role_admin s.now t.accounts r c in
    elim (run_first_run_wizard-cases parse_cidr hash_password s' t') [
      | inl nothing ↦ ap (λ v. v.0) nothing
      | inr (b, read', written) ↦
          let name : b.username ≡ a.username =
            ap (λ (x : Answers). x.username) (some-injective (sym read' ∙ read)) ∙ same in
          ap (λ v. v.0) written
          ∙ write_answers-taken parse_cidr hash_password s' b t'
              (created (text_string a.username) hash role_admin s.now t.accounts)
              (ap (λ n. first_where (has_name (text_string n)) t'.accounts.users) name ∙ there)
    ]
