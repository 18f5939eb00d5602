-- ===== src/Config/Finished.antt =====
-- What holds after the first-run wizard: when it ends without an error, when it fails on the way,
-- and when it is run again after a failure.
use shadow_stat.Base.{
  ℕ, zero, suc, ◌≡◌, ◌≢◌, refl, ◌≤◌, ◌∙◌, ap, sym, String, Bool, true, false, Option, none, some,
  List, [], ◌∷◌, ◌++◌, ◌⊎◌, inl, inr, Bool-cases, Option-cases, if◌then◌else◌, arith, none-some,
  some-injective, first_where, string_eq, str_eq_iff,
}
use mathlib.Core.Path.{subst}
use shadow_stat.Base.Assoc.{lookup}
use shadow_stat.Base.Text.{Text, text_string}
use shadow_stat.Base.Decimal.{max_int64}
use shadow_stat.Store.Driver.{ok, err, Driver, Error, Result-cases, create_user_call}
use shadow_stat.Store.Settings.{
  SettingsTable, set_settings, set_setting, get_setting, key_setup_complete,
}
use shadow_stat.Store.Accounts.{Accounts, User, create_user, has_name, role_admin}
use shadow_stat.Config.{loaded, load, is_setup_complete, is_one_result}
use shadow_stat.Config.Setup.{inserted-lookup, saved, saved_complete, saved-load, answered}
use shadow_stat.Config.Typed.{IsTyped}
use shadow_stat.Config.Typed.Prompts.{prompts-IsTyped}
use shadow_stat.Config.Answered.{IsOption, IsValid, prompts-IsValid}
use shadow_stat.Config.Wizard.{
  WizardRun, Tables, Answers, prompts, wizard_settings, write_settings, write_answers,
  after_prompts, run_first_run_wizard, retention_choices,
}

-- What the wizard leaves when it ends: there are answers which are what was typed and valid, setup is
-- complete, Load reads them, and there is an admin with the name and the hash of the password.
pub record IsFinished (parse_cidr : Text → Bool) (hash_password : Text → Option String)
    (s : WizardRun) (t t' : Tables) : Type 0 where
  pub answers : Answers
  pub typed : IsTyped parse_cidr s answers
  pub valid : IsValid parse_cidr s answers
  pub complete : is_setup_complete false t'.settings ≡ ok true
  pub loads : load false t'.settings ≡ loaded (answered answers t.settings)
  pub admin : User
  pub there : first_where (has_name (text_string answers.username)) t'.accounts.users ≡ some admin
  pub elevated : admin.role ≡ role_admin
  pub hashed : hash_password answers.password ≡ some admin.password_hash

false-true : false ≢ true
false-true h = cc

-- A worked writing of the settings.
write_settings-saved :
    (s : WizardRun) (a : Answers) (t : SettingsTable)
    → (write_settings s (wizard_settings a) t).0 ≡ true
    → (write_settings s (wizard_settings a) t).1 ≡ saved a t
unfolding write_settings set_settings set_setting saved
write_settings-saved s a t h = elim (Bool-cases s.set_settings_fails) [
  | inl fails ↦ elim (false-true (rw (write_settings, fails) at h)) [ ]
  | inr works ↦ elim (Bool-cases s.set_setting_fails) [
    | inl fails ↦ elim (false-true (rw (write_settings, works, fails) at h)) [ ]
    | inr works' ↦ rw (write_settings, works, works') refl
  ]
]

first_where-append :
    (p : User → Bool) (users : List User) (u : User)
    → first_where p users ≡ none
    → p u ≡ true
    → first_where p (users ++ u ∷ []) ≡ some u
first_where-append p [] u h k = ground arith
first_where-append p (v ∷ rest) u h k = ground (arith, first_where-append p rest u)

err-ok {ℓ} : {A : Type ℓ} {e : Error} {a : A} → err e ≢ ok a
err-ok h = cc

ok-injective {ℓ} : {A : Type ℓ} {a b : A} → ok a ≡ ok b → a ≡ b
ok-injective h = cc

abbrev pub created : String → String → String → ℕ → Accounts → User
created name hash role now t = record {
  id = t.next_id;
  username = name;
  password_hash = hash;
  role = role;
  created_at = now;
}

-- A user that could be created has a new name and is there.
pub create_user-there :
    (d : Driver) (name hash role : String) (now : ℕ) (t : Accounts) (r : ℕ × Accounts)
    → create_user d name hash role now t ≡ ok r
    → first_where (has_name name) (r.1).users ≡ some (created name hash role now t)
unfolding create_user
create_user-there d name hash role now t r h = elim (Bool-cases (d.fails create_user_call)) [
  | inl fails ↦ elim (err-ok (rw (create_user, fails) at h)) [ ]
  | inr works ↦ elim (Option-cases (first_where (has_name name) t.users)) [
    | inr (u, there) ↦ elim (err-ok (rw (create_user, works, there) at h)) [ ]
    | inl absent ↦
        subst
          (λ (q : ℕ × Accounts).
            first_where (has_name name) (q.1).users ≡ some (created name hash role now t))
          (ok-injective (rw (create_user, works, absent) at h))
          (first_where-append (has_name name) t.users (created name hash role now t) absent
            ((str_eq_iff name name).1 refl))
  ]
]

module _ (parse_cidr : Text → Bool) (hash_password : Text → Option String) where
  write_answers-IsFinished :
      (s : WizardRun) (a : Answers) (t : Tables)
      → IsTyped parse_cidr s a
      → IsValid parse_cidr s a
      → a.retention_days ≤ max_int64
      → (write_answers parse_cidr hash_password s a t).0 ≡ true
      → IsFinished parse_cidr hash_password s t (write_answers parse_cidr hash_password s a t).1
  unfolding write_answers
  write_answers-IsFinished s a t y v b h = elim (Option-cases (hash_password a.password)) [
    | inl fails ↦ elim (false-true (rw (write_answers, fails) at h)) [ ]
    | inr (hash, works) ↦
        elim (Result-cases
          (create_user s.driver (text_string a.username) hash role_admin s.now t.accounts)) [
            | inl (e, fails) ↦ elim (false-true (rw (write_answers, works, fails) at h)) [ ]
            | inr (r, works') ↦
                rw (write_answers, works, works')
                  (finished s a t y v b hash r works' works
                    (rw (write_answers, works, works') at h))
          ]
  ]
    where
      finished :
          (s : WizardRun) (a : Answers) (t : Tables)
          → IsTyped parse_cidr s a
          → IsValid parse_cidr s a
          → a.retention_days ≤ max_int64
          → (hash : String) (r : ℕ × Accounts)
          → create_user s.driver (text_string a.username) hash role_admin s.now t.accounts ≡ ok r
          → hash_password a.password ≡ some hash
          → (write_settings s (wizard_settings a) t.settings).0 ≡ true
          → IsFinished parse_cidr hash_password s t (record {
            accounts = r.1;
            settings = (write_settings s (wizard_settings a) t.settings).1;
          })
      finished s a t y v b hash r c g w = rw (write_settings-saved s a t.settings w) (record {
        answers = a;
        typed = y;
        valid = v;
        complete = saved_complete a t.settings;
        loads = saved-load a t.settings b;
        admin = created (text_string a.username) hash role_admin s.now t.accounts;
        there =
            create_user-there s.driver (text_string a.username) hash role_admin s.now t.accounts r
              c;
        elevated = refl;
        hashed = g;
      })

-- The days of the menu are small.
choices-le : (days : ℕ) → IsOption retention_choices days → days ≤ max_int64
choices-le days (zero, h) = ground (arith, some-injective h)
choices-le days (suc zero, h) = ground (arith, some-injective h)
choices-le days (suc (suc zero), h) = ground (arith, some-injective h)
choices-le days (suc (suc (suc zero)), h) = ground (arith, some-injective h)
choices-le days (suc (suc (suc (suc i))), h) = elim (none-some h) [ ]

-- The wizard does nothing, or it writes answers that are valid.
pub run_first_run_wizard-cases :
    (parse_cidr : Text → Bool) (hash_password : Text → Option String) (s : WizardRun) (t : Tables)
    → (run_first_run_wizard parse_cidr hash_password s t ≡ (false, t))
      ⊎ ((a : Answers) × (prompts parse_cidr s ≡ some a)
          × (run_first_run_wizard parse_cidr hash_password s t
              ≡ write_answers parse_cidr hash_password s a t))
unfolding run_first_run_wizard
run_first_run_wizard-cases parse_cidr hash_password s t =
    let go = after_prompts parse_cidr hash_password s t in
    elim (Bool-cases s.interactive) [
      | inr batch ↦ inl (ap (λ b. if b then go (prompts parse_cidr s) else (false, t)) batch)
      | inl typed ↦
          let asked = ap (λ b. if b then go (prompts parse_cidr s) else (false, t)) typed in
          elim (Option-cases (prompts parse_cidr s)) [
            | inl failed ↦ inl (asked ∙ ap go failed)
            | inr (a, read) ↦ inr (a, read, asked ∙ ap go read)
          ]
    ]

-- When the wizard returns no error, there are answers which are what was typed, each that of the
-- first line which its prompt accepts, and which are valid; setup is complete, Load reads these
-- answers with the default address and interval, and there is an admin with the name and the hash of
-- the password.
pub run_first_run_wizard-IsFinished :
    (parse_cidr : Text → Bool) (hash_password : Text → Option String) (s : WizardRun) (t : Tables)
    → (run_first_run_wizard parse_cidr hash_password s t).0 ≡ true
    → IsFinished parse_cidr hash_password s t (run_first_run_wizard parse_cidr hash_password s t).1
run_first_run_wizard-IsFinished parse_cidr hash_password s t h =
    elim (run_first_run_wizard-cases parse_cidr hash_password s t) [
      | inl nothing ↦ elim (false-true (sym (ap (λ r. r.0) nothing) ∙ h)) [ ]
      | inr (a, read, written) ↦
          let v : IsValid parse_cidr s a = prompts-IsValid parse_cidr s a read in
          subst (λ (r : Bool × Tables). IsFinished parse_cidr hash_password s t r.1) (sym written)
            (write_answers-IsFinished parse_cidr hash_password s a t
              (prompts-IsTyped parse_cidr s a read) v (choices-le a.retention_days v.retention)
              (sym (ap (λ r. r.0) written) ∙ h))
    ]

-- The settings that a write leaves when it fails have the same value of setup_complete as before.
write_settings-unfinished :
    (s : WizardRun) (a : Answers) (t : SettingsTable)
    → (write_settings s (wizard_settings a) t).0 ≡ false
    → lookup key_setup_complete (write_settings s (wizard_settings a) t).1
      ≡ lookup key_setup_complete t
unfolding write_settings set_settings set_setting
write_settings-unfinished s a t h = elim (Bool-cases s.set_settings_fails) [
  | inl fails ↦ rw (write_settings, fails) refl
  | inr works ↦ elim (Bool-cases s.set_setting_fails) [
    | inl fails ↦ rw (write_settings, works, fails) (inserted-lookup a t)
    | inr works' ↦ elim (false-true (sym (rw (write_settings, works, works') at h))) [ ]
  ]
]

write_answers-unfinished :
    (parse_cidr : Text → Bool) (hash_password : Text → Option String) (s : WizardRun) (a : Answers)
    (t : Tables)
    → (write_answers parse_cidr hash_password s a t).0 ≡ false
    → lookup key_setup_complete ((write_answers parse_cidr hash_password s a t).1).settings
      ≡ lookup key_setup_complete t.settings
unfolding write_answers
write_answers-unfinished parse_cidr hash_password s a t h =
    elim (Option-cases (hash_password a.password)) [
      | inl fails ↦ rw (write_answers, fails) refl
      | inr (hash, works) ↦
          elim (Result-cases
            (create_user s.driver (text_string a.username) hash role_admin s.now t.accounts)) [
              | inl (e, fails) ↦ rw (write_answers, works, fails) refl
              | inr (r, works') ↦
                  rw (write_answers, works, works')
                    (write_settings-unfinished s a t.settings
                      (rw (write_answers, works, works') at h))
            ]
    ]

-- When the wizard returns an error, at whatever step, the next start finds setup as complete or
-- incomplete as it was before.
pub run_first_run_wizard-unfinished :
    (parse_cidr : Text → Bool) (hash_password : Text → Option String) (s : WizardRun) (t : Tables)
    → (run_first_run_wizard parse_cidr hash_password s t).0 ≡ false
    → is_setup_complete false ((run_first_run_wizard parse_cidr hash_password s t).1).settings
      ≡ is_setup_complete false t.settings
unfolding is_setup_complete get_setting
run_first_run_wizard-unfinished parse_cidr hash_password s t h =
    ap (λ v. is_one_result (ok v))
      (elim (run_first_run_wizard-cases parse_cidr hash_password s t) [
        | inl nothing ↦ ap (λ (r : Bool × Tables). lookup key_setup_complete (r.1).settings) nothing
        | inr (a, read, written) ↦
            ap (λ (r : Bool × Tables). lookup key_setup_complete (r.1).settings) written
            ∙ write_answers-unfinished parse_cidr hash_password s a t
                (sym (ap (λ r. r.0) written) ∙ h)
      ])
