-- ===== src/Config/Wizard.antt =====
-- internal/config/firstrun.go. What is typed is a list of lines; at its end the terminal is closed,
-- and a prompt returns an error. The passwords are read from the terminal by a call of their own.
use shadow_stat.Base.{
  ℕ, zero, suc, String, Bool, true, false, Option, none, some, List, [], ◌∷◌, if◌then◌else◌, ltb,
  get_elem?,
}
use shadow_stat.Base.Text.{Text, codes, text_beq, text_string, trim_space, byte_length}
use shadow_stat.Base.Decimal.{ℤ, pos, negsuc, atoi, itoa}
use shadow_stat.Store.Driver.{ok, err, Driver}
use shadow_stat.Store.Settings.{
  SettingsTable, set_setting, set_settings, key_capture_interface, key_lan_subnet_cidr,
  key_retention_days, key_http_listen_addr, key_flush_interval_secs, key_setup_complete,
}
use shadow_stat.Store.Accounts.{Accounts, create_user, role_admin}
use shadow_stat.Config.{
  Interface, list_capture_interfaces, default_http_listen_addr, default_flush_interval,
}

abbrev pub min_password_len : ℕ
min_password_len = 12

-- The days of the menu: 1 week, 1 month, 90 days, 1 year.
abbrev pub retention_choices : List ℕ
retention_choices = 7 ∷ 30 ∷ 90 ∷ 365 ∷ []

-- The element with a number from 1; none for a number that is too small or too large.
unfoldable pub choice {ℓ} : {A : Type ℓ} → Option ℤ → List A → Option A
choice none xs = none
choice (some (negsuc n)) xs = none
choice (some (pos zero)) xs = none
choice (some (pos (suc i))) xs = get_elem? xs i

infixl 5 ◌>>=◌
abbrev pub ◌>>=◌ {ℓ κ} : {A : Type ℓ} {B : Type κ} → Option A → (A → Option B) → Option B
none >>= f = none
some a >>= f = f a

-- What is left of the lines is read by the next prompt.
abbrev pub Read {ℓ} : Type ℓ → Type ℓ
Read A = Option (A × List Text)

abbrev pub or_again {ℓ} : {A : Type ℓ} → Option A → List Text → Read A → Read A
or_again none rest again = again
or_again (some x) rest again = some (x, rest)

-- One line of a menu: the empty one chooses `default`, an invalid one asks again.
unfoldable pub menu_line {ℓ} : {A : Type ℓ} → A → List A → List Text → Read A → Text → Read A
unfolding choice atoi
menu_line default xs rest again [] = some (default, rest)
menu_line default xs rest again (c ∷ s) = or_again (choice (atoi (c ∷ s)) xs) rest again

-- The loop of the two menus.
unfoldable pub prompt_menu {ℓ} : {A : Type ℓ} → A → List A → List Text → Read A
unfolding menu_line trim_space
prompt_menu default xs [] = none
prompt_menu default xs (line ∷ rest) =
    menu_line default xs rest (prompt_menu default xs rest) (trim_space line)

-- Without a candidate it fails before it asks.
unfoldable pub prompt_interface : Option (List Interface) → List Text → Read Text
unfolding prompt_menu
prompt_interface none lines = none
prompt_interface (some []) lines = none
prompt_interface (some (i ∷ is)) lines = do
  (chosen, rest) ← prompt_menu i (i ∷ is) lines
  some (chosen.name, rest)

-- `parse_cidr` says whether net.ParseCIDR takes the text.
unfoldable pub prompt_subnet : (Text → Bool) → List Text → Read Text
unfolding trim_space
prompt_subnet parse_cidr [] = none
prompt_subnet parse_cidr (line ∷ rest) =
    let again = prompt_subnet parse_cidr rest in
    let subnet = trim_space line in if parse_cidr subnet then some (subnet, rest) else again

unfoldable pub prompt_retention : List Text → Read ℕ
unfolding prompt_menu
prompt_retention lines = prompt_menu 30 retention_choices lines

-- An empty line asks again.
abbrev pub username_line : List Text → Read Text → Text → Read Text
username_line rest again [] = again
username_line rest again (c ∷ s) = some (c ∷ s, rest)

unfoldable pub prompt_username : List Text → Read Text
unfolding trim_space
prompt_username [] = none
prompt_username (line ∷ rest) = username_line rest (prompt_username rest) (trim_space line)

-- The passwords typed: one that is long enough is asked for once more.
unfoldable pub prompt_password : List Text → Option Text
unfolding byte_length text_beq
prompt_password [] = none
prompt_password (pw1 ∷ []) = none
prompt_password (pw1 ∷ pw2 ∷ rest) =
    let short = prompt_password (pw2 ∷ rest) in
    let differ = prompt_password rest in
    if ltb (byte_length pw1) min_password_len
    then short
    else if text_beq pw1 pw2
    then some pw1
    else differ

-- What the wizard meets: the terminal, the machine, and which calls of the store fail.
pub record WizardRun : Type 0 where
  pub interactive : Bool
  pub has_node : Text → Bool
  pub interfaces : Option (List Interface)
  pub lines : List Text
  pub passwords : List Text
  pub now : ℕ
  pub driver : Driver
  pub set_settings_fails : Bool
  pub set_setting_fails : Bool

-- The two tables that the wizard writes.
pub record Tables : Type 0 where
  pub accounts : Accounts
  pub settings : SettingsTable

-- What the five prompts answer.
pub record Answers : Type 0 where
  pub iface : Text
  pub subnet : Text
  pub retention_days : ℕ
  pub username : Text
  pub password : Text

abbrev pub wizard_settings : Answers → List (String × Text)
wizard_settings a =
    (key_capture_interface, a.iface)
    ∷ (key_lan_subnet_cidr, a.subnet)
    ∷ (key_retention_days, itoa a.retention_days)
    ∷ (key_http_listen_addr, default_http_listen_addr)
    ∷ (key_flush_interval_secs, itoa default_flush_interval)
    ∷ []

-- SetSettings, then SetSetting of setup_complete; whether both worked, and the settings after.
unfoldable pub write_settings :
    WizardRun → List (String × Text) → SettingsTable → Bool × SettingsTable
unfolding set_settings set_setting
write_settings s kv t = elim (set_settings s.set_settings_fails kv t) [
  | err _ ↦ (false, t)
  | ok t' ↦ elim (set_setting s.set_setting_fails key_setup_complete (codes "1") t') [
    | err _ ↦ (false, t')
    | ok t'' ↦ (true, t'')
  ]
]

-- The prompts, in their order; none when one of them fails.
unfoldable pub prompts : (Text → Bool) → WizardRun → Option Answers
unfolding prompt_interface prompt_subnet prompt_retention prompt_username prompt_password
    list_capture_interfaces
prompts parse_cidr s = do
  i ← prompt_interface (list_capture_interfaces s.has_node s.interfaces) s.lines
  n ← prompt_subnet parse_cidr i.1
  r ← prompt_retention n.1
  u ← prompt_username r.1
  p ← prompt_password s.passwords
  some (record { iface = i.0; subnet = n.0; retention_days = r.0; username = u.0; password = p })

module _ (parse_cidr : Text → Bool) (hash_password : Text → Option String) where
  unfoldable pub write_answers : WizardRun → Answers → Tables → Bool × Tables
  unfolding create_user write_settings text_string
  write_answers s a t = elim (hash_password a.password) [
    | none ↦ (false, t)
    | some hash ↦
        elim (create_user s.driver (text_string a.username) hash role_admin s.now t.accounts) [
          | err _ ↦ (false, t)
          | ok (id, accounts) ↦
              let r = write_settings s (wizard_settings a) t.settings in
              (r.0, record { accounts = accounts; settings = r.1 })
        ]
  ]

  abbrev pub after_prompts : WizardRun → Tables → Option Answers → Bool × Tables
  after_prompts s t none = (false, t)
  after_prompts s t (some a) = write_answers s a t

  -- Whether the wizard returned without an error, and the tables after it.
  unfoldable pub run_first_run_wizard : WizardRun → Tables → Bool × Tables
  unfolding prompts write_answers
  run_first_run_wizard s t =
      if s.interactive then after_prompts s t (prompts parse_cidr s) else (false, t)
