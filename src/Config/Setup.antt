-- ===== src/Config/Setup.antt =====
-- What the first-run wizard leaves behind, when it ends and when it does not.
use shadow_stat.Base.{
  ℕ, ◌≡◌, ◌≢◌, refl, ◌≤◌, ◌∙◌, ap, String, true, false, some, [], ◌∷◌, string_eq, if◌then◌else◌,
  arith,
}
use shadow_stat.Base.Assoc.{lookup, insert, lookup-insert}
use shadow_stat.Base.Text.{Text, codes}
use shadow_stat.Base.Decimal.{pos, atoi, itoa, atoi-itoa, max_int64}
use shadow_stat.Store.Driver.{ok}
use shadow_stat.Store.Settings.{
  SettingsTable, insert_all, get_setting, key_capture_interface, key_lan_subnet_cidr,
  key_retention_days, key_tls_cert_path, key_tls_key_path, key_http_listen_addr,
  key_flush_interval_secs, key_setup_complete,
}
use shadow_stat.Config.{
  Settings, loaded, load, value_of, or_empty, value_or, is_setup_complete, default_http_listen_addr,
  default_flush_interval,
}
use shadow_stat.Config.Wizard.{Answers, wizard_settings}

-- What the wizard's writes leave under each key.
saved-lookup :
    (a : Answers) (t : SettingsTable) (k : String)
    → lookup k (insert key_setup_complete (codes "1") (insert_all (wizard_settings a) t)) ≡ (
        if string_eq.beq key_setup_complete k
        then some (codes "1")
        else if string_eq.beq key_flush_interval_secs k
        then some (itoa default_flush_interval)
        else if string_eq.beq key_http_listen_addr k
        then some default_http_listen_addr
        else if string_eq.beq key_retention_days k
        then some (itoa a.retention_days)
        else if string_eq.beq key_lan_subnet_cidr k
        then some a.subnet
        else if string_eq.beq key_capture_interface k
        then some a.iface
        else lookup k t)
unfolding insert_all
saved-lookup a t k =
    rw
      (
        lookup-insert key_setup_complete k (codes "1") (insert_all (wizard_settings a) t),
        lookup-insert key_flush_interval_secs k (itoa default_flush_interval) (
            insert key_http_listen_addr default_http_listen_addr (
              insert key_retention_days (itoa a.retention_days)
                (insert key_lan_subnet_cidr a.subnet (insert key_capture_interface a.iface t)))),
        lookup-insert key_http_listen_addr k default_http_listen_addr (
            insert key_retention_days (itoa a.retention_days)
              (insert key_lan_subnet_cidr a.subnet (insert key_capture_interface a.iface t))),
        lookup-insert key_retention_days k (itoa a.retention_days)
            (insert key_lan_subnet_cidr a.subnet (insert key_capture_interface a.iface t)),
        lookup-insert key_lan_subnet_cidr k a.subnet (insert key_capture_interface a.iface t),
        lookup-insert key_capture_interface k a.iface t,
      )
      refl

-- The settings that Load reads when the wizard has written the answers.
abbrev pub answered : Answers → SettingsTable → Settings
answered a t = record {
  capture_interface = a.iface;
  lan_subnet_cidr = a.subnet;
  retention_days = pos a.retention_days;
  tls_cert_path = value_of key_tls_cert_path t;
  tls_key_path = value_of key_tls_key_path t;
  http_listen_addr = default_http_listen_addr;
  flush_interval = pos default_flush_interval;
}

unfoldable pub saved : Answers → SettingsTable → SettingsTable
saved a t = insert key_setup_complete (codes "1") (insert_all (wizard_settings a) t)

pub saved_complete :
    (a : Answers) (t : SettingsTable) → is_setup_complete false (saved a t) ≡ ok true
unfolding saved is_setup_complete get_setting
saved_complete a t = rw (saved-lookup a t key_setup_complete) refl

no_number : (n : ℕ) → atoi [] ≢ some (pos n)
unfolding atoi
no_number n h = cc

value_or-itoa : (n : ℕ) (def : Text) → n ≤ max_int64 → atoi (value_or (itoa n) def) ≡ some (pos n)
unfolding value_or
value_or-itoa n def h = go (itoa n) (atoi-itoa n h)
  where
    go : (s : Text) → atoi s ≡ some (pos n) → atoi (value_or s def) ≡ some (pos n)
    go [] e = elim (no_number n e) [ ]
    go (c ∷ s) e = e

-- Load over a table that has the six values.
load-of_values :
    (c : Settings) (kv : SettingsTable)
    → value_of key_capture_interface kv ≡ c.capture_interface
    → value_of key_lan_subnet_cidr kv ≡ c.lan_subnet_cidr
    → value_of key_tls_cert_path kv ≡ c.tls_cert_path
    → value_of key_tls_key_path kv ≡ c.tls_key_path
    → value_or (value_of key_http_listen_addr kv) default_http_listen_addr ≡ c.http_listen_addr
    → atoi (value_or (value_of key_retention_days kv) (codes "30")) ≡ some c.retention_days
    → atoi (value_or (value_of key_flush_interval_secs kv) (itoa default_flush_interval))
      ≡ some c.flush_interval
    → load false kv ≡ loaded c
unfolding load
load-of_values c kv h1 h2 h3 h4 h5 h6 h7 = rw (load, h6, h7, h1, h2, h3, h4, h5) refl

pub saved-load :
    (a : Answers) (t : SettingsTable)
    → a.retention_days ≤ max_int64
    → load false (saved a t) ≡ loaded (answered a t)
unfolding saved value_of value_or
saved-load a t h =
    let days : value_of key_retention_days (saved a t) ≡ itoa a.retention_days =
      ap or_empty (saved-lookup a t key_retention_days) in
    let secs : value_of key_flush_interval_secs (saved a t) ≡ itoa default_flush_interval =
      ap or_empty (saved-lookup a t key_flush_interval_secs) in
    load-of_values (answered a t) (saved a t) (ap or_empty (saved-lookup a t key_capture_interface))
      (ap or_empty (saved-lookup a t key_lan_subnet_cidr))
      (ap or_empty (saved-lookup a t key_tls_cert_path))
      (ap or_empty (saved-lookup a t key_tls_key_path))
      (ap (λ o. value_or (or_empty o) default_http_listen_addr)
        (saved-lookup a t key_http_listen_addr))
      (ap (λ v. atoi (value_or v (codes "30"))) days
        ∙ value_or-itoa a.retention_days (codes "30") h)
      (ap (λ v. atoi (value_or v (itoa default_flush_interval))) secs
        ∙ value_or-itoa default_flush_interval (itoa default_flush_interval) (omega arith))

-- The first five settings leave the key that says that setup is complete.
pub inserted-lookup :
    (a : Answers) (t : SettingsTable)
    → lookup key_setup_complete (insert_all (wizard_settings a) t) ≡ lookup key_setup_complete t
unfolding insert_all
inserted-lookup a t =
    rw
      (
        lookup-insert key_flush_interval_secs key_setup_complete (itoa default_flush_interval) _,
        lookup-insert key_http_listen_addr key_setup_complete default_http_listen_addr _,
        lookup-insert key_retention_days key_setup_complete (itoa a.retention_days) _,
        lookup-insert key_lan_subnet_cidr key_setup_complete a.subnet _,
        lookup-insert key_capture_interface key_setup_complete a.iface t,
      )
      refl
