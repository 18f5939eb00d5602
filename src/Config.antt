-- ===== src/Config.antt =====
-- internal/config/config.go, and the interfaces of internal/config/interfaces.go.
pub mod Wizard
pub mod Setup
pub mod Answered
pub mod Typed
pub mod Finished
pub mod Retry
pub mod Paths
pub mod Samples
use shadow_stat.Base.{
  ℕ, String, Bool, true, false, not, ◌||◌, Option, none, some, List, [], ◌∷◌, if◌then◌else◌,
  string_eq,
}
use shadow_stat.Base.Assoc.{lookup}
use shadow_stat.Base.Text.{Text, codes, text_beq}
use shadow_stat.Base.Decimal.{ℤ, atoi, itoa}
use shadow_stat.Store.Driver.{Result, ok, err}
use shadow_stat.Store.Settings.{
  SettingsTable, all_settings, get_setting, key_capture_interface, key_lan_subnet_cidr,
  key_retention_days, key_tls_cert_path, key_tls_key_path, key_http_listen_addr,
  key_flush_interval_secs, key_setup_complete,
}

pub record Settings : Type 0 where
  pub capture_interface : Text
  pub lan_subnet_cidr : Text
  pub retention_days : ℤ
  pub tls_cert_path : Text
  pub tls_key_path : Text
  pub http_listen_addr : Text
  pub flush_interval : ℤ

abbrev pub default_http_listen_addr : Text
default_http_listen_addr = codes ":8443"

abbrev pub default_flush_interval : ℕ
default_flush_interval = 10

-- The settings, or which step failed.
pub data Loaded : Type 0 where
  loaded : Settings → Loaded
  load_settings_failed parse_retention_days_failed parse_flush_interval_failed : Loaded

-- kv[key]: the empty text when there is no such key
abbrev pub or_empty : Option Text → Text
or_empty none = []
or_empty (some v) = v

unfoldable pub value_of : String → SettingsTable → Text
unfolding lookup
value_of key kv = or_empty (lookup key kv)

unfoldable pub value_or : Text → Text → Text
value_or [] def = def
value_or (c ∷ v) def = c ∷ v

abbrev with_flush_interval : SettingsTable → ℤ → Option ℤ → Loaded
with_flush_interval kv days none = parse_flush_interval_failed
with_flush_interval kv days (some secs) = loaded (record {
  capture_interface = value_of key_capture_interface kv;
  lan_subnet_cidr = value_of key_lan_subnet_cidr kv;
  retention_days = days;
  tls_cert_path = value_of key_tls_cert_path kv;
  tls_key_path = value_of key_tls_key_path kv;
  http_listen_addr = value_or (value_of key_http_listen_addr kv) default_http_listen_addr;
  flush_interval = secs;
})

abbrev with_retention_days : SettingsTable → Option ℤ → Option ℤ → Loaded
with_retention_days kv none secs = parse_retention_days_failed
with_retention_days kv (some days) secs = with_flush_interval kv days secs

unfoldable pub load : Bool → SettingsTable → Loaded
unfolding value_of value_or atoi itoa all_settings
load fails t = elim (all_settings fails t) [
  | err _ ↦ load_settings_failed
  | ok kv ↦
      with_retention_days kv (atoi (value_or (value_of key_retention_days kv) (codes "30")))
        (atoi (value_or (value_of key_flush_interval_secs kv) (itoa default_flush_interval)))
]

abbrev is_one : Option Text → Bool
is_one none = false
is_one (some v) = text_beq v (codes "1")

abbrev pub is_one_result : Result (Option Text) → Result Bool
is_one_result (err e) = err e
is_one_result (ok v) = ok (is_one v)

unfoldable pub is_setup_complete : Bool → SettingsTable → Result Bool
unfolding get_setting text_beq
is_setup_complete fails t = is_one_result (get_setting fails key_setup_complete t)

-- A network interface of the machine.
pub record Interface : Type 0 where
  pub name : Text
  pub loopback : Bool

-- `has_node` says whether /sys/class/net has the name; `none` when the interfaces cannot be listed.
unfoldable pub candidates : (Text → Bool) → List Interface → List Interface
candidates has_node [] = []
candidates has_node (i ∷ rest) =
    let out = candidates has_node rest in
    if i.loopback then out else if has_node i.name then i ∷ out else out

unfoldable pub list_capture_interfaces :
    (Text → Bool) → Option (List Interface) → Option (List Interface)
unfolding candidates
list_capture_interfaces has_node none = none
list_capture_interfaces has_node (some ifaces) = some (candidates has_node ifaces)
