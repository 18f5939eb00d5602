-- ===== src/Store/Settings.antt =====
-- internal/store/settings.go: the table `settings`, from key to value. A value is a text.
use shadow_stat.Base.{
  String, Bool, true, not, Option, none, some, List, [], ◌∷◌, if◌then◌else◌, string_eq,
}
use shadow_stat.Base.Text.{Text, codes, text_beq}
use shadow_stat.Base.Assoc.{lookup, insert}
use shadow_stat.Store.Driver.{Result, ok, err, db_failed}

abbrev pub key_capture_interface : String
key_capture_interface = "capture_interface"

abbrev pub key_lan_subnet_cidr : String
key_lan_subnet_cidr = "lan_subnet_cidr"

abbrev pub key_retention_days : String
key_retention_days = "retention_days"

abbrev pub key_tls_cert_path : String
key_tls_cert_path = "tls_cert_path"

abbrev pub key_tls_key_path : String
key_tls_key_path = "tls_key_path"

abbrev pub key_http_listen_addr : String
key_http_listen_addr = "http_listen_addr"

abbrev pub key_flush_interval_secs : String
key_flush_interval_secs = "flush_interval_seconds"

abbrev pub key_setup_complete : String
key_setup_complete = "setup_complete"

abbrev pub key_detector_new_destination : String
key_detector_new_destination = "detector_new_destination_enabled"

abbrev pub key_detector_beaconing : String
key_detector_beaconing = "detector_beaconing_enabled"

abbrev pub key_detector_exfil_ratio : String
key_detector_exfil_ratio = "detector_exfil_ratio_enabled"

abbrev pub key_detector_dns_anomaly : String
key_detector_dns_anomaly = "detector_dns_anomaly_enabled"

abbrev pub key_detector_port_scan : String
key_detector_port_scan = "detector_port_scan_enabled"

abbrev pub key_detector_geo_watchlist : String
key_detector_geo_watchlist = "detector_geo_watchlist_enabled"

abbrev pub key_geo_watchlist_countries : String
key_geo_watchlist_countries = "geo_watchlist_countries"

abbrev pub SettingsTable : Type 0
SettingsTable = List (String × Text)

unfoldable pub get_setting : Bool → String → SettingsTable → Result (Option Text)
unfolding lookup
get_setting fails key t = if fails then err db_failed else ok (lookup key t)

unfoldable pub set_setting : Bool → String → Text → SettingsTable → Result SettingsTable
unfolding insert
set_setting fails key value t = if fails then err db_failed else ok (insert key value t)

unfoldable pub insert_all : List (String × Text) → SettingsTable → SettingsTable
unfolding insert
insert_all [] t = t
insert_all ((k, v) ∷ rest) t = insert_all rest (insert k v t)

-- One transaction: `fails` says that Begin, Prepare, a statement or Commit fails.
unfoldable pub set_settings : Bool → List (String × Text) → SettingsTable → Result SettingsTable
unfolding insert_all
set_settings fails kv t = if fails then err db_failed else ok (insert_all kv t)

unfoldable pub all_settings : Bool → SettingsTable → Result SettingsTable
all_settings fails t = if fails then err db_failed else ok t

-- Enabled by an error, and by a key that is not set.
unfoldable pub detector_enabled : Bool → String → SettingsTable → Bool
unfolding get_setting text_beq
detector_enabled fails setting_key t = elim (get_setting fails setting_key t) [
  | err _ ↦ true
  | ok value ↦ elim value [ none ↦ true | some v ↦ not (text_beq v (codes "0")) ]
]
