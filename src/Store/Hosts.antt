-- ===== src/Store/Hosts.antt =====
-- internal/store/hosts.go and internal/store/dhcp.go: the tables `hosts` and `dhcp_hostnames`.
pub mod Lookup
use shadow_stat.Base.{
  ℕ, suc, String, Bool, true, false, ◌&&◌, not, Option, none, some, List, [], ◌∷◌, ◌++◌, ltb, ◌==◌,
  if◌then◌else◌, str_eq, max, string_eq, first_where, update_where,
}
use shadow_stat.Base.Assoc.{lookup, insert}
use shadow_stat.Store.Driver.{Result, ok, err, db_failed, not_found}

pub record Host : Type 0 where
  pub id : ℕ
  pub ip : String
  pub display_name : Option String
  pub mac_address : Option String
  pub first_seen : ℕ
  pub last_seen : ℕ

pub record Hosts : Type 0 where
  pub hosts : List Host
  -- mac_address ↦ hostname, last_seen
  pub dhcp_hostnames : List (String × (String × ℕ))
  -- AUTOINCREMENT: above every id ever given
  pub next_id : ℕ

abbrev pub has_ip : String → Host → Bool
has_ip ip h = str_eq h.ip ip

abbrev pub has_host_id : ℕ → Host → Bool
has_host_id id h = h.id == id

-- SQL's comparison of a nullable column: NULL is equal to nothing
abbrev pub is_text : String → Option String → Bool
is_text s none = false
is_text s (some t) = str_eq t s

abbrev pub bump_last_seen : ℕ → Host → Host
bump_last_seen seen_at h = record h { last_seen = max h.last_seen seen_at }

abbrev pub new_host : ℕ → String → ℕ → Host
new_host id ip seen_at = record {
  id = id;
  ip = ip;
  display_name = none;
  mac_address = none;
  first_seen = seen_at;
  last_seen = seen_at;
}

-- INSERT ... ON CONFLICT(ip) DO UPDATE ... RETURNING id
unfoldable pub upsert_host : Bool → String → ℕ → Hosts → Result (ℕ × Hosts)
upsert_host fails ip seen_at t =
    if fails then err db_failed else elim (first_where (has_ip ip) t.hosts) [
      | some h ↦
          ok (h.id, record t { hosts = update_where (has_ip ip) (bump_last_seen seen_at) t.hosts })
      | none ↦ ok (
        t.next_id,
        record t { hosts = t.hosts ++ new_host t.next_id ip seen_at ∷ []; next_id = suc t.next_id },
      )
    ]

-- The row, when it has another address or none, takes the address.
unfoldable pub set_host_mac : Bool → ℕ → String → Hosts → Result Hosts
set_host_mac fails host_id mac t =
    if fails
    then err db_failed
    else ok (record t {
      hosts =
          update_where (λ h. has_host_id host_id h && not (is_text mac h.mac_address))
            (λ h. record h { mac_address = some mac }) t.hosts;
    })

abbrev pub named : String → String → List Host → List Host
named mac hostname hosts =
    update_where (λ h. is_text mac h.mac_address && not (is_text hostname h.display_name))
      (λ h. record h { display_name = some hostname }) hosts

unfoldable pub set_host_display_name_by_mac : Bool → String → String → Hosts → Result Hosts
set_host_display_name_by_mac fails mac hostname t =
    if fails then err db_failed else ok (record t { hosts = named mac hostname t.hosts })

unfoldable pub host_by_id : Bool → ℕ → Hosts → Result Host
host_by_id fails id t =
    if fails
    then err db_failed
    else elim (first_where (has_host_id id) t.hosts) [ none ↦ err not_found | some h ↦ ok h ]

-- Both statements in one transaction: `fails` says that Begin, a statement or Commit fails.
unfoldable pub upsert_dhcp_hostname : Bool → String → String → ℕ → Hosts → Result Hosts
unfolding insert
upsert_dhcp_hostname fails mac hostname seen_at t =
    if fails
    then err db_failed
    else ok (record t {
      dhcp_hostnames = insert mac (hostname, seen_at) t.dhcp_hostnames;
      hosts = named mac hostname t.hosts;
    })

unfoldable pub hostname_by_mac : Bool → String → Hosts → Result (Option String)
unfolding lookup
hostname_by_mac fails mac t = if fails then err db_failed else elim (lookup mac t.dhcp_hostnames) [
  | none ↦ ok none
  | some (hostname, _) ↦ ok (some hostname)
]
