-- ===== src/Store/Alerts/Listing.antt =====
-- ListAlerts and ListAlertsForHost of internal/store/alerts.go, and ListHosts of
-- internal/store/hosts.go.
use shadow_stat.Base.{
  ℕ, String, Bool, ◌&&◌, ◌||◌, not, none, some, List, [], ◌∷◌, leb, ◌==◌, if◌then◌else◌, str_eq,
  first_where, rows_where, take,
}
use shadow_stat.Store.Driver.{Result, ok, err, db_failed}
use shadow_stat.Store.Hosts.{Host, Hosts}
use shadow_stat.Store.Alerts.{Alert, Alerts}
use shadow_stat.Store.DetectQueries.{sort_by}

-- A row with the address of its host, for display.
abbrev pub Listed : Type 0
Listed = String × Alert

-- JOIN hosts h ON h.id = a.host_id
unfoldable pub join_hosts : Hosts → List Alert → List Listed
join_hosts hosts [] = []
join_hosts hosts (a ∷ rest) =
    let others = join_hosts hosts rest in
    elim (first_where (λ (h : Host). h.id == a.host_id) hosts.hosts) [
      | none ↦ others
      | some h ↦ (h.ip, a) ∷ others
    ]

-- ORDER BY a.detected_at DESC
abbrev pub newest_first : List Listed → List Listed
newest_first rows = sort_by (λ (r s : Listed). leb (s.1).detected_at (r.1).detected_at) rows

-- The conditions that the parameters add.
abbrev pub is_asked : Bool → String → Alert → Bool
is_asked unacked_only kind a =
    (not unacked_only || not a.acknowledged) && (str_eq kind "" || str_eq a.kind kind)

unfoldable pub list_alerts : Bool → ℕ → Bool → String → Hosts → Alerts → Result (List Listed)
unfolding join_hosts
list_alerts fails limit unacked_only kind hosts t =
    if fails
    then err db_failed
    else ok (
        take limit
          (newest_first (join_hosts hosts (rows_where (is_asked unacked_only kind) t.rows))))

unfoldable pub list_alerts_for_host : Bool → ℕ → ℕ → Hosts → Alerts → Result (List Listed)
unfolding join_hosts
list_alerts_for_host fails host_id limit hosts t =
    if fails
    then err db_failed
    else ok (
        take limit (
          newest_first
            (join_hosts hosts (rows_where (λ (a : Alert). a.host_id == host_id) t.rows))))

unfoldable pub list_hosts : Bool → Hosts → Result (List Host)
list_hosts fails t =
    if fails
    then err db_failed
    else ok (sort_by (λ (g h : Host). leb h.last_seen g.last_seen) t.hosts)
