-- ===== src/Detect/Raise.antt =====
-- internal/detect/detect.go. The texts of an alert are made by the fmt and json packages; they are
-- arguments.
use shadow_stat.Base.{
  ℕ, ◌-◌, ◌*◌, String, Bool, true, false, none, some, if◌then◌else◌, str_eq, count_where, ltb, inl,
  inr, arith, ap, ◌∙◌, ◌++◌, All, All-append, append_assoc, Bool-cases, Option, Option-cases, List,
  [], ◌∷◌, length, nat_eq, ◌≡◌,
}
use shadow_stat.Store.Driver.{ok, err}
use shadow_stat.Base.Assoc.{lookup, insert}
use shadow_stat.Base.Decimal.{ℤ}
use shadow_stat.Store.Hosts.{Host, Hosts, host_by_id}
use shadow_stat.Store.Alerts.{
  Alert, AlertRecord, Alerts, is_recent, recent_alert_exists, insert_alert, new_alert, PeerKey,
  HostByteTotals, alert_kind_new_destination, alert_kind_port_scan, alert_kind_geo_watchlist,
  alert_kind_beaconing, alert_kind_dns_anomaly,
}
use shadow_stat.Store.Alerts.Spacing.{Cooldowns, IsSpaced, IsSpaced-append}

-- Which calls fail while one alert is raised.
pub record RaiseFaults : Type 0 where
  pub exists_fails : Bool
  pub insert_fails : Bool

unfoldable pub host_label : Host → String
host_label h = elim h.display_name [
  | none ↦ h.ip
  | some name ↦ if str_eq name "" then h.ip else name
]

abbrev pub classify_peer_direction : Bool → Bool → String × String
classify_peer_direction true true = ("bidirectional", "exchanged traffic with a")
classify_peer_direction true false = ("outbound", "contacted a")
classify_peer_direction false true = ("inbound", "was contacted by a")
classify_peer_direction false false = ("unknown", "was linked to a")

abbrev pub hour : ℕ
hour = 3600

abbrev pub new_destination_cooldown : ℕ
new_destination_cooldown = 6 * hour

abbrev pub exfil_cooldown : ℕ
exfil_cooldown = 6 * hour

abbrev pub dns_volume_cooldown : ℕ
dns_volume_cooldown = hour

abbrev pub dns_entropy_cooldown : ℕ
dns_entropy_cooldown = 6 * hour

abbrev pub port_scan_cooldown : ℕ
port_scan_cooldown = 15 * 60

abbrev pub geo_watchlist_cooldown : ℕ
geo_watchlist_cooldown = 24 * hour

abbrev pub beaconing_cooldown : ℕ
beaconing_cooldown = 6 * hour

-- The cooldown that the detector of each kind passes. The volume of queries and the entropy of a
-- name are of one kind, and told apart by the dedupe key.
unfoldable pub cooldown : Cooldowns
cooldown kind dedupe_key =
    if str_eq kind alert_kind_new_destination
    then new_destination_cooldown
    else if str_eq kind alert_kind_port_scan
    then port_scan_cooldown
    else if str_eq kind alert_kind_geo_watchlist
    then geo_watchlist_cooldown
    else if str_eq kind alert_kind_beaconing
    then beaconing_cooldown
    else if str_eq kind alert_kind_dns_anomaly
    then (if str_eq dedupe_key "volume" then dns_volume_cooldown else dns_entropy_cooldown)
    else exfil_cooldown

-- The texts of alerts, which fmt and json make.
pub record Texts : Type 0 where
  pub peer : PeerKey → String
  pub new_destination_summary : String → String → PeerKey → String
  pub new_destination_detail : PeerKey → String → String
  pub exfil_summary : String → HostByteTotals → String
  pub exfil_detail : HostByteTotals → String
  -- of the direction of the check, the label of the host, the peer and the number of ports
  pub port_scan_summary : ℕ → String → String → ℕ → String
  -- of the direction, the peer, the number of ports, the ports shown and whether some are left out
  pub port_scan_detail : String → String → ℕ → List ℤ → Bool → String
  pub volume_summary : String → ℕ → String
  pub volume_detail : ℕ → String
  pub entropy_summary : String → String → String
  pub entropy_detail : String → String
  -- of the label of the host, the phrase, the country and the peer
  pub geo_summary : String → String → List ℕ → String → String
  pub geo_detail : String → List ℕ → String → String
  pub beaconing_summary : String → PeerKey → List ℕ → String
  pub beaconing_detail : PeerKey → List ℕ → String

-- The host of a peer, loaded once in a run, and the hosts loaded then; `none` when it cannot be
-- loaded.
unfoldable pub load_host : Bool → ℕ → List (ℕ × Host) → Hosts → Option (Host × List (ℕ × Host))
unfolding lookup insert host_by_id
load_host fails id loaded hosts = elim (lookup id loaded) [
  | some host ↦ some (host, loaded)
  | none ↦ elim (host_by_id fails id hosts) [
    | err _ ↦ none
    | ok host ↦ some (host, insert id host loaded)
  ]
]

-- raiseAlert; `detail` is the JSON text, empty when it cannot be made.
unfoldable pub raise_alert : RaiseFaults → AlertRecord → ℕ → Alerts → Alerts
unfolding recent_alert_exists insert_alert
raise_alert e a cooldown_since t =
    elim (recent_alert_exists e.exists_fails a.host_id a.kind a.dedupe_key cooldown_since t) [
      | err _ ↦ t
      | ok exists ↦
          if exists then t else elim (insert_alert e.insert_fails a t) [ err _ ↦ t | ok t' ↦ t' ]
    ]

-- Raising an alert with the cooldown of its kind and key, whichever calls fail, leaves alerts that
-- say the same further apart than their cooldown.
pub raise_alert-IsSpaced :
    (cool : Cooldowns) (e : RaiseFaults) (a : AlertRecord) (t : Alerts)
    → IsSpaced cool t.rows
    → IsSpaced cool (raise_alert e a (a.detected_at - cool a.kind a.dedupe_key) t).rows
unfolding raise_alert recent_alert_exists insert_alert
raise_alert-IsSpaced cool e a t s = elim (Bool-cases e.exists_fails) [
  | inl fails ↦ rw (raise_alert, fails) s
  | inr works ↦
      elim (Bool-cases (
        ltb 0 (
          count_where
            (is_recent a.host_id a.kind a.dedupe_key (a.detected_at - cool a.kind a.dedupe_key))
            t.rows))) [
              | inl there ↦ rw (raise_alert, works, there) s
              | inr absent ↦ elim (Bool-cases e.insert_fails) [
                | inl fails ↦ rw (raise_alert, works, absent, fails) s
                | inr inserts ↦
                    rw (raise_alert, works, absent, inserts)
                      (IsSpaced-append cool t.rows (new_alert t.next_id a) s (ground arith))
              ]
            ]
]

-- Which calls fail for one element of a detector's loop.
pub record LoopFaults : Type 0 where
  pub host_fails : Bool
  pub raise_faults : RaiseFaults

-- The hosts loaded in a run, and the alerts.
pub record Watch : Type 0 where
  pub loaded : List (ℕ × Host)
  pub alerts : Alerts

-- The end of a round of the detectors' loops: the host is loaded, and the alert about it raised.
unfoldable pub alert_on : LoopFaults → ℕ → (Host → AlertRecord) → ℕ → Hosts → Watch → Watch
unfolding load_host raise_alert
alert_on e host_id make cooldown_since hosts w =
    elim (load_host e.host_fails host_id w.loaded hosts) [
      | none ↦ w
      | some (host, loaded) ↦ record {
        loaded = loaded;
        alerts = raise_alert e.raise_faults (make host) cooldown_since w.alerts;
      }
    ]

-- What every raised alert of a kind keeps, with the cooldown of that kind.
abbrev pub Raises : (Alerts → Type 0) → String → Type 0
Raises P kind =
    (e : RaiseFaults) (a : AlertRecord) (t : Alerts)
    → a.kind ≡ kind
    → P t
    → P (raise_alert e a (a.detected_at - cooldown a.kind a.dedupe_key) t)

-- What raising the alert keeps, whatever host is loaded, `alert_on` keeps.
pub alert_on-holds :
    (P : Alerts → Type 0) (e : LoopFaults) (host_id : ℕ) (make : Host → AlertRecord) (since : ℕ)
    (hosts : Hosts) (w : Watch)
    → ((h : Host) → P w.alerts → P (raise_alert e.raise_faults (make h) since w.alerts))
    → P w.alerts
    → P (alert_on e host_id make since hosts w).alerts
unfolding alert_on
alert_on-holds P e host_id make since hosts w r p =
    elim (Option-cases (load_host e.host_fails host_id w.loaded hosts)) [
      | inl absent ↦ rw (alert_on, absent) p
      | inr ((host, loaded), found) ↦ rw (alert_on, found) (r host p)
    ]

pub alert_on-keeps :
    (P : Alerts → Type 0) (kind : String) (e : LoopFaults) (host_id : ℕ) (make : Host → AlertRecord)
    (since : ℕ) (hosts : Hosts) (w : Watch)
    → Raises P kind
    → ((h : Host) → (make h).kind ≡ kind)
    → ((h : Host) → (make h).detected_at - cooldown (make h).kind (make h).dedupe_key ≡ since)
    → P w.alerts
    → P (alert_on e host_id make since hosts w).alerts
alert_on-keeps P kind e host_id make since hosts w r same k p =
    alert_on-holds P e host_id make since hosts w
      (λ h q. rw (← k h) (r e.raise_faults (make h) w.alerts (same h) q)) p

-- The rows are old rows, and behind them rows that satisfy `Q`.
pub record OnlyNew (Q : Alert → Type 0) (old rows : List Alert) : Type 0 where
  pub new : List Alert
  pub appended : rows ≡ old ++ new
  pub satisfied : All Q new

-- Raising an alert appends it or changes nothing.
pub raise_alert-OnlyNew :
    (Q : Alert → Type 0) (old : List Alert) (e : RaiseFaults) (a : AlertRecord) (since : ℕ)
    (t : Alerts)
    → ((id : ℕ) → Q (new_alert id a))
    → OnlyNew Q old t.rows
    → OnlyNew Q old (raise_alert e a since t).rows
unfolding raise_alert recent_alert_exists insert_alert
raise_alert-OnlyNew Q old e a since t q o = elim (Bool-cases e.exists_fails) [
  | inl fails ↦ rw (raise_alert, fails) o
  | inr works ↦
      elim (Bool-cases
        (ltb 0 (count_where (is_recent a.host_id a.kind a.dedupe_key since) t.rows))) [
          | inl there ↦ rw (raise_alert, works, there) o
          | inr absent ↦ elim (Bool-cases e.insert_fails) [
            | inl fails ↦ rw (raise_alert, works, absent, fails) o
            | inr inserts ↦
                rw (raise_alert, works, absent, inserts)
                  (record {
                    new = o.new ++ new_alert t.next_id a ∷ [];
                    appended =
                        ap (λ rows. rows ++ new_alert t.next_id a ∷ []) o.appended
                        ∙ append_assoc old o.new (new_alert t.next_id a ∷ []);
                    satisfied =
                        All-append Q o.new (new_alert t.next_id a ∷ []) o.satisfied
                          (q t.next_id, tt);
                  })
          ]
        ]
]

-- A loop over a list. The step is given the number of elements that are left, which tells the
-- rounds apart.
unfoldable pub each {ℓ κ} : {A : Type ℓ} {S : Type κ} → (ℕ → A → S → S) → List A → S → S
each step [] s = s
each step (x ∷ rest) s = each step rest (step (length rest) x s)

pub each-keeps {ℓ κ μ} :
    {A : Type ℓ} {S : Type κ} (P : S → Type μ) (step : ℕ → A → S → S)
    → ((n : ℕ) (x : A) (s : S) → P s → P (step n x s))
    → (xs : List A) (s : S) → P s
    → P (each step xs s)
unfolding each
each-keeps P step k [] s h = h
each-keeps P step k (x ∷ rest) s h =
    each-keeps P step k rest (step (length rest) x s) (k (length rest) x s h)
