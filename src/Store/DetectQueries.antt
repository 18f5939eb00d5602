-- ===== src/Store/DetectQueries.antt =====
-- internal/store/detect_queries.go: PeerFlowTimestamps and HostTargetPortScans. HostOutboundTotals
-- is in Store/Alerts.
use Prim.Native.String.{compare as compare_text}
use Prim.Native.Nat.{Ordering}
use shadow_stat.Base.{
  ℕ, String, Bool, true, false, ◌&&◌, ◌||◌, Option, none, some, List, [], ◌∷◌, ltb, leb, ◌==◌,
  if◌then◌else◌, str_eq, str_eq_iff, ◌≡◌, ◌↔◌, arith, Eq, length, rows_where, map,
}
use shadow_stat.Base.Assoc.{alter}
use shadow_stat.Store.Driver.{Result, ok, err, db_failed}
use shadow_stat.Store.Flows.{FlowRecord}
use shadow_stat.Store.Alerts.{PeerKey, peer_of}

-- The columns (host, peer) and first_seen of a row.
abbrev pub PeerFlowTimestamp : Type 0
PeerFlowTimestamp = PeerKey × ℕ

abbrev text_ltb : String → String → Bool
text_ltb s t = elim (compare_text s t) [ Ordering.lt ↦ true | _ ↦ false ]

-- ORDER BY host_id, remote_ip, remote_port, first_seen: the first row may stand before the second.
unfoldable pub in_order : PeerFlowTimestamp → PeerFlowTimestamp → Bool
in_order (a, s) (b, t) =
    ltb a.host_id b.host_id
    || ((a.host_id == b.host_id)
        && (text_ltb a.remote_ip b.remote_ip
            || (str_eq a.remote_ip b.remote_ip
                && (ltb a.remote_port b.remote_port
                    || ((a.remote_port == b.remote_port) && leb s t)))))

module _ {ℓ} {A : Type ℓ} (before : A → A → Bool) where
  -- A row goes in front of the first that it may stand before.
  abbrev pub place : A → List A → List A
  place x [] = x ∷ []
  place x (y ∷ ys) = let rest = place x ys in if before x y then x ∷ y ∷ ys else y ∷ rest

  -- ORDER BY
  abbrev pub sort_by : List A → List A
  sort_by [] = []
  sort_by (x ∷ xs) = place x (sort_by xs)

abbrev pub seen_in : ℕ → ℕ → FlowRecord → Bool
seen_in since now f = leb since f.last_seen && leb f.last_seen now

unfoldable pub peer_flow_timestamps :
    Bool → ℕ → ℕ → List FlowRecord → Result (List PeerFlowTimestamp)
unfolding in_order
peer_flow_timestamps fails since now t =
    if fails
    then err db_failed
    else ok
        (sort_by in_order (map (λ f. (peer_of f, f.first_seen)) (rows_where (seen_in since now) t)))

-- GROUP BY host_id, remote_ip
pub record TargetKey : Type 0 where
  pub host_id : ℕ
  pub remote_ip : String

unfoldable pub same_target : TargetKey → TargetKey → Bool
same_target a b = (a.host_id == b.host_id) && str_eq a.remote_ip b.remote_ip

pub same_target_iff : (a b : TargetKey) → (same_target a b ≡ true) ↔ (a ≡ b)
unfolding same_target
same_target_iff a b = ground (arith, str_eq_iff a.remote_ip b.remote_ip)

instance abbrev pub target_key_eq : Eq TargetKey
target_key_eq = record { beq = same_target; beq_iff = same_target_iff }

-- The distinct ports of a group, in the order in which they are first met.
unfoldable pub has_port : ℕ → List ℕ → Bool
has_port p [] = false
has_port p (q ∷ rest) = (q == p) || has_port p rest

unfoldable pub with_port : ℕ → Option (List ℕ) → List ℕ
unfolding has_port
with_port p none = p ∷ []
with_port p (some ports) = if has_port p ports then ports else p ∷ ports

unfoldable pub port_of : Bool → FlowRecord → ℕ
port_of count_local_port f = if count_local_port then f.local_port else f.remote_port

unfoldable pub ports_by_target : Bool → List FlowRecord → List (TargetKey × List ℕ)
unfolding alter with_port port_of
ports_by_target count_local_port [] = []
ports_by_target count_local_port (f ∷ rest) =
    alter (with_port (port_of count_local_port f))
      (record { host_id = f.host_id; remote_ip = f.remote_ip })
      (ports_by_target count_local_port rest)

-- The groups with at least `min_ports` ports; PortCount is the length of the list, PortsCSV the
-- list as text.
unfoldable pub host_target_port_scans :
    Bool → ℕ → ℕ → ℕ → Bool → ℕ → List FlowRecord → Result (List (TargetKey × List ℕ))
unfolding ports_by_target
host_target_port_scans fails since now direction count_local_port min_ports t =
    if fails
    then err db_failed
    else ok (
        rows_where (λ g. leb min_ports (length g.1))
          (ports_by_target count_local_port
            (rows_where (λ f. (f.direction == direction) && seen_in since now f) t)))
