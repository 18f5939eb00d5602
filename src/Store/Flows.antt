-- ===== src/Store/Flows.antt =====
-- internal/store/flows.go: the table flows_recent.
pub mod Chunks
use shadow_stat.Base.{
  ℕ, zero, suc, ◌+◌, String, Bool, not, Option, none, some, List, [], ◌∷◌, ◌++◌, ltb, if◌then◌else◌,
  length, take, drop, rows_where,
}

abbrev pub dir_lan_to_wan : ℕ
dir_lan_to_wan = 0

abbrev pub dir_wan_to_lan : ℕ
dir_wan_to_lan = 1

-- this host initiated contact with another LAN-local peer
abbrev pub dir_lan_out : ℕ
dir_lan_out = 2

-- another LAN-local peer initiated contact with this host
abbrev pub dir_lan_in : ℕ
dir_lan_in = 3

pub record FlowRecord : Type 0 where
  pub host_id : ℕ
  pub direction : ℕ
  pub proto : ℕ
  pub local_ip : String
  pub local_port : ℕ
  pub remote_ip : String
  pub remote_port : ℕ
  pub first_seen : ℕ
  pub last_seen : ℕ
  pub bytes_sent : ℕ
  pub bytes_recv : ℕ
  pub packets_sent : ℕ
  pub packets_recv : ℕ

abbrev pub flow_insert_chunk : ℕ
flow_insert_chunk = 500

-- The loop over the chunks inside the transaction: `fails i` is an error of the i-th INSERT, on
-- which the transaction is rolled back. Each round takes at least one record, so their number is
-- fuel enough.
unfoldable pub insert_chunks {ℓ} :
    {A : Type ℓ} → (ℕ → Bool) → ℕ → ℕ → List A → List A → Option (List A)
insert_chunks fails fuel i table [] = some table
insert_chunks fails zero i table (r ∷ rest) = none
insert_chunks fails (suc fuel) i table (r ∷ rest) =
    let next =
      insert_chunks fails fuel (i + 1) (table ++ take flow_insert_chunk (r ∷ rest))
        (drop flow_insert_chunk (r ∷ rest)) in
    if fails i then none else next

-- InsertFlows and InsertDNSQueries: the table after a commit, or `none` after an error. `begin`
-- and `commit` say whether those calls fail.
unfoldable pub insert_in_transaction {ℓ} :
    {A : Type ℓ} → Bool → Bool → (ℕ → Bool) → List A → List A → Option (List A)
unfolding insert_chunks
insert_in_transaction begin_fails commit_fails fails [] table = some table
insert_in_transaction begin_fails commit_fails fails (r ∷ rest) table =
    if begin_fails
    then none
    else if commit_fails
    then none
    else insert_chunks fails (length (r ∷ rest)) 0 table (r ∷ rest)

unfoldable pub prune_flows_recent : ℕ → List FlowRecord → List FlowRecord
prune_flows_recent cutoff flows = rows_where (λ f. not (ltb f.last_seen cutoff)) flows
