-- ===== src/Capture/Aggregator.antt =====
-- internal/capture/aggregator.go, with FlowKey and FlowEvent of capture.go. The mutex makes Add and
-- Drain atomic, so a run of the aggregator is a sequence of them.
pub mod Summary
use shadow_stat.Base.{
  ℕ, ◌+◌, ◌%◌, ◌^◌, ◌≡◌, ◌↔◌, String, Bool, true, ◌&&◌, Option, none, some, List, [], ◌∷◌, arith,
  ltb, if◌then◌else◌, ◌==◌, ==_iff, str_eq, str_eq_iff, Eq,
}
use shadow_stat.Base.Assoc.{alter}

pub record FlowKey : Type 0 where
  pub direction : ℕ
  pub proto : ℕ
  pub local_ip : String
  pub local_port : ℕ
  pub remote_ip : String
  pub remote_port : ℕ

-- Go's == on FlowKey
unfoldable pub same_key : FlowKey → FlowKey → Bool
same_key a b =
    (a.direction == b.direction)
    && (a.proto == b.proto)
    && str_eq a.local_ip b.local_ip
    && (a.local_port == b.local_port)
    && str_eq a.remote_ip b.remote_ip
    && (a.remote_port == b.remote_port)

pub same_key_iff : (a b : FlowKey) → (same_key a b ≡ true) ↔ (a ≡ b)
unfolding same_key
same_key_iff a b =
    ground (arith, str_eq_iff a.local_ip b.local_ip, str_eq_iff a.remote_ip b.remote_ip)

instance abbrev pub flow_key_eq : Eq FlowKey
flow_key_eq = record { beq = same_key; beq_iff = same_key_iff }

pub record FlowEvent : Type 0 where
  pub key : FlowKey
  -- Timestamp.Unix()
  pub timestamp : ℕ
  pub bytes : ℕ
  pub is_local_src : Bool
  pub local_mac : String

pub record FlowAccum : Type 0 where
  pub first_seen : ℕ
  pub last_seen : ℕ
  pub bytes_sent : ℕ
  pub bytes_recv : ℕ
  pub packets_sent : ℕ
  pub packets_recv : ℕ

-- int64 addition; a sum is kept as its 64 bits
unfoldable pub add_int64 : ℕ → ℕ → ℕ
add_int64 a b = (a + b) % 2 ^ 64

abbrev pub new_accum : ℕ → FlowAccum
new_accum ts = record {
  first_seen = ts;
  last_seen = ts;
  bytes_sent = 0;
  bytes_recv = 0;
  packets_sent = 0;
  packets_recv = 0;
}

abbrev pub or_new_accum : ℕ → Option FlowAccum → FlowAccum
or_new_accum ts none = new_accum ts
or_new_accum ts (some acc) = acc

-- What Add does with an entry of the table.
unfoldable pub count_event : FlowEvent → FlowAccum → FlowAccum
unfolding add_int64
count_event evt acc =
    let timed = record acc {
      first_seen = if ltb evt.timestamp acc.first_seen then evt.timestamp else acc.first_seen;
      last_seen = if ltb acc.last_seen evt.timestamp then evt.timestamp else acc.last_seen;
    } in
    if evt.is_local_src
    then record timed {
      bytes_sent = add_int64 acc.bytes_sent evt.bytes;
      packets_sent = add_int64 acc.packets_sent 1;
    }
    else record timed {
      bytes_recv = add_int64 acc.bytes_recv evt.bytes;
      packets_recv = add_int64 acc.packets_recv 1;
    }

unfoldable pub updated : FlowEvent → Option FlowAccum → FlowAccum
unfolding count_event
updated evt entry = count_event evt (or_new_accum evt.timestamp entry)

unfoldable pub add : FlowEvent → List (FlowKey × FlowAccum) → List (FlowKey × FlowAccum)
unfolding updated alter
add evt table = alter (updated evt) evt.key table

-- The drained table, and the fresh one.
unfoldable pub drain :
    List (FlowKey × FlowAccum) → List (FlowKey × FlowAccum) × List (FlowKey × FlowAccum)
drain table = (table, [])
