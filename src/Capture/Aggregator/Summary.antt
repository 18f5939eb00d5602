-- ===== src/Capture/Aggregator/Summary.antt =====
-- The aggregator against its meaning: between two drains the entry of a key is the summary of the
-- key's events.
use shadow_stat.Base.{
  ℕ, ◌+◌, ◌%◌, ◌^◌, ◌≡◌, refl, sym, ◌∙◌, Bool, inl, inr, Option, none, some, List, [], ◌∷◌, arith,
  ltb, if◌then◌else◌, rows_where, sum_of, Bool-cases,
}
use shadow_stat.Base.Assoc.{lookup, lookup-alter}
use shadow_stat.Capture.Aggregator.{
  FlowKey, FlowEvent, FlowAccum, same_key, flow_key_eq, add_int64, count_event, updated, add, drain,
}

-- Add of each event in turn.
unfoldable pub add_all : List FlowEvent → List (FlowKey × FlowAccum) → List (FlowKey × FlowAccum)
unfolding add
add_all [] table = table
add_all (evt ∷ rest) table = add_all rest (add evt table)

abbrev pub earliest : ℕ → List FlowEvent → ℕ
earliest t [] = t
earliest t (evt ∷ rest) = earliest (if ltb evt.timestamp t then evt.timestamp else t) rest

abbrev pub latest : ℕ → List FlowEvent → ℕ
latest t [] = t
latest t (evt ∷ rest) = latest (if ltb t evt.timestamp then evt.timestamp else t) rest

abbrev pub sent_of : FlowEvent → ℕ
sent_of evt = if evt.is_local_src then evt.bytes else 0

abbrev pub recv_of : FlowEvent → ℕ
recv_of evt = if evt.is_local_src then 0 else evt.bytes

abbrev pub one_sent : FlowEvent → ℕ
one_sent evt = if evt.is_local_src then 1 else 0

abbrev pub one_recv : FlowEvent → ℕ
one_recv evt = if evt.is_local_src then 0 else 1

-- What the events of one flow add up to: the first and last time, and the sums in 64 bits.
abbrev pub summary : List FlowEvent → Option FlowAccum
summary [] = none
summary (evt ∷ rest) = some (record {
  first_seen = earliest evt.timestamp rest;
  last_seen = latest evt.timestamp rest;
  bytes_sent = sum_of sent_of (evt ∷ rest) % 2 ^ 64;
  bytes_recv = sum_of recv_of (evt ∷ rest) % 2 ^ 64;
  packets_sent = sum_of one_sent (evt ∷ rest) % 2 ^ 64;
  packets_recv = sum_of one_recv (evt ∷ rest) % 2 ^ 64;
})

-- The events of one entry, counted one by one.
unfoldable absorb : List FlowEvent → Option FlowAccum → Option FlowAccum
unfolding updated
absorb [] entry = entry
absorb (evt ∷ rest) entry = absorb rest (some (updated evt entry))

-- One more event reaches the entry of its own key only.
lookup-add :
    (k : FlowKey) (evt : FlowEvent) (table : List (FlowKey × FlowAccum))
    → lookup k (add evt table)
      ≡ (if same_key evt.key k then some (updated evt (lookup k table)) else lookup k table)
unfolding add
lookup-add k evt table = lookup-alter (updated evt) evt.key k table

lookup-add_all :
    (k : FlowKey) (evts : List FlowEvent) (table : List (FlowKey × FlowAccum))
    → lookup k (add_all evts table)
      ≡ absorb (rows_where (λ e. same_key e.key k) evts) (lookup k table)
unfolding add_all absorb
lookup-add_all k [] table = refl
lookup-add_all k (evt ∷ rest) table =
    ground (arith, lookup-add k evt table, lookup-add_all k rest (add evt table))

abbrev accum : ℕ → ℕ → ℕ → ℕ → ℕ → ℕ → FlowAccum
accum first last bs br ps pr = record {
  first_seen = first;
  last_seen = last;
  bytes_sent = bs % 2 ^ 64;
  bytes_recv = br % 2 ^ 64;
  packets_sent = ps % 2 ^ 64;
  packets_recv = pr % 2 ^ 64;
}

mod_add : (a b : ℕ) → (a % 2 ^ 64 + b) % 2 ^ 64 ≡ (a + b) % 2 ^ 64
mod_add a b = omega arith

add_zero : (a : ℕ) → a + 0 ≡ a
add_zero a = omega arith

-- An event counts on one side of an entry and changes nothing on the other.
count_event-accum :
    (evt : FlowEvent) (first last bs br ps pr : ℕ)
    → count_event evt (accum first last bs br ps pr)
      ≡ accum
          (if ltb evt.timestamp first then evt.timestamp else first)
          (if ltb last evt.timestamp then evt.timestamp else last)
          (bs + sent_of evt)
          (br + recv_of evt)
          (ps + one_sent evt)
          (pr + one_recv evt)
unfolding count_event add_int64
count_event-accum evt first last bs br ps pr = elim (Bool-cases evt.is_local_src) [
  | inl local ↦
      rw local
        (rw (mod_add bs evt.bytes) (rw (mod_add ps 1) (rw (add_zero br) (rw (add_zero pr) refl))))
  | inr remote ↦
      rw remote
        (rw (mod_add br evt.bytes) (rw (mod_add pr 1) (rw (add_zero bs) (rw (add_zero ps) refl))))
]

add_assoc : (a b c : ℕ) → a + b + c ≡ a + (b + c)
add_assoc a b c = omega arith

-- Counting events into an entry adds their sums to its counters.
absorb-accum :
    (evts : List FlowEvent) (first last bs br ps pr : ℕ)
    → absorb evts (some (accum first last bs br ps pr))
      ≡ some (
          accum
            (earliest first evts)
            (latest last evts)
            (bs + sum_of sent_of evts)
            (br + sum_of recv_of evts)
            (ps + sum_of one_sent evts)
            (pr + sum_of one_recv evts))
unfolding absorb updated
absorb-accum [] first last bs br ps pr =
    rw (add_zero bs) (rw (add_zero br) (rw (add_zero ps) (rw (add_zero pr) refl)))
absorb-accum (evt ∷ rest) first last bs br ps pr =
    rw (count_event-accum evt first last bs br ps pr) (
      rw (sym (add_assoc bs (sent_of evt) (sum_of sent_of rest))) (
        rw (sym (add_assoc br (recv_of evt) (sum_of recv_of rest))) (
          rw (sym (add_assoc ps (one_sent evt) (sum_of one_sent rest))) (
            rw (sym (add_assoc pr (one_recv evt) (sum_of one_recv rest))) (
              absorb-accum rest (if ltb evt.timestamp first then evt.timestamp else first)
                (if ltb last evt.timestamp then evt.timestamp else last) (bs + sent_of evt)
                (br + recv_of evt) (ps + one_sent evt) (pr + one_recv evt))))))

zero_add : (a : ℕ) → 0 + a ≡ a
zero_add a = omega arith

if_same : (b : Bool) (n : ℕ) → (if b then n else n) ≡ n
if_same b n = ground arith

absorb-summary : (evts : List FlowEvent) → absorb evts none ≡ summary evts
unfolding absorb updated
absorb-summary [] = refl
absorb-summary (evt ∷ rest) = rw (count_event-accum evt evt.timestamp evt.timestamp 0 0 0 0) (
    rw
      (absorb-accum rest (if ltb evt.timestamp evt.timestamp then evt.timestamp else evt.timestamp)
        (if ltb evt.timestamp evt.timestamp then evt.timestamp else evt.timestamp) (0 + sent_of evt)
        (0 + recv_of evt) (0 + one_sent evt) (0 + one_recv evt))
      (rw (if_same (ltb evt.timestamp evt.timestamp) evt.timestamp) (
        rw (zero_add (sent_of evt)) (
          rw (zero_add (recv_of evt))
            (rw (zero_add (one_sent evt)) (rw (zero_add (one_recv evt)) refl))))))

-- After any events are added to an empty aggregator, what a drain hands out for a key is the
-- summary of the events of that key: nothing when there are none; else the earliest and latest
-- time, and the sums of bytes and packets sent and received, each modulo 2 ^ 64.
pub drain-add_all-eq-summary :
    (k : FlowKey) (evts : List FlowEvent)
    → lookup k ((drain (add_all evts [])).0) ≡ summary (rows_where (λ e. same_key e.key k) evts)
unfolding drain lookup
drain-add_all-eq-summary k evts =
    lookup-add_all k evts [] ∙ absorb-summary (rows_where (λ e. same_key e.key k) evts)
