-- ===== src/Capture/Pipeline/Failing.antt =====
-- A new host whose first UpsertHost of a flush fails: resolveHost has already noted the address, so
-- its next call answers with the zero of a missing map entry, as if it had succeeded.
use shadow_stat.Base.{
  true-false, ℕ, ◌≡◌, ◌≢◌, refl, ap, sym, ◌∙◌, String, Bool, true, false, Option, none, some, List,
  [], ◌∷◌, ◌++◌, ◌⊎◌, arith, str_eq_iff, string_eq, Bool-cases, Option-cases, inl, inr,
}
use shadow_stat.Base.Assoc.{lookup, insert, lookup-insert}
use shadow_stat.Store.Driver.{Result-cases}
use shadow_stat.Store.Flows.{FlowRecord}
use shadow_stat.Store.Hosts.{Hosts, upsert_host}
use shadow_stat.Store.Hosts.Lookup.{HasNoZero}
use shadow_stat.Capture.Aggregator.{FlowKey, FlowAccum, drain}
use shadow_stat.Capture.Pipeline.{Pipeline, Store, Failures, is_bumped, resolve_host}
use shadow_stat.Capture.Pipeline.Flush.{
  resolve_each, references_hold, and_record, insert_records, flow_record, flush_flows,
}
use shadow_stat.Capture.Pipeline.Runs.{resolve_each-Agrees}

-- What a call of resolveHost does to the fields that the later calls read: it notes the address,
-- unless it is noted, and the cache gets an entry for that address only if its upsert works.
record Notes (e : Failures) (ip : String) (p q : Pipeline) : Type 0 where
  agg : q.agg ≡ p.agg
  noted :
      (q.bumped_this_flush ≡ ip ∷ p.bumped_this_flush)
      ⊎ ((is_bumped ip p.bumped_this_flush ≡ true) × (q.bumped_this_flush ≡ p.bumped_this_flush))
  cached :
      (q.host_cache ≡ p.host_cache)
      ⊎ ((id : ℕ) × (e.upsert_host_of ip ≡ false) × (q.host_cache ≡ insert ip id p.host_cache))

resolve_host-Notes :
    (e : Failures) (ip : String) (now : ℕ) (p : Pipeline) (t : Hosts)
    → Notes e ip p (resolve_host e ip now p t).1.0
unfolding resolve_host upsert_host
resolve_host-Notes e ip now p t = elim (Bool-cases (is_bumped ip p.bumped_this_flush)) [
  | inl done ↦
      rw (resolve_host, done) (record { agg = refl; noted = inr (done, refl); cached = inl refl })
  | inr fresh ↦ elim (Option-cases (lookup ip p.host_cache)) [
    | inr (id, there) ↦ elim (Result-cases (upsert_host (e.upsert_host_of ip) ip now t)) [
      | inl (x, fails) ↦
          rw (resolve_host, fresh, there, fails)
            (record { agg = refl; noted = inl refl; cached = inl refl })
      | inr (u, works) ↦
          rw (resolve_host, fresh, there, works)
            (record { agg = refl; noted = inl refl; cached = inl refl })
    ]
    | inl absent ↦ elim (Bool-cases (e.upsert_host_of ip)) [
      | inl fails ↦
          rw (resolve_host, fresh, absent, fails)
            (record { agg = refl; noted = inl refl; cached = inl refl })
      | inr fine ↦ elim (Result-cases (upsert_host (e.upsert_host_of ip) ip now t)) [
        | inl (x, fails) ↦
            rw (resolve_host, fresh, absent, fails)
              (record { agg = refl; noted = inl refl; cached = inl refl })
        | inr (u, works) ↦
            rw (resolve_host, fresh, absent, works)
              (record { agg = refl; noted = inl refl; cached = inr (u.0, fine, refl) })
      ]
    ]
  ]
]

lookup-insert_other :
    (other ip : String) (id : ℕ) (m : List (String × ℕ))
    → other ≢ ip
    → lookup ip (insert other id m) ≡ lookup ip m
lookup-insert_other other ip id m h =
    ground (arith, lookup-insert other ip id m, str_eq_iff other ip)

-- The address of a failing upsert stays out of the cache.
resolve_host-absent :
    (e : Failures) (ip other : String) (now : ℕ) (p : Pipeline) (t : Hosts)
    → e.upsert_host_of ip ≡ true
    → lookup ip p.host_cache ≡ none
    → lookup ip (resolve_host e other now p t).1.0.host_cache ≡ none
resolve_host-absent e ip other now p t fails absent =
    elim ((resolve_host-Notes e other now p t).cached) [
      | inl same ↦ ap (λ c. lookup ip c) same ∙ absent
      | inr (id, works, added) ↦
          ap (λ c. lookup ip c) added
          ∙ lookup-insert_other other ip id p.host_cache
              (λ same. true-false (sym fails ∙ ap (λ i. e.upsert_host_of i) (sym same) ∙ works))
          ∙ absent
    ]

-- A noted address stays noted.
resolve_host-noted :
    (e : Failures) (ip other : String) (now : ℕ) (p : Pipeline) (t : Hosts)
    → is_bumped ip p.bumped_this_flush ≡ true
    → is_bumped ip (resolve_host e other now p t).1.0.bumped_this_flush ≡ true
resolve_host-noted e ip other now p t done = elim ((resolve_host-Notes e other now p t).noted) [
  | inl more ↦ ap (is_bumped ip) more ∙ ground arith
  | inr (_, same) ↦ ap (is_bumped ip) same ∙ done
]

-- A call notes its address.
resolve_host-notes :
    (e : Failures) (ip : String) (now : ℕ) (p : Pipeline) (t : Hosts)
    → is_bumped ip (resolve_host e ip now p t).1.0.bumped_this_flush ≡ true
resolve_host-notes e ip now p t = elim ((resolve_host-Notes e ip now p t).noted) [
  | inl more ↦ ap (is_bumped ip) more ∙ ground (arith, str_eq_iff ip ip)
  | inr (done, same) ↦ ap (is_bumped ip) same ∙ done
]

resolve_host-zero :
    (e : Failures) (ip : String) (now : ℕ) (p : Pipeline) (t : Hosts)
    → lookup ip p.host_cache ≡ none
    → is_bumped ip p.bumped_this_flush ≡ true
    → (resolve_host e ip now p t).0 ≡ some 0
unfolding resolve_host
resolve_host-zero e ip now p t absent done = rw (resolve_host, done, absent) refl

module _ {R : Type 0} (host_of : R → ℕ) (t : Hosts) where
  references_hold-zero :
      (o : Option ℕ) (make : ℕ → R) (rest : List R)
      → o ≡ some 0
      → host_of (make 0) ≡ 0
      → HasNoZero t
      → references_hold host_of (and_record o make rest) t ≡ false
  unfolding references_hold
  references_hold-zero o make rest zero h z = rw (zero, h, z.absent) refl

  references_hold-more :
      (o : Option ℕ) (make : ℕ → R) (rest : List R)
      → references_hold host_of rest t ≡ false
      → references_hold host_of (and_record o make rest) t ≡ false
  unfolding references_hold
  references_hold-more none make rest h = h
  references_hold-more (some id) make rest h = ground arith

module _ {A R : Type 0} (ip_of : A → String) (make : ℕ → A → R) (host_of : R → ℕ) (e : Failures)
    (now : ℕ) (ip : String) (y : A) (rest : List A) (now_there : Hosts) where
  -- Once the address is noted without a cached id, its next item gets the id 0.
  second_dangles :
      (p : Pipeline) (t : Hosts) (between : List A)
      → e.upsert_host_of ip ≡ true
      → ip_of y ≡ ip
      → host_of (make 0 y) ≡ 0
      → HasNoZero now_there
      → lookup ip p.host_cache ≡ none
      → is_bumped ip p.bumped_this_flush ≡ true
      → references_hold host_of
          (resolve_each ip_of make e now (between ++ y ∷ rest) p t).0
          now_there
        ≡ false
  unfolding resolve_each
  second_dangles p t [] fails hy zero z absent done =
      references_hold-zero host_of now_there (resolve_host e (ip_of y) now p t).0 (λ id. make id y)
        _ (ap (λ i. (resolve_host e i now p t).0) hy ∙ resolve_host-zero e ip now p t absent done)
        zero z
  second_dangles p t (x ∷ between) fails hy zero z absent done =
      references_hold-more host_of now_there (resolve_host e (ip_of x) now p t).0 (λ id. make id x)
        _
        (second_dangles (resolve_host e (ip_of x) now p t).1.0
          (resolve_host e (ip_of x) now p t).1.1 between fails hy zero z
          (resolve_host-absent e ip (ip_of x) now p t fails absent)
          (resolve_host-noted e ip (ip_of x) now p t done))

  -- Two items of the address, wherever they stand.
  first_dangles :
      (p : Pipeline) (t : Hosts) (before between : List A) (x : A)
      → e.upsert_host_of ip ≡ true
      → ip_of x ≡ ip
      → ip_of y ≡ ip
      → host_of (make 0 y) ≡ 0
      → HasNoZero now_there
      → lookup ip p.host_cache ≡ none
      → references_hold host_of
          (resolve_each ip_of make e now (before ++ x ∷ between ++ y ∷ rest) p t).0
          now_there
        ≡ false
  unfolding resolve_each
  first_dangles p t [] between x fails hx hy zero z absent =
      references_hold-more host_of now_there (resolve_host e (ip_of x) now p t).0 (λ id. make id x)
        _
        (second_dangles (resolve_host e (ip_of x) now p t).1.0
          (resolve_host e (ip_of x) now p t).1.1 between fails hy zero z
          (resolve_host-absent e ip (ip_of x) now p t fails absent)
          (ap (λ i. is_bumped ip (resolve_host e i now p t).1.0.bumped_this_flush) hx
            ∙ resolve_host-notes e ip now p t))
  first_dangles p t (w ∷ before) between x fails hx hy zero z absent =
      references_hold-more host_of now_there (resolve_host e (ip_of w) now p t).0 (λ id. make id w)
        _
        (first_dangles (resolve_host e (ip_of w) now p t).1.0 (resolve_host e (ip_of w) now p t).1.1
          before between x fails hx hy zero z
          (resolve_host-absent e ip (ip_of w) now p t fails absent))

insert_records-refused :
    {R : Type 0} (host_of : R → ℕ) (b c : Bool) (fails : ℕ → Bool) (rs table : List R) (t : Hosts)
    → references_hold host_of rs t ≡ false
    → insert_records host_of b c fails rs t table ≡ table
unfolding insert_records
insert_records-refused host_of b c fails rs table t h = rw (insert_records, h) refl

resolve_each-agg :
    {A R : Type 0} (ip_of : A → String) (make : ℕ → A → R) (e : Failures) (now : ℕ) (xs : List A)
    (p : Pipeline) (t : Hosts)
    → (resolve_each ip_of make e now xs p t).1.0.agg ≡ p.agg
unfolding resolve_each
resolve_each-agg ip_of make e now [] p t = refl
resolve_each-agg ip_of make e now (x ∷ rest) p t =
    let r = resolve_host e (ip_of x) now p t in
    resolve_each-agg ip_of make e now rest r.1.0 r.1.1
    ∙ (resolve_host-Notes e (ip_of x) now p t).agg

-- The aggregator has two flows of a new address, wherever the drain puts them, and the upsert of
-- that address fails: no flow of the flush, of any host, is stored, even if every other call works,
-- and the aggregator is emptied.
pub flush_flows-loses_all :
    (e : Failures) (now : ℕ) (p : Pipeline) (s : Store) (ip : String) (k j : FlowKey)
    (a b : FlowAccum) (before between rest : List (FlowKey × FlowAccum))
    → p.agg ≡ before ++ (k, a) ∷ between ++ (j, b) ∷ rest
    → k.local_ip ≡ ip
    → j.local_ip ≡ ip
    → lookup ip p.host_cache ≡ none
    → e.upsert_host_of ip ≡ true
    → HasNoZero s.hosts
    → ((flush_flows e now p s).1.flows_recent ≡ s.flows_recent)
      × ((flush_flows e now p s).0.agg ≡ [])
unfolding flush_flows drain
flush_flows-loses_all e now p s ip k j a b before between rest table hk hj absent fails z =
    let ip_of = λ (entry : FlowKey × FlowAccum). (entry.0).local_ip in
    let make = λ (id : ℕ) (entry : FlowKey × FlowAccum). flow_record id entry.0 entry.1 in
    let q = record p { agg = []; bumped_this_flush = [] } in
    let r = resolve_each ip_of make e now p.agg q s.hosts in
    let more = resolve_each-Agrees ip_of make e now p.agg q s.hosts in
    (
      insert_records-refused (λ f. f.host_id) e.begin_flows e.commit_flows e.insert_flows_chunk r.0
          s.flows_recent r.1.1
          (ap
              (λ xs.
                references_hold (λ (f : FlowRecord). f.host_id)
                  (resolve_each ip_of make e now xs q s.hosts).0 r.1.1)
              table
            ∙ first_dangles ip_of make (λ f. f.host_id) e now ip (j, b) rest r.1.1 q s.hosts before
                between (k, a) fails hk hj refl (more.keeps.no_zero z) absent),
      resolve_each-agg ip_of make e now p.agg q s.hosts,
    )
