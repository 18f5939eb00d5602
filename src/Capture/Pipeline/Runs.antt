-- ===== src/Capture/Pipeline/Runs.antt =====
-- What holds in every run of the pipeline, whichever calls of the store fail.
use shadow_stat.Base.{
  ℕ, ◌≡◌, refl, ◌∙◌, String, Option, none, some, List, [], ◌∷◌, inl, inr, Bool-cases, Option-cases,
  string_eq, str_eq, ◌||◌,
}
use shadow_stat.Base.Assoc.{lookup}
use shadow_stat.Store.Hosts.{Hosts, upsert_host, upsert_dhcp_hostname}
use shadow_stat.Store.Hosts.Lookup.{
  Keeps, Keeps-refl, Keeps-trans, upsert_host-IsUpserted, named-Keeps,
}
use shadow_stat.Capture.Decode.{Lan, Parser, RawPacket, DhcpHostnameEvent, DnsQueryEvent, decode}
use shadow_stat.Capture.Aggregator.{FlowEvent, drain}
use shadow_stat.Capture.Pipeline.{
  Pipeline, Store, Failures, is_bumped, refresh_mac, resolve_host, on_packet, remember_mac,
  add_flow, add_dns, add_dhcp, new_pipeline,
}
use shadow_stat.Capture.Pipeline.Flush.{
  resolve_each, flush_flows, flush_dns, flush_dhcp, flush, upsert_hostnames, upsert_hostname, Event,
  packet, flushes, run, flow_record, dns_record,
}
use shadow_stat.Capture.Pipeline.Cache.{IsCached, IsCached-kept, insert-IsCached, refresh_mac-Keeps}

-- The step from one pipeline and table to the next keeps the hosts, and a cache that agrees with
-- them.
pub record Agrees (p : Pipeline) (t : Hosts) (p' : Pipeline) (t' : Hosts) : Type 0 where
  pub keeps : Keeps t t'
  pub cached : IsCached p.host_cache t → IsCached p'.host_cache t'

pub Agrees-trans :
    (p q r : Pipeline) (a b c : Hosts) → Agrees p a q b → Agrees q b r c → Agrees p a r c
Agrees-trans p q r a b c h k = record {
  keeps = Keeps-trans a b c h.keeps k.keeps;
  cached = λ x. k.cached (h.cached x);
}

kept-Agrees :
    (p q : Pipeline) (t t' : Hosts) → q.host_cache ≡ p.host_cache → Keeps t t' → Agrees p t q t'
kept-Agrees p q t t' same k = record {
  keeps = k;
  cached = λ c. rw same (IsCached-kept p.host_cache t t' k c);
}

pub resolve_host-Agrees :
    (e : Failures) (ip : String) (now : ℕ) (p : Pipeline) (t : Hosts)
    → Agrees p t (resolve_host e ip now p t).1.0 (resolve_host e ip now p t).1.1
unfolding resolve_host upsert_host
resolve_host-Agrees e ip now p t = elim (Bool-cases (is_bumped ip p.bumped_this_flush)) [
  | inl done ↦ rw (resolve_host, done) (kept-Agrees p p t t refl (Keeps-refl t))
  | inr fresh ↦ elim (Option-cases (lookup ip p.host_cache)) [
    | inl absent ↦ elim (Bool-cases (e.upsert_host_of ip)) [
      | inl fails ↦
          rw (resolve_host, fresh, absent, fails) (kept-Agrees p _ t t refl (Keeps-refl t))
      | inr works ↦
          let u = upsert_host-IsUpserted ip now t in
          rw (resolve_host, fresh, absent, works, u.2)
            (let k = refresh_mac-Keeps e ip u.0 p u.1 in
              record {
                keeps = Keeps-trans t u.1 (refresh_mac e ip u.0 p u.1) (u.3).keeps k;
                cached = λ c.
                    IsCached-kept _ u.1 (refresh_mac e ip u.0 p u.1) k
                      (insert-IsCached ip u.0 p.host_cache t u.1 u.3 c);
              })
    ]
    | inr (id, there) ↦ elim (Bool-cases (e.upsert_host_of ip)) [
      | inl fails ↦
          rw (resolve_host, fresh, there, fails)
            (kept-Agrees p _ t (refresh_mac e ip id p t) refl (refresh_mac-Keeps e ip id p t))
      | inr works ↦
          let u = upsert_host-IsUpserted ip now t in
          rw (resolve_host, fresh, there, works, u.2)
            (kept-Agrees p _ t (refresh_mac e ip id p u.1) refl
              (Keeps-trans t u.1 _ (u.3).keeps (refresh_mac-Keeps e ip id p u.1)))
    ]
  ]
]

pub resolve_each-Agrees :
    {A R : Type 0} (ip_of : A → String) (make : ℕ → A → R) (e : Failures) (now : ℕ) (xs : List A)
    (p : Pipeline) (t : Hosts)
    → Agrees p t
        (resolve_each ip_of make e now xs p t).1.0
        (resolve_each ip_of make e now xs p t).1.1
unfolding resolve_each
resolve_each-Agrees ip_of make e now [] p t = kept-Agrees p p t t refl (Keeps-refl t)
resolve_each-Agrees ip_of make e now (x ∷ rest) p t =
    let r = resolve_host e (ip_of x) now p t in
    Agrees-trans p r.1.0 _ t r.1.1 _ (resolve_host-Agrees e (ip_of x) now p t)
      (resolve_each-Agrees ip_of make e now rest r.1.0 r.1.1)

upsert_hostname-Keeps :
    (e : Failures) (ev : DhcpHostnameEvent) (t : Hosts) → Keeps t (upsert_hostname e ev t)
unfolding upsert_hostname upsert_dhcp_hostname
upsert_hostname-Keeps e ev t = elim (Bool-cases (str_eq ev.mac "" || str_eq ev.hostname "")) [
  | inl skip ↦ rw (upsert_hostname, skip) (Keeps-refl t)
  | inr keep ↦ elim (Bool-cases (e.upsert_dhcp_of ev.mac)) [
    | inl fails ↦ rw (upsert_hostname, keep, fails) (Keeps-refl t)
    | inr works ↦ rw (upsert_hostname, keep, works) (named-Keeps ev.mac ev.hostname t _)
  ]
]

upsert_hostnames-Keeps :
    (e : Failures) (evs : List DhcpHostnameEvent) (t : Hosts) → Keeps t (upsert_hostnames e evs t)
unfolding upsert_hostnames
upsert_hostnames-Keeps e [] t = Keeps-refl t
upsert_hostnames-Keeps e (ev ∷ rest) t =
    Keeps-trans t (upsert_hostname e ev t) _ (upsert_hostname-Keeps e ev t)
      (upsert_hostnames-Keeps e rest (upsert_hostname e ev t))

flush_flows-Agrees :
    (e : Failures) (now : ℕ) (p : Pipeline) (s : Store)
    → Agrees p s.hosts (flush_flows e now p s).0 (flush_flows e now p s).1.hosts
unfolding flush_flows drain
flush_flows-Agrees e now p s =
    let a =
      resolve_each-Agrees (λ entry. (entry.0).local_ip) (λ id entry. flow_record id entry.0 entry.1)
        e now p.agg (record p { agg = []; bumped_this_flush = [] }) s.hosts in
    record { keeps = a.keeps; cached = a.cached }

flush_dns-Agrees :
    (e : Failures) (now : ℕ) (p : Pipeline) (s : Store)
    → Agrees p s.hosts (flush_dns e now p s).0 (flush_dns e now p s).1.hosts
unfolding flush_dns
flush_dns-Agrees e now p s =
    let a =
      resolve_each-Agrees (λ q. q.local_ip) dns_record e now p.dns_buf (record p { dns_buf = [] })
        s.hosts in
    record { keeps = a.keeps; cached = a.cached }

flush-Agrees :
    (e : Failures) (now : ℕ) (p : Pipeline) (s : Store)
    → Agrees p s.hosts (flush e now (p, s)).0 (flush e now (p, s)).1.hosts
unfolding flush flush_dhcp
flush-Agrees e now p s =
    let a = flush_flows e now p s in
    let b = flush_dns e now a.0 a.1 in
    Agrees-trans p b.0 _ s.hosts (b.1).hosts _
      (Agrees-trans p a.0 b.0 s.hosts (a.1).hosts (b.1).hosts (flush_flows-Agrees e now p s)
        (flush_dns-Agrees e now a.0 a.1))
      (kept-Agrees b.0 _ (b.1).hosts _ refl (upsert_hostnames-Keeps e (b.0).dhcp_buf (b.1).hosts))

add_flow-host_cache :
    (flow : Option FlowEvent) (p : Pipeline) → (add_flow flow p).host_cache ≡ p.host_cache
unfolding remember_mac
add_flow-host_cache none p = refl
add_flow-host_cache (some flow) p = elim (Bool-cases (str_eq flow.local_mac "")) [
  | inl empty ↦ rw (remember_mac, empty) refl
  | inr full ↦ rw (remember_mac, full) refl
]

add_dns-host_cache :
    (q : Option DnsQueryEvent) (p : Pipeline) → (add_dns q p).host_cache ≡ p.host_cache
add_dns-host_cache none p = refl
add_dns-host_cache (some q) p = refl

add_dhcp-host_cache :
    (ev : Option DhcpHostnameEvent) (p : Pipeline) → (add_dhcp ev p).host_cache ≡ p.host_cache
add_dhcp-host_cache none p = refl
add_dhcp-host_cache (some ev) p = refl

on_packet-host_cache :
    (parser : Parser) (lan : Lan) (now : ℕ) (pkt : RawPacket) (p : Pipeline)
    → (on_packet parser lan now pkt p).host_cache ≡ p.host_cache
unfolding on_packet
on_packet-host_cache parser lan now pkt p =
    let r = decode parser lan now pkt in
    add_dhcp-host_cache r.dhcp (add_dns r.dns (add_flow r.flow2 (add_flow r.flow p)))
    ∙ add_dns-host_cache r.dns (add_flow r.flow2 (add_flow r.flow p))
    ∙ add_flow-host_cache r.flow2 (add_flow r.flow p)
    ∙ add_flow-host_cache r.flow p

run-Agrees :
    (parser : Parser) (lan : Lan) (evs : List Event) (p : Pipeline) (s : Store)
    → Agrees p s.hosts (run parser lan evs (p, s)).0 (run parser lan evs (p, s)).1.hosts
unfolding run
run-Agrees parser lan [] p s = kept-Agrees p p s.hosts s.hosts refl (Keeps-refl s.hosts)
run-Agrees parser lan (packet now pkt ∷ rest) p s =
    Agrees-trans p (on_packet parser lan now pkt p) _ s.hosts s.hosts _
      (kept-Agrees p _ s.hosts s.hosts (on_packet-host_cache parser lan now pkt p)
        (Keeps-refl s.hosts))
      (run-Agrees parser lan rest (on_packet parser lan now pkt p) s)
run-Agrees parser lan (flushes e now ∷ rest) p s =
    Agrees-trans p (flush e now (p, s)).0 _ s.hosts (flush e now (p, s)).1.hosts _
      (flush-Agrees e now p s)
      (run-Agrees parser lan rest (flush e now (p, s)).0 (flush e now (p, s)).1)

-- In every run from the start of the process, whichever packets come and whichever calls of the
-- store fail, the id that is cached for an address is the id of a host with that address, and no
-- host that was there is lost.
pub run-IsCached :
    (parser : Parser) (lan : Lan) (evs : List Event) (s : Store)
    → IsCached
        (run parser lan evs (new_pipeline, s)).0.host_cache
        (run parser lan evs (new_pipeline, s)).1.hosts
      × Keeps s.hosts (run parser lan evs (new_pipeline, s)).1.hosts
unfolding lookup
run-IsCached parser lan evs s =
    let a = run-Agrees parser lan evs new_pipeline s in
    (a.cached (record { cached = λ ip id h. cc }), a.keeps)
