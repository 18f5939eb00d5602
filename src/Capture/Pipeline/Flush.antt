-- ===== src/Capture/Pipeline/Flush.antt =====
-- The flush of internal/capture/pipeline.go: flows, DNS queries and DHCP hostnames to the store, and
-- Run as a sequence of packets and flushes.
use shadow_stat.Base.{
  ℕ, String, Bool, true, ◌&&◌, ◌||◌, not, Option, none, some, List, [], ◌∷◌, if◌then◌else◌, str_eq,
  count_where, ltb,
}
use shadow_stat.Store.Driver.{ok, err}
use shadow_stat.Store.Flows.{FlowRecord, insert_in_transaction}
use shadow_stat.Store.Dns.{DnsQueryRecord}
use shadow_stat.Store.Hosts.{Hosts, has_host_id, upsert_dhcp_hostname}
use shadow_stat.Capture.Aggregator.{FlowKey, FlowAccum, drain}
use shadow_stat.Capture.Decode.{Lan, Parser, RawPacket, DnsQueryEvent, DhcpHostnameEvent}
use shadow_stat.Capture.Pipeline.{Pipeline, Store, Failures, on_packet, resolve_host}

abbrev pub flow_record : ℕ → FlowKey → FlowAccum → FlowRecord
flow_record host_id key acc = record {
  host_id = host_id;
  direction = key.direction;
  proto = key.proto;
  local_ip = key.local_ip;
  local_port = key.local_port;
  remote_ip = key.remote_ip;
  remote_port = key.remote_port;
  first_seen = acc.first_seen;
  last_seen = acc.last_seen;
  bytes_sent = acc.bytes_sent;
  bytes_recv = acc.bytes_recv;
  packets_sent = acc.packets_sent;
  packets_recv = acc.packets_recv;
}

abbrev pub dns_record : ℕ → DnsQueryEvent → DnsQueryRecord
dns_record host_id q = record {
  host_id = host_id;
  qname = q.qname;
  qtype = q.qtype;
  ts = q.timestamp;
}

abbrev pub and_record {ℓ} : {R : Type ℓ} → Option ℕ → (ℕ → R) → List R → List R
and_record none make rest = rest
and_record (some host_id) make rest = make host_id ∷ rest

-- The loop of flush and of flushDNS: each element's host is resolved, and it becomes a record, or
-- is left out when that fails.
unfoldable pub resolve_each {ℓ κ} :
    {A : Type ℓ} {R : Type κ}
    → (A → String)
    → (ℕ → A → R)
    → Failures
    → ℕ
    → List A
    → Pipeline
    → Hosts
    → List R × (Pipeline × Hosts)
unfolding resolve_host
resolve_each ip_of make e now [] p t = ([], (p, t))
resolve_each ip_of make e now (x ∷ rest) p t =
    let r = resolve_host e (ip_of x) now p t in
    let s = resolve_each ip_of make e now rest r.1.0 r.1.1 in
    (and_record r.0 (λ id. make id x) s.0, s.1)

-- The foreign key: every host_id is a row of `hosts`.
unfoldable pub references_hold {ℓ} : {R : Type ℓ} → (R → ℕ) → List R → Hosts → Bool
references_hold host_of [] t = true
references_hold host_of (r ∷ rest) t =
    ltb 0 (count_where (has_host_id (host_of r)) t.hosts) && references_hold host_of rest t

-- InsertFlows and InsertDNSQueries as the pipeline calls them: an error is logged, and the
-- transaction leaves the table as it was. A row that breaks the foreign key is an error.
unfoldable pub insert_records {ℓ} :
    {R : Type ℓ} → (R → ℕ) → Bool → Bool → (ℕ → Bool) → List R → Hosts → List R → List R
unfolding references_hold insert_in_transaction
insert_records host_of begin_fails commit_fails chunk_fails records t table =
    if not (references_hold host_of records t)
    then table
    else elim (insert_in_transaction begin_fails commit_fails chunk_fails records table) [
      | none ↦ table
      | some table' ↦ table'
    ]

unfoldable pub flush_flows : Failures → ℕ → Pipeline → Store → Pipeline × Store
unfolding resolve_each insert_records drain
flush_flows e now p s =
    let tables = drain p.agg in
    let r =
      resolve_each (λ entry. (entry.0).local_ip) (λ id entry. flow_record id entry.0 entry.1) e now
        tables.0 (record p { agg = tables.1; bumped_this_flush = [] }) s.hosts in
    (
      r.1.0,
      record s {
        hosts = r.1.1;
        flows_recent =
            insert_records (λ f. f.host_id) e.begin_flows e.commit_flows e.insert_flows_chunk r.0
              r.1.1 s.flows_recent;
      },
    )

unfoldable pub flush_dns : Failures → ℕ → Pipeline → Store → Pipeline × Store
unfolding resolve_each insert_records
flush_dns e now p s =
    let r =
      resolve_each (λ q. q.local_ip) dns_record e now p.dns_buf (record p { dns_buf = [] })
        s.hosts in
    (
      r.1.0,
      record s {
        hosts = r.1.1;
        dns_queries =
            insert_records (λ q. q.host_id) e.begin_dns e.commit_dns e.insert_dns_chunk r.0 r.1.1
              s.dns_queries;
      },
    )

-- One hostname; an event with no address or no name is skipped, and an error is logged.
unfoldable pub upsert_hostname : Failures → DhcpHostnameEvent → Hosts → Hosts
unfolding upsert_dhcp_hostname
upsert_hostname e ev t =
    if str_eq ev.mac "" || str_eq ev.hostname ""
    then t
    else elim (upsert_dhcp_hostname (e.upsert_dhcp_of ev.mac) ev.mac ev.hostname ev.timestamp t) [
      | err _ ↦ t
      | ok t' ↦ t'
    ]

unfoldable pub upsert_hostnames : Failures → List DhcpHostnameEvent → Hosts → Hosts
unfolding upsert_hostname
upsert_hostnames e [] t = t
upsert_hostnames e (ev ∷ rest) t = upsert_hostnames e rest (upsert_hostname e ev t)

unfoldable pub flush_dhcp : Failures → Pipeline → Store → Pipeline × Store
unfolding upsert_hostnames
flush_dhcp e p s =
    (record p { dhcp_buf = [] }, record s { hosts = upsert_hostnames e p.dhcp_buf s.hosts })

unfoldable pub flush : Failures → ℕ → Pipeline × Store → Pipeline × Store
unfolding flush_flows flush_dns flush_dhcp
flush e now (p, s) =
    let a = flush_flows e now p s in let b = flush_dns e now a.0 a.1 in flush_dhcp e b.0 b.1

pub data Event : Type 0 where
  packet : (now : ℕ) → RawPacket → Event
  flushes : Failures → (now : ℕ) → Event

unfoldable pub run : Parser → Lan → List Event → Pipeline × Store → Pipeline × Store
unfolding on_packet flush
run parser lan [] s = s
run parser lan (packet now pkt ∷ rest) (p, s) =
    run parser lan rest (on_packet parser lan now pkt p, s)
run parser lan (flushes e now ∷ rest) s = run parser lan rest (flush e now s)
