-- ===== src/Store/Dns.antt =====
-- internal/store/dns.go: the table `dns_queries`. InsertDNSQueries is the batch insertion of
-- Store/Flows, with the same size of a chunk.
use shadow_stat.Base.{
  ℕ, suc, String, Bool, ◌&&◌, not, Option, none, some, List, [], ◌∷◌, ltb, leb, if◌then◌else◌,
  nat_eq, rows_where, map,
}
use shadow_stat.Base.Assoc.{alter}
use shadow_stat.Store.Driver.{Result, ok, err, db_failed}

pub record DnsQueryRecord : Type 0 where
  pub host_id : ℕ
  pub qname : String
  pub qtype : ℕ
  pub ts : ℕ

unfoldable pub prune_dns_queries : Bool → ℕ → List DnsQueryRecord → Result (List DnsQueryRecord)
prune_dns_queries fails cutoff t =
    if fails then err db_failed else ok (rows_where (λ q. not (ltb q.ts cutoff)) t)

abbrev pub queried_in : ℕ → ℕ → DnsQueryRecord → Bool
queried_in since now q = leb since q.ts && leb q.ts now

abbrev pub one_more : Option ℕ → ℕ
one_more none = 1
one_more (some n) = suc n

-- COUNT(*) … GROUP BY host_id
unfoldable pub count_queries : List DnsQueryRecord → List (ℕ × ℕ)
unfolding alter
count_queries [] = []
count_queries (q ∷ rest) = alter one_more q.host_id (count_queries rest)

unfoldable pub dns_query_counts : Bool → ℕ → ℕ → List DnsQueryRecord → Result (List (ℕ × ℕ))
unfolding count_queries
dns_query_counts fails since now t =
    if fails then err db_failed else ok (count_queries (rows_where (queried_in since now) t))

pub record DnsQueryRow : Type 0 where
  pub host_id : ℕ
  pub qname : String
  pub ts : ℕ

abbrev pub query_row : DnsQueryRecord → DnsQueryRow
query_row q = record { host_id = q.host_id; qname = q.qname; ts = q.ts }

unfoldable pub dns_queries_in_range : Bool → ℕ → ℕ → List DnsQueryRecord → Result (List DnsQueryRow)
dns_queries_in_range fails since now t =
    if fails then err db_failed else ok (map query_row (rows_where (queried_in since now) t))
