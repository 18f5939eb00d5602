-- ===== src/Lib.antt =====
-- ShadowStat, a network monitor in Go, as far as its own logic goes.
--
-- Parts, and the files that model them (paths from the repository's root):
-- - Geoip: tools/geoip-gen/main.go builds the table of IPv4 ranges from the registries' claims
--   (Delegated reads their lines, Table and Merge the rest), internal/geoip/geoip.go reads and
--   searches it (Table, Lookup). Codec has the round trip of the file format, Owner the meaning of a
--   table, Chain the whole way. The search is sort.Search of the Go library, written out, with as
--   many rounds of fuel as there are records; its range halves in each round, so they suffice.
-- - Store: internal/store. A table of schema.sql is the list of its rows; a statement is a function
--   on it. Accounts has users.go and sessions.go, Flows the writes of flows.go, Rollup those of
--   rollup.go, Series the queries of both.
--   The SQL engine is read as SQL: constraints, ON DELETE CASCADE, GROUP BY, ON CONFLICT. Any call
--   of the driver may fail (Store.Driver); then it changes nothing.
-- - Auth: internal/auth/session.go. Password verification and the random token are arguments.
-- - Web: internal/web/middleware.go (Middleware), handlers_users.go with login, logout and reauth of
--   handlers_api.go (Users), router.go (Router). The handlers of the other components do not touch
--   the accounts; to the router their answers are an argument. Api has the reads and settings of
--   handlers_api.go, Api/Alerts handlers_alerts.go, over the queries in Store/Series and
--   Store/Alerts/Listing.
-- - Rollupjob: internal/rollupjob/scheduler.go. A tick or an insertion by the capture pipeline is an
--   event, handled to its end; a run is a list of events.
-- - Capture: internal/capture. Aggregator has aggregator.go, Decode decode.go, Pipeline pipeline.go
--   with its flush in Pipeline/Flush. gopacket's reading of a frame and the printing of addresses are
--   a record of functions (Decode.Parser). Store/Hosts has hosts.go and dhcp.go. A run is a list of
--   packets and flushes; which calls of the store fail in a flush is a record of tests.
-- - Detect: internal/detect. Raise has detect.go with the end that the detectors' loops share, Exfil
--   exfil.go, NewDestination new_destination.go, PortScan port_scan.go, DnsAnomaly dns_anomaly.go,
--   GeoWatchlist geo_watchlist.go, Beaconing beaconing.go and Scheduler scheduler.go, whose run is a
--   list of ticks. The order in which Go meets the entries of a map is an argument where it matters.
--   Store/Alerts has alerts.go and known_peers.go, Store/DetectQueries detect_queries.go, Store/Dns
--   dns.go and Store/Settings settings.go.
-- - Config: internal/config. Config itself has config.go and interfaces.go, Wizard firstrun.go, where
--   what is typed is a list of lines, Typed what the lines stand for, Paths paths.go.
-- - Cmd: cmd/root.go, and Cmd/Run cmd/run.go up to the start of the four loops.
--
-- Base has what the parts share: tests and lists over the native numbers, equality as an interface,
-- association lists for Go's maps, counting under UPDATE and DELETE, texts with strings.Split and
-- TrimSpace (Text), Itoa and Atoi (Decimal), and float64 as an interface (Float).
--
-- Times are unix seconds as natural numbers; a difference such as `now - window` stops at 0, which
-- no comparison with a time can tell from a negative cutoff. 32-bit addresses wrap as in Go. Sums of
-- bytes and packets in the store have no bound here: SQLite's integers are exact below 2 ^ 63.
-- A retention of a negative number of days is not modelled.
--
-- Not modelled: reading packets from the network, the decoding of frames by gopacket, TLS, HTML, the
-- opening of the database, the installation as a service.
pub mod Base
pub mod Geoip
pub mod Store
pub mod Rollupjob
pub mod Auth
pub mod Web
pub mod Capture
pub mod Detect
pub mod Config
pub mod Cmd
