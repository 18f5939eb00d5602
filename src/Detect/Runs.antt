-- ===== src/Detect/Runs.antt =====
-- Tests of the scheduler, of the port scan, DNS, beaconing and country detectors, and their theorems
-- at concrete flows and queries.
use shadow_stat.Base.{
  ℕ, ◌≡◌, ◌≢◌, refl, String, false, none, some, List, [], ◌∷◌, length, map, leb, ltb, zero, suc,
  if◌then◌else◌, str_eq, str_eq_iff, All, arith, ◌/◌, ◌*◌, ◌+◌, ◌-◌,
}
use shadow_stat.Base.Text.{Text, codes}
use shadow_stat.Base.Decimal.{pos}
use shadow_stat.Base.Float.{Float}
use shadow_stat.Base.Assoc.{lookup}
use shadow_stat.Store.DetectQueries.{sort_by}
use shadow_stat.Store.Flows.{FlowRecord}
use shadow_stat.Store.Settings.{SettingsTable, key_detector_port_scan, key_geo_watchlist_countries}
use shadow_stat.Store.Alerts.{same_peer, alert_kind_port_scan}
use shadow_stat.Store.Alerts.Spacing.{IsSpaced}
use shadow_stat.Detect.Samples.{texts, no_faults, hosts, upload, no_alerts}
use shadow_stat.Detect.Raise.{LoopFaults, OnlyNew, cooldown}
use shadow_stat.Detect.PortScan.Ports.{group_concat, parse_ports_csv, parse_ports_csv-group_concat}
use shadow_stat.Detect.DnsAnomaly.Entropy.{leftmost_label}
use shadow_stat.Detect.GeoWatchlist.{GeoTools, GeoFaults, geo_watchlist}
use shadow_stat.Detect.GeoWatchlist.Watched.{IsWatched, geo_watchlist-OnlyNew}
use shadow_stat.Detect.Scheduler.{
  Detected, Reads, Tick, tick_port_scan, tick_geo, tick_prune, alert_acknowledged, run_scheduler,
}
use shadow_stat.Detect.Scheduler.Ticks.{runs_kind}
use shadow_stat.Detect.Scheduler.Spaced.{run_scheduler-IsSpaced}
use shadow_stat.Detect.Scheduler.Disabled.{count_kind, run_scheduler-disabled}

parse_ports_csv-group_concat_example :
    parse_ports_csv (group_concat (443 ∷ 22 ∷ 8080 ∷ []))
    ≡ map pos (sort_by leb (443 ∷ 22 ∷ 8080 ∷ []))
parse_ports_csv-group_concat_example =
    parse_ports_csv-group_concat (443 ∷ 22 ∷ 8080 ∷ [])
      (omega arith, (omega arith, (omega arith, tt)))

-- Blanks are taken away and what is no number is skipped.
parse_ports_csv-test : parse_ports_csv (codes "80, 7,x,,22") ≡ pos 7 ∷ pos 22 ∷ pos 80 ∷ []
unfolding parse_ports_csv
parse_ports_csv-test = refl

leftmost_label-test : leftmost_label (codes "mail.example.org.") ≡ codes "mail"
unfolding leftmost_label
leftmost_label-test = refl

-- Whole numbers in place of float64
abbrev whole : Float ℕ
whole = record {
  of_int = λ n. n;
  add = λ a b. a + b;
  sub = λ a b. a - b;
  mul = λ a b. a * b;
  div = λ a b. a / b;
  sqrt = λ a. a;
  log2 = λ a. a;
  lt = ltb;
  le = leb;
}

abbrev loop_faults : LoopFaults
loop_faults = record { host_fails = false; raise_faults = no_faults }

abbrev settings : SettingsTable
settings = (key_geo_watchlist_countries, (codes "XA yb")) ∷ []

abbrev to_upper : Text → Text
to_upper [] = []
to_upper (c ∷ s) = (if leb b'a' c then c - 32 else c) ∷ to_upper s

abbrev tools : GeoTools
tools = record {
  to_upper = to_upper;
  parse_ip = λ ip. if str_eq ip "1.2.3.4" then some (some 0x01020304) else none;
  ranges =
      record { start = 0x01020000; end = 0x0102ffff; cc = record { hi = b'Y'; lo = b'B' } } ∷ [];
}

abbrev reads : ℕ → SettingsTable → List FlowRecord → Reads
reads now s flows = record {
  now = now;
  setting_fails = false;
  settings = s;
  flows = flows;
  hosts = hosts;
}

-- A flow for each port.
abbrev probes : ℕ → List FlowRecord
probes zero = []
probes (suc n) = record upload { remote_port = n } ∷ probes n

abbrev geo_faults : GeoFaults
geo_faults = record { setting_fails = false; peers_fails = false; peer_faults = λ n. loop_faults }

abbrev ticks : SettingsTable → List Tick
ticks s =
    tick_port_scan (record { query_fails = λ n. false; target_faults = λ d n. loop_faults })
      (reads 1000060 s (probes 16))
    ∷ tick_geo geo_faults (reads 1000070 s (probes 3))
    ∷ alert_acknowledged false 1
    ∷ tick_port_scan (record { query_fails = λ n. false; target_faults = λ d n. loop_faults })
        (reads 1000090 s (probes 16))
    ∷ tick_prune false 1000100
    ∷ []

abbrev start : Detected
start = record { known_peers = []; alerts = no_alerts; dns_queries = [] }

-- One alert for the scan of ports, one for the country; the second scan is within the cooldown.
run_scheduler-test :
    length ((run_scheduler whole tools texts (ticks settings) start).alerts).rows ≡ 2
unfolding run_scheduler same_peer
run_scheduler-test = refl

run_scheduler-IsSpaced_example :
    IsSpaced cooldown ((run_scheduler whole tools texts (ticks settings) start).alerts).rows
run_scheduler-IsSpaced_example = run_scheduler-IsSpaced whole tools texts (ticks settings) start tt

abbrev no_port_scan : SettingsTable
no_port_scan = (key_detector_port_scan, codes "0") ∷ settings

differs : (k : String) → str_eq k alert_kind_port_scan ≡ false → some k ≢ some alert_kind_port_scan
differs k h e = ground (arith, str_eq_iff k alert_kind_port_scan)

no_port_scan-runs : All (λ t. runs_kind t ≢ some alert_kind_port_scan) (ticks no_port_scan)
unfolding runs_kind
no_port_scan-runs = (λ h. cc, (differs "geo_watchlist" refl, (λ h. cc, (λ h. cc, (λ h. cc, tt)))))

run_scheduler-disabled_example :
    count_kind alert_kind_port_scan
      (run_scheduler whole tools texts (ticks no_port_scan) start).alerts
    ≡ count_kind alert_kind_port_scan start.alerts
run_scheduler-disabled_example =
    run_scheduler-disabled whole tools texts alert_kind_port_scan (ticks no_port_scan) start
      no_port_scan-runs

geo_watchlist-OnlyNew_example :
    OnlyNew
      (IsWatched tools (codes "XA yb"))
      []
      (geo_watchlist tools texts geo_faults 1000070 hosts settings (probes 3) no_alerts).rows
unfolding lookup
geo_watchlist-OnlyNew_example =
    geo_watchlist-OnlyNew tools texts geo_faults 1000070 hosts settings (codes "XA yb") (probes 3)
      no_alerts refl
