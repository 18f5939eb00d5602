-- ===== src/Detect/Samples.antt =====
-- Texts, hosts and flows for the tests of the detectors, and known peers that raise nothing.
use shadow_stat.Base.{◌*◌, ◌≡◌, refl, false, none, List, [], ◌∷◌, nat_eq}
use shadow_stat.Store.Flows.{FlowRecord}
use shadow_stat.Store.Hosts.{Hosts}
use shadow_stat.Store.Alerts.{Alerts, PeerKey, KnownPeer, same_peer, peer_key_eq, recent_flow_peers}
use shadow_stat.Detect.Raise.{Texts, RaiseFaults}
use shadow_stat.Detect.NewDestination.{NewDestinationFaults, new_destinations}
use shadow_stat.Detect.Quiet.{new_destinations-quiet}
use shadow_stat.Base.Assoc.{lookup, alter}

abbrev pub texts : Texts
texts = record {
  peer = λ k. k.remote_ip;
  new_destination_summary = λ label phrase k. "new destination";
  new_destination_detail = λ k direction. direction;
  exfil_summary = λ label t. "exfiltration";
  exfil_detail = λ t. "";
  port_scan_summary = λ direction label ip n. "port scan";
  port_scan_detail = λ direction ip n ports truncated. ip;
  volume_summary = λ label n. "queries";
  volume_detail = λ n. "";
  entropy_summary = λ label name. name;
  entropy_detail = λ name. name;
  geo_summary = λ label phrase country ip. ip;
  geo_detail = λ ip country direction. ip;
  beaconing_summary = λ label k timestamps. "beacon";
  beaconing_detail = λ k timestamps. "";
}

abbrev pub no_faults : RaiseFaults
no_faults = record { exists_fails = false; insert_fails = false }

abbrev pub hosts : Hosts
hosts = record {
  hosts =
      record {
        id = 1;
        ip = "10.0.0.5";
        display_name = none;
        mac_address = none;
        first_seen = 0;
        last_seen = 1000000;
      }
      ∷ [];
  dhcp_hostnames = [];
  next_id = 2;
}

-- An upload of 30 MB
abbrev pub upload : FlowRecord
upload = record {
  host_id = 1;
  direction = 0;
  proto = 6;
  local_ip = "10.0.0.5";
  local_port = 5000;
  remote_ip = "1.2.3.4";
  remote_port = 443;
  first_seen = 1000000;
  last_seen = 1000050;
  bytes_sent = 30 * 1024 * 1024;
  bytes_recv = 1000;
  packets_sent = 1;
  packets_recv = 1;
}

abbrev pub no_alerts : Alerts
no_alerts = record { rows = []; next_id = 1 }

abbrev known_peers : List (PeerKey × KnownPeer)
known_peers =
    (
      record { host_id = 1; remote_ip = "1.2.3.4"; remote_port = 443 },
      record { first_seen = 10; last_seen = 900000 },
    )
    ∷ []

abbrev pub new_destination_faults : NewDestinationFaults
new_destination_faults = record {
  peers_fails = false;
  host_fails = λ k. false;
  known_fails = λ k. false;
  upsert_fails = λ k. false;
  raise_faults = λ k. no_faults;
}

new_destinations-quiet_example :
    (new_destinations texts new_destination_faults 1000060
      (upload ∷ [])
      hosts
      known_peers
      no_alerts).1
    ≡ no_alerts
unfolding recent_flow_peers lookup alter same_peer
new_destinations-quiet_example =
    new_destinations-quiet texts new_destination_faults 1000060 (upload ∷ []) hosts known_peers
      no_alerts
      (
        record {
          row = record { first_seen = 10; last_seen = 900000 };
          there = refl;
          recent = refl;
        },
        tt,
      )
