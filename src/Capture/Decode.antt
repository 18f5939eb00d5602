-- ===== src/Capture/Decode.antt =====
-- internal/capture/decode.go. The layers that gopacket finds in a frame, its readings of a UDP
-- payload as DNS or DHCP, and the printing of addresses are arguments.
pub mod Sides
pub mod Consistent
use shadow_stat.Base.{
  ℕ, zero, suc, ◌-◌, ◌/◌, ◌%◌, ◌^◌, String, Bool, true, false, ◌&&◌, ◌||◌, not, Option, none, some,
  List, [], ◌∷◌, if◌then◌else◌, ◌==◌, length, first_where, ltb,
}
use shadow_stat.Store.Flows.{dir_lan_to_wan, dir_wan_to_lan, dir_lan_out, dir_lan_in}
use shadow_stat.Capture.Aggregator.{FlowKey, FlowEvent}

-- net.IP: an address of four bytes or of sixteen
pub data Ip : Type 0 where
  ip4 ip6 : ℕ → Ip

-- To4: an address of four bytes is also written with the prefix ::ffff:0:0/96
abbrev pub to4 : Ip → Ip
to4 (ip4 a) = ip4 a
to4 (ip6 a) = if a / 2 ^ 32 == 65535 then ip4 (a % 2 ^ 32) else ip6 a

abbrev pub is_unspecified : Ip → Bool
is_unspecified ip = elim (to4 ip) [ ip4 a ↦ a == 0 | ip6 a ↦ a == 0 ]

-- Equal(net.IPv4bcast)
abbrev pub is_broadcast : Ip → Bool
is_broadcast ip = elim (to4 ip) [ ip4 a ↦ a == 2 ^ 32 - 1 | ip6 a ↦ false ]

-- net.IPNet, as ParseCIDR makes it
pub data Lan : Type 0 where
  lan4 lan6 : (network prefix : ℕ) → Lan

abbrev pub contains : Lan → Ip → Bool
contains (lan4 network prefix) ip = elim (to4 ip) [
  | ip4 a ↦ (a / 2 ^ (32 - prefix)) == (network / 2 ^ (32 - prefix))
  | ip6 a ↦ false
]
contains (lan6 network prefix) ip = elim (to4 ip) [
  | ip4 a ↦ false
  | ip6 a ↦ (a / 2 ^ (128 - prefix)) == (network / 2 ^ (128 - prefix))
]

-- A layer that the parser recognised, with the fields that Decode reads.
pub data Layer : Type 0 where
  ethernet : (src_mac dst_mac : ℕ) → Layer
  dot1q icmp4 icmp6 : Layer
  ipv4 ipv6 : (src dst : Ip) (protocol : ℕ) → Layer
  tcp : (src_port dst_port : ℕ) → Layer
  udp : (src_port dst_port : ℕ) (payload : List ℕ) → Layer

pub record Question : Type 0 where
  pub name : String
  pub qtype : ℕ

pub record Dns : Type 0 where
  pub qr : Bool
  pub questions : List Question

pub record DhcpOption : Type 0 where
  pub code : ℕ
  pub value : List ℕ

pub record Dhcp : Type 0 where
  pub operation : ℕ
  pub client_hw_addr : ℕ
  pub options : List DhcpOption

-- What the decoder uses of other code.
pub record Parser : Type 0 where
  pub decode_layers : List ℕ → List Layer
  pub decode_dns : List ℕ → Option Dns
  pub decode_dhcp : List ℕ → Option Dhcp
  pub ip_text : Ip → String
  pub mac_text : ℕ → String
  pub text : List ℕ → String

pub record RawPacket : Type 0 where
  pub frame : List ℕ
  -- none: the zero time
  pub timestamp : Option ℕ

pub record DnsQueryEvent : Type 0 where
  pub local_ip : String
  pub qname : String
  pub qtype : ℕ
  pub timestamp : ℕ

pub record DhcpHostnameEvent : Type 0 where
  pub mac : String
  pub hostname : String
  pub timestamp : ℕ

-- DecodeResult, a Has flag and its value as one option
pub record DecodeResult : Type 0 where
  pub flow : Option FlowEvent
  pub flow2 : Option FlowEvent
  pub dns : Option DnsQueryEvent
  pub dhcp : Option DhcpHostnameEvent

abbrev pub dns_service_port : ℕ
dns_service_port = 53

abbrev pub dhcp_server_port : ℕ
dhcp_server_port = 67

abbrev pub dhcp_client_port : ℕ
dhcp_client_port = 68

abbrev pub dhcp_op_request : ℕ
dhcp_op_request = 1

abbrev pub dhcp_opt_hostname : ℕ
dhcp_opt_hostname = 12

-- What the loop over the decoded layers has set. The layers' structs are shared by all packets;
-- those that a frame does not have are not read.
pub record Seen : Type 0 where
  pub src_mac : ℕ
  pub dst_mac : ℕ
  pub addresses : Option (Ip × Ip)
  pub proto : ℕ
  pub src_port : ℕ
  pub dst_port : ℕ
  pub udp_payload : Option (List ℕ)

abbrev pub nothing_seen : Seen
nothing_seen = record {
  src_mac = 0;
  dst_mac = 0;
  addresses = none;
  proto = 0;
  src_port = 0;
  dst_port = 0;
  udp_payload = none;
}

unfoldable pub read_layers : Seen → List Layer → Seen
read_layers s [] = s
read_layers s (ethernet src dst ∷ rest) =
    read_layers (record s { src_mac = src; dst_mac = dst }) rest
read_layers s (dot1q ∷ rest) = read_layers s rest
read_layers s (icmp4 ∷ rest) = read_layers s rest
read_layers s (icmp6 ∷ rest) = read_layers s rest
read_layers s (ipv4 src dst protocol ∷ rest) =
    read_layers (record s { addresses = some (src, dst); proto = protocol }) rest
read_layers s (ipv6 src dst protocol ∷ rest) =
    read_layers (record s { addresses = some (src, dst); proto = protocol }) rest
read_layers s (tcp src dst ∷ rest) = read_layers (record s { src_port = src; dst_port = dst }) rest
read_layers s (udp src dst payload ∷ rest) =
    read_layers (record s { src_port = src; dst_port = dst; udp_payload = some payload }) rest

abbrev pub or_now : ℕ → Option ℕ → ℕ
or_now now none = now
or_now now (some ts) = ts

module _ (p : Parser) where
  unfoldable pub build_flow_event : ℕ → ℕ → Ip → ℕ → Ip → ℕ → ℕ → ℕ → ℕ → Bool → FlowEvent
  build_flow_event direction proto local_ip local_port remote_ip remote_port local_mac ts bytes
        is_local_src =
      record {
        key = record {
          direction = direction;
          proto = proto;
          local_ip = p.ip_text local_ip;
          local_port = local_port;
          remote_ip = p.ip_text remote_ip;
          remote_port = remote_port;
        };
        timestamp = ts;
        bytes = bytes;
        is_local_src = is_local_src;
        local_mac = p.mac_text local_mac;
      }

  unfoldable pub decode_dns_query : List ℕ → String → ℕ → Option DnsQueryEvent
  decode_dns_query payload local_ip ts = elim (p.decode_dns payload) [
    | none ↦ none
    | some d ↦ elim d.questions [
      | [] ↦ none
      | q ∷ _ ↦
          if d.qr
          then none
          else some
              (record { local_ip = local_ip; qname = q.name; qtype = q.qtype; timestamp = ts })
    ]
  ]

  abbrev pub is_hostname : DhcpOption → Bool
  is_hostname opt = (opt.code == dhcp_opt_hostname) && ltb 0 (length opt.value)

  unfoldable pub decode_dhcp_hostname : List ℕ → Option ℕ → ℕ → Option DhcpHostnameEvent
  decode_dhcp_hostname payload timestamp now = elim (p.decode_dhcp payload) [
    | none ↦ none
    | some d ↦
        if not (d.operation == dhcp_op_request)
        then none
        else elim (first_where is_hostname d.options) [
          | none ↦ none
          | some opt ↦ some (record {
            mac = p.mac_text d.client_hw_addr;
            hostname = p.text opt.value;
            timestamp = or_now now timestamp;
          })
        ]
  ]

  -- The query in a packet to or from the DNS port.
  unfoldable pub dns_of : Seen → Ip → ℕ → Option DnsQueryEvent
  unfolding decode_dns_query
  dns_of s local_ip ts = elim s.udp_payload [
    | none ↦ none
    | some payload ↦
        if (s.src_port == dns_service_port) || (s.dst_port == dns_service_port)
        then decode_dns_query payload (p.ip_text local_ip) ts
        else none
  ]

  -- The hostname in a packet from a DHCP client.
  unfoldable pub dhcp_of : Seen → Option ℕ → ℕ → Option DhcpHostnameEvent
  unfolding decode_dhcp_hostname
  dhcp_of s timestamp now = elim s.udp_payload [
    | none ↦ none
    | some payload ↦
        if (s.src_port == dhcp_client_port) || (s.dst_port == dhcp_server_port)
        then decode_dhcp_hostname payload timestamp now
        else none
  ]

  -- The event from the side of the source of the packet, and from the side of its destination.
  unfoldable pub source_side : ℕ → Seen → Ip → Ip → ℕ → ℕ → FlowEvent
  unfolding build_flow_event
  source_side direction s src dst ts bytes =
      build_flow_event direction s.proto src s.src_port dst s.dst_port s.src_mac ts bytes true

  unfoldable pub destination_side : ℕ → Seen → Ip → Ip → ℕ → ℕ → FlowEvent
  unfolding build_flow_event
  destination_side direction s src dst ts bytes =
      build_flow_event direction s.proto dst s.dst_port src s.src_port s.dst_mac ts bytes false

  -- The switch on which sides are local.
  unfoldable pub classify : Lan → Seen → Ip → Ip → ℕ → ℕ → Option DhcpHostnameEvent → DecodeResult
  unfolding source_side destination_side dns_of
  classify lan s src dst ts bytes dhcp =
      if contains lan src && contains lan dst
      then record {
        flow = some (source_side dir_lan_out s src dst ts bytes);
        flow2 = some (destination_side dir_lan_in s src dst ts bytes);
        dns = dns_of s src ts;
        dhcp = dhcp;
      }
      else if contains lan src
      then record {
        flow = some (source_side dir_lan_to_wan s src dst ts bytes);
        flow2 = none;
        dns = dns_of s src ts;
        dhcp = dhcp;
      }
      else if contains lan dst
      then record {
        flow = some (destination_side dir_wan_to_lan s src dst ts bytes);
        flow2 = none;
        dns = dns_of s dst ts;
        dhcp = dhcp;
      }
      else record { flow = none; flow2 = none; dns = none; dhcp = dhcp }

  -- `now` is the time that time.Now() would give.
  unfoldable pub decode : Lan → ℕ → RawPacket → DecodeResult
  unfolding read_layers classify dhcp_of
  decode lan now pkt =
      let s = read_layers nothing_seen (p.decode_layers pkt.frame) in
      elim s.addresses [
        | none ↦ record { flow = none; flow2 = none; dns = none; dhcp = none }
        | some addresses ↦
            let dhcp = dhcp_of s pkt.timestamp now in
            if is_unspecified addresses.0 || is_broadcast addresses.1
            then record { flow = none; flow2 = none; dns = none; dhcp = dhcp }
            else classify lan s addresses.0 addresses.1 (or_now now pkt.timestamp)
                (length pkt.frame) dhcp
      ]
