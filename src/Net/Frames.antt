-- ===== src/Net/Frames.antt =====
-- Frames of net.cpp as bytes, the state of the interface, and `eth_send`.
use vortex_os.Base.{
  ℕ, ◌+◌, ◌-◌, Bool, false, Option, none, some, List, ◌∷◌, ltb, if◌then◌else◌, update,
}
use vortex_os.Net.{Bytes, ntohs, load16, MacAddr, UdpSockets, TcpSockets}
use vortex_os.Net.Address.{Bytes4}
use vortex_os.Net.Checksum.{store16}
use vortex_os.Net.Exchange.{ArpPacket, Host, Frame, arp_packet_size}

pub data DhcpClientState : Type 0 where
  idle discovering waiting_offer requesting bound : DhcpClientState

-- The static variables. Besides, `transmit` is what the driver's `eth_transmit` answers to a frame,
-- `sent` has the frames handed to it, the last one first, and `stack` is what stands in memory
-- behind a local copy of an IPv4 header.
pub record Interface : Type 0 where
  pub host : Host
  pub subnet_mask : ℕ
  pub gateway_ip : ℕ
  pub net_ready : Bool
  pub ip_ident : ℕ
  pub udp_sockets : UdpSockets
  pub tcp_sockets : TcpSockets
  pub dhcp_state : DhcpClientState
  pub dhcp_xid : ℕ
  pub dhcp_server_ip : ℕ
  pub dhcp_offered_ip : ℕ
  pub transmit : Bytes → (len : ℕ) → Bool
  pub sent : List (Bytes × ℕ)
  pub stack : Bytes

abbrev pub zeros : Bytes
zeros k = 0

abbrev pub store_mac : (at : ℕ) → MacAddr → Bytes → Bytes
store_mac at m packet =
    let half = update (update (update packet at m.addr0) (at + 1) m.addr1) (at + 2) m.addr2 in
    update (update (update half (at + 3) m.addr3) (at + 4) m.addr4) (at + 5) m.addr5

abbrev pub load_mac : Bytes → (at : ℕ) → MacAddr
load_mac packet at = record {
  addr0 = packet at;
  addr1 = packet (at + 1);
  addr2 = packet (at + 2);
  addr3 = packet (at + 3);
  addr4 = packet (at + 4);
  addr5 = packet (at + 5);
}

abbrev pub store_bytes4 : (at : ℕ) → Bytes4 → Bytes → Bytes
store_bytes4 at b packet =
    update (update (update (update packet at b.byte0) (at + 1) b.byte1) (at + 2) b.byte2) (at + 3)
      b.byte3

abbrev pub load_bytes4 : Bytes → (at : ℕ) → Bytes4
load_bytes4 packet at = record {
  byte0 = packet at;
  byte1 = packet (at + 1);
  byte2 = packet (at + 2);
  byte3 = packet (at + 3);
}

-- `first`, and from byte `n` on `second`.
abbrev pub append_at : (n : ℕ) → (first second : Bytes) → Bytes
append_at n first second k = if ltb k n then first k else second (k - n)

-- The packet as it stands in memory, and read from it.
unfoldable pub store_arp : ArpPacket → Bytes
store_arp p =
    let fixed =
      store16 6 p.oper
        (update (update (store16 2 p.ptype (store16 0 p.htype zeros)) 4 p.hlen) 5 p.plen) in
    store_bytes4 24 p.tpa (store_mac 18 p.tha (store_bytes4 14 p.spa (store_mac 8 p.sha fixed)))

unfoldable pub load_arp : Bytes → ArpPacket
load_arp packet = record {
  htype = load16 packet 0;
  ptype = load16 packet 2;
  hlen = packet 4;
  plen = packet 5;
  oper = load16 packet 6;
  sha = load_mac packet 8;
  spa = load_bytes4 packet 14;
  tha = load_mac packet 18;
  tpa = load_bytes4 packet 24;
}

abbrev pub eth_header_size : ℕ
eth_header_size = 14

abbrev pub max_frame : ℕ
max_frame = 1578

-- The frame that `eth_send` builds: header and payload.
unfoldable pub eth_frame : (dst src : MacAddr) → (type : ℕ) → (payload : Bytes) → Bytes
eth_frame dst src type payload =
    append_at eth_header_size (store16 12 (ntohs type) (store_mac 6 src (store_mac 0 dst zeros)))
      payload

-- The payload's length is one that the callers pass, a few thousand at most.
unfoldable pub eth_send :
    (dst : MacAddr)
    → (type : ℕ) → (payload : Bytes) → (payload_len : ℕ) → Interface
    → Bool × Interface
eth_send dst type payload payload_len s =
    let frame = eth_frame dst s.host.our_mac type payload in
    let len = eth_header_size + payload_len in
    if ltb max_frame len
    then (false, s)
    else (s.transmit frame len, record s { sent = (frame, len) ∷ s.sent })

-- The frame of address resolution that `arp_send_request` or `arp_handle_packet` sends, if any.
unfoldable pub send_arp : Option Frame → Interface → Interface
send_arp none s = s
send_arp (some f) s = (eth_send f.0 0x0806 (store_arp f.1) arp_packet_size s).1
