-- ===== src/Net/PacketTests.antt =====
-- Runs of net.cpp that send and receive, and the theorems at them.
use vortex_os.Base.{
  ℕ, first_from, ◌+◌, ◌%◌, ◌<◌, ◌≡◌, refl, true, false, some, [], ◌∷◌, arith, ◌==◌, if◌then◌else◌,
  pos,
}
use vortex_os.Net.{
  Bytes, MacAddr, arp_cache_lookup, UdpSockets, udp_find_socket, sys_socket_recv, closed, connected,
  free,
}
use vortex_os.Net.Address.{load_ip, ntohl}
use vortex_os.Net.Checksum.{store16, ip_checksum, ip_checksum-verified}
use vortex_os.Net.Frames.{Interface, discovering, waiting_offer, eth_frame, zeros}
use vortex_os.Net.Ipv4.{
  ipv4_packet, next_hop, ipv4_send, deliver, net_receive, udp_packet, sys_socket_send,
}
use vortex_os.Net.Delivery.{ipv4_send-delivered}
use vortex_os.Net.Datagram.{sys_socket_send-IsReceived}
use vortex_os.Net.Udp.{IsReceived}
use vortex_os.Net.Configuration.{configuration, receive_all, net_init-waits}
use vortex_os.Net.Dhcp.{net_init, dhcp_parse_options, parse_options, Found}
use vortex_os.Net.Dhcp.Options.{parse_options-ends, dhcp_parse_options-encoded}

-- Data of five bytes, its checksum in the second word.
abbrev sevens : Bytes
sevens k = 7

ip_checksum-verified_example :
    let k = ip_checksum (store16 2 0 sevens) 5 in
    (ip_checksum (store16 2 k sevens) 5 ≡ 0)
    × (ip_checksum (store16 2 9 sevens) 5 ≡ 0 → 9 ≡ k % 65535)
ip_checksum-verified_example =
    ip_checksum-verified sevens 5 1 9 (λ k. omega arith) (omega arith) (omega arith) (omega arith)

-- The options of an offer by the server 10.0.2.2.
abbrev offer_options : Bytes
offer_options k =
    if k == 0
    then 53
    else if k == 1
    then 1
    else if k == 2
    then 2
    else if k == 3
    then 54
    else if k == 4
    then 4
    else if k == 5
    then 10
    else if k == 6
    then 0
    else if k == 7
    then 2
    else if k == 8
    then 2
    else 255

abbrev nothing : Found
nothing = record { msg_type = 0; server_id = 0 }

parse_options-ends_example :
    (result : Found) × ((fuel : ℕ)
      → 10 < fuel
      → parse_options fuel offer_options 10 nothing ≡ some result)
parse_options-ends_example = parse_options-ends offer_options 10 nothing

dhcp_parse_options-encoded_example :
    dhcp_parse_options offer_options 10 ≡ (true, record { msg_type = 2; server_id = 0x0202000A })
unfolding load_ip
dhcp_parse_options-encoded_example =
    dhcp_parse_options-encoded ((53, 2 ∷ []) ∷ (54, 10 ∷ 0 ∷ 2 ∷ 2 ∷ []) ∷ []) offer_options 10
      (omega arith, omega arith, (omega arith, omega arith, tt))
      (refl, (refl, (refl, (refl, (refl, (refl, (refl, (refl, (refl, (refl, tt))))))))))
      (omega arith)

abbrev card : ℕ → MacAddr
card n = record { addr0 = 2; addr1 = 0; addr2 = 0; addr3 = 0; addr4 = 0; addr5 = n }

-- The interface with the address `ip` that knows the address 7, with these sockets.
abbrev interface : (ip : ℕ) → UdpSockets → Interface
interface ip sockets = record {
  host = record {
    our_mac = card ip;
    our_ip = ip;
    cache = record { entries = λ i. record { ip = 7; mac = card 7; valid = i == 0 }; next = 1 };
  };
  subnet_mask = 0;
  gateway_ip = 0;
  net_ready = false;
  ip_ident = 0;
  udp_sockets = sockets;
  tcp_sockets = λ i. record {
    tcp_state = closed;
    tcp_local_port = 0;
    tcp_remote_port = 0;
    tcp_remote_ip = 0;
    snd_nxt = 0;
    rcv_nxt = 0;
  };
  dhcp_state = discovering;
  dhcp_xid = 0;
  dhcp_server_ip = 0;
  dhcp_offered_ip = 0;
  transmit = λ frame len. true;
  sent = [];
  stack = λ k. 9;
}

-- The first socket has the port 53 and is connected to the port 53 of the address 7.
abbrev joined : UdpSockets
joined i = record {
  state = if i == 0 then connected else free;
  local_port = 53;
  remote_ip = 7;
  remote_port = 53;
  rx_data = λ k. 0;
  rx_len = 0;
  rx_pending = false;
}

net_init-waits_example :
    configuration (receive_all ((sevens, 60) ∷ []) (net_init (card 5) (interface 5 joined)))
    ≡ (5, 0, 0, false, waiting_offer)
net_init-waits_example = net_init-waits (card 5) ((sevens, 60) ∷ []) (interface 5 joined)

knows-seven :
    arp_cache_lookup (next_hop 7 (interface 5 joined)) (interface 5 joined).host.cache
    ≡ some (card 7)
unfolding arp_cache_lookup next_hop first_from ntohl
knows-seven = refl

socket-joined : udp_find_socket 53 joined ≡ some 0
unfolding udp_find_socket first_from
socket-joined = refl

ipv4_send-delivered_example :
    let a = interface 5 joined in
    let b = interface 7 joined in
    let frame = eth_frame (card 7) (card 5) 0x0800 (ipv4_packet 7 17 (20 + 3) sevens a) in
    let sent = ipv4_send 7 17 sevens 3 a in
    let packet : Bytes = λ k. frame (34 + k) in
    (sent.0 ≡ true)
    × (sent.1.sent ≡ (frame, 34 + 3) ∷ [])
    × (((k : ℕ) → k < 34 + 3 → frame k ≡ frame k)
        → (net_receive frame (34 + 3) b ≡ deliver 17 packet 3 5 b)
          × ((k : ℕ) → k < 3 → packet k ≡ sevens k))
ipv4_send-delivered_example =
    ipv4_send-delivered
      (eth_frame (card 7) (card 5) 0x0800 (ipv4_packet 7 17 (20 + 3) sevens (interface 5 joined)))
      sevens (card 7) 17 3 (interface 5 joined) (interface 7 joined) (omega arith) (omega arith)
      (omega arith) (omega arith) knows-seven refl

sys_socket_send-IsReceived_example :
    let a = interface 5 joined in
    let b = interface 7 joined in
    let datagram = udp_packet 53 53 3 sevens in
    let frame = eth_frame (card 7) (card 5) 0x0800 (ipv4_packet 7 17 (20 + (8 + 3)) datagram a) in
    let sent = sys_socket_send (pos 0) sevens 3 a in
    let packet : Bytes = λ k. frame (34 + k) in
    (sent.0 ≡ pos 3)
    × (sent.1.sent ≡ (frame, 34 + (8 + 3)) ∷ [])
    × (((k : ℕ) → k < 34 + (8 + 3) → frame k ≡ frame k)
        → IsReceived packet zeros 3 9 0
            (sys_socket_recv (pos 0) zeros 9 (net_receive frame (34 + (8 + 3)) b).udp_sockets)
          × ((k : ℕ) → k < 3 → packet (8 + k) ≡ sevens k))
sys_socket_send-IsReceived_example =
    sys_socket_send-IsReceived
      (eth_frame (card 7) (card 5) 0x0800
        (ipv4_packet 7 17 (20 + (8 + 3)) (udp_packet 53 53 3 sevens) (interface 5 joined)))
      sevens zeros (card 7) 3 9 0 0 (interface 5 joined) (interface 7 joined) (omega arith) refl
      refl (omega arith) (omega arith) (omega arith) (omega arith) (omega arith) knows-seven refl
      socket-joined
