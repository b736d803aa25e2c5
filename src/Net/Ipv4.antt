-- ===== src/Net/Ipv4.antt =====
-- IPv4 in net.cpp: what is sent, what is received and where it goes, ICMP, and the calls that send.
use Prim.Native.Nat.{bit_and, bit_or}
use vortex_os.Base.{
  ℕ, ◌+◌, ◌-◌, ◌*◌, ◌%◌, ◌^◌, Bool, true, false, not, ◌&&◌, ◌||◌, none, some, ltb, ◌==◌,
  if◌then◌else◌, update, ℤ, pos, negsuc, minus_one,
}
use vortex_os.Net.{
  Bytes, ntohs, load16, MacAddr, UdpState, connected, udp_handle_packet, tcp_handle_packet,
  index_of, max_udp_sockets,
}
use vortex_os.Net.Address.{ntohl, ip_to_bytes, load_ip}
use vortex_os.Net.Checksum.{store16, ip_checksum}
use vortex_os.Net.Exchange.{arp_handle_packet, arp_resolve, broadcast_mac}
use vortex_os.Net.Frames.{
  Interface, zeros, store_bytes4, load_bytes4, load_mac, append_at, load_arp, eth_header_size,
  eth_send, send_arp,
}

abbrev pub ipv4_header_size : ℕ
ipv4_header_size = 20

abbrev pub broadcast_ip : ℕ
broadcast_ip = 0xFFFFFFFF

-- The header before its checksum is set.
unfoldable pub ipv4_header : (dst_ip protocol total_len : ℕ) → Interface → Bytes
ipv4_header dst_ip protocol total_len s =
    let start = store16 2 (ntohs (total_len % 2 ^ 16)) (update zeros 0 0x45) in
    let fixed = store16 6 (ntohs 0x4000) (store16 4 (ntohs s.ip_ident) start) in
    let kind = store16 10 0 (update (update fixed 8 64) 9 protocol) in
    store_bytes4 16 (ip_to_bytes dst_ip) (store_bytes4 12 (ip_to_bytes s.host.our_ip) kind)

unfoldable pub ipv4_packet : (dst_ip protocol total_len : ℕ) → (payload : Bytes) → Interface → Bytes
ipv4_packet dst_ip protocol total_len payload s =
    let header = ipv4_header dst_ip protocol total_len s in
    append_at ipv4_header_size (store16 10 (ip_checksum header ipv4_header_size) header) payload

-- The gateway for what is not on our subnet, if there is one.
unfoldable pub next_hop : (dst_ip : ℕ) → Interface → ℕ
next_hop dst_ip s =
    let masked_dst = bit_and (ntohl dst_ip) (ntohl s.subnet_mask) in
    let masked_our = bit_and (ntohl s.host.our_ip) (ntohl s.subnet_mask) in
    if not (masked_dst == masked_our) && not (s.gateway_ip == 0) then s.gateway_ip else dst_ip

unfoldable pub ipv4_send :
    (dst_ip protocol : ℕ) → (payload : Bytes) → (payload_len : ℕ) → Interface → Bool × Interface
ipv4_send dst_ip protocol payload payload_len s =
    let total_len = ipv4_header_size + payload_len in
    let buf = ipv4_packet dst_ip protocol total_len payload s in
    let s1 = record s { ip_ident = (s.ip_ident + 1) % 2 ^ 16 } in
    let (mac, request) = arp_resolve (next_hop dst_ip s1) s1.host in
    if ltb 1520 total_len
    then (false, s)
    else if dst_ip == broadcast_ip
    then eth_send broadcast_mac 0x0800 buf total_len s1
    else elim mac [
      | none ↦ (false, send_arp request s1)
      | some next_hop_mac ↦ eth_send next_hop_mac 0x0800 buf total_len s1
    ]

-- The reply to an echo request: its data with another type and checksum.
unfoldable pub icmp_reply : Bytes → (reply_len : ℕ) → Bytes
icmp_reply packet reply_len =
    let reply = store16 2 0 (update packet 0 0) in store16 2 (ip_checksum reply reply_len) reply

unfoldable pub icmp_handle_echo : Bytes → (len src_ip : ℕ) → Interface → Interface
icmp_handle_echo packet len src_ip s =
    let reply_len = if ltb len 512 then len else 512 in
    if ltb len 8 || not (packet 0 == 8)
    then s
    else (ipv4_send src_ip 1 (icmp_reply packet reply_len) reply_len s).1

-- The switch on the protocol.
unfoldable pub deliver :
    (protocol : ℕ) → (payload : Bytes) → (len src_ip : ℕ) → Interface → Interface
deliver protocol payload len src_ip s =
    if protocol == 1
    then icmp_handle_echo payload len src_ip s
    else if protocol == 17
    then record s { udp_sockets = udp_handle_packet payload len s.udp_sockets }
    else if protocol == 6
    then record s { tcp_sockets = tcp_handle_packet payload len s.tcp_sockets }
    else s

-- The copy of the header whose checksum is computed, its checksum 0; behind it, the stack.
unfoldable pub header_copy : Bytes → Interface → Bytes
header_copy packet s = append_at ipv4_header_size (store16 10 0 packet) s.stack

unfoldable pub for_us : (dst_ip : ℕ) → Interface → Bool
for_us dst_ip s =
    (dst_ip == s.host.our_ip)
    || (dst_ip == broadcast_ip)
    || (dst_ip == bit_or s.host.our_ip (2 ^ 32 - 1 - s.subnet_mask))

unfoldable pub ipv4_handle_packet : Bytes → (len : ℕ) → Interface → Interface
ipv4_handle_packet packet len s =
    let header_len = packet 0 % 16 * 4 in
    let total_len = ntohs (load16 packet 2) in
    let src_ip = load_ip (load_bytes4 packet 12) in
    let dst_ip = load_ip (load_bytes4 packet 16) in
    let payload_len = (total_len + 2 ^ 64 - header_len) % 2 ^ 64 in
    if ltb len ipv4_header_size
    then s
    else if not (ip_checksum (header_copy packet s) header_len == load16 packet 10)
    then s
    else if ltb header_len ipv4_header_size || ltb len total_len
    then s
    else if not (for_us dst_ip s)
    then s
    else deliver (packet 9) (λ k. packet (header_len + k)) payload_len src_ip s

unfoldable pub is_broadcast : MacAddr → Bool
is_broadcast m =
    (m.addr0 == 255)
    && (m.addr1 == 255)
    && (m.addr2 == 255)
    && (m.addr3 == 255)
    && (m.addr4 == 255)
    && (m.addr5 == 255)

-- `operator==`.
unfoldable pub same_mac : MacAddr → MacAddr → Bool
same_mac m n =
    (m.addr0 == n.addr0)
    && (m.addr1 == n.addr1)
    && (m.addr2 == n.addr2)
    && (m.addr3 == n.addr3)
    && (m.addr4 == n.addr4)
    && (m.addr5 == n.addr5)

unfoldable pub receive_arp : (payload : Bytes) → (len : ℕ) → Interface → Interface
receive_arp payload len s =
    let (reply, host1) = arp_handle_packet (load_arp payload) len s.host in
    send_arp reply (record s { host = host1 })

unfoldable pub net_receive : Bytes → (len : ℕ) → Interface → Interface
net_receive frame len s =
    let dst = load_mac frame 0 in
    let type = ntohs (load16 frame 12) in
    let payload : Bytes = λ k. frame (eth_header_size + k) in
    let payload_len = len - eth_header_size in
    if ltb len eth_header_size
    then s
    else if not (is_broadcast dst) && not (same_mac dst s.host.our_mac)
    then s
    else if type == 0x0806
    then receive_arp payload payload_len s
    else if type == 0x0800
    then ipv4_handle_packet payload payload_len s
    else s

-- A UDP packet, its checksum 0. A port or a length is a 16-bit number.
unfoldable pub udp_packet : (src_port dst_port size : ℕ) → Bytes → Bytes
udp_packet src_port dst_port size payload =
    append_at 8
      (store16 4 (ntohs ((8 + size) % 2 ^ 16))
        (store16 2 (ntohs dst_port) (store16 0 (ntohs src_port) zeros)))
      payload

-- `static_cast<int>` of an unsigned number.
unfoldable pub to_int : ℕ → ℤ
to_int n = let m = n % 2 ^ 32 in if ltb m (2 ^ 31) then pos m else negsuc (2 ^ 32 - 1 - m)

abbrev pub is_connected : UdpState → Bool
is_connected connected = true
is_connected _ = false

unfoldable pub sys_socket_send : ℤ → Bytes → (size : ℕ) → Interface → ℤ × Interface
sys_socket_send fd buffer size s = elim (index_of max_udp_sockets fd) [
  | none ↦ (minus_one, s)
  | some i ↦
      let sock = s.udp_sockets i in
      let total = (8 + size) % 2 ^ 64 in
      let (ok, s1) =
        ipv4_send sock.remote_ip 17 (udp_packet sock.local_port sock.remote_port size buffer) total
          s in
      if not (is_connected sock.state) || ltb 2056 total
      then (minus_one, s)
      else if ok
      then (to_int size, s1)
      else (minus_one, s1)
]

-- The socket is not looked at but for being there.
unfoldable pub net_send : Bytes → (size : ℕ) → Interface → Interface
net_send buffer size s =
    let total = (8 + size) % 2 ^ 64 in
    let dst_ip = if s.gateway_ip == 0 then broadcast_ip else s.gateway_ip in
    if (size == 0) || ltb 2056 total
    then s
    else (ipv4_send dst_ip 17 (udp_packet 12345 69 size buffer) total s).1
