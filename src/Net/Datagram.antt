-- ===== src/Net/Datagram.antt =====
-- A datagram's way in net.cpp: `sys_socket_send` on one host, `sys_socket_recv` on another.
use vortex_os.Base.{
  ℕ, ◌+◌, ◌-◌, ◌*◌, ◌/◌, ◌%◌, ◌^◌, ◌≤◌, ◌<◌, ◌≡◌, ◌≢◌, ◌∙◌, refl, sym, subst, ap, Bool, true, false,
  some, ◌∷◌, ltb, if◌then◌else◌, ℤ, pos, minus_one, arith,
}
use vortex_os.Net.{
  Bytes, MacAddr, ntohs, load16, arp_cache_lookup, udp_find_socket, udp_handle_packet,
  sys_socket_recv, max_udp_sockets,
}
use vortex_os.Net.Delivery.{ipv4_send-delivered}
use vortex_os.Net.Frames.{Interface, eth_frame}
use vortex_os.Net.Ipv4.{
  ipv4_packet, next_hop, ipv4_send, deliver, net_receive, udp_packet, to_int, is_connected,
  sys_socket_send,
}
use vortex_os.Net.Udp.{index-small, IsReceived, copied_len, udp_handle_packet-IsReceived}

if_pair :
    (b : Bool) (x y : ℤ) (s : Interface)
    → ◌≡◌ {A = ℤ × Interface} (if b then (x, s) else (y, s)) ((if b then x else y), s)
if_pair true x y s = refl
if_pair false x y s = refl

-- `send` on a connected socket, for data that fits a frame.
socket_send-connected :
    (bytes : Bytes) (size i : ℕ) (a : Interface)
    → i < max_udp_sockets
    → is_connected (a.udp_sockets i).state ≡ true
    → size ≤ 1492
    → let sock = a.udp_sockets i in
      let sent =
        ipv4_send sock.remote_ip 17
          (udp_packet sock.local_port sock.remote_port size bytes)
          (8 + size)
          a in
      sys_socket_send (pos i) bytes size a ≡ ((if sent.0 then pos size else minus_one), sent.1)
unfolding sys_socket_send to_int
socket_send-connected bytes size i a h c l =
    let total : (8 + size) % 2 ^ 64 ≡ 8 + size = omega arith in
    let fits : ltb 2056 (8 + size) ≡ false = ground arith in
    let int : size % 2 ^ 32 ≡ size = omega arith in
    let positive : ltb size (2 ^ 31) ≡ true = ground arith in
    rw (sys_socket_send, index-small max_udp_sockets i h, c, total, fits, int, positive)
      (if_pair _ (pos size) minus_one _)

-- The header of a datagram as it is read.
record IsDatagram (packet bytes : Bytes) (port size : ℕ) : Type 0 where
  to_port : ntohs (load16 packet 2) ≡ port
  total : ntohs (load16 packet 4) ≡ 8 + size
  payload : (k : ℕ) → k < size → packet (8 + k) ≡ bytes k

ntohs_cells : (n : ℕ) → n < 2 ^ 16 → ntohs (ntohs n % 256 + 256 * (ntohs n / 256 % 256)) ≡ n
unfolding ntohs
ntohs_cells n h = omega arith

udp_packet-IsDatagram :
    (packet bytes : Bytes) (src_port port size : ℕ)
    → port < 2 ^ 16
    → size ≤ 1492
    → ((k : ℕ) → k < 8 + size → packet k ≡ udp_packet src_port port size bytes k)
    → IsDatagram packet bytes port size
unfolding load16 udp_packet
udp_packet-IsDatagram packet bytes src_port port size p l agree =
    let cell : (k : ℕ) → k < 8 → packet k ≡ udp_packet src_port port size bytes k =
      λ k h. agree k (omega arith) in
    let small : (8 + size) % 2 ^ 16 ≡ 8 + size = omega arith in
    record {
      to_port = rw (cell 2 (omega arith), cell 3 (omega arith)) (ntohs_cells port p);
      total =
          rw (cell 4 (omega arith), cell 5 (omega arith), small)
            (ntohs_cells (8 + size) (omega arith));
      payload = λ k h.
          let behind : ltb (8 + k) 8 ≡ false = ground arith in
          let back : 8 + k - 8 ≡ k = omega arith in
          agree (8 + k) (omega arith) ∙ rw (behind, back) refl;
    }

arrived :
    (received bytes buffer packet : Bytes) (size size' i j : ℕ) (a b : Interface)
    → (a.udp_sockets i).remote_port < 2 ^ 16
    → size ≤ 1492
    → udp_find_socket (a.udp_sockets i).remote_port b.udp_sockets ≡ some j
    → net_receive received (34 + (8 + size)) b ≡ deliver 17 packet (8 + size) a.host.our_ip b
    → ((k : ℕ)
        → k < 8 + size
        → packet k
          ≡ udp_packet (a.udp_sockets i).local_port (a.udp_sockets i).remote_port size bytes k)
    → IsReceived packet buffer size size' j (
        sys_socket_recv (pos j) buffer size' (net_receive received (34 + (8 + size)) b).udp_sockets)
      × ((k : ℕ) → k < size → packet (8 + k) ≡ bytes k)
unfolding deliver
arrived received bytes buffer packet size size' i j a b p l found handled agree =
    let sock = a.udp_sockets i in
    let d = udp_packet-IsDatagram packet bytes sock.local_port sock.remote_port size p l agree in
    let total = d.total in
    let copied : copied_len (ntohs (load16 packet 4)) ≡ size = rw total (ground arith) in
    let read =
      udp_handle_packet-IsReceived packet buffer (8 + size) size' j b.udp_sockets (omega arith)
        (omega (arith, total))
        (ap (λ port. udp_find_socket port b.udp_sockets) d.to_port ∙ found) in
    (
      subst
          (λ s.
            IsReceived packet buffer size size' j
              (sys_socket_recv (pos j) buffer size' s.udp_sockets))
          (sym handled)
          (subst
            (λ n. IsReceived packet buffer n size' j (
              sys_socket_recv (pos j) buffer size'
                (udp_handle_packet packet (8 + size) b.udp_sockets)))
            copied read),
      d.payload,
    )

-- `send` on the connected socket `i` of one host, for at most 1492 bytes, answers the number of
-- bytes where the driver takes the frame and -1 where it does not. Where the frame comes to the host
-- with the remote IP address, whose first socket with the remote port is `j`, the next `recv` on
-- `j` with a buffer of `size'` bytes returns these bytes, as many as fit, in the buffer, leaves the
-- rest of the buffer as it is, and a further `recv` returns 0. The sender's cache knows the hardware
-- address of the next hop, which is the receiver's, the address is not that of broadcast, IP
-- addresses have 32 bits and the port 16.
pub sys_socket_send-IsReceived :
    (received bytes buffer : Bytes) (mac : MacAddr) (size size' i j : ℕ) (a b : Interface)
    → i < max_udp_sockets
    → is_connected (a.udp_sockets i).state ≡ true
    → (a.udp_sockets i).remote_ip ≡ b.host.our_ip
    → (a.udp_sockets i).remote_port < 2 ^ 16
    → size ≤ 1492
    → a.host.our_ip < 2 ^ 32
    → b.host.our_ip < 2 ^ 32
    → b.host.our_ip ≢ 0xFFFFFFFF
    → arp_cache_lookup (next_hop b.host.our_ip a) a.host.cache ≡ some mac
    → b.host.our_mac ≡ mac
    → udp_find_socket (a.udp_sockets i).remote_port b.udp_sockets ≡ some j
    → let sock = a.udp_sockets i in
      let datagram = udp_packet sock.local_port sock.remote_port size bytes in
      let frame =
        eth_frame mac a.host.our_mac 0x0800
          (ipv4_packet b.host.our_ip 17 (20 + (8 + size)) datagram a) in
      let sent = sys_socket_send (pos i) bytes size a in
      let packet : Bytes = λ k. received (34 + k) in
      (sent.0 ≡ (if a.transmit frame (34 + (8 + size)) then pos size else minus_one))
      × (sent.1.sent ≡ (frame, 34 + (8 + size)) ∷ a.sent)
      × (((k : ℕ) → k < 34 + (8 + size) → received k ≡ frame k)
          → IsReceived packet buffer size size' j (
              sys_socket_recv
                (pos j)
                buffer
                size'
                (net_receive received (34 + (8 + size)) b).udp_sockets)
            × ((k : ℕ) → k < size → packet (8 + k) ≡ bytes k))
unfolding deliver
sys_socket_send-IsReceived received bytes buffer mac size size' i j a b h c to p l s d n known own
      found =
    let sock = a.udp_sockets i in
    let datagram = udp_packet sock.local_port sock.remote_port size bytes in
    let packet : Bytes = λ k. received (34 + k) in
    let out = socket_send-connected bytes size i a h c l in
    let way =
      ipv4_send-delivered received datagram mac 17 (8 + size) a b s d n (omega arith) known own in
    let ip : ipv4_send sock.remote_ip 17 datagram (8 + size) a
        ≡ ipv4_send b.host.our_ip 17 datagram (8 + size) a =
      ap (λ x. ipv4_send x 17 datagram (8 + size) a) to in
    (
      ap (λ r. r.0) out
          ∙ ap (λ r. if r.0 then pos size else minus_one) ip
          ∙ ap (λ t. if t then pos size else minus_one) way.0,
      ap (λ r. r.1.sent) out ∙ ap (λ r. r.1.sent) ip ∙ way.1,
      λ agree.
          arrived received bytes buffer packet size size' i j a b p l found (way.2 agree).0
            (way.2 agree).1,
    )
