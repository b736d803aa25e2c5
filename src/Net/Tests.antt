-- ===== src/Net/Tests.antt =====
-- Runs of net.cpp and the theorems at them.
use vortex_os.Base.{
  ℕ, ◌≡◌, refl, none, some, false, some, arith, ltb, ◌==◌, if◌then◌else◌, first_from, pos,
  minus_one,
}
use vortex_os.Net.{
  Bytes, ntohs, load16, MacAddr, ArpCache, arp_cache_insert, arp_cache_lookup, free, bound,
  UdpSockets, udp_find_socket, udp_handle_packet, sys_socket_recv, closed, TcpSockets,
  tcp_handle_packet, sys_socket_listen,
}
use vortex_os.Net.Address.{Bytes4, ip_from_bytes, ip_to_bytes, load_ip, ip_bytes-load}
use vortex_os.Net.Arp.{IsCache, after_insert, arp_cache_insert-lookup}
use vortex_os.Net.Exchange.{
  Host, ArpPacket, broadcast_mac, arp_packet_size, arp_handle_packet, arp_resolve,
  arp_resolve-exchange,
}
use vortex_os.Net.Udp.{IsReceived, copied_len, udp_handle_packet-IsReceived}
use vortex_os.Net.Tcp.{AllClosed, start, packet_in, tcp-AllClosed}

abbrev mac : ℕ → MacAddr
mac n = record { addr0 = 2; addr1 = 0; addr2 = 0; addr3 = 0; addr4 = 0; addr5 = n }

-- A cache with the address 7 in its first entry.
abbrev cache : ArpCache
cache = record { entries = λ i. record { ip = 7; mac = mac 1; valid = i == 0 }; next = 1 }

cache-IsCache : IsCache cache
cache-IsCache = record { next_small = omega arith; single = λ ip i j a b e f. ground arith }

arp_cache_insert-lookup_example :
    IsCache (arp_cache_insert 9 (mac 2) cache)
    × (arp_cache_lookup 9 (arp_cache_insert 9 (mac 2) cache) ≡ after_insert 9 (mac 2) 9 cache)
arp_cache_insert-lookup_example = arp_cache_insert-lookup 9 (mac 2) 9 cache cache-IsCache

-- The socket 0 is bound to the port 53, all others are free.
abbrev sockets : UdpSockets
sockets i = record {
  state = if i == 0 then bound else free;
  local_port = 53;
  remote_ip = 0;
  remote_port = 0;
  rx_data = λ k. 0;
  rx_len = 0;
  rx_pending = false;
}

-- A packet for the port 53 with a length of 10, and one with a length of 4.
abbrev datagram : (length : ℕ) → Bytes
datagram length i = if i == 3 then 53 else if i == 5 then length else if ltb i 8 then 0 else 65

datagram-found : udp_find_socket (ntohs (load16 (datagram 10) 2)) sockets ≡ some 0
unfolding udp_find_socket ntohs load16 first_from
datagram-found = refl

datagram-length : ntohs (load16 (datagram 10) 4) ≡ 10
unfolding ntohs load16
datagram-length = refl

udp_handle_packet-IsReceived_example :
    IsReceived
      (datagram 10)
      (λ k. 0)
      (copied_len (ntohs (load16 (datagram 10) 4)))
      100
      0
      (sys_socket_recv (pos 0) (λ k. 0) 100 (udp_handle_packet (datagram 10) 10 sockets))
udp_handle_packet-IsReceived_example =
    udp_handle_packet-IsReceived (datagram 10) (λ k. 0) 10 100 0 sockets (omega arith)
      (omega (arith, datagram-length)) datagram-found

abbrev tcp_sockets : TcpSockets
tcp_sockets i = record {
  tcp_state = closed;
  tcp_local_port = 0;
  tcp_remote_port = 0;
  tcp_remote_ip = 0;
  snd_nxt = 0;
  rcv_nxt = 0;
}

tcp-AllClosed_example :
    AllClosed (tcp_handle_packet (datagram 10) 20 tcp_sockets)
    × (sys_socket_listen (pos 0) (tcp_handle_packet (datagram 10) 20 tcp_sockets)
        ≡ (minus_one, tcp_handle_packet (datagram 10) 20 tcp_sockets))
tcp-AllClosed_example =
    tcp-AllClosed tcp_sockets (tcp_handle_packet (datagram 10) 20 tcp_sockets) (pos 0) (λ i. refl)
      (packet_in tcp_sockets start (datagram 10) 20)

abbrev router : Bytes4
router = record { byte0 = 192; byte1 = 168; byte2 = 1; byte3 = 254 }

ip_bytes-load_example :
    (ip_from_bytes router ≡ load_ip router)
    × (ip_to_bytes (ip_from_bytes router) ≡ router)
    × (load_ip (ip_to_bytes 4261521600) ≡ 4261521600)
ip_bytes-load_example =
    ip_bytes-load router 4261521600
      (record {
        small0 = omega arith;
        small1 = omega arith;
        small2 = omega arith;
        small3 = omega arith;
      })
      (omega arith)

-- Two hosts that know the address 7 and not each other.
abbrev host : ℕ → Host
host n = record { our_mac = mac n; our_ip = n; cache = cache }

host-unknown : arp_cache_lookup 6 cache ≡ none
unfolding arp_cache_lookup first_from
host-unknown = refl

arp_resolve-exchange_example :
    (request reply : ArpPacket) × (a' b' : Host) × (arp_resolve 6 (host 5)
      ≡ (none, some (broadcast_mac, request)))
    × (arp_handle_packet request arp_packet_size (host 6) ≡ (some (mac 5, reply), b'))
    × (arp_resolve 5 b' ≡ (some (mac 5), none))
    × (arp_handle_packet reply arp_packet_size (host 5) ≡ (none, a'))
    × (arp_resolve 6 a' ≡ (some (mac 6), none))
arp_resolve-exchange_example =
    arp_resolve-exchange (host 5) (host 6) (omega arith) (omega arith) cache-IsCache cache-IsCache
      host-unknown
