-- ===== src/Net.antt =====
-- The tables of the network stack: src/kernel/net.cpp. The address cache, the UDP sockets and the
-- TCP stub.
pub mod Address
pub mod Arp
pub mod Checksum
pub mod Configuration
pub mod Datagram
pub mod Delivery
pub mod Dhcp
pub mod Exchange
pub mod Frames
pub mod Ipv4
pub mod Udp
pub mod Tcp
mod PacketTests
mod Tests
use vortex_os.Base.{
  ℕ, ◌+◌, ◌-◌, ◌*◌, ◌/◌, ◌%◌, ◌^◌, Bool, true, false, not, ◌&&◌, ◌||◌, Option, none, some, ltb,
  ◌==◌, if◌then◌else◌, update, first_below, ℤ, pos, negsuc, minus_one,
}

-- A packet, or any buffer: the bytes of memory from its start, beyond its length too.
abbrev pub Bytes : Type 0
Bytes = ℕ → ℕ

-- `__builtin_bswap16`.
unfoldable pub ntohs : ℕ → ℕ
ntohs n = n % 256 * 256 + n / 256

-- A 16-bit field in a packet, as the processor loads it.
unfoldable pub load16 : Bytes → ℕ → ℕ
load16 packet at = packet at + 256 * packet (at + 1)

pub record MacAddr : Type 0 where
  pub addr0 : ℕ
  pub addr1 : ℕ
  pub addr2 : ℕ
  pub addr3 : ℕ
  pub addr4 : ℕ
  pub addr5 : ℕ

pub record ArpEntry : Type 0 where
  pub ip : ℕ
  pub mac : MacAddr
  pub valid : Bool

abbrev pub arp_cache_size : ℕ
arp_cache_size = 16

pub record ArpCache : Type 0 where
  pub entries : ℕ → ArpEntry
  pub next : ℕ

-- `g_arp_cache[i].valid && g_arp_cache[i].ip == ip`
abbrev pub entry_for : ℕ → ArpCache → ℕ → Bool
entry_for ip c i = (c.entries i).valid && ((c.entries i).ip == ip)

unfoldable pub arp_cache_insert : ℕ → MacAddr → ArpCache → ArpCache
arp_cache_insert ip mac c = elim (first_below arp_cache_size (entry_for ip c)) [
  | some i ↦ record c { entries = update c.entries i (record (c.entries i) { mac = mac }) }
  | none ↦ record {
    entries = update c.entries c.next (record { ip = ip; mac = mac; valid = true });
    next = (c.next + 1) % arp_cache_size;
  }
]

-- `none` is the result false.
unfoldable pub arp_cache_lookup : ℕ → ArpCache → Option MacAddr
arp_cache_lookup ip c = elim (first_below arp_cache_size (entry_for ip c)) [
  | some i ↦ some (c.entries i).mac
  | none ↦ none
]

pub data UdpState : Type 0 where
  free bound connected : UdpState

pub record UdpControlBlock : Type 0 where
  pub state : UdpState
  pub local_port : ℕ
  pub remote_ip : ℕ
  pub remote_port : ℕ
  pub rx_data : Bytes
  pub rx_len : ℕ
  pub rx_pending : Bool

abbrev pub max_udp_sockets : ℕ
max_udp_sockets = 16

abbrev pub rx_size : ℕ
rx_size = 2048

-- `g_udp_sockets`.
abbrev pub UdpSockets : Type 0
UdpSockets = ℕ → UdpControlBlock

abbrev pub is_free : UdpState → Bool
is_free free = true
is_free _ = false

unfoldable pub udp_find_socket : ℕ → UdpSockets → Option ℕ
udp_find_socket port s =
    first_below max_udp_sockets (λ i. not (is_free (s i).state) && ((s i).local_port == port))

-- What `udp_alloc_socket` writes.
abbrev pub opened : UdpControlBlock → UdpControlBlock
opened b = record b { state = bound; local_port = 0; rx_pending = false; rx_len = 0 }

unfoldable pub udp_alloc_socket : UdpSockets → Option ℕ × UdpSockets
udp_alloc_socket s = elim (first_below max_udp_sockets (λ i. is_free (s i).state)) [
  | some i ↦ (some i, update s i (opened (s i)))
  | none ↦ (none, s)
]

-- The length of the payload that is copied, from the length in the header.
unfoldable pub udp_payload_len : ℕ → ℕ
udp_payload_len udp_len =
    let payload_len = (udp_len + 2 ^ 64 - 8) % 2 ^ 64 in
    if ltb rx_size payload_len then rx_size else payload_len

-- What a packet for the socket leaves in it.
unfoldable pub receive : Bytes → UdpControlBlock → UdpControlBlock
receive packet b =
    let payload_len = udp_payload_len (ntohs (load16 packet 4)) in
    record b {
      rx_data = λ i. if ltb i payload_len then packet (8 + i) else b.rx_data i;
      rx_len = payload_len;
      rx_pending = true;
      remote_port = ntohs (load16 packet 0);
    }

unfoldable pub udp_handle_packet : Bytes → (len : ℕ) → UdpSockets → UdpSockets
udp_handle_packet packet len s =
    if ltb len 8 then s else elim (udp_find_socket (ntohs (load16 packet 2)) s) [
      | none ↦ s
      | some i ↦ update s i (receive packet (s i))
    ]

unfoldable pub sys_socket_create : UdpSockets → ℤ × UdpSockets
sys_socket_create s =
    let (idx, s1) = udp_alloc_socket s in elim idx [ none ↦ (minus_one, s1) | some i ↦ (pos i, s1) ]

-- The index in a table of `n` that passes `fd < 0 || fd >= n`.
unfoldable pub index_of : ℕ → ℤ → Option ℕ
index_of n (pos i) = if ltb i n then some i else none
index_of n (negsuc i) = none

unfoldable pub sys_socket_bind : ℤ → (port : ℕ) → UdpSockets → ℤ × UdpSockets
sys_socket_bind fd port s = elim (index_of max_udp_sockets fd) [
  | none ↦ (minus_one, s)
  | some i ↦
      if is_free (s i).state
      then (minus_one, s)
      else (pos 0, update s i (record (s i) { local_port = port; state = bound }))
]

unfoldable pub sys_socket_connect : ℤ → (remote_ip remote_port : ℕ) → UdpSockets → ℤ × UdpSockets
sys_socket_connect fd remote_ip remote_port s = elim (index_of max_udp_sockets fd) [
  | none ↦ (minus_one, s)
  | some i ↦ if is_free (s i).state then (minus_one, s) else (
    pos 0,
    update s i
        (record (s i) { remote_ip = remote_ip; remote_port = remote_port; state = connected }),
  )
]

-- The caller's buffer comes back with the result.
unfoldable pub sys_socket_recv : ℤ → Bytes → (size : ℕ) → UdpSockets → ℤ × Bytes × UdpSockets
sys_socket_recv fd buffer size s = elim (index_of max_udp_sockets fd) [
  | none ↦ (minus_one, buffer, s)
  | some i ↦
      let copy = if ltb size (s i).rx_len then size else (s i).rx_len in
      if not (s i).rx_pending then (pos 0, buffer, s) else (
        pos copy,
        λ k. if ltb k copy then (s i).rx_data k else buffer k,
        update s i (record (s i) { rx_pending = false; rx_len = 0 }),
      )
]

unfoldable pub sys_socket_close : ℤ → UdpSockets → ℤ × UdpSockets
sys_socket_close fd s = elim (index_of max_udp_sockets fd) [
  | none ↦ (minus_one, s)
  | some i ↦ (pos 0, update s i (record (s i) { state = free }))
]

pub data TcpState : Type 0 where
  closed listen syn_sent syn_received established fin_wait_1 fin_wait_2 close_wait closing last_ack
        time_wait :
      TcpState

pub record TcpControlBlock : Type 0 where
  pub tcp_state : TcpState
  pub tcp_local_port : ℕ
  pub tcp_remote_port : ℕ
  pub tcp_remote_ip : ℕ
  pub snd_nxt : ℕ
  pub rcv_nxt : ℕ

abbrev pub max_tcp_sockets : ℕ
max_tcp_sockets = 16

-- `g_tcp_sockets`.
abbrev pub TcpSockets : Type 0
TcpSockets = ℕ → TcpControlBlock

abbrev pub is_closed : TcpState → Bool
is_closed closed = true
is_closed _ = false

-- The first loop of `tcp_find_or_alloc_socket`, then the second.
unfoldable pub tcp_find_or_alloc_socket : ℕ → TcpSockets → Option ℕ × TcpSockets
tcp_find_or_alloc_socket port s =
    elim (first_below max_tcp_sockets
      (λ i. not (is_closed (s i).tcp_state) && ((s i).tcp_local_port == port))) [
        | some i ↦ (some i, s)
        | none ↦ elim (first_below max_tcp_sockets (λ i. is_closed (s i).tcp_state)) [
          | some i ↦
              (some i, update s i (record (s i) { tcp_state = closed; tcp_local_port = port }))
          | none ↦ (none, s)
        ]
      ]

-- A bit of `flags`, by its weight.
abbrev pub has_flag : (weight flags : ℕ) → Bool
has_flag weight flags = flags / weight % 2 == 1

-- The state machine of `tcp_handle_packet`.
unfoldable pub tcp_step : (flags : ℕ) → TcpState → TcpState
tcp_step flags listen = if has_flag 2 flags then syn_received else listen
tcp_step flags syn_sent = if has_flag 2 flags || has_flag 16 flags then established else syn_sent
tcp_step flags established = if has_flag 1 flags then close_wait else established
tcp_step flags st = st

unfoldable pub tcp_handle_packet : Bytes → (len : ℕ) → TcpSockets → TcpSockets
tcp_handle_packet packet len s =
    let flags = ntohs (load16 packet 12) % 32 in
    let (idx, s1) = tcp_find_or_alloc_socket (ntohs (load16 packet 2)) s in
    if ltb len 20 then s else elim idx [
      | none ↦ s1
      | some i ↦ update s1 i (record (s1 i) { tcp_state = tcp_step flags (s1 i).tcp_state })
    ]

unfoldable pub sys_socket_listen : ℤ → TcpSockets → ℤ × TcpSockets
sys_socket_listen fd s = elim (index_of max_tcp_sockets fd) [
  | none ↦ (minus_one, s)
  | some i ↦
      if is_closed (s i).tcp_state
      then (minus_one, s)
      else (pos 0, update s i (record (s i) { tcp_state = listen }))
]
