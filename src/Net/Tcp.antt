-- ===== src/Net/Tcp.antt =====
-- The TCP stub of net.cpp: no socket ever leaves the state CLOSED.
use vortex_os.Base.{
  ℕ, ◌≡◌, inl, inr, not, ◌&&◌, Option, none, some, arith, ltb, ◌==◌, first_below, first_from-some,
  Bool-cases, Option-cases, update, ap, ℤ, minus_one,
}
use vortex_os.Net.{
  Bytes, ntohs, load16, TcpState, closed, TcpSockets, max_tcp_sockets, is_closed,
  tcp_find_or_alloc_socket, tcp_step, tcp_handle_packet, sys_socket_listen, index_of,
}

-- What `net_init` makes of the table.
abbrev pub AllClosed : TcpSockets → Type 0
AllClosed s = (i : ℕ) → (s i).tcp_state ≡ closed

no_open :
    (port : ℕ) (s : TcpSockets)
    → AllClosed s
    → first_below max_tcp_sockets
        (λ i. not (is_closed (s i).tcp_state) && ((s i).tcp_local_port == port))
      ≡ none
no_open port s c =
    elim (Option-cases (
      first_below max_tcp_sockets
        (λ i. not (is_closed (s i).tcp_state) && ((s i).tcp_local_port == port)))) [
          | inl n ↦ n
          | inr (i, n) ↦
              let f =
                first_from-some max_tcp_sockets 0
                  (λ i. not (is_closed (s i).tcp_state) && ((s i).tcp_local_port == port)) i n in
              absurd (ground (arith, f.passes, ap is_closed (c i)))
        ]

find-closed :
    (port : ℕ) (s : TcpSockets) → AllClosed s → AllClosed (tcp_find_or_alloc_socket port s).1
unfolding tcp_find_or_alloc_socket
find-closed port s c =
    elim (Option-cases (first_below max_tcp_sockets (λ i. is_closed (s i).tcp_state))) [
      | inl n ↦ rw (tcp_find_or_alloc_socket, no_open port s c, n) c
      | inr (i, n) ↦ rw (tcp_find_or_alloc_socket, no_open port s c, n) (λ j. ground (arith, c j))
    ]

step-closed : (flags : ℕ) (st : TcpState) → st ≡ closed → tcp_step flags st ≡ closed
unfolding tcp_step
step-closed flags st e = rw e

handle-closed :
    (flags : ℕ) (idx : Option ℕ) (s : TcpSockets)
    → AllClosed s
    → AllClosed (elim idx [
      | none ↦ s
      | some i ↦ update s i (record (s i) { tcp_state = tcp_step flags (s i).tcp_state })
    ])
handle-closed flags none s c = c
handle-closed flags (some i) s c = λ j. ground (arith, c j, step-closed flags (s i).tcp_state (c i))

tcp_handle_packet-closed :
    (packet : Bytes) (len : ℕ) (s : TcpSockets)
    → AllClosed s
    → AllClosed (tcp_handle_packet packet len s)
unfolding tcp_handle_packet
tcp_handle_packet-closed packet len s c = elim (Bool-cases (ltb len 20)) [
  | inl short ↦ rw (tcp_handle_packet, short) c
  | inr long ↦
      rw (tcp_handle_packet, long) (handle-closed _ _ _ (find-closed (ntohs (load16 packet 2)) s c))
]

-- The tables that packets and calls of `listen` lead to.
pub data Reaches (s : TcpSockets) : TcpSockets → Type 0 where
  start : Reaches s s
  packet_in :
      (s1 : TcpSockets)
      → Reaches s s1
      → (packet : Bytes) (len : ℕ) → Reaches s (tcp_handle_packet packet len s1)
  listen_call : (s1 : TcpSockets) → Reaches s s1 → (fd : ℤ) → Reaches s (sys_socket_listen fd s1).1

listen-refused : (fd : ℤ) (s : TcpSockets) → AllClosed s → sys_socket_listen fd s ≡ (minus_one, s)
unfolding sys_socket_listen
listen-refused fd s c = elim (Option-cases (index_of max_tcp_sockets fd)) [
  | inl n ↦ rw (sys_socket_listen, n)
  | inr (i, n) ↦ rw (sys_socket_listen, n, c i)
]

reached-AllClosed : (s t : TcpSockets) → AllClosed s → Reaches s t → AllClosed t
reached-AllClosed s t c start = c
reached-AllClosed s t c (packet_in s1 r packet len) =
    tcp_handle_packet-closed packet len s1 (reached-AllClosed s s1 c r)
reached-AllClosed s t c (listen_call s1 r fd) =
    rw (listen-refused fd s1 (reached-AllClosed s s1 c r)) (reached-AllClosed s s1 c r)

-- From a table with all sockets CLOSED, as `net_init` leaves it, whatever packets arrive and
-- whatever calls of `listen` are made, all sockets are CLOSED, and the next `listen` returns -1
-- and changes nothing.
pub tcp-AllClosed :
    (s t : TcpSockets) (fd : ℤ)
    → AllClosed s
    → Reaches s t
    → AllClosed t × (sys_socket_listen fd t ≡ (minus_one, t))
tcp-AllClosed s t fd c r = let d = reached-AllClosed s t c r in (d, listen-refused fd t d)
