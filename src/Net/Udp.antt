-- ===== src/Net/Udp.antt =====
-- The UDP sockets of net.cpp: opening one, and a packet on its way to the caller's buffer.
use vortex_os.Base.{
  ℕ, ◌+◌, ◌-◌, ◌%◌, ◌^◌, ◌≤◌, ◌<◌, ◌≡◌, ◌≢◌, ◌⊎◌, inl, inr, true, false, not, ◌&&◌, none, some,
  arith, ltb, ◌==◌, if◌then◌else◌, first_below, first_from-some, first_from-none, Bool-cases,
  Option-cases, update, ==-self, ne→==, ap, ge→ltb, lt→ltb, ltb→lt, ltb→ge, ℤ, pos, minus_one,
}
use vortex_os.Net.{
  Bytes, ntohs, load16, UdpSockets, max_udp_sockets, rx_size, is_free, opened, udp_find_socket,
  udp_alloc_socket, udp_payload_len, receive, udp_handle_packet, sys_socket_create, index_of,
  sys_socket_recv,
}

create-none :
    (s : UdpSockets)
    → first_below max_udp_sockets (λ i. is_free (s i).state) ≡ none
    → sys_socket_create s ≡ (minus_one, s)
unfolding sys_socket_create udp_alloc_socket
create-none s n =
    let e : udp_alloc_socket s ≡ (none, s) = rw (udp_alloc_socket, n) in
    rw (sys_socket_create, ap (λ r. r.0) e, ap (λ r. r.1) e)

create-some :
    (s : UdpSockets) (i : ℕ)
    → first_below max_udp_sockets (λ i. is_free (s i).state) ≡ some i
    → sys_socket_create s ≡ (pos i, update s i (opened (s i)))
unfolding sys_socket_create udp_alloc_socket
create-some s i n =
    let e : udp_alloc_socket s ≡ (some i, update s i (opened (s i))) = rw (udp_alloc_socket, n) in
    rw (sys_socket_create, ap (λ r. r.0) e, ap (λ r. r.1) e)

-- `socket` returns -1 and changes nothing when all 16 sockets are in use. Otherwise it returns the
-- least free index, leaves that socket bound to port 0 with nothing to read, and no other socket
-- changes.
pub sys_socket_create-cases :
    (s : UdpSockets)
    → ((sys_socket_create s ≡ (minus_one, s))
        × ((i : ℕ) → i < max_udp_sockets → is_free (s i).state ≡ false))
      ⊎ ((i : ℕ) × (s' : UdpSockets) × (sys_socket_create s ≡ (pos i, s'))
          × (i < max_udp_sockets)
          × (is_free (s i).state ≡ true)
          × ((j : ℕ) → j < i → is_free (s j).state ≡ false)
          × (s' i ≡ opened (s i))
          × ((j : ℕ) → j ≢ i → s' j ≡ s j))
sys_socket_create-cases s =
    elim (Option-cases (first_below max_udp_sockets (λ i. is_free (s i).state))) [
      | inl n ↦ inl (
        create-none s n,
        λ i h.
            first_from-none max_udp_sockets 0 (λ i. is_free (s i).state) n i (omega arith)
              (omega arith),
      )
      | inr (i, n) ↦
          let f = first_from-some max_udp_sockets 0 (λ i. is_free (s i).state) i n in
          inr (
            i,
            update s i (opened (s i)),
            create-some s i n,
            omega (arith, f.below),
            f.passes,
            λ j h. f.least j (omega arith) h,
            rw (==-self i),
            λ j h. rw (ne→== i j (λ e. h (ground arith))),
          )
    ]

-- The length that is copied, by the length in the header.
abbrev pub copied_len : ℕ → ℕ
copied_len n = if ltb n 8 then rx_size else if ltb (rx_size + 8) n then rx_size else n - 8

payload_len-copied : (n : ℕ) → n < 2 ^ 16 → udp_payload_len n ≡ copied_len n
unfolding udp_payload_len
payload_len-copied n h = elim (Bool-cases (ltb n 8)) [
  | inl e ↦
      let k = ltb→lt n 8 e in
      let w : (n + 2 ^ 64 - 8) % 2 ^ 64 ≡ n + 2 ^ 64 - 8 = omega arith in
      rw (udp_payload_len, w, e, lt→ltb rx_size (n + 2 ^ 64 - 8) (omega arith))
  | inr e ↦
      let k = ltb→ge n 8 e in
      let w : (n + 2 ^ 64 - 8) % 2 ^ 64 ≡ n - 8 = omega arith in
      rw (udp_payload_len, w, e) (ground arith)
]

find-small : (port i : ℕ) (s : UdpSockets) → udp_find_socket port s ≡ some i → i < max_udp_sockets
unfolding udp_find_socket
find-small port i s e = omega (
  arith,
  (first_from-some max_udp_sockets 0 (λ i. not (is_free (s i).state) && ((s i).local_port == port))
      i e).below,
)

handle_packet-found :
    (packet : Bytes) (len i : ℕ) (s : UdpSockets)
    → 8 ≤ len
    → udp_find_socket (ntohs (load16 packet 2)) s ≡ some i
    → udp_handle_packet packet len s ≡ update s i (receive packet (s i))
unfolding udp_handle_packet
handle_packet-found packet len i s h e = rw (udp_handle_packet, ge→ltb len 8 h, e)

-- What `recv` gives when `n` bytes of the packet wait, for a buffer of `size` bytes.
pub record IsReceived (packet buffer : Bytes) (n size i : ℕ) (r : ℤ × Bytes × UdpSockets)
    : Type 0 where
  pub count : r.0 ≡ pos (if ltb size n then size else n)
  pub bytes : (k : ℕ) → k < size → k < n → r.1 k ≡ packet (8 + k)
  pub rest : (k : ℕ) → (size ≤ k) ⊎ (n ≤ k) → r.1 k ≡ buffer k
  pub empty :
      (buffer' : Bytes) (size' : ℕ)
      → sys_socket_recv (pos i) buffer' size' r.2 ≡ (pos 0, buffer', r.2)

pub index-small : (n i : ℕ) → i < n → index_of n (pos i) ≡ some i
unfolding index_of
index-small n i h = rw (index_of, lt→ltb i n h)

recv-pending :
    (buffer : Bytes) (size i : ℕ) (s : UdpSockets)
    → i < max_udp_sockets
    → (s i).rx_pending ≡ true
    → sys_socket_recv (pos i) buffer size s ≡ (
      pos (if ltb size (s i).rx_len then size else (s i).rx_len),
      (λ k.
          if ltb k (if ltb size (s i).rx_len then size else (s i).rx_len)
          then (s i).rx_data k
          else buffer k),
      update s i (record (s i) { rx_pending = false; rx_len = 0 }),
    )
unfolding sys_socket_recv
recv-pending buffer size i s h e = rw (sys_socket_recv, index-small max_udp_sockets i h, e)

recv-idle :
    (buffer : Bytes) (size i : ℕ) (s : UdpSockets)
    → i < max_udp_sockets
    → (s i).rx_pending ≡ false
    → sys_socket_recv (pos i) buffer size s ≡ (pos 0, buffer, s)
unfolding sys_socket_recv
recv-idle buffer size i s h e = rw (sys_socket_recv, index-small max_udp_sockets i h, e)

-- What the socket `i` holds when a packet was received.
record IsFilled (packet : Bytes) (n i : ℕ) (s : UdpSockets) : Type 0 where
  pending : (s i).rx_pending ≡ true
  length : (s i).rx_len ≡ n
  held : (k : ℕ) → k < n → (s i).rx_data k ≡ packet (8 + k)

receive-IsFilled :
    (packet : Bytes) (i : ℕ) (s : UdpSockets)
    → IsFilled packet
        (udp_payload_len (ntohs (load16 packet 4)))
        i
        (update s i (receive packet (s i)))
unfolding receive
receive-IsFilled packet i s = record {
  pending = rw (==-self i);
  length = rw (==-self i);
  held = λ k h. rw (==-self i, lt→ltb k _ h);
}

recv-IsReceived :
    (packet buffer : Bytes) (n size i : ℕ) (s : UdpSockets)
    → i < max_udp_sockets
    → IsFilled packet n i s
    → IsReceived packet buffer n size i (sys_socket_recv (pos i) buffer size s)
recv-IsReceived packet buffer n size i s h f =
    rw (recv-pending buffer size i s h f.pending) (record {
      count = rw f.length;
      bytes = λ k a b. ground (arith, f.length, f.held k b);
      rest = λ k o. ground (arith, f.length);
      empty = λ b z. recv-idle b z i _ h (rw (==-self i));
    })

-- A packet of at least 8 bytes for the port of the socket `i`, the first socket with that port,
-- its length field being a 16-bit number, is read by the next `recv` on `i`: it returns the length
-- of the payload or the size of the buffer, whichever is less, with the payload's bytes and the
-- rest of the buffer as it was, and a further `recv` returns 0. The payload's length is the one in
-- the header less 8 where that is from 8 to 2056, and 2048 where it is above, and also where it
-- is below 8, whatever the length of the packet.
pub udp_handle_packet-IsReceived :
    (packet buffer : Bytes) (len size i : ℕ) (s : UdpSockets)
    → 8 ≤ len
    → ntohs (load16 packet 4) < 2 ^ 16
    → udp_find_socket (ntohs (load16 packet 2)) s ≡ some i
    → IsReceived packet buffer
        (copied_len (ntohs (load16 packet 4)))
        size
        i
        (sys_socket_recv (pos i) buffer size (udp_handle_packet packet len s))
udp_handle_packet-IsReceived packet buffer len size i s h w e =
    rw (handle_packet-found packet len i s h e, ← payload_len-copied (ntohs (load16 packet 4)) w)
      (recv-IsReceived packet buffer (udp_payload_len (ntohs (load16 packet 4))) size i _
        (find-small _ i s e) (receive-IsFilled packet i s))
