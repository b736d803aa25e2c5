-- ===== src/Net/Dhcp.antt =====
-- The DHCP client of net.cpp and `net_init`. Nothing in the kernel calls `dhcp_dispatch`.
pub mod Options
use vortex_os.Base.{
  Option, none, some, ℕ, zero, suc, ◌+◌, ◌-◌, ◌*◌, ◌/◌, ◌%◌, ◌^◌, Bool, true, false, not, ◌&&◌,
  ◌||◌, List, [], ◌∷◌, ◌++◌, ltb, leb, ◌==◌, if◌then◌else◌, update, length,
}
use vortex_os.Net.{Bytes, ntohs, MacAddr, ArpCache, ArpEntry, free, closed}
use vortex_os.Net.Address.{ntohl, ip_from_bytes, load_ip}
use vortex_os.Net.Checksum.{store16}
use vortex_os.Net.Frames.{
  DhcpClientState, idle, discovering, waiting_offer, requesting, bound, Interface, zeros, store_mac,
  load_bytes4,
}
use vortex_os.Net.Ipv4.{broadcast_ip, ipv4_send, udp_packet}

abbrev pub dhcp_packet_size : ℕ
dhcp_packet_size = 240

abbrev pub magic_cookie : ℕ
magic_cookie = 0x63825363

abbrev pub write_bytes : (at : ℕ) → List ℕ → Bytes → Bytes
write_bytes at [] packet = packet
write_bytes at (b ∷ bs) packet = write_bytes (at + 1) bs (update packet at b)

-- The four bytes of a 32-bit number as they stand in memory.
abbrev pub word_bytes : ℕ → List ℕ
word_bytes n = n % 256 ∷ n / 2 ^ 8 % 256 ∷ n / 2 ^ 16 % 256 ∷ n / 2 ^ 24 % 256 ∷ []

-- A packet of the client: its fixed part, which is all but the options.
unfoldable pub dhcp_packet : Interface → Bytes
dhcp_packet s =
    let start = write_bytes 0 (1 ∷ 1 ∷ 6 ∷ 0 ∷ []) zeros in
    let ids = store16 10 (ntohs 0x8000) (write_bytes 4 (word_bytes (ntohl s.dhcp_xid)) start) in
    write_bytes 236 (word_bytes (ntohl magic_cookie)) (store_mac 28 s.host.our_mac ids)

-- A packet with these options is sent to everybody.
unfoldable pub dhcp_send : (options : List ℕ) → Interface → Interface
dhcp_send options s =
    let total_len = dhcp_packet_size + length options in
    let buf = write_bytes dhcp_packet_size options (dhcp_packet s) in
    (ipv4_send broadcast_ip 17 (udp_packet 68 67 total_len buf) (8 + total_len) s).1

unfoldable pub discover_options : List ℕ
discover_options = 53 ∷ 1 ∷ 1 ∷ 255 ∷ []

unfoldable pub dhcp_send_discover : Interface → Interface
dhcp_send_discover s = dhcp_send discover_options (record s { dhcp_state = waiting_offer })

unfoldable pub request_options : (server_ip requested_ip : ℕ) → List ℕ
request_options server_ip requested_ip =
    (53 ∷ 1 ∷ 3 ∷ [])
    ++ (54 ∷ 4 ∷ [])
    ++ word_bytes server_ip
    ++ (50 ∷ 4 ∷ [])
    ++ word_bytes requested_ip
    ++ (255 ∷ [])

unfoldable pub dhcp_send_request : (server_ip requested_ip : ℕ) → Interface → Interface
dhcp_send_request server_ip requested_ip = dhcp_send (request_options server_ip requested_ip)

-- What the parser has found so far.
pub record Found : Type 0 where
  pub msg_type : ℕ
  pub server_id : ℕ

abbrev pub shift : (n : ℕ) → Bytes → Bytes
shift n packet k = packet (n + k)

-- One option of the tag `tag` and the length `olen`, its data at the start of `opt`.
unfoldable pub read_option : (tag olen : ℕ) → (opt : Bytes) → Found → Found
read_option tag olen opt found =
    if (tag == 53) && leb 1 olen
    then record found { msg_type = opt 0 }
    else if (tag == 54) && leb 4 olen
    then record found { server_id = load_ip (load_bytes4 opt 0) }
    else found

-- The loop over the `len` bytes from `opt` on, on fuel: `none` means that the fuel ran out. The
-- length of an option is read before it is compared with the end, behind which it may stand.
unfoldable pub parse_options : (fuel : ℕ) → (opt : Bytes) → (len : ℕ) → Found → Option Found
parse_options zero opt len found = none
parse_options (suc fuel) opt len found =
    let tag = opt 0 in
    let olen = opt 1 in
    let next = parse_options fuel (shift 1 opt) (len - 1) found in
    let rest =
      parse_options fuel (shift (2 + olen) opt) (len - (2 + olen))
        (read_option tag olen (shift 2 opt) found) in
    if (len == 0) || (tag == 255)
    then some found
    else if tag == 0
    then next
    else if ltb len (2 + olen)
    then some found
    else rest

-- The loop's result, `found` where its fuel ran out.
abbrev pub found_or : Found → Option Found → Found
found_or found none = found
found_or found (some result) = result

-- One round more than the packet has bytes is enough.
unfoldable pub dhcp_parse_options : Bytes → (len : ℕ) → Bool × Found
dhcp_parse_options packet len =
    let start : Found = record { msg_type = 0; server_id = 0 } in
    let found = found_or start (parse_options (suc len) packet len start) in
    (not (found.msg_type == 0), found)

unfoldable pub has_cookie : Bytes → Bool
has_cookie packet = ntohl (load_ip (load_bytes4 packet 236)) == magic_cookie

-- What the two handlers check, for a packet of the message type `kind`.
unfoldable pub is_reply : (kind : ℕ) → Bytes → (len : ℕ) → Bool
is_reply kind packet len =
    let (ok, found) = dhcp_parse_options (shift dhcp_packet_size packet) (len - dhcp_packet_size) in
    not (ltb len dhcp_packet_size)
    && has_cookie packet
    && (packet 0 == 2)
    && ok
    && (found.msg_type == kind)

unfoldable pub dhcp_handle_offer : Bytes → (len : ℕ) → Interface → Interface
dhcp_handle_offer packet len s =
    let found = (dhcp_parse_options (shift dhcp_packet_size packet) (len - dhcp_packet_size)).1 in
    let offered_ip = load_ip (load_bytes4 packet 16) in
    if is_reply 2 packet len
    then dhcp_send_request found.server_id offered_ip (record s {
      dhcp_server_ip = found.server_id;
      dhcp_offered_ip = offered_ip;
      dhcp_state = requesting;
    })
    else s

unfoldable pub dhcp_handle_ack : Bytes → (len : ℕ) → Interface → Interface
dhcp_handle_ack packet len s =
    if is_reply 5 packet len
    then record s {
      host = record s.host { our_ip = load_ip (load_bytes4 packet 16) };
      subnet_mask = ip_from_bytes (record { byte0 = 255; byte1 = 255; byte2 = 255; byte3 = 0 });
      gateway_ip = ip_from_bytes (record { byte0 = 192; byte1 = 168; byte2 = 1; byte3 = 1 });
      dhcp_state = bound;
      net_ready = true;
    }
    else s

abbrev pub is_waiting_offer : DhcpClientState → Bool
is_waiting_offer waiting_offer = true
is_waiting_offer _ = false

abbrev pub is_requesting : DhcpClientState → Bool
is_requesting requesting = true
is_requesting _ = false

unfoldable pub dhcp_dispatch : Bytes → (len : ℕ) → Interface → Interface
dhcp_dispatch packet len s =
    let msg_type =
      (dhcp_parse_options (shift dhcp_packet_size packet) (len - dhcp_packet_size)).1.msg_type in
    if ltb len dhcp_packet_size || not (has_cookie packet)
    then s
    else if msg_type == 2
    then (if is_waiting_offer s.dhcp_state then dhcp_handle_offer packet len s else s)
    else if msg_type == 5
    then (if is_requesting s.dhcp_state then dhcp_handle_ack packet len s else s)
    else if msg_type == 6
    then record s { dhcp_state = idle }
    else s

-- The tables cleared, but for what `net_init` leaves as it is.
unfoldable pub clear_tables : Interface → Interface
clear_tables s =
    let entries : ℕ → ArpEntry =
      λ i. let e = s.host.cache.entries i in if ltb i 16 then record e { valid = false } else e in
    let cache : ArpCache = record s.host.cache { entries = entries } in
    record s {
      host = record s.host { cache = cache };
      udp_sockets =
          λ i. let b = s.udp_sockets i in if ltb i 16 then record b { state = free } else b;
      tcp_sockets =
          λ i. let b = s.tcp_sockets i in if ltb i 16 then record b { tcp_state = closed } else b;
    }

-- The driver's address is `mac`.
unfoldable pub net_init : (mac : MacAddr) → Interface → Interface
net_init mac s =
    let s1 = clear_tables (record s { host = record s.host { our_mac = mac } }) in
    let xid = mac.addr2 * 2 ^ 24 + mac.addr3 * 2 ^ 16 + mac.addr4 * 2 ^ 8 + mac.addr5 in
    dhcp_send_discover (record s1 { dhcp_xid = xid; dhcp_state = discovering })
