-- ===== src/Net/Delivery.antt =====
-- What `ipv4_send` in net.cpp sends, another host's `net_receive` takes apart again.
use vortex_os.Base.{
  ℕ, ◌+◌, ◌-◌, ◌*◌, ◌%◌, ◌^◌, ◌≤◌, ◌<◌, ◌≡◌, ◌≢◌, ◌∙◌, refl, sym, ap, Bool, true, false, not, ◌&&◌,
  some, ◌∷◌, ltb, ◌==◌, ==-self, ne→==, arith,
}
use mathlib.Core.Path.{fun_ext}
use vortex_os.Net.{Bytes, MacAddr, ntohs, load16, arp_cache_lookup}
use vortex_os.Net.Address.{load_ip, ip_to_bytes, load_to_bytes}
use vortex_os.Net.Checksum.{
  store16, ip_checksum, ip_checksum-same, ip_checksum-bound, ntohs-ntohs, ntohs-bound,
}
use vortex_os.Net.Exchange.{arp_resolve}
use vortex_os.Net.Frames.{Interface, append_at, load_bytes4, load_mac, eth_frame, eth_send}
use vortex_os.Net.Ipv4.{
  ipv4_header, ipv4_packet, next_hop, ipv4_send, deliver, header_copy, for_us, ipv4_handle_packet,
  same_mac, is_broadcast, net_receive,
}

-- A packet whose header is that of `ipv4_send`, its checksum included.
record IsSent (packet : Bytes) (src_ip dst_ip protocol len : ℕ) (b : Interface) : Type 0 where
  version : packet 0 ≡ 0x45
  total : load16 packet 2 ≡ ntohs (20 + len)
  kind : packet 9 ≡ protocol
  source : load_bytes4 packet 12 ≡ ip_to_bytes src_ip
  target : load_bytes4 packet 16 ≡ ip_to_bytes dst_ip
  checked : ip_checksum (header_copy packet b) 20 ≡ load16 packet 10

handle-IsSent :
    (packet : Bytes) (src_ip protocol len : ℕ) (b : Interface)
    → src_ip < 2 ^ 32
    → b.host.our_ip < 2 ^ 32
    → len ≤ 1500
    → IsSent packet src_ip b.host.our_ip protocol len b
    → ipv4_handle_packet packet (20 + len) b ≡ deliver protocol (λ k. packet (20 + k)) len src_ip b
unfolding ipv4_handle_packet for_us
handle-IsSent packet src_ip protocol len b s d l h =
    let total : ntohs (load16 packet 2) ≡ 20 + len =
      ap ntohs h.total ∙ ntohs-ntohs (20 + len) (omega arith) in
    let source : load_ip (load_bytes4 packet 12) ≡ src_ip =
      ap load_ip h.source ∙ load_to_bytes src_ip s in
    let target : load_ip (load_bytes4 packet 16) ≡ b.host.our_ip =
      ap load_ip h.target ∙ load_to_bytes b.host.our_ip d in
    let checked : (ip_checksum (header_copy packet b) 20 == load16 packet 10) ≡ true =
      rw h.checked (==-self (load16 packet 10)) in
    let len' : (20 + len + 2 ^ 64 - 20) % 2 ^ 64 ≡ len = omega arith in
    let long : ltb (20 + len) 20 ≡ false = ground arith in
    let fits : ltb (20 + len) (20 + len) ≡ false = ground arith in
    rw (h.version, checked, total, source, target, h.kind, len', long, fits, ==-self b.host.our_ip)
      refl

copy-same :
    (header packet stack : Bytes) (c k : ℕ)
    → header 10 ≡ 0
    → header 11 ≡ 0
    → k < 20
    → packet k ≡ store16 10 c header k
    → append_at 20 (store16 10 0 packet) stack k ≡ header k
copy-same header packet stack c k z z' h e = ground arith

frame-header :
    (dst src : MacAddr) (type k : ℕ) (header payload : Bytes)
    → k < 20
    → eth_frame dst src type (append_at 20 header payload) (14 + k) ≡ header k
unfolding eth_frame
frame-header dst src type k header payload h =
    let behind : ltb (14 + k) 14 ≡ false = ground arith in
    let inside : ltb k 20 ≡ true = ground arith in
    let back : 14 + k - 14 ≡ k = omega arith in rw (behind, back, inside) refl

frame-payload :
    (dst src : MacAddr) (type k : ℕ) (header payload : Bytes)
    → eth_frame dst src type (append_at 20 header payload) (34 + k) ≡ payload k
unfolding eth_frame
frame-payload dst src type k header payload =
    let behind : ltb (34 + k) 14 ≡ false = ground arith in
    let below : ltb (34 + k - 14) 20 ≡ false = ground arith in
    let back : 34 + k - 14 - 20 ≡ k = omega arith in rw (behind, below, back) refl

-- The checksum that the receiver computes is that of the sender's header, in the packet.
checksum_sent :
    (header packet stack : Bytes)
    → header 10 ≡ 0
    → header 11 ≡ 0
    → ((k : ℕ) → k < 20 → packet k ≡ store16 10 (ip_checksum header 20) header k)
    → ip_checksum (append_at 20 (store16 10 0 packet) stack) 20 ≡ load16 packet 10
unfolding load16
checksum_sent header packet stack z z' e =
    let c = ip_checksum header 20 in
    let stored : packet 10 + 256 * packet 11 ≡ c =
      rw (e 10 (omega arith), e 11 (omega arith)) (omega (arith, ip_checksum-bound header 20)) in
    ip_checksum-same 20 (append_at 20 (store16 10 0 packet) stack) header
      (λ k h. copy-same header packet stack c k z z' h (e k h))
    ∙ sym stored

frame-IsSent :
    (received : Bytes) (dst src : MacAddr) (payload : Bytes) (dst_ip protocol len : ℕ)
    (a b : Interface)
    → len ≤ 1500
    → ((k : ℕ)
        → k < 34 + len
        → received k
          ≡ eth_frame dst src 0x0800 (ipv4_packet dst_ip protocol (20 + len) payload a) k)
    → IsSent (λ k. received (14 + k)) a.host.our_ip dst_ip protocol len b
unfolding load16 eth_frame ipv4_packet ipv4_header header_copy
frame-IsSent received dst src payload dst_ip protocol len a b l agree =
    let cell : (k : ℕ)
        → k < 34
        → received k
          ≡ eth_frame dst src 0x0800 (ipv4_packet dst_ip protocol (20 + len) payload a) k =
      λ k h. agree k (omega arith) in
    let small : (20 + len) % 2 ^ 16 ≡ 20 + len = omega arith in
    let header = ipv4_header dst_ip protocol (20 + len) a in
    record {
      version = cell 14 (omega arith);
      total =
          rw (cell 16 (omega arith), cell 17 (omega arith))
            (omega (arith, ntohs-bound ((20 + len) % 2 ^ 16) (omega arith), ap ntohs small));
      kind = cell 23 (omega arith);
      source =
          rw
            (
              cell 26 (omega arith),
              cell 27 (omega arith),
              cell 28 (omega arith),
              cell 29 (omega arith),
            )
            refl;
      target =
          rw
            (
              cell 30 (omega arith),
              cell 31 (omega arith),
              cell 32 (omega arith),
              cell 33 (omega arith),
            )
            refl;
      checked =
          checksum_sent header (λ k. received (14 + k)) b.stack refl refl
            (λ k h.
              cell (14 + k) (omega arith)
              ∙ frame-header dst src 0x0800 k (store16 10 (ip_checksum header 20) header) payload
                  h);
    }

same_mac_self : (m : MacAddr) → same_mac m m ≡ true
unfolding same_mac
same_mac_self m =
    rw
      (
        ==-self m.addr0,
        ==-self m.addr1,
        ==-self m.addr2,
        ==-self m.addr3,
        ==-self m.addr4,
        ==-self m.addr5,
      )
      refl

received_type :
    (received : Bytes) (dst src : MacAddr) (packet : Bytes)
    → received 12 ≡ eth_frame dst src 0x0800 packet 12
    → received 13 ≡ eth_frame dst src 0x0800 packet 13
    → ntohs (load16 received 12) ≡ 0x0800
unfolding ntohs load16 eth_frame
received_type received dst src packet e e' = rw (e, e') refl

and_false : (x : Bool) → (x && false) ≡ false
and_false true = refl
and_false false = refl

receive-IsSent :
    (received payload : Bytes) (src : MacAddr) (protocol len : ℕ) (a b : Interface)
    → a.host.our_ip < 2 ^ 32
    → b.host.our_ip < 2 ^ 32
    → len ≤ 1500
    → ((k : ℕ)
        → k < 34 + len
        → received k
          ≡ eth_frame b.host.our_mac src 0x0800
              (ipv4_packet b.host.our_ip protocol (20 + len) payload a)
              k)
    → net_receive received (34 + len) b
      ≡ deliver protocol (λ k. received (14 + (20 + k))) len a.host.our_ip b
unfolding net_receive eth_frame
receive-IsSent received payload src protocol len a b s d l agree =
    let cell : (k : ℕ)
        → k < 14
        → received k
          ≡ eth_frame b.host.our_mac src 0x0800
              (ipv4_packet b.host.our_ip protocol (20 + len) payload a) k =
      λ k h. agree k (omega arith) in
    let address : load_mac received 0 ≡ b.host.our_mac =
      rw
        (
          cell 0 (omega arith),
          cell 1 (omega arith),
          cell 2 (omega arith),
          cell 3 (omega arith),
          cell 4 (omega arith),
          cell 5 (omega arith),
        )
        refl in
    let type : ntohs (load16 received 12) ≡ 0x0800 =
      received_type received b.host.our_mac src
        (ipv4_packet b.host.our_ip protocol (20 + len) payload a) (cell 12 (omega arith))
        (cell 13 (omega arith)) in
    let long : ltb (34 + len) 14 ≡ false = ground arith in
    let rest : 34 + len - 14 ≡ 20 + len = omega arith in
    rw
      (
        address,
        type,
        long,
        rest,
        same_mac_self b.host.our_mac,
        and_false (not (is_broadcast b.host.our_mac)),
      )
      (handle-IsSent (λ k. received (14 + k)) a.host.our_ip protocol len b s d l
        (frame-IsSent received b.host.our_mac src payload b.host.our_ip protocol len a b l agree))

sent-frame :
    (payload : Bytes) (mac : MacAddr) (protocol len dst_ip : ℕ) (a : Interface)
    → dst_ip ≢ 0xFFFFFFFF
    → len ≤ 1500
    → arp_cache_lookup (next_hop dst_ip a) a.host.cache ≡ some mac
    → let frame =
        eth_frame mac a.host.our_mac 0x0800 (ipv4_packet dst_ip protocol (20 + len) payload a) in
      ipv4_send dst_ip protocol payload len a ≡ (
        a.transmit frame (34 + len),
        record a { ip_ident = (a.ip_ident + 1) % 2 ^ 16; sent = (frame, 34 + len) ∷ a.sent },
      )
unfolding ipv4_send eth_send arp_resolve next_hop
sent-frame payload mac protocol len dst_ip a n l known =
    let fits : ltb 1520 (20 + len) ≡ false = ground arith in
    let short : ltb 1578 (14 + (20 + len)) ≡ false = ground arith in
    let total : 14 + (20 + len) ≡ 34 + len = omega arith in
    rw (fits, ne→== dst_ip 0xFFFFFFFF n, known, short, total) refl

-- `ipv4_send` hands one frame to the driver, whose answer it returns, where the payload has at most
-- 1500 bytes, the address is not that of broadcast and the hardware address of the next hop is in
-- the cache. A host with this hardware address and the target's IP address, into whose memory the
-- frame comes, whatever stands behind it, gives the protocol's handler the payload, byte for byte,
-- with its length and the sender's address. IP addresses have 32 bits.
pub ipv4_send-delivered :
    (received payload : Bytes) (mac : MacAddr) (protocol len : ℕ) (a b : Interface)
    → a.host.our_ip < 2 ^ 32
    → b.host.our_ip < 2 ^ 32
    → b.host.our_ip ≢ 0xFFFFFFFF
    → len ≤ 1500
    → arp_cache_lookup (next_hop b.host.our_ip a) a.host.cache ≡ some mac
    → b.host.our_mac ≡ mac
    → let frame =
        eth_frame mac a.host.our_mac 0x0800
          (ipv4_packet b.host.our_ip protocol (20 + len) payload a) in
      let sent = ipv4_send b.host.our_ip protocol payload len a in
      let packet : Bytes = λ k. received (34 + k) in
      (sent.0 ≡ a.transmit frame (34 + len))
      × (sent.1.sent ≡ (frame, 34 + len) ∷ a.sent)
      × (((k : ℕ) → k < 34 + len → received k ≡ frame k)
          → (net_receive received (34 + len) b ≡ deliver protocol packet len a.host.our_ip b)
            × ((k : ℕ) → k < len → packet k ≡ payload k))
unfolding ipv4_packet
ipv4_send-delivered received payload mac protocol len a b s d n l known own =
    let packet = ipv4_packet b.host.our_ip protocol (20 + len) payload a in
    let out = sent-frame payload mac protocol len b.host.our_ip a n l known in
    (
      ap (λ r. r.0) out,
      ap (λ r. r.1.sent) out,
      λ agree. (
        receive-IsSent received payload a.host.our_mac protocol len a b s d l
              (λ k h. agree k h ∙ ap (λ m. eth_frame m a.host.our_mac 0x0800 packet k) (sym own))
            ∙ ap (λ p. deliver protocol p len a.host.our_ip b)
                (fun_ext (λ k. ap received (omega arith))),
        λ k h. agree (34 + k) (omega arith) ∙ frame-payload mac a.host.our_mac 0x0800 k _ payload,
      ),
    )
