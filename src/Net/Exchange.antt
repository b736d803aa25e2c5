-- ===== src/Net/Exchange.antt =====
-- Address resolution in net.cpp: the request that is sent, the handler of the packets that
-- arrive, and `arp_resolve`. A packet is its fields, as they stand in memory.
use vortex_os.Base.{
  ℕ, ◌^◌, ◌<◌, ◌≡◌, ◌∙◌, not, ◌&&◌, ◌||◌, Option, none, some, ltb, ◌==◌, if◌then◌else◌, ==-self,
}
use vortex_os.Net.{ntohs, MacAddr, ArpCache, arp_cache_insert, arp_cache_lookup}
use vortex_os.Net.Address.{Bytes4, ip_to_bytes, load_ip, load_to_bytes}
use vortex_os.Net.Arp.{IsCache, arp_cache_insert-lookup}

pub record ArpPacket : Type 0 where
  pub htype : ℕ
  pub ptype : ℕ
  pub hlen : ℕ
  pub plen : ℕ
  pub oper : ℕ
  pub sha : MacAddr
  pub spa : Bytes4
  pub tha : MacAddr
  pub tpa : Bytes4

-- The state that address resolution reads and writes.
pub record Host : Type 0 where
  pub our_mac : MacAddr
  pub our_ip : ℕ
  pub cache : ArpCache

-- A frame handed to `eth_send` with the type `ETHERTYPE_ARP`: where it goes, and the packet.
abbrev pub Frame : Type 0
Frame = MacAddr × ArpPacket

abbrev pub broadcast_mac : MacAddr
broadcast_mac = record {
  addr0 = 255;
  addr1 = 255;
  addr2 = 255;
  addr3 = 255;
  addr4 = 255;
  addr5 = 255;
}

abbrev pub null_mac : MacAddr
null_mac = record { addr0 = 0; addr1 = 0; addr2 = 0; addr3 = 0; addr4 = 0; addr5 = 0 }

abbrev pub arp_packet_size : ℕ
arp_packet_size = 28

-- What `arp_send_request` sends.
unfoldable pub arp_request : (target_ip : ℕ) → Host → Frame
arp_request target_ip h = (
  broadcast_mac,
  record {
    htype = ntohs 1;
    ptype = ntohs 0x0800;
    hlen = 6;
    plen = 4;
    oper = ntohs 1;
    sha = h.our_mac;
    spa = ip_to_bytes h.our_ip;
    tha = null_mac;
    tpa = ip_to_bytes target_ip;
  },
)

unfoldable pub arp_reply : ArpPacket → Host → Frame
arp_reply arp h = (
  arp.sha,
  record {
    htype = ntohs 1;
    ptype = ntohs 0x0800;
    hlen = 6;
    plen = 4;
    oper = ntohs 2;
    sha = h.our_mac;
    spa = ip_to_bytes h.our_ip;
    tha = arp.sha;
    tpa = arp.spa;
  },
)

-- The frame that is sent, if any, comes first.
unfoldable pub arp_handle_packet : ArpPacket → (len : ℕ) → Host → Option Frame × Host
arp_handle_packet arp len h =
    let h1 = record h { cache = arp_cache_insert (load_ip arp.spa) arp.sha h.cache } in
    if ltb len arp_packet_size
    then (none, h)
    else if not (ntohs arp.htype == 1) || not (ntohs arp.ptype == 0x0800)
    then (none, h)
    else if (ntohs arp.oper == 1) && (load_ip arp.tpa == h1.our_ip)
    then (some (arp_reply arp h1), h1)
    else (none, h1)

-- The address, if it is known, and the frame that is sent otherwise.
unfoldable pub arp_resolve : (ip : ℕ) → Host → Option MacAddr × Option Frame
arp_resolve ip h = elim (arp_cache_lookup ip h.cache) [
  | some mac ↦ (some mac, none)
  | none ↦ (none, some (arp_request ip h))
]

handle-request :
    (a b : Host)
    → a.our_ip < 2 ^ 32
    → b.our_ip < 2 ^ 32
    → arp_handle_packet (arp_request b.our_ip a).1 arp_packet_size b ≡ (
      some (arp_reply (arp_request b.our_ip a).1 b),
      record b { cache = arp_cache_insert a.our_ip a.our_mac b.cache },
    )
unfolding arp_handle_packet arp_request ntohs arp_reply
handle-request a b h k = rw (load_to_bytes a.our_ip h, load_to_bytes b.our_ip k, ==-self b.our_ip)

handle-reply :
    (a b : Host)
    → b.our_ip < 2 ^ 32
    → arp_handle_packet (arp_reply (arp_request b.our_ip a).1 b).1 arp_packet_size a
      ≡ (none, record a { cache = arp_cache_insert b.our_ip b.our_mac a.cache })
unfolding arp_handle_packet arp_request ntohs arp_reply
handle-reply a b k = rw (load_to_bytes b.our_ip k)

resolve-known :
    (ip : ℕ) (mac : MacAddr) (h : Host)
    → arp_cache_lookup ip h.cache ≡ some mac
    → arp_resolve ip h ≡ (some mac, none)
unfolding arp_resolve
resolve-known ip mac h e = rw (arp_resolve, e)

resolve-unknown :
    (ip : ℕ) (h : Host)
    → arp_cache_lookup ip h.cache ≡ none
    → arp_resolve ip h ≡ (none, some (arp_request ip h))
unfolding arp_resolve
resolve-unknown ip h e = rw (arp_resolve, e)

insert-found :
    (ip : ℕ) (mac : MacAddr) (c : ArpCache)
    → IsCache c
    → arp_cache_lookup ip (arp_cache_insert ip mac c) ≡ some mac
insert-found ip mac c v = (arp_cache_insert-lookup ip mac ip c v).1 ∙ rw (==-self ip)

-- The host `a` does not know the address of `b`, both have 32-bit addresses, and no cache holds an
-- address twice: `arp_resolve` on `a` finds nothing and sends a request; `b`, when it handles the
-- request, learns the address of `a` and sends a reply to `a`; `a` handles the reply without a
-- frame of its own, and then `arp_resolve` on `a` gives the hardware address of `b`.
pub arp_resolve-exchange :
    (a b : Host)
    → a.our_ip < 2 ^ 32
    → b.our_ip < 2 ^ 32
    → IsCache a.cache
    → IsCache b.cache
    → arp_cache_lookup b.our_ip a.cache ≡ none
    → (request reply : ArpPacket) × (a' b' : Host) × (arp_resolve b.our_ip a
        ≡ (none, some (broadcast_mac, request)))
      × (arp_handle_packet request arp_packet_size b ≡ (some (a.our_mac, reply), b'))
      × (arp_resolve a.our_ip b' ≡ (some a.our_mac, none))
      × (arp_handle_packet reply arp_packet_size a ≡ (none, a'))
      × (arp_resolve b.our_ip a' ≡ (some b.our_mac, none))
unfolding arp_request arp_reply
arp_resolve-exchange a b h k v w unknown = (
  (arp_request b.our_ip a).1,
  (arp_reply (arp_request b.our_ip a).1 b).1,
  record a { cache = arp_cache_insert b.our_ip b.our_mac a.cache },
  record b { cache = arp_cache_insert a.our_ip a.our_mac b.cache },
  resolve-unknown b.our_ip a unknown,
  handle-request a b h k,
  resolve-known a.our_ip a.our_mac _ (insert-found a.our_ip a.our_mac b.cache w),
  handle-reply a b k,
  resolve-known b.our_ip b.our_mac _ (insert-found b.our_ip b.our_mac a.cache v),
)
