-- ===== src/Net/Configuration.antt =====
-- The configuration of the interface in net.cpp (addresses and the state of the DHCP client), under
-- what is sent and received.
use vortex_os.Base.{
  ℕ, ◌+◌, ◌%◌, ◌*◌, ◌-◌, ◌^◌, ◌≡◌, ◌∙◌, refl, ap, Bool, Option, Option-cases, inl, inr, none, some,
  List, [], ◌∷◌, arith,
}
use vortex_os.Net.{Bytes, MacAddr, ntohs, load16}
use vortex_os.Net.Address.{load_ip}
use vortex_os.Net.Exchange.{ArpPacket, Host, Frame, arp_handle_packet, arp_resolve, broadcast_mac}
use vortex_os.Net.Frames.{
  DhcpClientState, load_arp, load_bytes4, waiting_offer, Interface, load_arp, eth_send, send_arp,
}
use vortex_os.Net.Ipv4.{
  ipv4_packet, next_hop, ipv4_send, icmp_reply, icmp_handle_echo, deliver, ipv4_handle_packet,
  receive_arp, net_receive,
}
use vortex_os.Net.Dhcp.{dhcp_send, dhcp_send_discover, clear_tables, net_init}

-- The address, the mask, the gateway, whether the interface is ready, and the client's state.
abbrev pub configuration : Interface → ℕ × ℕ × ℕ × Bool × DhcpClientState
configuration s = (s.host.our_ip, s.subnet_mask, s.gateway_ip, s.net_ready, s.dhcp_state)

eth_send-configuration :
    (dst : MacAddr) (type : ℕ) (payload : Bytes) (len : ℕ) (s : Interface)
    → configuration (eth_send dst type payload len s).1 ≡ configuration s
unfolding eth_send
eth_send-configuration dst type payload len s = ground arith

send_arp-configuration :
    (f : Option Frame) (s : Interface) → configuration (send_arp f s) ≡ configuration s
unfolding send_arp
send_arp-configuration none s = refl
send_arp-configuration (some f) s = eth_send-configuration _ _ _ _ s

ipv4_send-configuration :
    (dst_ip protocol : ℕ) (payload : Bytes) (len : ℕ) (s : Interface)
    → configuration (ipv4_send dst_ip protocol payload len s).1 ≡ configuration s
unfolding ipv4_send
ipv4_send-configuration dst_ip protocol payload len s =
    let s1 = record s { ip_ident = (s.ip_ident + 1) % 2 ^ 16 } in
    let buf = ipv4_packet dst_ip protocol (20 + len) payload s in
    let broadcast = eth_send-configuration broadcast_mac 0x0800 buf (20 + len) s1 in
    let hop = arp_resolve (next_hop dst_ip s1) s1.host in
    let request = send_arp-configuration hop.1 s1 in
    elim (Option-cases hop.0) [
      | inl e ↦ rw e ground (arith, broadcast, request)
      | inr (mac, e) ↦
          rw e ground (arith, broadcast, eth_send-configuration mac 0x0800 buf (20 + len) s1)
    ]

icmp-configuration :
    (packet : Bytes) (len src_ip : ℕ) (s : Interface)
    → configuration (icmp_handle_echo packet len src_ip s) ≡ configuration s
unfolding icmp_handle_echo
icmp-configuration packet len src_ip s =
    let sent : (n : ℕ)
        → configuration (ipv4_send src_ip 1 (icmp_reply packet n) n s).1 ≡ configuration s =
      λ n. ipv4_send-configuration src_ip 1 (icmp_reply packet n) n s in
    ground (arith, sent len, sent 512)

deliver-configuration :
    (protocol : ℕ) (payload : Bytes) (len src_ip : ℕ) (s : Interface)
    → configuration (deliver protocol payload len src_ip s) ≡ configuration s
unfolding deliver
deliver-configuration protocol payload len src_ip s =
    ground (arith, icmp-configuration payload len src_ip s)

ipv4-configuration :
    (packet : Bytes) (len : ℕ) (s : Interface)
    → configuration (ipv4_handle_packet packet len s) ≡ configuration s
unfolding ipv4_handle_packet
ipv4-configuration packet len s = ground (
  arith,
  deliver-configuration (packet 9) (λ k. packet (packet 0 % 16 * 4 + k))
      ((ntohs (load16 packet 2) + 2 ^ 64 - packet 0 % 16 * 4) % 2 ^ 64)
      (load_ip (load_bytes4 packet 12)) s,
)

arp-our_ip :
    (arp : ArpPacket) (len : ℕ) (h : Host) → (arp_handle_packet arp len h).1.our_ip ≡ h.our_ip
unfolding arp_handle_packet
arp-our_ip arp len h = ground arith

arp-configuration :
    (payload : Bytes) (len : ℕ) (s : Interface)
    → configuration (receive_arp payload len s) ≡ configuration s
unfolding receive_arp
arp-configuration payload len s =
    send_arp-configuration _ _
    ∙ ap (λ ip. (ip, s.subnet_mask, s.gateway_ip, s.net_ready, s.dhcp_state))
        (arp-our_ip (load_arp payload) len s.host)

net_receive-configuration :
    (frame : Bytes) (len : ℕ) (s : Interface)
    → configuration (net_receive frame len s) ≡ configuration s
unfolding net_receive
net_receive-configuration frame len s =
    let payload : Bytes = λ k. frame (14 + k) in
    ground (arith, arp-configuration payload (len - 14) s, ipv4-configuration payload (len - 14) s)

-- The frames that arrive, one after another, with their lengths.
abbrev pub receive_all : List (Bytes × ℕ) → Interface → Interface
receive_all [] s = s
receive_all ((frame, len) ∷ frames) s = receive_all frames (net_receive frame len s)

receive_all-configuration :
    (frames : List (Bytes × ℕ)) (s : Interface)
    → configuration (receive_all frames s) ≡ configuration s
receive_all-configuration [] s = refl
receive_all-configuration ((frame, len) ∷ frames) s =
    receive_all-configuration frames (net_receive frame len s)
    ∙ net_receive-configuration frame len s

net_init-configuration :
    (mac : MacAddr) (s : Interface)
    → configuration (net_init mac s)
      ≡ (s.host.our_ip, s.subnet_mask, s.gateway_ip, s.net_ready, waiting_offer)
unfolding net_init dhcp_send_discover dhcp_send clear_tables
net_init-configuration mac s = ipv4_send-configuration 0xFFFFFFFF 17 _ _ _

-- The DHCP client never gets further than its first packet: after `net_init`, whatever frames
-- arrive in whatever number, the client waits for an offer, and the addresses of the interface, its
-- mask, its gateway and whether it is ready are what they were before.
pub net_init-waits :
    (mac : MacAddr) (frames : List (Bytes × ℕ)) (s : Interface)
    → configuration (receive_all frames (net_init mac s))
      ≡ (s.host.our_ip, s.subnet_mask, s.gateway_ip, s.net_ready, waiting_offer)
net_init-waits mac frames s =
    receive_all-configuration frames (net_init mac s) ∙ net_init-configuration mac s
