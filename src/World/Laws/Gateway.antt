-- ===== src/World/Laws/Gateway.antt =====
-- The ARP request for the gateway, which packetLoop repeats.
use mathlib.Core.List.{append_assoc}
use ether_house.Base.{
  List, [], ◌++◌, sym, ℕ, ◌+◌, ◌^◌, ◌≡◌, ◌≢◌, refl, ap, ◌∙◌, Bool, true, false, not, ◌&&◌, ◌||◌,
  ◌==◌, if◌then◌else◌, ◌∷◌, bit_or, bit_and, ◌*◌, u8, u16, arith, ip_at, Ip,
}
use ether_house.Net.{Net, Frame}
use ether_house.Net.Lan.{is_lan}
use ether_house.Net.Frames.{set_macs, fill_ip_hdr_checksum, set_mac_and_ips}
use ether_house.Net.Frames.Requests.{client_arp_whohas, client_syn, address_to, ip_template}
use ether_house.World.Packets.{
  has, idle, idle_gateway, idle_syn, idle_dns, idle_dest, wgw_have_gw_mac, wgw_accept_arp_reply,
  wgw_initial_arp, wgw_refreshing,
}

-- The host waits for the address of its gateway, or looks for it again.
abbrev pub looks_for_gateway : Net → Bool
looks_for_gateway n = has n.waitgwmac wgw_initial_arp || has n.waitgwmac wgw_refreshing

abbrev pub Same : Net → Net → Type 0
Same n n' = (n'.waitgwmac ≡ n.waitgwmac) × (n'.gwip ≡ n.gwip) × (n'.delaycnt ≡ n.delaycnt)

either-Same : (t : Bool) (n n' : Net) → Same n n' → Same n (if t then n' else n)
either-Same true n n' h = h
either-Same false n n' h = (refl, refl, refl)

pub trans-Same : (n n' m : Net) → Same n n' → Same n' m → Same n m
trans-Same n n' m (a, b, c) (a', b', c') = (a' ∙ a, b' ∙ b, c' ∙ c)

address_to-Same : (n : Net) → Same n (address_to n.hisip n)
unfolding address_to set_mac_and_ips set_macs
address_to-Same n = (ground arith, ground arith, ground arith)

client_syn-Same : (port h l : ℕ) (n : Net) → Same n (client_syn port h l n)
unfolding client_syn ip_template fill_ip_hdr_checksum
client_syn-Same port h l n = address_to-Same n

idle_syn-Same : (n : Net) → Same n (idle_syn n)
unfolding idle_syn
idle_syn-Same n =
    let port = u8 (n.tcpclient_src_port_l + 1) in
    let srcport = u8 (bit_or (n.tcp_fd * 2 ^ 5) (bit_and 0x1f port)) in
    let begun = record n { tcp_client_state = 2; tcpclient_src_port_l = port } in
    either-Same (n.tcp_client_state == 1 && has n.waitgwmac wgw_have_gw_mac) n
      (client_syn srcport n.tcp_client_port_h n.tcp_client_port_l begun)
      (client_syn-Same srcport n.tcp_client_port_h n.tcp_client_port_l begun)

idle_dns-Same : (n : Net) → Same n (idle_dns n)
unfolding idle_dns client_arp_whohas set_macs
idle_dns-Same n =
    either-Same (is_lan n n.myip n.dnsip && not n.has_dns_mac && not n.waiting_for_dns_mac) n
      (record (client_arp_whohas n.dnsip n) { waiting_for_dns_mac = true }) (refl, refl, refl)

idle_dest-Same : (n : Net) → Same n (idle_dest n)
unfolding idle_dest client_arp_whohas set_macs
idle_dest-Same n =
    either-Same (is_lan n n.myip n.hisip && not n.has_dest_mac && not n.waiting_for_dest_mac) n
      (record (client_arp_whohas n.hisip n) { waiting_for_dest_mac = true }) (refl, refl, refl)

-- A pass in which no request for the gateway is due counts up.
pub counted :
    (n : Net) → n.delaycnt ≢ 0 → Same (record n { delaycnt = u16 (n.delaycnt + 1) }) (idle true n)
unfolding idle idle_gateway
counted n h =
    let n1 = idle_gateway true n in
    let n2 = record n1 { delaycnt = u16 (n1.delaycnt + 1) } in
    trans-Same (record n { delaycnt = u16 (n.delaycnt + 1) }) n2 (idle true n)
      (ground (arith, h), ground (arith, h), ground (arith, h))
      (trans-Same n2 (idle_syn n2) (idle true n) (idle_syn-Same n2) (
        trans-Same (idle_syn n2) (idle_dns (idle_syn n2)) (idle true n)
          (idle_dns-Same (idle_syn n2)) (idle_dest-Same (idle_dns (idle_syn n2)))))

-- A frame that asks who has the address.
abbrev pub AsksFor : Ip → Frame → Type 0
AsksFor ip f =
    (f.size ≡ 42)
    × (f.bytes 0x0c ≡ 0x08)
    × (f.bytes 0x0d ≡ 0x06)
    × (f.bytes 0x15 ≡ 1)
    × (ip_at f.bytes 0x26 ≡ ip)

-- Where the request is due, it is sent, and the answer is accepted from then on.
abbrev pub Sends : Net → Net → Type 0
Sends n n' =
    (f : Frame) × (n'.sent ≡ f ∷ n.sent)
    × AsksFor n.gwip f
    × (n'.waitgwmac ≡ bit_or n.waitgwmac wgw_accept_arp_reply)

pub asked : (n : Net) → looks_for_gateway n ≡ true → n.delaycnt ≡ 0 → Sends n (idle_gateway true n)
unfolding idle_gateway client_arp_whohas set_macs
asked n h e = by_test (looks_for_gateway n && n.delaycnt == 0 && true) (ground (arith, h, e))
  where
    by_test :
        (t : Bool)
        → t ≡ true
        → Sends n (
            if t
            then record (client_arp_whohas n.gwip n) {
              waitgwmac = bit_or n.waitgwmac wgw_accept_arp_reply;
            }
            else n)
    by_test true e' = (_, refl, (refl, refl, refl, refl, refl), refl)
    by_test false e' = absurd (ground (arith, e'))

-- What was sent before stays.
abbrev pub Grows : Net → Net → Type 0
Grows n n' = (more : List Frame) × (n'.sent ≡ more ++ n.sent)

either-Grows : (t : Bool) (n n' : Net) → Grows n n' → Grows n (if t then n' else n)
either-Grows true n n' h = h
either-Grows false n n' h = ([], refl)

pub trans-Grows : (n n' m : Net) → Grows n n' → Grows n' m → Grows n m
trans-Grows n n' m (a, e) (b, e') =
    (b ++ a, e' ∙ ap (λ l. b ++ l) e ∙ sym (append_assoc b a n.sent))

address_to-sent : (n : Net) → (address_to n.hisip n).sent ≡ n.sent
unfolding address_to set_mac_and_ips set_macs
address_to-sent n = ground arith

one_more : (f : Frame) (xs ys : List Frame) → xs ≡ ys → (more : List Frame) × (f ∷ xs ≡ more ++ ys)
one_more f xs ys e = (f ∷ [], ap (λ l. f ∷ l) e)

client_syn-Grows : (port h l : ℕ) (n : Net) → Grows n (client_syn port h l n)
unfolding client_syn ip_template fill_ip_hdr_checksum
client_syn-Grows port h l n = one_more _ (address_to n.hisip n).sent n.sent (address_to-sent n)

idle_syn-Grows : (n : Net) → Grows n (idle_syn n)
unfolding idle_syn
idle_syn-Grows n =
    let port = u8 (n.tcpclient_src_port_l + 1) in
    let srcport = u8 (bit_or (n.tcp_fd * 2 ^ 5) (bit_and 0x1f port)) in
    let begun = record n { tcp_client_state = 2; tcpclient_src_port_l = port } in
    either-Grows (n.tcp_client_state == 1 && has n.waitgwmac wgw_have_gw_mac) n
      (client_syn srcport n.tcp_client_port_h n.tcp_client_port_l begun)
      (client_syn-Grows srcport n.tcp_client_port_h n.tcp_client_port_l begun)

idle_dns-Grows : (n : Net) → Grows n (idle_dns n)
unfolding idle_dns client_arp_whohas set_macs
idle_dns-Grows n =
    either-Grows (is_lan n n.myip n.dnsip && not n.has_dns_mac && not n.waiting_for_dns_mac) n
      (record (client_arp_whohas n.dnsip n) { waiting_for_dns_mac = true }) (_ ∷ [], refl)

idle_dest-Grows : (n : Net) → Grows n (idle_dest n)
unfolding idle_dest client_arp_whohas set_macs
idle_dest-Grows n =
    either-Grows (is_lan n n.myip n.hisip && not n.has_dest_mac && not n.waiting_for_dest_mac) n
      (record (client_arp_whohas n.hisip n) { waiting_for_dest_mac = true }) (_ ∷ [], refl)

-- What a pass does behind the gateway's part.
pub rest-Grows : (n : Net) → Grows n (idle_dest (idle_dns (idle_syn n)))
rest-Grows n = trans-Grows n (idle_syn n) (idle_dest (idle_dns (idle_syn n))) (idle_syn-Grows n) (
    trans-Grows (idle_syn n) (idle_dns (idle_syn n)) (idle_dest (idle_dns (idle_syn n)))
      (idle_dns-Grows (idle_syn n)) (idle_dest-Grows (idle_dns (idle_syn n))))

pub rest-Same : (n : Net) → Same n (idle_dest (idle_dns (idle_syn n)))
rest-Same n = trans-Same n (idle_syn n) (idle_dest (idle_dns (idle_syn n))) (idle_syn-Same n) (
    trans-Same (idle_syn n) (idle_dns (idle_syn n)) (idle_dest (idle_dns (idle_syn n)))
      (idle_dns-Same (idle_syn n)) (idle_dest-Same (idle_dns (idle_syn n))))
