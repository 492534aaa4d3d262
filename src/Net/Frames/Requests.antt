-- ===== src/Net/Frames/Requests.antt =====
-- The packets that tcpip.cpp sends on its own account: ARP, ICMP, UDP, NTP, Wake-on-LAN and SYN.
use ether_house.Base.{
  ℕ, zero, suc, ◌+◌, ◌*◌, ◌/◌, ◌^◌, bit_and, not, ◌&&◌, ◌||◌, ◌==◌, ltb, if◌then◌else◌, Option,
  none, some, List, [], ◌∷◌, Memory, Ip, Mac, put_ip, put_mac, ip_eqb, writes, store, fill, u8,
}
use ether_house.Net.{Net, packet_send}
use ether_house.Net.Checksum.{fill_checksum}
use ether_house.Net.Lan.{is_lan}
use ether_house.Net.Frames.{poke, set_macs, set_mac_and_ips, fill_ip_hdr_checksum}
use ether_house.Sketch.{all_ones, no_mac}
use ether_house.Net.Layout.{
  eth_header_len, eth_dst_mac, eth_type_h_p, eth_type_l_p, ethtype_ip_h_v, ethtype_ip_l_v,
  ethtype_arp_h_v, ethtype_arp_l_v, eth_arp_p, eth_arp_src_mac_p, eth_arp_src_ip_p,
  eth_arp_dst_mac_p, eth_arp_dst_ip_p, ip_src_p, ip_p, ip_header_len, ip_totlen_h_p, ip_totlen_l_p,
  ip_proto_p, ip_proto_icmp_v, ip_proto_udp_v, ip_proto_tcp_v, icmp_type_p, icmp_type_echorequest_v,
  icmp_checksum_h_p, icmp_checksum_l_p, icmp_ident_h_p, icmp_ident_l_p, icmp_data_p, udp_header_len,
  udp_src_port_h_p, udp_src_port_l_p, udp_dst_port_h_p, udp_dst_port_l_p, udp_len_h_p, udp_len_l_p,
  udp_checksum_h_p, udp_checksum_l_p, udp_data_p, tcp_dst_port_h_p, tcp_dst_port_l_p,
  tcp_src_port_h_p, tcp_src_port_l_p, tcp_seq_h_p, tcp_header_len_p, tcp_header_len_plain,
  tcp_flags_p, tcp_flags_syn_v, tcp_win_size, tcp_checksum_h_p, tcp_checksum_l_p, tcp_options_p,
}

abbrev pub pingpattern : ℕ
pingpattern = 0x42

abbrev pub tcpclient_src_port_h : ℕ
tcpclient_src_port_h = 11

abbrev pub clientmss : ℕ
clientmss = 550

abbrev pub arpreqhdr : List ℕ
arpreqhdr = 0 ∷ 1 ∷ 8 ∷ 0 ∷ 6 ∷ 4 ∷ 0 ∷ 1 ∷ []

abbrev pub iphdr : List ℕ
iphdr = 0x45 ∷ 0 ∷ 0 ∷ 0x82 ∷ 0 ∷ 0 ∷ 0x40 ∷ 0 ∷ 0x20 ∷ []

abbrev pub ntpreqhdr : List ℕ
ntpreqhdr = 0xe3 ∷ 0 ∷ 4 ∷ 0xfa ∷ 0 ∷ 1 ∷ 0 ∷ 0 ∷ 0 ∷ 1 ∷ []

-- The header of a packet to `dip`, by the own network or the gateway, up to the IP header's ninth byte.
unfoldable pub address_to : Ip → Net → Net
unfolding set_mac_and_ips
address_to dip n =
    let n1 =
      (if is_lan n n.myip dip
        then set_mac_and_ips n.destmacaddr dip n
        else set_mac_and_ips n.gwmacaddr dip n) in
    n1

-- The IP type and memcpy_P(gPB + IP_P, iphdr, 9).
unfoldable pub ip_template : Net → Net
ip_template n = record n {
  buffer =
      store (writes n.buffer ((eth_type_h_p, ethtype_ip_h_v) ∷ (eth_type_l_p, ethtype_ip_l_v) ∷ []))
        ip_p iphdr 9;
}

unfoldable pub client_icmp_request : Ip → Net → Net
client_icmp_request destip n =
    let n1 = fill_ip_hdr_checksum (
      poke ((ip_totlen_l_p, 0x54) ∷ (ip_proto_p, ip_proto_icmp_v) ∷ [])
        (ip_template (address_to destip n))) in
    let b2 = writes n1.buffer (
      (icmp_type_p, icmp_type_echorequest_v)
      ∷ (icmp_type_p + 1, 0)
      ∷ (icmp_checksum_h_p, 0)
      ∷ (icmp_checksum_l_p, 0)
      ∷ (icmp_ident_h_p, 5)
      ∷ (icmp_ident_l_p, n.myip.a3)
      ∷ (icmp_ident_l_p + 1, 0)
      ∷ (icmp_ident_l_p + 2, 1)
      ∷ []) in
    let b3 = fill b2 icmp_data_p pingpattern 56 in
    packet_send 98
      (record n1 { buffer = fill_checksum icmp_checksum_h_p icmp_type_p (56 + 8) 0 b3 })

unfoldable pub ntp_request : Ip → ℕ → Net → Net
ntp_request ntpip srcport n =
    let n1 = fill_ip_hdr_checksum (
      poke ((ip_totlen_l_p, 0x4c) ∷ (ip_proto_p, ip_proto_udp_v) ∷ [])
        (ip_template (address_to ntpip n))) in
    let b2 = writes n1.buffer (
      (udp_dst_port_h_p, 0)
      ∷ (udp_dst_port_l_p, 0x7b)
      ∷ (udp_src_port_h_p, 10)
      ∷ (udp_src_port_l_p, srcport)
      ∷ (udp_len_h_p, 0)
      ∷ (udp_len_l_p, 56)
      ∷ (udp_checksum_h_p, 0)
      ∷ (udp_checksum_l_p, 0)
      ∷ []) in
    let b3 = store (fill b2 udp_data_p 0 48) udp_data_p ntpreqhdr 10 in
    packet_send 90 (record n1 { buffer = fill_checksum udp_checksum_h_p ip_src_p (16 + 48) 1 b3 })

-- The four bytes of `*time`, highest first; `none` is the return value 0.
unfoldable pub ntp_process_answer : ℕ → Net → Option (List ℕ)
ntp_process_answer dstport_l n =
    if (not (dstport_l == 0) && not (n.buffer udp_dst_port_l_p == dstport_l))
      || not (n.buffer udp_len_h_p == 0)
      || not (n.buffer udp_len_l_p == 56)
      || not (n.buffer udp_src_port_l_p == 0x7b)
    then none
    else some (n.buffer 0x52 ∷ n.buffer 0x53 ∷ n.buffer 0x54 ∷ n.buffer 0x55 ∷ [])

-- Multicast and 255.255.255.255 go to the Ethernet broadcast address.
unfoldable pub udp_prepare : ℕ → Ip → ℕ → Net → Net
udp_prepare sport dip dport n =
    let n1 = address_to dip n in
    let n2 =
      (if bit_and dip.a0 0xf0 == 0xe0 || ip_eqb dip all_ones
        then record n1 { buffer = put_mac n1.buffer eth_dst_mac no_mac }
        else n1) in
    poke
      ((ip_totlen_h_p, 0)
        ∷ (ip_proto_p, ip_proto_udp_v)
        ∷ (udp_dst_port_h_p, u8 (dport / 2 ^ 8))
        ∷ (udp_dst_port_l_p, u8 dport)
        ∷ (udp_src_port_h_p, u8 (sport / 2 ^ 8))
        ∷ (udp_src_port_l_p, u8 sport)
        ∷ (udp_len_h_p, 0)
        ∷ (udp_checksum_h_p, 0)
        ∷ (udp_checksum_l_p, 0)
        ∷ [])
      (ip_template n2)

unfoldable pub udp_transmit : ℕ → Net → Net
udp_transmit datalen n =
    let total = ip_header_len + udp_header_len + datalen in
    let n1 =
      fill_ip_hdr_checksum
        (poke ((ip_totlen_h_p, u8 (total / 2 ^ 8)) ∷ (ip_totlen_l_p, u8 total) ∷ []) n) in
    let b2 = writes n1.buffer (
      (udp_len_h_p, u8 ((udp_header_len + datalen) / 2 ^ 8))
      ∷ (udp_len_l_p, u8 (udp_header_len + datalen))
      ∷ []) in
    packet_send (udp_header_len + ip_header_len + eth_header_len + datalen)
      (record n1 { buffer = fill_checksum udp_checksum_h_p ip_src_p (16 + datalen) 1 b2 })

-- `datalen'` is a uint8_t.
unfoldable pub send_udp : List ℕ → ℕ → ℕ → Ip → ℕ → Net → Net
send_udp text datalen' sport dip dport n =
    let n1 = udp_prepare sport dip dport n in
    let datalen = (if ltb 220 datalen' then 220 else datalen') in
    udp_transmit datalen (record n1 { buffer = store n1.buffer udp_data_p text datalen })

-- The loop of sendWol: `m` rounds left, and `pos` before the round.
unfoldable pub wol_from : Mac → ℕ → ℕ → Memory → Memory
wol_from wolmac zero pos b = b
wol_from wolmac (suc m) pos b = wol_from wolmac m (pos + 6) (put_mac b (pos + 6) wolmac)

unfoldable pub send_wol : Mac → Net → Net
send_wol wolmac n =
    let n1 = fill_ip_hdr_checksum (
      poke ((ip_totlen_l_p, 0x82) ∷ (ip_proto_p, ip_proto_udp_v) ∷ [])
        (ip_template (set_mac_and_ips no_mac all_ones n))) in
    let b2 = writes n1.buffer (
      (udp_dst_port_h_p, 0)
      ∷ (udp_dst_port_l_p, 0x9)
      ∷ (udp_src_port_h_p, 10)
      ∷ (udp_src_port_l_p, 0x42)
      ∷ (udp_len_h_p, 0)
      ∷ (udp_len_l_p, 110)
      ∷ (udp_checksum_h_p, 0)
      ∷ (udp_checksum_l_p, 0)
      ∷ []) in
    let b3 = wol_from wolmac 16 udp_data_p (put_mac b2 udp_data_p no_mac) in
    packet_send (udp_data_p + 16 * 6 + 6)
      (record n1 { buffer = fill_checksum udp_checksum_h_p ip_src_p (16 + 102) 1 b3 })

unfoldable pub client_arp_whohas : Ip → Net → Net
client_arp_whohas ip_we_search n =
    let n1 = set_macs no_mac n in
    let b1 =
      store
        (writes n1.buffer ((eth_type_h_p, ethtype_arp_h_v) ∷ (eth_type_l_p, ethtype_arp_l_v) ∷ []))
        eth_arp_p arpreqhdr 8 in
    let b2 = put_mac (fill b1 eth_arp_dst_mac_p 0 6) eth_arp_src_mac_p n.mymac in
    let b3 = put_ip (put_ip b2 eth_arp_dst_ip_p ip_we_search) eth_arp_src_ip_p n.myip in
    packet_send 42 (record n1 { buffer = b3 })

-- The maximum segment size option takes the last four bytes.
unfoldable pub client_syn : ℕ → ℕ → ℕ → Net → Net
client_syn srcport dstport_h dstport_l n =
    let n1 = fill_ip_hdr_checksum (
      poke ((ip_totlen_l_p, 44) ∷ (ip_proto_p, ip_proto_tcp_v) ∷ [])
        (ip_template (address_to n.hisip n))) in
    let b2 =
      fill
        (writes n1.buffer (
          (tcp_dst_port_h_p, dstport_h)
          ∷ (tcp_dst_port_l_p, dstport_l)
          ∷ (tcp_src_port_h_p, tcpclient_src_port_h)
          ∷ (tcp_src_port_l_p, srcport)
          ∷ []))
        tcp_seq_h_p 0 8 in
    let b3 = writes b2 (
      (tcp_seq_h_p + 2, n.seqnum)
      ∷ (tcp_header_len_p, 0x60)
      ∷ (tcp_flags_p, tcp_flags_syn_v)
      ∷ (tcp_win_size, 0x3)
      ∷ (tcp_win_size + 1, 0x0)
      ∷ (tcp_checksum_h_p, 0)
      ∷ (tcp_checksum_l_p, 0)
      ∷ (tcp_checksum_l_p + 1, 0)
      ∷ (tcp_checksum_l_p + 2, 0)
      ∷ (tcp_options_p, 2)
      ∷ (tcp_options_p + 1, 4)
      ∷ (tcp_options_p + 2, clientmss / 2 ^ 8)
      ∷ (tcp_options_p + 3, u8 clientmss)
      ∷ []) in
    packet_send (ip_header_len + tcp_header_len_plain + eth_header_len + 4) (record n1 {
      buffer = fill_checksum tcp_checksum_h_p ip_src_p (8 + tcp_header_len_plain + 4) 2 b3;
      seqnum = u8 (n.seqnum + 3);
    })
