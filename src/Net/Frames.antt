-- ===== src/Net/Frames.antt =====
-- The functions of tcpip.cpp that fill the buffer: headers, replies and acknowledgements. An `int`
-- that is stored in the buffer is cut to a byte.
pub mod Requests
pub mod Laws
use ether_house.Base.{
  ℕ, ◌+◌, ◌-◌, ◌/◌, ◌^◌, bit_or, Bool, true, false, not, ◌&&◌, ◌==◌, ltb, if◌then◌else◌, List, [],
  ◌∷◌, Memory, Ip, Mac, ip_at, mac_at, put_ip, put_mac, ip_eqb, write, writes, store, u8, u32,
}
use ether_house.Net.{Net, packet_send}
use ether_house.Net.Checksum.{fill_checksum}
use ether_house.Net.Sequence.{step_seq, get_seq, set_seq}
use ether_house.Net.Layout.{
  eth_header_len, eth_dst_mac, eth_src_mac, ip_src_p, ip_dst_p, ip_checksum_p, ip_flags_p, ip_ttl_p,
  ip_p, ip_header_len, ip_totlen_h_p, ip_totlen_l_p, tcp_src_port_h_p, tcp_src_port_l_p,
  tcp_dst_port_h_p, tcp_dst_port_l_p, tcp_seq_h_p, tcp_flags_p, tcp_flags_synack_v, tcp_flags_ack_v,
  tcp_flags_push_v, tcp_flags_fin_v, tcp_flags_rst_v, tcp_header_len_plain, tcp_header_len_p,
  tcp_win_size, tcp_checksum_h_p, tcp_checksum_l_p, tcp_options_p, eth_arp_opcode_h_p,
  eth_arp_opcode_l_p, eth_arp_opcode_reply_h_v, eth_arp_opcode_reply_l_v, eth_arp_src_mac_p,
  eth_arp_src_ip_p, eth_arp_dst_mac_p, eth_arp_dst_ip_p, icmp_type_p, icmp_type_echoreply_v,
  icmp_checksum_p, udp_header_len, udp_src_port_h_p, udp_src_port_l_p, udp_dst_port_h_p,
  udp_dst_port_l_p, udp_len_h_p, udp_len_l_p, udp_checksum_h_p, udp_checksum_l_p, udp_data_p,
}

abbrev pub poke : List (ℕ × ℕ) → Net → Net
poke assignments n = record n { buffer = writes n.buffer assignments }

unfoldable pub set_macs : Mac → Net → Net
set_macs mac n = record n {
  buffer = put_mac (put_mac n.buffer eth_dst_mac mac) eth_src_mac n.mymac;
}

unfoldable pub set_mac_and_ips : Mac → Ip → Net → Net
unfolding set_macs
set_mac_and_ips mac dst n =
    let n' = set_macs mac n in
    record n' { buffer = put_ip (put_ip n'.buffer ip_dst_p dst) ip_src_p n.myip }

unfoldable pub check_ip_message_is_from : Ip → Net → Bool
check_ip_message_is_from ip n = ip_eqb (ip_at n.buffer ip_src_p) ip

unfoldable pub fill_ip_hdr_checksum : Net → Net
fill_ip_hdr_checksum n = record n {
  buffer = fill_checksum ip_checksum_p ip_p ip_header_len 0 (
      writes n.buffer (
        (ip_checksum_p, 0)
        ∷ (ip_checksum_p + 1, 0)
        ∷ (ip_flags_p, 0x40)
        ∷ (ip_flags_p + 1, 0)
        ∷ (ip_ttl_p, 64)
        ∷ []));
}

-- The addresses in the buffer are copied before what they stand in is overwritten.
unfoldable pub make_eth_ip : Net → Net
make_eth_ip n =
    let n' = set_macs (mac_at n.buffer eth_src_mac) n in
    fill_ip_hdr_checksum (record n' {
      buffer = put_ip (put_ip n'.buffer ip_dst_p (ip_at n'.buffer ip_src_p)) ip_src_p n.myip;
    })

unfoldable pub make_tcphead : ℕ → Bool → Net → Net
make_tcphead rel_ack_num cp_seq n =
    let i = n.buffer tcp_dst_port_h_p in
    let j = n.buffer tcp_dst_port_l_p in
    let swapped = writes n.buffer (
      (tcp_dst_port_h_p, n.buffer tcp_src_port_h_p)
      ∷ (tcp_src_port_h_p, i)
      ∷ (tcp_dst_port_l_p, n.buffer tcp_src_port_l_p)
      ∷ (tcp_src_port_l_p, j)
      ∷ []) in
    record n {
      buffer =
          writes (step_seq 4 rel_ack_num cp_seq swapped)
            ((tcp_checksum_h_p, 0) ∷ (tcp_checksum_l_p, 0) ∷ (tcp_header_len_p, 0x50) ∷ []);
    }

unfoldable pub make_arp_answer_from_request : Net → Net
unfolding set_macs
make_arp_answer_from_request n =
    let n1 =
      poke
        ((eth_arp_opcode_h_p, eth_arp_opcode_reply_h_v)
          ∷ (eth_arp_opcode_l_p, eth_arp_opcode_reply_l_v)
          ∷ [])
        (set_macs (mac_at n.buffer eth_src_mac) n) in
    let b1 = put_mac n1.buffer eth_arp_dst_mac_p (mac_at n1.buffer eth_arp_src_mac_p) in
    let b2 = put_mac b1 eth_arp_src_mac_p n.mymac in
    let b3 = put_ip b2 eth_arp_dst_ip_p (ip_at b2 eth_arp_src_ip_p) in
    let b4 = put_ip b3 eth_arp_src_ip_p n.myip in packet_send 42 (record n1 { buffer = b4 })

-- The checksum of a request, whose type is 8, is turned into that of the reply, whose type is 0.
unfoldable pub adjust_icmp_checksum : Memory → Memory
adjust_icmp_checksum m =
    let high = m icmp_checksum_p in
    let carried =
      (if ltb (0xff - 0x08) high
        then write m (icmp_checksum_p + 1) (u8 (m (icmp_checksum_p + 1) + 1))
        else m) in
    write carried icmp_checksum_p (u8 (high + 0x08))

unfoldable pub make_echo_reply_from_request : ℕ → Net → Net
make_echo_reply_from_request len n =
    let n1 = poke ((icmp_type_p, icmp_type_echoreply_v) ∷ []) (make_eth_ip n) in
    packet_send len (record n1 { buffer = adjust_icmp_checksum n1.buffer })

-- `text` is what `data` points to; `datalen` is a uint8_t.
unfoldable pub make_udp_reply : List ℕ → ℕ → ℕ → Net → Net
make_udp_reply text port datalen' n =
    let datalen = (if ltb 220 datalen' then 220 else datalen') in
    let total = ip_header_len + udp_header_len + datalen in
    let n1 =
      make_eth_ip (poke ((ip_totlen_h_p, u8 (total / 2 ^ 8)) ∷ (ip_totlen_l_p, u8 total) ∷ []) n) in
    let b2 = writes n1.buffer (
      (udp_dst_port_h_p, n1.buffer udp_src_port_h_p)
      ∷ (udp_dst_port_l_p, n1.buffer udp_src_port_l_p)
      ∷ (udp_src_port_h_p, u8 (port / 2 ^ 8))
      ∷ (udp_src_port_l_p, u8 port)
      ∷ (udp_len_h_p, u8 ((udp_header_len + datalen) / 2 ^ 8))
      ∷ (udp_len_l_p, u8 (udp_header_len + datalen))
      ∷ (udp_checksum_h_p, 0)
      ∷ (udp_checksum_l_p, 0)
      ∷ []) in
    let b3 =
      fill_checksum udp_checksum_h_p ip_src_p (16 + datalen) 1 (store b2 udp_data_p text datalen) in
    packet_send (udp_header_len + ip_header_len + eth_header_len + datalen)
      (record n1 { buffer = b3 })

-- seqnum is a uint8_t.
unfoldable pub make_tcp_synack_from_syn : Net → Net
make_tcp_synack_from_syn n =
    let n1 = make_eth_ip (
      poke ((ip_totlen_h_p, 0) ∷ (ip_totlen_l_p, ip_header_len + tcp_header_len_plain + 4) ∷ [])
        n) in
    let n2 = make_tcphead 1 false (poke ((tcp_flags_p, tcp_flags_synack_v) ∷ []) n1) in
    let b3 = writes n2.buffer (
      (tcp_seq_h_p + 0, 0)
      ∷ (tcp_seq_h_p + 1, 0)
      ∷ (tcp_seq_h_p + 2, n.seqnum)
      ∷ (tcp_seq_h_p + 3, 0)
      ∷ (tcp_options_p, 2)
      ∷ (tcp_options_p + 1, 4)
      ∷ (tcp_options_p + 2, 0x05)
      ∷ (tcp_options_p + 3, 0x0)
      ∷ (tcp_header_len_p, 0x60)
      ∷ (tcp_win_size, 0x5)
      ∷ (tcp_win_size + 1, 0x78)
      ∷ []) in
    let b4 = fill_checksum tcp_checksum_h_p ip_src_p (8 + tcp_header_len_plain + 4) 2 b3 in
    packet_send (ip_header_len + tcp_header_len_plain + 4 + eth_header_len)
      (record n2 { buffer = b4; seqnum = u8 (n.seqnum + 3) })

-- The flags are or-ed to ACK; `datlentoack` is 0 or more at every call.
unfoldable pub make_tcp_ack_from_any : ℕ → ℕ → Net → Net
make_tcp_ack_from_any datlentoack' addflags n =
    let datlentoack =
      (if not (addflags == tcp_flags_rst_v) && datlentoack' == 0 then 1 else datlentoack') in
    let j = ip_header_len + tcp_header_len_plain in
    let n1 =
      make_tcphead datlentoack true
        (poke ((tcp_flags_p, u8 (bit_or tcp_flags_ack_v addflags)) ∷ []) n) in
    let n2 = make_eth_ip (poke ((ip_totlen_h_p, u8 (j / 2 ^ 8)) ∷ (ip_totlen_l_p, u8 j) ∷ []) n1) in
    let b3 = writes n2.buffer ((tcp_win_size, 0x4) ∷ (tcp_win_size + 1, 0) ∷ []) in
    let b4 = fill_checksum tcp_checksum_h_p ip_src_p (8 + tcp_header_len_plain) 2 b3 in
    packet_send (ip_header_len + tcp_header_len_plain + eth_header_len) (record n2 { buffer = b4 })

unfoldable pub make_tcp_ack_with_data_noflags : ℕ → Net → Net
make_tcp_ack_with_data_noflags dlen n =
    let j = ip_header_len + tcp_header_len_plain + dlen in
    let n1 =
      fill_ip_hdr_checksum
        (poke ((ip_totlen_h_p, u8 (j / 2 ^ 8)) ∷ (ip_totlen_l_p, u8 j) ∷ []) n) in
    let b2 = writes n1.buffer ((tcp_checksum_h_p, 0) ∷ (tcp_checksum_l_p, 0) ∷ []) in
    let b3 = fill_checksum tcp_checksum_h_p ip_src_p (8 + tcp_header_len_plain + dlen) 2 b2 in
    packet_send (ip_header_len + tcp_header_len_plain + dlen + eth_header_len)
      (record n1 { buffer = b3 })

unfoldable pub http_server_reply : ℕ → Net → Net
http_server_reply dlen n = make_tcp_ack_with_data_noflags dlen (
    poke ((tcp_flags_p, bit_or (bit_or tcp_flags_ack_v tcp_flags_push_v) tcp_flags_fin_v) ∷ [])
      (make_tcp_ack_from_any n.info_data_len 0 n))

unfoldable pub http_server_reply_ack : Net → Net
http_server_reply_ack n = get_seq (make_tcp_ack_from_any n.info_data_len 0 n)

-- `SEQ` has 32 bits.
unfoldable pub http_server_reply_with_flags : ℕ → ℕ → Net → Net
http_server_reply_with_flags dlen flags n =
    let n1 = make_tcp_ack_with_data_noflags dlen (poke ((tcp_flags_p, flags) ∷ []) (set_seq n)) in
    record n1 { seq = u32 (n1.seq + dlen) }
