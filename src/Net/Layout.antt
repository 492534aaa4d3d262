-- ===== src/Net/Layout.antt =====
-- Field positions and values of libraries/ethercard/net.h, in the frame's order.
use ether_house.Base.{ℕ}

abbrev pub eth_header_len : ℕ
eth_header_len = 14

abbrev pub ethtype_arp_h_v : ℕ
ethtype_arp_h_v = 0x08

abbrev pub ethtype_arp_l_v : ℕ
ethtype_arp_l_v = 0x06

abbrev pub ethtype_ip_h_v : ℕ
ethtype_ip_h_v = 0x08

abbrev pub ethtype_ip_l_v : ℕ
ethtype_ip_l_v = 0x00

abbrev pub eth_type_h_p : ℕ
eth_type_h_p = 12

abbrev pub eth_type_l_p : ℕ
eth_type_l_p = 13

abbrev pub eth_dst_mac : ℕ
eth_dst_mac = 0

abbrev pub eth_src_mac : ℕ
eth_src_mac = 6

abbrev pub eth_arp_opcode_reply_h_v : ℕ
eth_arp_opcode_reply_h_v = 0x0

abbrev pub eth_arp_opcode_reply_l_v : ℕ
eth_arp_opcode_reply_l_v = 0x02

abbrev pub eth_arp_opcode_req_h_v : ℕ
eth_arp_opcode_req_h_v = 0x0

abbrev pub eth_arp_opcode_req_l_v : ℕ
eth_arp_opcode_req_l_v = 0x01

abbrev pub eth_arp_p : ℕ
eth_arp_p = 0xe

abbrev pub eth_arp_proto_type_h_p : ℕ
eth_arp_proto_type_h_p = 0x10

abbrev pub eth_arp_proto_type_l_p : ℕ
eth_arp_proto_type_l_p = 0x11

abbrev pub eth_arp_proto_ipv4_h_v : ℕ
eth_arp_proto_ipv4_h_v = 0x08

abbrev pub eth_arp_proto_ipv4_l_v : ℕ
eth_arp_proto_ipv4_l_v = 0x00

abbrev pub eth_arp_dst_ip_p : ℕ
eth_arp_dst_ip_p = 0x26

abbrev pub eth_arp_opcode_h_p : ℕ
eth_arp_opcode_h_p = 0x14

abbrev pub eth_arp_opcode_l_p : ℕ
eth_arp_opcode_l_p = 0x15

abbrev pub eth_arp_src_mac_p : ℕ
eth_arp_src_mac_p = 0x16

abbrev pub eth_arp_src_ip_p : ℕ
eth_arp_src_ip_p = 0x1c

abbrev pub eth_arp_dst_mac_p : ℕ
eth_arp_dst_mac_p = 0x20

abbrev pub ip_header_len : ℕ
ip_header_len = 20

abbrev pub ip_src_p : ℕ
ip_src_p = 0x1a

abbrev pub ip_dst_p : ℕ
ip_dst_p = 0x1e

abbrev pub ip_header_len_ver_p : ℕ
ip_header_len_ver_p = 0xe

abbrev pub ip_checksum_p : ℕ
ip_checksum_p = 0x18

abbrev pub ip_ttl_p : ℕ
ip_ttl_p = 0x16

abbrev pub ip_flags_p : ℕ
ip_flags_p = 0x14

abbrev pub ip_p : ℕ
ip_p = 0xe

abbrev pub ip_totlen_h_p : ℕ
ip_totlen_h_p = 0x10

abbrev pub ip_totlen_l_p : ℕ
ip_totlen_l_p = 0x11

abbrev pub ip_proto_p : ℕ
ip_proto_p = 0x17

abbrev pub ip_proto_icmp_v : ℕ
ip_proto_icmp_v = 1

abbrev pub ip_proto_tcp_v : ℕ
ip_proto_tcp_v = 6

abbrev pub ip_proto_udp_v : ℕ
ip_proto_udp_v = 17

abbrev pub icmp_type_echoreply_v : ℕ
icmp_type_echoreply_v = 0

abbrev pub icmp_type_echorequest_v : ℕ
icmp_type_echorequest_v = 8

abbrev pub icmp_type_p : ℕ
icmp_type_p = 0x22

abbrev pub icmp_checksum_p : ℕ
icmp_checksum_p = 0x24

abbrev pub icmp_checksum_h_p : ℕ
icmp_checksum_h_p = 0x24

abbrev pub icmp_checksum_l_p : ℕ
icmp_checksum_l_p = 0x25

abbrev pub icmp_ident_h_p : ℕ
icmp_ident_h_p = 0x26

abbrev pub icmp_ident_l_p : ℕ
icmp_ident_l_p = 0x27

abbrev pub icmp_data_p : ℕ
icmp_data_p = 0x2a

abbrev pub udp_header_len : ℕ
udp_header_len = 8

abbrev pub udp_src_port_h_p : ℕ
udp_src_port_h_p = 0x22

abbrev pub udp_src_port_l_p : ℕ
udp_src_port_l_p = 0x23

abbrev pub udp_dst_port_h_p : ℕ
udp_dst_port_h_p = 0x24

abbrev pub udp_dst_port_l_p : ℕ
udp_dst_port_l_p = 0x25

abbrev pub udp_len_h_p : ℕ
udp_len_h_p = 0x26

abbrev pub udp_len_l_p : ℕ
udp_len_l_p = 0x27

abbrev pub udp_checksum_h_p : ℕ
udp_checksum_h_p = 0x28

abbrev pub udp_checksum_l_p : ℕ
udp_checksum_l_p = 0x29

abbrev pub udp_data_p : ℕ
udp_data_p = 0x2a

abbrev pub tcp_src_port_h_p : ℕ
tcp_src_port_h_p = 0x22

abbrev pub tcp_src_port_l_p : ℕ
tcp_src_port_l_p = 0x23

abbrev pub tcp_dst_port_h_p : ℕ
tcp_dst_port_h_p = 0x24

abbrev pub tcp_dst_port_l_p : ℕ
tcp_dst_port_l_p = 0x25

abbrev pub tcp_seq_h_p : ℕ
tcp_seq_h_p = 0x26

abbrev pub tcp_seqack_h_p : ℕ
tcp_seqack_h_p = 0x2a

abbrev pub tcp_flags_p : ℕ
tcp_flags_p = 0x2f

abbrev pub tcp_flags_syn_v : ℕ
tcp_flags_syn_v = 2

abbrev pub tcp_flags_fin_v : ℕ
tcp_flags_fin_v = 1

abbrev pub tcp_flags_rst_v : ℕ
tcp_flags_rst_v = 4

abbrev pub tcp_flags_push_v : ℕ
tcp_flags_push_v = 8

abbrev pub tcp_flags_synack_v : ℕ
tcp_flags_synack_v = 0x12

abbrev pub tcp_flags_ack_v : ℕ
tcp_flags_ack_v = 0x10

abbrev pub tcp_flags_pshack_v : ℕ
tcp_flags_pshack_v = 0x18

abbrev pub tcp_header_len_plain : ℕ
tcp_header_len_plain = 20

abbrev pub tcp_header_len_p : ℕ
tcp_header_len_p = 0x2e

abbrev pub tcp_win_size : ℕ
tcp_win_size = 0x30

abbrev pub tcp_checksum_h_p : ℕ
tcp_checksum_h_p = 0x32

abbrev pub tcp_checksum_l_p : ℕ
tcp_checksum_l_p = 0x33

abbrev pub tcp_options_p : ℕ
tcp_options_p = 0x36
