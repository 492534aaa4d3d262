-- ===== src/World/Packets.antt =====
-- packetLoop of tcpip.cpp, with the TCP client and `accept`. The firmware registers no ping
-- callback and no UDP listener, so their tests fail.
use ether_house.Base.{
  ℕ, ◌+◌, ◌-◌, ◌*◌, ◌/◌, ◌^◌, bit_and, bit_or, Bool, true, false, not, ◌&&◌, ◌||◌, ◌==◌, ltb, leb,
  if◌then◌else◌, [], ◌∷◌, Ip, ip_at, mac_at, ip_eqb, u8, u16,
}
use ether_house.Net.{
  Net, no_result, www_result, no_datafill, www_datafill, BrowserCallback, no_browser,
}
use ether_house.Net.Lan.{is_lan}
use ether_house.Net.Sequence.{get_tcp_data_len, tcp_data_start}
use ether_house.Net.Frames.{
  poke, check_ip_message_is_from, make_arp_answer_from_request, make_echo_reply_from_request,
  make_tcp_synack_from_syn, make_tcp_ack_from_any, make_tcp_ack_with_data_noflags,
}
use ether_house.Net.Frames.Requests.{client_arp_whohas, client_syn, tcpclient_src_port_h}
use ether_house.Net.Sniffer.{sniffer_process_packet}
use ether_house.Sketch.{all_ones}
use ether_house.Net.Filler.{emit_request}
use ether_house.World.Lease.{dhcp_state_machine}
use ether_house.World.{when, Env, returns, reboots, unfinished, M, ◌>>◌, return, on_net, final}

abbrev pub wgw_initial_arp : ℕ
wgw_initial_arp = 1

abbrev pub wgw_have_gw_mac : ℕ
wgw_have_gw_mac = 2

abbrev pub wgw_refreshing : ℕ
wgw_refreshing = 4

abbrev pub wgw_accept_arp_reply : ℕ
wgw_accept_arp_reply = 8

-- `x & flag` as a condition.
abbrev pub has : ℕ → ℕ → Bool
has x flag = not (bit_and x flag == 0)

unfoldable pub eth_type_is_arp_and_my_ip : ℕ → Net → Bool
eth_type_is_arp_and_my_ip len n =
    leb 41 len && n.buffer 12 == 0x08 && n.buffer 13 == 0x06 && ip_eqb (ip_at n.buffer 0x26) n.myip

unfoldable pub eth_type_is_ip_and_my_ip : ℕ → Net → Bool
eth_type_is_ip_and_my_ip len n =
    leb 42 len
    && n.buffer 12 == 0x08
    && n.buffer 13 == 0x00
    && n.buffer 0xe == 0x45
    && (ip_eqb (ip_at n.buffer 0x1e) n.myip
        || ip_eqb (ip_at n.buffer 0x1e) n.broadcastip
        || ip_eqb (ip_at n.buffer 0x1e) all_ones)

-- client_store_mac: the sender of the ARP packet in the buffer is `source_ip`.
abbrev pub arp_is_from : Ip → Net → Bool
arp_is_from source_ip n = ip_eqb (ip_at n.buffer 0x1c) source_ip

-- Without a packet: the ARP requests and the SYN that are due.
unfoldable pub idle_gateway : Bool → Net → Net
idle_gateway link n =
    if (has n.waitgwmac wgw_initial_arp || has n.waitgwmac wgw_refreshing)
      && n.delaycnt == 0
      && link
    then record (client_arp_whohas n.gwip n) { waitgwmac = bit_or n.waitgwmac wgw_accept_arp_reply }
    else n

unfoldable pub idle_syn : Net → Net
idle_syn n =
    if n.tcp_client_state == 1 && has n.waitgwmac wgw_have_gw_mac
    then (let port = u8 (n.tcpclient_src_port_l + 1) in
        client_syn (u8 (bit_or (n.tcp_fd * 2 ^ 5) (bit_and 0x1f port))) n.tcp_client_port_h
          n.tcp_client_port_l (record n { tcp_client_state = 2; tcpclient_src_port_l = port }))
    else n

unfoldable pub idle_dns : Net → Net
idle_dns n =
    if is_lan n n.myip n.dnsip && not n.has_dns_mac && not n.waiting_for_dns_mac
    then record (client_arp_whohas n.dnsip n) { waiting_for_dns_mac = true }
    else n

unfoldable pub idle_dest : Net → Net
idle_dest n =
    if is_lan n n.myip n.hisip && not n.has_dest_mac && not n.waiting_for_dest_mac
    then record (client_arp_whohas n.hisip n) { waiting_for_dest_mac = true }
    else n

unfoldable pub idle : Bool → Net → Net
idle link n =
    let n1 = idle_gateway link n in
    idle_dest (idle_dns (idle_syn (record n1 { delaycnt = u16 (n1.delaycnt + 1) })))

-- An ARP packet for the own address.
unfoldable pub arp_answer : Net → Net
arp_answer n = if n.buffer 0x15 == 0x01 then make_arp_answer_from_request n else n

unfoldable pub arp_gateway : Net → Net
arp_gateway n =
    if has n.waitgwmac wgw_accept_arp_reply && n.buffer 0x15 == 0x02 && arp_is_from n.gwip n
    then record n { gwmacaddr = mac_at n.buffer 0x16; waitgwmac = wgw_have_gw_mac }
    else n

unfoldable pub arp_dns : Net → Net
arp_dns n =
    if not n.has_dns_mac && n.waiting_for_dns_mac && arp_is_from n.dnsip n
    then record n {
      destmacaddr = mac_at n.buffer 0x16;
      has_dns_mac = true;
      waiting_for_dns_mac = false;
    }
    else n

unfoldable pub arp_dest : Net → Net
arp_dest n =
    if not n.has_dest_mac && n.waiting_for_dest_mac && arp_is_from n.hisip n
    then record n {
      destmacaddr = mac_at n.buffer 0x16;
      has_dest_mac = true;
      waiting_for_dest_mac = false;
    }
    else n

unfoldable pub arp_packet : Net → Net
arp_packet n = arp_dest (arp_dns (arp_gateway (arp_answer n)))

-- The position of the data of a request to the own server, or 0.
unfoldable pub accept : ℕ → ℕ → M ℕ
accept port plen w =
    let n = w.net in
    let flags = n.buffer 0x2f in
    let len = get_tcp_data_len n.buffer in
    let pos = tcp_data_start n.buffer in
    let counted = record w { net = record n { info_data_len = len } } in
    if not (n.buffer 0x24 == port / 2 ^ 8 && n.buffer 0x25 == u8 port)
    then returns 0 w
    else if has flags 2
    then returns 0 (record w { net = make_tcp_synack_from_syn n })
    else if has flags 0x10
    then (if ltb 0 len
        then (if leb pos (plen - 8) then returns pos counted else returns 0 counted)
        else if has flags 1
        then returns 0 (record counted { net = make_tcp_ack_from_any 0 0 counted.net })
        else returns 0 counted)
    else returns 0 w

-- `browser` is what the browser callbacks of the sketch do; `on_sniff` is the sniffer's callback.
module _ (env : Env) (browser : BrowserCallback → ℕ → ℕ → ℕ → M (Unit {0}))
    (on_sniff : ℕ → M (Unit {0})) where
  -- www_client_internal_result_cb. A call of a null pointer jumps to the reset vector.
  unfoldable pub www_client_internal_result_cb : ℕ → ℕ → ℕ → ℕ → M (Unit {0})
  www_client_internal_result_cb fd statuscode datapos len_of_data w =
      let n = w.net in
      let refused = not (
        n.buffer (datapos + 9) == b'2'
        && n.buffer (datapos + 10) == b'0'
        && n.buffer (datapos + 11) == b'0') in
      let off = tcp_data_start n.buffer in
      if not (fd == n.www_fd)
      then browser n.client_browser_cb 4 0 0 w
      else if statuscode == 0 && ltb 12 len_of_data
      then elim n.client_browser_cb [
        | no_browser ↦ returns tt w
        | cb ↦ browser cb (if refused then 1 else 0) off len_of_data w
      ]
      else returns tt w

  unfoldable pub client_tcp_result : ℕ → ℕ → ℕ → ℕ → M (Unit {0})
  client_tcp_result fd status datapos len w = elim w.net.client_tcp_result_cb [
    | no_result ↦ returns tt w
    | www_result ↦ www_client_internal_result_cb fd status datapos len w
  ]

  -- www_client_internal_datafill_cb, which writes at tcpOffset(), the offset 0x36.
  unfoldable pub client_tcp_datafill : ℕ → Net → Net × ℕ
  client_tcp_datafill fd n = elim n.client_tcp_datafill_cb [
    | no_datafill ↦ (n, 0)
    | www_datafill ↦
        if fd == n.www_fd
        then (let (m, ptr) = emit_request n.client_urlbuf 0x36 n.buffer in
            (record n { buffer = m }, ptr - 0x36))
        else (n, 0)
  ]

  -- In state 2: a SYN and ACK is answered by the request, anything else by a reset and a new try.
  unfoldable pub syn_sent : ℕ → Net → Net
  syn_sent len n =
      let flags = n.buffer 0x2f in
      let n1 = poke ((0x2f, 0x18) ∷ []) (make_tcp_ack_from_any 0 0 n) in
      let (n2, filled) = client_tcp_datafill (bit_and (n1.buffer 0x23 / 2 ^ 5) 0x7) n1 in
      if has flags 2 && has flags 0x10
      then make_tcp_ack_with_data_noflags filled (record n2 { tcp_client_state = 3 })
      else make_tcp_ack_from_any (if has flags 0x10 then 0 else u16 (len + 1)) 4
          (record n { tcp_client_state = 1 })

  -- The acknowledgement after the data has been handed on; it is made from what the buffer holds
  -- then.
  unfoldable pub acknowledge_data : ℕ → Net → Net
  acknowledge_data len n =
      if n.persist_tcp_connection
      then make_tcp_ack_from_any len 8 n
      else record (make_tcp_ack_from_any len 9 n) { tcp_client_state = 6 }

  unfoldable pub established : ℕ → ℕ → M (Unit {0})
  established plen len w =
      let m = w.net.buffer in
      let start = tcp_data_start m in
      let tcpstart = (if ltb (plen - 8) start then plen - 8 else start) in
      let save_len = (if ltb plen (u16 (tcpstart + len)) then plen - tcpstart else len) in
      (client_tcp_result (bit_and (m 0x25 / 2 ^ 5) 0x7) 0 tcpstart save_len
          >> on_net (acknowledge_data len))
        w

  -- The end of the connection.
  unfoldable pub closing : ℕ → Net → Net
  closing len n =
      if n.tcp_client_state == 5
      then n
      else if has (n.buffer 0x2f) 1
      then (if n.tcp_client_state == 3
          then n
          else record (make_tcp_ack_from_any (u16 (len + 1)) 9 n) { tcp_client_state = 6 })
      else if ltb 0 len
      then make_tcp_ack_from_any len 0 n
      else n

  abbrev has_result_callback : Net → Bool
  has_result_callback n = elim n.client_tcp_result_cb [ no_result ↦ false | www_result ↦ true ]

  unfoldable pub client_packet : ℕ → M (Unit {0})
  client_packet plen w =
      let n = w.net in
      let m = n.buffer in
      let len = get_tcp_data_len m in
      if not (check_ip_message_is_from n.hisip n)
      then returns tt w
      else if has (m 0x2f) 4
      then (client_tcp_result (bit_and (m 0x25 / 2 ^ 5) 0x7) 3 0 0
            >> on_net (λ n'. record n' { tcp_client_state = 5 }))
          w
      else if n.tcp_client_state == 2
      then returns tt (record w { net = syn_sent len n })
      else if n.tcp_client_state == 3 && ltb 0 len && has_result_callback n
      then established plen len w
      else returns tt (record w { net = closing len n })

  -- snifferProcessPacket, whose callback may change everything or reboot.
  unfoldable pub sniff : ℕ → M (Unit {0})
  sniff plen w =
      sniffer_process_packet (λ o. (final o).net.buffer)
        (λ src_ip o. elim o [
          | returns a w' ↦ on_sniff src_ip w'
          | reboots w' ↦ reboots w'
          | unfinished w' ↦ unfinished w'
        ])
        w.net.sniffers plen (returns tt w)

  -- The part of packetLoop behind the sniffer; the buffer is what the callback left.
  unfoldable pub dispatch : ℕ → M ℕ
  dispatch plen w =
      let n = w.net in
      let m = n.buffer in
      if eth_type_is_arp_and_my_ip plen n
      then returns 0 (record w { net = arp_packet n })
      else if not (eth_type_is_ip_and_my_ip plen n)
      then returns 0 w
      else if m 0x17 == 1 && m 0x22 == 8
      then returns 0 (record w { net = make_echo_reply_from_request plen n })
      else if ltb plen 54 && not (m 0x17 == 6)
      then returns 0 w
      else if m 0x24 == tcpclient_src_port_h
      then (client_packet plen >> return 0) w
      else accept n.hisport plen w

  -- packetLoop behind the DHCP state machine.
  unfoldable pub handle : ℕ → M ℕ
  handle plen w =
      if plen == 0
      then returns 0 (record w { net = idle (env.link_up w.ticks) w.net })
      else (sniff plen >> dispatch plen) w

  unfoldable pub packet_loop : ℕ → M ℕ
  packet_loop plen = when (λ w. w.net.using_dhcp) (dhcp_state_machine env plen) >> handle plen
