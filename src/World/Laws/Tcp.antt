-- ===== src/World/Laws/Tcp.antt =====
-- The states of the TCP client of tcpip.cpp.
use ether_house.Base.{
  ℕ, ◌≡◌, ◌≢◌, refl, ap, ◌+◌, ◌-◌, ◌/◌, ◌^◌, bit_and, ltb, if◌then◌else◌, u16, ◌⊎◌, inl, inr, Ip,
  Bool, true, false, Bool-cases, sym, ◌<◌, ip_at, arith,
}
use ether_house.Net.{Net, BrowserCallback}
use ether_house.World.{
  Env, World, Outcome, returns, reboots, unfinished, M, final, on_net, return, ended, ◌>>◌,
}
use ether_house.Net.Sequence.{get_tcp_data_len, tcp_data_start}
use ether_house.World.Packets.{
  idle, dispatch, closing, arp_packet, arp_answer, arp_gateway, arp_dns, arp_dest, syn_sent,
  acknowledge_data, established, client_packet, client_tcp_result, www_client_internal_result_cb,
  has, accept, idle_syn, idle_gateway, idle_dns, idle_dest,
}
use ether_house.Net.Frames.{
  make_tcp_ack_from_any, make_tcp_ack_with_data_noflags, make_eth_ip, fill_ip_hdr_checksum,
  make_tcphead, set_macs, make_tcp_synack_from_syn, make_echo_reply_from_request,
  make_arp_answer_from_request, check_ip_message_is_from,
}
use ether_house.Net.Frames.Requests.{
  client_syn, client_arp_whohas, ip_template, address_to, tcpclient_src_port_h,
}

-- The packet in the buffer comes from the server, to a port of the client.
abbrev pub IsFromServer : Net → Type 0
IsFromServer n = (n.buffer 0x24 ≡ tcpclient_src_port_h) × (ip_at n.buffer 26 ≡ n.hisip)

-- 1 asks for a SYN, 2 waits for its answer, 3 for the response, 5 is reset by the server and 6 ended.
-- The flags are FIN 1, SYN 2, RST 4 and ACK 16.
abbrev pub PacketStep : Net → ℕ → Type 0
PacketStep n t =
    let flags = n.buffer 0x2f in
    let s = n.tcp_client_state in
    (s ≡ t)
    ⊎ ((t ≡ 5) × (has flags 4 ≡ true))
    ⊎ ((s ≡ 2) × (t ≡ 3) × (has flags 2 ≡ true) × (has flags 0x10 ≡ true) × (has flags 4 ≡ false))
    ⊎ ((s ≡ 2)
        × (t ≡ 1)
        × ((has flags 2 ≡ false) ⊎ (has flags 0x10 ≡ false))
        × (has flags 4 ≡ false))
    ⊎ ((s ≡ 3) × (t ≡ 6) × (0 < get_tcp_data_len n.buffer) × (has flags 4 ≡ false))
    ⊎ ((s ≢ 2) × (s ≢ 3) × (s ≢ 5) × (t ≡ 6) × (has flags 1 ≡ true) × (has flags 4 ≡ false))

-- Only a packet from the server makes a step.
abbrev pub TcpStep : Net → ℕ → Type 0
TcpStep n t = (n.tcp_client_state ≡ t) ⊎ (IsFromServer n × PacketStep n t)

client_syn_keeps :
    (a b c : ℕ) (n : Net) → (client_syn a b c n).tcp_client_state ≡ n.tcp_client_state
unfolding client_syn ip_template address_to fill_ip_hdr_checksum
client_syn_keeps a b c n = ground arith

arp_whohas_keeps :
    (ip : Ip) (n : Net) → (client_arp_whohas ip n).tcp_client_state ≡ n.tcp_client_state
unfolding client_arp_whohas set_macs
arp_whohas_keeps ip n = refl

ack_keeps :
    (a b : ℕ) (n : Net) → (make_tcp_ack_from_any a b n).tcp_client_state ≡ n.tcp_client_state
unfolding make_tcp_ack_from_any make_eth_ip fill_ip_hdr_checksum make_tcphead set_macs
ack_keeps a b n = refl

request_keeps :
    (a : ℕ) (n : Net) → (make_tcp_ack_with_data_noflags a n).tcp_client_state ≡ n.tcp_client_state
unfolding make_tcp_ack_with_data_noflags make_eth_ip fill_ip_hdr_checksum make_tcphead set_macs
request_keeps a n = refl

synack_keeps : (n : Net) → (make_tcp_synack_from_syn n).tcp_client_state ≡ n.tcp_client_state
unfolding make_tcp_synack_from_syn make_eth_ip fill_ip_hdr_checksum make_tcphead set_macs
synack_keeps n = refl

echo_keeps :
    (len : ℕ) (n : Net) → (make_echo_reply_from_request len n).tcp_client_state ≡ n.tcp_client_state
unfolding make_echo_reply_from_request make_eth_ip fill_ip_hdr_checksum set_macs
echo_keeps len n = refl

arp_keeps : (n : Net) → (arp_packet n).tcp_client_state ≡ n.tcp_client_state
unfolding arp_packet arp_answer arp_gateway arp_dns arp_dest make_arp_answer_from_request
arp_keeps n = ground arith

accept_keeps :
    (port plen : ℕ) (w : World)
    → (final (accept port plen w)).net.tcp_client_state ≡ w.net.tcp_client_state
unfolding accept
accept_keeps port plen w = grind (arith, synack_keeps w.net, ack_keeps)

idle_gateway_keeps :
    (link : Bool) (n : Net) → (idle_gateway link n).tcp_client_state ≡ n.tcp_client_state
unfolding idle_gateway
idle_gateway_keeps link n = grind (arith, arp_whohas_keeps)

idle_dns_keeps : (n : Net) → (idle_dns n).tcp_client_state ≡ n.tcp_client_state
unfolding idle_dns
idle_dns_keeps n = grind (arith, arp_whohas_keeps)

idle_dest_keeps : (n : Net) → (idle_dest n).tcp_client_state ≡ n.tcp_client_state
unfolding idle_dest
idle_dest_keeps n = grind (arith, arp_whohas_keeps)

idle_syn-TcpStep :
    (n : Net)
    → ((idle_syn n).tcp_client_state ≡ n.tcp_client_state)
      ⊎ ((n.tcp_client_state ≡ 1) × ((idle_syn n).tcp_client_state ≡ 2))
unfolding idle_syn
idle_syn-TcpStep n = grind (arith, client_syn_keeps)

-- Without a packet the client can only send its SYN.
idle_step :
    (link : Bool) (n : Net)
    → ((idle link n).tcp_client_state ≡ n.tcp_client_state)
      ⊎ ((n.tcp_client_state ≡ 1) × ((idle link n).tcp_client_state ≡ 2))
unfolding idle
idle_step link n =
    let n1 = idle_gateway link n in
    let n2 = record n1 { delaycnt = u16 (n1.delaycnt + 1) } in
    ground (
      arith,
      idle_gateway_keeps link n,
      idle_syn-TcpStep n2,
      idle_dns_keeps (idle_syn n2),
      idle_dest_keeps (idle_dns (idle_syn n2)),
    )

abbrev set_reset : Net → Net
set_reset n = record n { tcp_client_state = 5 }

after_run :
    (f : Net → Net) (s t : ℕ)
    → ((n : Net) → ((f n).tcp_client_state ≡ n.tcp_client_state) ⊎ ((f n).tcp_client_state ≡ t))
    → (w : World) (o : Outcome (Unit {0})) → (final o).net.tcp_client_state ≡ s
    → let t' = (final ((ended o >> on_net f) w)).net.tcp_client_state in (t' ≡ s) ⊎ (t' ≡ t)
after_run f s t h w (returns a v) e = grind (arith, e, h v.net)
after_run f s t h w (reboots v) e = inl e
after_run f s t h w (unfinished v) e = inl e

returned : (w : World) (o : Outcome (Unit {0})) → final {A = ℕ} ((ended o >> return 0) w) ≡ final o
returned w (returns a v) = refl
returned w (reboots v) = refl
returned w (unfinished v) = refl

module _ (env : Env) (browser : BrowserCallback → ℕ → ℕ → ℕ → M (Unit {0}))
    (on_sniff : ℕ → M (Unit {0})) where
  closing-TcpStep :
      (len : ℕ) (n : Net)
      → ((closing env browser on_sniff len n).tcp_client_state ≡ n.tcp_client_state)
        ⊎ ((n.tcp_client_state ≢ 3)
            × (n.tcp_client_state ≢ 5)
            × ((closing env browser on_sniff len n).tcp_client_state ≡ 6)
            × (has (n.buffer 0x2f) 1 ≡ true))
  unfolding closing
  closing-TcpStep len n = grind (arith, ack_keeps)

  syn_sent-TcpStep :
      (len : ℕ) (n : Net)
      → (((syn_sent env browser on_sniff len n).tcp_client_state ≡ 1)
          × ((has (n.buffer 0x2f) 2 ≡ false) ⊎ (has (n.buffer 0x2f) 0x10 ≡ false)))
        ⊎ (((syn_sent env browser on_sniff len n).tcp_client_state ≡ 3)
            × (has (n.buffer 0x2f) 2 ≡ true)
            × (has (n.buffer 0x2f) 0x10 ≡ true))
  unfolding syn_sent
  syn_sent-TcpStep len n = grind (arith, ack_keeps, request_keeps)

  acknowledge_data-TcpStep :
      (len : ℕ) (n : Net)
      → ((acknowledge_data env browser on_sniff len n).tcp_client_state ≡ n.tcp_client_state)
        ⊎ ((acknowledge_data env browser on_sniff len n).tcp_client_state ≡ 6)
  unfolding acknowledge_data
  acknowledge_data-TcpStep len n = grind (arith, ack_keeps)

  module _
      (keeps : (cb : BrowserCallback) (status off len : ℕ) (w : World)
        → (final (browser cb status off len w)).net.tcp_client_state ≡ w.net.tcp_client_state) where
    www_keeps :
        (fd status at len : ℕ) (w : World)
        → (final (
            www_client_internal_result_cb env browser on_sniff fd status at len
              w)).net.tcp_client_state
          ≡ w.net.tcp_client_state
    unfolding www_client_internal_result_cb
    www_keeps fd status at len w = grind (arith, keeps)

    result_keeps :
        (fd status at len : ℕ) (w : World)
        → (final (client_tcp_result env browser on_sniff fd status at len w)).net.tcp_client_state
          ≡ w.net.tcp_client_state
    unfolding client_tcp_result
    result_keeps fd status at len w = grind (arith, www_keeps)

    established_step :
        (plen len : ℕ) (w : World)
        → let t = (final (established env browser on_sniff plen len w)).net.tcp_client_state in
          (t ≡ w.net.tcp_client_state) ⊎ (t ≡ 6)
    unfolding established
    established_step plen len w =
        let m = w.net.buffer in
        let start = tcp_data_start m in
        let tcpstart = (if ltb (plen - 8) start then plen - 8 else start) in
        let save_len = (if ltb plen (u16 (tcpstart + len)) then plen - tcpstart else len) in
        after_run (acknowledge_data env browser on_sniff len) w.net.tcp_client_state 6
          (acknowledge_data-TcpStep len) w
          (client_tcp_result env browser on_sniff (bit_and (m 0x25 / 2 ^ 5) 0x7) 0 tcpstart save_len
            w)
          (result_keeps (bit_and (m 0x25 / 2 ^ 5) 0x7) 0 tcpstart save_len w)

    reset_step :
        (fd : ℕ) (w : World)
        → let run = client_tcp_result env browser on_sniff fd 3 0 0 >> on_net set_reset in
          let t = (final (run w)).net.tcp_client_state in (t ≡ w.net.tcp_client_state) ⊎ (t ≡ 5)
    reset_step fd w =
        after_run set_reset w.net.tcp_client_state 5 (λ n. inr refl) w
          (client_tcp_result env browser on_sniff fd 3 0 0 w) (result_keeps fd 3 0 0 w)

    client_packet-PacketStep :
        (plen : ℕ) (w : World)
        → check_ip_message_is_from w.net.hisip w.net ≡ true
        → PacketStep w.net (final (client_packet env browser on_sniff plen w)).net.tcp_client_state
    unfolding client_packet
    client_packet-PacketStep plen w h =
        let n = w.net in
        let len = get_tcp_data_len n.buffer in
        let fd = bit_and (n.buffer 0x25 / 2 ^ 5) 0x7 in
        ground (
          arith,
          h,
          reset_step fd w,
          syn_sent-TcpStep len n,
          established_step plen len w,
          closing-TcpStep len n,
        )

    other_peer :
        (plen : ℕ) (w : World)
        → check_ip_message_is_from w.net.hisip w.net ≡ false
        → client_packet env browser on_sniff plen w ≡ returns tt w
    unfolding client_packet
    other_peer plen w h = ground (arith, h)

    peer : (n : Net) → check_ip_message_is_from n.hisip n ≡ true → ip_at n.buffer 26 ≡ n.hisip
    unfolding check_ip_message_is_from
    peer n h = ground (arith, h)

    client_packet-TcpStep :
        (plen : ℕ) (w : World)
        → w.net.buffer 0x24 ≡ tcpclient_src_port_h
        → TcpStep w.net (final (client_packet env browser on_sniff plen w)).net.tcp_client_state
    client_packet-TcpStep plen w port =
        elim (Bool-cases (check_ip_message_is_from w.net.hisip w.net)) [
          | inl h ↦ inr ((port, peer w.net h), client_packet-PacketStep plen w h)
          | inr h ↦ inl (
              ap (λ (o : Outcome (Unit {0})). (final o).net.tcp_client_state)
                (sym (other_peer plen w h)))
        ]

    -- Whatever packet arrives, the state of the TCP client changes only by a packet from the
    -- address of the server to the port of the client: to 5 only by RST, from 2 to 3 only by SYN
    -- and ACK without RST, from 2 to 1 only by a packet without one of the two, and to 6 only
    -- from 3 by data or by FIN from a state other than 2, 3 and 5; where the callbacks of the
    -- sketch leave the state alone.
    pub dispatch-TcpStep :
        (plen : ℕ) (w : World)
        → TcpStep w.net (final (dispatch env browser on_sniff plen w)).net.tcp_client_state
    unfolding dispatch
    dispatch-TcpStep plen w = ground (
      arith,
      arp_keeps w.net,
      echo_keeps plen w.net,
      accept_keeps w.net.hisport plen w,
      client_packet-TcpStep plen w,
      ap (λ v. v.net.tcp_client_state) (returned w (client_packet env browser on_sniff plen w)),
    )
