-- ===== src/Tests/Net.antt =====
-- The functions of tcpip.cpp and sniffer.cpp.
use ether_house.Base.{
  ℕ, ◌≡◌, ◌≢◌, refl, ◌+◌, ◌≤◌, ◌⊎◌, ◌↔◌, false, [], ◌∷◌, List, Memory, write, writes, Ip, Mac,
  arith, mac_at, ip_at, IsBytes, IsBytes-writes,
}
use ether_house.Net.{Net, Frame, no_result, no_datafill, no_browser, no_url}
use ether_house.Net.Checksum.{fill_checksum, initial_sum}
use ether_house.Net.Checksum.Laws.{IsChecked, fill_checksum-IsChecked}
use ether_house.Net.Frames.{
  make_arp_answer_from_request, make_tcp_ack_from_any, make_echo_reply_from_request,
}
use ether_house.Net.Frames.Laws.{AnswersArp, make_arp_answer-AnswersArp}
use ether_house.Net.Frames.Laws.Header.{IsSound}
use ether_house.Net.Frames.Laws.Ack.{IsAck, make_tcp_ack_from_any-IsAck}
use ether_house.Net.Frames.Laws.Echo.{LosesCarry, make_echo_reply_lem}
use ether_house.Net.Sniffer.{sniffer_process_packet}
use ether_house.Net.Sniffer.Laws.{CarriesIp, sniffer_process_packet_lem}

abbrev ip_of : ℕ → Ip
ip_of d = record { a0 = 192; a1 = 168; a2 = 1; a3 = d }

abbrev mac_of : ℕ → Mac
mac_of d = record { m0 = 0x74; m1 = 0x69; m2 = 0x69; m3 = 0x2d; m4 = 0x30; m5 = d }

-- A buffer that holds `assignments` in zeros, on a host 192.168.1.10.
abbrev pub host : List (ℕ × ℕ) → Net
host assignments = record {
  buffer = writes (λ i. 0) assignments;
  sent = [];
  mymac = mac_of 0;
  myip = ip_of 10;
  netmask = record { a0 = 255; a1 = 255; a2 = 255; a3 = 0 };
  broadcastip = ip_of 255;
  gwip = ip_of 1;
  dnsip = ip_of 1;
  hisip = ip_of 1;
  hisport = 80;
  using_dhcp = false;
  persist_tcp_connection = false;
  delaycnt = 0;
  tcpclient_src_port_l = 1;
  tcp_fd = 0;
  tcp_client_state = 0;
  tcp_client_port_h = 0;
  tcp_client_port_l = 0;
  client_tcp_result_cb = no_result;
  client_tcp_datafill_cb = no_datafill;
  www_fd = 0;
  client_browser_cb = no_browser;
  client_urlbuf = no_url;
  destmacaddr = mac_of 7;
  waiting_for_dns_mac = false;
  has_dns_mac = false;
  waiting_for_dest_mac = false;
  has_dest_mac = false;
  gwmacaddr = mac_of 1;
  waitgwmac = 2;
  info_data_len = 0;
  seqnum = 10;
  result_fd = 123;
  seq = 0;
  sniffers = [];
}

-- An echo request of 42 bytes with the checksum 0xf7ff.
abbrev pub ping : Net
ping = host (
    (6, 0x10)
    ∷ (26, 192)
    ∷ (27, 168)
    ∷ (28, 1)
    ∷ (29, 1)
    ∷ (0x22, 8)
    ∷ (0x24, 0xf7)
    ∷ (0x25, 0xff)
    ∷ [])

ping-IsSound : IsSound ping
ping-IsSound = record {
  buffer =
      IsBytes-writes (λ i. 0)
        ((6, 0x10)
          ∷ (26, 192)
          ∷ (27, 168)
          ∷ (28, 1)
          ∷ (29, 1)
          ∷ (0x22, 8)
          ∷ (0x24, 0xf7)
          ∷ (0x25, 0xff)
          ∷ [])
        (λ j. omega arith) (omega arith);
  mymac = omega arith;
  myip = omega arith;
}

fill_checksum-IsChecked_example :
    let m = fill_checksum 24 14 20 0 (writes (λ i. 0) ((14, 0x45) ∷ (16, 3) ∷ [])) in
    IsChecked m 14 20 0
    × ((j : ℕ) → j ≢ 24 → j ≢ 25 → m j ≡ writes (λ i. 0) ((14, 0x45) ∷ (16, 3) ∷ []) j)
    × IsBytes m
fill_checksum-IsChecked_example =
    fill_checksum-IsChecked (writes (λ i. 0) ((14, 0x45) ∷ (16, 3) ∷ [])) 14 20 0 5
      (IsBytes-writes (λ i. 0) ((14, 0x45) ∷ (16, 3) ∷ []) (λ j. omega arith) (omega arith))
      (omega arith) (omega arith) (omega arith) refl refl

make_tcp_ack_from_any-IsAck_example :
    let n' = make_tcp_ack_from_any 5 9 ping in
    (f : Frame) × (n'.sent ≡ f ∷ []) × (n'.buffer ≡ f.bytes) × IsAck ping 5 9 f
make_tcp_ack_from_any-IsAck_example =
    make_tcp_ack_from_any-IsAck ping 5 9 ping-IsSound (omega arith)

make_echo_reply_lem_example :
    let n' = make_echo_reply_from_request 42 ping in
    (n'.sent ≡ record { size = 42; bytes = n'.buffer } ∷ [])
    × (mac_at n'.buffer 0 ≡ mac_at ping.buffer 6)
    × (ip_at n'.buffer 30 ≡ ip_of 1)
    × (n'.buffer 0x22 ≡ 0)
    × (IsChecked n'.buffer 0x22 8 0 ↔ (¬ LosesCarry ping.buffer))
make_echo_reply_lem_example =
    make_echo_reply_lem 42 ping ping-IsSound (omega arith) refl ping-IsChecked
  where
    ping-IsChecked : IsChecked ping.buffer 0x22 8 0
    ping-IsChecked = unfold initial_sum in (refl, omega arith)

make_arp_answer-AnswersArp_example :
    (f : Frame) × ((make_arp_answer_from_request ping).sent ≡ f ∷ []) × AnswersArp ping f
make_arp_answer-AnswersArp_example = make_arp_answer-AnswersArp ping

-- The callback of these runs stores the offset that it is handed.
abbrev note : ℕ → Memory → Memory
note at m = write m 200 at

abbrev heard : Memory
heard =
    writes (λ i. 0)
      ((6, 0x74) ∷ (7, 0x69) ∷ (8, 0x69) ∷ (9, 0x2d) ∷ (10, 0x30) ∷ (11, 9) ∷ (12, 8) ∷ [])

sniffer_process_packet_lem_example :
    let result = sniffer_process_packet (λ m. m) note (mac_of 9 ∷ []) 60 heard in
    ((at : ℕ) × CarriesIp 60 heard at
      × (at + 4 ≤ 60)
      × (mac_at heard 6 ≡ mac_of 9)
      × (result ≡ note at heard))
    ⊎ ((result ≡ heard) × ((at : ℕ) → CarriesIp 60 heard at → mac_at heard 6 ≢ mac_of 9))
sniffer_process_packet_lem_example = sniffer_process_packet_lem (λ m. m) note (mac_of 9) 60 heard
