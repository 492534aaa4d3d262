-- ===== src/Net/Frames/Laws/Udp.antt =====
-- udpPrepare and udpTransmit of tcpip.cpp: what they leave alone, and what is sent.
use ether_house.Base.{
  ℕ, ◌+◌, ◌≤◌, ◌≡◌, ap, ◌∙◌, Bool, true, false, if◌then◌else◌, List, [], ◌∷◌, u8, ◌/◌, ◌^◌, arith,
  writes_far, put_mac_far, put_mac, inr, ip_eqb, Mac, bit_and, ◌||◌, ◌==◌, Ip,
}
use ether_house.Net.{Net}
use ether_house.Sketch.{no_mac, all_ones}
use ether_house.Net.Checksum.{fill_checksum}
use ether_house.Net.Lan.{is_lan}
use ether_house.Net.Frames.{set_macs, set_mac_and_ips, fill_ip_hdr_checksum}
use ether_house.Net.Frames.Requests.{address_to, ip_template, udp_prepare, udp_transmit}

-- udpTransmit changes nothing behind the headers.
pub udp_transmit_far :
    (datalen : ℕ) (n : Net) (j : ℕ) → 42 ≤ j → (udp_transmit datalen n).buffer j ≡ n.buffer j
unfolding udp_transmit fill_ip_hdr_checksum fill_checksum
udp_transmit_far datalen n j h = ground arith

address_to_far : (dip : Ip) (n : Net) (j : ℕ) → 42 ≤ j → (address_to dip n).buffer j ≡ n.buffer j
unfolding address_to set_mac_and_ips set_macs
address_to_far dip n j h = by_net (is_lan n n.myip dip)
  where
    set_far : (mac : Mac) → (set_mac_and_ips mac dip n).buffer j ≡ n.buffer j
    set_far mac = ground arith

    by_net :
        (t : Bool)
        → (if t
              then set_mac_and_ips n.destmacaddr dip n
              else set_mac_and_ips n.gwmacaddr dip n).buffer
            j
          ≡ n.buffer j
    by_net true = set_far n.destmacaddr
    by_net false = set_far n.gwmacaddr

ip_template_far : (n : Net) (j : ℕ) → 42 ≤ j → (ip_template n).buffer j ≡ n.buffer j
unfolding ip_template
ip_template_far n j h = ground arith

pub udp_prepare_far :
    (sport : ℕ) (dip : Ip) (dport : ℕ) (n : Net) (j : ℕ)
    → 42 ≤ j
    → (udp_prepare sport dip dport n).buffer j ≡ n.buffer j
unfolding udp_prepare
udp_prepare_far sport dip dport n j h =
    writes_far (ip_template n2).buffer ports 42 j (omega arith) h
    ∙ by_address (bit_and dip.a0 0xf0 == 0xe0 || ip_eqb dip all_ones)
  where
    n1 : Net
    n1 = address_to dip n

    n2 : Net
    n2 =
        if bit_and dip.a0 0xf0 == 0xe0 || ip_eqb dip all_ones
        then record n1 { buffer = put_mac n1.buffer 0 no_mac }
        else n1

    ports : List (ℕ × ℕ)
    ports =
        (0x10, 0)
        ∷ (0x17, 17)
        ∷ (0x24, u8 (dport / 2 ^ 8))
        ∷ (0x25, u8 dport)
        ∷ (0x22, u8 (sport / 2 ^ 8))
        ∷ (0x23, u8 sport)
        ∷ (0x26, 0)
        ∷ (0x28, 0)
        ∷ (0x29, 0)
        ∷ []

    by_address :
        (t : Bool)
        → (ip_template (if t then record n1 { buffer = put_mac n1.buffer 0 no_mac } else n1)).buffer
            j
          ≡ n.buffer j
    by_address true =
        ip_template_far (record n1 { buffer = put_mac n1.buffer 0 no_mac }) j h
        ∙ put_mac_far n1.buffer 0 no_mac j (inr (omega arith))
        ∙ address_to_far dip n j h
    by_address false = ip_template_far n1 j h ∙ address_to_far dip n j h

pub udp_prepare-sent :
    (sport : ℕ) (dip : Ip) (dport : ℕ) (n : Net) → (udp_prepare sport dip dport n).sent ≡ n.sent
unfolding udp_prepare address_to ip_template
udp_prepare-sent sport dip dport n = ground arith

pub udp_transmit-sent :
    (datalen : ℕ) (n : Net)
    → (udp_transmit datalen n).sent
      ≡ record { size = 42 + datalen; bytes = (udp_transmit datalen n).buffer } ∷ n.sent
unfolding udp_transmit fill_ip_hdr_checksum
udp_transmit-sent datalen n =
    ap (λ k. record { size = k; bytes = (udp_transmit datalen n).buffer } ∷ n.sent) (omega arith)
