-- ===== src/World/Laws/Arp.antt =====
-- Which hardware addresses packetLoop learns from an ARP packet.
use ether_house.Base.{
  ◌≡◌, ◌≢◌, refl, sym, ◌∙◌, Bool, true, false, not, ◌&&◌, ◌==◌, if◌then◌else◌, Ip, mac_at, ip_eqb,
  ip_eqb_iff, arith, Bool-cases, inl, inr,
}
use ether_house.Net.{Net}
use ether_house.Net.Frames.{make_arp_answer_from_request}
use ether_house.World.Packets.{
  has, wgw_accept_arp_reply, wgw_have_gw_mac, arp_is_from, arp_answer, arp_gateway, arp_dns,
  arp_dest, arp_packet,
}

-- The ARP packet in the buffer answers the request for the gateway, the name server or the server.
abbrev pub answers_for_gateway : Net → Bool
answers_for_gateway n =
    has n.waitgwmac wgw_accept_arp_reply && n.buffer 0x15 == 2 && arp_is_from n.gwip n

abbrev pub answers_for_dns : Net → Bool
answers_for_dns n = not n.has_dns_mac && n.waiting_for_dns_mac && arp_is_from n.dnsip n

abbrev pub answers_for_dest : Net → Bool
answers_for_dest n = not n.has_dest_mac && n.waiting_for_dest_mac && arp_is_from n.hisip n

-- The packet answers some of the requests: for the gateway, the name server and the server.
unfoldable pub learned_if : Bool → Bool → Bool → Net → Net
learned_if gateway dns dest n =
    let sender = mac_at n.buffer 0x16 in
    record n {
      gwmacaddr = if gateway then sender else n.gwmacaddr;
      waitgwmac = if gateway then wgw_have_gw_mac else n.waitgwmac;
      destmacaddr = if dns then sender else if dest then sender else n.destmacaddr;
      has_dns_mac = if dns then true else n.has_dns_mac;
      waiting_for_dns_mac = if dns then false else n.waiting_for_dns_mac;
      has_dest_mac = if dest then true else n.has_dest_mac;
      waiting_for_dest_mac = if dest then false else n.waiting_for_dest_mac;
    }

unfoldable pub learned : Net → Net
learned n = learned_if (answers_for_gateway n) (answers_for_dns n) (answers_for_dest n) n

after_gateway : (n : Net) → arp_gateway n ≡ learned_if (answers_for_gateway n) false false n
unfolding arp_gateway learned_if
after_gateway n = by_test (answers_for_gateway n)
  where
    by_test :
        (t : Bool)
        → (if t
            then record n { gwmacaddr = mac_at n.buffer 0x16; waitgwmac = wgw_have_gw_mac }
            else n)
          ≡ learned_if t false false n
    by_test true = refl
    by_test false = refl

after_dns :
    (g : Bool) (n : Net)
    → arp_dns (learned_if g false false n) ≡ learned_if g (answers_for_dns n) false n
unfolding arp_dns learned_if
after_dns g n = by_test (answers_for_dns n)
  where
    by_test :
        (t : Bool)
        → (if t
            then record (learned_if g false false n) {
              destmacaddr = mac_at n.buffer 0x16;
              has_dns_mac = true;
              waiting_for_dns_mac = false;
            }
            else learned_if g false false n)
          ≡ learned_if g t false n
    by_test true = refl
    by_test false = refl

after_dest :
    (g d : Bool) (n : Net)
    → arp_dest (learned_if g d false n) ≡ learned_if g d (answers_for_dest n) n
unfolding arp_dest learned_if
after_dest g d n = by_test d (answers_for_dest n)
  where
    by_test :
        (d t : Bool)
        → (if t
            then record (learned_if g d false n) {
              destmacaddr = mac_at n.buffer 0x16;
              has_dest_mac = true;
              waiting_for_dest_mac = false;
            }
            else learned_if g d false n)
          ≡ learned_if g d t n
    by_test true true = refl
    by_test true false = refl
    by_test false true = refl
    by_test false false = refl

taught : (n : Net) → arp_dest (arp_dns (arp_gateway n)) ≡ learned n
unfolding learned
taught n = rw (
  after_gateway n,
  after_dns (answers_for_gateway n) n,
  after_dest (answers_for_gateway n) (answers_for_dns n) n,
)

-- A packet from the own address is no answer.
untaught :
    (n : Net)
    → arp_is_from n.gwip n ≡ false
    → arp_is_from n.dnsip n ≡ false
    → arp_is_from n.hisip n ≡ false
    → arp_dest (arp_dns (arp_gateway n)) ≡ n
unfolding learned learned_if
untaught n g d h = taught n ∙ rw (not_gateway, not_dns, not_dest)
  where
    not_gateway : answers_for_gateway n ≡ false
    not_gateway = ground arith

    not_dns : answers_for_dns n ≡ false
    not_dns = ground arith

    not_dest : answers_for_dest n ≡ false
    not_dest = ground arith

not_own : (n : Net) (a : Ip) → a ≢ n.myip → arp_is_from a (make_arp_answer_from_request n) ≡ false
unfolding make_arp_answer_from_request
not_own n a h = elim (Bool-cases (ip_eqb n.myip a)) [
  | inl e ↦ absurd (h (sym ((ip_eqb_iff n.myip a).0 e)))
  | inr e ↦ e
]

answered :
    (n : Net)
    → n.gwip ≢ n.myip
    → n.dnsip ≢ n.myip
    → n.hisip ≢ n.myip
    → arp_dest (arp_dns (arp_gateway (make_arp_answer_from_request n)))
      ≡ make_arp_answer_from_request n
unfolding make_arp_answer_from_request
answered n g d h =
    untaught (make_arp_answer_from_request n) (not_own n n.gwip g) (not_own n n.dnsip d)
      (not_own n n.hisip h)

-- An ARP request is answered and teaches nothing; any other packet sends nothing, and the addresses
-- that are waited for, and no others, are set to its sender's. For a host whose own address is none
-- of the gateway, the name server and the server.
pub arp_packet_lem :
    (n : Net)
    → n.gwip ≢ n.myip
    → n.dnsip ≢ n.myip
    → n.hisip ≢ n.myip
    → arp_packet n ≡ (if n.buffer 0x15 == 1 then make_arp_answer_from_request n else learned n)
unfolding arp_packet arp_answer
arp_packet_lem n g d h = elim (Bool-cases (n.buffer 0x15 == 1)) [
  | inl request ↦ rw request (answered n g d h)
  | inr other ↦ rw other (taught n)
]
