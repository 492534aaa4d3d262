-- ===== src/Net/Frames/Laws.antt =====
-- The replies of tcpip.cpp.
pub mod Udp
pub mod Ack
pub mod Echo
pub mod Header
use ether_house.Base.{
  ℕ, ◌+◌, ◌*◌, ◌≤◌, ◌<◌, ◌≡◌, refl, ◌⊎◌, Bool, Memory, Ip, Mac, ip_at, mac_at, arith, ◌∷◌,
}
use ether_house.Net.{Net, Frame}
use ether_house.Net.Frames.{make_arp_answer_from_request}

-- The one frame that is sent: 42 bytes, from the own addresses to the Ethernet and IP source of the
-- request, whose opcode becomes that of a reply; what is not an address or the opcode is as in the
-- request.
pub record AnswersArp (n : Net) (f : Frame) : Type 0 where
  pub size : f.size ≡ 42
  pub to_mac : mac_at f.bytes 0 ≡ mac_at n.buffer 6
  pub from_mac : mac_at f.bytes 6 ≡ n.mymac
  pub opcode : (f.bytes 20 ≡ 0) × (f.bytes 21 ≡ 2)
  pub sender : (mac_at f.bytes 22 ≡ n.mymac) × (ip_at f.bytes 28 ≡ n.myip)
  pub target : (mac_at f.bytes 32 ≡ mac_at n.buffer 22) × (ip_at f.bytes 38 ≡ ip_at n.buffer 28)
  pub rest : (j : ℕ) → 12 ≤ j → (j < 20) ⊎ (42 ≤ j) → f.bytes j ≡ n.buffer j

pub make_arp_answer-AnswersArp :
    (n : Net) → (f : Frame) × ((make_arp_answer_from_request n).sent ≡ f ∷ n.sent) × AnswersArp n f
unfolding make_arp_answer_from_request
make_arp_answer-AnswersArp n = (
  record { size = 42; bytes = (make_arp_answer_from_request n).buffer },
  refl,
  record {
    size = refl;
    to_mac = refl;
    from_mac = refl;
    opcode = (refl, refl);
    sender = (refl, refl);
    target = (refl, refl);
    rest = λ j l h. ground arith;
  },
)
