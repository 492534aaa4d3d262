-- ===== src/Net/Lan/Laws.antt =====
-- What the address tests mean.
use ether_house.Base.{
  ℕ, ◌<◌, ◌≡◌, ◌≢◌, refl, ◌↔◌, bit_and, true, Ip, octets, arith, IsIp, ip_eqb_iff, all_below,
  all_below_sound, ◌==◌, ==_iff,
}
use ether_house.Net.{Net}
use ether_house.Sketch.{all_ones, all_zeros}
use ether_house.Net.Lan.{
  same_network, is_lan, is_ip_local, broadcast_byte, update_broadcast_address,
}

-- The masked bytes of two addresses agree.
pub record SameNetwork (mask a b : Ip) : Type 0 where
  pub s0 : bit_and a.a0 mask.a0 ≡ bit_and b.a0 mask.a0
  pub s1 : bit_and a.a1 mask.a1 ≡ bit_and b.a1 mask.a1
  pub s2 : bit_and a.a2 mask.a2 ≡ bit_and b.a2 mask.a2
  pub s3 : bit_and a.a3 mask.a3 ≡ bit_and b.a3 mask.a3

SameNetwork-refl : (mask a : Ip) → SameNetwork mask a a
SameNetwork-refl mask a = record { s0 = refl; s1 = refl; s2 = refl; s3 = refl }

pub same_network_iff :
    (mask a b : Ip)
    → (same_network (octets a) (octets b) (octets mask) ≡ true) ↔ SameNetwork mask a b
unfolding same_network
same_network_iff mask a b = ground arith

-- An address passes is_ip_local exactly when it is on the own network and is neither 0.0.0.0 nor
-- 255.255.255.255.
pub is_ip_local_iff :
    (n : Net) (ip : Ip)
    → (is_ip_local n ip ≡ true)
      ↔ ((ip ≢ all_ones) × (ip ≢ all_zeros) × SameNetwork n.netmask n.myip ip)
unfolding is_ip_local
is_ip_local_iff n ip =
    ground
      (arith, ip_eqb_iff ip all_ones, ip_eqb_iff ip all_zeros, same_network_iff n.netmask n.myip ip)

-- validate_dhcp asks it of the own address: only 0.0.0.0 and 255.255.255.255 fail.
pub is_ip_local_self_iff :
    (n : Net) → (is_ip_local n n.myip ≡ true) ↔ ((n.myip ≢ all_ones) × (n.myip ≢ all_zeros))
is_ip_local_self_iff n = (
  λ e. let (ones, zeros, same) = (is_ip_local_iff n n.myip).0 e in (ones, zeros),
  λ (ones, zeros). (is_ip_local_iff n n.myip).1 (ones, zeros, SameNetwork-refl n.netmask n.myip),
)

-- is_lan is the same test of networks, for addresses whose first byte is not 0.
pub is_lan_iff :
    (n : Net) (source destination : Ip)
    → (is_lan n source destination ≡ true)
      ↔ ((source.a0 ≢ 0) × (destination.a0 ≢ 0) × SameNetwork n.netmask source destination)
unfolding is_lan
is_lan_iff n source destination = ground (arith, same_network_iff n.netmask source destination)

-- An address that is_lan relates to a local one is itself related to all that are.
pub is_lan_trans :
    (n : Net) (a b c : Ip) → is_lan n a b ≡ true → is_lan n b c ≡ true → is_lan n a c ≡ true
is_lan_trans n a b c p q = ground (arith, is_lan_iff n a b, is_lan_iff n b c, is_lan_iff n a c)

broadcast_table :
    all_below 256 (λ m. all_below 256 (λ i. bit_and (broadcast_byte i m) m == bit_and i m)) ≡ true
unfolding all_below
broadcast_table = refl

broadcast_byte_masked : (i m : ℕ) → i < 256 → m < 256 → bit_and (broadcast_byte i m) m ≡ bit_and i m
broadcast_byte_masked i m hi hm =
    (==_iff _ _).0 (all_below_sound 256 _ i (all_below_sound 256 _ m broadcast_table hm) hi)

-- The broadcast address is on the own network.
pub broadcast-SameNetwork :
    (n : Net)
    → IsIp n.myip
    → IsIp n.netmask
    → SameNetwork n.netmask (update_broadcast_address n).broadcastip n.myip
unfolding update_broadcast_address
broadcast-SameNetwork n (i0, i1, i2, i3) (m0, m1, m2, m3) = record {
  s0 = broadcast_byte_masked n.myip.a0 n.netmask.a0 i0 m0;
  s1 = broadcast_byte_masked n.myip.a1 n.netmask.a1 i1 m1;
  s2 = broadcast_byte_masked n.myip.a2 n.netmask.a2 i2 m2;
  s3 = broadcast_byte_masked n.myip.a3 n.netmask.a3 i3 m3;
}
