-- ===== src/Net/Lan.antt =====
-- Which addresses are on the own network: is_lan and updateBroadcastAddress of tcpip.cpp, and
-- is_ip_local of client_firmware/ping_sweep.ino.
pub mod Laws
use ether_house.Base.{
  ℕ, ◌-◌, bit_and, bit_or, Bool, true, false, not, ◌&&◌, ◌||◌, ◌==◌, if◌then◌else◌, List, [], ◌∷◌,
  Ip, octets, ip_eqb, u8,
}
use ether_house.Net.{Net}
use ether_house.Sketch.{all_ones, all_zeros}

-- The loop that compares the masked bytes and returns false at the first difference.
unfoldable pub same_network : List ℕ → List ℕ → List ℕ → Bool
same_network (x ∷ xs) (y ∷ ys) (m ∷ ms) =
    if not (bit_and x m == bit_and y m) then false else same_network xs ys ms
same_network xs ys ms = true

unfoldable pub is_lan : Net → Ip → Ip → Bool
is_lan n source destination =
    if source.a0 == 0 || destination.a0 == 0
    then false
    else same_network (octets source) (octets destination) (octets n.netmask)

unfoldable pub is_ip_local : Net → Ip → Bool
is_ip_local n ip =
    if ip_eqb ip all_ones || ip_eqb ip all_zeros
    then false
    else same_network (octets n.myip) (octets ip) (octets n.netmask)

-- `~` on a byte that is widened to `int`, and cut to a byte by the assignment.
abbrev pub broadcast_byte : ℕ → ℕ → ℕ
broadcast_byte ip mask = u8 (bit_or ip (255 - mask))

unfoldable pub update_broadcast_address : Net → Net
update_broadcast_address n = record n {
  broadcastip = record {
    a0 = broadcast_byte n.myip.a0 n.netmask.a0;
    a1 = broadcast_byte n.myip.a1 n.netmask.a1;
    a2 = broadcast_byte n.myip.a2 n.netmask.a2;
    a3 = broadcast_byte n.myip.a3 n.netmask.a3;
  };
}
