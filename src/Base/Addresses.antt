-- ===== src/Base/Addresses.antt =====
-- IPv4 and Ethernet addresses: the `uint8_t[4]` and `uint8_t[6]` of the source.
use Prim.Native.Nat.{ℕ, ◌+◌, ◌<◌, ◌≤◌}
use mathlib.Core.Path.{◌≡◌}
use mathlib.Core.Logic.{◌↔◌, ◌⊎◌}
use mathlib.Core.List.{List, [], ◌∷◌}
use mathlib.Core.Bool.{Bool, true, ◌&&◌}
use native.Mathlib.Omega.{arith}
use ether_house.Base.Tests.{◌==◌}
use ether_house.Base.Ram.{Memory, write, IsBytes}

pub record Ip : Type 0 where
  pub a0 : ℕ
  pub a1 : ℕ
  pub a2 : ℕ
  pub a3 : ℕ

pub record Mac : Type 0 where
  pub m0 : ℕ
  pub m1 : ℕ
  pub m2 : ℕ
  pub m3 : ℕ
  pub m4 : ℕ
  pub m5 : ℕ

abbrev pub octets : Ip → List ℕ
octets a = a.a0 ∷ a.a1 ∷ a.a2 ∷ a.a3 ∷ []

-- `memcmp(a, b, 4) == 0`.
abbrev pub ip_eqb : Ip → Ip → Bool
ip_eqb a b = a.a0 == b.a0 && a.a1 == b.a1 && a.a2 == b.a2 && a.a3 == b.a3

-- `memcmp(a, b, 6) == 0`.
abbrev pub mac_eqb : Mac → Mac → Bool
mac_eqb a b =
    a.m0 == b.m0 && a.m1 == b.m1 && a.m2 == b.m2 && a.m3 == b.m3 && a.m4 == b.m4 && a.m5 == b.m5

abbrev pub ip_at : Memory → ℕ → Ip
ip_at m i = record { a0 = m i; a1 = m (i + 1); a2 = m (i + 2); a3 = m (i + 3) }

abbrev pub mac_at : Memory → ℕ → Mac
mac_at m i = record {
  m0 = m i;
  m1 = m (i + 1);
  m2 = m (i + 2);
  m3 = m (i + 3);
  m4 = m (i + 4);
  m5 = m (i + 5);
}

abbrev pub put_ip : Memory → ℕ → Ip → Memory
put_ip m i a = write (write (write (write m i a.a0) (i + 1) a.a1) (i + 2) a.a2) (i + 3) a.a3

abbrev pub put_mac : Memory → ℕ → Mac → Memory
put_mac m i a =
    write
      (write (write (write (write (write m i a.m0) (i + 1) a.m1) (i + 2) a.m2) (i + 3) a.m3) (i + 4)
        a.m4)
      (i + 5) a.m5

abbrev pub IsIp : Ip → Type 0
IsIp a = (a.a0 < 256) × (a.a1 < 256) × (a.a2 < 256) × (a.a3 < 256)

pub ip_eqb_iff : (a b : Ip) → (ip_eqb a b ≡ true) ↔ (a ≡ b)
ip_eqb_iff a b = ground arith

pub mac_eqb_iff : (a b : Mac) → (mac_eqb a b ≡ true) ↔ (a ≡ b)
mac_eqb_iff a b = ground arith

abbrev pub IsMac : Mac → Type 0
IsMac a = (a.m0 < 256) × (a.m1 < 256) × (a.m2 < 256) × (a.m3 < 256) × (a.m4 < 256) × (a.m5 < 256)

pub IsBytes-put_ip : (m : Memory) (i : ℕ) (a : Ip) → IsBytes m → IsIp a → IsBytes (put_ip m i a)
IsBytes-put_ip m i a b (h0, h1, h2, h3) j = ground (arith, b j)

pub IsBytes-put_mac : (m : Memory) (i : ℕ) (a : Mac) → IsBytes m → IsMac a → IsBytes (put_mac m i a)
IsBytes-put_mac m i a b (h0, h1, h2, h3, h4, h5) j = ground (arith, b j)

pub put_ip_far :
    (m : Memory) (i : ℕ) (a : Ip) (j : ℕ) → (j < i) ⊎ (i + 4 ≤ j) → put_ip m i a j ≡ m j
put_ip_far m i a j h = ground arith

pub put_mac_far :
    (m : Memory) (i : ℕ) (a : Mac) (j : ℕ) → (j < i) ⊎ (i + 6 ≤ j) → put_mac m i a j ≡ m j
put_mac_far m i a j h = ground arith

pub ip_at_ext :
    (m m' : Memory) (i : ℕ) → ((j : ℕ) → i ≤ j → j < i + 4 → m j ≡ m' j) → ip_at m i ≡ ip_at m' i
ip_at_ext m m' i h = ground (
  arith,
  h i (omega arith) (omega arith),
  h (i + 1) (omega arith) (omega arith),
  h (i + 2) (omega arith) (omega arith),
  h (i + 3) (omega arith) (omega arith),
)

pub mac_at_ext :
    (m m' : Memory) (i : ℕ) → ((j : ℕ) → i ≤ j → j < i + 6 → m j ≡ m' j) → mac_at m i ≡ mac_at m' i
mac_at_ext m m' i h = ground (
  arith,
  h i (omega arith) (omega arith),
  h (i + 1) (omega arith) (omega arith),
  h (i + 2) (omega arith) (omega arith),
  h (i + 3) (omega arith) (omega arith),
  h (i + 4) (omega arith) (omega arith),
  h (i + 5) (omega arith) (omega arith),
)
