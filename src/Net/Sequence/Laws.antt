-- ===== src/Net/Sequence/Laws.antt =====
-- The sequence arithmetic of tcpip.cpp is that of 32-bit numbers.
use ether_house.Base.{
  ℕ, zero, suc, u16, ◌+◌, ◌-◌, ◌*◌, ◌/◌, ◌%◌, ◌^◌, ◌≤◌, ◌<◌, ◌≡◌, refl, ◌⊎◌, Bool, true, false,
  if◌then◌else◌, Memory, arith, IsBytes,
}
use ether_house.Base.Bits.{bit_or_low_field}
use ether_house.Net.Sequence.{step_seq, get_tcp_data_len}

-- The big-endian number in four bytes.
abbrev pub long_at : Memory → ℕ → ℕ
long_at m i = ((m i * 256 + m (i + 1)) * 256 + m (i + 2)) * 256 + m (i + 3)

module _ (m : Memory) (rel : ℕ) (b : IsBytes m) (h : rel < 2 ^ 16 - 255) where
  acknowledged : (cp : Bool) → long_at (step_seq 4 rel cp m) 0x2a ≡ (long_at m 0x26 + rel) % 2 ^ 32
  unfolding step_seq
  acknowledged cp = omega (arith, b 0x26, b 0x27, b 0x28, b 0x29)

  numbered : (cp : Bool) → long_at (step_seq 4 rel cp m) 0x26 ≡ (if cp then long_at m 0x2a else 0)
  unfolding step_seq
  numbered true = refl
  numbered false = refl

  untouched : (cp : Bool) (j : ℕ) → (j < 0x26) ⊎ (0x2e ≤ j) → step_seq 4 rel cp m j ≡ m j
  unfolding step_seq
  untouched true j far = ground arith
  untouched false j far = ground arith

-- step_seq acknowledges the received sequence number and `rel` bytes more, modulo 2 ^ 32, where
-- adding a byte to `rel` does not overflow 16 bits; the sequence number becomes the number that was
-- acknowledged, or 0; nothing else changes.
pub step_seq_lem :
    (m : Memory) (rel : ℕ) (cp : Bool)
    → IsBytes m
    → rel < 2 ^ 16 - 255
    → let m' = step_seq 4 rel cp m in
      (long_at m' 0x2a ≡ (long_at m 0x26 + rel) % 2 ^ 32)
      × (long_at m' 0x26 ≡ (if cp then long_at m 0x2a else 0))
      × ((j : ℕ) → (j < 0x26) ⊎ (0x2e ≤ j) → m' j ≡ m j)
step_seq_lem m rel cp b h =
    (acknowledged m rel b h cp, numbered m rel b h cp, untouched m rel b h cp)

-- The length of the data is what the IP header counts beyond both headers, and 0 where it counts
-- less than these.
pub get_tcp_data_len_lem :
    (m : Memory)
    → IsBytes m
    → m 0x10 < 0x80
    → get_tcp_data_len m ≡ m 0x10 * 256 + m 0x11 - (20 + m 0x2e / 16 * 4)
unfolding get_tcp_data_len
get_tcp_data_len_lem m b h =
    ground (arith, b 0x10, b 0x11, b 0x2e, bit_or_low_field 8 (m 0x10) (m 0x11))

pub step_seq-IsBytes :
    (i : ℕ) (m : Memory) (rel : ℕ) (cp : Bool) → IsBytes m → IsBytes (step_seq i rel cp m)
unfolding step_seq
step_seq-IsBytes zero m rel cp b = b
step_seq-IsBytes (suc i) m rel cp b =
    step_seq-IsBytes i _ (u16 (m (0x26 + i) + rel) / 2 ^ 8) cp
      (λ j. ground (arith, b j, b (0x2a + i)))
