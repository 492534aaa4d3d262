-- ===== src/Sketch/Eeprom/Crc.antt =====
-- What the EEPROM functions rely on in avr-libc's `_crc16_update`: its documentation gives the
-- equivalent C, the polynomial 0xa001 with the lowest bit first.
use native.Mathlib.Nat.{le_refl, pow-suc}
use ether_house.Base.{
  ℕ, zero, suc, ◌*◌, ◌/◌, ◌%◌, ◌^◌, ◌≤◌, ◌<◌, ◌≡◌, refl, ap, ◌∙◌, sym, bit_and, bit_xor, ◌==◌,
  if◌then◌else◌, arith,
}
use ether_house.Base.Bits.{
  bit_and_mask, bit_xor_low_byte, bit_xor_self, bit_xor_fields, bit_xor-lt, bit_xor-injective,
  bit_xor_comm,
}

-- if (crc & 1) crc = (crc >> 1) ^ 0xA001; else crc = crc >> 1;
unfoldable pub shift_bit : ℕ → ℕ
shift_bit crc = if bit_and crc 1 == 1 then bit_xor (crc / 2) 0xa001 else crc / 2

unfoldable pub shift_bits : ℕ → ℕ → ℕ
shift_bits zero crc = crc
shift_bits (suc n) crc = shift_bits n (shift_bit crc)

-- The documented behaviour, for a 16-bit `crc` and a byte.
pub record IsCrc16 (crc16_update : ℕ → ℕ → ℕ) : Type 0 where
  pub documented :
      (crc a : ℕ) → crc < 2 ^ 16 → a < 256 → crc16_update crc a ≡ shift_bits 8 (bit_xor crc a)

-- The documented C itself meets it.
abbrev pub reference_update : ℕ → ℕ → ℕ
reference_update crc a = shift_bits 8 (bit_xor crc a)

pub reference_update-IsCrc16 : IsCrc16 reference_update
reference_update-IsCrc16 = record { documented = λ crc a h g. refl }

shift_bit_even : (x : ℕ) → shift_bit (x * 2) ≡ x
unfolding shift_bit
shift_bit_even x = ground (arith, bit_and_mask 1 (x * 2))

shift_bits_zeros : (n x : ℕ) → shift_bits n (x * 2 ^ n) ≡ x
unfolding shift_bits
shift_bits_zeros zero x = omega arith
shift_bits_zeros (suc n) x = rw (doubled, shift_bit_even (x * 2 ^ n)) (shift_bits_zeros n x)
  where
    doubled : x * 2 ^ suc n ≡ x * 2 ^ n * 2
    doubled = omega (arith, ap (λ (t : ℕ). x * t) (pow-suc 2 n))

shift_bit-lt : (x : ℕ) → x < 2 ^ 16 → shift_bit x < 2 ^ 16
unfolding shift_bit
shift_bit-lt x h = ground (arith, bit_xor-lt 16 (x / 2) 0xa001)

shift_bits-lt : (n x : ℕ) → x < 2 ^ 16 → shift_bits n x < 2 ^ 16
unfolding shift_bits
shift_bits-lt zero x h = h
shift_bits-lt (suc n) x h = shift_bits-lt n (shift_bit x) (shift_bit-lt x h)

-- The bit that falls out is told from the top bit of the result.
high_bit : (x : ℕ) → x < 2 ^ 15 → 2 ^ 15 ≤ bit_xor x 0xa001
high_bit x h = ground (arith, bit_xor_fields 15 0 x 1 0x2001 h (omega arith))

shift_bit-injective : (x y : ℕ) → x < 2 ^ 16 → y < 2 ^ 16 → shift_bit x ≡ shift_bit y → x ≡ y
unfolding shift_bit
shift_bit-injective x y hx hy e = ground (
  arith,
  bit_and_mask 1 x,
  bit_and_mask 1 y,
  high_bit (x / 2),
  high_bit (y / 2),
  bit_xor-injective (2 ^ 16) (x / 2) (y / 2) 0xa001,
)

shift_bits-injective :
    (n x y : ℕ) → x < 2 ^ 16 → y < 2 ^ 16 → shift_bits n x ≡ shift_bits n y → x ≡ y
unfolding shift_bits
shift_bits-injective zero x y hx hy e = e
shift_bits-injective (suc n) x y hx hy e =
    shift_bit-injective x y hx hy
      (shift_bits-injective n (shift_bit x) (shift_bit y) (shift_bit-lt x hx) (shift_bit-lt y hy) e)

module _ {crc16_update : ℕ → ℕ → ℕ} (crc16 : IsCrc16 crc16_update) where
  pub update-lt : (crc a : ℕ) → crc < 2 ^ 16 → a < 256 → crc16_update crc a < 2 ^ 16
  update-lt crc a hc ha =
      rw (crc16.documented crc a hc ha)
        (shift_bits-lt 8 (bit_xor crc a) (bit_xor-lt 16 crc a hc (omega arith)))

  -- A CRC fed with its own low byte and then its high byte gives 0.
  pub update_residue :
      (crc : ℕ) → crc < 2 ^ 16 → crc16_update (crc16_update crc (crc % 256)) (crc / 256) ≡ 0
  update_residue crc h = rw (low, high) refl
    where
      low : crc16_update crc (crc % 256) ≡ crc / 256
      low =
          crc16.documented crc (crc % 256) h (omega arith)
          ∙ ap (shift_bits 8) (bit_xor_low_byte crc)
          ∙ shift_bits_zeros 8 (crc / 256)

      high : crc16_update (crc / 256) (crc / 256) ≡ 0
      high =
          crc16.documented (crc / 256) (crc / 256) (omega arith) (omega arith)
          ∙ ap (shift_bits 8) (bit_xor_self (crc / 256) (crc / 256) (le_refl _))
          ∙ shift_bits_zeros 8 0

  -- Two CRCs that one byte takes to the same CRC are the same.
  pub update-injective :
      (crc crc' a : ℕ)
      → crc < 2 ^ 16
      → crc' < 2 ^ 16
      → a < 256
      → crc16_update crc a ≡ crc16_update crc' a
      → crc ≡ crc'
  update-injective crc crc' a h h' ha e =
      bit_xor-injective (2 ^ 16) crc crc' a (omega arith) (omega arith) (
        shift_bits-injective 8 (bit_xor crc a) (bit_xor crc' a)
          (bit_xor-lt 16 crc a h (omega arith)) (bit_xor-lt 16 crc' a h' (omega arith))
          (sym (crc16.documented crc a h ha) ∙ e ∙ crc16.documented crc' a h' ha))

  -- Two bytes that take a CRC to the same CRC are the same.
  pub update-injective_byte :
      (crc a b : ℕ)
      → crc < 2 ^ 16
      → a < 256
      → b < 256
      → crc16_update crc a ≡ crc16_update crc b
      → a ≡ b
  update-injective_byte crc a b h ha hb e =
      bit_xor-injective 256 a b crc (omega arith) (omega arith) (
        bit_xor_comm (2 ^ 16) a crc (omega arith) (omega arith)
        ∙ shift_bits-injective 8 (bit_xor crc a) (bit_xor crc b)
            (bit_xor-lt 16 crc a h (omega arith)) (bit_xor-lt 16 crc b h (omega arith))
            (sym (crc16.documented crc a h ha) ∙ e ∙ crc16.documented crc b h hb)
        ∙ bit_xor_comm (2 ^ 16) crc b (omega arith) (omega arith))
