-- ===== src/Base/Bits.antt =====
-- Digit-by-digit laws of `&`, `|` and `^` at variables.
use Prim.Native.Nat.{ℕ, zero, suc, ◌+◌, ◌-◌, ◌*◌, ◌/◌, ◌%◌, ◌^◌, ◌≤◌, ◌<◌, min, max}
use Prim.Native.Nat.{bit_and, bit_or, bit_xor}
use Prim.Native.Nat.{digits, bitwise, differ, bit_and-bitwise, bit_or-bitwise, bit_xor-bitwise}
use mathlib.Core.Path.{◌≡◌, refl, ap, ◌∙◌}
use native.Mathlib.Nat.{pow-suc, one-le-pow}
use native.Mathlib.Decide.{ℕ_discrete}
use native.Mathlib.Omega.{arith}

module _ (below : ℕ → ℕ) (op : ℕ → ℕ → ℕ) where
  -- One round more than the number needs is a round of nothing.
  spare_round : (n a b : ℕ) → a ≤ n → digits below op (suc n) a b ≡ digits below op n a b
  spare_round zero zero b h = refl
  spare_round zero (suc a) b h = absurd (omega arith)
  spare_round (suc n) zero b h = refl
  spare_round (suc n) (suc a) b h =
      ap (λ (t : ℕ). t * 2 + op (suc a % 2) (b % 2))
        (spare_round n (suc a / 2) (b / 2) (omega arith))

  settled : (n a b : ℕ) → a ≤ n → digits below op n a b ≡ bitwise below op a b
  settled zero zero b h = refl
  settled zero (suc a) b h = absurd (omega arith)
  settled (suc n) a b h = elim (ℕ_discrete a (suc n)) [
    | yes full ↦ rw full refl
    | no less ↦ let fits : a ≤ n = omega arith in spare_round n a b fits ∙ settled n a b fits
  ]

  lowest_digit :
      (a b : ℕ)
      → bitwise below op (suc a) b
        ≡ bitwise below op (suc a / 2) (b / 2) * 2 + op (suc a % 2) (b % 2)
  lowest_digit a b =
      ap (λ (t : ℕ). t * 2 + op (suc a % 2) (b % 2)) (settled a (suc a / 2) (b / 2) (omega arith))

-- `&` takes the smaller of two binary digits.
pub bit_and_step : (x y : ℕ) → bit_and x y ≡ bit_and (x / 2) (y / 2) * 2 + min (x % 2) (y % 2)
bit_and_step zero y = simp bit_and-bitwise (omega arith)
bit_and_step (suc x) y = simp bit_and-bitwise (lowest_digit (λ t. 0) min x y)

-- `|` takes the larger of two binary digits.
pub bit_or_step : (x y : ℕ) → bit_or x y ≡ bit_or (x / 2) (y / 2) * 2 + max (x % 2) (y % 2)
bit_or_step zero y = simp bit_or-bitwise (omega arith)
bit_or_step (suc x) y = simp bit_or-bitwise (lowest_digit (λ t. t) max x y)

differ_parity : (a b : ℕ) → a < 2 → b < 2 → differ a b ≡ (a + b) % 2
differ_parity zero zero p q = refl
differ_parity zero (suc zero) p q = refl
differ_parity (suc zero) zero p q = refl
differ_parity (suc zero) (suc zero) p q = refl
differ_parity zero (suc (suc b)) p q = absurd (omega arith)
differ_parity (suc zero) (suc (suc b)) p q = absurd (omega arith)
differ_parity (suc (suc a)) b p q = absurd (omega arith)

pub bit_xor_step : (a b : ℕ) → bit_xor a b ≡ bit_xor (a / 2) (b / 2) * 2 + (a % 2 + b % 2) % 2
bit_xor_step zero b = simp bit_xor-bitwise (omega arith)
bit_xor_step (suc a) b = simp bit_xor-bitwise (
    omega (
      arith,
      lowest_digit (λ y. y) differ a b,
      differ_parity (suc a % 2) (b % 2) (omega arith) (omega arith),
    ))

-- A number differs from itself in no bit, and from 0 in its own bits.
pub bit_xor_self : (n a : ℕ) → a ≤ n → bit_xor a a ≡ 0
bit_xor_self n zero h = refl
bit_xor_self zero (suc a) h = absurd (omega arith)
bit_xor_self (suc n) (suc a) h =
    omega (arith, bit_xor_step (suc a) (suc a), bit_xor_self n (suc a / 2) (omega arith))

pub bit_xor-zero : (n a : ℕ) → a ≤ n → bit_xor a 0 ≡ a
bit_xor-zero n zero h = refl
bit_xor-zero zero (suc a) h = absurd (omega arith)
bit_xor-zero (suc n) (suc a) h =
    omega (arith, bit_xor_step (suc a) 0, bit_xor-zero n (suc a / 2) (omega arith))

pub bit_and-zero : (n a : ℕ) → a ≤ n → bit_and a 0 ≡ 0
bit_and-zero n zero h = refl
bit_and-zero zero (suc a) h = absurd (omega arith)
bit_and-zero (suc n) (suc a) h =
    omega (arith, bit_and_step (suc a) 0, bit_and-zero n (suc a / 2) (omega arith))

pub bit_and-le : (n a b : ℕ) → a ≤ n → bit_and a b ≤ a
bit_and-le n zero b h = omega (arith, bit_and-bitwise 0 b)
bit_and-le zero (suc a) b h = absurd (omega arith)
bit_and-le (suc n) (suc a) b h =
    omega (arith, bit_and_step (suc a) b, bit_and-le n (suc a / 2) (b / 2) (omega arith))

mul-pow-suc : (q k : ℕ) → q * 2 ^ suc k ≡ 2 * (q * 2 ^ k)
mul-pow-suc q k = omega (arith, ap (λ (t : ℕ). q * t) (pow-suc 2 k))

-- The low field cancels against itself.
pub bit_xor_low_field : (k q r : ℕ) → r < 2 ^ k → bit_xor (q * 2 ^ k + r) r ≡ q * 2 ^ k
bit_xor_low_field zero q r h = ground (arith, bit_xor-zero q q)
bit_xor_low_field (suc k) q r h = ground (
  arith,
  bit_xor_step (q * 2 ^ suc k + r) r,
  mul-pow-suc q k,
  pow-suc 2 k,
  bit_xor_low_field k q (r / 2) (omega arith),
)

pub bit_xor_low_byte : (c : ℕ) → bit_xor c (c % 256) ≡ c / 256 * 256
bit_xor_low_byte c = ground (arith, bit_xor_low_field 8 (c / 256) (c % 256))

bit_and_low_field : (k q r : ℕ) → r < 2 ^ k → bit_and (q * 2 ^ k + r) (2 ^ k - 1) ≡ r
bit_and_low_field zero q r h = rw (bit_and-zero (q * 1 + r) (q * 1 + r) (omega arith)) (omega arith)
bit_and_low_field (suc k) q r h = ground (
  arith,
  bit_and_step (q * 2 ^ suc k + r) (2 ^ suc k - 1),
  mul-pow-suc q k,
  pow-suc 2 k,
  one-le-pow k 2,
  bit_and_low_field k q (r / 2) (omega arith),
)

-- A mask of k ones keeps the remainder by 2 ^ k.
pub bit_and_mask : (k a : ℕ) → bit_and a (2 ^ k - 1) ≡ a % 2 ^ k
bit_and_mask k a = ground (arith, one-le-pow k 2, bit_and_low_field k (a / 2 ^ k) (a % 2 ^ k))

-- Fields of k bits are combined on their own.
pub bit_xor_fields :
    (k q r p t : ℕ)
    → r < 2 ^ k
    → t < 2 ^ k
    → bit_xor (q * 2 ^ k + r) (p * 2 ^ k + t) ≡ bit_xor q p * 2 ^ k + bit_xor r t
bit_xor_fields zero q r p t hr ht = ground arith
bit_xor_fields (suc k) q r p t hr ht = ground (
  arith,
  bit_xor_step (q * 2 ^ suc k + r) (p * 2 ^ suc k + t),
  bit_xor_step r t,
  mul-pow-suc q k,
  mul-pow-suc p k,
  mul-pow-suc (bit_xor q p) k,
  pow-suc 2 k,
  bit_xor_fields k q (r / 2) p (t / 2) (omega arith) (omega arith),
)

-- Words of k bits give a word of k bits.
pub bit_xor-lt : (k a b : ℕ) → a < 2 ^ k → b < 2 ^ k → bit_xor a b < 2 ^ k
bit_xor-lt zero zero zero ha hb = omega arith
bit_xor-lt zero zero (suc b) ha hb = absurd (omega arith)
bit_xor-lt zero (suc a) b ha hb = absurd (omega arith)
bit_xor-lt (suc k) a b ha hb = ground (
  arith,
  bit_xor_step a b,
  pow-suc 2 k,
  bit_xor-lt k (a / 2) (b / 2) (omega (arith, pow-suc 2 k)) (omega (arith, pow-suc 2 k)),
)

-- The other operand and the result determine an operand.
pub bit_xor-injective : (n a b c : ℕ) → a ≤ n → b ≤ n → bit_xor a c ≡ bit_xor b c → a ≡ b
bit_xor-injective zero zero zero c ha hb e = refl
bit_xor-injective zero zero (suc b) c ha hb e = absurd (omega arith)
bit_xor-injective zero (suc a) b c ha hb e = absurd (omega arith)
bit_xor-injective (suc n) a b c ha hb e = omega (
  arith,
  bit_xor_step a c,
  bit_xor_step b c,
  bit_xor-injective n (a / 2) (b / 2) (c / 2) (omega arith) (omega arith)
      (omega (arith, bit_xor_step a c, bit_xor_step b c)),
)

pub bit_xor_comm : (n a b : ℕ) → a ≤ n → b ≤ n → bit_xor a b ≡ bit_xor b a
bit_xor_comm zero zero zero ha hb = refl
bit_xor_comm zero zero (suc b) ha hb = absurd (omega arith)
bit_xor_comm zero (suc a) b ha hb = absurd (omega arith)
bit_xor_comm (suc n) a b ha hb = omega (
  arith,
  bit_xor_step a b,
  bit_xor_step b a,
  bit_xor_comm n (a / 2) (b / 2) (omega arith) (omega arith),
)

pub bit_or-zero : (n a : ℕ) → a ≤ n → bit_or a 0 ≡ a
bit_or-zero n zero h = refl
bit_or-zero zero (suc a) h = absurd (omega arith)
bit_or-zero (suc n) (suc a) h =
    omega (arith, bit_or_step (suc a) 0, bit_or-zero n (suc a / 2) (omega arith))

-- `(q << k) | r` is a sum where `r` fits k bits.
pub bit_or_low_field : (k q r : ℕ) → r < 2 ^ k → bit_or (q * 2 ^ k) r ≡ q * 2 ^ k + r
bit_or_low_field zero q r h = ground (arith, bit_or-zero q q)
bit_or_low_field (suc k) q r h = ground (
  arith,
  bit_or_step (q * 2 ^ suc k) r,
  mul-pow-suc q k,
  pow-suc 2 k,
  bit_or_low_field k q (r / 2) (omega arith),
)
