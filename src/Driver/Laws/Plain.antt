-- ===== src/Driver/Laws/Plain.antt =====
-- The instructions that do not reach the bank.
use ether_house.Base.{
  ℕ, ◌+◌, ◌*◌, ◌%◌, ◌^◌, ◌≡◌, ◌≢◌, sym, ap, ◌∙◌, bit_and, bit_or, Bool, false, not, ◌==◌, ◌||◌,
  if◌then◌else◌, List, ◌∷◌, arith,
}
use ether_house.Base.Bits.{bit_and_mask, bit_or_low_field}
use ether_house.Driver.{Driver}
use ether_house.Driver.Laws.Banks.{bank_after, chip_bank, Agrees}

-- The first byte is of no instruction that reaches ECON1.
abbrev pub IsPlain : ℕ → Type 0
IsPlain first = (first ≢ 0x9f) × (first ≢ 0xbf) × (first ≢ 0x5f) × (first ≢ 0xff)

pub bank_after-IsPlain :
    (first b : ℕ) (rest : List ℕ) → IsPlain first → bank_after (first ∷ rest) b ≡ b
bank_after-IsPlain first b rest (a, b', c, e) = ground (arith, a, b', c, e)

pub field :
    (address k : ℕ) → bit_or (k * 2 ^ 5) (bit_and address 0x1f) ≡ k * 2 ^ 5 + address % 2 ^ 5
field address k =
    ap (bit_or (k * 2 ^ 5)) (bit_and_mask 5 address)
    ∙ bit_or_low_field 5 k (address % 2 ^ 5) (omega arith)

-- The number within the bank is that of a register of the bank.
abbrev pub is_control : ℕ → Bool
is_control address = address % 2 ^ 5 == 31

pub read-IsPlain : (address : ℕ) → IsPlain (bit_or 0 (bit_and address 0x1f))
read-IsPlain a =
    let e = field a 0 in (omega (arith, e), omega (arith, e), omega (arith, e), omega (arith, e))

pub write-IsPlain :
    (address : ℕ) → is_control address ≡ false → IsPlain (bit_or 0x40 (bit_and address 0x1f))
write-IsPlain a h =
    let e = field a 2 in
    (omega (arith, e), omega (arith, e), ground (arith, e, h), omega (arith, e))

pub plain-Agrees :
    (d : Driver) (first : ℕ) (rest : List ℕ)
    → IsPlain first
    → Agrees d
    → d.bank ≡ 2 ^ 5 * bank_after (first ∷ rest) (chip_bank d.transactions)
plain-Agrees d first rest h p =
    p ∙ ap (λ k. 2 ^ 5 * k) (sym (bank_after-IsPlain first (chip_bank d.transactions) rest h))

-- Neither bit of the bank is written by the instruction.
abbrev pub is_harmless : ℕ → ℕ → Bool
is_harmless first x =
    if first == 0x9f || first == 0xbf
    then bit_and x 3 == 0
    else not (first == 0x5f || first == 0xff)
