-- ===== src/Driver/Laws/Banks.antt =====
-- The bank of registers that the chip has selected, as its data sheet has it, and what the driver
-- takes it for.
use ether_house.Base.{
  ℕ, ◌-◌, ◌*◌, ◌/◌, ◌%◌, ◌^◌, ◌<◌, ◌≡◌, refl, sym, ap, subst, ◌∙◌, bit_and, bit_or, Bool, true,
  false, ◌==◌, if◌then◌else◌, List, [], ◌∷◌, get_or, arith,
}
use ether_house.Base.Bits.{bit_and_step, bit_and_mask, bit_and-zero, bit_or_low_field}
use ether_house.Driver.{Chip, Driver, Outcome, returns, D, ◌>>◌, on_driver, final}
use ether_house.Driver.Laws.Triples.{After, Keeps}
use ether_house.Driver.Spi.{enable_chip, disable_chip, xfer_spi, write_op, set_bank}

-- The instructions that reach ECON1, whose two lowest bits are the bank: set, clear and write, and the
-- reset.
abbrev pub bank_after : List ℕ → ℕ → ℕ
bank_after [] b = b
bank_after (first ∷ rest) b =
    let bits = bit_and (get_or rest 0 0) 3 in
    if first == 0x9f
    then (if bits == 0 then b else bit_or b bits)
    else if first == 0xbf
    then (if bits == 0 then b else bit_and b (3 - bits))
    else if first == 0x5f
    then bits
    else if first == 0xff
    then 0
    else b

abbrev pub chip_bank : List (List ℕ) → ℕ
chip_bank [] = 0
chip_bank (t ∷ older) = bank_after t (chip_bank older)

-- The driver's variable is the chip's bank.
abbrev pub Agrees : Driver → Type 0
Agrees d = d.bank ≡ 2 ^ 5 * chip_bank d.transactions

-- The bank of a register's number.
abbrev pub bank_of : ℕ → ℕ
bank_of address = address / 2 ^ 5 % 4

pub bank_bits : (address : ℕ) → bit_and address 0x60 ≡ 2 ^ 5 * bank_of address
bank_bits a = omega (
  arith,
  bit_and_step a 0x60,
  bit_and_step (a / 2) 0x30,
  bit_and_step (a / 2 / 2) 0x18,
  bit_and_step (a / 2 / 2 / 2) 0x0c,
  bit_and_step (a / 2 / 2 / 2 / 2) 0x06,
  bit_and_mask 2 (a / 2 / 2 / 2 / 2 / 2),
)

bank_field : (address : ℕ) → bit_and (bit_and address 0x60 / 2 ^ 5) 3 ≡ bank_of address
bank_field a = omega (arith, bank_bits a, bit_and_mask 2 (bit_and a 0x60 / 2 ^ 5))

-- Clearing both bits and setting some of them.
selected :
    (b bits : ℕ) → bits < 4 → (if bits == 0 then bit_and b 0 else bit_or (bit_and b 0) bits) ≡ bits
selected b bits lt =
    let clear = bit_and-zero b b (omega arith) in
    let set : bit_or 0 bits ≡ bits = omega (arith, bit_or_low_field 2 0 bits lt) in
    ground (arith, clear, ap (λ z. bit_or z bits) clear ∙ set)

module _ (chip : Chip) where
  pub set_bank_lem :
      (address : ℕ) (d : Driver)
      → Agrees d
      → Agrees (final (set_bank chip address d))
        × (chip_bank (final (set_bank chip address d)).transactions ≡ bank_of address)
  unfolding set_bank write_op enable_chip disable_chip xfer_spi
  set_bank_lem address d p = by_test (bit_and address 0x60 == d.bank) refl
    where
      changed : D (Unit {0})
      changed =
          write_op chip 0xa0 0x1f 3
          >> on_driver (λ d'. record d' { bank = bit_and address 0x60 })
          >> write_op chip 0x80 0x1f (bit_and address 0x60 / 2 ^ 5)

      by_test :
          (t : Bool)
          → (bit_and address 0x60 == d.bank) ≡ t
          → Agrees (final {A = Unit {0}} (if t then returns tt d else changed d))
            × (chip_bank (final {A = Unit {0}} (if t then returns tt d else changed d)).transactions
                ≡ bank_of address)
      by_test true e = (p, ground (arith, e, p, bank_bits address))
      by_test false e =
          let bits : chip_bank (final (changed d)).transactions ≡ bank_of address =
            selected (chip_bank d.transactions) (bit_and (bit_and address 0x60 / 2 ^ 5) 3)
              (omega (arith, bank_field address))
            ∙ bank_field address in
          (bank_bits address ∙ ap (λ k. 2 ^ 5 * k) (sym bits), bits)

  pub set_bank_returns :
      (address : ℕ) (d : Driver)
      → set_bank chip address d ≡ returns tt (final (set_bank chip address d))
  unfolding set_bank write_op enable_chip disable_chip xfer_spi
  set_bank_returns address d = by_test (bit_and address 0x60 == d.bank)
    where
      changed : D (Unit {0})
      changed =
          write_op chip 0xa0 0x1f 3
          >> on_driver (λ d'. record d' { bank = bit_and address 0x60 })
          >> write_op chip 0x80 0x1f (bit_and address 0x60 / 2 ^ 5)

      by_test :
          (t : Bool)
          → ◌≡◌ {A = Outcome (Unit {0})}
              (if t then returns tt d else changed d)
              (returns tt (final {A = Unit {0}} (if t then returns tt d else changed d)))
      by_test true = refl
      by_test false = refl

  pub set_bank-Keeps : (address : ℕ) → Keeps Agrees (set_bank chip address)
  set_bank-Keeps address d p =
      let e = set_bank_returns address d in
      subst (After (λ _. Agrees)) (sym e) ((set_bank_lem address d p).0)
