-- ===== src/Driver/Laws/Access.antt =====
-- An access to a register is made in the bank of the register.
use ether_house.Base.{
  ℕ, ◌+◌, ◌*◌, ◌%◌, ◌^◌, ◌≡◌, refl, sym, ap, subst, ◌∙◌, bit_and, bit_or, Bool, true, false, not,
  ◌==◌, List, [], ◌∷◌, arith,
}
use ether_house.Driver.{Chip, Driver, Outcome, returns, waits, ◌>>◌, return, when, final}
use ether_house.Driver.Laws.Triples.{After, Keeps, then-Keeps}
use ether_house.Driver.Spi.{
  enable_chip, disable_chip, xfer_spi, read_op, write_op, set_bank, read_reg_byte, write_reg_byte,
}
use ether_house.Driver.Laws.Banks.{
  bank_after, chip_bank, Agrees, bank_of, set_bank_lem, set_bank_returns, set_bank-Keeps,
}
use ether_house.Driver.Laws.Plain.{
  IsPlain, bank_after-IsPlain, field, is_control, read-IsPlain, write-IsPlain, plain-Agrees,
  is_harmless,
}

-- A transaction with the first byte and the rest, where the chip has the bank of the register.
abbrev pub Accesses : ℕ → ℕ → Driver → Type 0
Accesses first address d =
    (rest : List ℕ) × (older : List (List ℕ)) × (d.transactions
      ≡ ((first + address % 2 ^ 5) ∷ rest) ∷ older)
    × (chip_bank older ≡ bank_of address)

module _ (chip : Chip) where
  -- An instruction that reads a register keeps what holds of the two banks.
  pub read_op-same :
      (P : ℕ → ℕ → Type 0) (address : ℕ)
      → Keeps (λ d. P d.bank (chip_bank d.transactions)) (read_op chip 0 address)
  unfolding read_op enable_chip disable_chip xfer_spi
  read_op-same P address d p = by_test (not (bit_and address 0x80 == 0))
    where
      byte : ℕ
      byte = bit_or 0 (bit_and address 0x1f)

      same : (rest : List ℕ) → P d.bank (bank_after (byte ∷ rest) (chip_bank d.transactions))
      same rest =
          subst (P d.bank)
            (sym (bank_after-IsPlain byte (chip_bank d.transactions) rest (read-IsPlain address))) p

      by_test :
          (t : Bool)
          → After
              (λ _ d'. P d'.bank (chip_bank d'.transactions))
              ((enable_chip
                  >> xfer_spi chip byte
                  >> xfer_spi chip 0
                  >> when t (xfer_spi chip 0)
                  >> λ v. (disable_chip >> return v.spdr) v)
                d)
      by_test true = same (0 ∷ 0 ∷ [])
      by_test false = same (0 ∷ [])

  pub read_op-Keeps : (address : ℕ) → Keeps Agrees (read_op chip 0 address)
  read_op-Keeps = read_op-same (λ b c. b ≡ 2 ^ 5 * c)

  read_op-Accesses :
      (address : ℕ) (d : Driver)
      → chip_bank d.transactions ≡ bank_of address
      → Accesses 0 address (final (read_op chip 0 address d))
  unfolding read_op enable_chip disable_chip xfer_spi
  read_op-Accesses address d e = by_test (not (bit_and address 0x80 == 0))
    where
      byte : ℕ
      byte = bit_or 0 (bit_and address 0x1f)

      by_test :
          (t : Bool)
          → Accesses 0 address (
              final (
                (enable_chip
                    >> xfer_spi chip byte
                    >> xfer_spi chip 0
                    >> when t (xfer_spi chip 0)
                    >> λ v. (disable_chip >> return v.spdr) v)
                  d))
      by_test true = (
        0 ∷ 0 ∷ [],
        d.transactions,
        ap (λ x. (x ∷ 0 ∷ 0 ∷ []) ∷ d.transactions) (field address 0),
        e,
      )
      by_test false =
          (0 ∷ [], d.transactions, ap (λ x. (x ∷ 0 ∷ []) ∷ d.transactions) (field address 0), e)

  write_op-Keeps :
      (op address x : ℕ)
      → IsPlain (bit_or op (bit_and address 0x1f))
      → Keeps Agrees (write_op chip op address x)
  unfolding write_op enable_chip disable_chip xfer_spi
  write_op-Keeps op address x h d p = plain-Agrees d (bit_or op (bit_and address 0x1f)) (x ∷ []) h p

  write_op-Accesses :
      (address x : ℕ) (d : Driver)
      → chip_bank d.transactions ≡ bank_of address
      → Accesses 0x40 address (final (write_op chip 0x40 address x d))
  unfolding write_op enable_chip disable_chip xfer_spi
  write_op-Accesses address x d e =
      (x ∷ [], d.transactions, ap (λ y. (y ∷ x ∷ []) ∷ d.transactions) (field address 2), e)

  pub read_reg_byte-Keeps : (address : ℕ) → Keeps Agrees (read_reg_byte chip address)
  unfolding read_reg_byte
  read_reg_byte-Keeps address =
      then-Keeps Agrees _ _ (set_bank-Keeps chip address) (read_op-Keeps address)

  pub write_reg_byte-Keeps :
      (address x : ℕ) → is_control address ≡ false → Keeps Agrees (write_reg_byte chip address x)
  unfolding write_reg_byte
  write_reg_byte-Keeps address x h =
      then-Keeps Agrees _ _ (set_bank-Keeps chip address)
        (write_op-Keeps 0x40 address x (write-IsPlain address h))

  pub harmless-Keeps :
      (op address x : ℕ)
      → is_harmless (bit_or op (bit_and address 0x1f)) x ≡ true
      → Keeps Agrees (write_op chip op address x)
  unfolding write_op enable_chip disable_chip xfer_spi
  harmless-Keeps op address x h d p = p ∙ ap (λ k. 2 ^ 5 * k) (sym (ground (arith, h)))

  read_op_returns :
      (address : ℕ) (d : Driver)
      → read_op chip 0 address d
        ≡ returns (final (read_op chip 0 address d)).spdr (final (read_op chip 0 address d))
  unfolding read_op enable_chip disable_chip xfer_spi
  read_op_returns address d = by_test (not (bit_and address 0x80 == 0))
    where
      run : Bool → Outcome ℕ
      run t =
          (enable_chip
              >> xfer_spi chip (bit_or 0 (bit_and address 0x1f))
              >> xfer_spi chip 0
              >> when t (xfer_spi chip 0)
              >> λ v. (disable_chip >> return v.spdr) v)
            d

      by_test : (t : Bool) → run t ≡ returns (final (run t)).spdr (final (run t))
      by_test true = refl
      by_test false = refl

  write_op_returns :
      (op address x : ℕ) (d : Driver)
      → write_op chip op address x d ≡ returns tt (final (write_op chip op address x d))
  unfolding write_op enable_chip disable_chip xfer_spi
  write_op_returns op address x d = refl

  -- A register is read in its bank.
  pub read_reg_byte-Accesses :
      (address : ℕ) (d : Driver)
      → Agrees d
      → (x : ℕ) × (d' : Driver) × (read_reg_byte chip address d ≡ returns x d')
        × Agrees d'
        × Accesses 0 address d'
  unfolding read_reg_byte
  read_reg_byte-Accesses address d p =
      let d1 = final (set_bank chip address d) in
      let e : read_reg_byte chip address d ≡ read_op chip 0 address d1 =
        ap (λ o. elim o [ returns a d' ↦ read_op chip 0 address d' | waits d' ↦ waits d' ])
          (set_bank_returns chip address d) in
      let r = e ∙ read_op_returns address d1 in
      (
        _,
        _,
        r,
        subst (After (λ _. Agrees)) r (read_reg_byte-Keeps address d p),
        read_op-Accesses address d1 ((set_bank_lem chip address d p).1),
      )

  -- So is a register written.
  pub write_reg_byte-Accesses :
      (address x : ℕ) (d : Driver)
      → is_control address ≡ false
      → Agrees d
      → (d' : Driver) × (write_reg_byte chip address x d ≡ returns tt d')
        × Agrees d'
        × Accesses 0x40 address d'
  unfolding write_reg_byte
  write_reg_byte-Accesses address x d h p =
      let d1 = final (set_bank chip address d) in
      let e : write_reg_byte chip address x d ≡ write_op chip 0x40 address x d1 =
        ap (λ o. elim o [ returns a d' ↦ write_op chip 0x40 address x d' | waits d' ↦ waits d' ])
          (set_bank_returns chip address d) in
      let r : write_reg_byte chip address x d
          ≡ returns tt (final (write_op chip 0x40 address x d1)) =
        e ∙ write_op_returns 0x40 address x d1 in
      (
        _,
        r,
        subst (After (λ _. Agrees)) r (write_reg_byte-Keeps address x h d p),
        write_op-Accesses address x d1 ((set_bank_lem chip address d p).1),
      )
