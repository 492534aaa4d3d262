-- ===== src/Driver/Laws/Send.antt =====
-- The packet that is sent: what goes over the bus, and that the wait in front of it ends.
use ether_house.Base.{
  ℕ, ◌+◌, ◌*◌, ◌/◌, ◌^◌, ◌≡◌, refl, sym, ap, subst, ◌∙◌, arith, Bool, true, false, ◌==◌,
  if◌then◌else◌, List, [], ◌∷◌, ◌++◌, Memory, load, bit_and, bit_or, u8, u16,
}
use mathlib.Core.List.{append-nil, append_assoc}
use ether_house.Driver.{Chip, Driver, D, returns, ◌>>◌, on_driver, final}
use ether_house.Driver.Spi.{
  enable_chip, disable_chip, xfer_spi, write_op, write_bytes, write_buf, set_bank, write_reg_byte,
}
use ether_house.Driver.Laws.Triples.{Settles, Gives, bind-Gives}
use ether_house.Driver.Laws.Banks.{bank_bits, chip_bank, Agrees, set_bank_lem, set_bank_returns}
use ether_house.Driver.Laws.Quiet.{set_bank-Quiet}

-- Bank 0 is selected, the buffer is this one, and these transactions came last.
abbrev pub Sent : Memory → List (List ℕ) → Driver → Type 0
Sent m ts d =
    (d.bank ≡ 0)
    × (d.buffer ≡ m)
    × (older : List (List ℕ)) × (d.transactions ≡ ts ++ older)
    × (chip_bank older ≡ 0)

module _ (chip : Chip) (m : Memory) where
  pub write_op-Sent :
      (op address x : ℕ) (ts : List (List ℕ))
      → Gives
          (Sent m ts)
          (λ _. Sent m ((bit_or op (bit_and address 0x1f) ∷ x ∷ []) ∷ ts))
          (write_op chip op address x)
  unfolding write_op enable_chip disable_chip xfer_spi
  write_op-Sent op address x ts d (z, b, older, e, c) =
      (z, b, older, ap (λ l. (bit_or op (bit_and address 0x1f) ∷ x ∷ []) ∷ l) e, c)

  -- No change of the bank.
  set_bank-Sent :
      (address : ℕ) (ts : List (List ℕ))
      → bit_and address 0x60 ≡ 0
      → Gives (Sent m ts) (λ _. Sent m ts) (set_bank chip address)
  unfolding set_bank
  set_bank-Sent address ts h d p = by_test (bit_and address 0x60 == d.bank) refl
    where
      changed : D (Unit {0})
      changed =
          write_op chip 0xa0 0x1f 3
          >> on_driver (λ d'. record d' { bank = bit_and address 0x60 })
          >> write_op chip 0x80 0x1f (bit_and address 0x60 / 2 ^ 5)

      by_test :
          (t : Bool)
          → (bit_and address 0x60 == d.bank) ≡ t
          → Settles ⊥ {A = Unit {0}} (λ _. Sent m ts) (if t then returns tt d else changed d)
      by_test true e = p
      by_test false e = absurd (ground (arith, e, h, p.0))

  pub write_reg_byte-Sent :
      (address x : ℕ) (ts : List (List ℕ))
      → bit_and address 0x60 ≡ 0
      → Gives
          (Sent m ts)
          (λ _. Sent m ((bit_or 0x40 (bit_and address 0x1f) ∷ x ∷ []) ∷ ts))
          (write_reg_byte chip address x)
  unfolding write_reg_byte
  write_reg_byte-Sent address x ts h =
      bind-Gives (Sent m ts) (λ _. Sent m ts) _ _ _ (set_bank-Sent address ts h)
        (λ _. write_op-Sent 0x40 address x ts)

  -- The transaction with the bytes of the packet.
  write_bytes-Sent :
      (content sofar : List ℕ) (ts : List (List ℕ))
      → Gives
          (λ d. Sent m ts d × (d.open_bytes ≡ sofar))
          (λ _ d. Sent m ts d × (d.open_bytes ≡ sofar ++ content))
          (write_bytes chip content)
  unfolding write_bytes xfer_spi
  write_bytes-Sent [] sofar ts = λ d (p, e). (p, e ∙ sym (append-nil sofar))
  write_bytes-Sent (b ∷ rest) sofar ts = λ d (p, e).
      subst
        (λ l.
          Settles ⊥ (λ _ d'. Sent m ts d' × (d'.open_bytes ≡ l))
            (write_bytes chip rest (final (xfer_spi chip b d))))
        (append_assoc sofar (b ∷ []) rest)
        (write_bytes-Sent rest (sofar ++ b ∷ []) ts _ (p, ap (λ l. l ++ b ∷ []) e))

  pub write_buf-Sent :
      (content : List ℕ) (ts : List (List ℕ))
      → Gives (Sent m ts) (λ _. Sent m ((0x7a ∷ content) ∷ ts)) (write_buf chip content)
  unfolding write_buf enable_chip xfer_spi disable_chip
  write_buf-Sent content ts d p =
      bind-Gives (λ v. Sent m ts v × (v.open_bytes ≡ 0x7a ∷ []))
        (λ _ v. Sent m ts v × (v.open_bytes ≡ 0x7a ∷ content)) (λ _. Sent m ((0x7a ∷ content) ∷ ts))
        (write_bytes chip content) (λ _. disable_chip) (write_bytes-Sent content (0x7a ∷ []) ts)
        (λ _ v ((z, b, older, e, c), o).
          (z, b, older, ap (λ l. l ∷ v.transactions) o ∙ ap (λ l. (0x7a ∷ content) ∷ l) e, c))
        _ (p, refl)

  -- The first access selects the bank.
  select-Sent :
      (address : ℕ)
      → bit_and address 0x60 ≡ 0
      → Gives (λ d. Agrees d × (d.buffer ≡ m)) (λ _. Sent m []) (set_bank chip address)
  select-Sent address h d (p, b) =
      let (q, c) = set_bank_lem chip address d p in
      let zero_bank : chip_bank (final (set_bank chip address d)).transactions ≡ 0 =
        c ∙ omega (arith, h, bank_bits address) in
      let kept : (final (set_bank chip address d)).buffer ≡ m =
        subst (Settles ⊥ (λ _ v. v.buffer ≡ m)) (set_bank_returns chip address d)
          (set_bank-Quiet chip (λ v n s. v ≡ m) address d b) in
      subst (Settles ⊥ (λ _. Sent m [])) (sym (set_bank_returns chip address d)) (
        q ∙ ap (λ k. 2 ^ 5 * k) zero_bank,
        kept,
        (final (set_bank chip address d)).transactions,
        refl,
        zero_bank,
      )

  -- The writes to the registers, from the address of the transmit buffer on.
  pub write_first :
      (x : ℕ)
      → Gives
          (λ d. Agrees d × (d.buffer ≡ m))
          (λ _. Sent m ((0x42 ∷ x ∷ []) ∷ []))
          (write_reg_byte chip 0x02 x)
  unfolding write_reg_byte
  write_first x =
      bind-Gives (λ d. Agrees d × (d.buffer ≡ m)) (λ _. Sent m []) _ _ _ (select-Sent 0x02 refl)
        (λ _. write_op-Sent 0x40 0x02 x [])

  abbrev pub frame : ℕ → List (List ℕ)
  frame len =
      (0x9f ∷ 0x08 ∷ [])
      ∷ (0x7a ∷ load m 0 len)
      ∷ (0x7a ∷ 0x00 ∷ [])
      ∷ (0x47 ∷ u8 (u16 (0x0c00 + len) / 2 ^ 8) ∷ [])
      ∷ (0x46 ∷ u8 (u16 (0x0c00 + len)) ∷ [])
      ∷ (0x43 ∷ 0x0c ∷ [])
      ∷ (0x42 ∷ 0x00 ∷ [])
      ∷ []

  pub load-Sent :
      (len : ℕ) (ts : List (List ℕ))
      → Gives
          (Sent m ts)
          (λ _. Sent m ((0x7a ∷ load m 0 len) ∷ ts))
          (λ d. write_buf chip (load d.buffer 0 len) d)
  load-Sent len ts d p =
      subst
        (λ v.
          Settles ⊥ (λ _. Sent m ((0x7a ∷ load m 0 len) ∷ ts)) (write_buf chip (load v 0 len) d))
        (sym (p.1)) (write_buf-Sent (load m 0 len) ts d p)
