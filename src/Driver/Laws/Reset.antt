-- ===== src/Driver/Laws/Reset.antt =====
-- The reset of the chip: its bank is 0 behind it, the driver still takes it for what it was, and the
-- next access to a register of bank 0 brings the two together again.
use ether_house.Base.{
  ℕ, ◌*◌, ◌^◌, ◌≡◌, refl, sym, ap, ◌∙◌, arith, Bool, true, false, ◌==◌, u8, Mac, if◌then◌else◌,
}
use ether_house.Base.Bits.{bit_and-zero}
use ether_house.Driver.{Chip, Driver, D, returns, ◌>>=◌, ◌>>◌, return, on_driver}
use ether_house.Driver.Spi.{
  write_op, set_bank, read_reg, write_reg_byte, write_reg, enable_chip, disable_chip, xfer_spi,
}
use ether_house.Driver.Packets.{soft_reset_chip, set_up_buffers, set_up_mac, initialize}
use ether_house.Driver.SelfTest.{checksums, do_bist}
use ether_house.Driver.Registers.{rxstart_init}
use ether_house.Driver.Laws.Triples.{
  bind-Leads, Leads, After, Keeps, bind-Keeps, then-Keeps, either-Keeps,
}
use ether_house.Driver.Laws.Banks.{chip_bank, Agrees, set_bank-Keeps}
use ether_house.Driver.Laws.Access.{
  read_op-same, harmless-Keeps, read_reg_byte-Keeps, write_reg_byte-Keeps,
}
use ether_house.Driver.Laws.Reach.{
  write_reg-Keeps, wait_clock-Keeps, wait_op-Keeps, enable_broadcast-Keeps, write_phy-Keeps,
}

abbrev IsReset : Driver → Type 0
IsReset d = chip_bank d.transactions ≡ 0

abbrev Any : Driver → Type 0
Any d = Unit

module _ (chip : Chip) where
  write-IsReset : Leads Any (λ _. IsReset) (write_op chip 0xff 0 0xff)
  unfolding write_op enable_chip disable_chip xfer_spi
  write-IsReset d p = refl

  soft_reset_chip-IsReset : Leads Any (λ _. IsReset) (soft_reset_chip chip)
  unfolding soft_reset_chip
  soft_reset_chip-IsReset =
      bind-Leads Any (λ _. IsReset) (λ _. IsReset) _ _ write-IsReset
        (λ _. wait_clock-Keeps chip IsReset _ (read_op-same chip (λ b c. c ≡ 0) _) chip.rounds)

  -- What selects bank 0.
  abbrev select_zero : D (Unit {0})
  select_zero d =
      if 0 == d.bank
      then returns tt d
      else (write_op chip 0xa0 0x1f 3
            >> on_driver (λ d'. record d' { bank = 0 })
            >> write_op chip 0x80 0x1f 0)
          d

  abbrev IsZero : Driver → Type 0
  IsZero d = Agrees d × (d.bank ≡ 0)

  select_zero-IsZero : Leads IsReset (λ _. IsZero) select_zero
  unfolding write_op enable_chip disable_chip xfer_spi
  select_zero-IsZero d p = by_test (0 == d.bank) refl
    where
      by_test :
          (t : Bool)
          → (0 == d.bank) ≡ t
          → After
              (λ _. IsZero)
              (if t
                then returns tt d
                else (write_op chip 0xa0 0x1f 3
                      >> on_driver (λ d'. record d' { bank = 0 })
                      >> write_op chip 0x80 0x1f 0)
                    d)
      by_test true e =
          let z : d.bank ≡ 0 = ground (arith, e) in (z ∙ ap (λ k. 2 ^ 5 * k) (sym p), z)
      by_test false e = (
        ap (λ k. 2 ^ 5 * k)
            (sym
              (bit_and-zero (chip_bank d.transactions) (chip_bank d.transactions) (omega arith))),
        refl,
      )

  first_access : (x : ℕ) → Leads IsReset (λ _. Agrees) (write_reg_byte chip 0x08 x)
  unfolding write_reg_byte set_bank
  first_access x =
      bind-Leads IsReset (λ _. IsZero) (λ _. Agrees) select_zero _ select_zero-IsZero
        (λ _ d p. harmless-Keeps chip 0x40 0x08 x refl d (p.0))

  -- The value clears the bits of the bank.
  write-IsZero : Leads IsZero (λ _. Agrees) (write_op chip 0x40 0x1f 0)
  unfolding write_op enable_chip disable_chip xfer_spi
  write-IsZero d (p, z) = z

  clear_econ1 : Leads IsReset (λ _. Agrees) (write_reg_byte chip 0x1f 0)
  unfolding write_reg_byte set_bank
  clear_econ1 =
      bind-Leads IsReset (λ _. IsZero) (λ _. Agrees) select_zero _ select_zero-IsZero
        (λ _. write-IsZero)

  then-Agrees {ℓ} :
      {B : Type ℓ} (P : Driver → Type 0) (m : D (Unit {0})) (k : D B)
      → Leads P (λ _. Agrees) m
      → Keeps Agrees k
      → Leads P (λ _. Agrees) (m >> k)
  then-Agrees P m k h h' = bind-Leads P (λ _. Agrees) (λ _. Agrees) m (λ _. k) h (λ _. h')

  bind-Agrees {ℓ κ} :
      {A : Type ℓ} {B : Type κ} (P : Driver → Type 0) (m : D A) (f : A → D B)
      → Leads P (λ _. Agrees) m
      → ((a : A) → Keeps Agrees (f a))
      → Leads P (λ _. Agrees) (m >>= f)
  bind-Agrees P m f h h' = bind-Leads P (λ _. Agrees) (λ _. Agrees) m f h h'

  return-Keeps {ℓ} : {A : Type ℓ} (a : A) → Keeps Agrees (return a)
  return-Keeps a d p = p

  first_write :
      (m : D (Unit {0}))
      → Keeps IsReset m
      → (value : ℕ) → Leads IsReset (λ _. Agrees) (m >> write_reg chip 0x08 value)
  unfolding write_reg
  first_write m h value =
      bind-Leads IsReset (λ _. IsReset) (λ _. Agrees) m _ h
        (λ _.
          then-Agrees IsReset _ _ (first_access (u8 value)) (write_reg_byte-Keeps chip _ _ refl))

  set_up_buffers-Agrees : Leads IsReset (λ _. Agrees) (set_up_buffers chip)
  unfolding set_up_buffers
  set_up_buffers-Agrees =
      let start =
        first_write (on_driver (λ d. record d { next_packet_ptr = rxstart_init })) (λ d p. p)
          rxstart_init in
      search (then-Agrees, start, write_reg-Keeps)

  set_up_mac-Keeps : (macaddr : Mac) → Keeps Agrees (set_up_mac chip macaddr)
  unfolding set_up_mac
  set_up_mac-Keeps macaddr =
      search (then-Keeps, write_reg-Keeps, write_reg_byte-Keeps, write_phy-Keeps, harmless-Keeps)
        depth 40

  -- Whatever the driver took the bank for before.
  pub initialize-Agrees :
      (size : ℕ) (macaddr : Mac) → Leads Any (λ _. Agrees) (initialize chip size macaddr)
  unfolding initialize
  initialize-Agrees size macaddr =
      let start =
        bind-Leads Any (λ _. IsReset) (λ _. Agrees)
          (on_driver (λ d. record d { buffer_size = size }) >> soft_reset_chip chip)
          (λ _. set_up_buffers chip)
          (bind-Leads Any (λ _. Any) (λ _. IsReset)
            (on_driver (λ d. record d { buffer_size = size })) (λ _. soft_reset_chip chip)
            (λ d p. p) (λ _. soft_reset_chip-IsReset))
          (λ _. set_up_buffers-Agrees) in
      search
        (
          bind-Agrees, return-Keeps, start, enable_broadcast-Keeps, write_reg-Keeps,
          set_up_mac-Keeps, set_bank-Keeps, harmless-Keeps, read_reg_byte-Keeps,
        )
        depth 20

  read_reg-Keeps : (address : ℕ) → Keeps Agrees (read_reg chip address)
  unfolding read_reg
  read_reg-Keeps address =
      bind-Keeps Agrees _ _ (read_reg_byte-Keeps chip _)
        (λ low. bind-Keeps Agrees _ _ (read_reg_byte-Keeps chip _) (λ high d p. p))

  checksums-Keeps : Keeps Agrees (checksums chip)
  unfolding checksums
  checksums-Keeps =
      bind-Keeps Agrees _ _
        (search
          (bind-Keeps, then-Keeps, wait_op-Keeps, harmless-Keeps, set_bank-Keeps, read_reg-Keeps)
          depth 20)
        (λ mac_result. bind-Keeps Agrees _ _ (read_reg-Keeps _) (λ bits_result d p. p))

  pub do_bist-Agrees : Leads Any (λ _. Agrees) (do_bist chip)
  unfolding do_bist
  do_bist-Agrees =
      let start =
        bind-Leads Any (λ _. IsReset) (λ _. Agrees) _ _ soft_reset_chip-IsReset
          (λ _. clear_econ1) in
      search
        (
          then-Agrees, bind-Agrees, either-Keeps, harmless-Keeps, return-Keeps, start,
          write_reg-Keeps, set_bank-Keeps, write_reg_byte-Keeps, checksums-Keeps,
        )
        depth 30
