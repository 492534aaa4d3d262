-- ===== src/Driver/Laws/Quiet.antt =====
-- The accesses to the chip return, and leave the driver's buffer and its variables.
use ether_house.Base.{
  ℕ, zero, suc, ◌+◌, ◌/◌, ◌^◌, ◌≡◌, refl, ap, ◌∙◌, Bool, true, false, not, ◌==◌, if◌then◌else◌,
  List, [], ◌∷◌, Memory, bit_and, bit_or,
}
use ether_house.Driver.{Chip, Driver, D, returns, ◌>>=◌, ◌>>◌, return, on_driver, when}
use ether_house.Driver.Spi.{
  enable_chip, disable_chip, xfer_spi, read_op, write_op, read_bytes, read_buf, set_bank,
  read_reg_byte, write_reg_byte, write_reg,
}
use ether_house.Driver.Laws.Triples.{Settles, Gives, bind-Gives}

-- A row of answers of the chip, from an exchange on.
abbrev pub answers : Chip → ℕ → ℕ → List ℕ
answers chip n zero = []
answers chip n (suc len) = chip.answer n ∷ answers chip (n + 1) len

-- A predicate of the buffer, the next packet's position and the size.
abbrev pub Of : (Memory → ℕ → ℕ → Type 0) → Driver → Type 0
Of P d = P d.buffer d.next_packet_ptr d.buffer_size

module _ (chip : Chip) (P : Memory → ℕ → ℕ → Type 0) where
  abbrev pub Quiet {ℓ} : {A : Type ℓ} → D A → Type 0
  Quiet m = Gives (Of P) (λ _. Of P) m

  pub bind-Quiet {ℓ κ} :
      {A : Type ℓ} {B : Type κ} (m : D A) (f : A → D B)
      → Quiet m
      → ((a : A) → Quiet (f a))
      → Quiet (m >>= f)
  bind-Quiet m f h h' = bind-Gives (Of P) (λ _. Of P) (λ _. Of P) m f h h'

  pub then-Quiet {ℓ} :
      {B : Type ℓ} (m : D (Unit {0})) (k : D B) → Quiet m → Quiet k → Quiet (m >> k)
  then-Quiet m k h h' = bind-Quiet m (λ _. k) h (λ _. h')

  read_op-Quiet : (op address : ℕ) → Quiet (read_op chip op address)
  unfolding read_op enable_chip disable_chip xfer_spi
  read_op-Quiet op address d p = by_test (not (bit_and address 0x80 == 0))
    where
      by_test :
          (t : Bool)
          → Settles ⊥
              (λ _. Of P)
              ((enable_chip
                  >> xfer_spi chip (bit_or op (bit_and address 0x1f))
                  >> xfer_spi chip 0
                  >> when t (xfer_spi chip 0)
                  >> λ v. (disable_chip >> return v.spdr) v)
                d)
      by_test true = p
      by_test false = p

  pub write_op-Quiet : (op address x : ℕ) → Quiet (write_op chip op address x)
  unfolding write_op enable_chip disable_chip xfer_spi
  write_op-Quiet op address x d p = p

  pub set_bank-Quiet : (address : ℕ) → Quiet (set_bank chip address)
  unfolding set_bank write_op enable_chip disable_chip xfer_spi
  set_bank-Quiet address d p = by_test (bit_and address 0x60 == d.bank)
    where
      changed : D (Unit {0})
      changed =
          write_op chip 0xa0 0x1f 3
          >> on_driver (λ d'. record d' { bank = bit_and address 0x60 })
          >> write_op chip 0x80 0x1f (bit_and address 0x60 / 2 ^ 5)

      by_test :
          (t : Bool) → Settles ⊥ {A = Unit {0}} (λ _. Of P) (if t then returns tt d else changed d)
      by_test true = p
      by_test false = p

  pub read_reg_byte-Quiet : (address : ℕ) → Quiet (read_reg_byte chip address)
  unfolding read_reg_byte
  read_reg_byte-Quiet address = then-Quiet _ _ (set_bank-Quiet address) (read_op-Quiet 0 address)

  write_reg_byte-Quiet : (address x : ℕ) → Quiet (write_reg_byte chip address x)
  unfolding write_reg_byte
  write_reg_byte-Quiet address x =
      then-Quiet _ _ (set_bank-Quiet address) (write_op-Quiet 0x40 address x)

  pub write_reg-Quiet : (address value : ℕ) → Quiet (write_reg chip address value)
  unfolding write_reg
  write_reg-Quiet address value =
      then-Quiet _ _ (write_reg_byte-Quiet address _) (write_reg_byte-Quiet _ _)

  -- What is read is a row of answers.
  read_bytes-answers :
      (len n : ℕ)
      → Gives
          (λ d. Of P d × (d.exchanges ≡ n))
          (λ content d. Of P d × (content ≡ answers chip n len))
          (read_bytes chip len)
  unfolding read_bytes xfer_spi
  read_bytes-answers zero n = λ d (p, e). (p, refl)
  read_bytes-answers (suc len) n = λ d (p, e).
      bind-Gives (λ v. Of P v × (v.exchanges ≡ n + 1))
        (λ rest v. Of P v × (rest ≡ answers chip (n + 1) len))
        (λ content v. Of P v × (content ≡ answers chip n (suc len))) (read_bytes chip len)
        (λ rest. return (chip.answer d.exchanges ∷ rest)) (read_bytes-answers len (n + 1))
        (λ rest v (q, r). (q, ap (λ k. chip.answer k ∷ rest) e ∙ ap (λ l. chip.answer n ∷ l) r)) _
        (p, ap (λ k. k + 1) e)

  pub read_buf-answers :
      (len : ℕ)
      → Gives
          (Of P)
          (λ content d. Of P d × (n : ℕ) × (content ≡ answers chip n len))
          (read_buf chip len)
  unfolding read_buf enable_chip disable_chip xfer_spi
  read_buf-answers len d p =
      bind-Gives (λ v. Of P v × (v.exchanges ≡ d.exchanges + 1))
        (λ content v. Of P v × (content ≡ answers chip (d.exchanges + 1) len))
        (λ content v. Of P v × (n : ℕ) × (content ≡ answers chip n len)) (read_bytes chip len)
        (λ content. disable_chip >> return content) (read_bytes-answers len (d.exchanges + 1))
        (λ content v (q, r). (q, d.exchanges + 1, r)) _ (p, refl)
