-- ===== src/Driver/Laws/Streams.antt =====
-- A transaction with the contents of the buffer memory does not reach the bank.
use ether_house.Base.{ℕ, arith, ◌++◌, ◌*◌, ap, sym, ◌∙◌, ◌^◌, ◌≡◌, refl, List, [], ◌∷◌, zero, suc}
use ether_house.Driver.{Chip, Driver, ◌>>◌}
use ether_house.Driver.Spi.{
  read_bytes, read_buf, write_bytes, write_buf, enable_chip, disable_chip, xfer_spi,
}
use ether_house.Driver.Laws.Triples.{bind-Leads, Leads, Keeps, bind-Keeps, then-Keeps}
use ether_house.Driver.Laws.Banks.{bank_after, chip_bank, Agrees}
use ether_house.Driver.Laws.Plain.{IsPlain}
use ether_house.Driver.Laws.Plain.{plain-Agrees}

-- In an open transaction with this first byte.
abbrev Opened : ℕ → Driver → Type 0
Opened first d = Agrees d × (rest : List ℕ) × (d.open_bytes ≡ first ∷ rest)

module _ (chip : Chip) where
  xfer-Opened : (first x : ℕ) → Keeps (Opened first) (xfer_spi chip x)
  unfolding xfer_spi
  xfer-Opened first x d (p, rest, e) = (p, rest ++ x ∷ [], ap (λ bytes. bytes ++ x ∷ []) e)

  read_bytes-Opened : (first len : ℕ) → Keeps (Opened first) (read_bytes chip len)
  unfolding read_bytes
  read_bytes-Opened first zero = λ d p. p
  read_bytes-Opened first (suc len) =
      then-Keeps (Opened first) _ _ (xfer-Opened first 0)
        (λ d. bind-Keeps (Opened first) _ _ (read_bytes-Opened first len) (λ rest v p. p) d)

  write_bytes-Opened :
      (first : ℕ) (content : List ℕ) → Keeps (Opened first) (write_bytes chip content)
  unfolding write_bytes
  write_bytes-Opened first [] = λ d p. p
  write_bytes-Opened first (b ∷ rest) =
      then-Keeps (Opened first) _ _ (xfer-Opened first b) (write_bytes-Opened first rest)

  close-Agrees : (first : ℕ) → IsPlain first → Leads (Opened first) (λ _. Agrees) disable_chip
  unfolding disable_chip
  close-Agrees first h d (p, rest, e) =
      plain-Agrees d first rest h p
      ∙ ap (λ t. 2 ^ 5 * bank_after t (chip_bank d.transactions)) (sym e)

  open-Opened : (first : ℕ) → Leads Agrees (λ _. Opened first) (enable_chip >> xfer_spi chip first)
  unfolding enable_chip xfer_spi
  open-Opened first d p = (p, [], refl)

  pub read_buf-Keeps : (len : ℕ) → Keeps Agrees (read_buf chip len)
  unfolding read_buf
  read_buf-Keeps len =
      bind-Leads Agrees (λ _. Opened 0x3a) (λ _. Agrees) _ _
        (bind-Leads Agrees (λ _. Opened 0x3a) (λ _. Opened 0x3a) _ _ (open-Opened 0x3a)
          (λ _. read_bytes-Opened 0x3a len))
        (λ content.
          bind-Leads (Opened 0x3a) (λ _. Agrees) (λ _. Agrees) _ _
            (close-Agrees 0x3a (omega arith, omega arith, omega arith, omega arith)) (λ _ d p. p))

  pub write_buf-Keeps : (content : List ℕ) → Keeps Agrees (write_buf chip content)
  unfolding write_buf
  write_buf-Keeps content =
      bind-Leads Agrees (λ _. Opened 0x7a) (λ _. Agrees) _ _
        (bind-Leads Agrees (λ _. Opened 0x7a) (λ _. Opened 0x7a) _ _ (open-Opened 0x7a)
          (λ _. write_bytes-Opened 0x7a content))
        (λ _. close-Agrees 0x7a (omega arith, omega arith, omega arith, omega arith))
