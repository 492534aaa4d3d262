-- ===== src/Driver/Laws/Ready.antt =====
-- The wait for the packet before ends, and the packet is sent.
use ether_house.Base.{
  u16, ℕ, zero, suc, ◌+◌, ◌/◌, ◌^◌, ◌<◌, ◌≤◌, ◌≡◌, ◌≢◌, ◌∙◌, refl, ap, arith, Bool, true, false,
  not, ◌==◌, leb, if◌then◌else◌, List, drop, Memory, load, bit_and, bit_or,
}
use ether_house.Driver.{Chip, Driver, D, returns, ◌>>=◌, ◌>>◌, return, on_driver, when}
use ether_house.Driver.Spi.{
  write_buf, enable_chip, disable_chip, xfer_spi, read_op, write_op, set_bank, read_reg_byte,
  write_reg,
}
use ether_house.Driver.Packets.{wait_sent, packet_send}
use ether_house.Driver.Registers.{eir_txerif}
use ether_house.Driver.Laws.Triples.{Settles, Gives, bind-Gives, returned, both, weaken}
use ether_house.Driver.Laws.Banks.{Agrees}
use ether_house.Driver.Laws.Reach.{wait_sent-Keeps}
use ether_house.Driver.Laws.Send.{
  Sent, frame, write_first, write_op-Sent, write_reg_byte-Sent, load-Sent,
}

-- So many exchanges were made, and the buffer is this one.
abbrev Grown : Memory → ℕ → Driver → Type 0
Grown m n d = (n ≤ d.exchanges) × (d.buffer ≡ m)

-- From this exchange on, no answer has the bit of a transmission that goes on.
abbrev pub ReadyFrom : Chip → ℕ → Type 0
ReadyFrom chip r = (i : ℕ) → r ≤ i → bit_and (chip.answer i) 0x08 ≡ 0

module _ (chip : Chip) (m : Memory) where
  read_op-Grown : (n address : ℕ) → Gives (Grown m n) (λ _. Grown m n) (read_op chip 0 address)
  unfolding read_op enable_chip disable_chip xfer_spi
  read_op-Grown n address d (le, b) = by_test (not (bit_and address 0x80 == 0))
    where
      by_test :
          (t : Bool)
          → Settles ⊥
              (λ _. Grown m n)
              ((enable_chip
                  >> xfer_spi chip (bit_or 0 (bit_and address 0x1f))
                  >> xfer_spi chip 0
                  >> when t (xfer_spi chip 0)
                  >> λ v. (disable_chip >> return v.spdr) v)
                d)
      by_test true = (omega arith, b)
      by_test false = (omega arith, b)

  write_op-Grown :
      (n op address x : ℕ) → Gives (Grown m n) (λ _. Grown m n) (write_op chip op address x)
  unfolding write_op enable_chip disable_chip xfer_spi
  write_op-Grown n op address x d (le, b) = (omega arith, b)

  set_bank-Grown : (n address : ℕ) → Gives (Grown m n) (λ _. Grown m n) (set_bank chip address)
  unfolding set_bank write_op enable_chip disable_chip xfer_spi
  set_bank-Grown n address d (le, b) = by_test (bit_and address 0x60 == d.bank)
    where
      changed : D (Unit {0})
      changed =
          write_op chip 0xa0 0x1f 3
          >> on_driver (λ d'. record d' { bank = bit_and address 0x60 })
          >> write_op chip 0x80 0x1f (bit_and address 0x60 / 2 ^ 5)

      by_test :
          (t : Bool)
          → Settles ⊥ {A = Unit {0}} (λ _. Grown m n) (if t then returns tt d else changed d)
      by_test true = (le, b)
      by_test false = (omega arith, b)

  read_reg_byte-Grown :
      (n address : ℕ) → Gives (Grown m n) (λ _. Grown m n) (read_reg_byte chip address)
  unfolding read_reg_byte
  read_reg_byte-Grown n address =
      bind-Gives (Grown m n) (λ _. Grown m n) (λ _. Grown m n) _ _ (set_bank-Grown n address)
        (λ _. read_op-Grown n address)

  -- The look at ECON1.
  abbrev At : ℕ → Driver → Type 0
  At n d = (d.exchanges ≡ n) × (d.buffer ≡ m)

  look :
      (n : ℕ) → Gives (At n) (λ x d. (x ≡ chip.answer (n + 1)) × At (n + 2) d) (read_op chip 0 0x1f)
  unfolding read_op enable_chip disable_chip xfer_spi
  look n d (e, b) = (ap (λ k. chip.answer (k + 1)) e, (omega (arith, e), b))

  -- The transmitter is reset after an error.
  look_for_error :
      (n : ℕ) (k : D (Unit {0})) (Q : Unit {0} → Driver → Type 0)
      → Gives (Grown m n) Q k
      → Gives (Grown m n) Q (
          read_reg_byte chip 0x1c >>= λ y.
          when
            (not (bit_and y eir_txerif == 0))
            (write_op chip 0x80 0x1f 0x80 >> write_op chip 0xa0 0x1f 0x80)
          >> k)
  look_for_error n k Q h =
      bind-Gives (Grown m n) (λ _. Grown m n) Q _ _ (read_reg_byte-Grown n 0x1c)
        (λ y.
          bind-Gives (Grown m n) (λ _. Grown m n) Q _ _ (reset (not (bit_and y eir_txerif == 0)))
            (λ _. h))
    where
      reset :
          (t : Bool)
          → Gives
              (Grown m n)
              (λ _. Grown m n)
              (when t (write_op chip 0x80 0x1f 0x80 >> write_op chip 0xa0 0x1f 0x80))
      reset true =
          bind-Gives (Grown m n) (λ _. Grown m n) (λ _. Grown m n) _ _ (write_op-Grown n _ _ _)
            (λ _. write_op-Grown n _ _ _)
      reset false = λ d p. p

  module _ (r : ℕ) (ready : ReadyFrom chip r) where
    -- One round, with what follows if the answer is too early.
    one_round :
        (left n : ℕ)
        → (n + 1 < r → Gives (Grown m (n + 2)) (λ _ d. d.buffer ≡ m) (wait_sent chip left))
        → Gives (At n) (λ _ d. d.buffer ≡ m) (wait_sent chip (suc left))
    unfolding wait_sent
    one_round left n k =
        bind-Gives (At n) (λ x d. (x ≡ chip.answer (n + 1)) × At (n + 2) d) (λ _ d. d.buffer ≡ m) _
          _ (look n) (λ x v (e, a). by_test x e (bit_and x 0x08 == 0) refl v a)
      where
        rest : D (Unit {0})
        rest = read_reg_byte chip 0x1c >>= λ y.
            when (not (bit_and y eir_txerif == 0))
              (write_op chip 0x80 0x1f 0x80 >> write_op chip 0xa0 0x1f 0x80)
            >> wait_sent chip left

        is_early :
            (x : ℕ)
            → x ≡ chip.answer (n + 1)
            → bit_and x 0x08 ≢ 0
            → (t : Bool) → leb r (n + 1) ≡ t
            → n + 1 < r
        is_early x e h true q =
            absurd (h (ap (λ y. bit_and y 0x08) e ∙ ready (n + 1) (ground (arith, q))))
        is_early x e h false q = ground (arith, q)

        by_test :
            (x : ℕ)
            → x ≡ chip.answer (n + 1)
            → (t : Bool) → (bit_and x 0x08 == 0) ≡ t
            → Gives (At (n + 2)) (λ _ d. d.buffer ≡ m) (when (not t) rest)
        by_test x e true q = λ v a. a.1
        by_test x e false q = λ v a.
            let early : n + 1 < r = is_early x e (ground (arith, q)) (leb r (n + 1)) refl in
            look_for_error (n + 2) (wait_sent chip left) (λ _ d. d.buffer ≡ m) (k early) v
              (omega (arith, a.0), a.1)

    wait_sent_returns :
        (left : ℕ) (d : Driver)
        → r ≤ d.exchanges + (left + 1)
        → d.buffer ≡ m
        → Settles ⊥ (λ _ d'. d'.buffer ≡ m) (wait_sent chip (suc left) d)
    wait_sent_returns zero d h b =
        one_round zero d.exchanges (λ lt. absurd (omega arith)) d (refl, b)
    wait_sent_returns (suc left) d h b =
        one_round (suc left) d.exchanges
          (λ lt v p. wait_sent_returns left v (omega (arith, p.0)) (p.1)) d (refl, b)

    -- As many rounds as there are exchanges to wait for are enough.
    wait_sent_ends :
        (rounds : ℕ) (d : Driver)
        → 0 < rounds
        → r ≤ d.exchanges + rounds
        → d.buffer ≡ m
        → Settles ⊥ (λ _ d'. d'.buffer ≡ m) (wait_sent chip rounds d)
    wait_sent_ends zero d lt h b = absurd (omega arith)
    wait_sent_ends (suc left) d lt h b = wait_sent_returns left d (omega arith) b

  abbrev S : List (List ℕ) → Driver → Type 0
  S = Sent m

  -- Behind the wait.
  sends_frame :
      (len : ℕ) (P : Driver → Type 0) (before : D (Unit {0}))
      → Gives P (λ _ d. Agrees d × (d.buffer ≡ m)) before
      → Gives P
          (λ _. S (frame chip m len))
          (before
            >> write_reg chip 0x02 0x0c00
            >> write_reg chip 0x06 (u16 (0x0c00 + len))
            >> write_op chip 0x7a 0 0x00
            >> (λ d. write_buf chip (load d.buffer 0 len) d)
            >> write_op chip 0x80 0x1f 0x08)
  unfolding write_reg
  sends_frame len P before h =
      let after : ℕ → List (List ℕ) = λ k. drop k (frame chip m len) in
      bind-Gives P (λ _. S (after 1)) _ _ _
        (bind-Gives P (λ _. S (after 2)) _ _ _
          (bind-Gives P (λ _. S (after 3)) _ _ _
            (bind-Gives P (λ _. S (after 5)) _ _ _
              (bind-Gives P (λ _ d. Agrees d × (d.buffer ≡ m)) _ before _ h
                (λ _.
                  bind-Gives (λ d. Agrees d × (d.buffer ≡ m)) (λ _. S (after 6)) _ _ _
                    (write_first chip m 0x00)
                    (λ _. write_reg_byte-Sent chip m 0x03 0x0c (after 6) refl)))
              (λ _.
                bind-Gives (S (after 5)) (λ _. S (after 4)) _ _ _
                  (write_reg_byte-Sent chip m 0x06 _ (after 5) refl)
                  (λ _. write_reg_byte-Sent chip m 0x07 _ (after 4) refl)))
            (λ _. write_op-Sent chip m 0x7a 0 0x00 (after 3)))
          (λ _. load-Sent chip m len (after 2)))
        (λ _. write_op-Sent chip m 0x80 0x1f 0x08 (after 1))

-- packetSend returns, and the last transactions on the bus write the start and the end of the
-- frame, the control byte and the bytes of the buffer to the chip and start the transmission;
-- where the driver's bank is the chip's, the chip is no longer busy from some exchange on, and
-- there are rounds for the exchanges up to it.
pub packet_send_lem :
    (chip : Chip) (len r : ℕ) (d : Driver)
    → Agrees d
    → ReadyFrom chip r
    → r ≤ d.exchanges + chip.rounds
    → 0 < chip.rounds
    → (d' : Driver) × (packet_send chip len d ≡ returns tt d')
      × Sent d.buffer (frame chip d.buffer len) d'
unfolding packet_send
packet_send_lem chip len r d p ready le lt =
    let P : Driver → Type 0 =
      λ v. Agrees v × (v.buffer ≡ d.buffer) × (r ≤ v.exchanges + chip.rounds) in
    let waited : Gives P (λ _ v. Agrees v × (v.buffer ≡ d.buffer)) (wait_sent chip chip.rounds) =
      λ v (q, b, g).
        weaken ⊥ (λ _ v'. (v'.buffer ≡ d.buffer) × Agrees v')
          (λ _ v'. Agrees v' × (v'.buffer ≡ d.buffer)) _
          (both (λ _ v'. v'.buffer ≡ d.buffer) (λ _. Agrees) (wait_sent chip chip.rounds v)
            (wait_sent_ends chip d.buffer r ready chip.rounds v lt g b)
            (wait_sent-Keeps chip chip.rounds v q))
          (λ _ v' (b', q'). (q', b')) in
    let (a, d', e, q) =
      returned (λ _. Sent d.buffer (frame chip d.buffer len)) (packet_send chip len d)
        (sends_frame chip d.buffer len P (wait_sent chip chip.rounds) waited d (p, refl, le)) in
    (d', e, q)
