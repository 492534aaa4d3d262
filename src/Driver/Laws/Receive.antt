-- ===== src/Driver/Laws/Receive.antt =====
-- The packet that is taken from the chip.
use ether_house.Base.{
  ℕ, ◌≡◌, refl, ap, subst, ◌∙◌, Bool, true, false, not, ◌==◌, ltb, if◌then◌else◌, ◌⊎◌, inl, inr,
  List, Memory, write, store, bit_and,
}
use ether_house.Driver.{Chip, Driver, D, returns, ◌>>◌, return, on_driver, when}
use ether_house.Driver.Spi.{read_buf, write_reg}
use ether_house.Driver.Packets.{
  header_word, clamped, store_packet, free_packet, take_packet, packet_receive,
}
use ether_house.Driver.Registers.{erdpt}
use ether_house.Driver.Laws.Triples.{Settles, Gives, bind-Gives, returned, weaken}
use ether_house.Driver.Laws.Quiet.{
  answers, Of, read_reg_byte-Quiet, write_reg-Quiet, write_op-Quiet, then-Quiet, read_buf-answers,
}

-- What the chip's six bytes in front of a packet say.
abbrev pub is_good : List ℕ → Bool
is_good header = not (bit_and (header_word header 4) 0x80 == 0)

abbrev pub kept_length : ℕ → List ℕ → ℕ
kept_length size header =
    if bit_and (header_word header 4) 0x80 == 0 then 0 else clamped size (header_word header 2)

-- The buffer with the packet and the zero behind it.
abbrev pub with_packet : Memory → List ℕ → List ℕ → ℕ → Memory
with_packet m header content len = write (if is_good header then store m 0 content len else m) len 0

-- The driver after a packet was taken, with the buffer and the size from before: header and content
-- are what the chip answered.
abbrev pub Taken : Chip → Memory → ℕ → List ℕ → ℕ → Driver → Type 0
Taken chip m size header len d' =
    (k : ℕ) × (len ≡ kept_length size header)
    × (d'.buffer ≡ with_packet m header (answers chip k len) len)
    × (d'.next_packet_ptr ≡ header_word header 0)
    × (d'.buffer_size ≡ size)

abbrev pub Untouched : Driver → ℕ → Driver → Type 0
Untouched d len d' =
    (len ≡ 0)
    × (d'.buffer ≡ d.buffer)
    × (d'.next_packet_ptr ≡ d.next_packet_ptr)
    × (d'.buffer_size ≡ d.buffer_size)

module _ (chip : Chip) where
  free_packet-Quiet : (P : Memory → ℕ → ℕ → Type 0) → Gives (Of P) (λ _. Of P) (free_packet chip)
  unfolding free_packet
  free_packet-Quiet P d =
      then-Quiet chip P _ _ (write_reg-Quiet chip P _ _) (write_op-Quiet chip P _ _ _) d

  -- The bytes that are stored when the status is good.
  abbrev KeptAs : Memory → ℕ → ℕ → Memory → ℕ → ℕ → Type 0
  KeptAs m ptr size b n s = (b ≡ m) × (n ≡ ptr) × (s ≡ size)

  abbrev WithStored : Bool → Memory → ℕ → ℕ → ℕ → Memory → ℕ → ℕ → Type 0
  WithStored t m ptr size len b n s =
      ((k : ℕ) × (b ≡ (if t then store m 0 (answers chip k len) len else m)))
      × (n ≡ ptr)
      × (s ≡ size)

  stored :
      (t : Bool) (m : Memory) (ptr size len : ℕ)
      → Gives
          (Of (KeptAs m ptr size))
          (λ _. Of (WithStored t m ptr size len))
          (when t (store_packet chip len))
  unfolding store_packet
  stored true m ptr size len =
      bind-Gives (Of (KeptAs m ptr size))
        (λ content v. Of (KeptAs m ptr size) v × (k : ℕ) × (content ≡ answers chip k len))
        (λ _. Of (WithStored true m ptr size len)) (read_buf chip len)
        (λ content. on_driver (λ v. record v { buffer = store v.buffer 0 content len }))
        (read_buf-answers chip (KeptAs m ptr size) len)
        (λ content v ((b, n, s), k, e).
          ((k, ap (λ b'. store b' 0 content len) b ∙ ap (λ c. store m 0 c len) e), n, s))
  stored false m ptr size len = λ v (b, n, s). ((0, b), n, s)

  -- What is done with the six bytes.
  abbrev name_next : List ℕ → D (Unit {0})
  name_next header = on_driver (λ v. record v { next_packet_ptr = header_word header 0 })

  abbrev end_packet : ℕ → D (Unit {0})
  end_packet kept = on_driver (λ v. record v { buffer = write v.buffer kept 0 })

  after_header-Taken :
      (m : Memory) (ptr size : ℕ) (header : List ℕ)
      → let kept = kept_length size header in
        Gives (Of (KeptAs m ptr size)) (Taken chip m size header) (
          name_next header
          >> when (is_good header) (store_packet chip kept)
          >> end_packet kept
          >> free_packet chip
          >> return kept)
  after_header-Taken m ptr size header =
      let kept = kept_length size header in
      let word = header_word header 0 in
      let good = is_good header in
      bind-Gives (Of (KeptAs m ptr size)) (λ _. Of placed) (Taken chip m size header) _
        (λ _. return kept)
        (bind-Gives (Of (KeptAs m ptr size)) (λ _. Of placed) (λ _. Of placed) _
          (λ _. free_packet chip)
          (bind-Gives (Of (KeptAs m ptr size)) (λ _. Of (WithStored good m word size kept))
            (λ _. Of placed) _ (λ _. end_packet kept)
            (bind-Gives (Of (KeptAs m ptr size)) (λ _. Of (KeptAs m word size))
              (λ _. Of (WithStored good m word size kept)) (name_next header)
              (λ _. when good (store_packet chip kept)) (λ v (b, n, s). (b, refl, s))
              (λ _. stored good m word size kept))
            (λ _ v ((k, b), n, s). ((k, ap (λ b'. write b' kept 0) b), n, s)))
          (λ _. free_packet-Quiet placed))
        (λ _ v ((k, b), n, s). (k, refl, b, n, s))
    where
      placed : Memory → ℕ → ℕ → Type 0
      placed b n s =
          let kept = kept_length size header in
          ((k : ℕ) × (b ≡ with_packet m header (answers chip k kept) kept))
          × (n ≡ header_word header 0)
          × (s ≡ size)

  -- It returns, and has taken the packet.
  take_packet-Taken :
      (d : Driver)
      → Settles ⊥
          (λ len d'. (n : ℕ) × Taken chip d.buffer d.buffer_size (answers chip n 6) len d')
          (take_packet chip d)
  unfolding take_packet
  take_packet-Taken d =
      let before = KeptAs d.buffer d.next_packet_ptr d.buffer_size in
      bind-Gives (Of before) (λ header v. Of before v × (n : ℕ) × (header ≡ answers chip n 6))
        (λ len d'. (n : ℕ) × Taken chip d.buffer d.buffer_size (answers chip n 6) len d')
        (write_reg chip erdpt d.next_packet_ptr >> read_buf chip 6) _
        (bind-Gives (Of before) (λ _. Of before)
          (λ header v. Of before v × (n : ℕ) × (header ≡ answers chip n 6)) _ _
          (write_reg-Quiet chip before _ _) (λ _. read_buf-answers chip before 6))
        (λ header v x. after_answers header v (x.0) (x.1) (x.2)) d (refl, refl, refl)
    where
      after_answers :
          (header : List ℕ) (v : Driver)
          → Of (KeptAs d.buffer d.next_packet_ptr d.buffer_size) v
          → (n : ℕ) → header ≡ answers chip n 6
          → let kept = kept_length d.buffer_size header in
            Settles ⊥
              (λ len d'. (n : ℕ) × Taken chip d.buffer d.buffer_size (answers chip n 6) len d')
              ((name_next header
                  >> when (is_good header) (store_packet chip kept)
                  >> end_packet kept
                  >> free_packet chip
                  >> return kept)
                v)
      after_answers header v q n e =
          weaken ⊥ (Taken chip d.buffer d.buffer_size header)
            (λ len d'. (n : ℕ) × Taken chip d.buffer d.buffer_size (answers chip n 6) len d') _
            (after_header-Taken d.buffer d.next_packet_ptr d.buffer_size header v q)
            (λ len d' t. (n, subst (λ h. Taken chip d.buffer d.buffer_size h len d') e t))

  abbrev pub Received : Driver → ℕ → Driver → Type 0
  Received d len d' =
      Untouched d len d' ⊎ ((n : ℕ) × Taken chip d.buffer d.buffer_size (answers chip n 6) len d')

  -- packetReceive returns. It returns 0 and changes nothing of the driver's buffer and position,
  -- or it has taken a packet: the six bytes the chip answered give the next position, the status
  -- and the length that is kept, and the buffer holds so many answers of the chip, if the status
  -- is good, and a zero behind them.
  pub packet_receive_lem :
      (d : Driver)
      → (len : ℕ) × (d' : Driver) × (packet_receive chip d ≡ returns len d') × Received d len d'
  unfolding packet_receive
  packet_receive_lem d =
      let before = KeptAs d.buffer d.next_packet_ptr d.buffer_size in
      returned (Received d) (packet_receive chip d) (
        bind-Gives (Of before) (λ _. Of before) (Received d) _ _ (read_reg_byte-Quiet chip before _)
          (λ count v q. after_count (ltb 0 count) v q) d (refl, refl, refl))
    where
      moved :
          (v : Driver)
          → Of (KeptAs d.buffer d.next_packet_ptr d.buffer_size) v
          → (len : ℕ) (d' : Driver)
          → (n : ℕ) × Taken chip v.buffer v.buffer_size (answers chip n 6) len d'
          → Received d len d'
      moved v (b, p, z) len d' (n, t) = inr (
        n,
        subst (λ m. Taken chip m d.buffer_size (answers chip n 6) len d') b
            (subst (λ k. Taken chip v.buffer k (answers chip n 6) len d') z t),
      )

      after_count :
          (t : Bool) (v : Driver)
          → Of (KeptAs d.buffer d.next_packet_ptr d.buffer_size) v
          → Settles ⊥ {A = ℕ} (Received d) ((if t then take_packet chip else return 0) v)
      after_count true v q =
          weaken ⊥ (λ len d'. (n : ℕ) × Taken chip v.buffer v.buffer_size (answers chip n 6) len d')
            (Received d) (take_packet chip v) (take_packet-Taken v) (moved v q)
      after_count false v (b, p, z) = inl (refl, b, p, z)
