-- ===== src/Driver/Laws/Buffer.antt =====
-- The buffer of the driver holds what is received.
use ether_house.Base.{
  ℕ, ◌^◌, ◌<◌, ◌≤◌, ◌≡◌, ap, ◌∙◌, arith, Bool, true, false, if◌then◌else◌, inl, inr, List, Memory,
  write, store,
}
use ether_house.Driver.{Chip, Driver, returns}
use ether_house.Driver.Packets.{header_word, clamped, packet_receive}
use ether_house.Driver.Laws.Quiet.{answers}
use ether_house.Driver.Laws.Receive.{
  is_good, kept_length, with_packet, Received, packet_receive_lem,
}

module _ (chip : Chip) where
  clamped-lt : (size count : ℕ) → 0 < size → size < 2 ^ 16 → clamped size count < size
  unfolding clamped
  clamped-lt size count h h' = ground arith

  packet_far :
      (m : Memory) (header content : List ℕ) (len i : ℕ)
      → len < i
      → with_packet m header content len i ≡ m i
  packet_far m header content len i lt = by_test (is_good header)
    where
      by_test : (t : Bool) → write (if t then store m 0 content len else m) len 0 i ≡ m i
      by_test true = ground arith
      by_test false = ground arith

  -- packetReceive returns a length below the size of the buffer, and changes no byte of the
  -- memory from the size on, whatever length the chip reports; for a size between 1 and 2^16 - 1.
  pub packet_receive-bounds :
      (d : Driver)
      → 0 < d.buffer_size
      → d.buffer_size < 2 ^ 16
      → (len : ℕ) × (d' : Driver) × (packet_receive chip d ≡ returns len d')
        × (len < d.buffer_size)
        × (((i : ℕ) → d.buffer_size ≤ i → d'.buffer i ≡ d.buffer i))
  packet_receive-bounds d h h' =
      let (len, d', e, r) = packet_receive_lem chip d in
      let (lt, far) = bounded len d' r in (len, d', e, lt, far)
    where
      kept-lt : (header : List ℕ) → kept_length d.buffer_size header < d.buffer_size
      kept-lt header =
          let lt = clamped-lt d.buffer_size (header_word header 2) h h' in ground (arith, lt)

      bounded :
          (len : ℕ) (d' : Driver)
          → Received chip d len d'
          → (len < d.buffer_size) × ((i : ℕ) → d.buffer_size ≤ i → d'.buffer i ≡ d.buffer i)
      bounded len d' (inl (l, b, p, s)) = (omega (arith, l), λ i le. ap (λ m. m i) b)
      bounded len d' (inr (n, (k, l, b, p, s))) =
          let header = answers chip n 6 in
          let lt : len < d.buffer_size = omega (arith, l, kept-lt header) in
          (
            lt,
            λ i le.
                ap (λ m. m i) b
                ∙ packet_far d.buffer header (answers chip k len) len i (omega arith),
          )
