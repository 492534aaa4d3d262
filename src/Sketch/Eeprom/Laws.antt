-- ===== src/Sketch/Eeprom/Laws.antt =====
-- What a reboot finds in the EEPROM.
use ether_house.Base.{
  ℕ, zero, suc, ◌+◌, ◌/◌, ◌^◌, ◌≤◌, ◌<◌, ◌≡◌, ◌≢◌, refl, ap, ◌∙◌, sym, ◌==◌, if◌then◌else◌, arith,
  ltb, leb, ◌&&◌, Memory, write, ip_at,
}
use native.Mathlib.Decide.{ℕ_discrete}
use ether_house.Base.Bits.{bit_and_mask}
use ether_house.Sketch.{Sketch, Device, all_ones}
use ether_house.Sketch.Lights.{sync_leds}
use ether_house.Sketch.Lights.Laws.{Shows, sync_leds-Shows}
use ether_house.Sketch.Eeprom.{
  read_cells, write_cell, write_changed, crc_loop, crc_calc, image, save_state_to_eeprom,
  read_state_from_eeprom,
}
use ether_house.Sketch.Eeprom.Crc.{
  IsCrc16, update-lt, update_residue, update-injective, update-injective_byte,
}

read_cells_lem :
    (n i : ℕ) (cells buffer : Memory) (k : ℕ)
    → read_cells n i cells buffer k ≡ (if leb i k && ltb k (i + n) then cells k else buffer k)
unfolding read_cells
read_cells_lem zero i cells buffer k = ground arith
read_cells_lem (suc n) i cells buffer k =
    ground (arith, read_cells_lem n (i + 1) cells (write buffer i (cells i)) k)

write_cell_lem :
    (i : ℕ) (new cur : Memory) (d : Device) (k : ℕ)
    → (i ≡ k → cur k ≡ d.cells k)
    → (write_cell i new cur d).cells k ≡ (if i == k then new k else d.cells k)
unfolding write_cell
write_cell_lem i new cur d k h = ground arith

-- Where the comparison array holds the cells, the loop leaves the new bytes in its range.
write_changed_lem :
    (n i : ℕ) (new cur : Memory) (d : Device) (k : ℕ)
    → (i ≤ k → k < i + n → cur k ≡ d.cells k)
    → (write_changed n i new cur d).cells k
      ≡ (if leb i k && ltb k (i + n) then new k else d.cells k)
unfolding write_changed
write_changed_lem zero i new cur d k h = ground arith
write_changed_lem (suc n) i new cur d k h = ground (
  arith,
  h,
  write_cell_lem i new cur d k,
  write_changed_lem n (i + 1) new cur (write_cell i new cur d) k,
)

-- Where they hold the new bytes already, it writes nothing.
write_changed_none :
    (n i : ℕ) (new cur : Memory) (d : Device)
    → ((k : ℕ) → i ≤ k → k < i + n → cur k ≡ new k)
    → write_changed n i new cur d ≡ d
unfolding write_changed write_cell
write_changed_none zero i new cur d h = refl
write_changed_none (suc n) i new cur d h = ground (
  arith,
  h i,
  write_changed_none n (i + 1) new cur d (λ k lo hi. h k (omega arith) (omega arith)),
)

-- The variables that are saved hold bytes.
abbrev pub IsStored : Sketch → Type 0
IsStored s =
    (s.state < 256)
    × (s.target_ip.a0 < 256)
    × (s.target_ip.a1 < 256)
    × (s.target_ip.a2 < 256)
    × (s.target_ip.a3 < 256)

module _ {crc16_update : ℕ → ℕ → ℕ} (crc16 : IsCrc16 crc16_update) (stack : Memory) where
  abbrev data_crc : Sketch → ℕ
  data_crc s =
      let a = s.target_ip in
      crc16_update
        (crc16_update (crc16_update (crc16_update (crc16_update 0 s.state) a.a0) a.a1) a.a2) a.a3

  data_crc-lt : (s : Sketch) → IsStored s → data_crc s < 2 ^ 16
  data_crc-lt s (b, b0, b1, b2, b3) =
      let c0 = update-lt crc16 0 s.state (omega arith) b in
      let c1 = update-lt crc16 _ _ c0 b0 in
      let c2 = update-lt crc16 _ _ c1 b1 in
      let c3 = update-lt crc16 _ _ c2 b2 in update-lt crc16 _ _ c3 b3

  -- The CRC over the data and its own two bytes is 0.
  image_crc :
      (s : Sketch) → IsStored s → crc_calc crc16_update stack (image crc16_update stack s) 7 ≡ 0
  unfolding image crc_calc
  image_crc s h = ground (
    arith,
    bit_and_mask 8 (data_crc s),
    bit_and_mask 8 (data_crc s / 256),
    update_residue crc16 (data_crc s) (data_crc-lt s h),
    data_crc-lt s h,
  )

  -- The cells after a save are the image.
  saved_cells :
      (s : Sketch) (k : ℕ)
      → (save_state_to_eeprom crc16_update stack s).eeprom.cells k
        ≡ (if ltb k 7 then image crc16_update stack s k else s.eeprom.cells k)
  unfolding save_state_to_eeprom
  saved_cells s k = ground (
    arith,
    write_changed_lem 7 0 (image crc16_update stack s) (read_cells 7 0 s.eeprom.cells stack)
        s.eeprom k,
    read_cells_lem 7 0 s.eeprom.cells stack k,
  )

  -- The CRC looks at the cells in its range only.
  crc_loop_ext :
      (n i crc : ℕ) (m m' : Memory)
      → ((k : ℕ) → i ≤ k → k < i + n → m k ≡ m' k)
      → crc_loop crc16_update stack n i crc m ≡ crc_loop crc16_update stack n i crc m'
  unfolding crc_loop
  crc_loop_ext zero i crc m m' h = refl
  crc_loop_ext (suc n) i crc m m' h = rw (h i (omega arith) (omega arith)) (
      crc_loop_ext n (i + 1) (crc16_update crc (m' i)) m m'
        (λ k lo hi. h k (omega arith) (omega arith)))

  crc_calc_ext :
      (m m' : Memory)
      → ((k : ℕ) → k < 7 → m k ≡ m' k)
      → crc_calc crc16_update stack m 7 ≡ crc_calc crc16_update stack m' 7
  unfolding crc_calc
  crc_calc_ext m m' h = crc_loop_ext 7 0 0 m m' (λ k lo hi. h k (omega arith))

  -- The boot with a given content of the seven cells.
  pub read_valid :
      (r : Sketch) (m : Memory)
      → ((k : ℕ) → k < 7 → r.eeprom.cells k ≡ m k)
      → crc_calc crc16_update stack m 7 ≡ 0
      → read_state_from_eeprom crc16_update stack r
        ≡ sync_leds (record r { state = m 0; target_ip = ip_at m 1 })
  unfolding read_state_from_eeprom
  read_valid r m same valid = rw crc_found (ground (arith, held 0, held 1, held 2, held 3, held 4))
    where
      held : (k : ℕ) → k < 7 → read_cells 7 0 r.eeprom.cells stack k ≡ m k
      held k h = ground (arith, read_cells_lem 7 0 r.eeprom.cells stack k, same k)

      crc_found : crc_calc crc16_update stack (read_cells 7 0 r.eeprom.cells stack) 7 ≡ 0
      crc_found = crc_calc_ext _ m held ∙ valid

  pub read_invalid :
      (r : Sketch)
      → crc_calc crc16_update stack r.eeprom.cells 7 ≢ 0
      → read_state_from_eeprom crc16_update stack r
        ≡ sync_leds (record r { state = 0; target_ip = all_ones })
  unfolding read_state_from_eeprom
  read_invalid r bad =
      ground (arith, bad, crc_calc_ext (read_cells 7 0 r.eeprom.cells stack) r.eeprom.cells held)
    where
      held : (k : ℕ) → k < 7 → read_cells 7 0 r.eeprom.cells stack k ≡ r.eeprom.cells k
      held k h = ground (arith, read_cells_lem 7 0 r.eeprom.cells stack k)

  -- From the same bytes, different CRCs stay different.
  crc_loop-injective :
      (n i c c' : ℕ) (m : Memory)
      → c < 2 ^ 16
      → c' < 2 ^ 16
      → ((k : ℕ) → i ≤ k → k < i + n → m k < 256)
      → crc_loop crc16_update stack n i c m ≡ crc_loop crc16_update stack n i c' m
      → c ≡ c'
  unfolding crc_loop
  crc_loop-injective zero i c c' m hc hc' b e = e
  crc_loop-injective (suc n) i c c' m hc hc' b e =
      let byte : m i < 256 = b i (omega arith) (omega arith) in
      update-injective crc16 c c' (m i) hc hc' byte (
        crc_loop-injective n (i + 1) (crc16_update c (m i)) (crc16_update c' (m i)) m
          (update-lt crc16 c (m i) hc byte) (update-lt crc16 c' (m i) hc' byte)
          (λ k lo hi. b k (omega arith) (omega arith)) e)

  -- Bytes that differ in one place have different CRCs.
  crc_loop_byte :
      (n i c k : ℕ) (m m' : Memory)
      → c < 2 ^ 16
      → ((j : ℕ) → i ≤ j → j < i + n → m j < 256)
      → ((j : ℕ) → i ≤ j → j < i + n → m' j < 256)
      → ((j : ℕ) → i ≤ j → j < i + n → j ≢ k → m j ≡ m' j)
      → i ≤ k
      → k < i + n
      → crc_loop crc16_update stack n i c m ≡ crc_loop crc16_update stack n i c m'
      → m k ≡ m' k
  unfolding crc_loop
  crc_loop_byte zero i c k m m' hc b b' same lo hi e = absurd (omega arith)
  crc_loop_byte (suc n) i c k m m' hc b b' same lo hi e = elim (ℕ_discrete i k) [
    | yes here ↦ rw (← here) (at_i (λ j l h. same j (omega arith) h (omega arith)))
    | no later ↦
        crc_loop_byte n (i + 1) (crc16_update c (m i)) k m m' (update-lt crc16 c (m i) hc byte)
          (λ j l h. b j (omega arith) (omega arith)) (λ j l h. b' j (omega arith) (omega arith))
          (λ j l h. same j (omega arith) (omega arith)) (omega arith) (omega arith)
          (e
            ∙ ap (λ (x : ℕ). crc_loop crc16_update stack n (i + 1) (crc16_update c x) m')
                (sym (same i (omega arith) (omega arith) later)))
  ]
    where
      byte : m i < 256
      byte = b i (omega arith) (omega arith)

      byte' : m' i < 256
      byte' = b' i (omega arith) (omega arith)

      at_i : ((j : ℕ) → i + 1 ≤ j → j < i + suc n → m j ≡ m' j) → m i ≡ m' i
      at_i rest = update-injective_byte crc16 c (m i) (m' i) hc byte byte' (
          crc_loop-injective n (i + 1) (crc16_update c (m i)) (crc16_update c (m' i)) m'
            (update-lt crc16 c (m i) hc byte) (update-lt crc16 c (m' i) hc byte')
            (λ j l h. b' j (omega arith) (omega arith))
            (sym (
                crc_loop_ext n (i + 1) (crc16_update c (m i)) m m'
                  (λ j l h. rest j l (omega arith)))
              ∙ e))

  -- What was saved is found again by a program that starts anew on the device, whatever its
  -- variables hold, and the pins show it.
  pub read-save :
      (s r : Sketch)
      → IsStored s
      → r.eeprom ≡ (save_state_to_eeprom crc16_update stack s).eeprom
      → let q = read_state_from_eeprom crc16_update stack r in
        (q.state ≡ s.state) × (q.target_ip ≡ s.target_ip) × Shows q
  unfolding image sync_leds
  read-save s r h e =
      rw (read_valid r (image crc16_update stack s) held (image_crc s h))
        (refl, refl, (sync_leds-Shows found).0)
    where
      found : Sketch
      found = record r { state = s.state; target_ip = s.target_ip }

      held : (k : ℕ) → k < 7 → r.eeprom.cells k ≡ image crc16_update stack s k
      held k lt = rw e (ground (arith, saved_cells s k))

  -- A save on a device that holds the values already writes no cell.
  pub save_twice :
      (s : Sketch)
      → let t = save_state_to_eeprom crc16_update stack s in
        save_state_to_eeprom crc16_update stack t ≡ t
  unfolding save_state_to_eeprom image
  save_twice s = ap (λ (d : Device). record t { eeprom = d }) same
    where
      t : Sketch
      t = save_state_to_eeprom crc16_update stack s

      same : (save_state_to_eeprom crc16_update stack t).eeprom ≡ t.eeprom
      same =
          write_changed_none 7 0 (image crc16_update stack s) (read_cells 7 0 t.eeprom.cells stack)
            t.eeprom
            (λ k lo hi. ground (arith, read_cells_lem 7 0 t.eeprom.cells stack k, saved_cells s k))

  image-lt : (s : Sketch) → IsStored s → (k : ℕ) → k < 7 → image crc16_update stack s k < 256
  unfolding image crc_calc
  image-lt s h zero lt = h.0
  image-lt s h (suc zero) lt = h.1
  image-lt s h (suc (suc zero)) lt = h.2
  image-lt s h (suc (suc (suc zero))) lt = h.3
  image-lt s h (suc (suc (suc (suc zero)))) lt = h.4
  image-lt s h (suc (suc (suc (suc (suc zero))))) lt = omega (arith, bit_and_mask 8 (data_crc s))
  image-lt s h (suc (suc (suc (suc (suc (suc zero)))))) lt =
      omega (arith, bit_and_mask 8 (data_crc s / 256))
  image-lt s h (suc (suc (suc (suc (suc (suc (suc k))))))) lt = absurd (omega arith)

  -- A change of one of the seven cells after a save is noticed: the boot takes the defaults.
  pub read_damaged :
      (s r : Sketch) (k : ℕ)
      → IsStored s
      → k < 7
      → r.eeprom.cells k ≢ (save_state_to_eeprom crc16_update stack s).eeprom.cells k
      → r.eeprom.cells k < 256
      → ((j : ℕ)
          → j < 7
          → j ≢ k
          → r.eeprom.cells j ≡ (save_state_to_eeprom crc16_update stack s).eeprom.cells j)
      → let q = read_state_from_eeprom crc16_update stack r in
        (q.state ≡ 0) × (q.target_ip ≡ all_ones) × Shows q
  unfolding sync_leds crc_calc
  read_damaged s r k h lt changed byte others =
      rw (read_invalid r (λ e. changed (clash e))) (refl, refl, (sync_leds-Shows defaults).0)
    where
      defaults : Sketch
      defaults = record r { state = 0; target_ip = all_ones }

      new : Memory
      new = image crc16_update stack s

      same : (j : ℕ) → j < 7 → j ≢ k → r.eeprom.cells j ≡ new j
      same j l ne = ground (arith, others j l ne, saved_cells s j)

      found-lt : (j : ℕ) → j < 7 → r.eeprom.cells j < 256
      found-lt j l = elim (ℕ_discrete j k) [
        | yes e ↦ rw e byte
        | no ne ↦ rw (same j l ne) (image-lt s h j l)
      ]

      clash :
          crc_calc crc16_update stack r.eeprom.cells 7 ≡ 0
          → r.eeprom.cells k ≡ (save_state_to_eeprom crc16_update stack s).eeprom.cells k
      clash e = ground (
        arith,
        saved_cells s k,
        crc_loop_byte 7 0 0 k r.eeprom.cells new (omega arith) (λ j l u. found-lt j u)
            (λ j l u. image-lt s h j u) (λ j l u ne. same j u ne) (omega arith) lt
            (e ∙ sym (image_crc s h)),
      )
