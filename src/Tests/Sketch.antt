-- ===== src/Tests/Sketch.antt =====
-- The sketch's own functions: lights.ino, rw_helpers.ino and api_client.ino.
use ether_house.Base.{
  ℕ, ◌≡◌, refl, ◌<◌, ◌≤◌, ◌⊎◌, ◌↔◌, [], ◌∷◌, Memory, write, write_ne, sym, store, Ip, arith, some,
}
use ether_house.Sketch.{Sketch, Device, initial, all_ones}
use ether_house.Sketch.Lights.{sync_leds}
use ether_house.Sketch.Lights.Laws.{Shows, sync_leds-Shows}
use ether_house.Sketch.Eeprom.{
  save_state_to_eeprom, read_state_from_eeprom, image, crc_calc, read_cells, write_changed,
  write_cell,
}
use ether_house.Sketch.Eeprom.Crc.{
  shift_bits, shift_bit, reference_update, reference_update-IsCrc16,
}
use ether_house.Sketch.Eeprom.Laws.{read-save, read_damaged}
use ether_house.Http.{find_response}
use ether_house.Http.Laws.{IsBody, find_response_iff}

abbrev pub zeros : Memory
zeros i = 0

abbrev blank : Device
blank = record { cells = λ i. 255; written = [] }

abbrev pub booted : Sketch
booted = initial zeros zeros blank

abbrev phone : Ip
phone = record { a0 = 192; a1 = 168; a2 = 1; a3 = 23 }

abbrev at_home : Sketch
at_home = record booted { state = 0x81; target_ip = phone }

abbrev saved : Sketch
saved = save_state_to_eeprom reference_update zeros at_home

abbrev restarted : Sketch
restarted = record booted { eeprom = saved.eeprom }

-- One bit of the stored state has flipped.
abbrev damaged : Sketch
damaged = record booted { eeprom = record saved.eeprom { cells = write saved.eeprom.cells 0 0x80 } }

read-save_example :
    let q = read_state_from_eeprom reference_update zeros restarted in
    (q.state ≡ 0x81) × (q.target_ip ≡ phone) × Shows q
read-save_example = read-save reference_update-IsCrc16 zeros at_home restarted (omega arith) refl

saved_state : saved.eeprom.cells 0 ≡ 0x81
unfolding initial save_state_to_eeprom image crc_calc read_cells write_changed write_cell shift_bits
    shift_bit
saved_state = refl

read_damaged_example :
    let q = read_state_from_eeprom reference_update zeros damaged in
    (q.state ≡ 0) × (q.target_ip ≡ all_ones) × Shows q
read_damaged_example =
    read_damaged reference_update-IsCrc16 zeros at_home damaged 0 (omega arith) (omega arith)
      (λ e. absurd (omega (arith, e, saved_state))) (omega arith)
      (λ j l ne. write_ne saved.eeprom.cells 0 j 0x80 (λ e. ne (sym e)))

sync_leds-Shows_example :
    Shows (sync_leds at_home)
    × ((k : ℕ) → (k < 2) ⊎ (10 ≤ k) → (sync_leds at_home).pins k ≡ at_home.pins k)
sync_leds-Shows_example = sync_leds-Shows at_home

-- "HTTP/1.0 200 OK\r\n\r\n5", at offset 100.
abbrev pub response : Memory
response =
    store zeros 100
      (b'H' ∷ b'T' ∷ b'T' ∷ b'P' ∷ b'/' ∷ b'1' ∷ b'.' ∷ b'0' ∷ b' ' ∷ b'2' ∷ b'0' ∷ b'0' ∷ b' '
        ∷ b'O' ∷ b'K' ∷ 13 ∷ 10 ∷ 13 ∷ 10 ∷ b'5' ∷ [])
      20

find_response_iff_example : (find_response response 100 20 ≡ some 19) ↔ IsBody response 100 20 19
find_response_iff_example = find_response_iff response 100 20 19
