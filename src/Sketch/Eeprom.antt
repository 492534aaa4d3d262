-- ===== src/Sketch/Eeprom.antt =====
-- client_firmware/rw_helpers.ino, with DEBUG_EEPROM 0: `state` and `target_ip` in the EEPROM under
-- a CRC. `EEPROM.read` and `EEPROM.write` access one byte of the device. `_crc16_update` is
-- avr-libc's and a parameter here.
pub mod Crc
pub mod Laws
use ether_house.Base.{
  ℕ, zero, suc, ◌+◌, ◌/◌, ◌^◌, bit_and, Bool, ◌==◌, if◌then◌else◌, List, ◌∷◌, Memory, write, put_ip,
  ip_at,
}
use ether_house.Sketch.{Sketch, Device, all_ones}
use ether_house.Sketch.Lights.{sync_leds}

abbrev pub state_addr : ℕ
state_addr = 0

abbrev pub state_size : ℕ
state_size = 1

abbrev pub target_ip_addr : ℕ
target_ip_addr = state_addr + state_size

abbrev pub target_ip_size : ℕ
target_ip_size = 4

abbrev pub checksum_addr : ℕ
checksum_addr = target_ip_addr + target_ip_size

abbrev pub checksum_size : ℕ
checksum_size = 2

abbrev pub eeprom_data_size : ℕ
eeprom_data_size = checksum_addr

abbrev pub eeprom_size : ℕ
eeprom_size = checksum_addr + checksum_size

-- for (i = 0; i < EEPROM_SIZE; i++) buffer[i] = EEPROM.read(i), at index i.
unfoldable pub read_cells : ℕ → ℕ → Memory → Memory → Memory
read_cells zero i cells buffer = buffer
read_cells (suc left) i cells buffer = read_cells left (i + 1) cells (write buffer i (cells i))

-- The body of the loop that writes the cells that differ.
unfoldable pub write_cell : ℕ → Memory → Memory → Device → Device
write_cell i new cur d =
    if new i == cur i
    then d
    else record { cells = write d.cells i (new i); written = i ∷ d.written }

unfoldable pub write_changed : ℕ → ℕ → Memory → Memory → Device → Device
write_changed zero i new cur d = d
write_changed (suc left) i new cur d = write_changed left (i + 1) new cur (write_cell i new cur d)

-- `crc16_update` is avr-libc's function; `stack` is what the arrays hold before they are written.
module _ (crc16_update : ℕ → ℕ → ℕ) (stack : Memory) where
  -- The loop of crc_calc at `index`.
  unfoldable pub crc_loop : ℕ → ℕ → ℕ → Memory → ℕ
  crc_loop zero index crc bytes = crc
  crc_loop (suc left) index crc bytes =
      crc_loop left (index + 1) (crc16_update crc (bytes index)) bytes

  unfoldable pub crc_calc : Memory → ℕ → ℕ
  unfolding crc_loop
  crc_calc bytes len = crc_loop len 0 0 bytes

  unfoldable pub crc_write : Memory → ℕ → Memory
  crc_write bytes len =
      let crc = crc_calc bytes len in
      write (write bytes len (bit_and crc 0xff)) (len + 1) (bit_and (crc / 2 ^ 8) 0xff)

  -- `eeprom_new` of saveStateToEeprom.
  unfoldable pub image : Sketch → Memory
  unfolding crc_write
  image s =
      crc_write (put_ip (write stack state_addr s.state) target_ip_addr s.target_ip)
        eeprom_data_size

  unfoldable pub save_state_to_eeprom : Sketch → Sketch
  save_state_to_eeprom s =
      let new = image s in
      let cur = read_cells eeprom_size 0 s.eeprom.cells stack in
      record s { eeprom = write_changed eeprom_size 0 new cur s.eeprom }

  unfoldable pub read_state_from_eeprom : Sketch → Sketch
  read_state_from_eeprom s =
      let eeprom = read_cells eeprom_size 0 s.eeprom.cells stack in
      sync_leds (
        if crc_calc eeprom eeprom_size == 0
        then record s { state = eeprom state_addr; target_ip = ip_at eeprom target_ip_addr }
        else record s { state = 0; target_ip = all_ones })
