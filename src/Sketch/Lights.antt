-- ===== src/Sketch/Lights.antt =====
-- client_firmware/lights.ino: the lamp of each house is a bit of `state` and a pin.
-- `toggle_house`, which calls the server, is in World/Api.antt.
pub mod Laws
use ether_house.Base.{
  ℕ, zero, suc, ◌+◌, ◌-◌, ◌/◌, ◌%◌, ◌^◌, bit_and, bit_or, Bool, true, false, ◌==◌, if◌then◌else◌,
  Memory, write, u8,
}
use ether_house.Sketch.{Sketch, num_houses}

-- Arduino's bitRead(value, bit): (value >> bit) & 1.
unfoldable pub bit_read : ℕ → ℕ → Bool
bit_read value bit = bit_and (value / 2 ^ bit) 1 == 1

-- Arduino's bitWrite on a uint8_t: value |= 1UL << bit, or value &= ~(1UL << bit).
unfoldable pub bit_write : ℕ → ℕ → Bool → ℕ
bit_write value bit true = u8 (bit_or value (2 ^ bit))
bit_write value bit false = u8 (bit_and value (2 ^ 32 - 1 - 2 ^ bit))

-- HIGH is 1 and LOW is 0.
abbrev pub level : Bool → ℕ
level on = if on then 1 else 0

-- The loop of sync_leds at house i, with the rounds left.
unfoldable pub sync_from : ℕ → ℕ → ℕ → Memory → Memory
sync_from zero i state pins = pins
sync_from (suc left) i state pins =
    sync_from left (i + 1) state (write pins (i + 2) (level (bit_read state i)))

unfoldable pub sync_leds : Sketch → Sketch
sync_leds s = record s { pins = sync_from num_houses 0 s.state s.pins }

-- pinMode(i + 2, OUTPUT), where OUTPUT is 1.
unfoldable pub setup_from : ℕ → ℕ → Memory → Memory
setup_from zero i modes = modes
setup_from (suc left) i modes = setup_from left (i + 1) (write modes (i + 2) 1)

unfoldable pub setup_pins : Sketch → Sketch
setup_pins s = record s { modes = setup_from num_houses 0 s.modes }
