-- ===== src/World/Laws/Callbacks.antt =====
-- What the sketch does with a response, and a toggle while a call of the server is under way.
use Prim.Native.String.{String}
use ether_house.Net.{Url, BrowserCallback}
use ether_house.Net.Frames.Requests.{send_udp}
use ether_house.Sketch.Eeprom.Crc.{IsCrc16}
use ether_house.World.Syslog.{syslog_ram, syslog_bytes, message}
use ether_house.Base.{
  ℕ, ◌+◌, ◌≡◌, refl, Bool, true, false, not, some, if◌then◌else◌, IsIp, ◌<◌, ◌≤◌, ◌∙◌, ap, ◌⊎◌,
  arith, ◌==◌, u8, length, Memory,
}
use ether_house.Http.{find_response}
use ether_house.Sketch.{Sketch, initial, all_ones, my_id}
use ether_house.Sketch.Lights.{bit_read, bit_write, sync_leds}
use ether_house.Sketch.Lights.Laws.{Shows, sync_leds-Shows, bit_read-bit_write}
use ether_house.Sketch.Eeprom.{save_state_to_eeprom, read_state_from_eeprom}
use ether_house.Sketch.Eeprom.Laws.{read-save}
use ether_house.World.{when, Env, World, returns, M}
use ether_house.World.Api.{
  state_parse_callback, toggle_house, same_bit, call_server, api_set_on, api_set_off,
}

-- The state that a toggle leaves.
abbrev toggled : ℕ → Bool → Sketch → Sketch
toggled house value s =
    if same_bit (bit_read s.state house) value
    then s
    else sync_leds (record s { state = bit_write s.state house value })

call_locked :
    (env : Env) (poll late : M (Unit {0})) (url : Url) (callback : BrowserCallback)
    (logstring : String) (w : World)
    → w.sketch.locked ≡ true
    → call_server env poll url callback logstring late w ≡ returns tt w
unfolding call_server
call_locked env poll late url callback logstring w h = simp h

api_locked :
    (env : Env) (poll : M (Unit {0})) (value : Bool) (w : World)
    → w.sketch.locked ≡ true
    → (if value then api_set_on env poll else api_set_off env poll) w ≡ returns tt w
unfolding api_set_on api_set_off
api_locked env poll true w h = call_locked env poll _ _ _ _ w h
api_locked env poll false w h = call_locked env poll _ _ _ _ w h

toggle_by_bit :
    (env : Env) (poll : M (Unit {0})) (house : ℕ) (value : Bool) (w : World)
    → w.sketch.locked ≡ true
    → toggle_house env poll house value w
      ≡ returns tt (record w { sketch = toggled house value w.sketch })
unfolding toggle_house sync_leds
toggle_by_bit env poll house value w h =
    by_test (same_bit (bit_read w.sketch.state house) value) (house == my_id)
  where
    changed : World
    changed = record w {
      sketch = sync_leds (record w.sketch { state = bit_write w.sketch.state house value });
    }

    call : M (Unit {0})
    call = if value then api_set_on env poll else api_set_off env poll

    by_test :
        (t own : Bool)
        → (if not t then when (λ _. own) call changed else returns tt w)
          ≡ returns tt (record w { sketch = if t then w.sketch else changed.sketch })
    by_test true own = refl
    by_test false true = api_locked env poll value changed h
    by_test false false = refl

same_bit_sound : (a b : Bool) → same_bit a b ≡ true → a ≡ b
same_bit_sound true true e = refl
same_bit_sound true false e = absurd (ground (arith, e))
same_bit_sound false true e = absurd (ground (arith, e))
same_bit_sound false false e = refl

-- The bit of the house is the value, the others are as they were, and the pins show them.
abbrev pub IsToggled : ℕ → Bool → Sketch → Sketch → Type 0
IsToggled house value s s' =
    ((j : ℕ) → j < 8 → bit_read s'.state j ≡ (if house == j then value else bit_read s.state j))
    × Shows s'
    × ((k : ℕ) → (k < 2) ⊎ (10 ≤ k) → s'.pins k ≡ s.pins k)
    × (s'.locked ≡ s.locked)
    × (s'.eeprom ≡ s.eeprom)

toggled-IsToggled :
    (house : ℕ) (value : Bool) (s : Sketch)
    → house < 8
    → s.state < 256
    → Shows s
    → IsToggled house value s (toggled house value s)
unfolding sync_leds
toggled-IsToggled house value s small byte shown =
    by_test (same_bit (bit_read s.state house) value) refl
  where
    written : Sketch
    written = record s { state = bit_write s.state house value }

    same :
        bit_read s.state house ≡ value
        → (j : ℕ) (t : Bool) → (house == j) ≡ t
        → bit_read s.state j ≡ (if t then value else bit_read s.state j)
    same e j true h = ap (bit_read s.state) (ground (arith, h)) ∙ e
    same e j false h = refl

    by_test :
        (t : Bool)
        → same_bit (bit_read s.state house) value ≡ t
        → IsToggled house value s (if t then s else sync_leds written)
    by_test true e = (
      λ j l. same (same_bit_sound (bit_read s.state house) value e) j (house == j) refl,
      shown,
      λ k l. refl,
      refl,
      refl,
    )
    by_test false e = (
      λ j l. bit_read-bit_write s.state house j value byte small l,
      (sync_leds-Shows written).0,
      (sync_leds-Shows written).1,
      refl,
      refl,
    )

-- While a call of the server is under way, a toggle of a house sets the bit of this house to the
-- value, keeps the bits of the others, and the pins show them; no other pin, the lock and the
-- EEPROM change, and no packet is sent: the server is not told. For a house below 8 and a state
-- of a byte that the pins show.
pub toggle_locked :
    (env : Env) (poll : M (Unit {0})) (house : ℕ) (value : Bool) (w : World)
    → w.sketch.locked ≡ true
    → house < 8
    → w.sketch.state < 256
    → Shows w.sketch
    → (w' : World) × (toggle_house env poll house value w ≡ returns tt w')
      × IsToggled house value w.sketch w'.sketch
      × (w'.net ≡ w.net)
toggle_locked env poll house value w h small byte shown = (
  record w { sketch = toggled house value w.sketch },
  toggle_by_bit env poll house value w h,
  toggled-IsToggled house value w.sketch small byte shown,
  refl,
)

-- A response to /state in which find_response finds a body makes its first byte the state: the pins
-- show it, the lock is released, and a program that starts anew on the device reads it. For a
-- documented _crc16_update and bytes in the buffer and in the target's address.
pub state_parse_callback_lem :
    (env : Env) (crc16 : IsCrc16 env.crc16_update) (off len k : ℕ) (w : World) (pins modes : Memory)
    → find_response w.net.buffer off len ≡ some k
    → w.net.buffer (off + k) < 256
    → IsIp w.sketch.target_ip
    → (w' : World) × (state_parse_callback env off len w ≡ returns tt w')
      × (w'.sketch.state ≡ w.net.buffer (off + k))
      × (w'.sketch.locked ≡ false)
      × Shows w'.sketch
      × (let q =
            read_state_from_eeprom env.crc16_update env.stack
              (initial pins modes w'.sketch.eeprom) in
          (q.state ≡ w.net.buffer (off + k)) × (q.target_ip ≡ w.sketch.target_ip))
unfolding state_parse_callback syslog_ram syslog_bytes sync_leds initial save_state_to_eeprom
state_parse_callback_lem env crc16 off len k w pins modes h b (b0, b1, b2, b3) =
    let again =
      read-save crc16 env.stack synced (initial pins modes stored.eeprom) (b, b0, b1, b2, b3)
        refl in
    (
      record w {
        net =
            send_udp (message env.flash_text) (u8 (length (message env.flash_text))) 514 all_ones
              514 w.net;
        sketch = record stored { locked = false };
      },
      rw (state_parse_callback, h) refl,
      refl,
      refl,
      (sync_leds-Shows (record w.sketch { state = w.net.buffer (off + k) })).0,
      (again.0, again.1),
    )
  where
    synced : Sketch
    synced = sync_leds (record w.sketch { state = w.net.buffer (off + k) })

    stored : Sketch
    stored = save_state_to_eeprom env.crc16_update env.stack synced
