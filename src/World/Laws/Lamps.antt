-- ===== src/World/Laws/Lamps.antt =====
-- The pins show the state, whatever happens: World/Api.
use ether_house.Base.{
  ℕ, zero, suc, ◌+◌, ◌<◌, ◌≡◌, refl, Bool, true, not, ◌==◌, arith, all_below, Option-cases, inl,
  inr, if◌then◌else◌,
}
use ether_house.Net.{
  BrowserCallback, no_browser, macs_parse, state_parse, api_set, url_state, url_target_mac,
}
use ether_house.Sketch.{Sketch, num_houses, my_id}
use ether_house.Sketch.Lights.{bit_read, bit_write, level, sync_leds}
use ether_house.Sketch.Lights.Laws.{sync_leds-Shows}
use ether_house.Http.{find_response}
use ether_house.Sketch.Eeprom.{save_state_to_eeprom}
use ether_house.World.{when, Env, M, ◌>>◌, on_sketch}
use ether_house.World.Syslog.{syslog, syslog_bytes, syslog_ram, reboot}
use ether_house.World.Api.{
  macs_parse_callback, state_parse_callback, api_set_callback, browser, get_target_mac,
  get_remote_state, api_set_off, api_set_on, toggle_house, same_bit,
}
use ether_house.World.Laws.Server.{call_server-Keeps, late-Keeps, api-Keeps}
use ether_house.World.Laws.Keeps.{Keeps, then-Keeps, when-Keeps}

-- Each of the pins 2 to 9 has the level of its bit of `state`.
abbrev pub shown : Sketch → Bool
shown s = all_below num_houses (λ i. s.pins (i + 2) == level (bit_read s.state i))

all_below_complete :
    (bound : ℕ) (test : ℕ → Bool)
    → ((i : ℕ) → i < bound → test i ≡ true)
    → all_below bound test ≡ true
unfolding all_below
all_below_complete zero test h = refl
all_below_complete (suc bound) test h =
    ground (arith, h bound (omega arith), all_below_complete bound test (λ i l. h i (omega arith)))

pub shown-sync_leds : (s : Sketch) → shown (sync_leds s) ≡ true
shown-sync_leds s =
    all_below_complete num_houses _ (λ i l. ground (arith, (sync_leds-Shows s).0 i l))

module _ (env : Env) where
  macs_parse-Keeps : (off len : ℕ) → Keeps shown (macs_parse_callback env off len)
  unfolding macs_parse_callback
  macs_parse-Keeps off len w p = elim (Option-cases (find_response w.net.buffer off len)) [
    | inl e ↦ rw (macs_parse_callback, e) p
    | inr (k, e) ↦ rw (macs_parse_callback, e) p
  ]

  state_parse-Keeps : (off len : ℕ) → Keeps shown (state_parse_callback env off len)
  unfolding state_parse_callback syslog_ram syslog_bytes save_state_to_eeprom
  state_parse-Keeps off len w p = elim (Option-cases (find_response w.net.buffer off len)) [
    | inl e ↦ rw (state_parse_callback, e) p
    | inr (k, e) ↦
        rw (state_parse_callback, e)
          (shown-sync_leds (record w.sketch { state = w.net.buffer (off + k) }))
  ]

  pub browser-Keeps :
      (cb : BrowserCallback) (status off len : ℕ) → Keeps shown (browser env cb status off len)
  unfolding browser api_set_callback
  browser-Keeps no_browser status off len w p = p
  browser-Keeps macs_parse status off len w p = macs_parse-Keeps off len w p
  browser-Keeps state_parse status off len w p = state_parse-Keeps off len w p
  browser-Keeps api_set status off len w p = p

  module _ (poll : M (Unit {0})) (poll_keeps : Keeps shown poll) where
    pub get_remote_state-Keeps : Keeps shown (get_remote_state env poll)
    unfolding get_remote_state
    get_remote_state-Keeps =
        call_server-Keeps shown (λ s value p. p) env poll poll_keeps _
          (late-Keeps shown (λ s value p. p) env poll poll_keeps _) url_state state_parse _

    pub get_target_mac-Keeps : Keeps shown (get_target_mac env poll)
    unfolding get_target_mac reboot syslog syslog_bytes
    get_target_mac-Keeps =
        call_server-Keeps shown (λ s value p. p) env poll poll_keeps
          (syslog "Timeout occured when trying to get mac" >> reboot) (λ w p. p) url_target_mac
          macs_parse _

    pub toggle_house-Keeps :
        (house : ℕ) (value : Bool) → Keeps shown (toggle_house env poll house value)
    unfolding toggle_house
    toggle_house-Keeps house value =
        when-Keeps shown (λ w. not (same_bit (bit_read w.sketch.state house) value))
          (changed >> told)
          (then-Keeps shown changed told
            (λ w p.
              shown-sync_leds (record w.sketch { state = bit_write w.sketch.state house value }))
            (when-Keeps shown (λ _. house == my_id)
              (if value then api_set_on env poll else api_set_off env poll)
              (api-Keeps shown (λ s value p. p) env poll poll_keeps value)))
      where
        changed : M (Unit {0})
        changed =
            on_sketch (λ s. record s { state = bit_write s.state house value })
            >> on_sketch sync_leds

        told : M (Unit {0})
        told =
            when (λ _. house == my_id) (if value then api_set_on env poll else api_set_off env poll)
