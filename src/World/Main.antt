-- ===== src/World/Main.antt =====
-- setup and loop of client_firmware/client_firmware.ino. A timer holds the bits of a `long`, which
-- is compared with millis() as an unsigned number of 32 bits.
use ether_house.Base.{ℕ, ◌+◌, ◌-◌, ◌^◌, Bool, not, ltb, if◌then◌else◌, Mac, ip_eqb, u32}
use ether_house.Sketch.{
  Sketch, all_ones, my_id, pinger_interval, absense_timeout, pingsweep_interval_find_target,
  pingsweep_interval_rescan, sync_interval, reboot_interval,
}
use ether_house.Sketch.Lights.{bit_read, setup_pins}
use ether_house.Sketch.Eeprom.{save_state_to_eeprom, read_state_from_eeprom}
use ether_house.World.{when, Env, M, ◌>>=◌, ◌>>◌, on_sketch, millis}
use ether_house.World.Syslog.{syslog, reboot, reboot_after_delay}
use ether_house.World.Setup.{begin, dhcp_setup, dns_lookup}
use ether_house.World.Api.{
  get_target_mac, get_remote_state, turn_my_house_off, ping_sweep, ping_target, poll,
}

-- The firmware polls twice deep, as the sniffer's callback does not nest.
abbrev pub depth : ℕ
depth = 2

-- The six bytes of my_mac.
abbrev pub my_mac : Mac
my_mac = record { m0 = 0x74; m1 = 0x69; m2 = 0x69; m3 = 0x2d; m4 = 0x30; m5 = my_id }

-- What setup does when a call of the library fails.
abbrev pub or_else : M Bool → M (Unit {0}) → M (Unit {0})
or_else call late = call >>= λ ok. when (λ _. not ok) late

-- `millis() > timer + interval`.
abbrev pub due : ℕ → ℕ → ℕ → Bool
due now timer interval = ltb (u32 (timer + interval)) now

module _ (env : Env) where
  abbrev pub packets : M (Unit {0})
  packets = poll env depth

  unfoldable pub start_timers : M (Unit {0})
  start_timers = millis env >>= λ t0.
      on_sketch (λ s. record s { pinger_timer = t0 }) >> millis env >>= λ t1.
      on_sketch (λ s. record s { absense_timer = t1 }) >> millis env >>= λ t2.
      on_sketch
        (λ s. record s { pingsweep_timer = u32 (t2 + 2 ^ 32 - pingsweep_interval_find_target) })
      >> millis env
      >>= λ t3. on_sketch (λ s. record s { sync_timer = t3 })

  unfoldable pub setup : M (Unit {0})
  setup =
      on_sketch setup_pins
      >> on_sketch (read_state_from_eeprom env.crc16_update env.stack)
      >> or_else (begin env my_mac) reboot
      >> or_else (dhcp_setup env) (syslog "DHCP failed" >> reboot)
      >> or_else (dns_lookup env) (syslog "DNS failed" >> reboot_after_delay)
      >> (λ w. on_sketch (λ s. record s { api_ip = w.net.hisip }) w)
      >> syslog "etherhouse0 booted!"
      >> get_target_mac env packets
      >> get_remote_state env packets
      >> start_timers

  unfoldable pub ping_when_due : M (Unit {0})
  ping_when_due = millis env >>= λ t0.
      when (λ w. due t0 w.sketch.pinger_timer pinger_interval)
        (millis env >>= λ t1.
          on_sketch (λ s. record s { pinger_timer = t1 }) >> millis env >>= λ t2.
          when (λ w. due t2 w.sketch.absense_timer pinger_interval) (ping_target env packets))

  -- `bitRead(state, MY_ID) && (millis() > absense_timer + ABSENSE_TIMEOUT)`, then `m`.
  unfoldable pub when_absent : M (Unit {0}) → M (Unit {0})
  when_absent m =
      when (λ w. bit_read w.sketch.state my_id)
        (millis env >>= λ now. when (λ w. due now w.sketch.absense_timer absense_timeout) m)

  unfoldable pub forget_target : M (Unit {0})
  forget_target =
      on_sketch (λ s. record s { target_ip = all_ones })
      >> on_sketch (save_state_to_eeprom env.crc16_update env.stack)

  unfoldable pub time_out : M (Unit {0})
  time_out = when_absent (
      millis env >>= λ now.
      on_sketch (λ s. record s { pingsweep_timer = now })
      >> ping_sweep env packets
      >> when_absent (
          syslog "Absense timeout of target. Turning off light 0"
          >> turn_my_house_off env packets
          >> forget_target))

  abbrev pub pingsweep_interval : Sketch → ℕ
  pingsweep_interval s =
      if ip_eqb s.target_ip all_ones
      then pingsweep_interval_find_target
      else pingsweep_interval_rescan

  unfoldable pub sweep_when_due : M (Unit {0})
  sweep_when_due = millis env >>= λ t0.
      when (λ w. due t0 w.sketch.pingsweep_timer (pingsweep_interval w.sketch))
        (millis env >>= λ t1.
          on_sketch (λ s. record s { pingsweep_timer = t1 }) >> ping_sweep env packets)

  unfoldable pub sync_when_due : M (Unit {0})
  sync_when_due = millis env >>= λ t0.
      when (λ w. due t0 w.sketch.sync_timer sync_interval)
        (millis env >>= λ t1.
          on_sketch (λ s. record s { sync_timer = t1 }) >> get_remote_state env packets)

  unfoldable pub reboot_when_due : M (Unit {0})
  reboot_when_due = millis env >>= λ now.
      when (λ _. ltb reboot_interval now) (syslog "Rebooting after 24 hours" >> reboot)

  unfoldable pub loop : M (Unit {0})
  loop = packets >> ping_when_due >> time_out >> sweep_when_due >> sync_when_due >> reboot_when_due
