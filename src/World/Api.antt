-- ===== src/World/Api.antt =====
-- client_firmware/api_client.ino, the toggles of lights.ino, sniffer.ino and ping_sweep.ino.
use Prim.Native.String.{String}
use ether_house.Base.{
  ℕ, zero, suc, ◌+◌, ◌-◌, ◌^◌, ◌==◌, Bool, true, false, not, ltb, if◌then◌else◌, none, some, Ip,
  ip_at, mac_at, ip_eqb, u32,
}
use ether_house.Net.{
  BrowserCallback, no_browser, macs_parse, state_parse, api_set, Url, url_target_mac, url_state,
  url_on, url_off,
}
use ether_house.Net.Client.{browse_url, force_dest_mac, client_waiting_gw, client_waiting_dest_addr}
use ether_house.Net.Lan.{is_lan, is_ip_local}
use ether_house.Net.Sniffer.{sniffer_listen_for_mac}
use ether_house.Net.Frames.Requests.{client_icmp_request}
use ether_house.Http.{find_response}
use ether_house.Sketch.{my_id, http_timeout}
use ether_house.Sketch.Lights.{bit_read, bit_write, sync_leds}
use ether_house.Sketch.Eeprom.{save_state_to_eeprom}
use ether_house.World.{
  Env, M, ◌>>=◌, ◌>>◌, done, when, on_net, on_sketch, millis, packet_receive, reboots, unfinished,
}
use ether_house.World.Packets.{packet_loop}
use ether_house.World.Syslog.{syslog, syslog_ram, reboot, reboot_after_delay}

abbrev pub same_bit : Bool → Bool → Bool
same_bit a b = if a then b else not b

unfoldable pub validate_dhcp : M (Unit {0})
validate_dhcp = when (λ w. not (is_ip_local w.net w.net.myip)) (syslog "Invalid dhcp" >> reboot)

abbrev pub set_locked : Bool → M (Unit {0})
set_locked value = on_sketch (λ s. record s { locked = value })

module _ (env : Env) where
  unfoldable pub macs_parse_callback : ℕ → ℕ → M (Unit {0})
  macs_parse_callback off len w = elim (find_response w.net.buffer off len) [
    | none ↦ set_locked false w
    | some seek_location ↦
        let mac = mac_at w.net.buffer (off + seek_location) in
        (on_sketch (λ s. record s { target_mac = mac })
            >> on_net (sniffer_listen_for_mac mac)
            >> set_locked false)
          w
  ]

  unfoldable pub state_parse_callback : ℕ → ℕ → M (Unit {0})
  state_parse_callback off len w = elim (find_response w.net.buffer off len) [
    | none ↦ set_locked false w
    | some seek_location ↦
        (on_sketch (λ s. record s { state = w.net.buffer (off + seek_location) })
            >> syslog_ram env
            >> on_sketch sync_leds
            >> on_sketch (save_state_to_eeprom env.crc16_update env.stack)
            >> set_locked false)
          w
  ]

  unfoldable pub api_set_callback : ℕ → ℕ → M (Unit {0})
  api_set_callback off len = set_locked false

  -- A call through `client_browser_cb`; no callback looks at the status. A null pointer is the reset
  -- vector.
  unfoldable pub browser : BrowserCallback → ℕ → ℕ → ℕ → M (Unit {0})
  browser no_browser status off len w = reboots w
  browser macs_parse status off len w = macs_parse_callback off len w
  browser state_parse status off len w = state_parse_callback off len w
  browser api_set status off len w = api_set_callback off len w

-- `poll` is ether.packetLoop(ether.packetReceive()).
module _ (env : Env) (poll : M (Unit {0})) where
  -- while (millis() < timer)
  unfoldable pub wait_until : ℕ → ℕ → M (Unit {0})
  wait_until zero timer = λ w. unfinished w
  wait_until (suc left) timer =
      let rest = wait_until left timer in
      millis env >>= λ now. when (λ _. ltb now timer) (poll >> rest)

  unfoldable pub wait_for_tcp : M (Unit {0})
  wait_for_tcp = millis env >>= λ now. wait_until env.rounds (u32 (now + http_timeout))

  -- while (locked)
  unfoldable pub wait_unlocked : M (Unit {0}) → ℕ → ℕ → M (Unit {0})
  wait_unlocked late zero timer = when (λ v. v.sketch.locked) (λ v. unfinished v)
  wait_unlocked late (suc left) timer =
      let rest = wait_unlocked late left timer in
      when (λ v. v.sketch.locked)
        (poll >> millis env >>= λ now. when (λ _. ltb timer now) late >> rest)

  -- The four calls of the server differ in the address, the callback, their messages and what a
  -- timeout does.
  unfoldable pub call_server : Url → BrowserCallback → String → M (Unit {0}) → M (Unit {0})
  call_server url callback logstring late =
      when (λ w. not w.sketch.locked)
        (validate_dhcp
          >> syslog logstring
          >> (λ w. on_net (λ n. browse_url url callback (record n { hisip = w.sketch.api_ip })) w)
          >> millis env
          >>= λ now.
              set_locked true
              >> wait_unlocked late env.rounds (u32 (now + http_timeout))
              >> wait_for_tcp)

  unfoldable pub get_target_mac : M (Unit {0})
  get_target_mac =
      call_server url_target_mac macs_parse "Retrieving target MAC address from server..."
        (syslog "Timeout occured when trying to get mac" >> reboot)

  unfoldable pub get_remote_state : M (Unit {0})
  get_remote_state =
      call_server url_state state_parse "Syncing State from Server."
        (syslog "Timeout occured when trying to fetch state" >> reboot_after_delay)

  unfoldable pub api_set_off : M (Unit {0})
  api_set_off =
      call_server url_off api_set "Sending OFF for my house: 0"
        (syslog "Timeout occured when trying to set on/off" >> reboot_after_delay)

  unfoldable pub api_set_on : M (Unit {0})
  api_set_on =
      call_server url_on api_set "Sending ON for my house: 0"
        (syslog "Timeout occured when trying to set on/off" >> reboot_after_delay)

  abbrev set_house : ℕ → Bool → M (Unit {0})
  set_house house value = on_sketch (λ s. record s { state = bit_write s.state house value })

  unfoldable pub toggle_house : ℕ → Bool → M (Unit {0})
  toggle_house house value =
      when (λ w. not (same_bit (bit_read w.sketch.state house) value))
        (set_house house value
          >> on_sketch sync_leds
          >> when (λ _. house == my_id) (if value then api_set_on else api_set_off))

  unfoldable pub turn_my_house_on : M (Unit {0})
  turn_my_house_on = toggle_house my_id true

  unfoldable pub turn_my_house_off : M (Unit {0})
  turn_my_house_off = toggle_house my_id false

  unfoldable pub turn_on : ℕ → M (Unit {0})
  turn_on house = toggle_house house true

  unfoldable pub turn_off : ℕ → M (Unit {0})
  turn_off house = toggle_house house false

  -- `src_ip` points into the packet buffer, which is read after turn_my_house_on.
  unfoldable pub store_target : ℕ → M (Unit {0})
  store_target src_ip w =
      let ip = ip_at w.net.buffer src_ip in
      if is_ip_local w.net ip
      then (if ip_eqb ip w.sketch.target_ip
          then done w
          else (on_sketch (λ s. record s { target_ip = ip })
                >> on_sketch (save_state_to_eeprom env.crc16_update env.stack))
              w)
      else done w

  unfoldable pub packet_sniffer_callback : ℕ → M (Unit {0})
  packet_sniffer_callback src_ip =
      when (λ w. not w.sketch.sniffer_nested)
        (on_sketch (λ s. record s { sniffer_nested = true }) >> millis env >>= λ now.
          on_sketch (λ s. record s { absense_timer = now })
          >> turn_my_house_on
          >> store_target src_ip
          >> on_sketch (λ s. record s { sniffer_nested = false }))

  -- selectAndArpDestAddr of tcpip.cpp.
  unfoldable pub select_dest : Ip → M (Unit {0})
  select_dest destip = on_net (λ n.
      if ip_eqb n.hisip destip
      then n
      else record n { hisip = destip; has_dest_mac = false; waiting_for_dest_mac = false })

  unfoldable pub wait_for_mac : Bool → ℕ → ℕ → ℕ → M (Unit {0})
  wait_for_mac local zero start timeout = λ w. unfinished w
  wait_for_mac local (suc left) start timeout =
      let rest = wait_for_mac local left start timeout in
      millis env >>= λ now.
      when (λ w. ltb (u32 (now + 2 ^ 32 - start)) timeout)
        (when (λ w. if local then client_waiting_dest_addr w.net else client_waiting_gw w.net)
          (poll >> rest))

  unfoldable pub select_and_arp_dest_addr : Ip → ℕ → M (Unit {0})
  select_and_arp_dest_addr destip timeout = millis env >>= λ start w.
      let local = is_lan w.net w.net.myip destip in
      (when (λ _. local) (select_dest destip) >> wait_for_mac local env.rounds start timeout) w

  -- The loop of ping_sweep at i, with the rounds left.
  unfoldable pub sweep_from : ℕ → ℕ → Ip → M (Unit {0})
  sweep_from zero i subnet = done
  sweep_from (suc left) i subnet =
      let ip = record subnet { a3 = i } in
      let rest = sweep_from left (i + 1) subnet in
      when (λ w. not (ip_eqb ip w.net.myip)) (select_and_arp_dest_addr ip 5) >> rest

  unfoldable pub ping_sweep : M (Unit {0})
  ping_sweep w = (syslog "Starting Ping Sweep" >> sweep_from 254 1 w.net.myip) w

  unfoldable pub ping_target : M (Unit {0})
  ping_target w =
      if is_ip_local w.net w.sketch.target_ip
      then on_net
          (λ n. client_icmp_request w.sketch.target_ip (force_dest_mac w.sketch.target_mac n)) w
      else done w

-- The sniffer's callback polls itself when it calls the server; the calls within that call return
-- at once, since `sniffer_nested` is set.
unfoldable pub poll : Env → ℕ → M (Unit {0})
poll env zero = λ w. unfinished w
poll env (suc depth) =
    let inner = poll env depth in
    packet_receive env >>= λ plen.
    packet_loop env (browser env) (packet_sniffer_callback env inner) plen >>= λ _. done
