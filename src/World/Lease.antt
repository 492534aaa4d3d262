-- ===== src/World/Lease.antt =====
-- DhcpStateMachine of libraries/ethercard/dhcp.cpp.
use ether_house.Base.{ℕ, Bool, true, false, ◌+◌, not, ◌==◌, ltb, leb, if◌then◌else◌, u32}
use ether_house.Net.Client.{set_gw_ip}
use ether_house.Net.Dhcp.{
  DhcpState, init, selecting, requesting, bound, renewing, is_bound, dhcp_offer, dhcp_ack,
  dhcp_request_timeout, send_dhcp_message, process_dhcp_offer, dhcp_received_message_type,
}
use ether_house.Sketch.{all_zeros}
use ether_house.World.{Env, M, ◌>>=◌, ◌>>◌, done, when, on_net, on_dhcp, millis, returns}

abbrev pub send_message : M (Unit {0})
send_message w = on_net (send_dhcp_message w.dhcp) w

abbrev pub set_state : DhcpState → M (Unit {0})
set_state s = on_dhcp (λ d. record d { state = s })

-- enableBroadcast and disableBroadcast of the driver.
abbrev pub enable_broadcasts : Bool → M (Unit {0})
enable_broadcasts temporary w = returns tt (record w {
  broadcast_filter = true;
  broadcast_enabled = if temporary then w.broadcast_enabled else true;
})

abbrev pub disable_broadcasts : Bool → M (Unit {0})
disable_broadcasts temporary w =
    let enabled = (if temporary then w.broadcast_enabled else false) in
    returns tt (record w {
      broadcast_filter = if enabled then w.broadcast_filter else false;
      broadcast_enabled = enabled;
    })

module _ (env : Env) where
  -- `dhcpState = s; stateTimer = millis();`.
  abbrev pub enter : DhcpState → M (Unit {0})
  enter s = set_state s >> millis env >>= λ now. on_dhcp (λ d. record d { state_timer = now })

  unfoldable pub renew_when_due : M (Unit {0})
  renew_when_due = millis env >>= λ now.
      when (λ w. leb (u32 (w.dhcp.lease_start + w.dhcp.lease_time)) now)
        (send_message >> enter renewing)

  unfoldable pub discover : M (Unit {0})
  discover = millis env >>= λ now.
      on_dhcp (λ d. record d { current_xid = now })
      >> on_net (λ n. record n { myip = all_zeros })
      >> send_message
      >> enable_broadcasts true
      >> enter selecting

  abbrev pub give_up_when_due : M (Unit {0})
  give_up_when_due = millis env >>= λ now.
      when (λ w. ltb (u32 (w.dhcp.state_timer + dhcp_request_timeout)) now) (set_state init)

  abbrev pub take_offer : ℕ → M (Unit {0})
  take_offer len w =
      let (n, d) = process_dhcp_offer len (w.net, w.dhcp) in
      returns tt (record w { net = n; dhcp = d })

  unfoldable pub await_offer : ℕ → M (Unit {0})
  await_offer len w =
      if dhcp_received_message_type w.dhcp len dhcp_offer w.net.buffer
      then (take_offer len >> send_message >> enter requesting) w
      else give_up_when_due w

  unfoldable pub await_ack : ℕ → M (Unit {0})
  await_ack len w =
      if dhcp_received_message_type w.dhcp len dhcp_ack w.net.buffer
      then (disable_broadcasts true >> millis env >>= λ now.
            on_dhcp (λ d. record d { lease_start = now })
            >> on_net (λ n. if n.gwip.a0 == 0 then n else set_gw_ip n.gwip n)
            >> set_state bound)
          w
      else give_up_when_due w

  abbrev pub by_state : DhcpState → ℕ → M (Unit {0})
  by_state bound len = renew_when_due
  by_state init len = discover
  by_state selecting len = await_offer len
  by_state requesting len = await_ack len
  by_state renewing len = await_ack len

  -- DHCPDEBUG is defined, so that the clock is read for a message on the serial port.
  unfoldable pub dhcp_state_machine : ℕ → M (Unit {0})
  dhcp_state_machine len =
      when (λ w. not (is_bound w.dhcp.state)) (millis env >>= λ now. done) >> λ w.
      by_state w.dhcp.state len w
