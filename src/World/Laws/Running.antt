-- ===== src/World/Laws/Running.antt =====
-- The pins show the state, whatever happens: the sniffer's callback, polling and loop.
use Prim.Native.String.{String}
use ether_house.Base.{
  ℕ, zero, suc, ◌+◌, ◌-◌, ◌^◌, ◌≡◌, Bool, true, false, not, if◌then◌else◌, arith, Ip, ip_eqb, u32,
  ltb,
}
use ether_house.Net.Lan.{is_lan}
use ether_house.Net.Client.{client_waiting_gw, client_waiting_dest_addr}
use ether_house.Sketch.{my_id, pinger_interval, absense_timeout, sync_interval}
use ether_house.Sketch.Lights.{bit_read}
use ether_house.Sketch.Eeprom.{save_state_to_eeprom}
use ether_house.World.{
  when, Env, World, M, ◌>>=◌, ◌>>◌, done, on_sketch, millis, packet_receive, final,
}
use ether_house.World.Packets.{packet_loop}
use ether_house.World.Syslog.{syslog, syslog_bytes, reboot}
use ether_house.World.Api.{
  browser, toggle_house, turn_my_house_on, turn_my_house_off, store_target, packet_sniffer_callback,
  select_dest, wait_for_mac, select_and_arp_dest_addr, sweep_from, ping_sweep, ping_target,
  get_remote_state, poll,
}
use ether_house.World.Main.{
  depth, due, packets, ping_when_due, when_absent, forget_target, time_out, pingsweep_interval,
  sweep_when_due, sync_when_due, reboot_when_due, loop,
}
use ether_house.World.Laws.Keeps.{Keeps, bind-Keeps, then-Keeps, when-Keeps, packet_loop-Keeps}
use ether_house.World.Laws.Lamps.{shown, browser-Keeps, toggle_house-Keeps, get_remote_state-Keeps}

-- A look at the clock, and what follows.
clock-Keeps :
    (env : Env) (f : ℕ → M (Unit {0}))
    → ((now : ℕ) → Keeps shown (f now))
    → Keeps shown (millis env >>= f)
clock-Keeps env f h = bind-Keeps shown (millis env) f (λ w p. p) h

module _ (env : Env) where
  module _ (poll : M (Unit {0})) (poll_keeps : Keeps shown poll) where
    store_target-Keeps : (at : ℕ) → Keeps shown (store_target env poll at)
    unfolding store_target save_state_to_eeprom
    store_target-Keeps at w p = ground (arith, p)

    packet_sniffer_callback-Keeps : (at : ℕ) → Keeps shown (packet_sniffer_callback env poll at)
    unfolding packet_sniffer_callback turn_my_house_on
    packet_sniffer_callback-Keeps at =
        when-Keeps shown (λ w. not w.sketch.sniffer_nested) (nest >> millis env >>= heard)
          (bind-Keeps shown (nest >> millis env) heard (λ w p. p) heard_keeps)
      where
        nest : M (Unit {0})
        nest = on_sketch (λ s. record s { sniffer_nested = true })

        leave : M (Unit {0})
        leave = on_sketch (λ s. record s { sniffer_nested = false })

        note : ℕ → M (Unit {0})
        note now = on_sketch (λ s. record s { absense_timer = now })

        heard : ℕ → M (Unit {0})
        heard now =
            note now >> toggle_house env poll my_id true >> store_target env poll at >> leave

        heard_keeps : (now : ℕ) → Keeps shown (heard now)
        heard_keeps now =
            then-Keeps shown
              (note now >> toggle_house env poll my_id true >> store_target env poll at) leave
              (then-Keeps shown (note now >> toggle_house env poll my_id true)
                (store_target env poll at)
                (then-Keeps shown (note now) (toggle_house env poll my_id true) (λ w p. p)
                  (toggle_house-Keeps env poll poll_keeps my_id true))
                (store_target-Keeps at))
              (λ w p. p)

    wait_for_mac-Keeps :
        (local : Bool) (left start timeout : ℕ)
        → Keeps shown (wait_for_mac env poll local left start timeout)
    unfolding wait_for_mac
    wait_for_mac-Keeps local zero start timeout = λ w p. p
    wait_for_mac-Keeps local (suc left) start timeout = clock-Keeps env check (λ now.
        when-Keeps shown (λ _. ltb (u32 (now + 2 ^ 32 - start)) timeout) (when waiting more)
          (when-Keeps shown waiting more (
            then-Keeps shown poll (wait_for_mac env poll local left start timeout) poll_keeps
              (wait_for_mac-Keeps local left start timeout))))
      where
        waiting : World → Bool
        waiting w = if local then client_waiting_dest_addr w.net else client_waiting_gw w.net

        more : M (Unit {0})
        more = poll >> wait_for_mac env poll local left start timeout

        check : ℕ → M (Unit {0})
        check now = when (λ _. ltb (u32 (now + 2 ^ 32 - start)) timeout) (when waiting more)

    select-Keeps :
        (ip : Ip) (timeout : ℕ) → Keeps shown (select_and_arp_dest_addr env poll ip timeout)
    unfolding select_and_arp_dest_addr select_dest
    select-Keeps ip timeout = clock-Keeps env chosen (λ start w p.
        let local = is_lan w.net w.net.myip ip in
        then-Keeps shown (when (λ _. local) (select_dest env poll ip))
          (wait_for_mac env poll local env.rounds start timeout)
          (when-Keeps shown (λ _. local) (select_dest env poll ip) (λ w p. p))
          (wait_for_mac-Keeps local env.rounds start timeout) w p)
      where
        chosen : ℕ → M (Unit {0})
        chosen start w =
            let local = is_lan w.net w.net.myip ip in
            (when (λ _. local) (select_dest env poll ip)
                >> wait_for_mac env poll local env.rounds start timeout)
              w

    sweep_from-Keeps : (left i : ℕ) (subnet : Ip) → Keeps shown (sweep_from env poll left i subnet)
    unfolding sweep_from
    sweep_from-Keeps zero i subnet = λ w p. p
    sweep_from-Keeps (suc left) i subnet =
        let ip = record subnet { a3 = i } in
        then-Keeps shown
          (when (λ w. not (ip_eqb ip w.net.myip)) (select_and_arp_dest_addr env poll ip 5))
          (sweep_from env poll left (i + 1) subnet)
          (when-Keeps shown (λ w. not (ip_eqb ip w.net.myip))
            (select_and_arp_dest_addr env poll ip 5) (select-Keeps ip 5))
          (sweep_from-Keeps left (i + 1) subnet)

    ping_sweep-Keeps : Keeps shown (ping_sweep env poll)
    unfolding ping_sweep syslog syslog_bytes
    ping_sweep-Keeps w p =
        then-Keeps shown (syslog "Starting Ping Sweep") (sweep_from env poll 254 1 w.net.myip)
          (λ w p. p) (sweep_from-Keeps 254 1 w.net.myip) w p

    ping_target-Keeps : Keeps shown (ping_target env poll)
    unfolding ping_target
    ping_target-Keeps w p = ground (arith, p)

  poll-Keeps : (depth : ℕ) → Keeps shown (poll env depth)
  unfolding poll
  poll-Keeps zero = λ w p. p
  poll-Keeps (suc depth) =
      bind-Keeps shown (packet_receive env >>= handle) (λ _. done)
        (bind-Keeps shown (packet_receive env) handle (λ w p. p)
          (packet_loop-Keeps shown env (browser env) (packet_sniffer_callback env (poll env depth))
            (browser-Keeps env)
            (packet_sniffer_callback-Keeps (poll env depth) (poll-Keeps depth))))
        (λ _ w p. p)
    where
      handle : ℕ → M ℕ
      handle = packet_loop env (browser env) (packet_sniffer_callback env (poll env depth))

  ping_when_due-Keeps : Keeps shown (ping_when_due env)
  unfolding ping_when_due
  ping_when_due-Keeps = clock-Keeps env first (λ t0.
      when-Keeps shown (λ w. due t0 w.sketch.pinger_timer pinger_interval) (millis env >>= reset)
        (clock-Keeps env reset (λ t1.
          bind-Keeps shown (timer t1 >> millis env) ping (λ w p. p)
            (λ t2.
              when-Keeps shown (λ w. due t2 w.sketch.absense_timer pinger_interval)
                (ping_target env (packets env))
                (ping_target-Keeps (packets env) (poll-Keeps depth))))))
    where
      timer : ℕ → M (Unit {0})
      timer t1 = on_sketch (λ s. record s { pinger_timer = t1 })

      ping : ℕ → M (Unit {0})
      ping t2 =
          when (λ w. due t2 w.sketch.absense_timer pinger_interval) (ping_target env (packets env))

      reset : ℕ → M (Unit {0})
      reset t1 = timer t1 >> millis env >>= ping

      first : ℕ → M (Unit {0})
      first t0 = when (λ w. due t0 w.sketch.pinger_timer pinger_interval) (millis env >>= reset)

  when_absent-Keeps : (m : M (Unit {0})) → Keeps shown m → Keeps shown (when_absent env m)
  unfolding when_absent
  when_absent-Keeps m h =
      when-Keeps shown (λ w. bit_read w.sketch.state my_id) (millis env >>= check)
        (clock-Keeps env check
          (λ now. when-Keeps shown (λ w. due now w.sketch.absense_timer absense_timeout) m h))
    where
      check : ℕ → M (Unit {0})
      check now = when (λ w. due now w.sketch.absense_timer absense_timeout) m

  -- A timer is set, and then the network is swept.
  abbrev sweep : ℕ → M (Unit {0})
  sweep now = on_sketch (λ s. record s { pingsweep_timer = now }) >> ping_sweep env (packets env)

  sweep-Keeps : (now : ℕ) → Keeps shown (sweep now)
  sweep-Keeps now =
      then-Keeps shown (on_sketch (λ s. record s { pingsweep_timer = now }))
        (ping_sweep env (packets env)) (λ w p. p)
        (ping_sweep-Keeps (packets env) (poll-Keeps depth))

  turned_off-Keeps :
      (text : String)
      → Keeps shown (syslog text >> turn_my_house_off env (packets env) >> forget_target env)
  unfolding turn_my_house_off forget_target save_state_to_eeprom syslog syslog_bytes
  turned_off-Keeps text =
      then-Keeps shown (syslog text >> toggle_house env (packets env) my_id false)
        (forget_target env)
        (then-Keeps shown (syslog text) (toggle_house env (packets env) my_id false) (λ w p. p)
          (toggle_house-Keeps env (packets env) (poll-Keeps depth) my_id false))
        (λ w p. p)

  time_out-Keeps : Keeps shown (time_out env)
  unfolding time_out
  time_out-Keeps = when_absent-Keeps (millis env >>= last_try) (
      clock-Keeps env last_try (λ now.
        then-Keeps shown (sweep now) (when_absent env leave) (sweep-Keeps now) (
          when_absent-Keeps leave
            (turned_off-Keeps "Absense timeout of target. Turning off light 0"))))
    where
      leave : M (Unit {0})
      leave =
          syslog "Absense timeout of target. Turning off light 0"
          >> turn_my_house_off env (packets env)
          >> forget_target env

      last_try : ℕ → M (Unit {0})
      last_try now = sweep now >> when_absent env leave

  sweep_when_due-Keeps : Keeps shown (sweep_when_due env)
  unfolding sweep_when_due
  sweep_when_due-Keeps = clock-Keeps env first (λ t0.
      when-Keeps shown (λ w. due t0 w.sketch.pingsweep_timer (pingsweep_interval env w.sketch))
        (millis env >>= sweep) (clock-Keeps env sweep sweep-Keeps))
    where
      first : ℕ → M (Unit {0})
      first t0 =
          when (λ w. due t0 w.sketch.pingsweep_timer (pingsweep_interval env w.sketch))
            (millis env >>= sweep)

  sync_when_due-Keeps : Keeps shown (sync_when_due env)
  unfolding sync_when_due
  sync_when_due-Keeps = clock-Keeps env first (λ t0.
      when-Keeps shown (λ w. due t0 w.sketch.sync_timer sync_interval) (millis env >>= sync)
        (clock-Keeps env sync (λ t1.
          then-Keeps shown (on_sketch (λ s. record s { sync_timer = t1 }))
            (get_remote_state env (packets env)) (λ w p. p)
            (get_remote_state-Keeps env (packets env) (poll-Keeps depth)))))
    where
      sync : ℕ → M (Unit {0})
      sync t1 = on_sketch (λ s. record s { sync_timer = t1 }) >> get_remote_state env (packets env)

      first : ℕ → M (Unit {0})
      first t0 = when (λ w. due t0 w.sketch.sync_timer sync_interval) (millis env >>= sync)

  reboot_when_due-Keeps : Keeps shown (reboot_when_due env)
  unfolding reboot_when_due reboot syslog syslog_bytes
  reboot_when_due-Keeps w p = ground (arith, p)

  -- A pass of the main loop keeps the pins of the lamps in step with the state, whatever frames
  -- arrive and whether it returns, resets the program or waits without end.
  pub loop-Keeps : (w : World) → shown w.sketch ≡ true → shown (final (loop env w)).sketch ≡ true
  unfolding loop
  loop-Keeps =
      then-Keeps shown
        (packets env
          >> ping_when_due env
          >> time_out env
          >> sweep_when_due env
          >> sync_when_due env)
        (reboot_when_due env)
        (then-Keeps shown (packets env >> ping_when_due env >> time_out env >> sweep_when_due env)
          (sync_when_due env)
          (then-Keeps shown (packets env >> ping_when_due env >> time_out env) (sweep_when_due env)
            (then-Keeps shown (packets env >> ping_when_due env) (time_out env)
              (then-Keeps shown (packets env) (ping_when_due env) (poll-Keeps depth)
                ping_when_due-Keeps)
              time_out-Keeps)
            sweep_when_due-Keeps)
          sync_when_due-Keeps)
        reboot_when_due-Keeps
