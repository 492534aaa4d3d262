-- ===== src/World/Laws/Nested.antt =====
-- The sniffer's callback does nothing in the polls within it: two levels of polling are all that a
-- run has.
use Prim.Native.String.{String}
use std.Path.{fun_ext}
use ether_house.Base.{
  ℕ, zero, suc, ◌+◌, ◌≡◌, refl, sym, ap, ◌∙◌, Bool, true, false, not, ◌==◌, ltb, if◌then◌else◌, u32,
}
use ether_house.Net.{BrowserCallback, api_set, Url, url_on, url_off}
use ether_house.Net.Client.{browse_url}
use ether_house.Net.Lan.{is_ip_local}
use ether_house.Sketch.{my_id, http_timeout}
use ether_house.Sketch.Lights.{bit_read, bit_write, sync_leds}
use ether_house.World.{
  Env, World, Outcome, returns, unfinished, M, ◌>>=◌, ◌>>◌, when, done, on_net, on_sketch, millis,
  packet_receive, ended,
}
use ether_house.World.Lease.{dhcp_state_machine}
use ether_house.World.Packets.{idle, packet_loop, handle, sniff, dispatch}
use ether_house.World.Syslog.{syslog, syslog_bytes, reboot, reboot_after_delay}
use ether_house.World.Api.{
  validate_dhcp, browser, wait_until, wait_for_tcp, wait_unlocked, call_server, api_set_off,
  api_set_on, toggle_house, same_bit, turn_my_house_on, store_target, packet_sniffer_callback,
  set_locked, poll,
}
use ether_house.World.Laws.Keeps.{
  Keeps, bind-Keeps, then-Keeps, when-Keeps, dhcp-Keeps, handle-Keeps,
}
use ether_house.World.Laws.Agrees.{
  nested, Agrees, kept-Agrees, same_first, bind-Agrees, then-Agrees, when-Agrees,
}
use ether_house.World.Laws.Quiet.{
  browser-nested, callback-nested, callback_quiet, sniff_quiet, dispatch_same,
}

module _ (env : Env) (p q : M (Unit {0})) where
  handle_same :
      (plen : ℕ) (w : World)
      → nested w.sketch ≡ true
      → handle env (browser env) (packet_sniffer_callback env p) plen w
        ≡ handle env (browser env) (packet_sniffer_callback env q) plen w
  unfolding handle
  handle_same plen w h = by_test (plen == 0)
    where
      behind : M (Unit {0}) → M ℕ
      behind r = dispatch env (browser env) (packet_sniffer_callback env r) plen

      quiet :
          (r : M (Unit {0}))
          → (sniff env (browser env) (packet_sniffer_callback env r) plen >> behind r) w
            ≡ behind r w
      quiet r =
          same_first (sniff env (browser env) (packet_sniffer_callback env r) plen) done
            (λ _. behind r) w
            (sniff_quiet env (browser env) (packet_sniffer_callback env r) w
              (λ at. callback_quiet env r at w h) plen)

      by_test :
          (t : Bool)
          → ◌≡◌ {A = Outcome ℕ}
              (if t
                then returns 0 (record w { net = idle (env.link_up w.ticks) w.net })
                else (sniff env (browser env) (packet_sniffer_callback env p) plen >> behind p) w)
              (if t
                then returns 0 (record w { net = idle (env.link_up w.ticks) w.net })
                else (sniff env (browser env) (packet_sniffer_callback env q) plen >> behind q) w)
      by_test true = refl
      by_test false =
          quiet p
          ∙ dispatch_same env (browser env) (packet_sniffer_callback env p)
              (packet_sniffer_callback env q) plen w
          ∙ sym (quiet q)

  handle-Agrees :
      (plen : ℕ)
      → Agrees
          (handle env (browser env) (packet_sniffer_callback env p) plen)
          (handle env (browser env) (packet_sniffer_callback env q) plen)
  handle-Agrees plen w h = (
    handle_same plen w h,
    handle-Keeps nested env (browser env) (packet_sniffer_callback env p) (browser-nested env)
        (callback-nested env p) plen w h,
  )

  packet_loop-Agrees :
      (plen : ℕ)
      → Agrees
          (packet_loop env (browser env) (packet_sniffer_callback env p) plen)
          (packet_loop env (browser env) (packet_sniffer_callback env q) plen)
  unfolding packet_loop
  packet_loop-Agrees plen =
      let dhcp = when (λ w. w.net.using_dhcp) (dhcp_state_machine env plen) in
      then-Agrees dhcp dhcp (handle env (browser env) (packet_sniffer_callback env p) plen)
        (handle env (browser env) (packet_sniffer_callback env q) plen)
        (kept-Agrees dhcp (
          when-Keeps nested (λ w. w.net.using_dhcp) (dhcp_state_machine env plen)
            (dhcp-Keeps nested env plen)))
        (handle-Agrees plen)

poll-Agrees : (env : Env) (d d' : ℕ) → Agrees (poll env (suc d)) (poll env (suc d'))
unfolding poll
poll-Agrees env d d' =
    bind-Agrees (received d) (received d') (λ _. done) (λ _. done)
      (bind-Agrees (packet_receive env) (packet_receive env) (looped d) (looped d')
        (λ w p. (refl, p)) (packet_loop-Agrees env (poll env d) (poll env d')))
      (λ _ w p. (refl, p))
  where
    looped : ℕ → ℕ → M ℕ
    looped k = packet_loop env (browser env) (packet_sniffer_callback env (poll env k))

    received : ℕ → M ℕ
    received k = packet_receive env >>= looped k

module _ (env : Env) (p q : M (Unit {0})) (agree : Agrees p q) where
  wait_until-Agrees :
      (left timer : ℕ) → Agrees (wait_until env p left timer) (wait_until env q left timer)
  unfolding wait_until
  wait_until-Agrees zero timer = λ w h. (refl, h)
  wait_until-Agrees (suc left) timer =
      bind-Agrees (millis env) (millis env)
        (λ now. when (λ _. ltb now timer) (p >> wait_until env p left timer))
        (λ now. when (λ _. ltb now timer) (q >> wait_until env q left timer)) (λ w h. (refl, h))
        (λ now.
          when-Agrees (λ _. ltb now timer) (p >> wait_until env p left timer)
            (q >> wait_until env q left timer)
            (then-Agrees p q (wait_until env p left timer) (wait_until env q left timer) agree
              (wait_until-Agrees left timer)))

  wait_for_tcp-Agrees : Agrees (wait_for_tcp env p) (wait_for_tcp env q)
  unfolding wait_for_tcp
  wait_for_tcp-Agrees =
      bind-Agrees (millis env) (millis env)
        (λ now. wait_until env p env.rounds (u32 (now + http_timeout)))
        (λ now. wait_until env q env.rounds (u32 (now + http_timeout))) (λ w h. (refl, h))
        (λ now. wait_until-Agrees env.rounds (u32 (now + http_timeout)))

  wait_unlocked-Agrees :
      (late : M (Unit {0}))
      → Keeps nested late
      → (left timer : ℕ)
      → Agrees (wait_unlocked env p late left timer) (wait_unlocked env q late left timer)
  unfolding wait_unlocked
  wait_unlocked-Agrees late k zero timer =
      kept-Agrees (when (λ v. v.sketch.locked) (λ v. unfinished v))
        (when-Keeps nested (λ v. v.sketch.locked) (λ v. unfinished v) (λ w h. h))
  wait_unlocked-Agrees late k (suc left) timer =
      when-Agrees (λ v. v.sketch.locked) (p >> millis env >>= check p) (q >> millis env >>= check q)
        (bind-Agrees (p >> millis env) (q >> millis env) (check p) (check q)
          (then-Agrees p q (millis env) (millis env) agree (λ w h. (refl, h)))
          (λ now.
            then-Agrees (when (λ _. ltb timer now) late) (when (λ _. ltb timer now) late)
              (wait_unlocked env p late left timer) (wait_unlocked env q late left timer)
              (kept-Agrees (when (λ _. ltb timer now) late)
                (when-Keeps nested (λ _. ltb timer now) late k))
              (wait_unlocked-Agrees late k left timer)))
    where
      check : M (Unit {0}) → ℕ → M (Unit {0})
      check r now = when (λ _. ltb timer now) late >> wait_unlocked env r late left timer

  call_server-Agrees :
      (url : Url) (cb : BrowserCallback) (log : String) (late : M (Unit {0}))
      → Keeps nested late
      → Agrees (call_server env p url cb log late) (call_server env q url cb log late)
  unfolding call_server validate_dhcp syslog syslog_bytes reboot
  call_server-Agrees url cb log late k =
      when-Agrees (λ w. not w.sketch.locked) (start >>= answered p) (start >>= answered q)
        (bind-Agrees start start (answered p) (answered q)
          (kept-Agrees start (
            bind-Keeps nested (validate_dhcp >> syslog log >> request) (λ _. millis env)
              (then-Keeps nested (validate_dhcp >> syslog log) request
                (then-Keeps nested validate_dhcp (syslog log)
                  (when-Keeps nested (λ w. not (is_ip_local w.net w.net.myip))
                    (syslog "Invalid dhcp" >> reboot) (λ w h. h))
                  (λ w h. h))
                (λ w h. h))
              (λ _ w h. h)))
          (λ now.
            then-Agrees (locking p now) (locking q now) (wait_for_tcp env p) (wait_for_tcp env q)
              (then-Agrees (set_locked true) (set_locked true) (unlocking p now) (unlocking q now)
                (λ w h. (refl, h))
                (wait_unlocked-Agrees late k env.rounds (u32 (now + http_timeout))))
              wait_for_tcp-Agrees))
    where
      request : M (Unit {0})
      request = λ w. on_net (λ n. browse_url url cb (record n { hisip = w.sketch.api_ip })) w

      start : M ℕ
      start = validate_dhcp >> syslog log >> request >> millis env

      unlocking : M (Unit {0}) → ℕ → M (Unit {0})
      unlocking r now = wait_unlocked env r late env.rounds (u32 (now + http_timeout))

      locking : M (Unit {0}) → ℕ → M (Unit {0})
      locking r now = set_locked true >> unlocking r now

      answered : M (Unit {0}) → ℕ → M (Unit {0})
      answered r now = locking r now >> wait_for_tcp env r

  late-Keeps : (log : String) → Keeps nested (syslog log >> reboot_after_delay)
  unfolding syslog syslog_bytes reboot reboot_after_delay
  late-Keeps log w h = h

  api_set_off-Agrees : Agrees (api_set_off env p) (api_set_off env q)
  unfolding api_set_off
  api_set_off-Agrees =
      call_server-Agrees url_off api_set "Sending OFF for my house: 0"
        (syslog "Timeout occured when trying to set on/off" >> reboot_after_delay)
        (late-Keeps "Timeout occured when trying to set on/off")

  api_set_on-Agrees : Agrees (api_set_on env p) (api_set_on env q)
  unfolding api_set_on
  api_set_on-Agrees =
      call_server-Agrees url_on api_set "Sending ON for my house: 0"
        (syslog "Timeout occured when trying to set on/off" >> reboot_after_delay)
        (late-Keeps "Timeout occured when trying to set on/off")

  tell-Agrees :
      (value : Bool)
      → Agrees
          (if value then api_set_on env p else api_set_off env p)
          (if value then api_set_on env q else api_set_off env q)
  tell-Agrees true = api_set_on-Agrees
  tell-Agrees false = api_set_off-Agrees

  turn_my_house_on-Agrees : Agrees (turn_my_house_on env p) (turn_my_house_on env q)
  unfolding turn_my_house_on toggle_house sync_leds
  turn_my_house_on-Agrees =
      when-Agrees (λ w. not (same_bit (bit_read w.sketch.state my_id) true)) (shown >> told p)
        (shown >> told q)
        (then-Agrees shown shown (told p) (told q) (λ w h. (refl, h))
          (when-Agrees (λ _. my_id == my_id) (api_set_on env p) (api_set_on env q)
            (tell-Agrees true)))
    where
      shown : M (Unit {0})
      shown =
          on_sketch (λ s. record s { state = bit_write s.state my_id true }) >> on_sketch sync_leds

      told : M (Unit {0}) → M (Unit {0})
      told r = when (λ _. my_id == my_id) (api_set_on env r)

  -- On any state: where the callback is not under way, it says so before it polls.
  callback_same :
      (at : ℕ) (w : World) → packet_sniffer_callback env p at w ≡ packet_sniffer_callback env q at w
  unfolding packet_sniffer_callback store_target
  callback_same at w = by_test (not w.sketch.sniffer_nested)
    where
      rest : M (Unit {0}) → M (Unit {0})
      rest m = m >> store_target env p at >> on_sketch (λ s. record s { sniffer_nested = false })

      begun : World
      begun = record w {
        sketch = record w.sketch { sniffer_nested = true; absense_timer = u32 (env.clock w.ticks) };
        ticks = w.ticks + 1;
      }

      by_test :
          (t : Bool)
          → ◌≡◌ {A = Outcome (Unit {0})}
              (if t then rest (turn_my_house_on env p) begun else returns tt w)
              (if t then rest (turn_my_house_on env q) begun else returns tt w)
      by_test true = ap (λ o. rest (ended o) begun) ((turn_my_house_on-Agrees begun refl).0)
      by_test false = refl

-- Polling within the callback of the sniffer is never deeper than one level: with two levels or
-- more a poll is the same run, whatever the state.
pub poll_depth : (env : Env) (depth : ℕ) (w : World) → poll env (suc (suc depth)) w ≡ poll env 2 w
unfolding poll
poll_depth env depth w =
    ap
      (λ (cb : ℕ → M (Unit {0})).
        (packet_receive env >>= packet_loop env (browser env) cb >>= λ _. done) w)
      (fun_ext (λ at. fun_ext (λ v.
        callback_same env (poll env (suc depth)) (poll env 1) (poll-Agrees env depth 0) at v)))
