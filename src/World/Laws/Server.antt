-- ===== src/World/Laws/Server.antt =====
-- Tests of the sketch's variables that a call of the server keeps, where each poll does and the lock
-- does not matter.
use Prim.Native.String.{String}
use ether_house.Base.{
  ℕ, zero, suc, ◌+◌, ◌≡◌, Bool, true, false, not, arith, if◌then◌else◌, u32, ltb,
}
use ether_house.Net.{BrowserCallback, api_set, Url, url_on, url_off}
use ether_house.Sketch.{Sketch, http_timeout}
use ether_house.World.{when, Env, M, ◌>>=◌, ◌>>◌, on_net, millis}
use ether_house.Net.Client.{browse_url}
use ether_house.World.Syslog.{syslog, syslog_bytes, reboot, reboot_after_delay}
use ether_house.World.Api.{
  validate_dhcp, wait_until, wait_for_tcp, wait_unlocked, call_server, api_set_off, api_set_on,
  set_locked,
}
use ether_house.World.Laws.Keeps.{Keeps, bind-Keeps, then-Keeps, when-Keeps}

module _ (holds : Sketch → Bool)
    (unlocks : (s : Sketch) (value : Bool)
      → holds s ≡ true
      → holds (record s { locked = value }) ≡ true) where
  syslog-Keeps : (text : String) → Keeps holds (syslog text)
  unfolding syslog syslog_bytes
  syslog-Keeps text w p = p

  reboot-Keeps : Keeps holds reboot
  unfolding reboot syslog syslog_bytes
  reboot-Keeps w p = p

  validate_dhcp-Keeps : Keeps holds validate_dhcp
  unfolding validate_dhcp reboot syslog syslog_bytes
  validate_dhcp-Keeps w p = ground (arith, p)

  module _ (env : Env) (poll : M (Unit {0})) (poll_keeps : Keeps holds poll) where
    wait_until-Keeps : (left timer : ℕ) → Keeps holds (wait_until env poll left timer)
    unfolding wait_until
    wait_until-Keeps zero timer = λ w p. p
    wait_until-Keeps (suc left) timer =
        bind-Keeps holds (millis env)
          (λ now. when (λ _. ltb now timer) (poll >> wait_until env poll left timer)) (λ w p. p)
          (λ now.
            when-Keeps holds (λ _. ltb now timer) (poll >> wait_until env poll left timer)
              (then-Keeps holds poll (wait_until env poll left timer) poll_keeps
                (wait_until-Keeps left timer)))

    wait_for_tcp-Keeps : Keeps holds (wait_for_tcp env poll)
    unfolding wait_for_tcp
    wait_for_tcp-Keeps =
        bind-Keeps holds (millis env)
          (λ now. wait_until env poll env.rounds (u32 (now + http_timeout))) (λ w p. p)
          (λ now. wait_until-Keeps env.rounds (u32 (now + http_timeout)))

    module _ (late : M (Unit {0})) (late_keeps : Keeps holds late) where
      wait_unlocked-Keeps : (left timer : ℕ) → Keeps holds (wait_unlocked env poll late left timer)
      unfolding wait_unlocked
      wait_unlocked-Keeps zero timer = λ w p. ground (arith, p)
      wait_unlocked-Keeps (suc left) timer =
          when-Keeps holds (λ v. v.sketch.locked) (poll >> millis env >>= check)
            (bind-Keeps holds (poll >> millis env) check
              (then-Keeps holds poll (millis env) poll_keeps (λ w p. p))
              (λ now.
                then-Keeps holds (when (λ _. ltb timer now) late)
                  (wait_unlocked env poll late left timer)
                  (when-Keeps holds (λ _. ltb timer now) late late_keeps)
                  (wait_unlocked-Keeps left timer)))
        where
          check : ℕ → M (Unit {0})
          check now = when (λ _. ltb timer now) late >> wait_unlocked env poll late left timer

      pub call_server-Keeps :
          (url : Url) (callback : BrowserCallback) (logstring : String)
          → Keeps holds (call_server env poll url callback logstring late)
      unfolding call_server
      call_server-Keeps url callback logstring =
          when-Keeps holds (λ w. not w.sketch.locked) (asked >> millis env >>= answered)
            (bind-Keeps holds (asked >> millis env) answered
              (then-Keeps holds asked (millis env) asked_keeps (λ w p. p)) answered_keeps)
        where
          browse : M (Unit {0})
          browse w = on_net (λ n. browse_url url callback (record n { hisip = w.sketch.api_ip })) w

          asked : M (Unit {0})
          asked = validate_dhcp >> syslog logstring >> browse

          answered : ℕ → M (Unit {0})
          answered now =
              set_locked true
              >> wait_unlocked env poll late env.rounds (u32 (now + http_timeout))
              >> wait_for_tcp env poll

          asked_keeps : Keeps holds asked
          asked_keeps =
              then-Keeps holds (validate_dhcp >> syslog logstring) browse
                (then-Keeps holds validate_dhcp (syslog logstring) validate_dhcp-Keeps
                  (syslog-Keeps logstring))
                (λ w p. p)

          answered_keeps : (now : ℕ) → Keeps holds (answered now)
          answered_keeps now =
              then-Keeps holds
                (set_locked true
                  >> wait_unlocked env poll late env.rounds (u32 (now + http_timeout)))
                (wait_for_tcp env poll)
                (then-Keeps holds (set_locked true)
                  (wait_unlocked env poll late env.rounds (u32 (now + http_timeout)))
                  (λ w p. unlocks w.sketch true p)
                  (wait_unlocked-Keeps env.rounds (u32 (now + http_timeout))))
                wait_for_tcp-Keeps

    pub late-Keeps : (text : String) → Keeps holds (syslog text >> reboot_after_delay)
    unfolding reboot_after_delay reboot syslog syslog_bytes
    late-Keeps text w p = p

    pub api-Keeps :
        (value : Bool) → Keeps holds (if value then api_set_on env poll else api_set_off env poll)
    unfolding api_set_on api_set_off
    api-Keeps true = call_server-Keeps _ (late-Keeps _) url_on api_set _
    api-Keeps false = call_server-Keeps _ (late-Keeps _) url_off api_set _
