-- ===== src/World/Setup.antt =====
-- begin of EtherCard.cpp, dhcpSetup of dhcp.cpp and dnsLookup of dns.cpp, which setup calls.
use ether_house.Base.{
  ℕ, zero, suc, ◌+◌, ◌-◌, ◌/◌, ◌^◌, bit_and, Bool, true, false, not, ◌==◌, ltb, leb, if◌then◌else◌,
  [], ◌∷◌, ◌++◌, Mac, u8, u16, bytes,
}
use ether_house.Net.Lan.{update_broadcast_address}
use ether_house.Net.Client.{client_waiting_dns}
use ether_house.Net.Dhcp.{init, is_bound}
use ether_house.Net.Dns.{dns_request, check_for_dns_answer}
use ether_house.Net.Filler.{api_server}
use ether_house.Sketch.{all_zeros}
use ether_house.World.{
  Env, World, M, ◌>>=◌, ◌>>◌, return, when, on_net, on_dhcp, millis, is_link_up, packet_receive,
  unfinished, returns,
}
use ether_house.Stash.Blocks.{init_map}
use ether_house.World.Lease.{dhcp_state_machine, enable_broadcasts}
use ether_house.World.Packets.{packet_loop}
use ether_house.World.Api.{browser, packet_sniffer_callback, poll}

-- A pass of a loop goes on, or ends it with a result.
abbrev otherwise : (World → Bool) → Bool → M Bool → M Bool
otherwise test result rest w = if test w then returns result w else rest w

-- `(word) (millis() - start) >= timeout`, and then `return false`.
abbrev pub elapsed : ℕ → ℕ → ℕ
elapsed now start = u16 (now + 2 ^ 32 - start)

module _ (env : Env) where
  -- Of `initialize`, the chip's setup, enableBroadcast and whether it finds a chip.
  unfoldable pub begin : Mac → M Bool
  begin macaddr =
      on_net (λ n. record n { using_dhcp = false })
      >> (λ w. returns tt (record w { stash_map = init_map 56 56 w.stash_map }))
      >> on_net (λ n. record n { mymac = macaddr })
      >> enable_broadcasts false
      >> return env.chip_found

  -- The loop of dhcpSetup.
  unfoldable pub wait_for_lease : ℕ → ℕ → M (Unit {0})
  wait_for_lease zero start = λ w. unfinished w
  wait_for_lease (suc left) start =
      let rest = wait_for_lease left start in
      when (λ w. not (is_bound w.dhcp.state))
        (millis env >>= λ now.
          when (λ _. ltb (elapsed now start) 60000)
            (is_link_up env >>= λ up.
              when (λ _. up) (packet_receive env >>= λ len. dhcp_state_machine env len) >> rest))

  -- The last two characters of the host's name are made from its address.
  unfoldable pub dhcp_setup : M Bool
  dhcp_setup =
      on_net (λ n. record n { using_dhcp = true })
      >> (λ w.
          on_dhcp
            (λ d. record d {
              hostname =
                  bytes "Arduino-"
                  ++ u8 (b'0' + w.net.mymac.m5 / 2 ^ 4)
                    ∷ u8 (b'0' + bit_and w.net.mymac.m5 0x0f)
                    ∷ [];
              state = init;
            })
            w)
      >> millis env
      >>= λ start.
          wait_for_lease env.rounds (u16 start)
          >> on_net (λ n. record (update_broadcast_address n) { delaycnt = 0 })
          >> λ w. returns (is_bound w.dhcp.state) w

  -- The three loops of dnsLookup; the last returns whether the name has an address.
  unfoldable pub wait_for_link : ℕ → ℕ → M Bool
  wait_for_link zero start = λ w. unfinished w
  wait_for_link (suc left) start =
      let rest = wait_for_link left start in
      is_link_up env >>= λ up.
      otherwise (λ _. up) true
        (millis env >>= λ now. otherwise (λ _. leb 30000 (elapsed now start)) false rest)

  unfoldable pub wait_for_server : ℕ → ℕ → M Bool
  wait_for_server zero start = λ w. unfinished w
  wait_for_server (suc left) start =
      let rest = wait_for_server left start in
      otherwise (λ w. not (client_waiting_dns w.net)) true
        (poll env 2 >> millis env >>= λ now.
          otherwise (λ _. leb 30000 (elapsed now start)) false rest)

  -- The packet loop's value for a packet; for none, a value that is not 0.
  unfoldable pub handled : ℕ → M ℕ
  handled len =
      if len == 0
      then return 1
      else packet_loop env (browser env) (packet_sniffer_callback env (poll env 1)) len

  unfoldable pub check_answer : ℕ → M Bool
  check_answer len w =
      let (n, failed) = check_for_dns_answer w.dnstid_l len w.net in
      returns failed (record w { net = n })

  unfoldable pub wait_for_answer : ℕ → ℕ → M Bool
  wait_for_answer zero start = λ w. unfinished w
  wait_for_answer (suc left) start =
      let rest = wait_for_answer left start in
      otherwise (λ w. not (w.net.hisip.a0 == 0)) true
        (millis env >>= λ now.
          otherwise (λ _. leb 30000 (elapsed now start)) false
            (packet_receive env >>= λ len. handled len >>= λ used.
              (if used == 0 then check_answer len else return false) >>= λ failed.
              otherwise (λ _. failed) false rest))

  -- A step that fails ends the lookup.
  abbrev and_then : M Bool → M Bool → M Bool
  and_then m k = m >>= λ ok. otherwise (λ _. not ok) false k

  unfoldable pub ask : M (Unit {0})
  ask w =
      let id = u8 (w.dnstid_l + 1) in
      returns tt (record w {
        dnstid_l = id;
        net = dns_request (bytes api_server) id (record w.net { hisip = all_zeros });
      })

  unfoldable pub dns_lookup : M Bool
  dns_lookup = millis env >>= λ start. and_then (wait_for_link env.rounds (u16 start)) (
      and_then (wait_for_server env.rounds (u16 start))
        (ask >> millis env >>= λ asked. wait_for_answer env.rounds (u16 asked)))
