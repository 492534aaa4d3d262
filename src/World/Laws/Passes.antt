-- ===== src/World/Laws/Passes.antt =====
-- Passes of packetLoop without a packet, with the DHCP state machine that runs first.
use ether_house.Base.{
  ◌/◌, List, [], ◌∷◌, ◌++◌, subst, ℕ, zero, suc, ◌+◌, ◌-◌, ◌^◌, ◌<◌, ◌≤◌, ◌≡◌, refl, ap, ◌∙◌, Bool,
  true, false, not, ◌||◌, ◌==◌, ltb, leb, if◌then◌else◌, bit_or, u16, u32, arith, Ip, fill, Memory,
}
use ether_house.Base.Bits.{bit_or_step, bit_and_step, bit_and_mask}
use ether_house.Net.{Net, Frame, BrowserCallback}
use ether_house.Net.Dhcp.{
  Dhcp, DhcpState, init, selecting, requesting, bound, renewing, is_bound, send_dhcp_message,
  dhcp_header, dhcp_received_message_type, dhcp_request_timeout, dhcp_offer, dhcp_ack,
}
use ether_house.Net.Frames.{set_macs, fill_ip_hdr_checksum, set_mac_and_ips}
use ether_house.Net.Frames.Requests.{udp_prepare, udp_transmit, address_to, ip_template}
use ether_house.Net.Client.{set_gw_ip}
use ether_house.Sketch.{all_zeros, all_ones}
use ether_house.World.{
  Env, World, Outcome, returns, M, ◌>>◌, ◌>>=◌, done, when, millis, on_net, on_dhcp, ended,
}
use ether_house.World.Lease.{
  dhcp_state_machine, by_state, renew_when_due, discover, await_offer, await_ack, give_up_when_due,
  send_message, enter, set_state, take_offer, disable_broadcasts,
}
use ether_house.World.Packets.{
  has, idle, idle_gateway, handle, packet_loop, wgw_accept_arp_reply, wgw_initial_arp,
  wgw_refreshing,
}
use ether_house.World.Laws.Lease.{send_dhcp_message-sent}
use ether_house.World.Laws.Gateway.{
  looks_for_gateway, Same, Grows, counted, AsksFor, asked, rest-Grows, rest-Same,
}

-- DhcpStateMachine without a packet.
udp_prepare-Same :
    (sport : ℕ) (dip : Ip) (dport : ℕ) (n : Net) → Same n (udp_prepare sport dip dport n)
unfolding udp_prepare address_to ip_template set_mac_and_ips set_macs
udp_prepare-Same sport dip dport n = (ground arith, ground arith, ground arith)

send_dhcp_message-Same : (d : Dhcp) (n : Net) → Same n (send_dhcp_message d n)
unfolding send_dhcp_message dhcp_header udp_transmit fill_ip_hdr_checksum
send_dhcp_message-Same d n =
    udp_prepare-Same 68 (if is_bound d.state then d.dhcpip else all_ones) 67
      (record n { buffer = fill n.buffer 0 0 278 })

send_dhcp_message-Grows : (d : Dhcp) (n : Net) → Grows n (send_dhcp_message d n)
send_dhcp_message-Grows d n = let (f, e) = send_dhcp_message-sent d n in (f ∷ [], e)

no_message : (d : Dhcp) (type : ℕ) (m : Memory) → dhcp_received_message_type d 0 type m ≡ false
unfolding dhcp_received_message_type
no_message d type m = refl

module _ (env : Env) where
  abbrev Leases : M (Unit {0}) → World → Type 0
  Leases m w = (w' : World) × (m w ≡ returns tt w') × Same w.net w'.net × Grows w.net w'.net

  gives_up-Leases : (w : World) → Leases (give_up_when_due env) w
  gives_up-Leases w =
      by_test (ltb (u32 (w.dhcp.state_timer + dhcp_request_timeout)) (u32 (env.clock w.ticks)))
    where
      by_test :
          (t : Bool)
          → (w' : World) × ((if t
                then set_state init (record w { ticks = w.ticks + 1 })
                else returns tt (record w { ticks = w.ticks + 1 }))
              ≡ returns tt w')
            × Same w.net w'.net
            × Grows w.net w'.net
      by_test true = (_, refl, (refl, refl, refl), ([], refl))
      by_test false = (_, refl, (refl, refl, refl), ([], refl))

  renew-Leases : (w : World) → Leases (renew_when_due env) w
  unfolding renew_when_due
  renew-Leases w =
      by_test (leb (u32 (w.dhcp.lease_start + w.dhcp.lease_time)) (u32 (env.clock w.ticks)))
    where
      looked : World
      looked = record w { ticks = w.ticks + 1 }

      by_test :
          (t : Bool)
          → (w' : World) × ((if t
                then (send_message >> enter env renewing) looked
                else returns tt looked)
              ≡ returns tt w')
            × Same w.net w'.net
            × Grows w.net w'.net
      by_test true =
          (_, refl, send_dhcp_message-Same w.dhcp w.net, send_dhcp_message-Grows w.dhcp w.net)
      by_test false = (_, refl, (refl, refl, refl), ([], refl))

  -- Without a message the time is looked at.
  wait :
      (w : World) (run : Bool → Outcome (Unit {0})) (t : Bool)
      → t ≡ false
      → run false ≡ give_up_when_due env w
      → (w' : World) × (run t ≡ returns tt w') × Same w.net w'.net × Grows w.net w'.net
  wait w run t e r = let (w', g, s, m) = gives_up-Leases w in (w', ap run e ∙ r ∙ g, s, m)

  ack : (w : World) → Leases (await_ack env 0) w
  unfolding await_ack
  ack w =
      wait w
        (λ t.
          if t
          then (disable_broadcasts true >> millis env >>= λ now.
                on_dhcp (λ d. record d { lease_start = now })
                >> on_net (λ n. if n.gwip.a0 == 0 then n else set_gw_ip n.gwip n)
                >> set_state bound)
              w
          else give_up_when_due env w)
        (dhcp_received_message_type w.dhcp 0 dhcp_ack w.net.buffer)
        (no_message w.dhcp dhcp_ack w.net.buffer) refl

  state-Leases : (s : DhcpState) (w : World) → Leases (by_state env s 0) w
  unfolding discover await_offer
  state-Leases bound w = renew-Leases w
  state-Leases init w =
      let d = record w.dhcp { current_xid = u32 (env.clock w.ticks) } in
      let n = record w.net { myip = all_zeros } in
      (_, refl, send_dhcp_message-Same d n, send_dhcp_message-Grows d n)
  state-Leases selecting w =
      wait w
        (λ t.
          if t
          then (take_offer env 0 >> send_message >> enter env requesting) w
          else give_up_when_due env w)
        (dhcp_received_message_type w.dhcp 0 dhcp_offer w.net.buffer)
        (no_message w.dhcp dhcp_offer w.net.buffer) refl
  state-Leases requesting w = ack w
  state-Leases renewing w = ack w

  dhcp-Leases : (w : World) → Leases (dhcp_state_machine env 0) w
  unfolding dhcp_state_machine
  dhcp-Leases w = by_test (is_bound w.dhcp.state)
    where
      by_test :
          (t : Bool)
          → (w' : World) × ((when (λ _. not t) (millis env >>= λ now. done) >> λ v.
                  by_state env v.dhcp.state 0 v)
                w
              ≡ returns tt w')
            × Same w.net w'.net
            × Grows w.net w'.net
      by_test true = state-Leases w.dhcp.state w
      by_test false = state-Leases w.dhcp.state (record w { ticks = w.ticks + 1 })

-- `k` passes of packetLoop without a packet.
pub data Passes (env : Env) (browser : BrowserCallback → ℕ → ℕ → ℕ → M (Unit {0}))
    (on_sniff : ℕ → M (Unit {0})) : ℕ → World → World → Type 0 where
  none_left : {w : World} → Passes env browser on_sniff 0 w w
  pass :
      {k : ℕ} {w w1 w' : World}
      → packet_loop env browser on_sniff 0 w ≡ returns 0 w1
      → Passes env browser on_sniff k w1 w'
      → Passes env browser on_sniff (suc k) w w'

-- Among what was sent there is a new frame that asks for the gateway, whose answer is accepted then.
abbrev pub Asks : Net → Net → Type 0
Asks n n' =
    (f : Frame) × (later : List Frame) × (earlier : List Frame) × (n'.sent
      ≡ later ++ f ∷ (earlier ++ n.sent))
    × AsksFor n.gwip f
    × (has n'.waitgwmac wgw_accept_arp_reply ≡ true)

module _ (env : Env) (browser : BrowserCallback → ℕ → ℕ → ℕ → M (Unit {0}))
    (on_sniff : ℕ → M (Unit {0})) (link : (t : ℕ) → env.link_up t ≡ true) where
  abbrev Runs : World → Outcome ℕ → Type 0
  Runs w o =
      (w1 : World) × (o ≡ returns 0 (record w1 { net = idle true w1.net }))
      × Same w.net w1.net
      × Grows w.net w1.net

  no_packet :
      (w : World) → handle env browser on_sniff 0 w ≡ returns 0 (record w { net = idle true w.net })
  unfolding handle
  no_packet w = ap (λ l. returns 0 (record w { net = idle l w.net })) (link w.ticks)

  runs : (w : World) → Runs w (packet_loop env browser on_sniff 0 w)
  unfolding packet_loop
  runs w = by_test w.net.using_dhcp
    where
      by_test :
          (t : Bool)
          → Runs w ((when (λ _. t) (dhcp_state_machine env 0) >> handle env browser on_sniff 0) w)
      by_test true =
          let (w1, e, s, g) = dhcp-Leases env w in
          (w1, ap (λ o. (ended o >> handle env browser on_sniff 0) w) e ∙ no_packet w1, s, g)
      by_test false = (w, no_packet w, (refl, refl, refl), ([], refl))

  -- The count comes to 0 when it has gone round, and the rest stays as it was until then.
  countdown :
      (d : ℕ) (w : World)
      → 1 ≤ w.net.delaycnt
      → w.net.delaycnt + suc d ≡ 2 ^ 16
      → (w' : World) × Passes env browser on_sniff (suc d) w w'
        × (w'.net.delaycnt ≡ 0)
        × (w'.net.waitgwmac ≡ w.net.waitgwmac)
        × (w'.net.gwip ≡ w.net.gwip)
  countdown zero w h e =
      let (w1, run, (a, b, c), g) = runs w in
      let (a', b', c') = counted w1.net (omega (arith, c, h)) in
      (
        record w1 { net = idle true w1.net },
        pass run none_left,
        omega (arith, c, c', e),
        a' ∙ a,
        b' ∙ b,
      )
  countdown (suc d) w h e =
      let (w1, run, (a, b, c), g) = runs w in
      let (a', b', c') = counted w1.net (omega (arith, c, h)) in
      let (w2, more, z, a2, b2) =
        countdown d (record w1 { net = idle true w1.net }) (omega (arith, c, c', e, h))
          (omega (arith, c, c', e)) in
      (w2, pass run more, z, a2 ∙ a' ∙ a, b2 ∙ b' ∙ b)

  accepts : (x : ℕ) → has (bit_or x wgw_accept_arp_reply) wgw_accept_arp_reply ≡ true
  accepts x =
      let y = bit_or x 8 in
      ground (
        arith,
        bit_or_step x 8,
        bit_or_step (x / 2) 4,
        bit_or_step (x / 2 / 2) 2,
        bit_or_step (x / 2 / 2 / 2) 1,
        bit_and_step y 8,
        bit_and_step (y / 2) 4,
        bit_and_step (y / 2 / 2) 2,
        bit_and_mask 1 (y / 2 / 2 / 2),
      )

  -- Where the request is due, the pass makes it.
  requested :
      (w : World)
      → looks_for_gateway w.net ≡ true
      → w.net.delaycnt ≡ 0
      → (w' : World) × (packet_loop env browser on_sniff 0 w ≡ returns 0 w') × Asks w.net w'.net
  unfolding idle
  requested w h z =
      let (w1, run, (a, b, c), (earlier, g)) = runs w in
      let (f, sent, asks, mark) =
        asked w1.net (ap (λ x. has x wgw_initial_arp || has x wgw_refreshing) a ∙ h) (c ∙ z) in
      let n1 = idle_gateway true w1.net in
      let n2 = record n1 { delaycnt = u16 (n1.delaycnt + 1) } in
      let (later, behind) = rest-Grows n2 in
      let (mark', b', c') = rest-Same n2 in
      (
        record w1 { net = idle true w1.net },
        run,
        (
          f,
          later,
          earlier,
          behind ∙ ap (λ l. later ++ l) (sent ∙ ap (λ l. f ∷ l) g),
          subst (λ ip. AsksFor ip f) b asks,
          ap (λ x. has x wgw_accept_arp_reply) (mark' ∙ mark) ∙ accepts w1.net.waitgwmac,
        ),
      )

  -- While the host looks for its gateway and no packet arrives, packetLoop, which runs
  -- DhcpStateMachine first, returns in each pass, and one of the first 65536 passes sends an ARP
  -- request for the gateway's address and then accepts the answer; where the link is up in each
  -- pass and the counter of the passes is below 2^16.
  pub gateway_asked_again :
      (w : World)
      → looks_for_gateway w.net ≡ true
      → w.net.delaycnt < 2 ^ 16
      → (k : ℕ) × (w1 : World) × (w2 : World) × (k < 2 ^ 16)
        × Passes env browser on_sniff k w w1
        × (packet_loop env browser on_sniff 0 w1 ≡ returns 0 w2)
        × (w1.net.gwip ≡ w.net.gwip)
        × Asks w1.net w2.net
  gateway_asked_again w h lt = by_count w.net.delaycnt refl
    where
      by_count :
          (c : ℕ)
          → w.net.delaycnt ≡ c
          → (k : ℕ) × (w1 : World) × (w2 : World) × (k < 2 ^ 16)
            × Passes env browser on_sniff k w w1
            × (packet_loop env browser on_sniff 0 w1 ≡ returns 0 w2)
            × (w1.net.gwip ≡ w.net.gwip)
            × Asks w1.net w2.net
      by_count zero e =
          let (w2, run, asks) = requested w h e in
          (0, w, w2, omega arith, none_left, run, refl, asks)
      by_count (suc c) e =
          let (w1, gone, z, same, address) =
            countdown (2 ^ 16 - 1 - suc c) w (omega (arith, e)) (omega (arith, e, lt)) in
          let (w2, run, asks) =
            requested w1 (ap (λ x. has x wgw_initial_arp || has x wgw_refreshing) same ∙ h) z in
          (suc (2 ^ 16 - 1 - suc c), w1, w2, omega arith, gone, run, address, asks)
