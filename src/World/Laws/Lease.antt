-- ===== src/World/Laws/Lease.antt =====
-- The steps of the DHCP client, the state machine of dhcp.cpp.
use ether_house.Base.{
  ℕ, zero, suc, ap, ◌∙◌, List, ◌∷◌, ip_at, ◌+◌, ◌<◌, ◌≤◌, ◌≡◌, ◌≢◌, refl, ◌⊎◌, inl, inr, Bool, true,
  false, not, ◌==◌, ltb, leb, if◌then◌else◌, u32, arith, Ip, fill,
}
use ether_house.Net.{Net, Frame}
use ether_house.Net.Layout.{udp_data_p}
use ether_house.Net.Frames.{fill_ip_hdr_checksum, set_macs, set_mac_and_ips}
use ether_house.Net.Frames.Requests.{udp_prepare, udp_transmit, address_to, ip_template}
use ether_house.Net.Frames.Laws.Udp.{udp_prepare-sent}
use ether_house.Net.Client.{set_gw_ip}
use ether_house.Net.Dhcp.{
  Dhcp, DhcpState, init, selecting, requesting, bound, renewing, is_bound, dhcp_offer, dhcp_ack,
  dhcp_received_message_type, take_option, take_options, process_dhcp_offer, options_at,
  send_dhcp_message, dhcp_header, dhcp_request_timeout,
}
use ether_house.Sketch.{all_zeros, all_ones}
use ether_house.World.{Env, World, returns, M, ◌>>◌, ◌>>=◌, when, millis, done, on_net, on_dhcp}
use ether_house.World.Lease.{
  dhcp_state_machine, by_state, renew_when_due, discover, await_offer, await_ack, give_up_when_due,
  send_message, disable_broadcasts, enter, set_state, take_offer,
}

-- A frame goes out.
abbrev pub SendsOne : World → World → Type 0
SendsOne w w' = (f : Frame) × (w'.net.sent ≡ f ∷ w.net.sent)

-- What a call with a packet of `len` bytes may do, where the clock shows `now`. The sum of the start
-- and the time of the lease is one of 32 bits.
pub data LeaseStep (len now : ℕ) (w w' : World) : Type 0 where
  waits : w'.dhcp.state ≡ w.dhcp.state → w'.net ≡ w.net → LeaseStep len now w w'
  discovers :
      w.dhcp.state ≡ init
      → w'.dhcp.state ≡ selecting
      → w'.dhcp.current_xid ≡ now
      → w'.net.myip ≡ all_zeros
      → SendsOne w w'
      → w'.broadcast_filter ≡ true
      → LeaseStep len now w w'
  asks :
      w.dhcp.state ≡ selecting
      → dhcp_received_message_type w.dhcp len dhcp_offer w.net.buffer ≡ true
      → w'.dhcp.state ≡ requesting
      → w'.net.myip ≡ ip_at w.net.buffer (udp_data_p + 16)
      → SendsOne w w'
      → LeaseStep len now w w'
  leases :
      (w.dhcp.state ≡ requesting) ⊎ (w.dhcp.state ≡ renewing)
      → dhcp_received_message_type w.dhcp len dhcp_ack w.net.buffer ≡ true
      → w'.dhcp.state ≡ bound
      → w'.dhcp.lease_start ≡ now
      → w'.net.myip ≡ w.net.myip
      → w'.net.sent ≡ w.net.sent
      → (w.net.gwip.a0 ≢ 0 → (w'.net.waitgwmac ≡ 1) × (w'.net.delaycnt ≡ 0))
      → (w.broadcast_enabled ≡ false → w'.broadcast_filter ≡ false)
      → LeaseStep len now w w'
  renews :
      w.dhcp.state ≡ bound
      → u32 (w.dhcp.lease_start + w.dhcp.lease_time) ≤ now
      → w'.dhcp.state ≡ renewing
      → w'.net.myip ≡ w.net.myip
      → SendsOne w w'
      → LeaseStep len now w w'
  gives_up :
      w.dhcp.state ≢ init
      → w.dhcp.state ≢ bound
      → u32 (w.dhcp.state_timer + dhcp_request_timeout) < now
      → w'.dhcp.state ≡ init
      → w'.net ≡ w.net
      → LeaseStep len now w w'

udp_prepare-myip :
    (sport : ℕ) (dip : Ip) (dport : ℕ) (n : Net) → (udp_prepare sport dip dport n).myip ≡ n.myip
unfolding udp_prepare address_to ip_template set_mac_and_ips set_macs
udp_prepare-myip sport dip dport n = ground arith

send_dhcp_message-myip : (d : Dhcp) (n : Net) → (send_dhcp_message d n).myip ≡ n.myip
unfolding send_dhcp_message dhcp_header udp_transmit fill_ip_hdr_checksum
send_dhcp_message-myip d n =
    udp_prepare-myip 68 (if is_bound d.state then d.dhcpip else all_ones) 67
      (record n { buffer = fill n.buffer 0 0 278 })

-- The offered address stays while the options are read, and nothing is sent.
abbrev Offered : Net → Net → Type 0
Offered n n' = (n'.myip ≡ n.myip) × (n'.sent ≡ n.sent)

take_option-Offered :
    (option ptr : ℕ) (n : Net) (d : Dhcp) → Offered n (take_option option ptr (n, d)).0
unfolding take_option
take_option-Offered option ptr n d = (ground arith, ground arith)

take_options-Offered :
    (left len ptr : ℕ) (n : Net) (d : Dhcp) → Offered n (take_options left len ptr (n, d)).0
unfolding take_options
take_options-Offered zero len ptr n d = (refl, refl)
take_options-Offered (suc left) len ptr n d =
    let (n1, d1) = take_option (n.buffer ptr) (ptr + 2) (n, d) in
    let (a, b) = take_option-Offered (n.buffer ptr) (ptr + 2) n d in
    let (a', b') = take_options-Offered left len (ptr + 2 + n.buffer (ptr + 1)) n1 d1 in
    (ground (arith, a, a' ∙ a), ground (arith, b, b' ∙ b))

process_dhcp_offer-Offered :
    (len : ℕ) (n : Net) (d : Dhcp)
    → let n' = (process_dhcp_offer len (n, d)).0 in
      (n'.myip ≡ ip_at n.buffer (udp_data_p + 16)) × (n'.sent ≡ n.sent)
unfolding process_dhcp_offer
process_dhcp_offer-Offered len n d =
    take_options-Offered (suc len) len options_at
      (record n { myip = ip_at n.buffer (udp_data_p + 16) }) d

one_more : (f : Frame) (xs ys : List Frame) → xs ≡ ys → (g : Frame) × (f ∷ xs ≡ g ∷ ys)
one_more f xs ys e = (f, ap (λ l. f ∷ l) e)

pub send_dhcp_message-sent :
    (d : Dhcp) (n : Net) → (f : Frame) × ((send_dhcp_message d n).sent ≡ f ∷ n.sent)
unfolding send_dhcp_message dhcp_header udp_transmit fill_ip_hdr_checksum
send_dhcp_message-sent d n =
    one_more _
      (udp_prepare 68 (if is_bound d.state then d.dhcpip else all_ones) 67
        (record n { buffer = fill n.buffer 0 0 278 })).sent
      n.sent
      (udp_prepare-sent 68 (if is_bound d.state then d.dhcpip else all_ones) 67
        (record n { buffer = fill n.buffer 0 0 278 }))

abbrev ticked : World → World
ticked w = record w { ticks = w.ticks + 1 }

abbrev Steps : Env → ℕ → ℕ → World → M (Unit {0}) → Type 0
Steps env len t w m = (w' : World) × (m w ≡ returns tt w') × LeaseStep len t w w'

module _ (env : Env) (len : ℕ) (w : World) where
  abbrev now : ℕ
  now = u32 (env.clock w.ticks)

  renew_step : w.dhcp.state ≡ bound → Steps env len now w (renew_when_due env)
  unfolding renew_when_due
  renew_step s = by_test (leb (u32 (w.dhcp.lease_start + w.dhcp.lease_time)) now) refl
    where
      by_test :
          (t : Bool)
          → leb (u32 (w.dhcp.lease_start + w.dhcp.lease_time)) now ≡ t
          → (w' : World) × ((if t
                then (send_message >> enter env renewing) (ticked w)
                else returns tt (ticked w))
              ≡ returns tt w')
            × LeaseStep len now w w'
      by_test true e = (
        _,
        refl,
        renews s (ground (arith, e)) refl (send_dhcp_message-myip w.dhcp w.net)
            (send_dhcp_message-sent w.dhcp w.net),
      )
      by_test false e = (_, refl, waits refl refl)

  discover_step : w.dhcp.state ≡ init → Steps env len now w (discover env)
  unfolding discover
  discover_step s = (
    _,
    refl,
    discovers s refl refl
        (send_dhcp_message-myip (record w.dhcp { current_xid = now })
          (record w.net { myip = all_zeros }))
        (send_dhcp_message-sent (record w.dhcp { current_xid = now })
          (record w.net { myip = all_zeros }))
        refl,
  )

  give_up_step :
      w.dhcp.state ≢ init → w.dhcp.state ≢ bound → Steps env len now w (give_up_when_due env)
  give_up_step s s' = by_test (ltb (u32 (w.dhcp.state_timer + dhcp_request_timeout)) now) refl
    where
      by_test :
          (t : Bool)
          → ltb (u32 (w.dhcp.state_timer + dhcp_request_timeout)) now ≡ t
          → (w' : World) × ((if t then set_state init (ticked w) else returns tt (ticked w))
              ≡ returns tt w')
            × LeaseStep len now w w'
      by_test true e = (_, refl, gives_up s s' (ground (arith, e)) refl refl)
      by_test false e = (_, refl, waits refl refl)

  offer_step : w.dhcp.state ≡ selecting → Steps env len now w (await_offer env len)
  unfolding await_offer
  offer_step s = by_test (dhcp_received_message_type w.dhcp len dhcp_offer w.net.buffer) refl
    where
      by_test :
          (t : Bool)
          → dhcp_received_message_type w.dhcp len dhcp_offer w.net.buffer ≡ t
          → (w' : World) × ((if t
                then (take_offer env len >> send_message >> enter env requesting) w
                else give_up_when_due env w)
              ≡ returns tt w')
            × LeaseStep len now w w'
      by_test true e =
          let (n, d) = process_dhcp_offer len (w.net, w.dhcp) in
          let (a, b) = process_dhcp_offer-Offered len w.net w.dhcp in
          let (f, g) = send_dhcp_message-sent d n in
          (_, refl, asks s e refl (send_dhcp_message-myip d n ∙ a) (f, g ∙ ap (λ l. f ∷ l) b))
      by_test false e = give_up_step (λ i. ground (arith, s, i)) (λ i. ground (arith, s, i))

  ack_step :
      (w.dhcp.state ≡ requesting) ⊎ (w.dhcp.state ≡ renewing)
      → Steps env len now w (await_ack env len)
  unfolding await_ack set_gw_ip
  ack_step s = by_test (dhcp_received_message_type w.dhcp len dhcp_ack w.net.buffer) refl
    where
      same_address :
          (if w.net.gwip.a0 == 0 then w.net else set_gw_ip w.net.gwip w.net).myip ≡ w.net.myip
      same_address = ground arith

      same_sent :
          (if w.net.gwip.a0 == 0 then w.net else set_gw_ip w.net.gwip w.net).sent ≡ w.net.sent
      same_sent = ground arith

      asked_anew :
          w.net.gwip.a0 ≢ 0
          → let n = (if w.net.gwip.a0 == 0 then w.net else set_gw_ip w.net.gwip w.net) in
            (n.waitgwmac ≡ 1) × (n.delaycnt ≡ 0)
      asked_anew h = (ground (arith, h), ground (arith, h))

      by_test :
          (t : Bool)
          → dhcp_received_message_type w.dhcp len dhcp_ack w.net.buffer ≡ t
          → (w' : World) × ((if t
                then (disable_broadcasts true >> millis env >>= λ t.
                      on_dhcp (λ d. record d { lease_start = t })
                      >> on_net (λ n. if n.gwip.a0 == 0 then n else set_gw_ip n.gwip n)
                      >> set_state bound)
                    w
                else give_up_when_due env w)
              ≡ returns tt w')
            × LeaseStep len now w w'
      by_test true e = (
        _,
        refl,
        leases s e refl refl same_address same_sent asked_anew (λ off. ground (arith, off)),
      )
      by_test false e = give_up_step (λ i. ground (arith, s, i)) (λ i. ground (arith, s, i))

  by_state_step : (s : DhcpState) → w.dhcp.state ≡ s → Steps env len now w (by_state env s len)
  by_state_step bound e = renew_step e
  by_state_step init e = discover_step e
  by_state_step selecting e = offer_step e
  by_state_step requesting e = ack_step (inl e)
  by_state_step renewing e = ack_step (inr e)

-- The first look at the clock is for a message on the serial port, which a bound client does not
-- write.
abbrev pub machine_time : Env → World → ℕ
machine_time env w = u32 (env.clock (if is_bound w.dhcp.state then w.ticks else w.ticks + 1))

-- A step does not depend on the count of ticks.
from_tick : {len t : ℕ} {w w' : World} → LeaseStep len t (ticked w) w' → LeaseStep len t w w'
from_tick (waits s n) = waits s n
from_tick (discovers s s' x a f b) = discovers s s' x a f b
from_tick (asks s r s' a f) = asks s r s' a f
from_tick (leases s r s' t' a f g b) = leases s r s' t' a f g b
from_tick (renews s l s' a f) = renews s l s' a f
from_tick (gives_up s r l s' n) = gives_up s r l s' n

-- A call of DhcpStateMachine returns, and takes one step of the DHCP client or none: it looks for
-- a server without an address, with one message and the broadcast filter on; answers only an
-- offer, with one message and the offered address; is bound only by an acknowledgement, keeps the
-- address, sends nothing, looks for its gateway anew if it has one and closes a filter that
-- nobody else wants open; renews with one message when the clock shows at least the sum, modulo
-- 2^32, of the lease's start and time; and gives up when the clock is behind its timer plus the
-- timeout modulo 2^32.
pub dhcp_state_machine-LeaseStep :
    (env : Env) (len : ℕ) (w : World)
    → (w' : World) × (dhcp_state_machine env len w ≡ returns tt w')
      × LeaseStep len (machine_time env w) w w'
unfolding dhcp_state_machine
dhcp_state_machine-LeaseStep env len w = by_test (is_bound w.dhcp.state)
  where
    by_test :
        (t : Bool)
        → (w' : World) × ((when (λ _. not t) (millis env >>= λ now. done) >> λ v.
                by_state env v.dhcp.state len v)
              w
            ≡ returns tt w')
          × LeaseStep len (u32 (env.clock (if t then w.ticks else w.ticks + 1))) w w'
    by_test true = by_state_step env len w w.dhcp.state refl
    by_test false =
        let (w', e, step) = by_state_step env len (ticked w) w.dhcp.state refl in
        (w', e, from_tick step)
