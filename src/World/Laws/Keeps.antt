-- ===== src/World/Laws/Keeps.antt =====
-- Tests of the sketch's variables that every part of packetLoop keeps, in every way in which a run
-- can end.
use ether_house.Base.{
  not, ℕ, ◌+◌, ◌-◌, ◌/◌, ◌^◌, ◌≡◌, bit_and, Bool, true, false, List, [], ◌∷◌, Option, none, some,
  Mac, ltb, if◌then◌else◌, arith, u16, mac_eqb, mac_at,
}
use ether_house.Net.{BrowserCallback}
use ether_house.Net.Sniffer.{sniffer_process_packet, call_listeners, src_ip_offset}
use ether_house.Net.Sequence.{tcp_data_start, get_tcp_data_len}
use ether_house.Sketch.{Sketch}
use ether_house.World.{
  when, millis, done, Env, World, Outcome, returns, reboots, unfinished, M, ◌>>=◌, ◌>>◌, return,
  on_net, final, ended,
}
use ether_house.Net.Dhcp.{DhcpState, init, selecting, requesting, bound, renewing, is_bound}
use ether_house.World.Lease.{
  dhcp_state_machine, by_state, renew_when_due, discover, await_offer, await_ack,
}
use ether_house.World.Packets.{
  handle, packet_loop, sniff, dispatch, client_packet, established, accept, client_tcp_result,
  www_client_internal_result_cb, acknowledge_data,
}

module _ (holds : Sketch → Bool) where
  abbrev pub Keeps {ℓ} : {A : Type ℓ} → M A → Type 0
  Keeps m = (w : World) → holds w.sketch ≡ true → holds (final (m w)).sketch ≡ true

  after_outcome {ℓ κ} :
      {A : Type ℓ} {B : Type κ} (f : A → M B) (w : World)
      → ((a : A) → Keeps (f a))
      → (o : Outcome A) → holds (final o).sketch ≡ true
      → holds (final ((ended o >>= f) w)).sketch ≡ true
  after_outcome f w h (returns a v) p = h a v p
  after_outcome f w h (reboots v) p = p
  after_outcome f w h (unfinished v) p = p

  pub bind-Keeps {ℓ κ} :
      {A : Type ℓ} {B : Type κ} (m : M A) (f : A → M B)
      → Keeps m
      → ((a : A) → Keeps (f a))
      → Keeps (m >>= f)
  bind-Keeps m f k h w p = after_outcome f w h (m w) (k w p)

  pub then-Keeps {ℓ} :
      {B : Type ℓ} (m : M (Unit {0})) (k : M B) → Keeps m → Keeps k → Keeps (m >> k)
  then-Keeps m k h h' = bind-Keeps m (λ _. k) h (λ _. h')

  pub when-Keeps : (test : World → Bool) (m : M (Unit {0})) → Keeps m → Keeps (when test m)
  when-Keeps test m h w p = by_test (test w)
    where
      by_test : (t : Bool) → holds (final (if t then m w else returns tt w)).sketch ≡ true
      by_test true = h w p
      by_test false = p

  await-Keeps : (env : Env) (len : ℕ) (s : DhcpState) → Keeps (by_state env s len)
  unfolding renew_when_due discover await_offer await_ack
  await-Keeps env len bound w p = ground (arith, p)
  await-Keeps env len init w p = p
  await-Keeps env len selecting w p = ground (arith, p)
  await-Keeps env len requesting w p = ground (arith, p)
  await-Keeps env len renewing w p = ground (arith, p)

  pub dhcp-Keeps : (env : Env) (len : ℕ) → Keeps (dhcp_state_machine env len)
  unfolding dhcp_state_machine
  dhcp-Keeps env len =
      then-Keeps (when (λ w. not (is_bound w.dhcp.state)) (millis env >>= λ now. done))
        (λ w. by_state env w.dhcp.state len w)
        (when-Keeps (λ w. not (is_bound w.dhcp.state)) (millis env >>= λ now. done) (λ w p. p))
        (λ w. await-Keeps env len w.dhcp.state w)

  accept-Keeps : (port plen : ℕ) → Keeps (accept port plen)
  unfolding accept
  accept-Keeps port plen w p = ground (arith, p)

  module _ (env : Env) (browser : BrowserCallback → ℕ → ℕ → ℕ → M (Unit {0}))
      (on_sniff : ℕ → M (Unit {0}))
      (browser_keeps : (cb : BrowserCallback) (status off len : ℕ)
        → Keeps (browser cb status off len))
      (on_sniff_keeps : (at : ℕ) → Keeps (on_sniff at)) where
    www-Keeps :
        (fd status at len : ℕ)
        → Keeps (www_client_internal_result_cb env browser on_sniff fd status at len)
    unfolding www_client_internal_result_cb
    www-Keeps fd status at len w p = grind (arith, p, browser_keeps)

    result-Keeps :
        (fd status at len : ℕ) → Keeps (client_tcp_result env browser on_sniff fd status at len)
    unfolding client_tcp_result
    result-Keeps fd status at len w p = grind (arith, p, www-Keeps)

    established-Keeps : (plen len : ℕ) → Keeps (established env browser on_sniff plen len)
    unfolding established
    established-Keeps plen len w p =
        let m = w.net.buffer in
        let start = tcp_data_start m in
        let tcpstart = (if ltb (plen - 8) start then plen - 8 else start) in
        let save_len = (if ltb plen (u16 (tcpstart + len)) then plen - tcpstart else len) in
        let fd = bit_and (m 0x25 / 2 ^ 5) 0x7 in
        then-Keeps (client_tcp_result env browser on_sniff fd 0 tcpstart save_len)
          (on_net (acknowledge_data env browser on_sniff len)) (result-Keeps fd 0 tcpstart save_len)
          (λ v q. q) w p

    reset-Keeps :
        (fd : ℕ)
        → Keeps (
            client_tcp_result env browser on_sniff fd 3 0 0
            >> on_net (λ n. record n { tcp_client_state = 5 }))
    reset-Keeps fd =
        then-Keeps (client_tcp_result env browser on_sniff fd 3 0 0)
          (on_net (λ n. record n { tcp_client_state = 5 })) (result-Keeps fd 3 0 0) (λ v q. q)

    client_packet-Keeps : (plen : ℕ) → Keeps (client_packet env browser on_sniff plen)
    unfolding client_packet
    client_packet-Keeps plen w p =
        let m = w.net.buffer in
        ground (
          arith,
          p,
          established-Keeps plen (get_tcp_data_len m) w p,
          reset-Keeps (bit_and (m 0x25 / 2 ^ 5) 0x7) w p,
        )

    dispatch-Keeps : (plen : ℕ) → Keeps (dispatch env browser on_sniff plen)
    unfolding dispatch
    dispatch-Keeps plen w p = ground (
      arith,
      p,
      accept-Keeps w.net.hisport plen w p,
      then-Keeps {B = ℕ} (client_packet env browser on_sniff plen) (return 0)
          (client_packet-Keeps plen) (λ v q. q) w p,
    )

    abbrev run_callback : ℕ → Outcome (Unit {0}) → Outcome (Unit {0})
    run_callback src_ip o = elim o [
      | returns a w' ↦ on_sniff src_ip w'
      | reboots w' ↦ reboots w'
      | unfinished w' ↦ unfinished w'
    ]

    callback_keeps :
        (t : Bool) (at : ℕ) (o : Outcome (Unit {0}))
        → holds (final o).sketch ≡ true
        → holds (final (if t then run_callback at o else o)).sketch ≡ true
    callback_keeps true at (returns a w) p = on_sniff_keeps at w p
    callback_keeps true at (reboots w) p = p
    callback_keeps true at (unfinished w) p = p
    callback_keeps false at o p = p

    listeners_keep :
        (sniffers : List Mac) (at : ℕ) (o : Outcome (Unit {0}))
        → holds (final o).sketch ≡ true
        → holds
            (final (call_listeners (λ o. (final o).net.buffer) run_callback sniffers at o)).sketch
          ≡ true
    unfolding call_listeners
    listeners_keep [] at o p = p
    listeners_keep (mac ∷ rest) at o p =
        let t = mac_eqb (mac_at (final o).net.buffer 6) mac in
        listeners_keep rest at (if t then run_callback at o else o) (callback_keeps t at o p)

    sniff-Keeps : (plen : ℕ) → Keeps (sniff env browser on_sniff plen)
    unfolding sniff sniffer_process_packet
    sniff-Keeps plen w p = by_offset (src_ip_offset plen w.net.buffer)
      where
        by_offset :
            (found : Option ℕ)
            → holds
                (final {A = Unit {0}} (elim found [
                  | none ↦ returns tt w
                  | some src_ip ↦
                      call_listeners
                        (λ o. (final o).net.buffer)
                        run_callback
                        w.net.sniffers
                        src_ip
                        (returns tt w)
                ])).sketch
              ≡ true
        by_offset none = p
        by_offset (some at) = listeners_keep w.net.sniffers at (returns tt w) p

    pub handle-Keeps : (plen : ℕ) → Keeps (handle env browser on_sniff plen)
    unfolding handle
    handle-Keeps plen w p = ground (
      arith,
      p,
      bind-Keeps {B = ℕ} (sniff env browser on_sniff plen) (λ _. dispatch env browser on_sniff plen)
          (sniff-Keeps plen) (λ _. dispatch-Keeps plen) w p,
    )

    pub packet_loop-Keeps : (plen : ℕ) → Keeps (packet_loop env browser on_sniff plen)
    unfolding packet_loop
    packet_loop-Keeps plen =
        then-Keeps (when (λ w. w.net.using_dhcp) (dhcp_state_machine env plen))
          (handle env browser on_sniff plen)
          (when-Keeps (λ w. w.net.using_dhcp) (dhcp_state_machine env plen) (dhcp-Keeps env plen))
          (handle-Keeps plen)
