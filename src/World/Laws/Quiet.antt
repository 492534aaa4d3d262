-- ===== src/World/Laws/Quiet.antt =====
-- While the callback of client_firmware/sniffer.ino is under way, the sniffer does nothing.
use ether_house.Base.{
  ℕ, ◌≡◌, refl, ap, ◌∙◌, Bool, true, false, if◌then◌else◌, List, [], ◌∷◌, Option, Option-cases,
  none, some, Mac, mac_eqb, mac_at, inl, inr,
}
use ether_house.Http.{find_response}
use ether_house.Net.{BrowserCallback, no_browser, macs_parse, state_parse, api_set}
use ether_house.Net.Sniffer.{sniffer_process_packet, call_listeners, src_ip_offset}
use ether_house.Sketch.Lights.{sync_leds}
use ether_house.Sketch.Eeprom.{save_state_to_eeprom}
use ether_house.World.{Env, World, Outcome, returns, reboots, unfinished, M, final}
use ether_house.World.Packets.{
  sniff, dispatch, client_packet, established, client_tcp_result, www_client_internal_result_cb,
  acknowledge_data, syn_sent, client_tcp_datafill, closing,
}
use ether_house.World.Syslog.{syslog_bytes, syslog_ram}
use ether_house.World.Api.{
  macs_parse_callback, state_parse_callback, api_set_callback, browser, packet_sniffer_callback,
}
use ether_house.World.Laws.Keeps.{Keeps}
use ether_house.World.Laws.Agrees.{nested}

macs_parse-nested : (env : Env) (off len : ℕ) → Keeps nested (macs_parse_callback env off len)
unfolding macs_parse_callback
macs_parse-nested env off len w p = elim (Option-cases (find_response w.net.buffer off len)) [
  | inl e ↦ rw (macs_parse_callback, e) p
  | inr (k, e) ↦ rw (macs_parse_callback, e) p
]

state_parse-nested : (env : Env) (off len : ℕ) → Keeps nested (state_parse_callback env off len)
unfolding state_parse_callback syslog_ram syslog_bytes save_state_to_eeprom sync_leds
state_parse-nested env off len w p = elim (Option-cases (find_response w.net.buffer off len)) [
  | inl e ↦ rw (state_parse_callback, e) p
  | inr (k, e) ↦ rw (state_parse_callback, e) p
]

pub browser-nested :
    (env : Env) (cb : BrowserCallback) (status off len : ℕ)
    → Keeps nested (browser env cb status off len)
unfolding browser api_set_callback
browser-nested env no_browser status off len w p = p
browser-nested env macs_parse status off len w p = macs_parse-nested env off len w p
browser-nested env state_parse status off len w p = state_parse-nested env off len w p
browser-nested env api_set status off len w p = p

-- Within the callback, a callback returns at once.
pub callback_quiet :
    (env : Env) (p : M (Unit {0})) (at : ℕ) (w : World)
    → nested w.sketch ≡ true
    → packet_sniffer_callback env p at w ≡ returns tt w
unfolding packet_sniffer_callback
callback_quiet env p at w h = simp h

pub callback-nested :
    (env : Env) (p : M (Unit {0})) (at : ℕ) → Keeps nested (packet_sniffer_callback env p at)
callback-nested env p at w h = rw (callback_quiet env p at w h) h

module _ (env : Env) (br : BrowserCallback → ℕ → ℕ → ℕ → M (Unit {0})) where
  abbrev run_callback : (ℕ → M (Unit {0})) → ℕ → Outcome (Unit {0}) → Outcome (Unit {0})
  run_callback s src_ip o = elim o [
    | returns a w' ↦ s src_ip w'
    | reboots w' ↦ reboots w'
    | unfinished w' ↦ unfinished w'
  ]

  module _ (s : ℕ → M (Unit {0})) (w : World) (quiet : (at : ℕ) → s at w ≡ returns tt w) where
    called : (t : Bool) (at : ℕ) → (if t then s at w else returns tt w) ≡ returns tt w
    called true at = quiet at
    called false at = refl

    listeners_quiet :
        (sniffers : List Mac) (at : ℕ)
        → call_listeners (λ o. (final o).net.buffer) (run_callback s) sniffers at (returns tt w)
          ≡ returns tt w
    unfolding call_listeners
    listeners_quiet [] at = refl
    listeners_quiet (mac ∷ rest) at =
        ap (call_listeners (λ o. (final o).net.buffer) (run_callback s) rest at)
          (called (mac_eqb (mac_at w.net.buffer 6) mac) at)
        ∙ listeners_quiet rest at

    pub sniff_quiet : (plen : ℕ) → sniff env br s plen w ≡ returns tt w
    unfolding sniff sniffer_process_packet
    sniff_quiet plen = by_offset (src_ip_offset plen w.net.buffer)
      where
        by_offset :
            (found : Option ℕ)
            → ◌≡◌ {A = Outcome (Unit {0})}
                (elim found [
                  | none ↦ returns tt w
                  | some src_ip ↦
                      call_listeners
                        (λ o. (final o).net.buffer)
                        (run_callback s)
                        w.net.sniffers
                        src_ip
                        (returns tt w)
                ])
                (returns tt w)
        by_offset none = refl
        by_offset (some at) = listeners_quiet w.net.sniffers at

  -- The rest of packetLoop does not call the sniffer.
  pub dispatch_same :
      (s s' : ℕ → M (Unit {0})) (plen : ℕ) (w : World)
      → dispatch env br s plen w ≡ dispatch env br s' plen w
  unfolding dispatch client_packet established client_tcp_result www_client_internal_result_cb
      acknowledge_data syn_sent client_tcp_datafill closing
  dispatch_same s s' plen w = refl
