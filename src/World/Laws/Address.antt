-- ===== src/World/Laws/Address.antt =====
-- A call of the server without an address of one's own, and the request for the gateway's.
use Prim.Native.String.{String}
use ether_house.Base.{
  ℕ, ◌≤◌, ◌∷◌, sym, ap, subst, ltb, if◌then◌else◌, store, Holds, Holds-ext, Holds-store, ◌+◌, ◌≡◌,
  refl, ◌∙◌, Bool, true, false, not, List, arith, Ip, u8, u32, length, bytes,
}
use ether_house.Net.Frames.Laws.Udp.{udp_prepare-sent, udp_transmit-sent, udp_transmit_far}
use ether_house.Net.{Net, Frame, Url, BrowserCallback}
use ether_house.Net.Lan.{is_ip_local}
use ether_house.Net.Client.{browse_url}
use ether_house.Net.Frames.{fill_ip_hdr_checksum, set_macs, set_mac_and_ips}
use ether_house.Net.Frames.Requests.{send_udp, udp_prepare, udp_transmit, address_to, ip_template}
use ether_house.Sketch.{all_ones, http_timeout}
use ether_house.World.{Env, World, M, reboots, when, ◌>>◌, ◌>>=◌, on_net, millis}
use ether_house.World.Syslog.{syslog, syslog_bytes, reboot, message}
use ether_house.World.Api.{call_server, validate_dhcp, set_locked, wait_unlocked, wait_for_tcp}

send_udp-tcp :
    (text : List ℕ) (len sport : ℕ) (dip : Ip) (dport : ℕ) (n : Net)
    → ((send_udp text len sport dip dport n).tcp_client_state ≡ n.tcp_client_state)
      × ((send_udp text len sport dip dport n).client_urlbuf ≡ n.client_urlbuf)
unfolding send_udp udp_prepare udp_transmit fill_ip_hdr_checksum address_to ip_template
    set_mac_and_ips set_macs
send_udp-tcp text len sport dip dport n = (ground arith, ground arith)

-- The frame has the text as the data of UDP.
abbrev pub Carries : List ℕ → Frame → Type 0
Carries t f = (f.size ≡ 42 + length t) × Holds f.bytes 42 t

send_udp-Carries :
    (t : List ℕ) (len sport : ℕ) (dip : Ip) (dport : ℕ) (n : Net)
    → len ≡ length t
    → length t ≤ 220
    → (f : Frame) × ((send_udp t len sport dip dport n).sent ≡ f ∷ n.sent) × Carries t f
unfolding send_udp
send_udp-Carries t len sport dip dport n e le = subst Sent (sym test) (
  frame,
  udp_transmit-sent (length t) filled ∙ ap (λ l. frame ∷ l) (udp_prepare-sent sport dip dport n),
  (refl, held),
)
  where
    run : ℕ → Net
    run d = udp_transmit d (record (udp_prepare sport dip dport n) {
      buffer = store (udp_prepare sport dip dport n).buffer 42 t d;
    })

    Sent : ℕ → Type 0
    Sent d = (f : Frame) × ((run d).sent ≡ f ∷ n.sent) × Carries t f

    test : (if ltb 220 len then 220 else len) ≡ length t
    test = ground (arith, e, le)

    filled : Net
    filled = record (udp_prepare sport dip dport n) {
      buffer = store (udp_prepare sport dip dport n).buffer 42 t (length t);
    }

    frame : Frame
    frame = record { size = 42 + length t; bytes = (udp_transmit (length t) filled).buffer }

    held : Holds (udp_transmit (length t) filled).buffer 42 t
    held =
        Holds-ext filled.buffer (udp_transmit (length t) filled).buffer 42 t
          (λ j l g. sym (udp_transmit_far (length t) filled j l))
          (Holds-store (udp_prepare sport dip dport n).buffer 42 t)

-- The two messages, and no other frame.
abbrev pub LogsReset : Net → Net → Type 0
LogsReset n n' =
    (f : Frame) × (f' : Frame) × (n'.sent ≡ f' ∷ f ∷ n.sent)
    × Carries (bytes "<62>etherhouse0 Invalid dhcp") f
    × Carries (bytes "<62>etherhouse0 Rebooting now.") f'

logged-LogsReset :
    (n : Net)
    → LogsReset n (
        send_udp
          (message (bytes "Rebooting now."))
          (u8 (length (message (bytes "Rebooting now."))))
          514
          all_ones
          514
          (send_udp
            (message (bytes "Invalid dhcp"))
            (u8 (length (message (bytes "Invalid dhcp"))))
            514
            all_ones
            514
            n))
unfolding bytes
logged-LogsReset n =
    let (f, e, c) =
      send_udp-Carries (bytes "<62>etherhouse0 Invalid dhcp") 28 514 all_ones 514 n refl
        (omega arith) in
    let (f', e', c') =
      send_udp-Carries (bytes "<62>etherhouse0 Rebooting now.") 30 514 all_ones 514
        (send_udp (bytes "<62>etherhouse0 Invalid dhcp") 28 514 all_ones 514 n) refl
        (omega arith) in
    (f, f', e' ∙ ap (λ l. f' ∷ l) e, c, c')

-- Without a valid address of its own the host never calls the server: where no call is under way,
-- it sends two frames, which carry the log lines of the invalid address and of the restart, and
-- no other, and resets the program; no connection is begun and the sketch's variables stay.
pub call_server_invalid :
    (env : Env) (poll late : M (Unit {0})) (url : Url) (callback : BrowserCallback)
    (logstring : String) (w : World)
    → w.sketch.locked ≡ false
    → is_ip_local w.net w.net.myip ≡ false
    → (w' : World) × (call_server env poll url callback logstring late w ≡ reboots w')
      × (w'.net.tcp_client_state ≡ w.net.tcp_client_state)
      × (w'.net.client_urlbuf ≡ w.net.client_urlbuf)
      × (w'.sketch ≡ w.sketch)
      × LogsReset w.net w'.net
unfolding call_server validate_dhcp syslog syslog_bytes reboot
call_server_invalid env poll late url callback logstring w free invalid =
    by_tests w.sketch.locked (is_ip_local w.net w.net.myip) free invalid
  where
    logged : Net → List ℕ → Net
    logged n t = send_udp (message t) (u8 (length (message t))) 514 all_ones 514 n

    request : M (Unit {0})
    request v = on_net (λ n. browse_url url callback (record n { hisip = v.sketch.api_ip })) v

    -- The call, where its two tests come out as `l` and `v`.
    call : Bool → Bool → M (Unit {0})
    call l v =
        when (λ _. not l)
          (when (λ _. not v) (syslog "Invalid dhcp" >> reboot)
            >> syslog logstring
            >> request
            >> millis env
            >>= λ now.
                set_locked true
                >> wait_unlocked env poll late env.rounds (u32 (now + http_timeout))
                >> wait_for_tcp env poll)

    by_tests :
        (l v : Bool)
        → l ≡ false
        → v ≡ false
        → (w' : World) × (call l v w ≡ reboots w')
          × (w'.net.tcp_client_state ≡ w.net.tcp_client_state)
          × (w'.net.client_urlbuf ≡ w.net.client_urlbuf)
          × (w'.sketch ≡ w.sketch)
          × LogsReset w.net w'.net
    by_tests true v e e' = absurd (ground (arith, e))
    by_tests false true e e' = absurd (ground (arith, e'))
    by_tests false false e e' =
        let n1 = logged w.net (bytes "Invalid dhcp") in
        let (s1, u1) =
          send_udp-tcp (message (bytes "Invalid dhcp"))
            (u8 (length (message (bytes "Invalid dhcp")))) 514 all_ones 514 w.net in
        let (s2, u2) =
          send_udp-tcp (message (bytes "Rebooting now."))
            (u8 (length (message (bytes "Rebooting now.")))) 514 all_ones 514 n1 in
        (
          record w { net = logged n1 (bytes "Rebooting now.") },
          refl,
          s2 ∙ s1,
          u2 ∙ u1,
          refl,
          logged-LogsReset w.net,
        )
