-- ===== src/Net/Dhcp/Message.antt =====
-- The messages that dhcp.cpp sends.
use ether_house.Base.{
  Holds, Holds-append, Holds-ext, Holds-store, ℕ, ◌+◌, ◌≤◌, ◌≡◌, refl, sym, ap, ◌∙◌, Bool, true,
  false, if◌then◌else◌, List, [], ◌∷◌, ◌++◌, Memory, subst, octets, length, length-append, arith,
  fill, store,
}
use ether_house.Net.{Net, Frame}
use ether_house.Sketch.{all_ones}
use ether_house.Net.Frames.Requests.{udp_transmit}
use ether_house.Net.Frames.Laws.Udp.{
  udp_transmit_far, udp_transmit-sent, udp_prepare-sent, udp_prepare_far,
}
use ether_house.Net.Dhcp.{
  Dhcp, is_init, is_bound, is_selecting, mac_bytes, dhcp_discover, dhcp_request, message_options,
  dhcp_header, send_dhcp_message, options_at,
}
use ether_house.Net.Dhcp.Options.{DhcpOption, server_identifier, message_type, other, encode}

-- The options of a message, as a server reads them.
abbrev pub client_options : Dhcp → Net → List DhcpOption
client_options d n =
    message_type (if is_init d.state then dhcp_discover else dhcp_request)
    ∷ other 61 (1 ∷ mac_bytes n.mymac)
    ∷ other 12 d.hostname
    ∷ ((if is_selecting d.state
          then other 50 (octets n.myip) ∷ server_identifier d.dhcpip ∷ []
          else [])
        ++ other 55 (1 ∷ 3 ∷ 6 ∷ []) ∷ [])

cookie : List ℕ
cookie = 99 ∷ 130 ∷ 83 ∷ 99 ∷ []

message_options-encode :
    (d : Dhcp) (n : Net)
    → length d.hostname ≡ 10
    → message_options d n ≡ cookie ++ encode (client_options d n)
unfolding message_options cookie
message_options-encode d n h =
    ap (front 10) (back (is_selecting d.state))
    ∙ ap (λ x. front x (encode (tail (is_selecting d.state)))) (sym h)
  where
    tail : Bool → List DhcpOption
    tail t =
        (if t then other 50 (octets n.myip) ∷ server_identifier d.dhcpip ∷ [] else [])
        ++ other 55 (1 ∷ 3 ∷ 6 ∷ []) ∷ []

    front : ℕ → List ℕ → List ℕ
    front x rest =
        99
        ∷ 130
        ∷ 83
        ∷ 99
        ∷ 53
        ∷ 1
        ∷ (if is_init d.state then dhcp_discover else dhcp_request)
        ∷ 61
        ∷ 7
        ∷ 1
        ∷ (mac_bytes n.mymac ++ 12 ∷ x ∷ (d.hostname ++ rest))

    back :
        (t : Bool)
        → (if t then 50 ∷ 4 ∷ (octets n.myip ++ 54 ∷ 4 ∷ octets d.dhcpip) else [])
            ++ 55 ∷ 3 ∷ 1 ∷ 3 ∷ 6 ∷ 255 ∷ []
          ≡ encode (tail t)
    back true = refl
    back false = refl

length-message_options :
    (d : Dhcp) (n : Net)
    → length d.hostname ≡ 10
    → length (message_options d n) ≡ (if is_selecting d.state then 46 else 34)
unfolding message_options
length-message_options d n h = omega (arith, by_state (is_selecting d.state))
  where
    by_state :
        (t : Bool)
        → 18
            + length (
                d.hostname
                ++ ((if t then 50 ∷ 4 ∷ (octets n.myip ++ 54 ∷ 4 ∷ octets d.dhcpip) else [])
                    ++ 55 ∷ 3 ∷ 1 ∷ 3 ∷ 6 ∷ 255 ∷ []))
          ≡ (if t then 46 else 34)
    by_state true = omega (
      arith,
      h,
      length-append d.hostname
          (50 ∷ 4 ∷ (octets n.myip ++ 54 ∷ 4 ∷ octets d.dhcpip) ++ 55 ∷ 3 ∷ 1 ∷ 3 ∷ 6 ∷ 255 ∷ []),
    )
    by_state false = omega (arith, h, length-append d.hostname (55 ∷ 3 ∷ 1 ∷ 3 ∷ 6 ∷ 255 ∷ []))

dhcp_header_far : (d : Dhcp) (n : Net) (j : ℕ) → 278 ≤ j → (dhcp_header d n).buffer j ≡ n.buffer j
unfolding dhcp_header
dhcp_header_far d n j h = ground (
  arith,
  udp_prepare_far 68 (if is_bound d.state then d.dhcpip else all_ones) 67
      (record n { buffer = fill n.buffer 0 0 278 }) j (omega arith),
)

dhcp_header-sent : (d : Dhcp) (n : Net) → (dhcp_header d n).sent ≡ n.sent
unfolding dhcp_header
dhcp_header-sent d n =
    udp_prepare-sent 68 (if is_bound d.state then d.dhcpip else all_ones) 67
      (record n { buffer = fill n.buffer 0 0 278 })

-- A message of DHCP is one frame of 312 bytes, or of 324 in the state selecting. Its options are the
-- client's, as RFC 2132 writes them; the buffer changes below byte 324 only. For a host name of ten
-- characters.
pub send_dhcp_message_lem :
    (d : Dhcp) (n : Net)
    → length d.hostname ≡ 10
    → (f : Frame) × ((send_dhcp_message d n).sent ≡ f ∷ n.sent)
      × (f.size ≡ (if is_selecting d.state then 324 else 312))
      × Holds f.bytes options_at (encode (client_options d n))
      × ((j : ℕ) → 324 ≤ j → f.bytes j ≡ n.buffer j)
unfolding send_dhcp_message cookie
send_dhcp_message_lem d n h = (
  record { size = 42 + k; bytes = final_bytes },
  udp_transmit-sent k n2
      ∙ ap (λ l. record { size = 42 + k; bytes = final_bytes } ∷ l) (dhcp_header-sent d n),
  ground (arith, size),
  (Holds-append final_bytes 278 cookie (encode (client_options d n)) (
      subst (Holds final_bytes 278) (message_options-encode d n h) (
        Holds-ext n2.buffer final_bytes 278 options
          (λ j l g. sym (udp_transmit_far k n2 j (omega arith)))
          (Holds-store (dhcp_header d n).buffer 278 options)))).1,
  λ j l.
      udp_transmit_far k n2 j (omega arith)
      ∙ ground (arith, dhcp_header_far d n j (omega arith), size),
)
  where
    options : List ℕ
    options = message_options d n

    k : ℕ
    k = 236 + length options

    n2 : Net
    n2 = record (dhcp_header d n) {
      buffer = store (dhcp_header d n).buffer 278 options (length options);
    }

    final_bytes : Memory
    final_bytes = (udp_transmit k n2).buffer

    size : length options ≡ (if is_selecting d.state then 46 else 34)
    size = length-message_options d n h
