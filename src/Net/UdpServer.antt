-- ===== src/Net/UdpServer.antt =====
-- libraries/ethercard/udpserver.cpp: the listeners for UDP packets. `callback` is a number for the
-- function.
pub mod Laws
use ether_house.Base.{
  ℕ, ◌+◌, ◌-◌, ◌*◌, ◌/◌, ◌%◌, ◌^◌, Bool, true, false, ◌&&◌, ◌||◌, ◌==◌, ltb, if◌then◌else◌, List,
  [], ◌∷◌, ◌++◌, Memory, u8, u16, length,
}
use ether_house.Net.Layout.{udp_dst_port_h_p, udp_dst_port_l_p}

abbrev pub udpserver_maxlisteners : ℕ
udpserver_maxlisteners = 8

pub record UdpServerListener : Type 0 where
  pub callback : ℕ
  pub port : ℕ
  pub listening : Bool

-- The listeners in the order of their registration.
unfoldable pub listen_on_port : ℕ → ℕ → List UdpServerListener → List UdpServerListener
listen_on_port callback port listeners =
    if ltb (length listeners) udpserver_maxlisteners
    then listeners ++ (record { callback = callback; port = port; listening = true }) ∷ []
    else listeners

-- The packet in the buffer is for the listener's port.
abbrev pub is_for : UdpServerListener → Memory → Bool
is_for l m = m udp_dst_port_h_p == l.port / 2 ^ 8 && m udp_dst_port_l_p == u8 l.port

-- The loops of udpServerPauseListenOnPort and udpServerResumeListenOnPort, which look at the packet in
-- the buffer and not at their argument.
unfoldable pub set_listening : Bool → Memory → List UdpServerListener → List UdpServerListener
set_listening value m [] = []
set_listening value m (l ∷ rest) =
    (if is_for l m then record l { listening = value } else l) ∷ set_listening value m rest

abbrev pub pause_listen_on_port : ℕ → Memory → List UdpServerListener → List UdpServerListener
pause_listen_on_port port = set_listening false

abbrev pub resume_listen_on_port : ℕ → Memory → List UdpServerListener → List UdpServerListener
resume_listen_on_port port = set_listening true

unfoldable pub udp_server_listening : List UdpServerListener → Bool
udp_server_listening listeners = ltb 0 (length listeners)

-- UDP_LEN less the header's length.
abbrev pub datalen : Memory → ℕ
datalen m = u16 (m 0x26 * 2 ^ 8 + m 0x27 + 2 ^ 16 - 8)

-- `call` is what a callback does, with the length of the data; it may change the buffer.
module _ {ℓ} {S : Type ℓ} (buffer : S → Memory) (call : UdpServerListener → ℕ → S → S) where
  unfoldable pub has_processed_packet : List UdpServerListener → S → S × Bool
  has_processed_packet [] s = (s, false)
  has_processed_packet (l ∷ rest) s =
      let hit = is_for l (buffer s) && l.listening in
      let s' = (if hit then call l (datalen (buffer s)) s else s) in
      let (s'', processed) = has_processed_packet rest s' in (s'', hit || processed)
