-- ===== src/Net/UdpServer/Laws.antt =====
-- Registering and pausing listeners, and the packets that they get.
use ether_house.Base.{
  ℕ, ◌≤◌, ◌≡◌, refl, ap, ◌∙◌, Bool, true, false, ◌&&◌, ◌||◌, if◌then◌else◌, List, [], ◌∷◌, Memory,
  length, length-append, arith,
}
use ether_house.Net.UdpServer.{
  UdpServerListener, udpserver_maxlisteners, listen_on_port, is_for, set_listening,
  pause_listen_on_port, has_processed_packet, datalen,
}

-- A listener as the loop of the pause leaves it.
abbrev deafened : Memory → UdpServerListener → UdpServerListener
deafened m l = if is_for l m then record l { listening = false } else l

deaf :
    (m : Memory) (l : UdpServerListener)
    → (is_for (deafened m l) m && (deafened m l).listening) ≡ false
deaf m l = by_test (is_for l m) refl
  where
    by_test :
        (t : Bool)
        → is_for l m ≡ t
        → (let l' = (if t then record l { listening = false } else l) in
            is_for l' m && l'.listening)
          ≡ false
    by_test true e = ground arith
    by_test false e = ap (λ b. b && l.listening) e

-- While a packet is in the buffer, pausing any port makes every listener for the packet deaf: it is
-- handed to nobody, whatever the port that was to be paused.
pub has_processed_packet-pause {ℓ} :
    {S : Type ℓ} (buffer : S → Memory) (call : UdpServerListener → ℕ → S → S) (port : ℕ)
    (listeners : List UdpServerListener) (s : S)
    → has_processed_packet buffer call (pause_listen_on_port port (buffer s) listeners) s
      ≡ (s, false)
unfolding has_processed_packet set_listening
has_processed_packet-pause buffer call port [] s = refl
has_processed_packet-pause {S} buffer call port (l ∷ rest) s =
    ap pass (deaf (buffer s) l) ∙ has_processed_packet-pause buffer call port rest s
  where
    pass : Bool → S × Bool
    pass hit =
        let l' = deafened (buffer s) l in
        let (s', processed) =
          has_processed_packet buffer call (set_listening false (buffer s) rest)
            (if hit then call l' (datalen (buffer s)) s else s) in
        (s', hit || processed)

-- There are never more listeners than the table has places.
pub length-listen_on_port :
    (callback port : ℕ) (listeners : List UdpServerListener)
    → length listeners ≤ udpserver_maxlisteners
    → length (listen_on_port callback port listeners) ≤ udpserver_maxlisteners
unfolding listen_on_port
length-listen_on_port callback port listeners h = ground (
  arith,
  h,
  length-append listeners (record { callback = callback; port = port; listening = true } ∷ []),
)
