-- ===== src/Tests/UdpServer.antt =====
-- A packet for port 514, and a listener for it that is paused by the number of another port.
use ether_house.Base.{true, false, [], ◌∷◌, Memory, ◌≡◌, writes}
use ether_house.Net.UdpServer.{UdpServerListener, pause_listen_on_port, has_processed_packet}
use ether_house.Net.UdpServer.Laws.{has_processed_packet-pause}
use ether_house.Tests.Sketch.{zeros}

abbrev packet : Memory
packet = writes zeros ((0x24, 2) ∷ (0x25, 2) ∷ [])

abbrev syslog_listener : UdpServerListener
syslog_listener = record { callback = 1; port = 514; listening = true }

has_processed_packet-pause_example :
    has_processed_packet
      (λ m. m)
      (λ l len m. zeros)
      (pause_listen_on_port 53 packet (syslog_listener ∷ []))
      packet
    ≡ (packet, false)
has_processed_packet-pause_example =
    has_processed_packet-pause (λ m. m) (λ l len m. zeros) 53 (syslog_listener ∷ []) packet
