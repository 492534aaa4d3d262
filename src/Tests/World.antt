-- ===== src/Tests/World.antt =====
-- The firmware in its world: packetLoop, the calls of the server and their callbacks.
use ether_house.Base.{◌/◌, bytes, all_below, ◌≡◌, refl, true, false, [], ◌∷◌, ap, arith}
use ether_house.Net.{Net}
use ether_house.Net.Dhcp.{Dhcp, bound}
use ether_house.Http.{find_response, find_from, is_200, is_200_from, matches}
use ether_house.Sketch.{initial}
use ether_house.Sketch.Eeprom.{read_state_from_eeprom}
use ether_house.Sketch.Eeprom.Crc.{reference_update, reference_update-IsCrc16}
use ether_house.Sketch.Lights.Laws.{Shows, sync_leds-Shows}
use ether_house.Tests.Sketch.{zeros, booted, response}
use ether_house.Tests.Net.{host, ping}
use ether_house.World.{Env, World, returns, reboots, M, final, done}
use ether_house.World.Packets.{arp_packet, dispatch}
use ether_house.World.Api.{state_parse_callback, toggle_house}
use ether_house.Sketch.Lights.{bit_read, sync_leds}
use ether_house.World.Main.{loop}
use ether_house.World.Laws.Lamps.{shown}
use ether_house.World.Laws.Running.{loop-Keeps}
use ether_house.World.Laws.Arp.{learned, arp_packet_lem}
use ether_house.World.Laws.Tcp.{TcpStep, dispatch-TcpStep}
use ether_house.World.Laws.Callbacks.{IsToggled, toggle_locked, state_parse_callback_lem}

-- A quiet network, and a clock that advances by a millisecond at each look.
abbrev pub quiet : Env
quiet = record {
  clock = λ t. t;
  received_len = λ t. 0;
  received = λ t m. m;
  link_up = λ t. true;
  chip_found = true;
  crc16_update = reference_update;
  stack = zeros;
  flash_text = [];
  rounds = 6000;
}

abbrev pub leased : Dhcp
leased = record {
  state = bound;
  hostname = bytes "Arduino-00";
  current_xid = 0;
  state_timer = 0;
  lease_start = 0;
  lease_time = 3600000;
  dhcpip = ping.gwip;
}

abbrev pub started : World
started = record {
  net = ping;
  sketch = booted;
  dhcp = leased;
  dnstid_l = 0;
  broadcast_filter = true;
  broadcast_enabled = true;
  stash_map = zeros;
  ticks = 0;
}

abbrev calling : World
calling = record started { sketch = record booted { locked = true } }

-- The buffer holds a good response, at offset 100.
abbrev answered : World
answered = record calling { net = record ping { buffer = response } }

-- Two looks in each millisecond.
abbrev slow : Env
slow = record quiet { clock = λ t. t / 2; rounds = 12000 }

abbrev jumps : M (Unit {0})
jumps w = reboots w

-- The gateway's answer to the first ARP request.
abbrev gateway_answer : Net
gateway_answer =
    record (host
      ((0x15, 2) ∷ (0x16, 0x42) ∷ (0x1c, 192) ∷ (0x1d, 168) ∷ (0x1e, 1) ∷ (0x1f, 1) ∷ [])) {
        waitgwmac = 9;
      }

arp_packet_lem_example : arp_packet gateway_answer ≡ learned gateway_answer
arp_packet_lem_example =
    arp_packet_lem gateway_answer (λ e. absurd (omega (arith, ap (λ a. a.a3) e)))
      (λ e. absurd (omega (arith, ap (λ a. a.a3) e)))
      (λ e. absurd (omega (arith, ap (λ a. a.a3) e)))

dispatch-TcpStep_example :
    TcpStep started.net
      (final
        (dispatch quiet (λ cb status off len. done) (λ at. done) 60 started)).net.tcp_client_state
dispatch-TcpStep_example =
    dispatch-TcpStep quiet (λ cb status off len. done) (λ at. done) (λ cb status off len w. refl) 60
      started

-- The pins show the state while a call is under way.
abbrev calling_shown : World
calling_shown = record started { sketch = sync_leds (record booted { locked = true }) }

toggle_locked_example :
    (w' : World) × (toggle_house quiet done 0 true calling_shown ≡ returns tt w')
    × IsToggled 0 true calling_shown.sketch w'.sketch
    × (w'.net ≡ calling_shown.net)
unfolding sync_leds initial
toggle_locked_example =
    toggle_locked quiet done 0 true calling_shown refl (omega arith) (omega arith)
      (sync_leds-Shows (record booted { locked = true })).0

state_parse_callback_lem_example :
    (w' : World) × (state_parse_callback quiet 100 20 answered ≡ returns tt w')
    × (w'.sketch.state ≡ b'5')
    × (w'.sketch.locked ≡ false)
    × Shows w'.sketch
    × (let q =
          read_state_from_eeprom reference_update zeros (initial zeros zeros w'.sketch.eeprom) in
        (q.state ≡ b'5') × (q.target_ip ≡ answered.sketch.target_ip))
unfolding find_response find_from is_200 is_200_from matches initial
state_parse_callback_lem_example =
    state_parse_callback_lem quiet reference_update-IsCrc16 100 20 19 answered zeros zeros refl
      (omega arith) (omega arith)

loop-Keeps_example : shown (final (loop quiet started)).sketch ≡ true
unfolding initial bit_read all_below
loop-Keeps_example = loop-Keeps quiet started refl
