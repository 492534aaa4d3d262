-- ===== src/Tests/Dhcp.antt =====
-- The DHCP client on concrete messages, the depth of polling, and the host without an address or a
-- gateway.
use ether_house.Base.{◌<◌, ◌^◌}
use ether_house.Sketch.{initial}
use ether_house.Net.{url_on, api_set}
use ether_house.Net.Lan.{is_ip_local}
use ether_house.Sketch.{all_zeros}
use ether_house.World.{reboots, done}
use ether_house.World.Api.{call_server}
use ether_house.World.Packets.{packet_loop}
use ether_house.World.Laws.Passes.{Passes, Asks, gateway_asked_again}
use ether_house.World.Laws.Address.{LogsReset, call_server_invalid}
use ether_house.Base.{
  Holds, Holds-store, bytes, ◌≡◌, ◌≤◌, ◌&&◌, ◌==◌, refl, [], ◌∷◌, List, ℕ, length, arith, ip_at,
  store, Ip, ◌+◌, if◌then◌else◌,
}
use ether_house.Net.{Net, Frame}
use ether_house.Net.Layout.{udp_data_p, udp_src_port_l_p}
use ether_house.Net.Dhcp.{
  options_at, process_dhcp_offer, dhcp_received_message_type, send_dhcp_message, dhcp_offer,
  dhcp_src_port, xid_at, is_selecting,
}
use ether_house.Net.Dhcp.Options.{
  DhcpOption, subnet_mask, server_identifier, routers, lease_seconds, message_type, other, encode,
  learn_options, has_type,
}
use ether_house.Net.Dhcp.Laws.{process_dhcp_offer-learn, dhcp_received_message_type_iff}
use ether_house.Net.Dhcp.Message.{send_dhcp_message_lem, client_options}
use ether_house.Tests.Sketch.{zeros}
use ether_house.Tests.Net.{ping}
use ether_house.Tests.World.{quiet, leased, started}
use ether_house.World.{World, returns}
use ether_house.World.Lease.{dhcp_state_machine}
use ether_house.World.Api.{poll}
use ether_house.World.Laws.Lease.{LeaseStep, machine_time, dhcp_state_machine-LeaseStep}
use ether_house.World.Laws.Nested.{poll_depth}

abbrev address : ℕ → Ip
address last = record { a0 = 192; a1 = 168; a2 = 1; a3 = last }

abbrev offered : List DhcpOption
offered =
    message_type 2
    ∷ subnet_mask (record { a0 = 255; a1 = 255; a2 = 255; a3 = 0 })
    ∷ routers (address 1) []
    ∷ other 15 (b'a' ∷ [])
    ∷ lease_seconds 86400
    ∷ server_identifier (address 2)
    ∷ []

abbrev offer : Net
offer = record ping { buffer = store zeros options_at (encode offered) (length (encode offered)) }

process_dhcp_offer-learn_example :
    process_dhcp_offer 400 (offer, leased)
    ≡ learn_options offered (record offer { myip = ip_at offer.buffer (udp_data_p + 16) }, leased)
process_dhcp_offer-learn_example =
    process_dhcp_offer-learn offered 400 offer leased
      (tt, (tt, (tt, (omega arith, (omega arith, (tt, tt))))))
      (Holds-store zeros options_at (encode offered)) (omega arith)

dhcp_received_message_type_iff_example :
    dhcp_received_message_type leased (options_at + length (encode offered)) dhcp_offer offer.buffer
    ≡ (offer.buffer udp_src_port_l_p == dhcp_src_port
        && xid_at offer.buffer == leased.current_xid
        && has_type dhcp_offer offered)
dhcp_received_message_type_iff_example =
    dhcp_received_message_type_iff offered (options_at + length (encode offered)) dhcp_offer leased
      offer.buffer (tt, (tt, (tt, (omega arith, (omega arith, (tt, tt))))))
      (Holds-store zeros options_at (encode offered)) refl

send_dhcp_message_lem_example :
    (f : Frame) × ((send_dhcp_message leased ping).sent ≡ f ∷ ping.sent)
    × (f.size ≡ (if is_selecting leased.state then 324 else 312))
    × Holds f.bytes options_at (encode (client_options leased ping))
    × ((j : ℕ) → 324 ≤ j → f.bytes j ≡ ping.buffer j)
unfolding bytes
send_dhcp_message_lem_example = send_dhcp_message_lem leased ping refl

dhcp_state_machine-LeaseStep_example :
    (w' : World) × (dhcp_state_machine quiet 0 started ≡ returns tt w')
    × LeaseStep 0 (machine_time quiet started) started w'
dhcp_state_machine-LeaseStep_example = dhcp_state_machine-LeaseStep quiet 0 started

poll_depth_example : poll quiet 5 started ≡ poll quiet 2 started
poll_depth_example = poll_depth quiet 3 started

-- The host waits for the gateway's address.
abbrev without_gateway : World
without_gateway = record started { net = record ping { waitgwmac = 1 } }

gateway_asked_again_example :
    (k : ℕ) × (w1 : World) × (w2 : World) × (k < 2 ^ 16)
    × Passes quiet (λ cb status off len. done) (λ at. done) k without_gateway w1
    × (packet_loop quiet (λ cb status off len. done) (λ at. done) 0 w1 ≡ returns 0 w2)
    × (w1.net.gwip ≡ ping.gwip)
    × Asks w1.net w2.net
gateway_asked_again_example =
    gateway_asked_again quiet (λ cb status off len. done) (λ at. done) (λ t. refl) without_gateway
      refl (omega arith)

-- Before DHCP has given an address.
abbrev no_address : World
no_address = record started { net = record ping { myip = all_zeros } }

call_server_invalid_example :
    (w' : World) × (call_server quiet done url_on api_set "Sending ON for my house: 0" done
        no_address
      ≡ reboots w')
    × (w'.net.tcp_client_state ≡ ping.tcp_client_state)
    × (w'.net.client_urlbuf ≡ ping.client_urlbuf)
    × (w'.sketch ≡ started.sketch)
    × LogsReset no_address.net w'.net
unfolding is_ip_local initial
call_server_invalid_example =
    call_server_invalid quiet done done url_on api_set "Sending ON for my house: 0" no_address refl
      refl
