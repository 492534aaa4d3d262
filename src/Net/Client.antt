-- ===== src/Net/Client.antt =====
-- The functions of tcpip.cpp that start a connection and choose whom the host talks to.
use ether_house.Base.{
  ℕ, ◌+◌, ◌/◌, ◌^◌, bit_and, Bool, true, false, not, ◌&&◌, ◌==◌, if◌then◌else◌, Option, none, some,
  Ip, Mac, u8,
}
use ether_house.Net.{
  Net, ResultCallback, www_result, DatafillCallback, www_datafill, BrowserCallback, Url,
}
use ether_house.Net.Lan.{is_lan, update_broadcast_address}
use ether_house.Net.Frames.{check_ip_message_is_from}
use ether_house.Net.Frames.Requests.{pingpattern}

unfoldable pub client_waiting_gw : Net → Bool
client_waiting_gw n = bit_and n.waitgwmac 2 == 0

unfoldable pub client_waiting_dns : Net → Bool
client_waiting_dns n =
    if is_lan n n.myip n.dnsip then not n.has_dns_mac else bit_and n.waitgwmac 2 == 0

unfoldable pub client_waiting_dest_addr : Net → Bool
client_waiting_dest_addr n = not n.has_dest_mac

unfoldable pub force_dest_mac : Mac → Net → Net
force_dest_mac mac n = record n {
  destmacaddr = mac;
  has_dest_mac = true;
  waiting_for_dest_mac = false;
}

unfoldable pub set_gw_ip : Ip → Net → Net
set_gw_ip ip n = record n { delaycnt = 0; waitgwmac = 1; gwip = ip }

unfoldable pub client_tcp_req : ResultCallback → DatafillCallback → ℕ → Net → Net
client_tcp_req result_cb datafill_cb port n = record n {
  client_tcp_result_cb = result_cb;
  client_tcp_datafill_cb = datafill_cb;
  tcp_client_port_h = u8 (port / 2 ^ 8);
  tcp_client_port_l = u8 port;
  tcp_client_state = 1;
  tcp_fd = bit_and (n.tcp_fd + 1) 7;
}

-- The host name and the header lines are the same in all calls of the firmware.
unfoldable pub browse_url : Url → BrowserCallback → Net → Net
browse_url url callback n =
    let n1 =
      client_tcp_req www_result www_datafill n.hisport
        (record n { client_urlbuf = url; client_browser_cb = callback }) in
    record n1 { www_fd = n1.tcp_fd }

unfoldable pub packet_loop_icmp_check_reply : Ip → Net → Bool
packet_loop_icmp_check_reply monitored n =
    n.buffer 0x17 == 1
    && n.buffer 0x22 == 0
    && n.buffer 0x2a == pingpattern
    && check_ip_message_is_from monitored n

unfoldable pub persist_connection : Bool → Net → Net
persist_connection persist n = record n { persist_tcp_connection = persist }

-- A call with a pointer that may be null.
abbrev given : (Ip → Net → Net) → Option Ip → Net → Net
given f none n = n
given f (some ip) n = f ip n

unfoldable pub static_setup : Option Ip → Option Ip → Option Ip → Option Ip → Net → Net
static_setup my_ip gw_ip dns_ip mask n =
    let n1 = given (λ ip n'. record n' { myip = ip }) my_ip (record n { using_dhcp = false }) in
    let n2 = given set_gw_ip gw_ip n1 in
    let n3 = given (λ ip n'. record n' { dnsip = ip }) dns_ip n2 in
    let n4 = given (λ ip n'. record n' { netmask = ip }) mask n3 in
    record (update_broadcast_address n4) { delaycnt = 0 }
