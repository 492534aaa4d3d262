-- ===== src/Net/Dhcp.antt =====
-- libraries/ethercard/dhcp.cpp: the messages that a DHCP client sends and reads. The firmware adds
-- no option of its own, so that dhcpCustomOptionNum is 0. The state machine is in World/Lease.
pub mod Options
pub mod Laws
pub mod Message
use ether_house.Base.{
  ℕ, zero, suc, ◌+◌, ◌*◌, ◌/◌, ◌^◌, Bool, true, false, ◌&&◌, ◌||◌, not, ◌==◌, ltb, leb,
  if◌then◌else◌, List, [], ◌∷◌, ◌++◌, Memory, Ip, Mac, octets, ip_at, put_ip, put_mac, write,
  writes, fill, store, u8, u32, length,
}
use ether_house.Net.{Net}
use ether_house.Net.Layout.{udp_src_port_l_p, udp_data_p, eth_dst_mac}
use ether_house.Net.Frames.Requests.{udp_prepare, udp_transmit}
use ether_house.Sketch.{all_ones, no_mac}

pub data DhcpState : Type 0 where
  init selecting requesting bound renewing : DhcpState

abbrev pub dhcp_discover : ℕ
dhcp_discover = 1

abbrev pub dhcp_offer : ℕ
dhcp_offer = 2

abbrev pub dhcp_request : ℕ
dhcp_request = 3

abbrev pub dhcp_ack : ℕ
dhcp_ack = 5

abbrev pub dhcp_src_port : ℕ
dhcp_src_port = 67

abbrev pub dhcp_dest_port : ℕ
dhcp_dest_port = 68

abbrev pub dhcp_request_timeout : ℕ
dhcp_request_timeout = 10000

-- sizeof (DHCPdata), and its fields by their distance from the start.
abbrev pub dhcp_data_size : ℕ
dhcp_data_size = 236

-- The static variables; of `hostname` the ten bytes that are sent.
pub record Dhcp : Type 0 where
  pub state : DhcpState
  pub hostname : List ℕ
  pub current_xid : ℕ
  pub state_timer : ℕ
  pub lease_start : ℕ
  pub lease_time : ℕ
  pub dhcpip : Ip

abbrev pub is_bound : DhcpState → Bool
is_bound bound = true
is_bound _ = false

abbrev pub is_init : DhcpState → Bool
is_init init = true
is_init _ = false

abbrev pub is_selecting : DhcpState → Bool
is_selecting selecting = true
is_selecting _ = false

-- A uint32_t in the byte order of the machine.
abbrev pub word_bytes : ℕ → List ℕ
word_bytes x = u8 x ∷ u8 (x / 2 ^ 8) ∷ u8 (x / 2 ^ 16) ∷ u8 (x / 2 ^ 24) ∷ []

abbrev pub mac_bytes : Mac → List ℕ
mac_bytes a = a.m0 ∷ a.m1 ∷ a.m2 ∷ a.m3 ∷ a.m4 ∷ a.m5 ∷ []

-- What the calls of addToBuf and addBytes append, from the magic cookie to the end option.
unfoldable pub message_options : Dhcp → Net → List ℕ
message_options d n =
    99
    ∷ 130
    ∷ 83
    ∷ 99
    ∷ 53
    ∷ 1
    ∷ (if is_init d.state then dhcp_discover else dhcp_request)
    ∷ 61
    ∷ 7
    ∷ 1
    ∷ (mac_bytes n.mymac
        ++ 12
          ∷ 10
          ∷ (d.hostname
              ++ ((if is_selecting d.state
                    then 50 ∷ 4 ∷ (octets n.myip ++ 54 ∷ 4 ∷ octets d.dhcpip)
                    else [])
                  ++ 55 ∷ 3 ∷ 1 ∷ 3 ∷ 6 ∷ 255 ∷ [])))

unfoldable pub dhcp_header : Dhcp → Net → Net
dhcp_header d n =
    let n1 =
      udp_prepare dhcp_dest_port (if is_bound d.state then d.dhcpip else all_ones) dhcp_src_port
        (record n { buffer = fill n.buffer 0 0 (udp_data_p + dhcp_data_size) }) in
    let b2 = put_mac n1.buffer eth_dst_mac no_mac in
    let b3 =
      store (writes b2 ((udp_data_p, 1) ∷ (udp_data_p + 1, 1) ∷ (udp_data_p + 2, 6) ∷ []))
        (udp_data_p + 4) (word_bytes d.current_xid) 4 in
    let b4 = (if is_bound d.state then put_ip b3 (udp_data_p + 12) n.myip else b3) in
    record n1 { buffer = put_mac b4 (udp_data_p + 28) n.mymac }

unfoldable pub send_dhcp_message : Dhcp → Net → Net
send_dhcp_message d n =
    let options = message_options d n in
    let n1 = dhcp_header d n in
    udp_transmit (dhcp_data_size + length options) (record n1 {
      buffer = store n1.buffer (udp_data_p + dhcp_data_size) options (length options);
    })

-- Where the options start in the buffer, behind the magic cookie.
abbrev pub options_at : ℕ
options_at = udp_data_p + dhcp_data_size + 4

-- leaseTime of options 51 and 58, in milliseconds.
abbrev pub milliseconds : Memory → ℕ → ℕ
milliseconds m ptr = u32 (
    u32 (u32 (u32 (u32 (m ptr) * 2 ^ 8 + m (ptr + 1)) * 2 ^ 8 + m (ptr + 2)) * 2 ^ 8 + m (ptr + 3))
    * 1000)

-- The body of the switch, for the option whose data stand at `ptr`.
unfoldable pub take_option : ℕ → ℕ → Net × Dhcp → Net × Dhcp
take_option option ptr (n, d) =
    if option == 1
    then (record n { netmask = ip_at n.buffer ptr }, d)
    else if option == 3
    then (record n { gwip = ip_at n.buffer ptr }, d)
    else if option == 6
    then (record n { dnsip = ip_at n.buffer ptr }, d)
    else if option == 51 || option == 58
    then (n, record d { lease_time = milliseconds n.buffer ptr })
    else if option == 54
    then (n, record d { dhcpip = ip_at n.buffer ptr })
    else (n, d)

-- The loop of process_dhcp_offer at `ptr`, with the rounds left.
unfoldable pub take_options : ℕ → ℕ → ℕ → Net × Dhcp → Net × Dhcp
take_options zero len ptr s = s
take_options (suc left) len ptr (n, d) =
    let option = n.buffer ptr in
    let next = ptr + 2 + n.buffer (ptr + 1) in
    let s = take_option option (ptr + 2) (n, d) in
    let rest = take_options left len next s in
    if not (option == 255) && ltb next len then rest else s

unfoldable pub process_dhcp_offer : ℕ → Net × Dhcp → Net × Dhcp
process_dhcp_offer len (n, d) =
    take_options (suc len) len options_at (record n { myip = ip_at n.buffer (udp_data_p + 16) }, d)

-- The loop of dhcp_received_message_type.
unfoldable pub find_type : ℕ → ℕ → ℕ → ℕ → Memory → Bool
find_type zero len type ptr m = false
find_type (suc left) len type ptr m =
    let next = ptr + 2 + m (ptr + 1) in
    let rest = find_type left len type next m in
    if m ptr == 53 && m (ptr + 2) == type then true else if ltb next len then rest else false

-- dhcpPtr->xid.
abbrev pub xid_at : Memory → ℕ
xid_at m =
    m (udp_data_p + 4)
    + m (udp_data_p + 5) * 2 ^ 8
    + m (udp_data_p + 6) * 2 ^ 16
    + m (udp_data_p + 7) * 2 ^ 24

unfoldable pub dhcp_received_message_type : Dhcp → ℕ → ℕ → Memory → Bool
dhcp_received_message_type d len type m =
    leb 70 len
    && m udp_src_port_l_p == dhcp_src_port
    && xid_at m == d.current_xid
    && find_type (suc len) len type options_at m
