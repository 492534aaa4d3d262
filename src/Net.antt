-- ===== src/Net.antt =====
-- The state of libraries/ethercard/tcpip.cpp and sniffer.cpp, a fork of EtherCard that the firmware
-- keeps: the variables of `EtherCard`, the packet buffer and what was handed to `packetSend`.
pub mod Layout
pub mod Checksum
pub mod Lan
pub mod Frames
pub mod Sequence
pub mod Sniffer
pub mod Client
pub mod Dhcp
pub mod Dns
pub mod Filler
pub mod Web
pub mod TcpReply
pub mod UdpServer
use ether_house.Base.{ℕ, Bool, List, ◌∷◌, Memory, Ip, Mac}

-- What `packetSend(len)` puts on the wire: the first `size` bytes of the buffer.
pub record Frame : Type 0 where
  pub size : ℕ
  pub bytes : Memory

-- Which function a callback pointer holds; the firmware sets no other, since it never calls tcpSend.
pub data ResultCallback : Type 0 where
  no_result www_result : ResultCallback

pub data DatafillCallback : Type 0 where
  no_datafill www_datafill : DatafillCallback

pub data BrowserCallback : Type 0 where
  no_browser macs_parse state_parse api_set : BrowserCallback

-- The four requests of the firmware, by their path.
pub data Url : Type 0 where
  no_url url_target_mac url_state url_on url_off : Url

pub record Net : Type 0 where
  pub buffer : Memory
  pub sent : List Frame
  pub mymac : Mac
  pub myip : Ip
  pub netmask : Ip
  pub broadcastip : Ip
  pub gwip : Ip
  pub dnsip : Ip
  pub hisip : Ip
  pub hisport : ℕ
  pub using_dhcp : Bool
  pub persist_tcp_connection : Bool
  pub delaycnt : ℕ
  pub tcpclient_src_port_l : ℕ
  pub tcp_fd : ℕ
  pub tcp_client_state : ℕ
  pub tcp_client_port_h : ℕ
  pub tcp_client_port_l : ℕ
  pub client_tcp_result_cb : ResultCallback
  pub client_tcp_datafill_cb : DatafillCallback
  pub www_fd : ℕ
  pub client_browser_cb : BrowserCallback
  pub client_urlbuf : Url
  pub destmacaddr : Mac
  pub waiting_for_dns_mac : Bool
  pub has_dns_mac : Bool
  pub waiting_for_dest_mac : Bool
  pub has_dest_mac : Bool
  pub gwmacaddr : Mac
  pub waitgwmac : ℕ
  pub info_data_len : ℕ
  pub seqnum : ℕ
  pub result_fd : ℕ
  pub seq : ℕ
  pub sniffers : List Mac

-- `packetSend(len)`: the driver copies `len` bytes of the buffer.
abbrev pub packet_send : ℕ → Net → Net
packet_send len n = record n { sent = record { size = len; bytes = n.buffer } ∷ n.sent }
