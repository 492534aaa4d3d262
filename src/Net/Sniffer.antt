-- ===== src/Net/Sniffer.antt =====
-- libraries/ethercard/sniffer.cpp, which this repository adds to EtherCard. A listener's callback
-- is always packet_sniffer_callback of the firmware, so a listener is its address.
pub mod Laws
use ether_house.Base.{
  ℕ, Bool, true, false, ◌&&◌, ◌||◌, not, ◌==◌, ltb, if◌then◌else◌, Option, none, some, List, [],
  ◌∷◌, ◌++◌, Memory, Mac, mac_at, mac_eqb, length,
}
use ether_house.Net.{Net}
use ether_house.Net.Layout.{
  eth_header_len, eth_src_mac, eth_type_h_p, eth_type_l_p, ethtype_arp_h_v, ethtype_arp_l_v,
  ethtype_ip_h_v, ethtype_ip_l_v, eth_arp_dst_mac_p, eth_arp_proto_type_h_p, eth_arp_proto_type_l_p,
  eth_arp_proto_ipv4_h_v, eth_arp_proto_ipv4_l_v, eth_arp_src_ip_p, ip_dst_p, ip_src_p,
}

abbrev pub sniffer_maxlisteners : ℕ
sniffer_maxlisteners = 1

unfoldable pub sniffer_listen_for_mac : Mac → Net → Net
sniffer_listen_for_mac srcmacaddr n =
    if ltb (length n.sniffers) sniffer_maxlisteners
    then record n { sniffers = n.sniffers ++ srcmacaddr ∷ [] }
    else n

unfoldable pub sniffer_listening : Net → Bool
sniffer_listening n = ltb 0 (length n.sniffers)

-- Where snifferProcessPacket finds the source IP in the buffer; `none` where it returns early.
unfoldable pub src_ip_offset : ℕ → Memory → Option ℕ
src_ip_offset plen m =
    if ltb plen eth_header_len
    then none
    else if m eth_type_h_p == ethtype_arp_h_v && m eth_type_l_p == ethtype_arp_l_v
    then (if ltb plen eth_arp_dst_mac_p
        then none
        else if not (m eth_arp_proto_type_h_p == eth_arp_proto_ipv4_h_v)
            || not (m eth_arp_proto_type_l_p == eth_arp_proto_ipv4_l_v)
        then none
        else some eth_arp_src_ip_p)
    else if m eth_type_h_p == ethtype_ip_h_v && m eth_type_l_p == ethtype_ip_l_v
    then (if ltb plen ip_dst_p then none else some ip_src_p)
    else none

-- The callback is handed the offset of the IP address, a pointer into the buffer; the source
-- address of the frame is compared with each listener anew, since a callback may change the buffer.
-- `W` is the state that callbacks work on, and `buffer_of` gives the buffer in it.
module _ {W : Type 0} (buffer_of : W → Memory) (callback : ℕ → W → W) where
  unfoldable pub call_listeners : List Mac → ℕ → W → W
  call_listeners [] src_ip w = w
  call_listeners (srcmacaddr ∷ rest) src_ip w =
      call_listeners rest src_ip
        (if mac_eqb (mac_at (buffer_of w) eth_src_mac) srcmacaddr then callback src_ip w else w)

  unfoldable pub sniffer_process_packet : List Mac → ℕ → W → W
  sniffer_process_packet sniffers plen w = elim (src_ip_offset plen (buffer_of w)) [
    | none ↦ w
    | some src_ip ↦ call_listeners sniffers src_ip w
  ]
