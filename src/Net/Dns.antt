-- ===== src/Net/Dns.antt =====
-- libraries/ethercard/dns.cpp: the query and the answer of a name server. dnsLookup is in
-- World/Setup.
pub mod Answer
pub mod Query
use ether_house.Base.{
  ℕ, zero, suc, ◌+◌, ◌-◌, ◌*◌, ◌^◌, bit_and, Bool, true, false, ◌&&◌, ◌||◌, not, ◌==◌, ltb,
  if◌then◌else◌, List, [], ◌∷◌, Memory, Ip, ip_at, write, writes, fill, u8,
}
use ether_house.Net.{Net}
use ether_house.Net.Layout.{udp_src_port_l_p, udp_dst_port_h_p, udp_dst_port_l_p, udp_data_p}
use ether_house.Net.Frames.Requests.{udp_prepare, udp_transmit}

abbrev pub dnsclient_src_port_h : ℕ
dnsclient_src_port_h = 0xe0

-- The loops over the name, at `p` with `n` bytes of a label behind it; a label's length is written
-- in front when the label ends. A label has at most 255 bytes. The name ends at a 0 or with the list.
unfoldable pub put_name : List ℕ → ℕ → ℕ → Memory → Memory × ℕ
put_name [] p n m = (write m p n, p + 1 + n)
put_name (c ∷ name) p n m =
    let ended = put_name name (p + 1 + n) 0 (write m p n) in
    let longer = put_name name p (n + 1) (write m (p + (n + 1)) c) in
    if c == 0 then (write m p n, p + 1 + n) else if c == b'.' then ended else longer

-- `id` is dnstid_l, which is counted up before.
unfoldable pub dns_request : List ℕ → ℕ → Net → Net
dns_request hostname id n =
    let n1 =
      (if n.dnsip.a0 == 0
        then record n { dnsip = record { a0 = 8; a1 = 8; a2 = 8; a3 = 8 } }
        else n) in
    let n2 = udp_prepare (dnsclient_src_port_h * 2 ^ 8 + id) n1.dnsip 53 n1 in
    let (m, p) = put_name hostname (udp_data_p + 12) 0 (fill n2.buffer udp_data_p 0 12) in
    let i = u8 (p + 5 - udp_data_p) in
    udp_transmit i (record n2 {
      buffer = writes m (
          (p, 0)
          ∷ (p + 1, 0)
          ∷ (p + 2, 1)
          ∷ (p + 3, 0)
          ∷ (p + 4, 1)
          ∷ (udp_data_p, i)
          ∷ (udp_data_p + 1, id)
          ∷ (udp_data_p + 2, 1)
          ∷ (udp_data_p + 5, 1)
          ∷ []);
    })

-- `while (++p < end) if (*p == 0) { ++p; break; }`.
unfoldable pub skip_labels : ℕ → ℕ → ℕ → Memory → ℕ
skip_labels zero plen p m = p
skip_labels (suc left) plen p m =
    let rest = skip_labels left plen (p + 1) m in
    if ltb (p + 1) plen then (if m (p + 1) == 0 then p + 2 else rest) else p + 1

-- The name of a record: a pointer of two bytes, or labels.
unfoldable pub skip_name : ℕ → ℕ → Memory → ℕ
skip_name plen p m = if bit_and (m p) 0xc0 == 0 then skip_labels (suc plen) plen p m else p + 2

-- The loop over the records, with the rounds left; it changes `hisip` at the first address.
unfoldable pub find_address : ℕ → ℕ → ℕ → Net → Net
find_address zero plen p n = n
find_address (suc left) plen p n =
    let m = n.buffer in
    let q = skip_name plen p m in
    let rest = find_address left plen (q + m (q + 9) + 10) n in
    if ltb plen (q + 14)
    then n
    else if m (q + 1) == 1 && m (q + 9) == 4
    then record n { hisip = ip_at m (q + 10) }
    else rest

-- Whether the packet is an answer with an error, and the state after it.
unfoldable pub check_for_dns_answer : ℕ → ℕ → Net → Net × Bool
check_for_dns_answer id plen n =
    let m = n.buffer in
    if ltb plen 70
      || not (m udp_src_port_l_p == 53)
      || not (m udp_dst_port_h_p == dnsclient_src_port_h)
      || not (m udp_dst_port_l_p == id)
      || not (m (udp_data_p + 1) == id)
    then (n, false)
    else if not (bit_and (m (udp_data_p + 3)) 0x0f == 0)
    then (n, true)
    else (find_address (suc plen) plen (udp_data_p + m udp_data_p) n, false)
