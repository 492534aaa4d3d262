-- ===== src/Net/Sequence.antt =====
-- The TCP numbers of tcpip.cpp: step_seq, get_seq, set_seq, get_tcp_data_len and TCP_DATA_START.
pub mod Laws
use ether_house.Base.{
  ℕ, zero, suc, ◌+◌, ◌-◌, ◌*◌, ◌/◌, ◌%◌, ◌^◌, bit_and, bit_or, Bool, ◌||◌, ◌==◌, leb, if◌then◌else◌,
  [], ◌∷◌, Memory, write, writes, u8, u16, u32,
}
use ether_house.Net.{Net}
use ether_house.Net.Layout.{
  tcp_seq_h_p, tcp_seqack_h_p, tcp_header_len_p, ip_totlen_h_p, ip_totlen_l_p, ip_header_len,
  tcp_src_port_h_p,
}

-- The loop of step_seq with `i` rounds left, from the lowest byte up.
unfoldable pub step_seq : ℕ → ℕ → Bool → Memory → Memory
step_seq zero rel_ack_num cp_seq m = m
step_seq (suc i) rel_ack_num cp_seq m =
    let sum = u16 (m (tcp_seq_h_p + i) + rel_ack_num) in
    let tseq = m (tcp_seqack_h_p + i) in
    step_seq i (sum / 2 ^ 8) cp_seq
      (write (write m (tcp_seqack_h_p + i) (u8 sum)) (tcp_seq_h_p + i) (if cp_seq then tseq else 0))

-- get_seq: SEQ = the sequence number in the buffer.
unfoldable pub get_seq : Net → Net
get_seq n = record n {
  seq = u32 (
      ((n.buffer tcp_seq_h_p * 256 + n.buffer (tcp_seq_h_p + 1)) * 256 + n.buffer (tcp_seq_h_p + 2))
        * 256
      + n.buffer (tcp_seq_h_p + 3));
}

unfoldable pub set_seq : Net → Net
set_seq n = record n {
  buffer = writes n.buffer (
      (tcp_seq_h_p, u8 (bit_and n.seq 0xff00_0000 / 2 ^ 24))
      ∷ (tcp_seq_h_p + 1, u8 (bit_and n.seq 0xff_0000 / 2 ^ 16))
      ∷ (tcp_seq_h_p + 2, u8 (bit_and n.seq 0xff00 / 2 ^ 8))
      ∷ (tcp_seq_h_p + 3, u8 (bit_and n.seq 0xff))
      ∷ []);
}

-- `int16_t i`, kept as its 16 bits: not positive from 2 ^ 15 on.
unfoldable pub get_tcp_data_len : Memory → ℕ
get_tcp_data_len m =
    let total = u16 (bit_or (m ip_totlen_h_p * 2 ^ 8) (m ip_totlen_l_p)) in
    let i = u16 (total + 2 ^ 16 - ip_header_len - m tcp_header_len_p / 2 ^ 4 * 4) in
    if i == 0 || leb (2 ^ 15) i then 0 else i

-- TCP_DATA_START.
unfoldable pub tcp_data_start : Memory → ℕ
tcp_data_start m = u16 (tcp_src_port_h_p + m tcp_header_len_p / 2 ^ 4 * 4)
