-- ===== src/Net/Checksum.antt =====
-- fill_checksum of tcpip.cpp: the Internet checksum, one's complement sum of 16-bit words.
pub mod Laws
use ether_house.Base.{
  ℕ, zero, suc, ◌+◌, ◌-◌, ◌*◌, ◌/◌, ◌^◌, bit_or, ◌==◌, if◌then◌else◌, Memory, write, u8, u16, u32,
}
use ether_house.Net.Layout.{ip_proto_udp_v, ip_proto_tcp_v}

-- The pseudo header's part: `type` 1 is UDP and 2 is TCP; `int` has 16 bits on the AVR.
unfoldable pub initial_sum : ℕ → ℕ → ℕ
initial_sum kind len =
    if kind == 1
    then u16 (ip_proto_udp_v + len + 2 ^ 16 - 8)
    else if kind == 2
    then u16 (ip_proto_tcp_v + len + 2 ^ 16 - 8)
    else 0

-- (uint16_t) (((uint32_t) *ptr << 8) | *(ptr + 1)).
unfoldable pub word_at : Memory → ℕ → ℕ
word_at m ptr = u16 (bit_or (m ptr * 2 ^ 8) (m (ptr + 1)))

-- The loop over the words, and the odd byte at the end.
unfoldable pub sum_words : Memory → ℕ → ℕ → ℕ → ℕ
sum_words m sum ptr zero = sum
sum_words m sum ptr (suc zero) = u32 (sum + m ptr * 2 ^ 8)
sum_words m sum ptr (suc (suc len)) = sum_words m (u32 (sum + word_at m ptr)) (ptr + 2) len

-- while (sum >> 16) sum = (uint16_t) sum + (sum >> 16), with fuel.
unfoldable pub fold_carries : ℕ → ℕ → ℕ
fold_carries zero sum = sum
fold_carries (suc fuel) sum =
    let rest = fold_carries fuel (u16 sum + sum / 2 ^ 16) in if sum / 2 ^ 16 == 0 then sum else rest

-- Three rounds fold any 32-bit sum.
abbrev pub fold_fuel : ℕ
fold_fuel = 3

-- `uint16_t ck = ~ (uint16_t) sum`.
unfoldable pub checksum : Memory → ℕ → ℕ → ℕ → ℕ
checksum m off len kind =
    2 ^ 16 - 1 - u16 (fold_carries fold_fuel (sum_words m (initial_sum kind len) off len))

-- `dest` and `off` are bytes.
unfoldable pub fill_checksum : ℕ → ℕ → ℕ → ℕ → Memory → Memory
fill_checksum dest off len kind m =
    let ck = checksum m (u8 off) len kind in
    write (write m (u8 dest) (ck / 2 ^ 8)) (u8 dest + 1) (u8 ck)
