-- ===== src/Net/Frames/Laws/Echo.antt =====
-- The checksum of the reply to a ping.
use ether_house.Base.{
  ℕ, zero, suc, ◌+◌, ◌-◌, ◌*◌, ◌%◌, ◌≤◌, ◌<◌, ◌≡◌, refl, ◌↔◌, ◌∙◌, sym, ◌∷◌, ip_at, mac_at,
  ip_at_ext, mac_at_ext, Memory, ltb, if◌then◌else◌, write, arith, IsBytes,
}
use ether_house.Net.Checksum.Laws.{word_sum, word_sum-write, word_sum_ext, IsChecked}
use ether_house.Net.Checksum.{initial_sum}
use ether_house.Net.{Net}
use ether_house.Net.Checksum.Laws.{IsChecked-ext}
use ether_house.Net.Frames.{
  adjust_icmp_checksum, make_eth_ip, make_echo_reply_from_request, set_macs, fill_ip_hdr_checksum,
}
use ether_house.Net.Frames.Laws.Header.{IsSound, make_eth_ip-IsTurned}

-- What make_echo_reply_from_request does to the ICMP part: the type 8 becomes 0 and the checksum
-- is adjusted.
abbrev pub reply_icmp : Memory → Memory
reply_icmp m = adjust_icmp_checksum (write m 0x22 0)

-- The checksums for which the carry out of the low byte is dropped.
abbrev pub LosesCarry : Memory → Type 0
LosesCarry m = (0xf8 ≤ m 0x24) × (m 0x25 ≡ 0xff)

abbrev new_high : Memory → ℕ
new_high m = (m 0x24 + 8) % 256

abbrev new_low : Memory → ℕ
new_low m = if ltb 0xf7 (m 0x24) then (m 0x25 + 1) % 256 else m 0x25

-- The reply is the request with two words written.
reply_as_words :
    (m : Memory) (j : ℕ)
    → reply_icmp m j
      ≡ write (write (write (write m 0x22 0) 0x23 (m 0x23)) 0x24 (new_high m)) 0x25 (new_low m) j
unfolding adjust_icmp_checksum
reply_as_words m j = ground arith

reply_sum :
    (m : Memory) (len : ℕ)
    → 4 ≤ len
    → word_sum (reply_icmp m) 0x22 len + m 0x22 * 256 + (m 0x24 * 256 + m 0x25)
      ≡ word_sum m 0x22 len + (new_high m * 256 + new_low m)
reply_sum m len fits =
    let typed = write (write m 0x22 0) 0x23 (m 0x23) in
    omega (
      arith,
      word_sum-write m 0x22 len 0x22 0 (m 0x23) 0 refl (omega arith),
      word_sum-write typed 0x22 len 0x24 (new_high m) (new_low m) 1 refl (omega arith),
      word_sum_ext (reply_icmp m) (write (write typed 0x24 (new_high m)) 0x25 (new_low m)) 0x22 len
          (λ j l u. reply_as_words m j),
    )

two_words :
    (m : Memory) (len : ℕ) → 4 ≤ len → m 0x22 * 256 + (m 0x24 * 256 + m 0x25) ≤ word_sum m 0x22 len
two_words m zero h = absurd (omega arith)
two_words m (suc zero) h = absurd (omega arith)
two_words m (suc (suc zero)) h = absurd (omega arith)
two_words m (suc (suc (suc zero))) h = absurd (omega arith)
two_words m (suc (suc (suc (suc len)))) h = omega arith

-- If a request of type 8 checks, so does the reply, exactly unless a carry is lost.
pub reply_icmp-IsChecked_iff :
    (m : Memory) (len : ℕ)
    → IsBytes m
    → 4 ≤ len
    → m 0x22 ≡ 8
    → IsChecked m 0x22 len 0
    → IsChecked (reply_icmp m) 0x22 len 0 ↔ (¬ LosesCarry m)
unfolding initial_sum
reply_icmp-IsChecked_iff m len b fits request checked = (
  λ c lost. ground (arith, b 0x24, reply_sum m len fits, two_words m len fits),
  λ kept. ground (arith, b 0x24, b 0x25, reply_sum m len fits, two_words m len fits),
)

-- What follows the IP header of the reply.
reply_above :
    (len : ℕ) (n : Net)
    → IsSound n
    → (j : ℕ) → 34 ≤ j
    → (make_echo_reply_from_request len n).buffer j ≡ reply_icmp n.buffer j
unfolding make_echo_reply_from_request adjust_icmp_checksum
reply_above len n s j l =
    let turned = make_eth_ip-IsTurned n s in
    ground (arith, turned.rest j l, turned.rest 0x24 (omega arith), turned.rest 0x25 (omega arith))

reply_below :
    (len : ℕ) (n : Net) (j : ℕ)
    → j < 34
    → (make_echo_reply_from_request len n).buffer j ≡ (make_eth_ip n).buffer j
unfolding make_echo_reply_from_request adjust_icmp_checksum
reply_below len n j l = ground arith

-- The reply to a ping request that checks is one frame of the request's length, turned round,
-- whose ICMP part from 0x22 on checks exactly unless the checksum of the request loses a carry.
pub make_echo_reply_lem :
    (len : ℕ) (n : Net)
    → IsSound n
    → 38 ≤ len
    → n.buffer 0x22 ≡ 8
    → IsChecked n.buffer 0x22 (len - 34) 0
    → let n' = make_echo_reply_from_request len n in
      (n'.sent ≡ record { size = len; bytes = n'.buffer } ∷ n.sent)
      × (mac_at n'.buffer 0 ≡ mac_at n.buffer 6)
      × (ip_at n'.buffer 30 ≡ ip_at n.buffer 26)
      × (n'.buffer 0x22 ≡ 0)
      × (IsChecked n'.buffer 0x22 (len - 34) 0 ↔ (¬ LosesCarry n.buffer))
unfolding make_echo_reply_from_request
make_echo_reply_lem len n s long request checked = (
  unfold make_eth_ip set_macs fill_ip_hdr_checksum in refl,
  mac_at_ext (make_echo_reply_from_request len n).buffer (make_eth_ip n).buffer 0
        (λ j l u. reply_below len n j (omega arith))
      ∙ (make_eth_ip-IsTurned n s).to_mac,
  ip_at_ext (make_echo_reply_from_request len n).buffer (make_eth_ip n).buffer 30
        (λ j l u. reply_below len n j (omega arith))
      ∙ (make_eth_ip-IsTurned n s).to_ip,
  reply_above len n s 0x22 (omega arith) ∙ unfold adjust_icmp_checksum in ground arith,
  (
    λ c. iff.0 (IsChecked-ext _ _ 0x22 (len - 34) 0 (λ j l u. reply_above len n s j l) c),
    λ kept.
        IsChecked-ext _ _ 0x22 (len - 34) 0 (λ j l u. sym (reply_above len n s j l)) (iff.1 kept),
  ),
)
  where
    iff : IsChecked (reply_icmp n.buffer) 0x22 (len - 34) 0 ↔ (¬ LosesCarry n.buffer)
    iff = reply_icmp-IsChecked_iff n.buffer (len - 34) s.buffer (omega arith) request checked
