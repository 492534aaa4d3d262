-- ===== src/Net/Frames/Laws/Ack.antt =====
-- The acknowledgements of tcpip.cpp.
use ether_house.Base.{
  ℕ, ◌+◌, ◌%◌, ◌^◌, ◌≤◌, ◌<◌, ◌-◌, ◌≡◌, ◌≢◌, refl, ◌⊎◌, inl, inr, ◌∙◌, sym, Bool, true, Memory,
  ip_at, mac_at, ip_at_ext, mac_at_ext, arith, IsBytes, writes, IsBytes-writes, ◌∷◌, [], bit_or, u8,
  if◌then◌else◌, ◌==◌, ◌&&◌, not,
}
use ether_house.Net.{Net, Frame}
use ether_house.Net.Checksum.{fill_checksum}
use ether_house.Net.Checksum.Laws.{IsChecked, IsChecked-ext, fill_checksum-IsChecked}
use ether_house.Net.Sequence.{step_seq}
use ether_house.Net.Sequence.Laws.{long_at, step_seq_lem, step_seq-IsBytes}
use ether_house.Net.Frames.{
  make_tcphead, make_eth_ip, make_tcp_ack_from_any, poke, set_macs, fill_ip_hdr_checksum,
}
use ether_house.Net.Frames.Laws.Header.{IsSound, IsTurned, make_eth_ip-IsTurned}

-- make_tcphead swaps the ports, numbers the segment and clears the checksum.
record IsHeaded (b : Memory) (rel : ℕ) (cp : Bool) (m : Memory) : Type 0 where
  bytes : IsBytes m
  below : (j : ℕ) → j < 0x22 → m j ≡ b j
  ports : (m 0x22 ≡ b 0x24) × (m 0x23 ≡ b 0x25) × (m 0x24 ≡ b 0x22) × (m 0x25 ≡ b 0x23)
  ack : long_at m 0x2a ≡ (long_at b 0x26 + rel) % 2 ^ 32
  seq : long_at m 0x26 ≡ (if cp then long_at b 0x2a else 0)
  clear : (m 0x32 ≡ 0) × (m 0x33 ≡ 0)
  length : m 0x2e ≡ 0x50
  flags : m 0x2f ≡ b 0x2f

make_tcphead-IsHeaded :
    (n : Net) (rel : ℕ) (cp : Bool)
    → IsBytes n.buffer
    → rel < 2 ^ 16 - 255
    → IsHeaded n.buffer rel cp (make_tcphead rel cp n).buffer
unfolding make_tcphead
make_tcphead-IsHeaded n rel cp b h = record {
  bytes =
      IsBytes-writes numbered ((0x32, 0) ∷ (0x33, 0) ∷ (0x2e, 0x50) ∷ [])
        (step_seq-IsBytes 4 swapped rel cp swapped-IsBytes) (omega arith);
  below = λ j l. ground (arith, stepped.2 j (inl (omega arith)));
  ports = (
    stepped.2 0x22 (inl (omega arith)),
    stepped.2 0x23 (inl (omega arith)),
    stepped.2 0x24 (inl (omega arith)),
    stepped.2 0x25 (inl (omega arith)),
  );
  ack = stepped.0;
  seq = stepped.1;
  clear = (refl, refl);
  length = refl;
  flags = stepped.2 0x2f (inr (omega arith));
}
  where
    swapped : Memory
    swapped = writes n.buffer (
        (0x24, n.buffer 0x22)
        ∷ (0x22, n.buffer 0x24)
        ∷ (0x25, n.buffer 0x23)
        ∷ (0x23, n.buffer 0x25)
        ∷ [])

    swapped-IsBytes : IsBytes swapped
    swapped-IsBytes =
        IsBytes-writes n.buffer
          ((0x24, n.buffer 0x22)
            ∷ (0x22, n.buffer 0x24)
            ∷ (0x25, n.buffer 0x23)
            ∷ (0x23, n.buffer 0x25)
            ∷ [])
          b (b 0x22, (b 0x24, (b 0x23, (b 0x25, tt))))

    numbered : Memory
    numbered = step_seq 4 rel cp swapped

    stepped :
        (long_at numbered 0x2a ≡ (long_at swapped 0x26 + rel) % 2 ^ 32)
        × (long_at numbered 0x26 ≡ (if cp then long_at swapped 0x2a else 0))
        × ((j : ℕ) → (j < 0x26) ⊎ (0x2e ≤ j) → numbered j ≡ swapped j)
    stepped = step_seq_lem swapped rel cp swapped-IsBytes h

-- The length that is acknowledged: a plain acknowledgement of no data counts one.
abbrev pub acked : ℕ → ℕ → ℕ
acked datlen addflags = if not (addflags == 4) && datlen == 0 then 1 else datlen

long_at_ext :
    (m m' : Memory) (i : ℕ)
    → ((j : ℕ) → i ≤ j → j < i + 4 → m j ≡ m' j)
    → long_at m i ≡ long_at m' i
long_at_ext m m' i h = omega (
  arith,
  h i (omega arith) (omega arith),
  h (i + 1) (omega arith) (omega arith),
  h (i + 2) (omega arith) (omega arith),
  h (i + 3) (omega arith) (omega arith),
)

-- An acknowledgement of what the buffer `b` holds: a segment without data, back to its sender, that
-- acknowledges `len` bytes behind its sequence number; the IP packet is its two headers of 20 bytes
-- and no more, and both checksums are right.
pub record IsAck (n : Net) (len flags : ℕ) (f : Frame) : Type 0 where
  pub size : f.size ≡ 54
  pub total_length : (f.bytes 0x10 ≡ 0) × (f.bytes 0x11 ≡ 40)
  pub header_length : f.bytes 0x2e ≡ 0x50
  pub to_mac : mac_at f.bytes 0 ≡ mac_at n.buffer 6
  pub from_mac : mac_at f.bytes 6 ≡ n.mymac
  pub to_ip : ip_at f.bytes 30 ≡ ip_at n.buffer 26
  pub from_ip : ip_at f.bytes 26 ≡ n.myip
  pub ports :
      (f.bytes 0x22 ≡ n.buffer 0x24)
      × (f.bytes 0x23 ≡ n.buffer 0x25)
      × (f.bytes 0x24 ≡ n.buffer 0x22)
      × (f.bytes 0x25 ≡ n.buffer 0x23)
  pub ack : long_at f.bytes 0x2a ≡ (long_at n.buffer 0x26 + len) % 2 ^ 32
  pub seq : long_at f.bytes 0x26 ≡ long_at n.buffer 0x2a
  pub flag_bits : f.bytes 0x2f ≡ u8 (bit_or 0x10 flags)
  pub ip_checked : IsChecked f.bytes 14 20 0
  pub tcp_checked : IsChecked f.bytes 26 28 2

module _ (n : Net) (datlen addflags : ℕ) (s : IsSound n)
    (fits : acked datlen addflags < 2 ^ 16 - 255) where
  flagged : Net
  flagged = poke ((0x2f, u8 (bit_or 0x10 addflags)) ∷ []) n

  head : Net
  head = make_tcphead (acked datlen addflags) true flagged

  sized : Net
  sized = poke ((0x10, 0) ∷ (0x11, 40) ∷ []) head

  windowed : Memory
  windowed = writes (make_eth_ip sized).buffer ((0x30, 0x4) ∷ (0x31, 0) ∷ [])

  acked_frame : Frame
  acked_frame = record { size = 54; bytes = fill_checksum 0x32 26 28 2 windowed }

  head-IsHeaded : IsHeaded flagged.buffer (acked datlen addflags) true head.buffer
  unfolding flagged head
  head-IsHeaded =
      make_tcphead-IsHeaded flagged (acked datlen addflags) true
        (IsBytes-writes n.buffer ((0x2f, u8 (bit_or 0x10 addflags)) ∷ []) s.buffer (omega arith))
        fits

  sized-IsSound : IsSound sized
  unfolding sized
  sized-IsSound = record {
    buffer =
        IsBytes-writes head.buffer ((0x10, 0) ∷ (0x11, 40) ∷ []) head-IsHeaded.bytes (omega arith);
    mymac = unfold head flagged make_tcphead in s.mymac;
    myip = unfold head flagged make_tcphead in s.myip;
  }

  turned : IsTurned sized (make_eth_ip sized).buffer
  turned = make_eth_ip-IsTurned sized sized-IsSound

  -- The turned buffer keeps the TCP part, and finds the addresses where the packet had them.
  upper : (j : ℕ) → 34 ≤ j → (make_eth_ip sized).buffer j ≡ head.buffer j
  unfolding sized
  upper j l = turned.rest j l ∙ ground arith

  lower : (j : ℕ) → j < 34 → j ≢ 16 → j ≢ 17 → sized.buffer j ≡ n.buffer j
  unfolding sized flagged
  lower j l ne ne' = ground (arith, head-IsHeaded.below j l)

  filled :
      IsChecked acked_frame.bytes 26 28 2
      × ((j : ℕ) → j ≢ 50 → j ≢ 51 → acked_frame.bytes j ≡ windowed j)
      × IsBytes acked_frame.bytes
  unfolding acked_frame windowed
  filled =
      fill_checksum-IsChecked windowed 26 28 2 12
        (IsBytes-writes (make_eth_ip sized).buffer ((0x30, 0x4) ∷ (0x31, 0) ∷ []) turned.bytes
          (omega arith))
        (omega arith) (omega arith) (omega arith) (upper 50 (omega arith) ∙ head-IsHeaded.clear.0)
        (upper 51 (omega arith) ∙ head-IsHeaded.clear.1)

  -- The frame holds the turned buffer, but for the window and the checksum.
  held : (j : ℕ) → (j < 48) ⊎ (52 ≤ j) → acked_frame.bytes j ≡ (make_eth_ip sized).buffer j
  unfolding windowed
  held j far = filled.1 j (ground arith) (ground arith) ∙ ground arith

  acked_frame-IsAck : IsAck n (acked datlen addflags) addflags acked_frame
  unfolding flagged
  acked_frame-IsAck = record {
    size = unfold acked_frame in refl;
    total_length = (
      held 0x10 (inl (omega arith))
          ∙ turned.kept 0x10 (omega arith) (omega arith)
          ∙ unfold sized in refl,
      held 0x11 (inl (omega arith))
          ∙ turned.kept 0x11 (omega arith) (omega arith)
          ∙ unfold sized in refl,
    );
    header_length = above 0x2e (inl (omega arith)) (omega arith) ∙ head-IsHeaded.length;
    to_mac =
        mac_at_ext acked_frame.bytes (make_eth_ip sized).buffer 0
          (λ j l u. held j (inl (omega arith)))
        ∙ turned.to_mac
        ∙ mac_at_ext sized.buffer n.buffer 6
            (λ j l u. lower j (omega arith) (omega arith) (omega arith));
    from_mac =
        mac_at_ext acked_frame.bytes (make_eth_ip sized).buffer 6
          (λ j l u. held j (inl (omega arith)))
        ∙ turned.from_mac
        ∙ unfold sized head make_tcphead in refl;
    to_ip =
        ip_at_ext acked_frame.bytes (make_eth_ip sized).buffer 30
          (λ j l u. held j (inl (omega arith)))
        ∙ turned.to_ip
        ∙ ip_at_ext sized.buffer n.buffer 26
            (λ j l u. lower j (omega arith) (omega arith) (omega arith));
    from_ip =
        ip_at_ext acked_frame.bytes (make_eth_ip sized).buffer 26
          (λ j l u. held j (inl (omega arith)))
        ∙ turned.from_ip
        ∙ unfold sized head make_tcphead in refl;
    ports = (
      above 0x22 (inl (omega arith)) (omega arith) ∙ head-IsHeaded.ports.0,
      above 0x23 (inl (omega arith)) (omega arith) ∙ head-IsHeaded.ports.1,
      above 0x24 (inl (omega arith)) (omega arith) ∙ head-IsHeaded.ports.2,
      above 0x25 (inl (omega arith)) (omega arith) ∙ head-IsHeaded.ports.3,
    );
    ack =
        long_at_ext acked_frame.bytes head.buffer 0x2a
          (λ j l u. above j (inl (omega arith)) (omega arith))
        ∙ head-IsHeaded.ack;
    seq =
        long_at_ext acked_frame.bytes head.buffer 0x26
          (λ j l u. above j (inl (omega arith)) (omega arith))
        ∙ head-IsHeaded.seq;
    flag_bits = above 0x2f (inl (omega arith)) (omega arith) ∙ head-IsHeaded.flags;
    ip_checked =
        IsChecked-ext (make_eth_ip sized).buffer acked_frame.bytes 14 20 0
          (λ j l u. sym (held j (inl (omega arith)))) turned.checked;
    tcp_checked = filled.0;
  }
    where
      above : (j : ℕ) → (j < 48) ⊎ (52 ≤ j) → 34 ≤ j → acked_frame.bytes j ≡ head.buffer j
      above j far l = held j far ∙ upper j l

-- make_tcp_ack_from_any sends one segment of 40 bytes, header and no data, back to the sender of
-- what the buffer held, with swapped addresses and ports, the sequence number that the other side
-- acknowledged, the acknowledged number modulo 2^32, the flags, and right IP and TCP checksums,
-- and leaves it in the buffer; for a sound state and a length that does not overflow 16 bits with
-- a byte.
pub make_tcp_ack_from_any-IsAck :
    (n : Net) (datlen addflags : ℕ)
    → IsSound n
    → acked datlen addflags < 2 ^ 16 - 255
    → let n' = make_tcp_ack_from_any datlen addflags n in
      (f : Frame) × (n'.sent ≡ f ∷ n.sent)
      × (n'.buffer ≡ f.bytes)
      × IsAck n (acked datlen addflags) addflags f
unfolding make_tcp_ack_from_any acked_frame windowed sized head flagged
make_tcp_ack_from_any-IsAck n datlen addflags s fits = (
  acked_frame n datlen addflags s fits,
  unfold make_eth_ip set_macs fill_ip_hdr_checksum make_tcphead in refl,
  refl,
  acked_frame-IsAck n datlen addflags s fits,
)
