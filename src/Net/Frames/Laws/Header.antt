-- ===== src/Net/Frames/Laws/Header.antt =====
-- The Ethernet and IP headers of every reply.
use ether_house.Base.{
  ℕ, ◌≤◌, ◌<◌, ◌≡◌, refl, ◌⊎◌, inl, inr, ◌≢◌, Memory, ip_at, mac_at, ip_at_ext, mac_at_ext, IsIp,
  IsMac, arith, IsBytes, writes, IsBytes-writes, IsBytes-put_ip, IsBytes-put_mac, ◌∷◌, [], ◌∙◌,
  put_ip, put_mac,
}
use ether_house.Net.{Net}
use ether_house.Net.Checksum.{fill_checksum}
use ether_house.Net.Checksum.Laws.{IsChecked, fill_checksum-IsChecked}
use ether_house.Net.Frames.{set_macs, fill_ip_hdr_checksum, make_eth_ip}

-- The buffer and the own addresses hold bytes.
pub record IsSound (n : Net) : Type 0 where
  pub buffer : IsBytes n.buffer
  pub mymac : IsMac n.mymac
  pub myip : IsIp n.myip

-- The header checks, the bytes stay bytes, and only the flags, the time to live and the checksum of
-- the IP header change.
pub fill_ip_hdr_checksum_lem :
    (n : Net)
    → IsBytes n.buffer
    → let m = (fill_ip_hdr_checksum n).buffer in
      IsChecked m 14 20 0
      × IsBytes m
      × ((j : ℕ) → (j < 20) ⊎ (26 ≤ j) → m j ≡ n.buffer j)
      × (m 23 ≡ n.buffer 23)
unfolding fill_ip_hdr_checksum
fill_ip_hdr_checksum_lem n b = (
  filled.0,
  filled.2,
  λ j far. filled.1 j (ground arith) (ground arith) ∙ ground arith,
  filled.1 23 (ground arith) (ground arith),
)
  where
    cleared : Memory
    cleared = writes n.buffer ((24, 0) ∷ (25, 0) ∷ (20, 0x40) ∷ (21, 0) ∷ (22, 64) ∷ [])

    cleared-IsBytes : IsBytes cleared
    cleared-IsBytes =
        IsBytes-writes n.buffer ((24, 0) ∷ (25, 0) ∷ (20, 0x40) ∷ (21, 0) ∷ (22, 64) ∷ []) b
          (omega arith)

    filled :
        IsChecked (fill_checksum 24 14 20 0 cleared) 14 20 0
        × ((j : ℕ) → j ≢ 24 → j ≢ 25 → fill_checksum 24 14 20 0 cleared j ≡ cleared j)
        × IsBytes (fill_checksum 24 14 20 0 cleared)
    filled =
        fill_checksum-IsChecked cleared 14 20 0 5 cleared-IsBytes (omega arith) (omega arith)
          (omega arith) refl refl

-- make_eth_ip turns the packet round: it goes to the Ethernet and IP source of what the buffer
-- held, from the own addresses, under a header that checks.
pub record IsTurned (n : Net) (m : Memory) : Type 0 where
  pub to_mac : mac_at m 0 ≡ mac_at n.buffer 6
  pub from_mac : mac_at m 6 ≡ n.mymac
  pub to_ip : ip_at m 30 ≡ ip_at n.buffer 26
  pub from_ip : ip_at m 26 ≡ n.myip
  pub checked : IsChecked m 14 20 0
  pub bytes : IsBytes m
  pub rest : (j : ℕ) → 34 ≤ j → m j ≡ n.buffer j
  pub kept : (j : ℕ) → 12 ≤ j → j < 20 → m j ≡ n.buffer j

pub make_eth_ip-IsTurned : (n : Net) → IsSound n → IsTurned n (make_eth_ip n).buffer
unfolding make_eth_ip set_macs
make_eth_ip-IsTurned n s = record {
  to_mac = mac_at_ext new turned.buffer 0 (λ j l u. headed.2 j (inl (omega arith)));
  from_mac = mac_at_ext new turned.buffer 6 (λ j l u. headed.2 j (inl (omega arith)));
  to_ip = ip_at_ext new turned.buffer 30 (λ j l u. headed.2 j (inr (omega arith)));
  from_ip = ip_at_ext new turned.buffer 26 (λ j l u. headed.2 j (inr (omega arith)));
  checked = headed.0;
  bytes = headed.1;
  rest = λ j l. headed.2 j (inr (omega arith)) ∙ ground arith;
  kept = λ j l l'. headed.2 j (inl l') ∙ ground arith;
}
  where
    turned : Net
    turned = record n {
      buffer =
          put_ip
            (put_ip (put_mac (put_mac n.buffer 0 (mac_at n.buffer 6)) 6 n.mymac) 30
              (ip_at n.buffer 26))
            26 n.myip;
    }

    new : Memory
    new = (fill_ip_hdr_checksum turned).buffer

    turned-IsBytes : IsBytes turned.buffer
    turned-IsBytes =
        let m1 =
          IsBytes-put_mac n.buffer 0 (mac_at n.buffer 6) s.buffer
            (s.buffer 6, s.buffer 7, s.buffer 8, s.buffer 9, s.buffer 10, s.buffer 11) in
        let m2 = IsBytes-put_mac _ 6 n.mymac m1 s.mymac in
        let m3 =
          IsBytes-put_ip _ 30 (ip_at n.buffer 26) m2
            (s.buffer 26, s.buffer 27, s.buffer 28, s.buffer 29) in
        IsBytes-put_ip _ 26 n.myip m3 s.myip

    headed :
        IsChecked (fill_ip_hdr_checksum turned).buffer 14 20 0
        × IsBytes (fill_ip_hdr_checksum turned).buffer
        × ((j : ℕ) → (j < 20) ⊎ (26 ≤ j) → (fill_ip_hdr_checksum turned).buffer j ≡ turned.buffer j)
        × ((fill_ip_hdr_checksum turned).buffer 23 ≡ turned.buffer 23)
    headed = fill_ip_hdr_checksum_lem turned turned-IsBytes
