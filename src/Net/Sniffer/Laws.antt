-- ===== src/Net/Sniffer/Laws.antt =====
-- Whom the sniffer reports.
use ether_house.Base.{
  ℕ, ◌+◌, ◌≤◌, ◌≡◌, ◌≢◌, ◌∙◌, ap, Bool-cases, ◌↔◌, ◌⊎◌, true, none, some, List, [], ◌∷◌, Memory,
  Option-cases, inl, inr, Mac, mac_at, mac_eqb_iff, mac_eqb, arith, length, if◌then◌else◌,
}
use ether_house.Net.{Net}
use ether_house.Net.Sniffer.{
  sniffer_listen_for_mac, sniffer_listening, src_ip_offset, call_listeners, sniffer_process_packet,
}

-- The frames with a source IP that the sniffer reads, and where it stands: ARP for IPv4, and IPv4.
abbrev pub CarriesIp : ℕ → Memory → ℕ → Type 0
CarriesIp plen m at =
    ((32 ≤ plen) × (m 12 ≡ 8) × (m 13 ≡ 6) × (m 16 ≡ 8) × (m 17 ≡ 0) × (at ≡ 28))
    ⊎ ((30 ≤ plen) × (m 12 ≡ 8) × (m 13 ≡ 0) × (at ≡ 26))

pub src_ip_offset_iff :
    (plen : ℕ) (m : Memory) (at : ℕ) → (src_ip_offset plen m ≡ some at) ↔ CarriesIp plen m at
unfolding src_ip_offset
src_ip_offset_iff plen m at = ground arith

module _ {W : Type 0} (buffer_of : W → Memory) (callback : ℕ → W → W) where
  sniffed_none :
      (sniffers : List Mac) (plen : ℕ) (w : W)
      → src_ip_offset plen (buffer_of w) ≡ none
      → sniffer_process_packet buffer_of callback sniffers plen w ≡ w
  unfolding sniffer_process_packet
  sniffed_none sniffers plen w e = rw (e, sniffer_process_packet)

  sniffed_some :
      (mac : Mac) (plen : ℕ) (w : W) (at : ℕ)
      → src_ip_offset plen (buffer_of w) ≡ some at
      → sniffer_process_packet buffer_of callback (mac ∷ []) plen w
        ≡ (if mac_eqb (mac_at (buffer_of w) 6) mac then callback at w else w)
  unfolding sniffer_process_packet call_listeners
  sniffed_some mac plen w at e = rw (e, sniffer_process_packet)

  -- With one listener, the callback is called exactly for a frame from its address that carries an
  -- IP; it is handed the offset of four bytes within the frame; every other frame changes nothing.
  pub sniffer_process_packet_lem :
      (mac : Mac) (plen : ℕ) (w : W)
      → let m = buffer_of w in
        let result = sniffer_process_packet buffer_of callback (mac ∷ []) plen w in
        ((at : ℕ) × CarriesIp plen m at
          × (at + 4 ≤ plen)
          × (mac_at m 6 ≡ mac)
          × (result ≡ callback at w))
        ⊎ ((result ≡ w) × ((at : ℕ) → CarriesIp plen m at → mac_at m 6 ≢ mac))
  sniffer_process_packet_lem mac plen w = elim (Option-cases (src_ip_offset plen m)) [
    | inl e ↦ inr (
      sniffed_none (mac ∷ []) plen w e,
      λ at c _. absurd (ground (arith, e, (src_ip_offset_iff plen m at).1 c)),
    )
    | inr (at, e) ↦ elim (Bool-cases (mac_eqb (mac_at m 6) mac)) [
      | inl same ↦
          let carries = (src_ip_offset_iff plen m at).0 e in
          inl (
            at,
            carries,
            ground arith,
            (mac_eqb_iff (mac_at m 6) mac).0 same,
            sniffed_some mac plen w at e ∙ rw same,
          )
      | inr other ↦ inr (
        sniffed_some mac plen w at e ∙ rw other,
        λ at' c h. ground (arith, (mac_eqb_iff (mac_at m 6) mac).1 h, other),
      )
    ]
  ]
    where
      m : Memory
      m = buffer_of w

-- A registration is kept where there is room for it, and is dropped without a word otherwise: the
-- first address stays the one that is listened for.
listen_empty :
    (n : Net) (mac : Mac) → n.sniffers ≡ [] → (sniffer_listen_for_mac mac n).sniffers ≡ mac ∷ []
unfolding sniffer_listen_for_mac
listen_empty n mac e = rw (ap (λ (l : List Mac). length l) e, e)

listen_full : (n : Net) (mac : Mac) → 1 ≤ length n.sniffers → sniffer_listen_for_mac mac n ≡ n
unfolding sniffer_listen_for_mac
listen_full n mac h = ground arith

pub sniffer_listen_twice :
    (n : Net) (first second : Mac)
    → n.sniffers ≡ []
    → let n1 = sniffer_listen_for_mac first n in
      (n1.sniffers ≡ first ∷ [])
      × (sniffer_listening n1 ≡ true)
      × (sniffer_listen_for_mac second n1 ≡ n1)
unfolding sniffer_listening
sniffer_listen_twice n first second e =
    let kept = listen_empty n first e in
    (
      kept,
      rw kept,
      listen_full (sniffer_listen_for_mac first n) second
          (omega (arith, ap (λ (l : List Mac). length l) kept)),
    )
