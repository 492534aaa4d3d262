-- ===== src/Driver/Laws/Scratch.antt =====
-- The pages of the chip's memory that the stash uses.
use ether_house.Base.{
  ℕ, ◌+◌, ◌*◌, ◌/◌, ◌^◌, ◌<◌, ◌≤◌, ◌≡◌, refl, ◌∙◌, subst, ap, arith, Bool, true, false, not, leb,
  ◌⊎◌, inl, inr, List, [], ◌∷◌, Memory, u8,
}
use ether_house.Driver.{Chip, Driver, returns, ◌>>◌, when}
use ether_house.Driver.Spi.{write_reg, write_buf}
use ether_house.Driver.Packets.{page_at, is_outside, copyout}
use ether_house.Driver.Laws.Triples.{Gives, bind-Gives, returned}
use ether_house.Driver.Laws.Banks.{Agrees}
use ether_house.Driver.Laws.Send.{Sent, write_first, write_reg_byte-Sent, write_buf-Sent}

-- What is written for a page: its address, and its content.
abbrev pub page_sent : ℕ → List ℕ → List (List ℕ)
page_sent at_byte content =
    (0x7a ∷ content) ∷ (0x43 ∷ u8 (at_byte / 2 ^ 8) ∷ []) ∷ (0x42 ∷ u8 at_byte ∷ []) ∷ []

inside : (page : ℕ) → page < 56 → is_outside (page_at page) ≡ false
inside page h = ground arith

beyond : (page : ℕ) → 56 ≤ page → page < 256 → is_outside (page_at page) ≡ true
beyond page h h' = ground arith

module _ (chip : Chip) where
  sends_page :
      (m : Memory) (at_byte : ℕ) (content : List ℕ)
      → Gives
          (λ d. Agrees d × (d.buffer ≡ m))
          (λ _. Sent m (page_sent at_byte content))
          (write_reg chip 0x02 at_byte >> write_buf chip content)
  unfolding write_reg
  sends_page m at_byte content =
      bind-Gives (λ d. Agrees d × (d.buffer ≡ m))
        (λ _. Sent m ((0x43 ∷ u8 (at_byte / 2 ^ 8) ∷ []) ∷ (0x42 ∷ u8 at_byte ∷ []) ∷ [])) _ _ _
        (bind-Gives (λ d. Agrees d × (d.buffer ≡ m)) (λ _. Sent m ((0x42 ∷ u8 at_byte ∷ []) ∷ [])) _
          _ _ (write_first chip m (u8 at_byte))
          (λ _.
            write_reg_byte-Sent chip m 0x03 (u8 (at_byte / 2 ^ 8)) ((0x42 ∷ u8 at_byte ∷ []) ∷ [])
              refl))
        (λ _.
          write_buf-Sent chip m content
            ((0x43 ∷ u8 (at_byte / 2 ^ 8) ∷ []) ∷ (0x42 ∷ u8 at_byte ∷ []) ∷ []))

  -- copyout of a page below 56 returns, and the last transactions write the page's address,
  -- 0x1200 and 64 for each page, and the content; for any other page it changes nothing. For a
  -- page below 256, where the driver's bank is the chip's.
  pub copyout_lem :
      (page : ℕ) (content : List ℕ) (d : Driver)
      → page < 256
      → Agrees d
      → (d' : Driver) × (copyout chip page content d ≡ returns tt d')
        × (((page < 56) × Sent d.buffer (page_sent (0x1200 + 64 * page) content) d')
            ⊎ ((56 ≤ page) × (d' ≡ d)))
  unfolding copyout
  copyout_lem page content d h p = by_test (leb 56 page) refl
    where
      by_test :
          (t : Bool)
          → leb 56 page ≡ t
          → (d' : Driver) × (copyout chip page content d ≡ returns tt d')
            × (((page < 56) × Sent d.buffer (page_sent (0x1200 + 64 * page) content) d')
                ⊎ ((56 ≤ page) × (d' ≡ d)))
      by_test true e =
          let le : 56 ≤ page = ground (arith, e) in
          (
            d,
            ap (λ t. when (not t) (write_reg chip 0x02 (page_at page) >> write_buf chip content) d)
                (beyond page le h),
            inr (le, refl),
          )
      by_test false e =
          let lt : page < 56 = ground (arith, e) in
          let place : page_at page ≡ 0x1200 + 64 * page = omega arith in
          let (a, d', q, s) =
            returned (λ _. Sent d.buffer (page_sent (page_at page) content)) _
              (sends_page d.buffer (page_at page) content d (p, refl)) in
          (
            d',
            ap (λ t. when (not t) (write_reg chip 0x02 (page_at page) >> write_buf chip content) d)
                  (inside page lt)
                ∙ q,
            inl (lt, subst (λ k. Sent d.buffer (page_sent k content) d') place s),
          )
