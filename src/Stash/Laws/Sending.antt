-- ===== src/Stash/Laws/Sending.antt =====
-- From prepare to the frame: length, extract and cleanup.
use ether_house.Base.{
  ℕ, zero, suc, ◌+◌, ◌^◌, ◌<◌, ◌≤◌, ◌≡◌, ◌≢◌, refl, sym, subst, ap, ◌∙◌, arith, Bool, true, false,
  ◌==◌, if◌then◌else◌, inl, inr, List, [], ◌∷◌, All, length, Memory, write, Holds-ext, Holds-join,
}
use ether_house.Net.Filler.Laws.{Emits}
use ether_house.Stash.{Scratch, Pages, Stash}
use ether_house.Stash.Texts.{open_stash, release}
use ether_house.Stash.Message.{Places, seg_word, prepare}
use ether_house.Stash.Extract.{Extraction, extract, cleanup_loop, cleanup}
use ether_house.Stash.Sending.{tcp_datafill_cb}
use ether_house.Stash.Laws.Formats.{
  Piece, cost, plain, placed, code, words, meaning, IsText, Stands, Means, IsPiece,
}
use ether_house.Stash.Laws.Size.{load_write-same}
use ether_house.Stash.Laws.Preparing.{Prepared, prepare-Prepared}
use ether_house.Stash.Laws.Extracting.{Written, started, message_length_lem, extract-Written}

-- The text stands at tcpOffset(), with its end, and nothing else of the buffer has changed.
abbrev pub Fills {ℓ} : {M : Type ℓ} → Memory → Pages M → List ℕ → Memory × Pages M × ℕ × ℕ → Type ℓ
Fills buffer p xs (buffer', p', fd, len) =
    (len ≡ length xs)
    × Stands buffer' 0x36 xs
    × ((j : ℕ) → j < 0x36 → buffer' j ≡ buffer j)
    × ((j : ℕ) → 0x36 + len < j → buffer' j ≡ buffer j)
    × (p' ≡ p)

module _ {ℓ} {M : Type ℓ} (scratch : Scratch M) (places : Places) where
  -- A round of cleanup, by its tests.
  abbrev round_of : Bool → Bool → Bool → ℕ → ℕ → ℕ → ℕ → Pages M → Pages M
  round_of at_end is_arg is_stash left rounds f seg p =
      let opened = open_stash scratch (seg_word p.buf0.bytes (seg + 1)) p in
      if at_end
      then p
      else cleanup_loop scratch places left rounds (if is_arg then f + 2 else f + 1)
          (if is_arg then seg + 1 else seg)
          (if is_arg
            then (if is_stash then (release scratch rounds (opened.0) (opened.1)).1 else p)
            else p)

  one_round :
      (left rounds f seg : ℕ) (at_end is_arg is_stash : Bool) (p : Pages M)
      → (places.flash f == 0) ≡ at_end
      → (places.flash f == b'$') ≡ is_arg
      → (places.flash (f + 1) == b'H') ≡ is_stash
      → cleanup_loop scratch places (suc left) rounds f seg p
        ≡ round_of at_end is_arg is_stash left rounds f seg p
  unfolding cleanup_loop
  one_round left rounds f seg at_end is_arg is_stash p e e' k =
      ap
        (λ t.
          round_of t (places.flash f == b'$') (places.flash (f + 1) == b'H') left rounds f seg p)
        e
      ∙ ap (λ t. round_of at_end t (places.flash (f + 1) == b'H') left rounds f seg p) e'
      ∙ ap (λ t. round_of at_end is_arg t left rounds f seg p) k

  Means-no_stash : (kind w : ℕ) (t : List ℕ) → Means places kind w t → (kind == b'H') ≡ false
  Means-no_stash kind w t (inl (k, h)) = ground (arith, k)
  Means-no_stash kind w t (inr (inl (k, h))) = ground (arith, k)
  Means-no_stash kind w t (inr (inr (inl (k, h)))) = ground (arith, k)
  Means-no_stash kind w t (inr (inr (inr (k, h)))) = ground (arith, k)

  cleanup_loop-same :
      (left rounds f seg : ℕ) (ps : List Piece) (p : Pages M)
      → Stands places.flash f (code ps)
      → All (IsPiece places rounds) ps
      → length (code ps) < left
      → cleanup_loop scratch places left rounds f seg p ≡ p
  cleanup_loop-same zero rounds f seg ps p h a lt = absurd (omega arith)
  cleanup_loop-same (suc left) rounds f seg [] p (e, h) a lt =
      one_round left rounds f seg true false (places.flash (f + 1) == b'H') p (ground (arith, e))
        (ground (arith, e)) refl
  cleanup_loop-same (suc left) rounds f seg (plain c ∷ ps) p (e, h) ((z, d), a) lt =
      one_round left rounds f seg false false (places.flash (f + 1) == b'H') p
        (ground (arith, e, z)) (ground (arith, e, d)) refl
      ∙ cleanup_loop-same left rounds (f + 1) seg ps p h a (omega arith)
  cleanup_loop-same (suc left) rounds f seg (placed kind w t ∷ ps) p (e, (k, h))
        ((small, is_text, fits, means), a) lt =
      one_round left rounds f seg false true false p (ground (arith, e)) (ground (arith, e))
        (ap (λ c. c == b'H') k ∙ Means-no_stash kind w t means)
      ∙ cleanup_loop-same left rounds (f + 2) (seg + 1) ps p
          (subst (λ i. Stands places.flash i (code ps)) (omega arith) h) a (omega arith)

  cleanup-same :
      (rounds f : ℕ) (ps : List Piece) (p : Pages M)
      → Stands places.flash f (code ps)
      → All (IsPiece places rounds) ps
      → length (code ps) < rounds
      → Prepared scratch places f ps p
      → cleanup scratch places rounds p ≡ p
  unfolding cleanup
  cleanup-same rounds f ps p h a lt (b, n, k, w) =
      ap
        (λ (p' : Pages M).
          cleanup_loop scratch places rounds rounds (seg_word p'.buf0.bytes 1) 1 p')
        (load_write-same scratch 0 p b)
      ∙ cleanup_loop-same rounds rounds (seg_word p.buf0.bytes 1) 1 ps p
          (subst (λ f'. Stands places.flash f' (code ps)) (sym k) h) a lt

  Emits-Stands :
      (m m' : Memory) (ptr end : ℕ) (xs : List ℕ)
      → Emits m ptr xs (m', end)
      → Stands (write m' (ptr + length xs) 0) ptr xs
  Emits-Stands m m' ptr end xs (e, h, front, behind) =
      Holds-join (write m' (ptr + length xs) 0) ptr xs (0 ∷ [])
        (Holds-ext m' (write m' (ptr + length xs) 0) ptr xs (λ j l g. ground arith) h)
        (ground arith, tt)

  pub tcp_datafill_cb-Fills :
      (rounds left f : ℕ) (ps : List Piece) (buffer tmp : Memory) (stash : Stash) (p : Pages M)
      → Stands places.flash f (code ps)
      → All (IsPiece places rounds) ps
      → length (code ps) < rounds
      → cost ps < left
      → length (meaning ps) < 2 ^ 16
      → Prepared scratch places f ps p
      → Fills buffer p (meaning ps) (tcp_datafill_cb scratch places rounds left tmp stash buffer p)
  unfolding tcp_datafill_cb
  tcp_datafill_cb-Fills rounds left f ps buffer tmp stash p h a lt enough small prepared =
      subst
        (λ (r : ℕ × Pages M).
          Fills buffer p (meaning ps)
            (filled (r.0) (extract scratch places left 0 (r.0) 0x36 buffer tmp stash (r.1))))
        (sym (message_length_lem scratch places f ps p prepared))
        (from_written (
          extract-Written scratch places rounds left f ps 0x36 buffer tmp stash p h a small enough
            prepared))
    where
      filled : ℕ → Extraction M → Memory × Pages M × ℕ × ℕ
      filled len st =
          (write st.buf (0x36 + len) 0, cleanup scratch places rounds st.pages, 123, len)

      out : Extraction M
      out = extract scratch places left 0 (length (meaning ps)) 0x36 buffer tmp stash p

      from_written :
          Written scratch places (meaning ps) (started scratch places 0x36 buffer tmp stash p) out
          → Fills buffer p (meaning ps) (filled (length (meaning ps)) out)
      from_written ((e, g, front, behind), q) = (
        refl,
        Emits-Stands buffer out.buf 0x36 out.out (meaning ps) (e, g, front, behind),
        λ j l. write_ne' j (omega arith) ∙ front j l,
        λ j l. write_ne' j (omega arith) ∙ behind j (omega (arith, e)),
        ap (cleanup scratch places rounds) q ∙ cleanup-same rounds f ps p h a lt prepared,
      )
        where
          write_ne' :
              (j : ℕ)
              → j ≢ 0x36 + length (meaning ps)
              → write out.buf (0x36 + length (meaning ps)) 0 j ≡ out.buf j
          write_ne' j d = ground (arith, d)

  -- What prepare has kept of a format, tcp_datafill_cb writes as a text into the frame: the
  -- characters of the format, with the text of its argument in the place of each $ and its kind,
  -- stand at tcpOffset() with a 0 behind them, the result is their number, no other byte of the
  -- buffer changes, and neither do the pages; for numbers and texts in the three memories ($D,
  -- $S, $F, $E), at most 30 arguments, and texts and a result below 65536 bytes.
  pub tcp_datafill_cb-prepare :
      (rounds left f : ℕ) (ps : List Piece) (buffer tmp : Memory) (stash : Stash) (p : Pages M)
      → Stands places.flash f (code ps)
      → All IsText (code ps)
      → All (IsPiece places rounds) ps
      → length (code ps) < rounds
      → cost ps < left
      → f < 2 ^ 16
      → length (code ps) < 2 ^ 16
      → length (meaning ps) < 2 ^ 16
      → length (words ps) ≤ 30
      → Fills buffer (prepare scratch places rounds f (words ps) p) (meaning ps) (
          tcp_datafill_cb scratch places rounds left tmp stash buffer
            (prepare scratch places rounds f (words ps) p))
  tcp_datafill_cb-prepare rounds left f ps buffer tmp stash p h c a lt enough small small' small''
        few =
      tcp_datafill_cb-Fills rounds left f ps buffer tmp stash
        (prepare scratch places rounds f (words ps) p) h a lt enough small''
        (prepare-Prepared scratch places rounds f ps p h c a lt small small' small'')
