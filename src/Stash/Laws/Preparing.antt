-- ===== src/Stash/Laws/Preparing.antt =====
-- What prepare keeps in page 0.
use ether_house.Base.{
  ℕ, zero, suc, ◌+◌, ◌-◌, ◌^◌, ◌<◌, ◌≡◌, ◌≢◌, refl, sym, subst, ap, ◌∙◌, arith, Bool, true, false,
  ◌==◌, if◌then◌else◌, inl, inr, List, [], ◌∷◌, ◌++◌, All, length, length-append, Memory, u16,
  Holds,
}
use ether_house.Stash.{Scratch, Pages}
use ether_house.Stash.Texts.{load_write, size}
use ether_house.Stash.Message.{
  Places, text_length, seg_word, put_word, head_of, tail_of, arg_length, on_words, keep_arg,
  prepare_loop, prepare,
}
use ether_house.Stash.Laws.Formats.{
  Piece, plain, placed, code, words, meaning, IsText, Stands, Means, IsPiece, text_length_lem,
  seg_word-put_word, seg_word_other, HoldsWords,
}
use ether_house.Stash.Laws.Size.{load_write_bnum}

module _ {ℓ} {M : Type ℓ} (scratch : Scratch M) (places : Places) where
  arg_length_lem :
      (rounds kind w : ℕ) (t : List ℕ) (p : Pages M)
      → All IsText t
      → length t < rounds
      → Means places kind w t
      → arg_length scratch places rounds kind w p ≡ (length t, p)
  unfolding arg_length
  arg_length_lem rounds kind w t p a lt (inl (k, e)) =
      ap (λ k'. arg_length scratch places rounds k' w p) k ∙ ap (λ t'. (length t', p)) (sym e)
  arg_length_lem rounds kind w t p a lt (inr (inl (k, h))) =
      ap (λ k'. arg_length scratch places rounds k' w p) k
      ∙ ap (λ n. (n, p)) (text_length_lem rounds places.ram w t h a lt)
  arg_length_lem rounds kind w t p a lt (inr (inr (inl (k, h)))) =
      ap (λ k'. arg_length scratch places rounds k' w p) k
      ∙ ap (λ n. (n, p)) (text_length_lem rounds places.flash w t h a lt)
  arg_length_lem rounds kind w t p a lt (inr (inr (inr (k, h)))) =
      ap (λ k'. arg_length scratch places rounds k' w p) k
      ∙ ap (λ n. (n, p)) (text_length_lem rounds places.eeprom w t h a lt)

  -- A page after the total and word `seg` are set.
  abbrev kept : ℕ → ℕ → ℕ → Pages M → Pages M
  kept n w seg p =
      on_words scratch places (λ m. put_word 0 (u16 (seg_word m 0 + (n + (2 ^ 16 - 2)))) m)
        (on_words scratch places (put_word seg w) p)

  keep_arg_lem :
      (rounds kind w seg : ℕ) (t : List ℕ) (p : Pages M)
      → All IsText t
      → length t < rounds
      → Means places kind w t
      → keep_arg scratch places rounds kind w seg p ≡ kept (length t) w seg p
  unfolding keep_arg
  keep_arg_lem rounds kind w seg t p a lt h =
      ap (λ (r : ℕ × Pages M). kept (r.0) w seg (r.1)) (arg_length_lem rounds kind w t p a lt h)

  -- A round of the loop, by the tests for the end and for a `$`, and the kind.
  abbrev round_of : Bool → Bool → ℕ → ℕ → ℕ → ℕ → ℕ → List ℕ → Pages M → Pages M
  round_of at_end is_arg kind left rounds f seg args p =
      if at_end
      then p
      else prepare_loop scratch places left rounds (if is_arg then f + 2 else f + 1)
          (if is_arg then seg + 1 else seg) (if is_arg then tail_of args else args)
          (if is_arg then keep_arg scratch places rounds kind (head_of args) seg p else p)

  one_round :
      (left rounds f seg kind : ℕ) (at_end is_arg : Bool) (args : List ℕ) (p : Pages M)
      → (places.flash f == 0) ≡ at_end
      → (places.flash f == b'$') ≡ is_arg
      → places.flash (f + 1) ≡ kind
      → prepare_loop scratch places (suc left) rounds f seg args p
        ≡ round_of at_end is_arg kind left rounds f seg args p
  unfolding prepare_loop
  one_round left rounds f seg kind at_end is_arg args p e e' k =
      ap (λ t. round_of t (places.flash f == b'$') (places.flash (f + 1)) left rounds f seg args p)
        e
      ∙ ap (λ t. round_of at_end t (places.flash (f + 1)) left rounds f seg args p) e'
      ∙ ap (λ c. round_of at_end is_arg c left rounds f seg args p) k

  -- What the loop has done to page 0, from word `seg` on.
  abbrev Prepares : ℕ → ℕ → List Piece → Pages M → Pages M → Type 0
  Prepares total seg ps p p' =
      (p'.buf0.bnum ≡ p.buf0.bnum)
      × (seg_word p'.buf0.bytes 0 ≡ u16 (total + length (meaning ps)))
      × HoldsWords p'.buf0.bytes seg (words ps)
      × ((j : ℕ) → j ≢ 0 → j < seg → seg_word p'.buf0.bytes j ≡ seg_word p.buf0.bytes j)

  after_given :
      (total seg kind w : ℕ) (t : List ℕ) (ps : List Piece) (p p' : Pages M)
      → 0 < seg
      → w < 2 ^ 16
      → Prepares (total + length t) (seg + 1) ps (kept (length t) w seg p) p'
      → Prepares total seg (placed kind w t ∷ ps) p p'
  after_given total seg kind w t ps p p' pos lt (b, n, h, old) =
      (b, n ∙ ap u16 (omega (arith, length-append t (meaning ps))), (first, h), before)
    where
      first : seg_word p'.buf0.bytes seg ≡ w
      first =
          old seg (omega arith) (omega arith)
          ∙ seg_word_other 0 seg _ (put_word seg w p.buf0.bytes) (omega arith)
          ∙ seg_word-put_word seg w p.buf0.bytes lt

      before : (j : ℕ) → j ≢ 0 → j < seg → seg_word p'.buf0.bytes j ≡ seg_word p.buf0.bytes j
      before j z lt' =
          old j z (omega arith)
          ∙ seg_word_other 0 j _ (put_word seg w p.buf0.bytes) (λ e. z (sym e))
          ∙ seg_word_other seg j w p.buf0.bytes (omega arith)

  after_plain :
      (total seg c : ℕ) (ps : List Piece) (p p' : Pages M)
      → Prepares (total + 1) seg ps p p'
      → Prepares total seg (plain c ∷ ps) p p'
  after_plain total seg c ps p p' (b, n, h, old) = (b, n ∙ ap u16 (omega arith), h, old)

  counted :
      (total seg w size rest : ℕ) (p : Pages M)
      → seg ≢ 0
      → seg_word p.buf0.bytes 0 ≡ u16 (total + suc (suc rest))
      → seg_word (kept size w seg p).buf0.bytes 0 ≡ u16 (total + size + rest)
  counted total seg w size rest p z n =
      seg_word-put_word 0 _ (put_word seg w p.buf0.bytes) (omega arith)
      ∙ ap (λ k. u16 (k + (size + (2 ^ 16 - 2)))) (seg_word_other seg 0 w p.buf0.bytes z ∙ n)
      ∙ omega arith

  pub prepare_loop-Prepares :
      (left rounds f total seg : ℕ) (ps : List Piece) (p : Pages M)
      → Holds places.flash f (code ps ++ 0 ∷ [])
      → All (IsPiece places rounds) ps
      → length (code ps) < left
      → 0 < seg
      → seg_word p.buf0.bytes 0 ≡ u16 (total + length (code ps))
      → Prepares total seg ps p (prepare_loop scratch places left rounds f seg (words ps) p)
  prepare_loop-Prepares zero rounds f total seg ps p h a lt pos n = absurd (omega arith)
  prepare_loop-Prepares (suc left) rounds f total seg [] p (e, h) a lt pos n =
      subst (λ p'. Prepares total seg [] p p')
        (sym (
          one_round left rounds f seg (places.flash (f + 1)) true false [] p (ground (arith, e))
            (ground (arith, e)) refl))
        (refl, n, tt, λ j z lt'. refl)
  prepare_loop-Prepares (suc left) rounds f total seg (plain c ∷ ps) p (e, h) ((z, d), a) lt pos n =
      subst (λ p'. Prepares total seg (plain c ∷ ps) p p')
        (sym (
          one_round left rounds f seg (places.flash (f + 1)) false false (words ps) p
            (ground (arith, e, z)) (ground (arith, e, d)) refl))
        (after_plain total seg c ps p
          (prepare_loop scratch places left rounds (f + 1) seg (words ps) p)
          (prepare_loop-Prepares left rounds (f + 1) (total + 1) seg ps p h a (omega arith) pos
            (n ∙ ap u16 (omega arith))))
  prepare_loop-Prepares (suc left) rounds f total seg (placed kind w t ∷ ps) p (e, (k, h))
        ((small, is_text, fits, means), a) lt pos n =
      subst (λ p'. Prepares total seg (placed kind w t ∷ ps) p p')
        (sym (
          one_round left rounds f seg kind false true (words (placed kind w t ∷ ps)) p
            (ground (arith, e)) (ground (arith, e)) k
          ∙ ap (λ q. prepare_loop scratch places left rounds (f + 2) (seg + 1) (words ps) q)
              (keep_arg_lem rounds kind w seg t p is_text fits means)))
        (after_given total seg kind w t ps p
          (prepare_loop scratch places left rounds (f + 2) (seg + 1) (words ps)
            (kept (length t) w seg p))
          pos small
          (prepare_loop-Prepares left rounds (f + 2) (total + length t) (seg + 1) ps
            (kept (length t) w seg p)
            (subst (λ k'. Holds places.flash k' (code ps ++ 0 ∷ [])) (omega arith) h) a
            (omega arith) (omega arith)
            (counted total seg w (length t) (length (code ps)) p (omega arith) n)))

  -- Page 0 holds the total, the format and the words.
  abbrev pub Prepared : ℕ → List Piece → Pages M → Type 0
  Prepared f ps p =
      (p.buf0.bnum ≡ 0)
      × (seg_word p.buf0.bytes 0 ≡ length (meaning ps))
      × (seg_word p.buf0.bytes 1 ≡ f)
      × HoldsWords p.buf0.bytes 2 (words ps)

  pub prepare-Prepared :
      (rounds f : ℕ) (ps : List Piece) (p : Pages M)
      → Stands places.flash f (code ps)
      → All IsText (code ps)
      → All (IsPiece places rounds) ps
      → length (code ps) < rounds
      → f < 2 ^ 16
      → length (code ps) < 2 ^ 16
      → length (meaning ps) < 2 ^ 16
      → Prepared f ps (prepare scratch places rounds f (words ps) p)
  unfolding prepare
  prepare-Prepared rounds f ps p h c a lt small small' small'' =
      let (b, n, w, old) =
        prepare_loop-Prepares rounds rounds f 0 2 ps
          (on_words scratch places
            (λ m. put_word 1 f (put_word 0 (text_length rounds places.flash f) m))
            (load_write scratch 0 p))
          h a lt (omega arith) total in
      (
        b ∙ load_write_bnum scratch 0 p,
        n ∙ omega arith,
        old 1 (omega arith) (omega arith) ∙ seg_word-put_word 1 f first small,
        w,
      )
    where
      first : Memory
      first = put_word 0 (text_length rounds places.flash f) (load_write scratch 0 p).buf0.bytes

      total : seg_word (put_word 1 f first) 0 ≡ u16 (0 + length (code ps))
      total =
          seg_word_other 1 0 f first (omega arith)
          ∙ ap (λ k. seg_word (put_word 0 k (load_write scratch 0 p).buf0.bytes) 0)
              (text_length_lem rounds places.flash f (code ps) h c lt)
          ∙ seg_word-put_word 0 (length (code ps)) (load_write scratch 0 p).buf0.bytes small'
          ∙ omega arith
