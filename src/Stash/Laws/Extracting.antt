-- ===== src/Stash/Laws/Extracting.antt =====
-- What extract writes is the text of the format.
use ether_house.Base.{
  ℕ, ◌^◌, u16, zero, suc, ◌+◌, ◌<◌, ◌≤◌, ◌≡◌, refl, sym, subst, ap, ◌∙◌, arith, Bool, true, false,
  ltb, some, List, [], ◌∷◌, ◌++◌, All, length, length-append, Memory, write, Holds,
}
use ether_house.Net.Filler.Laws.{Emits}
use ether_house.Stash.{Scratch, Pages, Stash}
use ether_house.Stash.Message.{Places, seg_word, message_length}
use ether_house.Stash.Laws.Size.{load_write-same}
use ether_house.Stash.Laws.Preparing.{Prepared}
use ether_house.Stash.Extract.{Extraction, extract_round, extract_loop, extract}
use ether_house.Stash.Laws.Formats.{
  Piece, cost, plain, placed, code, words, meaning, IsText, Stands, IsPiece, HoldsWords,
}
use ether_house.Stash.Laws.Rounds.{
  cons-Emits, nothing-Emits, IsKind, source, take_some, loop_step, loop_end, begin_kind-Begins,
  Means-IsKind, plain_round, begin_round, text_round, take_none,
}

module _ {ℓ} {M : Type ℓ} (scratch : Scratch M) (places : Places) where
  -- The bytes are written, and the pages are as they were.
  abbrev pub Written : List ℕ → Extraction M → Extraction M → Type ℓ
  Written xs st st' = Emits st.buf st.out xs (st'.buf, st'.out) × (st'.pages ≡ st.pages)

  -- The rounds left write the bytes.
  abbrev Writes : ℕ → ℕ → List ℕ → Extraction M → Type ℓ
  Writes left end xs st = Written xs st (extract_loop scratch places left 0 end st)

  cons-Written :
      (x : ℕ) (xs : List ℕ) (st taken st' : Extraction M)
      → taken.buf ≡ write st.buf st.out x
      → taken.out ≡ st.out + 1
      → taken.pages ≡ st.pages
      → Written xs taken st'
      → Written (x ∷ xs) st st'
  cons-Written x xs st taken st' b o p (h, p') = (
    cons-Emits st.buf st.out x xs st'.buf st'.out (
        subst (λ (r : Memory × ℕ). Emits (r.0) (r.1) xs (st'.buf, st'.out))
          (ap (λ m. (m, taken.out)) b ∙ ap (λ k. (write st.buf st.out x, k)) o) h),
    p' ∙ p,
  )

  stopped-Writes :
      (left end : ℕ) (xs : List ℕ) (st : Extraction M)
      → ltb st.i end ≡ false
      → st.i + length xs ≡ end
      → Writes left end xs st
  stopped-Writes left end xs st e n =
      subst (λ (st' : Extraction M). Written xs st st')
        (sym (loop_end scratch places left end st e))
        (nothing-Emits st.buf st.out xs (ground (arith, e, n)), refl)

  step-Writes :
      (left end : ℕ) (xs : List ℕ) (st st' : Extraction M)
      → ltb st.i end ≡ true
      → extract_round scratch places 0 st ≡ some st'
      → Written xs st (extract_loop scratch places left 0 end st')
      → Writes (suc left) end xs st
  step-Writes left end xs st st' e q h =
      subst (λ (r : Extraction M). Written xs st r)
        (sym (loop_step scratch places left end st st' e q)) h

  -- A text, and what is behind it.
  text-Writes :
      (left need end : ℕ) (t rest : List ℕ) (st : Extraction M)
      → IsKind st.mode
      → Stands (source scratch places st.mode st.tmp) st.ptr t
      → All IsText t
      → length t + need < left
      → st.i + (length t + length rest) ≡ end
      → ((left' : ℕ) (st' : Extraction M)
          → need ≤ left'
          → st'.mode ≡ b'@'
          → st'.fmt ≡ st.fmt
          → st'.seg ≡ st.seg
          → st'.pages ≡ st.pages
          → st'.i + length rest ≡ end
          → Writes left' end rest st')
      → Writes left end (t ++ rest) st
  text-Writes zero need end t rest st k h a lt n more = absurd (omega arith)
  text-Writes (suc left) need end [] rest st k (z, h) a lt n more = by_test (ltb st.i end) refl
    where
      ended : Extraction M
      ended = record st { ptr = st.ptr + 1; mode = b'@' }

      by_test : (b : Bool) → ltb st.i end ≡ b → Writes (suc left) end rest st
      by_test false e = stopped-Writes (suc left) end rest st e (omega (arith, n))
      by_test true e =
          step-Writes left end rest st ended e
            (text_round scratch places 0 st k z
              ∙ ap some (take_none scratch places (record st { ptr = st.ptr + 1 })))
            (more left ended (omega arith) refl refl refl refl (omega (arith, n)))
  text-Writes (suc left) need end (x ∷ xs) rest st k (e, h) (c, a) lt n more =
      step-Writes left end (x ∷ xs ++ rest) st taken (ground (arith, n))
        (text_round scratch places x st k e
          ∙ ap some (take_some scratch places x (record st { ptr = st.ptr + 1 }) c))
        (cons-Written x (xs ++ rest) st taken (extract_loop scratch places left 0 end taken) refl
          refl refl
          (text-Writes left need end xs rest taken k h a (omega arith) (omega (arith, n)) more))
    where
      taken : Extraction M
      taken = record st {
        ptr = st.ptr + 1;
        buf = write st.buf st.out x;
        out = st.out + 1;
        i = st.i + 1;
      }

  -- What holds in front of the pieces, and what the rounds left do then.
  abbrev Extracts : ℕ → ℕ → List Piece → Type ℓ
  Extracts rounds end ps =
      (left : ℕ) (st : Extraction M)
      → st.mode ≡ b'@'
      → Holds places.flash st.fmt (code ps ++ 0 ∷ [])
      → HoldsWords st.pages.buf0.bytes (st.seg + 1) (words ps)
      → All (IsPiece places rounds) ps
      → cost ps < left
      → st.i + length (meaning ps) ≡ end
      → Writes left end (meaning ps) st

  placed-Extracts :
      (rounds end kind w : ℕ) (t : List ℕ) (ps : List Piece)
      → Extracts rounds end ps
      → Extracts rounds end (placed kind w t ∷ ps)
  placed-Extracts rounds end kind w t ps more zero st m h ws a lt n = absurd (omega arith)
  placed-Extracts rounds end kind w t ps more (suc left) st m (e, (k, h)) (at, words_after)
        ((small, is_text, fits, means), a) lt n =
      by_test (ltb st.i end) refl
    where
      behind : Extraction M
      behind = record st { fmt = st.fmt + 2; seg = st.seg + 1 }

      total : st.i + (length t + length (meaning ps)) ≡ end
      total = ap (λ l. st.i + l) (sym (length-append t (meaning ps))) ∙ n

      by_test : (b : Bool) → ltb st.i end ≡ b → Writes (suc left) end (t ++ meaning ps) st
      by_test false off = stopped-Writes (suc left) end (t ++ meaning ps) st off n
      by_test true on =
          let ((ptr, tmp), begun, stands) =
            begin_kind-Begins scratch places kind w t behind means in
          let begun_at = record behind { mode = kind; ptr = ptr; tmp = tmp } in
          step-Writes left end (t ++ meaning ps) st begun_at on
            (begin_round scratch places kind w st m e k at ∙ ap some begun)
            (text-Writes left (cost ps + 1) end t (meaning ps) begun_at
              (Means-IsKind scratch places kind w t means) stands is_text (omega arith) total
              (λ left' st' enough m' f' s' p' n'.
                more left' st' m'
                  (subst (λ f. Holds places.flash f (code ps ++ 0 ∷ [])) (omega arith ∙ sym f') h)
                  (subst (λ s. HoldsWords st'.pages.buf0.bytes (s + 1) (words ps)) (sym s')
                    (subst (λ (p : Pages M). HoldsWords p.buf0.bytes (st.seg + 1 + 1) (words ps))
                      (sym p') words_after))
                  a (omega arith) n'))

  pieces-Extracts : (rounds end : ℕ) (ps : List Piece) → Extracts rounds end ps
  pieces-Extracts rounds end [] left st m h w a lt n =
      stopped-Writes left end [] st (ground (arith, n)) n
  pieces-Extracts rounds end (plain c ∷ ps) zero st m h w a lt n = absurd (omega arith)
  pieces-Extracts rounds end (plain c ∷ ps) (suc left) st m (e, h) w ((z, d), a) lt n =
      step-Writes left end (c ∷ meaning ps) st taken (ground (arith, n))
        (plain_round scratch places c st m e z d)
        (cons-Written c (meaning ps) st taken (extract_loop scratch places left 0 end taken) refl
          refl refl
          (pieces-Extracts rounds end ps left taken m h w a (omega arith) (omega (arith, n))))
    where
      taken : Extraction M
      taken = record st {
        fmt = st.fmt + 1;
        buf = write st.buf st.out c;
        out = st.out + 1;
        i = st.i + 1;
      }
  pieces-Extracts rounds end (placed kind w t ∷ ps) left st m h ws a lt n =
      placed-Extracts rounds end kind w t ps (λ left' st'. pieces-Extracts rounds end ps left' st')
        left st m h ws a lt n

  pub message_length_lem :
      (f : ℕ) (ps : List Piece) (p : Pages M)
      → Prepared scratch places f ps p
      → message_length scratch places p ≡ (length (meaning ps), p)
  unfolding message_length
  message_length_lem f ps p (b, n, k, w) =
      ap (λ (p' : Pages M). (seg_word p'.buf0.bytes 0, p')) (load_write-same scratch 0 p b)
      ∙ ap (λ l. (l, p)) n

  -- The variables at the first round.
  abbrev pub started : ℕ → Memory → Memory → Stash → Pages M → Extraction M
  started dest buf tmp stash p = record {
    fmt = seg_word p.buf0.bytes 1;
    seg = 1;
    mode = b'@';
    ptr = 0;
    tmp = tmp;
    stash = stash;
    i = 0;
    out = dest;
    buf = buf;
    pages = p;
  }

  extract-started :
      (left count : ℕ) (dest : ℕ) (buf tmp : Memory) (stash : Stash) (p : Pages M)
      → p.buf0.bnum ≡ 0
      → count < 2 ^ 16
      → extract scratch places left 0 count dest buf tmp stash p
        ≡ extract_loop scratch places left 0 count (started dest buf tmp stash p)
  unfolding extract
  extract-started left count dest buf tmp stash p b small =
      ap
        (λ (p' : Pages M).
          extract_loop scratch places left 0 (u16 (0 + count)) (started dest buf tmp stash p'))
        (load_write-same scratch 0 p b)
      ∙ ap (λ c. extract_loop scratch places left 0 c (started dest buf tmp stash p)) (omega arith)

  pub extract-Written :
      (rounds left f : ℕ) (ps : List Piece) (dest : ℕ) (buf tmp : Memory) (stash : Stash)
      (p : Pages M)
      → Stands places.flash f (code ps)
      → All (IsPiece places rounds) ps
      → length (meaning ps) < 2 ^ 16
      → cost ps < left
      → Prepared scratch places f ps p
      → Written
          (meaning ps)
          (started dest buf tmp stash p)
          (extract scratch places left 0 (length (meaning ps)) dest buf tmp stash p)
  extract-Written rounds left f ps dest buf tmp stash p h a small lt (b, n, k, w) =
      subst (λ (st : Extraction M). Written (meaning ps) (started dest buf tmp stash p) st)
        (sym (extract-started left (length (meaning ps)) dest buf tmp stash p b small))
        (pieces-Extracts rounds (length (meaning ps)) ps left (started dest buf tmp stash p) refl
          (subst (λ f'. Holds places.flash f' (code ps ++ 0 ∷ [])) (sym k) h) w a lt (omega arith))
