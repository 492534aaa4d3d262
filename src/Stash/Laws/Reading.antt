-- ===== src/Stash/Laws/Reading.antt =====
-- A text of one page is read as it was put.
use ether_house.Base.{
  ℕ, zero, suc, ◌+◌, ◌<◌, ◌≤◌, ◌≡◌, ◌≢◌, refl, sym, subst, ap, ◌∙◌, arith, Bool, true, false, not,
  ◌&&◌, ◌==◌, leb, if◌then◌else◌, List, [], ◌∷◌, ◌++◌, length, length-append, Memory, write, u8,
}
use mathlib.Core.List.{append_assoc, append-nil}
use ether_house.Base.{Holds, Holds-ext, Holds-join}
use ether_house.Stash.{Scratch, Pages, Stash}
use ether_house.Stash.Texts.{load_read, put_loaded, put, get_loaded, get}
use ether_house.Stash.Laws.Size.{load_write-same, put_all}

module _ {ℓ} {M : Type ℓ} (scratch : Scratch M) where
  -- The page that is written holds the text, and is the only one of the stash.
  abbrev pub OnePage : List ℕ → Stash × Pages M → Type 0
  OnePage text r =
      ((r.1).buf0.bnum ≡ (r.0).last)
      × ((r.0).first ≡ (r.0).last)
      × ((r.0).first ≢ 0)
      × ((r.1).buf0.bytes 62 ≡ 3 + length text)
      × Holds (r.1).buf0.bytes 3 text

  put-OnePage :
      (c : ℕ) (text : List ℕ) (s : Stash) (p : Pages M)
      → OnePage text (s, p)
      → length text < 59
      → OnePage (text ++ c ∷ []) (put_loaded scratch c s p)
  unfolding put_loaded
  put-OnePage c text s p (b, f, z, t, h) few = by_test (leb (u8 (p.buf0.bytes 62 + 1)) 62) refl _
    where
      m : Memory
      m = p.buf0.bytes

      stored : Memory
      stored = write (write m (m 62) c) 62 (u8 (m 62 + 1))

      next : u8 (m 62 + 1) ≡ 3 + (length text + 1)
      next = omega (arith, t)

      longer : length (text ++ c ∷ []) ≡ length text + 1
      longer = length-append text (c ∷ []) ∙ omega arith

      old : Holds stored 3 text
      old = Holds-ext m stored 3 text (λ i le lt. ground (arith, t)) h

      new : stored (3 + length text) ≡ c
      new = ground (arith, t)

      by_test :
          (t' : Bool)
          → leb (u8 (m 62 + 1)) 62 ≡ t'
          → (other : Stash × Pages M)
          → OnePage (text ++ c ∷ []) (
              if t'
              then (s, record p { buf0 = record { bytes = stored; bnum = p.buf0.bnum } })
              else other)
      by_test true e other =
          (b, f, z, omega (arith, next, longer), Holds-join stored 3 text (c ∷ []) old (new, tt))
      by_test false e other = absurd (ground (arith, e, next))

  -- The page that is read holds the rest of the text.
  abbrev pub Reads : List ℕ → Stash → Pages M → Type 0
  Reads rest s p =
      (p.buf1.bnum ≡ s.curr)
      × (s.curr ≡ s.last)
      × (p.buf1.bytes 62 ≡ s.offs + length rest)
      × (s.offs + length rest ≤ 62)
      × Holds p.buf1.bytes s.offs rest

  load_read-same : (blk : ℕ) (p : Pages M) → p.buf1.bnum ≡ blk → load_read scratch blk p ≡ p
  unfolding load_read
  load_read-same blk p e = ground (arith, e)

  -- So many bytes in their turn.
  abbrev pub get_all : ℕ → Stash → Pages M → List ℕ
  get_all zero s p = []
  get_all (suc n) s p = (get scratch s p).0 ∷ get_all n ((get scratch s p).1) ((get scratch s p).2)

  get_loaded-end : (s : Stash) (p : Pages M) → Reads [] s p → (get_loaded scratch s p).0 ≡ 0
  unfolding get_loaded
  get_loaded-end s p (b, l, t, le, h) =
      by_test (s.curr == s.last && leb (p.buf1.bytes 62) s.offs) (ground (arith, l, t)) _
    where
      by_test :
          (t' : Bool)
          → t' ≡ true
          → (other : ℕ × Stash × Pages M) → ◌≡◌ {A = ℕ} ((if t' then (0, s, p) else other).0) 0
      by_test true e other = refl
      by_test false e other = absurd (ground (arith, e))

  get_loaded-next :
      (c : ℕ) (rest : List ℕ) (s : Stash) (p : Pages M)
      → Reads (c ∷ rest) s p
      → get_loaded scratch s p ≡ (c, record s { offs = s.offs + 1 }, p)
  unfolding get_loaded
  get_loaded-next c rest s p (b, l, t, le, (h, h')) =
      let more : (s.curr == s.last && leb (p.buf1.bytes 62) s.offs) ≡ false = ground (arith, t) in
      let last : (leb 63 (u8 (s.offs + 1)) && not (s.curr == s.last)) ≡ false = ground (arith, l) in
      by_tests _ _ more last _ _
      ∙ ap (λ n. (p.buf1.bytes s.offs, record s { offs = n }, p)) (omega arith)
      ∙ ap (λ x. (x, record s { offs = s.offs + 1 }, p)) h
    where
      by_tests :
          (t t' : Bool)
          → t ≡ false
          → t' ≡ false
          → (end other : ℕ × Stash × Pages M)
          → ◌≡◌ {A = ℕ × Stash × Pages M}
              (if t
                then end
                else if t'
                then other
                else (p.buf1.bytes s.offs, record s { offs = u8 (s.offs + 1) }, p))
              (p.buf1.bytes s.offs, record s { offs = u8 (s.offs + 1) }, p)
      by_tests true t' e e' end other = absurd (ground (arith, e))
      by_tests false true e e' end other = absurd (ground (arith, e'))
      by_tests false false e e' end other = refl

  get-same :
      (s : Stash) (p : Pages M) → p.buf1.bnum ≡ s.curr → get scratch s p ≡ get_loaded scratch s p
  unfolding get
  get-same s p e = ap (get_loaded scratch s) (load_read-same s.curr p e)

  pub get_all-Reads :
      (text : List ℕ) (s : Stash) (p : Pages M)
      → Reads text s p
      → get_all (suc (length text)) s p ≡ text ++ 0 ∷ []
  get_all-Reads [] s p r =
      ap (λ g. g.0 ∷ []) (get-same s p (r.0)) ∙ ap (λ b. b ∷ []) (get_loaded-end s p r)
  get_all-Reads (c ∷ rest) s p (b, l, t, le, (h, h')) =
      let step = get-same s p b ∙ get_loaded-next c rest s p (b, l, t, le, (h, h')) in
      ap (λ g. g.0 ∷ get_all (suc (length rest)) (g.1) (g.2)) step
      ∙ ap (λ l'. c ∷ l')
          (get_all-Reads rest (record s { offs = s.offs + 1 }) p
            (b, l, omega (arith, t), omega arith, h'))

  pub put_all-OnePage :
      (text sofar : List ℕ) (s : Stash) (p : Pages M)
      → OnePage sofar (s, p)
      → length sofar + length text ≤ 59
      → OnePage (sofar ++ text) (put_all scratch text s p)
  unfolding put
  put_all-OnePage [] sofar s p h le = subst (λ l. OnePage l (s, p)) (sym (append-nil sofar)) h
  put_all-OnePage (c ∷ rest) sofar s p h le =
      subst (λ l. OnePage l (put_all scratch (c ∷ rest) s p)) (append_assoc sofar (c ∷ []) rest)
        (put_all-OnePage rest (sofar ++ c ∷ []) ((put scratch c s p).0) ((put scratch c s p).1)
          one_more (omega (arith, length-append sofar (c ∷ []))))
    where
      one_more : OnePage (sofar ++ c ∷ []) (put scratch c s p)
      one_more =
          subst (λ q. OnePage (sofar ++ c ∷ []) (put_loaded scratch c s q))
            (sym (load_write-same scratch s.last p (h.0))) (put-OnePage c sofar s p h (omega arith))
