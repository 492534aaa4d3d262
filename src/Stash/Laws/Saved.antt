-- ===== src/Stash/Laws/Saved.antt =====
-- A text of one page is saved, opened and read as it was put.
use ether_house.Base.{
  ℕ, suc, ◌+◌, ◌≤◌, ◌≡◌, ◌≢◌, refl, sym, subst, ◌∙◌, arith, Bool, true, false, ◌==◌, if◌then◌else◌,
  List, [], ◌∷◌, ◌++◌, length, Holds, Holds-ext,
}
use ether_house.Stash.{Scratch, Pages, Stash}
use ether_house.Stash.Blocks.{alloc_block}
use ether_house.Stash.Texts.{load_write, load_read, set_byte, open_stash, create, save_loaded, save}
use ether_house.Stash.Laws.Size.{load_write_bnum, load_write-same, put_all}
use ether_house.Stash.Laws.Create.{load_read_written, load_write_apart}
use ether_house.Stash.Laws.Reading.{OnePage, Reads, get_all, get_all-Reads, put_all-OnePage}

module _ {ℓ} {M : Type ℓ} (scratch : Scratch M) where
  create-OnePage :
      (p : Pages M)
      → (alloc_block p.map).0 ≢ p.buf0.bnum
      → (alloc_block p.map).0 ≢ 255
      → (alloc_block p.map).0 ≢ 0
      → OnePage scratch [] (create scratch p)
  unfolding create open_stash
  create-OnePage p h h' h'' =
      let blk = (alloc_block p.map).0 in
      let p' = load_write scratch blk (record p { map = (alloc_block p.map).1 }) in
      let bnum : p'.buf0.bnum ≡ blk =
        load_write_bnum scratch blk (record p { map = (alloc_block p.map).1 }) in
      let q = set_byte scratch 63 0 (
        set_byte scratch 62 3
          (set_byte scratch 1 blk (set_byte scratch 2 blk (set_byte scratch 0 0 p')))) in
      subst
        (λ (r : Pages M). OnePage scratch [] (
          record {
            count = r.buf1.bytes 0;
            first = r.buf1.bytes 1;
            last = r.buf1.bytes 2;
            curr = blk;
            offs = 3;
          },
          r,
        ))
        (sym (
          load_read_written scratch blk q bnum
            (load_write_apart scratch blk (record p { map = (alloc_block p.map).1 }) h h')))
        (bnum, refl, h'', refl, tt)

  -- The page that is written holds the header and the text, and the page that is read is another.
  abbrev IsSaved : List ℕ → Stash → Pages M → Type 0
  IsSaved text s p =
      (p.buf0.bnum ≡ s.first)
      × (p.buf1.bnum ≢ s.first)
      × (p.buf0.bytes 2 ≡ s.first)
      × (p.buf0.bytes 62 ≡ 3 + length text)
      × Holds p.buf0.bytes 3 text

  read_zero :
      (p : Pages M) (k : ℕ) (text : List ℕ) (s : Stash)
      → p.buf1.bnum ≡ k
      → k ≢ 0
      → s.first ≡ k
      → p.buf0.bnum ≡ k
      → (p.buf0.bytes 2 ≡ s.first) × (p.buf0.bytes 62 ≡ 3 + length text) × Holds p.buf0.bytes 3 text
      → IsSaved text s (load_read scratch 0 p)
  unfolding load_read
  read_zero p k text s e z f b x =
      by_tests (0 == p.buf1.bnum) (0 == p.buf0.bnum) (ground (arith, e, z)) (ground (arith, b, z)) p
    where
      fetched : Pages M
      fetched = record p {
        buf1 = record { bytes = scratch.copyin 0 p.chip p.buf1.bytes; bnum = 0 };
      }

      by_tests :
          (t t' : Bool)
          → t ≡ false
          → t' ≡ false
          → (other : Pages M)
          → IsSaved text s (if t then other else if t' then record p { buf1 = p.buf0 } else fetched)
      by_tests true t' q q' other = absurd (ground (arith, q))
      by_tests false true q q' other = absurd (ground (arith, q'))
      by_tests false false q q' other = (b ∙ sym f, λ e'. z (sym f ∙ sym e'), x.0, x.1, x.2)

  save_loaded-IsSaved :
      (text : List ℕ) (s : Stash) (p : Pages M)
      → OnePage scratch text (s, p)
      → length text ≤ 59
      → IsSaved text s (save_loaded scratch s p)
  unfolding save_loaded
  save_loaded-IsSaved text s p (b, f, z, t, h) le = by_test (p.buf1.bnum == s.first) refl
    where
      q : Pages M
      q = set_byte scratch 2 s.last (set_byte scratch 1 s.first (set_byte scratch 0 s.count p))

      kept :
          (q.buf0.bytes 2 ≡ s.first)
          × (q.buf0.bytes 62 ≡ 3 + length text)
          × Holds q.buf0.bytes 3 text
      kept = (sym f, t, Holds-ext p.buf0.bytes q.buf0.bytes 3 text (λ i le' lt. ground arith) h)

      by_test :
          (t' : Bool)
          → (p.buf1.bnum == s.first) ≡ t'
          → IsSaved text s (if t' then load_read scratch 0 q else q)
      by_test true e = read_zero q s.first text s (ground (arith, e)) z refl (b ∙ sym f) kept
      by_test false e = (b ∙ sym f, ground (arith, e), kept.0, kept.1, kept.2)

  open-Reads :
      (text : List ℕ) (s : Stash) (p : Pages M)
      → IsSaved text s p
      → length text ≤ 59
      → Reads scratch text ((open_stash scratch s.first p).0) ((open_stash scratch s.first p).1)
  unfolding open_stash
  open-Reads text s p (b, n, l, t, h) le =
      subst
        (λ (r : Pages M).
          Reads scratch text
            (record {
              count = r.buf1.bytes 0;
              first = r.buf1.bytes 1;
              last = r.buf1.bytes 2;
              curr = s.first;
              offs = 3;
            })
            r)
        (sym (load_read_written scratch s.first p b n)) (b, sym l, t, omega arith, h)

  -- A text of at most 59 bytes that is put into a new stash, saved and opened is read in the same
  -- order, with a 0 behind it; where the block that is allocated is neither 0, 255 nor the one in
  -- the page that is written.
  pub get_all-put_all :
      (text : List ℕ) (p : Pages M)
      → (alloc_block p.map).0 ≢ p.buf0.bnum
      → (alloc_block p.map).0 ≢ 255
      → (alloc_block p.map).0 ≢ 0
      → length text ≤ 59
      → let r = put_all scratch text ((create scratch p).0) ((create scratch p).1) in
        let o = open_stash scratch ((r.0).first) (save scratch (r.0) (r.1)) in
        get_all scratch (suc (length text)) (o.0) (o.1) ≡ text ++ 0 ∷ []
  unfolding save
  get_all-put_all text p h h' h'' le =
      let r = put_all scratch text ((create scratch p).0) ((create scratch p).1) in
      let page =
        put_all-OnePage scratch text [] ((create scratch p).0) ((create scratch p).1)
          (create-OnePage p h h' h'') (omega arith) in
      let saved : IsSaved text (r.0) (save scratch (r.0) (r.1)) =
        subst (λ q. IsSaved text (r.0) (save_loaded scratch (r.0) q))
          (sym (load_write-same scratch ((r.0).first) (r.1) (page.0 ∙ sym (page.1))))
          (save_loaded-IsSaved text (r.0) (r.1) page le) in
      get_all-Reads scratch text _ _ (open-Reads text (r.0) (save scratch (r.0) (r.1)) saved le)
