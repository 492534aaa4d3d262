-- ===== src/Stash/Laws/Create.antt =====
-- A new stash is empty, and its size is the length of the text that is put.
use ether_house.Base.{
  ℕ, ◌+◌, ◌*◌, ◌≤◌, ◌≡◌, ◌≢◌, refl, sym, subst, ◌∙◌, arith, Bool, true, false, ◌==◌, if◌then◌else◌,
  List, length, write,
}
use ether_house.Stash.{Scratch, Pages}
use ether_house.Stash.Blocks.{alloc_block}
use ether_house.Stash.Texts.{load_write, load_read, open_stash, create, size}
use ether_house.Stash.Laws.Size.{Grows, load_write_bnum, size_total, put_all, put_all-Grows}

module _ {ℓ} {M : Type ℓ} (scratch : Scratch M) where
  pub load_read_written :
      (blk : ℕ) (p : Pages M)
      → p.buf0.bnum ≡ blk
      → p.buf1.bnum ≢ blk
      → load_read scratch blk p ≡ record p { buf1 = p.buf0 }
  unfolding load_read
  load_read_written blk p e h = by_tests (blk == p.buf1.bnum) (blk == p.buf0.bnum) refl refl
    where
      fetched : Pages M
      fetched = record p {
        buf1 = record { bytes = scratch.copyin blk p.chip p.buf1.bytes; bnum = blk };
      }

      by_tests :
          (t t' : Bool)
          → (blk == p.buf1.bnum) ≡ t
          → (blk == p.buf0.bnum) ≡ t'
          → ◌≡◌ {A = Pages M}
              (if t then p else if t' then record p { buf1 = p.buf0 } else fetched)
              (record p { buf1 = p.buf0 })
      by_tests true t' q q' = absurd (h (ground (arith, q)))
      by_tests false true q q' = refl
      by_tests false false q q' = absurd (ground (arith, e, q'))

  pub load_write_apart :
      (blk : ℕ) (p : Pages M)
      → blk ≢ p.buf0.bnum
      → blk ≢ 255
      → (load_write scratch blk p).buf1.bnum ≢ blk
  unfolding load_write
  load_write_apart blk p h h' = by_tests (blk == p.buf0.bnum) (blk == p.buf1.bnum) refl refl
    where
      chip : M
      chip = scratch.copyout p.buf0.bnum p.buf0.bytes p.chip

      by_tests :
          (t t' : Bool)
          → (blk == p.buf0.bnum) ≡ t
          → (blk == p.buf1.bnum) ≡ t'
          → (if t then p else record {
            buf0 = record { bytes = scratch.copyin blk chip p.buf0.bytes; bnum = blk };
            buf1 = if t' then record { bytes = p.buf1.bytes; bnum = 255 } else p.buf1;
            map = p.map;
            chip = chip;
          }).buf1.bnum
            ≢ blk
      by_tests true t' q q' = absurd (h (ground (arith, q)))
      by_tests false true q q' = λ e. h' (sym e)
      by_tests false false q q' = λ e. ground (arith, e, q')

  -- A new stash has its header only.
  create-Grows :
      (p : Pages M)
      → (alloc_block p.map).0 ≢ p.buf0.bnum
      → (alloc_block p.map).0 ≢ 255
      → Grows scratch 3 (create scratch p)
  unfolding create open_stash
  create-Grows p h h' =
      let blk = (alloc_block p.map).0 in
      let p' = load_write scratch blk (record p { map = (alloc_block p.map).1 }) in
      let bnum : p'.buf0.bnum ≡ blk =
        load_write_bnum scratch blk (record p { map = (alloc_block p.map).1 }) in
      let q = marked p' blk in
      subst
        (λ (r : Pages M). Grows scratch 3 (
          record {
            count = r.buf1.bytes 0;
            first = r.buf1.bytes 1;
            last = r.buf1.bytes 2;
            curr = blk;
            offs = 3;
          },
          r,
        ))
        (sym (
          load_read_written blk q bnum
            (load_write_apart blk (record p { map = (alloc_block p.map).1 }) h h')))
        ((bnum, omega arith), refl)
    where
      put_at : ℕ → ℕ → Pages M → Pages M
      put_at off b p' = record p' {
        buf0 = record { bytes = write p'.buf0.bytes off b; bnum = p'.buf0.bnum };
      }

      marked : Pages M → ℕ → Pages M
      marked p' blk = put_at 63 0 (put_at 62 3 (put_at 1 blk (put_at 2 blk (put_at 0 0 p'))))

  -- The size of a new stash into which a text is put is the length of the text, over all its
  -- pages, up to 16062 bytes and whatever the chip keeps; where the block that is allocated is
  -- neither 255 nor the one in the page that is written.
  pub size-put_all :
      (text : List ℕ) (p : Pages M)
      → (alloc_block p.map).0 ≢ p.buf0.bnum
      → (alloc_block p.map).0 ≢ 255
      → length text + 3 ≤ 63 * 255
      → let r = put_all scratch text ((create scratch p).0) ((create scratch p).1) in
        size scratch (r.0) (r.1) ≡ length text
  size-put_all text p h h' le =
      let (w, n) = create-Grows p h h' in
      let (w', n') =
        put_all-Grows scratch text ((create scratch p).0) ((create scratch p).1) w
          (omega (arith, n)) in
      let r = put_all scratch text ((create scratch p).0) ((create scratch p).1) in
      size_total scratch (r.0) (r.1) w' ∙ omega (arith, n, n')
