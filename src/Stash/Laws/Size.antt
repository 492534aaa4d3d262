-- ===== src/Stash/Laws/Size.antt =====
-- The size of a stash counts the bytes that were put.
use ether_house.Base.{
  ℕ, ◌+◌, ◌-◌, ◌*◌, ◌^◌, ◌<◌, ◌≤◌, ◌≡◌, refl, sym, subst, arith, Bool, true, false, ◌==◌, leb,
  if◌then◌else◌, List, [], ◌∷◌, length, Memory, write, u8, u16,
}
use ether_house.Stash.{Scratch, Pages, Stash}
use ether_house.Stash.Blocks.{alloc_block}
use ether_house.Stash.Texts.{fetch_byte, load_write, put_loaded, put, size}

module _ {ℓ} {M : Type ℓ} (scratch : Scratch M) where
  -- The last page of the stash is the one that is written, and it has a place for a byte.
  abbrev pub IsWritten : Stash → Pages M → Type 0
  IsWritten s p = (p.buf0.bnum ≡ s.last) × (p.buf0.bytes 62 < 63)

  pub load_write_bnum : (blk : ℕ) (p : Pages M) → (load_write scratch blk p).buf0.bnum ≡ blk
  unfolding load_write
  load_write_bnum blk p = by_test (blk == p.buf0.bnum) refl
    where
      chip : M
      chip = scratch.copyout p.buf0.bnum p.buf0.bytes p.chip

      by_test :
          (t : Bool)
          → (blk == p.buf0.bnum) ≡ t
          → (◌≡◌ {A = ℕ}
              ((if t then p else record {
                buf0 = record { bytes = scratch.copyin blk chip p.buf0.bytes; bnum = blk };
                buf1 =
                    if blk == p.buf1.bnum
                    then record { bytes = p.buf1.bytes; bnum = 255 }
                    else p.buf1;
                map = p.map;
                chip = chip;
              }).buf0.bnum)
              blk)
      by_test true e = ground (arith, e)
      by_test false e = refl

  pub load_write-same : (blk : ℕ) (p : Pages M) → p.buf0.bnum ≡ blk → load_write scratch blk p ≡ p
  unfolding load_write
  load_write-same blk p e = ground (arith, e)

  -- The bytes of the header and the text.
  abbrev pub total : Stash → Pages M → ℕ
  total s p = 63 * s.count + p.buf0.bytes 62

  pub size_total :
      (s : Stash) (p : Pages M) → IsWritten s p → size scratch s p ≡ u16 (total s p + (2 ^ 16 - 3))
  unfolding size fetch_byte
  size_total s p (b, t) = by_test (s.last == p.buf0.bnum) refl
    where
      by_test :
          (t' : Bool)
          → (s.last == p.buf0.bnum) ≡ t'
          → u16 (
              63 * s.count
              + (if t'
                  then p.buf0.bytes 62
                  else if s.last == p.buf1.bnum
                  then p.buf1.bytes 62
                  else scratch.peekin s.last 62 p.chip)
              + (2 ^ 16 - 3))
            ≡ u16 (total s p + (2 ^ 16 - 3))
      by_test true e = refl
      by_test false e = absurd (ground (arith, e, b))

  -- A byte more.
  abbrev pub Grows : ℕ → Stash × Pages M → Type 0
  Grows n r = IsWritten (r.0) (r.1) × (total (r.0) (r.1) ≡ n)

  put_loaded-Grows :
      (c : ℕ) (s : Stash) (p : Pages M)
      → IsWritten s p
      → s.count < 255
      → Grows (total s p + 1) (put_loaded scratch c s p)
  unfolding put_loaded
  put_loaded-Grows c s p (b, lt) few = by_test (leb (u8 (p.buf0.bytes 62 + 1)) 62) refl
    where
      stored : Pages M
      stored = record p {
        buf0 = record { bytes = write p.buf0.bytes (p.buf0.bytes 62) c; bnum = p.buf0.bnum };
      }

      got : ℕ × Memory
      got = alloc_block stored.map

      chained : Pages M
      chained = record stored {
        map = got.1;
        buf0 = record { bytes = write stored.buf0.bytes 63 (got.0); bnum = stored.buf0.bnum };
      }

      loaded : Pages M
      loaded = load_write scratch (got.0) chained

      tail_is : Pages M → ℕ → Pages M
      tail_is q n = record q {
        buf0 = record { bytes = write q.buf0.bytes 62 n; bnum = q.buf0.bnum };
      }

      by_test :
          (t : Bool)
          → leb (u8 (p.buf0.bytes 62 + 1)) 62 ≡ t
          → Grows (total s p + 1) (
              if t then (s, tail_is stored (u8 (p.buf0.bytes 62 + 1))) else (
                record s { last = got.0; count = u8 (s.count + 1) },
                tail_is
                    (record loaded {
                      buf0 = record {
                        bytes = write loaded.buf0.bytes 63 0;
                        bnum = loaded.buf0.bnum;
                      };
                    })
                    0,
              ))
      by_test true e =
          let small : u8 (p.buf0.bytes 62 + 1) ≡ p.buf0.bytes 62 + 1 = omega arith in
          ((b, ground (arith, e)), omega (arith, small))
      by_test false e =
          let full : p.buf0.bytes 62 ≡ 62 = ground (arith, e) in
          ((load_write_bnum (got.0) chained, omega arith), omega (arith, full))

  put-Grows :
      (c : ℕ) (s : Stash) (p : Pages M)
      → IsWritten s p
      → s.count < 255
      → Grows (total s p + 1) (put scratch c s p)
  unfolding put
  put-Grows c s p h few =
      subst (λ q. Grows (total s p + 1) (put_loaded scratch c s q))
        (sym (load_write-same s.last p (h.0))) (put_loaded-Grows c s p h few)

  -- Each byte of a text in its turn.
  abbrev pub put_all : List ℕ → Stash → Pages M → Stash × Pages M
  put_all [] s p = (s, p)
  put_all (c ∷ rest) s p = put_all rest ((put scratch c s p).0) ((put scratch c s p).1)

  pub put_all-Grows :
      (text : List ℕ) (s : Stash) (p : Pages M)
      → IsWritten s p
      → total s p + length text ≤ 63 * 255
      → Grows (total s p + length text) (put_all text s p)
  put_all-Grows [] s p h le = (h, omega arith)
  put_all-Grows (c ∷ rest) s p h le =
      let (h', n) = put-Grows c s p h (omega arith) in
      subst (λ k. Grows k (put_all (c ∷ rest) s p)) (omega (arith, n))
        (put_all-Grows rest ((put scratch c s p).0) ((put scratch c s p).1) h' (omega (arith, n)))
