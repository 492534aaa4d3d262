-- ===== src/Stash/Texts.antt =====
-- The pages in RAM and the text of a stash: Stash::load, create, open, save, release, put, get and
-- size.
use ether_house.Base.{
  ℕ, zero, suc, ◌+◌, ◌-◌, ◌*◌, ◌^◌, ◌==◌, ltb, leb, not, ◌&&◌, if◌then◌else◌, Memory, write, u8,
  u16,
}
use ether_house.Stash.{Scratch, Pages, Stash, header_size, tail_p, next_p, count_p, first_p, last_p}
use ether_house.Stash.Blocks.{alloc_block, free_block}

module _ {ℓ} {M : Type ℓ} (scratch : Scratch M) where
  unfoldable pub fetch_byte : ℕ → ℕ → Pages M → ℕ
  fetch_byte blk off p =
      if blk == p.buf0.bnum
      then p.buf0.bytes off
      else if blk == p.buf1.bnum
      then p.buf1.bytes off
      else scratch.peekin blk off p.chip

  -- load(0, blk).
  unfoldable pub load_write : ℕ → Pages M → Pages M
  load_write blk p =
      if blk == p.buf0.bnum
      then p
      else let chip = scratch.copyout p.buf0.bnum p.buf0.bytes p.chip in
        record {
          buf0 = record { bytes = scratch.copyin blk chip p.buf0.bytes; bnum = blk };
          buf1 = if blk == p.buf1.bnum then record { bytes = p.buf1.bytes; bnum = 255 } else p.buf1;
          map = p.map;
          chip = chip;
        }

  -- load(1, blk).
  unfoldable pub load_read : ℕ → Pages M → Pages M
  load_read blk p =
      if blk == p.buf1.bnum
      then p
      else if blk == p.buf0.bnum
      then record p { buf1 = p.buf0 }
      else record p { buf1 = record { bytes = scratch.copyin blk p.chip p.buf1.bytes; bnum = blk } }

  -- A byte of the page that is written.
  abbrev pub set_byte : ℕ → ℕ → Pages M → Pages M
  set_byte off b p = record p {
    buf0 = record { bytes = write p.buf0.bytes off b; bnum = p.buf0.bnum };
  }

  abbrev pub with_header : ℕ → ℕ → Memory → Stash
  with_header curr offs m = record {
    count = m count_p;
    first = m first_p;
    last = m last_p;
    curr = curr;
    offs = offs;
  }

  unfoldable pub open_stash : ℕ → Pages M → Stash × Pages M
  open_stash blk p = let p' = load_read blk p in (with_header blk header_size p'.buf1.bytes, p')

  unfoldable pub create : Pages M → Stash × Pages M
  create p =
      let got = alloc_block p.map in
      let blk = got.0 in
      let p' = load_write blk (record p { map = got.1 }) in
      open_stash blk (
        set_byte next_p 0 (
          set_byte tail_p header_size
            (set_byte first_p blk (set_byte last_p blk (set_byte count_p 0 p')))))

  unfoldable pub save_loaded : Stash → Pages M → Pages M
  save_loaded s p =
      let p' = set_byte last_p s.last (set_byte first_p s.first (set_byte count_p s.count p)) in
      if p'.buf1.bnum == s.first then load_read 0 p' else p'

  unfoldable pub save : Stash → Pages M → Pages M
  save s p = save_loaded s (load_write s.first p)

  -- while (first > 0), with the rounds left.
  unfoldable pub release : ℕ → Stash → Pages M → Stash × Pages M
  release zero s p = (s, p)
  release (suc left) s p =
      let rest =
        release left (record s { first = scratch.peekin s.first next_p p.chip })
          (record p { map = free_block s.first p.map }) in
      if ltb 0 s.first then rest else (s, p)

  -- Behind the load of the last page.
  unfoldable pub put_loaded : ℕ → Stash → Pages M → Stash × Pages M
  put_loaded c s p =
      let t = p.buf0.bytes tail_p in
      let next = u8 (t + 1) in
      let stored = set_byte t c p in
      let got = alloc_block stored.map in
      let chained = set_byte next_p (got.0) (record stored { map = got.1 }) in
      if leb next 62 then (s, set_byte tail_p next stored) else (
        record s { last = got.0; count = u8 (s.count + 1) },
        set_byte tail_p 0 (set_byte next_p 0 (load_write (got.0) chained)),
      )

  unfoldable pub put : ℕ → Stash → Pages M → Stash × Pages M
  put c s p = put_loaded c s (load_write s.last p)

  -- The byte, 0 at the end, behind the load of the page.
  unfoldable pub get_loaded : Stash → Pages M → ℕ × Stash × Pages M
  get_loaded s p =
      let m = p.buf1.bytes in
      let offs = u8 (s.offs + 1) in
      if s.curr == s.last && leb (m tail_p) s.offs
      then (0, s, p)
      else if leb 63 offs && not (s.curr == s.last)
      then (m s.offs, record s { curr = m next_p; offs = 0 }, p)
      else (m s.offs, record s { offs = offs }, p)

  unfoldable pub get : Stash → Pages M → ℕ × Stash × Pages M
  get s p = get_loaded s (load_read s.curr p)

  unfoldable pub size : Stash → Pages M → ℕ
  size s p = u16 (63 * s.count + fetch_byte s.last tail_p p + (2 ^ 16 - header_size))
