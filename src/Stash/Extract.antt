-- ===== src/Stash/Extract.antt =====
-- Stash::extract and cleanup: the message is written, and its stashes are released.
use ether_house.Base.{
  ℕ, zero, suc, ◌+◌, ◌==◌, ltb, leb, if◌then◌else◌, Option, some, none, Memory, write, u16,
}
use ether_house.Net.Filler.{wtoa, put_string}
use ether_house.Stash.{Scratch, Pages, Stash}
use ether_house.Stash.Texts.{load_write, open_stash, release, get}
use ether_house.Stash.Message.{Places, seg_word}

-- The variables of extract, and the places it reads and writes: `mode` is the character that says
-- what is read, and the next byte goes to `out` of `buf`.
pub record Extraction {ℓ} (M : Type ℓ) : Type ℓ where
  pub fmt : ℕ
  pub seg : ℕ
  pub mode : ℕ
  pub ptr : ℕ
  pub tmp : Memory
  pub stash : Stash
  pub i : ℕ
  pub out : ℕ
  pub buf : Memory
  pub pages : Pages M

module _ {ℓ} {M : Type ℓ} (scratch : Scratch M) (places : Places) where
  -- The switch on the character behind a `$`.
  unfoldable pub begin_kind : ℕ → ℕ → Extraction M → Extraction M
  begin_kind kind arg st =
      let next = record st { mode = kind } in
      if kind == b'D'
      then record next { tmp = (put_string (wtoa 5 arg) 0 st.tmp).0; ptr = 0 }
      else if kind == b'S'
      then record next { ptr = arg }
      else if kind == b'F'
      then record next { ptr = arg }
      else if kind == b'E'
      then record next { ptr = arg }
      else if kind == b'H'
      then record next {
        stash = (open_stash scratch arg st.pages).0;
        pages = (open_stash scratch arg st.pages).1;
      }
      else next

  -- What is done with a `$`.
  unfoldable pub begin_arg : Extraction M → Extraction M
  begin_arg st =
      begin_kind (places.flash (st.fmt + 1)) (seg_word st.pages.buf0.bytes (st.seg + 1))
        (record st { fmt = st.fmt + 2; seg = st.seg + 1 })

  -- The next character of an argument.
  unfoldable pub next_char : Extraction M → ℕ × Extraction M
  next_char st =
      let behind = record st { ptr = st.ptr + 1 } in
      let got = get scratch st.stash st.pages in
      if st.mode == b'D'
      then (st.tmp st.ptr, behind)
      else if st.mode == b'S'
      then (places.ram st.ptr, behind)
      else if st.mode == b'F'
      then (places.flash st.ptr, behind)
      else if st.mode == b'E'
      then (places.eeprom st.ptr, behind)
      else if st.mode == b'H'
      then (got.0, record st { stash = got.1; pages = got.2 })
      else (0, st)

  -- Behind the switch.
  unfoldable pub take_char : ℕ → ℕ → Extraction M → Extraction M
  take_char offset c st =
      if c == 0
      then record st { mode = b'@' }
      else if leb offset st.i
      then record st { buf = write st.buf st.out c; out = st.out + 1; i = st.i + 1 }
      else record st { i = st.i + 1 }

  -- One round, or the return.
  unfoldable pub extract_round : ℕ → Extraction M → Option (Extraction M)
  extract_round offset st =
      let c = places.flash st.fmt in
      if st.mode == b'@'
      then (if c == 0
          then none
          else if c == b'$'
          then some (begin_arg st)
          else some (take_char offset c (record st { fmt = st.fmt + 1 })))
      else some (take_char offset ((next_char st).0) ((next_char st).1))

  -- The loop, with the rounds left.
  unfoldable pub extract_loop : ℕ → ℕ → ℕ → Extraction M → Extraction M
  extract_loop zero offset end st = st
  extract_loop (suc left) offset end st =
      if ltb st.i end
      then (elim (extract_round offset st) [
        | some st' ↦ extract_loop left offset end st'
        | none ↦ st
      ])
      else st

  -- The bytes go to `dest` in `buf`; what `tmp` and `stash` hold before they are set is given.
  unfoldable pub extract : ℕ → ℕ → ℕ → ℕ → Memory → Memory → Stash → Pages M → Extraction M
  extract rounds offset count dest buf tmp stash p =
      let p' = load_write scratch 0 p in
      extract_loop rounds offset (u16 (offset + count)) (record {
        fmt = seg_word p'.buf0.bytes 1;
        seg = 1;
        mode = b'@';
        ptr = 0;
        tmp = tmp;
        stash = stash;
        i = 0;
        out = dest;
        buf = buf;
        pages = p';
      })

  -- The loop over the format, with the rounds left; `rounds` is for the pages of a stash.
  unfoldable pub cleanup_loop : ℕ → ℕ → ℕ → ℕ → Pages M → Pages M
  cleanup_loop zero rounds fmt seg p = p
  cleanup_loop (suc left) rounds fmt seg p =
      let c = places.flash fmt in
      let is_arg = c == b'$' in
      let opened = open_stash scratch (seg_word p.buf0.bytes (seg + 1)) p in
      let released = (release scratch rounds (opened.0) (opened.1)).1 in
      let rest =
        cleanup_loop left rounds (if is_arg then fmt + 2 else fmt + 1)
          (if is_arg then seg + 1 else seg)
          (if is_arg then (if places.flash (fmt + 1) == b'H' then released else p) else p) in
      if c == 0 then p else rest

  unfoldable pub cleanup : ℕ → Pages M → Pages M
  cleanup rounds p =
      let p' = load_write scratch 0 p in cleanup_loop rounds rounds (seg_word p'.buf0.bytes 1) 1 p'
