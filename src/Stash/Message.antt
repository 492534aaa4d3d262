-- ===== src/Stash/Message.antt =====
-- Stash::prepare, length, extract and cleanup: a format and its arguments, kept in page 0 until the
-- message is written.
use ether_house.Base.{
  ℕ, ◌-◌, ◌^◌, zero, suc, ◌+◌, ◌*◌, ◌/◌, ◌==◌, if◌then◌else◌, List, [], ◌∷◌, length, Memory, write,
  u8, u16,
}
use ether_house.Net.Filler.{wtoa}
use ether_house.Stash.{Scratch, Pages}
use ether_house.Stash.Texts.{load_write, open_stash, size}

-- RAM, program memory and EEPROM, where the texts are; an argument is a number or an address.
pub record Places : Type 0 where
  pub ram : Memory
  pub flash : Memory
  pub eeprom : Memory

-- strlen, strlen_P and the loop over the EEPROM, with the rounds left.
unfoldable pub text_length : ℕ → Memory → ℕ → ℕ
text_length zero m p = 0
text_length (suc left) m p =
    let rest = text_length left m (p + 1) in if m p == 0 then 0 else rest + 1

-- bufs[0].words, low byte first.
abbrev pub seg_word : Memory → ℕ → ℕ
seg_word m i = m (2 * i) + m (2 * i + 1) * 2 ^ 8

abbrev pub put_word : ℕ → ℕ → Memory → Memory
put_word i w m = write (write m (2 * i) (u8 w)) (2 * i + 1) (u8 (w / 2 ^ 8))

abbrev pub head_of : List ℕ → ℕ
head_of [] = 0
head_of (x ∷ rest) = x

abbrev pub tail_of : List ℕ → List ℕ
tail_of [] = []
tail_of (x ∷ rest) = rest

module _ {ℓ} {M : Type ℓ} (scratch : Scratch M) (places : Places) where
  -- The length of an argument.
  unfoldable pub arg_length : ℕ → ℕ → ℕ → Pages M → ℕ × Pages M
  arg_length rounds kind arg p =
      if kind == b'D'
      then (length (wtoa 5 arg), p)
      else if kind == b'S'
      then (text_length rounds places.ram arg, p)
      else if kind == b'F'
      then (text_length rounds places.flash arg, p)
      else if kind == b'E'
      then (text_length rounds places.eeprom arg, p)
      else if kind == b'H'
      then (
        size scratch ((open_stash scratch arg p).0) ((open_stash scratch arg p).1),
        (open_stash scratch arg p).1,
      )
      else (0, p)

  abbrev pub on_words : (Memory → Memory) → Pages M → Pages M
  on_words f p = record p { buf0 = record { bytes = f p.buf0.bytes; bnum = p.buf0.bnum } }

  -- The argument is kept, and the total counts it in place of its two characters.
  unfoldable pub keep_arg : ℕ → ℕ → ℕ → ℕ → Pages M → Pages M
  keep_arg rounds kind arg seg p =
      let measured = arg_length rounds kind arg p in
      on_words (λ m. put_word 0 (u16 (seg_word m 0 + (measured.0 + (2 ^ 16 - 2)))) m)
        (on_words (put_word seg arg) (measured.1))

  -- The loop over the format, with the rounds left; `rounds` is for the texts.
  unfoldable pub prepare_loop : ℕ → ℕ → ℕ → ℕ → List ℕ → Pages M → Pages M
  prepare_loop zero rounds fmt seg args p = p
  prepare_loop (suc left) rounds fmt seg args p =
      let c = places.flash fmt in
      let is_arg = c == b'$' in
      let rest =
        prepare_loop left rounds (if is_arg then fmt + 2 else fmt + 1)
          (if is_arg then seg + 1 else seg) (if is_arg then tail_of args else args)
          (if is_arg then keep_arg rounds (places.flash (fmt + 1)) (head_of args) seg p else p) in
      if c == 0 then p else rest

  unfoldable pub prepare : ℕ → ℕ → List ℕ → Pages M → Pages M
  prepare rounds fmt args p = prepare_loop rounds rounds fmt 2 args (
      on_words (λ m. put_word 1 fmt (put_word 0 (text_length rounds places.flash fmt) m))
        (load_write scratch 0 p))

  unfoldable pub message_length : Pages M → ℕ × Pages M
  message_length p = (seg_word (load_write scratch 0 p).buf0.bytes 0, load_write scratch 0 p)
