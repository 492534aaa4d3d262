-- ===== src/Net/Web/Addresses/Passes.antt =====
-- The passes of parseIp over a number and over a dot.
use ether_house.Base.{
  ℕ, zero, suc, ◌+◌, ◌<◌, ◌≤◌, ◌≡◌, ◌≢◌, refl, sym, ap, subst, ◌∙◌, bit_and, true, false, not, ◌||◌,
  ◌==◌, ltb, if◌then◌else◌, Option, none, some, List, [], ◌∷◌, All, Memory, write, length, arith,
  Holds,
}
use ether_house.Net.Filler.Digits.{IsDigit}
use ether_house.Net.Web.Addresses.{Parsing, is_digit, start_at, parse_pass, parse_loop}

module _ (atoi : Memory → Option ℕ → ℕ) where
  going :
      (left : ℕ) (st : Parsing)
      → st.text st.str ≢ 0
      → st.i < 4
      → parse_loop atoi (suc left) st ≡ parse_loop atoi left (parse_pass atoi st)
  unfolding parse_loop
  going left st z lt = ap (λ t. if t then st else parse_loop atoi left (parse_pass atoi st)) test
    where
      test : (st.text st.str == 0 || not (ltb st.i 4)) ≡ false
      test = ground (arith, z, lt)

  pub stopped : (left : ℕ) (st : Parsing) → st.text st.str ≡ 0 → parse_loop atoi left st ≡ st
  unfolding parse_loop
  stopped zero st z = refl
  stopped (suc left) st z =
      ap (λ t. if t then st else parse_loop atoi left (parse_pass atoi st)) test
    where
      test : (st.text st.str == 0 || not (ltb st.i 4)) ≡ true
      test = ground (arith, z)

  digit_pass :
      (st : Parsing) (s : Option ℕ)
      → IsDigit (st.text st.str)
      → start_at st.sptr (st.text st.str) st.str ≡ s
      → parse_pass atoi st ≡ record st { sptr = s; str = st.str + 1 }
  unfolding parse_pass
  digit_pass st s (ge, le) e =
      ap
        (λ t.
          if t
          then dotted
          else record st { sptr = start_at st.sptr (st.text st.str) st.str; str = st.str + 1 })
        test
      ∙ ap (λ s'. record st { sptr = s'; str = st.str + 1 }) e
    where
      test : (st.text st.str == b'.') ≡ false
      test = ground (arith, ge)

      ended : Memory
      ended = write st.text st.str 0

      dotted : Parsing
      dotted = record st {
        bytes =
            write st.bytes st.i
              (bit_and (atoi ended (start_at st.sptr (st.text st.str) st.str)) 0xff);
        i = st.i + 1;
        sptr = none;
        text = ended;
        str = st.str + 1;
      }

  -- What a dot leaves, of a text that starts at `s`.
  abbrev pub next_part : ℕ → Parsing → Parsing
  next_part s st = record st {
    bytes = write st.bytes st.i (bit_and (atoi (write st.text st.str 0) (some s)) 0xff);
    i = st.i + 1;
    sptr = none;
    text = write st.text st.str 0;
    str = st.str + 1;
  }

  dot_pass :
      (st : Parsing) (s : ℕ)
      → st.text st.str ≡ b'.'
      → parse_pass atoi (record st { sptr = some s }) ≡ next_part s st
  unfolding parse_pass
  dot_pass st s d =
      ap (λ t. if t then next_part s st else record st { sptr = some s; str = st.str + 1 }) test
    where
      test : (st.text st.str == b'.') ≡ true
      test = ground (arith, d)

  -- A run over digits, of a text that starts at `s`.
  digits_then :
      (P : Parsing → Type 0) (t : List ℕ) (left need s : ℕ) (st : Parsing)
      → st.i < 4
      → Holds st.text st.str t
      → All IsDigit t
      → length t + need ≤ left
      → ((left' : ℕ)
          → need ≤ left'
          → P (parse_loop atoi left' (record st { str = st.str + length t; sptr = some s })))
      → P (parse_loop atoi left (record st { sptr = some s }))
  digits_then P [] left need s st lt h a le more =
      subst (λ p. P (parse_loop atoi left (record st { str = p; sptr = some s }))) (omega arith)
        (more left (omega arith))
  digits_then P (x ∷ xs) zero need s st lt h a le more = absurd (omega arith)
  digits_then P (x ∷ xs) (suc left) need s st lt (e, h) (a, a') le more =
      subst P
        (sym (
          going left (record st { sptr = some s }) (omega (arith, e, a)) lt
          ∙ ap (parse_loop atoi left)
              (digit_pass (record st { sptr = some s }) (some s) (subst IsDigit (sym e) a) refl)))
        (digits_then P xs left need s (record st { str = st.str + 1 }) lt h a' (omega arith)
          (λ left' enough.
            subst (λ p. P (parse_loop atoi left' (record st { str = p; sptr = some s })))
              (omega arith) (more left' enough)))

  -- A number, from its first digit.
  pub number_then :
      (P : Parsing → Type 0) (t : List ℕ) (left need : ℕ) (st : Parsing)
      → st.sptr ≡ none
      → st.i < 4
      → Holds st.text st.str t
      → All IsDigit t
      → 1 ≤ length t
      → length t + need ≤ left
      → ((left' : ℕ)
          → need ≤ left'
          → P (parse_loop atoi left' (record st { str = st.str + length t; sptr = some st.str })))
      → P (parse_loop atoi left st)
  number_then P [] left need st n lt h a some_digit le more = absurd (omega arith)
  number_then P (x ∷ xs) zero need st n lt h a some_digit le more = absurd (omega arith)
  number_then P (x ∷ xs) (suc left) need st n lt (e, h) (a, a') some_digit le more =
      subst P
        (sym (
          going left st (omega (arith, e, a)) lt
          ∙ ap (parse_loop atoi left)
              (digit_pass st (some st.str) (subst IsDigit (sym e) a) first)))
        (digits_then P xs left need st.str (record st { str = st.str + 1 }) lt h a' (omega arith)
          (λ left' enough.
            subst (λ p. P (parse_loop atoi left' (record st { str = p; sptr = some st.str })))
              (omega arith) (more left' enough)))
    where
      digit : is_digit (st.text st.str) ≡ true
      digit = ground (arith, e, a)

      first : start_at st.sptr (st.text st.str) st.str ≡ some st.str
      first =
          ap (λ q. start_at q (st.text st.str) st.str) n
          ∙ ap (λ t. if t then some st.str else none) digit

  pub dot_then :
      (P : Parsing → Type 0) (left need s : ℕ) (st : Parsing)
      → st.text st.str ≡ b'.'
      → st.i < 4
      → 1 + need ≤ left
      → ((left' : ℕ) → need ≤ left' → P (parse_loop atoi left' (next_part s st)))
      → P (parse_loop atoi left (record st { sptr = some s }))
  dot_then P zero need s st d lt le more = absurd (omega arith)
  dot_then P (suc left) need s st d lt le more =
      subst P
        (sym (
          going left (record st { sptr = some s }) (omega (arith, d)) lt
          ∙ ap (parse_loop atoi left) (dot_pass st s d)))
        (more left (omega arith))
