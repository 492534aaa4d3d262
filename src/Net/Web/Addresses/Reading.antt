-- ===== src/Net/Web/Addresses/Reading.antt =====
-- parseIp reads four numbers with dots between them.
use ether_house.Base.{
  ℕ, ◌+◌, ◌<◌, ◌≤◌, ◌≡◌, refl, sym, ap, subst, ◌∙◌, bit_and, true, ◌==◌, if◌then◌else◌, Option,
  none, some, List, [], ◌∷◌, ◌++◌, All, Memory, write, length, length-append, arith, Holds,
  Holds-append, Holds-ext, Holds-join,
}
use mathlib.Core.List.{append_assoc}
use ether_house.Base.Bits.{bit_and_mask}
use ether_house.Net.Filler.Digits.{decimal, IsDigit}
use ether_house.Net.Web.Addresses.Passes.{next_part, stopped, number_then, dot_then}
use ether_house.Net.Web.Addresses.{Parsing, parse_loop, parse_end}

-- What the C library documents of the two: itoa writes the decimal digits of a byte, and atoi reads
-- a row of digits with its end.
abbrev pub IsDecimal : ℕ → List ℕ → Type 0
IsDecimal x t = All IsDigit t × (1 ≤ length t) × (length t ≤ 3) × (decimal 0 t ≡ x)

abbrev pub IsItoa : (ℕ → ℕ → List ℕ) → Type 0
IsItoa itoa = (x : ℕ) → x < 256 → IsDecimal x (itoa x 10)

abbrev pub IsAtoi : (Memory → Option ℕ → ℕ) → Type 0
IsAtoi atoi =
    (m : Memory) (p : ℕ) (t : List ℕ)
    → All IsDigit t
    → 1 ≤ length t
    → length t ≤ 3
    → Holds m p (t ++ 0 ∷ [])
    → atoi m (some p) ≡ decimal 0 t

module _ (itoa : ℕ → ℕ → List ℕ) where
  -- The bytes in decimal digits, with a dot behind each but the last.
  abbrev pub dotted_bytes : List ℕ → List ℕ
  dotted_bytes [] = []
  dotted_bytes (b ∷ []) = itoa b 10
  dotted_bytes (b ∷ c ∷ rest) = itoa b 10 ++ (b'.' ∷ dotted_bytes (c ∷ rest))

-- The result is 0, the bytes are read, and those in front are as they were.
abbrev pub Reads : ℕ → List ℕ → Memory → ℕ × Memory × Memory → Type 0
Reads i bs bytestr (code, bytes, text) =
    (code ≡ 0) × Holds bytes i bs × ((j : ℕ) → j < i → bytes j ≡ bytestr j)

module _ (atoi : Memory → Option ℕ → ℕ) (itoa : ℕ → ℕ → List ℕ) (is_atoi : IsAtoi atoi)
    (is_itoa : IsItoa itoa) where
  -- What is stored of a number whose end has just been written.
  number_value :
      (m : Memory) (s b : ℕ)
      → b < 256
      → Holds m s (itoa b 10)
      → bit_and (atoi (write m (s + length (itoa b 10)) 0) (some s)) 0xff ≡ b
  number_value m s b lt h =
      let (digits, some_digit, few, value) = is_itoa b lt in
      ap (λ x. bit_and x 0xff) (is_atoi ended s (itoa b 10) digits some_digit few stands ∙ value)
      ∙ bit_and_mask 8 b
      ∙ omega arith
    where
      ended : Memory
      ended = write m (s + length (itoa b 10)) 0

      stands : Holds ended s (itoa b 10 ++ 0 ∷ [])
      stands =
          Holds-join ended s (itoa b 10) (0 ∷ [])
            (Holds-ext m ended s (itoa b 10) (λ j l g. ground arith) h) (ground arith, tt)

  parse_end-last :
      (st : Parsing) (s b : ℕ)
      → st.i ≡ 3
      → b < 256
      → st.str ≡ s + length (itoa b 10)
      → Holds st.text s (itoa b 10)
      → parse_end atoi (record st { sptr = some s })
        ≡ (0, write st.bytes st.i b, write st.text st.str 0)
  unfolding parse_end
  parse_end-last st s b e lt p h =
      ap
        (λ t.
          if t
          then (
            0,
            write st.bytes st.i (bit_and (atoi (write st.text st.str 0) (some s)) 0xff),
            write st.text st.str 0,
          )
          else (1, st.bytes, write st.text st.str 0))
        test
      ∙ ap (λ x. (0, write st.bytes st.i x, write st.text st.str 0))
          (ap (λ q. bit_and (atoi (write st.text q 0) (some s)) 0xff) p
            ∙ number_value st.text s b lt h)
    where
      test : (st.i == 3) ≡ true
      test = ground (arith, e)

  after_dot :
      (st : Parsing) (b : ℕ) (bs : List ℕ) (r : ℕ × Memory × Memory)
      → b < 256
      → Holds st.text st.str (itoa b 10)
      → Reads
          (st.i + 1)
          bs
          (next_part atoi st.str (record st { str = st.str + length (itoa b 10) })).bytes
          r
      → Reads st.i (b ∷ bs) st.bytes r
  after_dot st b bs (code, bytes, ended) lt text (ok, h, front) = (
    ok,
    (front st.i (omega arith) ∙ own ∙ number_value st.text st.str b lt text, h),
    λ j l. front j (omega arith) ∙ other j l,
  )
    where
      stored : ℕ
      stored = bit_and (atoi (write st.text (st.str + length (itoa b 10)) 0) (some st.str)) 0xff

      own : write st.bytes st.i stored st.i ≡ stored
      own = ground arith

      other : (j : ℕ) → j < st.i → write st.bytes st.i stored j ≡ st.bytes j
      other j l = ground (arith, l)

  pub parse_bytes :
      (bs : List ℕ) (left : ℕ) (st : Parsing)
      → st.sptr ≡ none
      → st.i + length bs ≡ 4
      → 1 ≤ length bs
      → Holds st.text st.str (dotted_bytes itoa bs ++ 0 ∷ [])
      → All (λ b. b < 256) bs
      → length (dotted_bytes itoa bs) ≤ left
      → Reads st.i bs st.bytes (parse_end atoi (parse_loop atoi left st))
  parse_bytes [] left st n four pos h a le = absurd (omega arith)
  parse_bytes (b ∷ []) left st n four pos h (lt, a) le =
      let (digits, some_digit, few, value) = is_itoa b lt in
      let (text, (end, tail)) = Holds-append st.text st.str (itoa b 10) (0 ∷ []) h in
      number_then atoi (λ st'. Reads st.i (b ∷ []) st.bytes (parse_end atoi st')) (itoa b 10) left 0
        st n (omega (arith, four)) text digits some_digit (omega (arith, le))
        (λ left' enough.
          subst (λ r. Reads st.i (b ∷ []) st.bytes r)
            (sym (
              ap (parse_end atoi) (
                stopped atoi left'
                  (record st { str = st.str + length (itoa b 10); sptr = some st.str }) end)
              ∙ parse_end-last (record st { str = st.str + length (itoa b 10) }) st.str b
                  (omega (arith, four)) lt refl text))
            (refl, (ground arith, tt), λ j l. ground arith))
  parse_bytes (b ∷ c ∷ rest) left st n four pos h (lt, a) le =
      let (digits, some_digit, few, value) = is_itoa b lt in
      let whole =
        subst (Holds st.text st.str)
          (append_assoc (itoa b 10) (b'.' ∷ dotted_bytes itoa (c ∷ rest)) (0 ∷ [])) h in
      let (text, (dot, more)) =
        Holds-append st.text st.str (itoa b 10) (b'.' ∷ (dotted_bytes itoa (c ∷ rest) ++ 0 ∷ []))
          whole in
      number_then atoi (λ st'. Reads st.i (b ∷ c ∷ rest) st.bytes (parse_end atoi st')) (itoa b 10)
        left (1 + length (dotted_bytes itoa (c ∷ rest))) st n (omega (arith, four)) text digits
        some_digit
        (omega (arith, le, length-append (itoa b 10) (b'.' ∷ dotted_bytes itoa (c ∷ rest))))
        (λ left' enough.
          dot_then atoi (λ st'. Reads st.i (b ∷ c ∷ rest) st.bytes (parse_end atoi st')) left'
            (length (dotted_bytes itoa (c ∷ rest))) st.str
            (record st { str = st.str + length (itoa b 10) }) dot (omega (arith, four)) enough
            (λ left'' enough'.
              after_dot st b (c ∷ rest)
                (parse_end atoi (
                  parse_loop atoi left''
                    (next_part atoi st.str (record st { str = st.str + length (itoa b 10) }))))
                lt text
                (parse_bytes (c ∷ rest) left''
                  (next_part atoi st.str (record st { str = st.str + length (itoa b 10) })) refl
                  (omega (arith, four)) (omega arith)
                  (Holds-ext st.text (write st.text (st.str + length (itoa b 10)) 0)
                    (st.str + length (itoa b 10) + 1) (dotted_bytes itoa (c ∷ rest) ++ 0 ∷ [])
                    (λ j l g. ground arith) more)
                  a enough')))
