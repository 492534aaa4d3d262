-- ===== src/Net/Web/Laws.antt =====
-- urlDecode undoes urlEncode, in place.
pub mod Values
pub mod Safe
use ether_house.Base.{
  ℕ, zero, suc, ◌+◌, ◌*◌, ◌/◌, ◌%◌, ◌^◌, ◌<◌, ◌≤◌, ◌≡◌, ◌≢◌, refl, sym, ap, subst, ◌∙◌, bit_and,
  bit_or, Bool, true, false, ◌||◌, ◌==◌, if◌then◌else◌, List, [], ◌∷◌, ◌++◌, All, Memory, write, u8,
  length, length-append, arith, Holds, Holds-append, Holds-ext, Holds-join,
}
use ether_house.Base.Bits.{bit_and_mask, bit_or_low_field}
use ether_house.Net.Web.{h2int, decoded, url_decode, small_hex, int2h, is_alnum, url_encode}

-- The code of a character, and of a text.
abbrev pub escape_as : ℕ → Bool → Bool → List ℕ
escape_as c is_space alnum =
    if is_space
    then b'+' ∷ []
    else if alnum
    then c ∷ []
    else b'%' ∷ small_hex (c / 2 ^ 4) ∷ small_hex (c % 2 ^ 4) ∷ []

abbrev pub escape : ℕ → List ℕ
escape c = escape_as c (c == b' ') (is_alnum c)

abbrev pub escape_all : List ℕ → List ℕ
escape_all [] = []
escape_all (c ∷ str) = escape c ++ escape_all str

abbrev pub IsChar : ℕ → Type 0
IsChar c = (1 ≤ c) × (c < 256)

h2int-small_hex : (d : ℕ) → d < 16 → h2int (small_hex d) ≡ d
unfolding h2int
h2int-small_hex d lt = ground (arith, lt)

high : (c : ℕ) → c < 256 → bit_and (c / 2 ^ 4) 0xf ≡ c / 2 ^ 4
high c lt = omega (arith, bit_and_mask 4 (c / 2 ^ 4))

low : (c : ℕ) → bit_and c 0xf ≡ c % 2 ^ 4
low c = bit_and_mask 4 c

digits : (c : ℕ) → c < 256 → u8 (bit_or (c / 2 ^ 4 * 2 ^ 4) (c % 2 ^ 4)) ≡ c
digits c lt = omega (arith, lt, bit_or_low_field 4 (c / 2 ^ 4) (c % 2 ^ 4) (omega arith))

decoded-digits :
    (c src : ℕ) (m : Memory)
    → c < 256
    → m src ≡ b'%'
    → m (src + 1) ≡ small_hex (c / 2 ^ 4)
    → m (src + 2) ≡ small_hex (c % 2 ^ 4)
    → decoded m src ≡ (c, 3)
unfolding decoded
decoded-digits c src m lt e e1 e2 =
    ap (λ x. read x (h2int (m (src + 1))) (h2int (m (src + 2)))) e
    ∙ ap (λ x. (u8 (bit_or (x * 2 ^ 4) (h2int (m (src + 2)))), 3))
        (ap h2int e1 ∙ h2int-small_hex (c / 2 ^ 4) (omega arith))
    ∙ ap (λ x. (u8 (bit_or (c / 2 ^ 4 * 2 ^ 4) x), 3))
        (ap h2int e2 ∙ h2int-small_hex (c % 2 ^ 4) (omega arith))
    ∙ ap (λ x. (x, 3)) (digits c lt)
  where
    read : ℕ → ℕ → ℕ → ℕ × ℕ
    read x h l =
        if x == b'+'
        then (b' ', 1)
        else if x == b'%'
        then (u8 (bit_or (h * 2 ^ 4) l), 3)
        else (x, 1)

-- What urlDecode reads of a character's code.
decoded-escape :
    (c src : ℕ) (m : Memory)
    → IsChar c
    → Holds m src (escape c)
    → (decoded m src ≡ (c, length (escape c))) × (m src ≢ 0)
unfolding decoded
decoded-escape c src m (ge, lt) h = by_tests (c == b' ') (is_alnum c) refl refl h
  where
    by_tests :
        (s a : Bool)
        → (c == b' ') ≡ s
        → is_alnum c ≡ a
        → Holds m src (escape_as c s a)
        → (decoded m src ≡ (c, length (escape_as c s a))) × (m src ≢ 0)
    by_tests true a e e' (h0, h1) = (ground (arith, h0, e), omega (arith, h0))
    by_tests false true e e' (h0, h1) = (ground (arith, h0, e'), omega (arith, h0, ge))
    by_tests false false e e' (h0, (h1, (h2, h3))) =
        (decoded-digits c src m lt h0 h1 (ground (arith, h2)), omega (arith, h0))

length-escape : (c : ℕ) → 1 ≤ length (escape c)
length-escape c = by_tests (c == b' ') (is_alnum c)
  where
    by_tests : (s a : Bool) → 1 ≤ length (escape_as c s a)
    by_tests true a = omega arith
    by_tests false true = omega arith
    by_tests false false = omega arith

url_decode-end :
    (left src dst : ℕ) (m : Memory) → m src ≡ 0 → url_decode (suc left) src dst m ≡ write m dst 0
unfolding url_decode
url_decode-end left src dst m e =
    ap
      (λ x.
        if x == 0
        then write m dst 0
        else url_decode left (src + (decoded m src).1) (dst + 1) (write m dst (decoded m src).0))
      e

url_decode-pass :
    (left src dst c n : ℕ) (m : Memory)
    → decoded m src ≡ (c, n)
    → m src ≢ 0
    → url_decode (suc left) src dst m ≡ url_decode left (src + n) (dst + 1) (write m dst c)
unfolding url_decode
url_decode-pass left src dst c n m e h =
    let t : (m src == 0) ≡ false = ground (arith, h) in
    ap
      (λ b.
        if b
        then write m dst 0
        else url_decode left (src + (decoded m src).1) (dst + 1) (write m dst (decoded m src).0))
      t
    ∙ ap (λ (d : ℕ × ℕ). url_decode left (src + d.1) (dst + 1) (write m dst d.0)) e

-- The text stands at `dst`, with its end, and nothing in front of it has changed.
abbrev pub Decodes : Memory → ℕ → List ℕ → Memory → Type 0
Decodes m dst str m' = Holds m' dst (str ++ 0 ∷ []) × ((j : ℕ) → j < dst → m' j ≡ m j)

-- The loop of urlDecode, where it writes no further than it reads.
url_decode-escape :
    (str : List ℕ) (left src dst : ℕ) (m : Memory)
    → All IsChar str
    → Holds m src (escape_all str ++ 0 ∷ [])
    → dst ≤ src
    → length str < left
    → Decodes m dst str (url_decode left src dst m)
url_decode-escape str zero src dst m v h le enough = absurd (omega arith)
url_decode-escape [] (suc left) src dst m v (e, h) le enough =
    subst (Decodes m dst []) (sym (url_decode-end left src dst m e))
      ((ground arith, tt), λ j l. ground arith)
url_decode-escape (c ∷ str) (suc left) src dst m (v, vs) h le enough =
    let (codes, end) = Holds-append m src (escape c ++ escape_all str) (0 ∷ []) h in
    let (here, there) = Holds-append m src (escape c) (escape_all str) codes in
    let (read, not_end) = decoded-escape c src m v here in
    let n = length (escape c) in
    let rest = escape_all str ++ 0 ∷ [] in
    let behind : Holds m (src + n) rest = Holds-join m (src + n) (escape_all str) (0 ∷ []) there (
      subst (λ j. Holds m j (0 ∷ [])) (omega (arith, length-append (escape c) (escape_all str)))
        end) in
    let kept : Holds (write m dst c) (src + n) rest =
      Holds-ext m (write m dst c) (src + n) rest (λ j l g. ground (arith, l, le, length-escape c))
        behind in
    let (text, front) =
      url_decode-escape str left (src + n) (dst + 1) (write m dst c) vs kept
        (omega (arith, le, length-escape c)) (omega (arith, enough)) in
    subst (Decodes m dst (c ∷ str)) (sym (url_decode-pass left src dst c n m read not_end)) (
      (front dst (omega arith) ∙ ground arith, text),
      λ j l. front j (omega (arith, l)) ∙ ground (arith, l),
    )

-- A code behind which the rest is written.
placed :
    (m m1 m2 : Memory) (p : ℕ) (code rest : List ℕ)
    → Holds m1 p code
    → ((j : ℕ) → j < p → m1 j ≡ m j)
    → Decodes m1 (p + length code) rest m2
    → Decodes m p (code ++ rest) m2
placed m m1 m2 p code rest h front (h', front') =
    let (text, end) = Holds-append m2 (p + length code) rest (0 ∷ []) h' in
    (
      Holds-join m2 p (code ++ rest) (0 ∷ [])
          (Holds-join m2 p code rest (Holds-ext m1 m2 p code (λ j l g. sym (front' j g)) h) text)
          (subst (λ j. Holds m2 j (0 ∷ [])) (omega (arith, length-append code rest)) end),
      λ j l. front' j (omega (arith, l)) ∙ front j l,
    )

-- urlEncode writes the text's code with its end at `p`, and nothing in front of it.
pub url_encode-escape :
    (str : List ℕ) (p : ℕ) (m : Memory)
    → All IsChar str
    → Decodes m p (escape_all str) (url_encode str p m)
unfolding url_encode int2h
url_encode-escape [] p m v = ((ground arith, tt), λ j l. ground arith)
url_encode-escape (c ∷ str) p m (v, vs) =
    by_tests (c == b' ') (is_alnum c) (λ q m'. url_encode-escape str q m' vs)
  where
    one : ℕ → Memory
    one x = write m p x

    three : Memory
    three = int2h c (p + 1) (write m p b'%')

    by_tests :
        (s a : Bool)
        → ((q : ℕ) (m' : Memory) → Decodes m' q (escape_all str) (url_encode str q m'))
        → Decodes m p (escape_as c s a ++ escape_all str) (
            if s || a
            then url_encode str (p + 1) (one (if s then b'+' else c))
            else url_encode str (p + 3) three)
    by_tests true a rest =
        placed m (one b'+') (url_encode str (p + 1) (one b'+')) p (b'+' ∷ []) (escape_all str)
          (ground arith, tt) (λ j l. ground arith) (rest (p + 1) (one b'+'))
    by_tests false true rest =
        placed m (one c) (url_encode str (p + 1) (one c)) p (c ∷ []) (escape_all str)
          (ground arith, tt) (λ j l. ground arith) (rest (p + 1) (one c))
    by_tests false false rest =
        placed m three (url_encode str (p + 3) three) p
          (b'%' ∷ small_hex (c / 2 ^ 4) ∷ small_hex (c % 2 ^ 4) ∷ []) (escape_all str)
          (ground arith, (ground (arith, high c v.1), (ground (arith, low c), tt)))
          (λ j l. ground arith) (rest (p + 3) three)

-- urlDecode, on what urlEncode wrote, gives back the text, with its end, in the place of its code, for
-- a text of bytes without a zero.
pub url_decode-encode :
    (str : List ℕ) (p : ℕ) (m : Memory)
    → All IsChar str
    → Decodes m p str (url_decode (suc (length str)) p p (url_encode str p m))
url_decode-encode str p m v =
    let (code, front) = url_encode-escape str p m v in
    let (text, front') =
      url_decode-escape str (suc (length str)) p p (url_encode str p m) v code (omega arith)
        (omega arith) in
    (text, λ j l. front' j l ∙ front j l)
