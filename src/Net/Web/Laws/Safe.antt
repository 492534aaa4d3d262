-- ===== src/Net/Web/Laws/Safe.antt =====
-- urlEncode writes characters of URLs only.
use ether_house.Base.{
  ℕ, ◌*◌, ◌/◌, ◌%◌, ◌^◌, ◌<◌, ◌≤◌, ◌≡◌, arith, Bool, true, false, ◌||◌, ◌==◌, List, [], ◌∷◌, ◌++◌,
  All, Memory, length, length-append, refl,
}
use ether_house.Net.Web.{is_alnum, small_hex, url_encode}
use ether_house.Net.Web.Laws.{escape_as, escape, escape_all, IsChar, Decodes, url_encode-escape}

abbrev pub IsUrlChar : ℕ → Type 0
IsUrlChar c = (c == b'+' || c == b'%' || is_alnum c) ≡ true

All-append : (xs ys : List ℕ) → All IsUrlChar xs → All IsUrlChar ys → All IsUrlChar (xs ++ ys)
All-append [] ys a b = b
All-append (x ∷ xs) ys (a, a') b = (a, All-append xs ys a' b)

small_hex-IsUrlChar : (d : ℕ) → d < 16 → IsUrlChar (small_hex d)
small_hex-IsUrlChar d lt = ground (arith, lt)

escape-IsUrlChar : (c : ℕ) → IsChar c → All IsUrlChar (escape c) × (length (escape c) ≤ 3)
escape-IsUrlChar c (ge, lt) = by_tests (c == b' ') (is_alnum c) refl
  where
    by_tests :
        (s a : Bool)
        → is_alnum c ≡ a
        → All IsUrlChar (escape_as c s a) × (length (escape_as c s a) ≤ 3)
    by_tests true a e = ((refl, tt), omega arith)
    by_tests false true e = ((ground (arith, e), tt), omega arith)
    by_tests false false e = (
      (
        refl,
        (
          small_hex-IsUrlChar (c / 2 ^ 4) (omega arith),
          (small_hex-IsUrlChar (c % 2 ^ 4) (omega arith), tt),
        ),
      ),
      omega arith,
    )

escape_all-IsUrlChar :
    (str : List ℕ)
    → All IsChar str
    → All IsUrlChar (escape_all str) × (length (escape_all str) ≤ 3 * length str)
escape_all-IsUrlChar [] v = (tt, omega arith)
escape_all-IsUrlChar (c ∷ str) (v, vs) =
    let (a, l) = escape-IsUrlChar c v in
    let (a', l') = escape_all-IsUrlChar str vs in
    (
      All-append (escape c) (escape_all str) a a',
      omega (arith, l, l', length-append (escape c) (escape_all str)),
    )

-- What urlEncode writes consists of letters, digits, plus and percent signs only, is at most
-- three times as long as the text, and stands where it is to, with its end; for a text of bytes
-- without a zero.
pub url_encode-IsUrlChar :
    (str : List ℕ) (p : ℕ) (m : Memory)
    → All IsChar str
    → (code : List ℕ) × All IsUrlChar code
      × (length code ≤ 3 * length str)
      × Decodes m p code (url_encode str p m)
url_encode-IsUrlChar str p m v =
    let (a, l) = escape_all-IsUrlChar str v in (escape_all str, a, l, url_encode-escape str p m v)
