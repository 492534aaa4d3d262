-- ===== src/Net/Web.antt =====
-- libraries/ethercard/webutil.cpp: the coding of texts in URLs. What uses the serial port is not
-- modelled.
pub mod Keys
pub mod Addresses
pub mod Laws
use ether_house.Base.{
  ℕ, zero, suc, ◌+◌, ◌-◌, ◌*◌, ◌/◌, ◌%◌, ◌^◌, bit_and, bit_or, Bool, true, false, ◌&&◌, ◌||◌, ◌==◌,
  ltb, leb, if◌then◌else◌, List, [], ◌∷◌, Memory, write, writes, u8,
}

unfoldable pub h2int : ℕ → ℕ
h2int c =
    if leb b'0' c && leb c b'9'
    then c - b'0'
    else if leb b'a' c && leb c b'f'
    then c - b'a' + 10
    else if leb b'A' c && leb c b'F'
    then c - b'A' + 10
    else 0

-- What a pass of urlDecode reads at `src`: a character, and how many bytes it takes.
unfoldable pub decoded : Memory → ℕ → ℕ × ℕ
decoded m src =
    let c = m src in
    if c == b'+'
    then (b' ', 1)
    else if c == b'%'
    then (u8 (bit_or (h2int (m (src + 1)) * 2 ^ 4) (h2int (m (src + 2)))), 3)
    else (c, 1)

-- The loop of urlDecode, which writes at `dst` in the same text, with the passes left.
unfoldable pub url_decode : ℕ → ℕ → ℕ → Memory → Memory
url_decode zero src dst m = m
url_decode (suc left) src dst m =
    let (c, n) = decoded m src in
    let rest = url_decode left (src + n) (dst + 1) (write m dst c) in
    if m src == 0 then write m dst 0 else rest

abbrev pub small_hex : ℕ → ℕ
small_hex d = if ltb 9 d then d - 10 + b'a' else d + b'0'

unfoldable pub int2h : ℕ → ℕ → Memory → Memory
int2h c p m = writes m (
    (p + 1, small_hex (bit_and c 0xf)) ∷ (p, small_hex (bit_and (c / 2 ^ 4) 0xf)) ∷ (p + 2, 0) ∷ [])

-- isalnum of the C library.
abbrev pub is_alnum : ℕ → Bool
is_alnum c = leb b'0' c && leb c b'9' || leb b'a' c && leb c b'z' || leb b'A' c && leb c b'Z'

unfoldable pub url_encode : List ℕ → ℕ → Memory → Memory
url_encode [] p m = write m p 0
url_encode (c ∷ str) p m =
    let plain = url_encode str (p + 1) (write m p (if c == b' ' then b'+' else c)) in
    let escaped = url_encode str (p + 3) (int2h c (p + 1) (write m p b'%')) in
    if c == b' ' || is_alnum c then plain else escaped
