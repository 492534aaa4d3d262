-- ===== src/Tests/Web.antt =====
-- Addresses and codes of URLs, with a concrete atoi and itoa.
use ether_house.Base.{
  ℕ, zero, suc, ◌+◌, ◌-◌, ◌*◌, ◌/◌, ◌%◌, ◌<◌, ◌≤◌, ◌≡◌, ap, ◌∙◌, arith, true, false, ltb,
  if◌then◌else◌, Option, none, some, List, [], ◌∷◌, ◌++◌, All, Memory, length, length-append, Holds,
  Ip, ip_at, octets,
}
use ether_house.Net.Filler.{wtoa}
use ether_house.Net.Filler.Digits.{decimal, IsDigit, decimal-wtoa, wtoa-All, length-wtoa}
use ether_house.Net.Web.{url_encode}
use ether_house.Net.Web.Laws.{Decodes}
use ether_house.Net.Web.Laws.Safe.{IsUrlChar, url_encode-IsUrlChar}
use ether_house.Net.Web.Addresses.{is_digit, parse_ip, make_net_str}
use ether_house.Net.Web.Addresses.Reading.{IsItoa, IsAtoi}
use ether_house.Net.Web.Addresses.Laws.{parse_ip-make_net_str}
use ether_house.Tests.Sketch.{zeros}

-- Up to four digits.
abbrev digits_at : ℕ → ℕ → Memory → ℕ → ℕ
digits_at zero front m p = front
digits_at (suc left) front m p =
    let rest = digits_at left (front * 10 + (m p - b'0')) m (p + 1) in
    if is_digit (m p) then rest else front

abbrev short_atoi : Memory → Option ℕ → ℕ
short_atoi m none = 0
short_atoi m (some p) = digits_at 4 0 m p

abbrev short_itoa : ℕ → ℕ → List ℕ
short_itoa x base = wtoa 3 x

digits_at-decimal :
    (left front : ℕ) (t : List ℕ) (m : Memory) (p : ℕ)
    → All IsDigit t
    → Holds m p (t ++ 0 ∷ [])
    → length t < left
    → digits_at left front m p ≡ decimal front t
digits_at-decimal zero front t m p a h lt = absurd (omega arith)
digits_at-decimal (suc left) front [] m p a (e, h) lt =
    let test : is_digit (m p) ≡ false = ground (arith, e) in
    ap (λ b. if b then digits_at left (front * 10 + (m p - b'0')) m (p + 1) else front) test
digits_at-decimal (suc left) front (x ∷ xs) m p (a, a') (e, h) lt =
    let test : is_digit (m p) ≡ true = ground (arith, e, a) in
    ap (λ b. if b then digits_at left (front * 10 + (m p - b'0')) m (p + 1) else front) test
    ∙ ap (λ c. digits_at left (front * 10 + (c - b'0')) m (p + 1)) e
    ∙ digits_at-decimal left (front * 10 + (x - b'0')) xs m (p + 1) a' h (omega arith)

short_atoi-IsAtoi : IsAtoi short_atoi
short_atoi-IsAtoi m p t a some_digit few h = digits_at-decimal 4 0 t m p a h (omega arith)

short_itoa-IsItoa : IsItoa short_itoa
unfolding wtoa
short_itoa-IsItoa x lt = (
  wtoa-All 3 x,
  omega (arith, length-append (if ltb 9 x then wtoa 2 (x / 10) else []) ((b'0' + x % 10) ∷ [])),
  length-wtoa 3 x,
  decimal-wtoa 3 x (omega arith),
)

abbrev private_ip : Ip
private_ip = record { a0 = 192; a1 = 168; a2 = 0; a3 = 7 }

parse_ip-make_net_str_example :
    let (code, bytes, text) =
      parse_ip short_atoi 15 zeros 0
        (make_net_str short_itoa 4 b'.' 10 (octets private_ip) zeros) in
    (code ≡ 0) × (ip_at bytes 0 ≡ private_ip)
parse_ip-make_net_str_example =
    parse_ip-make_net_str short_atoi short_itoa private_ip 15 4 zeros zeros short_atoi-IsAtoi
      short_itoa-IsItoa (omega arith, omega arith, omega arith, omega arith) (omega arith)
      (omega arith)

url_encode-IsUrlChar_example :
    (code : List ℕ) × All IsUrlChar code
    × (length code ≤ 3 * 3)
    × Decodes zeros 20 code (url_encode (b'a' ∷ b' ' ∷ b'&' ∷ []) 20 zeros)
url_encode-IsUrlChar_example = url_encode-IsUrlChar (b'a' ∷ b' ' ∷ b'&' ∷ []) 20 zeros (omega arith)
