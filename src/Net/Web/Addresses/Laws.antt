-- ===== src/Net/Web/Addresses/Laws.antt =====
-- parseIp reads what makeNetStr wrote.
use ether_house.Base.{
  ℕ, zero, suc, ◌+◌, ◌<◌, ◌≤◌, ◌≡◌, refl, sym, ap, subst, ◌∙◌, false, ◌==◌, if◌then◌else◌, Option,
  none, List, [], ◌∷◌, ◌++◌, All, Memory, write, writes, u8, length, length-append, arith, Holds,
  Holds-append, Holds-ext, Holds-join, Ip, IsIp, ip_at, ip_at_held, octets,
}
use ether_house.Net.Filler.{put_string}
use ether_house.Net.Filler.Laws.{Emits, append-Emits, char-Emits, put_string-Emits}
use ether_house.Net.Filler.Digits.{IsDigit}
use ether_house.Net.Web.Addresses.{
  Parsing, parse_end, parse_loop, parse_ip, search_end, make_loop, make_net_str,
}
use ether_house.Net.Web.Addresses.Reading.{IsItoa, IsAtoi, dotted_bytes, parse_bytes}
use mathlib.Core.List.{append_assoc, append-nil}

search_end_lem :
    (left : ℕ) (t : List ℕ) (m : Memory) (j : ℕ)
    → Holds m j t
    → All IsDigit t
    → m (j + length t) ≡ 0
    → length t < left
    → j + length t < 256
    → search_end left m j ≡ j + length t
unfolding search_end
search_end_lem zero t m j h a z lt fits = absurd (omega arith)
search_end_lem (suc left) [] m j h a z lt fits =
    ap (λ x. if x == 0 then j else search_end left m (u8 (j + 1))) (ap m (omega arith) ∙ z)
    ∙ omega arith
search_end_lem (suc left) (x ∷ xs) m j (e, h) (a, a') z lt fits =
    let test : (m j == 0) ≡ false = ground (arith, e, a) in
    ap (λ b. if b then j else search_end left m (u8 (j + 1))) test
    ∙ ap (search_end left m) (omega (arith, fits))
    ∙ search_end_lem left xs m (j + 1) h a' (ap m (omega arith) ∙ z) (omega arith) (omega arith)
    ∙ omega arith

module _ (itoa : ℕ → ℕ → List ℕ) (is_itoa : IsItoa itoa) (left : ℕ) where
  -- The bytes with a dot behind each.
  abbrev with_dots : List ℕ → List ℕ
  with_dots [] = []
  with_dots (b ∷ rest) = (itoa b 10 ++ b'.' ∷ []) ++ with_dots rest

  make_step :
      (b j : ℕ) (rest : List ℕ) (result : Memory)
      → b < 256
      → 4 ≤ left
      → j + length (itoa b 10) + 1 < 256
      → make_loop itoa left b'.' 10 (b ∷ rest) j result
        ≡ make_loop itoa left b'.' 10 rest
            (j + length (itoa b 10) + 1)
            (write (put_string (itoa b 10) j result).0 (j + length (itoa b 10)) b'.')
  unfolding make_loop
  make_step b j rest result lt enough fits =
      let (digits, some_digit, few, value) = is_itoa b lt in
      let (e, h, front, behind) = put_string-Emits (itoa b 10) j result in
      ap
        (λ end.
          make_loop itoa left b'.' 10 rest (u8 (end + 1))
            (write (put_string (itoa b 10) j result).0 end b'.'))
        (search_end_lem left (itoa b 10) (put_string (itoa b 10) j result).0 j h digits
          (ground arith) (omega arith) (omega arith))
      ∙ ap
          (λ k.
            make_loop itoa left b'.' 10 rest k
              (write (put_string (itoa b 10) j result).0 (j + length (itoa b 10)) b'.'))
          (omega (arith, fits))

  make_loop-Emits :
      (bs : List ℕ) (j : ℕ) (result : Memory)
      → All (λ b. b < 256) bs
      → 4 ≤ left
      → j + length (with_dots bs) < 256
      → Emits result j (with_dots bs) (make_loop itoa left b'.' 10 bs j result)
  unfolding make_loop
  make_loop-Emits [] j result a enough fits = (omega arith, tt, λ i l. refl, λ i l. refl)
  make_loop-Emits (b ∷ rest) j result (lt, a) enough fits =
      let t = itoa b 10 in
      let m1 = (put_string t j result).0 in
      let m2 = write m1 (j + length t) b'.' in
      let first =
        append-Emits result j t (b'.' ∷ []) (m1, j + length t) (m2, j + length t + 1)
          (put_string-Emits t j result) (char-Emits b'.' (j + length t) m1) in
      let size = length-append (t ++ b'.' ∷ []) (with_dots rest) in
      let size' = length-append t (b'.' ∷ []) in
      subst (Emits result j (with_dots (b ∷ rest)))
        (sym (make_step b j rest result lt enough (omega (arith, fits, size, size'))))
        (append-Emits result j (t ++ b'.' ∷ []) (with_dots rest) (m2, j + length t + 1)
          (make_loop itoa left b'.' 10 rest (j + length t + 1) m2) first
          (make_loop-Emits rest (j + length t + 1) m2 a enough (omega (arith, fits, size, size'))))

  with_dots-dotted :
      (b : ℕ) (rest : List ℕ) → with_dots (b ∷ rest) ≡ dotted_bytes itoa (b ∷ rest) ++ b'.' ∷ []
  with_dots-dotted b [] = append-nil (itoa b 10 ++ b'.' ∷ [])
  with_dots-dotted b (c ∷ rest) =
      append_assoc (itoa b 10) (b'.' ∷ []) (with_dots (c ∷ rest))
      ∙ ap (λ l. itoa b 10 ++ (b'.' ∷ l)) (with_dots-dotted c rest)
      ∙ sym (append_assoc (itoa b 10) (b'.' ∷ dotted_bytes itoa (c ∷ rest)) (b'.' ∷ []))

  -- The text with its end.
  make_net_str-Holds :
      (b : ℕ) (rest : List ℕ) (result : Memory)
      → All (λ b. b < 256) (b ∷ rest)
      → 4 ≤ left
      → length (dotted_bytes itoa (b ∷ rest)) < 255
      → Holds
          (make_net_str itoa left b'.' 10 (b ∷ rest) result)
          0
          (dotted_bytes itoa (b ∷ rest) ++ 0 ∷ [])
  unfolding make_net_str
  make_net_str-Holds b rest result a enough fits =
      let t = dotted_bytes itoa (b ∷ rest) in
      let size : length (with_dots (b ∷ rest)) ≡ length t + 1 =
        ap length (with_dots-dotted b rest) ∙ length-append t (b'.' ∷ []) in
      let (e, h, front, behind) =
        make_loop-Emits (b ∷ rest) 0 result a enough (omega (arith, size, fits)) in
      let made = make_loop itoa left b'.' 10 (b ∷ rest) 0 result in
      let (text, dot) =
        Holds-append made.0 0 t (b'.' ∷ []) (subst (Holds made.0 0) (with_dots-dotted b rest) h) in
      subst (λ k. Holds (write made.0 k 0) 0 (t ++ 0 ∷ [])) (omega (arith, e, size, fits))
        (Holds-join (write made.0 (length t) 0) 0 t (0 ∷ [])
          (Holds-ext made.0 (write made.0 (length t) 0) 0 t (λ i l g. ground arith) text)
          (ground arith, tt))

-- The sizes of the four numbers.
length-dotted :
    (itoa : ℕ → ℕ → List ℕ) (a : Ip)
    → IsItoa itoa
    → IsIp a
    → length (dotted_bytes itoa (octets a)) ≤ 15
length-dotted itoa a h (h0, h1, h2, h3) =
    let t0 = itoa a.a0 10 in
    let t1 = itoa a.a1 10 in
    let t2 = itoa a.a2 10 in
    let t3 = itoa a.a3 10 in
    omega (
      arith,
      (h a.a0 h0).2,
      (h a.a1 h1).2,
      (h a.a2 h2).2,
      (h a.a3 h3).2,
      length-append t0 (b'.' ∷ (t1 ++ (b'.' ∷ (t2 ++ (b'.' ∷ t3))))),
      length-append t1 (b'.' ∷ (t2 ++ (b'.' ∷ t3))),
      length-append t2 (b'.' ∷ t3),
    )

-- parseIp, on what makeNetStr wrote of the four bytes of an address in decimal digits with dots,
-- returns 0 and gives back the address; where itoa writes a byte in one to three decimal digits
-- and atoi reads such a row with its end, which 15 passes suffice for.
pub parse_ip-make_net_str :
    (atoi : Memory → Option ℕ → ℕ) (itoa : ℕ → ℕ → List ℕ) (a : Ip) (passes left : ℕ)
    (bytestr result : Memory)
    → IsAtoi atoi
    → IsItoa itoa
    → IsIp a
    → 15 ≤ passes
    → 4 ≤ left
    → let (code, bytes, text) =
        parse_ip atoi passes bytestr 0 (make_net_str itoa left b'.' 10 (octets a) result) in
      (code ≡ 0) × (ip_at bytes 0 ≡ a)
unfolding parse_ip
parse_ip-make_net_str atoi itoa a passes left bytestr result is_atoi is_itoa (h0, h1, h2, h3) enough
      enough' =
    let size = length-dotted itoa a is_itoa (h0, h1, h2, h3) in
    let (code, h, front) =
      parse_bytes atoi itoa is_atoi is_itoa (octets a) passes started refl refl (omega arith)
        (make_net_str-Holds itoa is_itoa left a.a0 (a.a1 ∷ a.a2 ∷ a.a3 ∷ []) result all enough'
          (omega (arith, size)))
        all (omega (arith, size, enough)) in
    (code, ip_at_held (parse_end atoi (parse_loop atoi passes started)).1 0 a [] h)
  where
    all : All (λ b. b < 256) (octets a)
    all = (h0, (h1, (h2, (h3, tt))))

    started : Parsing
    started = record {
      sptr = none;
      i = 0;
      bytes = writes bytestr ((0, 0) ∷ (1, 0) ∷ (2, 0) ∷ (3, 0) ∷ []);
      text = make_net_str itoa left b'.' 10 (octets a) result;
      str = 0;
    }
