-- ===== src/Net/Filler/Laws.antt =====
-- What emit_p writes, against the text that its format describes.
use ether_house.Base.{
  ℕ, ◌+◌, ◌/◌, ◌%◌, ◌^◌, ◌<◌, ◌≡◌, refl, sym, ◌∙◌, subst, bit_and, Bool, true, false, ◌==◌,
  if◌then◌else◌, List, [], ◌∷◌, ◌++◌, Memory, write, writes, store, length, length-append, bytes,
  Holds, Holds-join, Holds-ext, Holds-store, arith,
}
use Prim.Native.String.{String}
use ether_house.Net.{Url, no_url, url_target_mac, url_state, url_on, url_off}
use ether_house.Net.Filler.{
  wtoa, Arg, text, word_of, text_of, rest_of, hex_digit, put_string, put_bytes, emit_directive,
  emit_p, get_format, url_text, api_server, emit_request,
}

-- The text of a directive and the arguments behind it, and the text of a format.
abbrev pub expand_directive : ℕ → List Arg → List ℕ × List Arg
expand_directive c args =
    if c == b'D'
    then (wtoa 5 (word_of args), rest_of args)
    else if c == b'H'
    then (
      hex_digit (word_of args % 2 ^ 8 / 2 ^ 4) ∷ hex_digit (bit_and (word_of args) 0x0f) ∷ [],
      rest_of args,
    )
    else if c == b'L'
    then (text_of args, rest_of args)
    else if c == b'S'
    then (text_of args, rest_of args)
    else if c == b'F'
    then (text_of args, rest_of args)
    else if c == b'E'
    then (text_of args, rest_of args)
    else (c ∷ [], args)

unfoldable pub expand : List ℕ → List Arg → List ℕ
expand [] args = []
expand (c ∷ []) args = (if c == b'$' then 0 else c) ∷ []
expand (c ∷ d ∷ fmt) args =
    let directed = expand fmt (expand_directive d args).1 in
    let plain = expand (d ∷ fmt) args in
    if c == b'$' then (expand_directive d args).0 ++ directed else c ∷ plain

-- The text stands at `ptr`, and nothing in front of it and behind its end has changed.
abbrev pub Emits : Memory → ℕ → List ℕ → Memory × ℕ → Type 0
Emits m ptr xs (m', end) =
    (end ≡ ptr + length xs)
    × Holds m' ptr xs
    × ((j : ℕ) → j < ptr → m' j ≡ m j)
    × ((j : ℕ) → end < j → m' j ≡ m j)

pub append-Emits :
    (m : Memory) (ptr : ℕ) (xs ys : List ℕ) (r r' : Memory × ℕ)
    → Emits m ptr xs r
    → Emits r.0 r.1 ys r'
    → Emits m ptr (xs ++ ys) r'
append-Emits m ptr xs ys (m1, p1) (m2, p2) (e, h, front, behind) (e', h', front', behind') = (
  omega (arith, e, e', length-append xs ys),
  Holds-join m2 ptr xs ys (Holds-ext m1 m2 ptr xs (λ j l g. sym (front' j (omega (arith, e)))) h)
      (subst (λ i. Holds m2 i ys) e h'),
  λ j l. front' j (omega (arith, e)) ∙ front j l,
  λ j l. behind' j l ∙ behind j (omega (arith, e')),
)

pub char-Emits : (c ptr : ℕ) (m : Memory) → Emits m ptr (c ∷ []) (write m ptr c, ptr + 1)
char-Emits c ptr m = (refl, (ground arith, tt), λ j l. ground arith, λ j l. ground arith)

put_bytes-Emits : (t : List ℕ) (ptr : ℕ) (m : Memory) → Emits m ptr t (put_bytes t ptr m)
put_bytes-Emits t ptr m = (refl, Holds-store m ptr t, λ j l. ground arith, λ j l. ground arith)

pub put_string-Emits : (t : List ℕ) (ptr : ℕ) (m : Memory) → Emits m ptr t (put_string t ptr m)
put_string-Emits t ptr m = (
  refl,
  Holds-ext (store m ptr t (length t)) (put_string t ptr m).0 ptr t (λ j l g. ground arith)
      (Holds-store m ptr t),
  λ j l. ground arith,
  λ j l. ground arith,
)

-- A text and the arguments left, with what is written and the arguments that are left then.
abbrev Follows : Memory → ℕ → List ℕ × List Arg → (Memory × ℕ) × List Arg → Type 0
Follows m ptr x r = Emits m ptr x.0 r.0 × (r.1 ≡ x.1)

directive-Follows :
    (c : ℕ) (args : List Arg) (ptr : ℕ) (m : Memory)
    → Follows m ptr (expand_directive c args) (emit_directive c args ptr m)
unfolding emit_directive
directive-Follows c args ptr m =
    by_tests (c == b'D') (c == b'H') (c == b'L') (c == b'S') (c == b'F') (c == b'E')
  where
    high : ℕ
    high = hex_digit (word_of args % 2 ^ 8 / 2 ^ 4)

    low : ℕ
    low = hex_digit (bit_and (word_of args) 0x0f)

    string : List ℕ → (Memory × ℕ) × List Arg
    string t = (put_string t ptr m, rest_of args)

    copied : List ℕ → (Memory × ℕ) × List Arg
    copied t = (put_bytes t ptr m, rest_of args)

    argument : List ℕ × List Arg
    argument = (text_of args, rest_of args)

    hexadecimal : (Memory × ℕ) × List Arg
    hexadecimal = ((writes m ((ptr, high) ∷ (ptr + 1, low) ∷ []), ptr + 2), rest_of args)

    digits-Follows : Follows m ptr (high ∷ low ∷ [], rest_of args) hexadecimal
    digits-Follows = (
      (omega arith, (ground arith, (ground arith, tt)), λ j l. ground arith, λ j l. ground arith),
      refl,
    )

    by_tests :
        (d h l s f e : Bool)
        → Follows m ptr
            (if d
              then (wtoa 5 (word_of args), rest_of args)
              else if h
              then (high ∷ low ∷ [], rest_of args)
              else if l
              then argument
              else if s
              then argument
              else if f
              then argument
              else if e
              then argument
              else (c ∷ [], args))
            (if d
              then string (wtoa 5 (word_of args))
              else if h
              then hexadecimal
              else if l
              then string (text_of args)
              else if s
              then string (text_of args)
              else if f
              then copied (text_of args)
              else if e
              then copied (text_of args)
              else ((write m ptr c, ptr + 1), args))
    by_tests true h l s f e = (put_string-Emits (wtoa 5 (word_of args)) ptr m, refl)
    by_tests false true l s f e = digits-Follows
    by_tests false false true s f e = (put_string-Emits (text_of args) ptr m, refl)
    by_tests false false false true f e = (put_string-Emits (text_of args) ptr m, refl)
    by_tests false false false false true e = (put_bytes-Emits (text_of args) ptr m, refl)
    by_tests false false false false false true = (put_bytes-Emits (text_of args) ptr m, refl)
    by_tests false false false false false false = (char-Emits c ptr m, refl)

either-Emits :
    (m : Memory) (ptr : ℕ) (t : Bool) (xs ys : List ℕ) (r r' : Memory × ℕ)
    → Emits m ptr xs r
    → Emits m ptr ys r'
    → Emits m ptr (if t then xs else ys) (if t then r else r')
either-Emits m ptr true xs ys r r' h h' = h
either-Emits m ptr false xs ys r r' h h' = h'

-- emit_p writes the text of its format with its arguments, and a terminating zero at most behind it.
pub emit_p-expand :
    (fmt : List ℕ) (args : List Arg) (ptr : ℕ) (m : Memory)
    → Emits m ptr (expand fmt args) (emit_p fmt args ptr m)
unfolding emit_p expand
emit_p-expand [] args ptr m = (omega arith, tt, λ j l. refl, λ j l. refl)
emit_p-expand (c ∷ []) args ptr m = char-Emits (if c == b'$' then 0 else c) ptr m
emit_p-expand (c ∷ d ∷ fmt) args ptr m =
    let r = emit_directive d args ptr m in
    let (text_d, args_d) = expand_directive d args in
    let (h, same) = directive-Follows d args ptr m in
    let after = emit_p fmt r.1 r.0.1 r.0.0 in
    let behind = emit_p (d ∷ fmt) args (ptr + 1) (write m ptr c) in
    either-Emits m ptr (c == b'$') (text_d ++ expand fmt args_d) (c ∷ expand (d ∷ fmt) args) after
      behind
      (append-Emits m ptr text_d (expand fmt args_d) r.0 after h (
        subst (λ rest. Emits r.0.0 r.0.1 (expand fmt rest) after) same
          (emit_p-expand fmt r.1 r.0.1 r.0.0)))
      (append-Emits m ptr (c ∷ []) (expand (d ∷ fmt) args) (write m ptr c, ptr + 1) behind
        (char-Emits c ptr m) (emit_p-expand (d ∷ fmt) args (ptr + 1) (write m ptr c)))

-- The target of a request, for the house 0.
abbrev target : Url → String
target no_url = ""
target url_target_mac = "/target_mac?id=0&api_key=testkey"
target url_state = "/state?id=0&api_key=testkey"
target url_on = "/on?id=0&api_key=testkey"
target url_off = "/off?id=0&api_key=testkey"

-- The request of HTTP for an URL, as a text.
abbrev pub request : Url → List ℕ
request url =
    bytes "GET "
    ++ bytes (target url)
    ++ bytes " HTTP/1.0\r\nHost: etherhouse.xkyle.com\r\nAccept: text/html\r\n\r\n"

expand-request :
    (url : Url)
    → expand get_format (
        text (bytes (url_text url))
        ∷ text []
        ∷ text (bytes api_server)
        ∷ text (bytes "Accept: text/html")
        ∷ [])
      ≡ request url
unfolding expand bytes
expand-request no_url = refl
expand-request url_target_mac = refl
expand-request url_state = refl
expand-request url_on = refl
expand-request url_off = refl

-- What emit_request writes at a place of the buffer is the HTTP request of its URL for house 0,
-- with the targets of the four URLs (/target_mac, /state, /on and /off) written out: it stands
-- there byte for byte, and nothing in front of it and behind its end has changed.
pub emit_request-request :
    (url : Url) (ptr : ℕ) (m : Memory) → Emits m ptr (request url) (emit_request url ptr m)
unfolding emit_request
emit_request-request url ptr m =
    subst (λ t. Emits m ptr t (emit_request url ptr m)) (expand-request url)
      (emit_p-expand get_format
        (text (bytes (url_text url))
          ∷ text []
          ∷ text (bytes api_server)
          ∷ text (bytes "Accept: text/html")
          ∷ [])
        ptr m)
