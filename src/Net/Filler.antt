-- ===== src/Net/Filler.antt =====
-- BufferFiller::emit_p and wtoa of libraries/ethercard/EtherCard.cpp, and the request that tcpip.cpp
-- writes with it. The texts are those that api_client.ino and client_firmware.ino hand over.
pub mod Laws
pub mod Digits
pub mod Post
use Prim.Native.String.{String}
use ether_house.Base.{
  ℕ, zero, suc, ◌+◌, ◌-◌, ◌/◌, ◌%◌, ◌^◌, bit_and, ◌==◌, ltb, if◌then◌else◌, List, [], ◌∷◌, ◌++◌,
  Memory, write, writes, store, length, bytes,
}
use ether_house.Net.{Net, Url, no_url, url_target_mac, url_state, url_on, url_off}

-- The decimal digits of an uint16_t: at most five calls.
unfoldable pub wtoa : ℕ → ℕ → List ℕ
wtoa zero value = []
wtoa (suc calls) value =
    let front = wtoa calls (value / 10) in
    (if ltb 9 value then front else []) ++ (b'0' + value % 10) ∷ []

-- An argument of emit_p: a number, or a text in RAM, in program memory or in the EEPROM, without its
-- end. For `$L` it is the text that ltoa makes.
pub data Arg : Type 0 where
  word : ℕ → Arg
  text : List ℕ → Arg

-- The next argument as a number and as a text, and the ones behind it.
abbrev pub word_of : List Arg → ℕ
word_of (word x ∷ rest) = x
word_of _ = 0

abbrev pub text_of : List Arg → List ℕ
text_of (text t ∷ rest) = t
text_of _ = []

abbrev pub rest_of : List Arg → List Arg
rest_of [] = []
rest_of (x ∷ rest) = rest

-- A hexadecimal digit, in upper case.
abbrev pub hex_digit : ℕ → ℕ
hex_digit d = (if ltb 9 d then d + 7 else d) + 0x30

-- A copy with its end, and one without.
abbrev pub put_string : List ℕ → ℕ → Memory → Memory × ℕ
put_string t ptr m = (write (store m ptr t (length t)) (ptr + length t) 0, ptr + length t)

abbrev pub put_bytes : List ℕ → ℕ → Memory → Memory × ℕ
put_bytes t ptr m = (store m ptr t (length t), ptr + length t)

-- The switch on the character behind a `$`, and whether it takes an argument.
unfoldable pub emit_directive : ℕ → List Arg → ℕ → Memory → (Memory × ℕ) × List Arg
emit_directive c args ptr m =
    if c == b'D'
    then (put_string (wtoa 5 (word_of args)) ptr m, rest_of args)
    else if c == b'H'
    then (
      (
        writes m (
            (ptr, hex_digit (word_of args % 2 ^ 8 / 2 ^ 4))
            ∷ (ptr + 1, hex_digit (bit_and (word_of args) 0x0f))
            ∷ []),
        ptr + 2,
      ),
      rest_of args,
    )
    else if c == b'L'
    then (put_string (text_of args) ptr m, rest_of args)
    else if c == b'S'
    then (put_string (text_of args) ptr m, rest_of args)
    else if c == b'F'
    then (put_bytes (text_of args) ptr m, rest_of args)
    else if c == b'E'
    then (put_bytes (text_of args) ptr m, rest_of args)
    else ((write m ptr c, ptr + 1), args)

-- A `$` at the end takes the terminating zero of the format for its character; what the source then
-- reads behind it is not modelled.
unfoldable pub emit_p : List ℕ → List Arg → ℕ → Memory → Memory × ℕ
emit_p [] args ptr m = (m, ptr)
emit_p (c ∷ []) args ptr m = (write m ptr (if c == b'$' then 0 else c), ptr + 1)
emit_p (c ∷ d ∷ fmt) args ptr m =
    let ((m', ptr'), args') = emit_directive d args ptr m in
    let directed = emit_p fmt args' ptr' m' in
    let plain = emit_p (d ∷ fmt) args (ptr + 1) (write m ptr c) in
    if c == b'$' then directed else plain

abbrev pub get_format : List ℕ
get_format = bytes "GET $F$S HTTP/1.0\r\nHost: $F\r\n$F\r\n\r\n"

-- client_urlbuf; a house has the number 0 and the key of client_firmware.ino.
abbrev pub url_text : Url → String
url_text no_url = ""
url_text url_target_mac = "/target_mac?id=0&api_key=testkey"
url_text url_state = "/state?id=0&api_key=testkey"
url_text url_on = "/on?id=0&api_key=testkey"
url_text url_off = "/off?id=0&api_key=testkey"

abbrev pub api_server : String
api_server = "etherhouse.xkyle.com"

-- What www_client_internal_datafill_cb writes at `ptr`: client_urlbuf, client_urlbuf_var,
-- client_hoststr and client_additionalheaderline.
unfoldable pub emit_request : Url → ℕ → Memory → Memory × ℕ
emit_request url = emit_p get_format (
    text (bytes (url_text url))
    ∷ text []
    ∷ text (bytes api_server)
    ∷ text (bytes "Accept: text/html")
    ∷ [])
