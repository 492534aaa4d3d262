-- ===== src/Net/Filler/Post.antt =====
-- httpPost of libraries/ethercard/tcpip.cpp: the request with a body that
-- www_client_internal_datafill_cb writes.
pub mod Laws
use ether_house.Base.{ℕ, ◌+◌, Option, some, none, List, [], ◌∷◌, ◌++◌, Memory, length, bytes, u16}
use ether_house.Net.Filler.{word, text, emit_p}

abbrev pub post_format : List ℕ
post_format =
    bytes
      "POST $F HTTP/1.0\r\nHost: $F\r\n$F$SAccept: */*\r\nContent-Length: $D\r\nContent-Type: application/x-www-form-urlencoded\r\n\r\n$S"

-- client_additionalheaderline, or nothing, and the end of its line.
abbrev pub header_of : Option (List ℕ) → List ℕ
header_of none = []
header_of (some line) = line

abbrev pub header_end : Option (List ℕ) → List ℕ
header_end none = []
header_end (some line) = bytes "\r\n"

-- client_urlbuf, client_hoststr, client_additionalheaderline and client_postval.
unfoldable pub emit_post : List ℕ → List ℕ → Option (List ℕ) → List ℕ → ℕ → Memory → Memory × ℕ
emit_post urlbuf hoststr ahl postval = emit_p post_format (
    text urlbuf
    ∷ text hoststr
    ∷ text (header_of ahl)
    ∷ text (header_end ahl)
    ∷ word (u16 (length postval))
    ∷ text postval
    ∷ [])
