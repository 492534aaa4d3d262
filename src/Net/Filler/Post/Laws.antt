-- ===== src/Net/Filler/Post/Laws.antt =====
-- The request with a body is a text, whose Content-Length is the length of the body.
use ether_house.Base.{
  ℕ, ◌^◌, ◌<◌, ◌≡◌, refl, subst, ap, ◌∙◌, arith, Option, some, none, List, [], ◌∷◌, ◌++◌, Memory,
  length, bytes, u16,
}
use mathlib.Core.List.{append-nil}
use ether_house.Net.Filler.{Arg, word, text, wtoa}
use ether_house.Net.Filler.Laws.{Emits, expand, emit_p-expand}
use ether_house.Net.Filler.Digits.{decimal, wtoa_lem}
use ether_house.Net.Filler.Post.{post_format, header_of, header_end, emit_post}

-- The header line of the caller, with its end.
abbrev pub header_line : Option (List ℕ) → List ℕ → List ℕ
header_line none rest = rest
header_line (some line) rest = line ++ (bytes "\r\n" ++ rest)

abbrev pub post : List ℕ → List ℕ → Option (List ℕ) → List ℕ → List ℕ → List ℕ
post urlbuf hoststr ahl digits postval =
    bytes "POST "
    ++ (urlbuf
        ++ (bytes " HTTP/1.0\r\nHost: "
            ++ (hoststr
                ++ (bytes "\r\n"
                    ++ header_line ahl (
                        bytes "Accept: */*\r\nContent-Length: "
                        ++ (digits
                            ++ (bytes "\r\nContent-Type: application/x-www-form-urlencoded\r\n\r\n"
                                ++ postval)))))))

expand-post :
    (urlbuf hoststr : List ℕ) (ahl : Option (List ℕ)) (n : ℕ) (postval : List ℕ)
    → expand post_format (
        text urlbuf
        ∷ text hoststr
        ∷ text (header_of ahl)
        ∷ text (header_end ahl)
        ∷ word n
        ∷ text postval
        ∷ [])
      ≡ post urlbuf hoststr ahl (wtoa 5 n) (postval ++ [])
unfolding expand bytes
expand-post urlbuf hoststr none n postval = refl
expand-post urlbuf hoststr (some line) n postval = refl

-- The request with a body stands where it is to, and no byte in front of it or behind its end has
-- changed: the URL, the host, the header line of the caller if there is one, a Content-Length
-- that is the length of the body in decimal digits, and the body; for a body below 65536 bytes.
pub emit_post-post :
    (urlbuf hoststr : List ℕ) (ahl : Option (List ℕ)) (postval : List ℕ) (ptr : ℕ) (m : Memory)
    → length postval < 2 ^ 16
    → (decimal 0 (wtoa 5 (length postval)) ≡ length postval)
      × Emits m ptr
          (post urlbuf hoststr ahl (wtoa 5 (length postval)) postval)
          (emit_post urlbuf hoststr ahl postval ptr m)
unfolding emit_post
emit_post-post urlbuf hoststr ahl postval ptr m small = (
  (wtoa_lem (length postval) small).0,
  subst (λ t. Emits m ptr t (emit_post urlbuf hoststr ahl postval ptr m)) as_post
      (emit_p-expand post_format (arguments (u16 (length postval))) ptr m),
)
  where
    arguments : ℕ → List Arg
    arguments n =
        text urlbuf
        ∷ text hoststr
        ∷ text (header_of ahl)
        ∷ text (header_end ahl)
        ∷ word n
        ∷ text postval
        ∷ []

    as_post :
        expand post_format (arguments (u16 (length postval)))
        ≡ post urlbuf hoststr ahl (wtoa 5 (length postval)) postval
    as_post =
        expand-post urlbuf hoststr ahl (u16 (length postval)) postval
        ∙ ap (λ n. post urlbuf hoststr ahl (wtoa 5 n) (postval ++ [])) (omega arith)
        ∙ ap (post urlbuf hoststr ahl (wtoa 5 (length postval))) (append-nil postval)
