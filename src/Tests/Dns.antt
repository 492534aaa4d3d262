-- ===== src/Tests/Dns.antt =====
-- The lookup of a name and the request to the server on concrete texts.
use ether_house.Base.{◌++◌, ℕ}
use ether_house.Net.{Frame}
use ether_house.Net.Dns.{dns_request}
use ether_house.Net.Dns.Query.{dotted, encode_labels, query_header, question_end, dns_request_lem}
use ether_house.Net.Web.{url_decode, url_encode}
use ether_house.Net.Web.Laws.{Decodes, url_decode-encode}
use ether_house.Base.{
  ◌+◌, ◌≡◌, refl, true, false, ◌==◌, if◌then◌else◌, bit_and, List, [], ◌∷◌, length, store, writes,
  Memory, bytes, Holds, Holds-store, Holds-ext, sym, writes_far, arith,
}
use ether_house.Net.{Net, url_state}
use ether_house.Net.Layout.{udp_data_p}
use ether_house.Net.Dns.{check_for_dns_answer}
use ether_house.Net.Dns.Answer.{
  Answer, pointer, labels, address, resource, encode_answers, first_address, answers_query,
  check_for_dns_answer-first,
}
use ether_house.Net.Filler.{wtoa, emit_request}
use ether_house.Net.Filler.Laws.{Emits, request, emit_request-request}
use ether_house.Net.Filler.Digits.{decimal}
use ether_house.Base.{some}
use ether_house.Net.Filler.Post.{emit_post}
use ether_house.Net.Filler.Post.Laws.{post, emit_post-post}
use ether_house.Net.Web.Keys.{find_key_val}
use ether_house.Net.Web.Laws.Values.{find_key_val_lem}
use ether_house.Tests.Sketch.{zeros}
use ether_house.Tests.Net.{ping}

emit_request-request_example : Emits zeros 54 (request url_state) (emit_request url_state 54 zeros)
emit_request-request_example = emit_request-request url_state 54 zeros

-- An alias, and the address of what it stands for.
abbrev answers : List Answer
answers =
    resource (pointer 0xc0 0x0c) 5 300 (3 ∷ b'w' ∷ b'w' ∷ b'w' ∷ 0xc0 ∷ 0x0c ∷ [])
    ∷ address (labels 3 (bytes "www")) 300 (record { a0 = 10; a1 = 0; a2 = 0; a3 = 7 })
    ∷ []

-- The query has 38 bytes, and the answer's number is 38 and 5.
abbrev answered_query : Net
answered_query = record ping {
  buffer =
      writes (store zeros 80 (encode_answers answers) (length (encode_answers answers)))
        ((0x23, 53) ∷ (0x24, 0xe0) ∷ (0x25, 5) ∷ (42, 38) ∷ (43, 5) ∷ []);
}

held : Holds answered_query.buffer 80 (encode_answers answers)
held =
    Holds-ext (store zeros 80 (encode_answers answers) (length (encode_answers answers)))
      answered_query.buffer 80 (encode_answers answers)
      (λ j l g. sym (
        writes_far (store zeros 80 (encode_answers answers) (length (encode_answers answers)))
          ((0x23, 53) ∷ (0x24, 0xe0) ∷ (0x25, 5) ∷ (42, 38) ∷ (43, 5) ∷ []) 80 j (omega arith) l))
      (Holds-store zeros 80 (encode_answers answers))

check_for_dns_answer-first_example :
    check_for_dns_answer 5 (80 + length (encode_answers answers)) answered_query ≡ (
      if answers_query 5 answered_query.buffer
      then (if bit_and (answered_query.buffer (udp_data_p + 3)) 0x0f == 0
          then (record answered_query { hisip = first_address answers answered_query.hisip }, false)
          else (answered_query, true))
      else (answered_query, false))
unfolding bytes
check_for_dns_answer-first_example =
    check_for_dns_answer-first answers 5 (80 + length (encode_answers answers)) answered_query
      ((omega arith, omega arith), ((refl, (omega arith, (omega arith, (omega arith, tt)))), tt))
      held refl (omega arith)

url_decode-encode_example :
    Decodes zeros 20
      (b'a' ∷ b' ' ∷ b'&' ∷ [])
      (url_decode 4 20 20 (url_encode (b'a' ∷ b' ' ∷ b'&' ∷ []) 20 zeros))
url_decode-encode_example = url_decode-encode (b'a' ∷ b' ' ∷ b'&' ∷ []) 20 zeros (omega arith)

-- The labels of "ab.c".
abbrev first_label : List ℕ
first_label = b'a' ∷ b'b' ∷ []

abbrev other_labels : List (List ℕ)
other_labels = (b'c' ∷ []) ∷ []

dns_request_lem_example :
    (f : Frame) × ((dns_request (first_label ++ dotted other_labels) 5 ping).sent ≡ f ∷ ping.sent)
    × (f.size ≡ 59 + length (encode_labels (first_label ∷ other_labels)))
    × Holds f.bytes udp_data_p (
        query_header (17 + length (encode_labels (first_label ∷ other_labels))) 5
        ++ (encode_labels (first_label ∷ other_labels) ++ question_end))
dns_request_lem_example =
    dns_request_lem first_label other_labels 5 ping (omega arith) (omega arith, tt) (omega arith)

-- The text k?ab=7 with a space behind it, and the key ab.
abbrev with_key : List ℕ
with_key = b'k' ∷ b'?' ∷ b'a' ∷ b'b' ∷ b'=' ∷ b'7' ∷ b' ' ∷ []

abbrev key_ab : List ℕ
key_ab = b'a' ∷ b'b' ∷ 0 ∷ []

find_key_val_lem_example :
    (m : Memory) × (find_key_val 10 (store zeros 0 with_key 7) zeros 5 (store zeros 0 key_ab 3)
      ≡ (m, 1))
    × Holds m 0 (b'7' ∷ 0 ∷ [])
find_key_val_lem_example =
    find_key_val_lem 10 5 (store zeros 0 with_key 7) zeros (store zeros 0 key_ab 3)
      (b'k' ∷ b'?' ∷ []) b'a' (b'b' ∷ []) (b'7' ∷ []) b' ' (Holds-store zeros 0 with_key)
      (Holds-store zeros 0 key_ab) ((refl, refl), ((refl, refl), tt)) (refl, (refl, tt)) (refl, tt)
      refl (omega arith) (omega arith)

emit_post-post_example :
    (decimal 0 (wtoa 5 3) ≡ 3)
    × Emits zeros 54
        (post (bytes "/on") (bytes "a.b") (some (bytes "X: y")) (wtoa 5 3) (bytes "k=1"))
        (emit_post (bytes "/on") (bytes "a.b") (some (bytes "X: y")) (bytes "k=1") 54 zeros)
unfolding bytes
emit_post-post_example =
    emit_post-post (bytes "/on") (bytes "a.b") (some (bytes "X: y")) (bytes "k=1") 54 zeros
      (omega arith)
