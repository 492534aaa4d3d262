-- ===== src/Net/Dns/Query.antt =====
-- The query that dns.cpp sends, against the name that it asks for (RFC 1035).
use ether_house.Base.{
  ℕ, ◌+◌, ◌-◌, ◌*◌, ◌^◌, ◌<◌, ◌≤◌, ◌≡◌, ◌≢◌, refl, sym, ap, subst, ◌∙◌, false, ◌==◌, if◌then◌else◌,
  List, [], ◌∷◌, ◌++◌, All, Memory, write, writes, fill, u8, length, length-append, arith, Holds,
  Holds-ext, Holds-join,
}
use ether_house.Net.{Net, Frame}
use ether_house.Net.Layout.{udp_data_p}
use ether_house.Net.Frames.Requests.{udp_prepare, udp_transmit}
use ether_house.Net.Frames.Laws.Udp.{udp_transmit_far, udp_transmit-sent, udp_prepare-sent}
use ether_house.Net.Dns.{put_name, dns_request, dnsclient_src_port_h}

-- The text of a name, and its code: each label behind its length.
abbrev pub dotted : List (List ℕ) → List ℕ
dotted [] = []
dotted (label ∷ labels) = b'.' ∷ (label ++ dotted labels)

abbrev pub encode_labels : List (List ℕ) → List ℕ
encode_labels [] = []
encode_labels (label ∷ labels) = length label ∷ (label ++ encode_labels labels)

abbrev pub IsLabel : List ℕ → Type 0
IsLabel label = All (λ c. (c ≢ b'.') × (c ≢ 0)) label

-- The characters of a label behind the `n` that stand at `p`.
abbrev put_label : List ℕ → ℕ → ℕ → Memory → Memory
put_label [] p n m = m
put_label (c ∷ label) p n m = put_label label p (n + 1) (write m (p + (n + 1)) c)

put_name-label :
    (label rest : List ℕ) (p n : ℕ) (m : Memory)
    → IsLabel label
    → put_name (label ++ rest) p n m ≡ put_name rest p (n + length label) (put_label label p n m)
unfolding put_name
put_name-label [] rest p n m v = ap (λ k. put_name rest p k m) (omega arith)
put_name-label (c ∷ label) rest p n m ((v, some_char), vs) =
    let ended = put_name (label ++ rest) (p + 1 + n) 0 (write m p n) in
    let longer = put_name (label ++ rest) p (n + 1) (write m (p + (n + 1)) c) in
    let t : (c == b'.') ≡ false = ground (arith, v) in
    let u : (c == 0) ≡ false = ground (arith, some_char) in
    ap (λ b. if b then (write m p n, p + 1 + n) else if c == b'.' then ended else longer) u
    ∙ ap (λ b. if b then ended else longer) t
    ∙ put_name-label label rest p (n + 1) (write m (p + (n + 1)) c) vs
    ∙ ap (λ k. put_name rest p k (put_label (c ∷ label) p n m)) (omega arith)

put_name-first :
    (label rest : List ℕ) (p : ℕ) (m : Memory)
    → IsLabel label
    → put_name (label ++ rest) p 0 m ≡ put_name rest p (length label) (put_label label p 0 m)
put_name-first label rest p m v =
    put_name-label label rest p 0 m v
    ∙ ap (λ k. put_name rest p k (put_label label p 0 m)) (omega arith)

put_label_lem :
    (label : List ℕ) (p n : ℕ) (m : Memory)
    → Holds (put_label label p n m) (p + 1 + n) label
      × ((j : ℕ) → j < p + 1 + n → put_label label p n m j ≡ m j)
put_label_lem [] p n m = (tt, λ j l. refl)
put_label_lem (c ∷ label) p n m =
    let m1 = write m (p + (n + 1)) c in
    let (h, front) = put_label_lem label p (n + 1) m1 in
    (
      (
        front (p + 1 + n) (omega arith) ∙ ground arith,
        subst (λ j. Holds (put_label label p (n + 1) m1) j label) (omega arith) h,
      ),
      λ j l. front j (omega (arith, l)) ∙ ground (arith, l),
    )

-- The name's code stands at `p` and ends before `end`, and nothing in front of it has changed.
abbrev Names : Memory → ℕ → List ℕ → Memory × ℕ → Type 0
Names m p code (m', end) =
    (end ≡ p + length code) × Holds m' p code × ((j : ℕ) → j < p → m' j ≡ m j)

-- A label with its length, in front of the rest.
label-Names :
    (label code : List ℕ) (p : ℕ) (m : Memory) (r : Memory × ℕ)
    → Names (write (put_label label p 0 m) p (length label)) (p + 1 + length label) code r
    → Names m p (length label ∷ (label ++ code)) r
label-Names label code p m (m', end) (e, h, front) =
    let (held, before) = put_label_lem label p 0 m in
    let m2 = write (put_label label p 0 m) p (length label) in
    let held' : Holds m2 (p + 1) label =
      Holds-ext (put_label label p 0 m) m2 (p + 1) label (λ j l g. ground (arith, l))
        (subst (λ j. Holds (put_label label p 0 m) j label) (omega arith) held) in
    (
      omega (arith, e, length-append label code),
      (
        front p (omega arith) ∙ ground arith,
        Holds-join m' (p + 1) label code
            (Holds-ext m2 m' (p + 1) label (λ j l g. sym (front j (omega (arith, g)))) held') h,
      ),
      λ j l. front j (omega (arith, l)) ∙ ground (arith, l, before j (omega (arith, l))),
    )

-- The loops of dnsRequest over a name of one label or more write its code.
pub put_name-Names :
    (labels : List (List ℕ)) (label : List ℕ) (p : ℕ) (m : Memory)
    → IsLabel label
    → All IsLabel labels
    → Names m p (encode_labels (label ∷ labels)) (put_name (label ++ dotted labels) p 0 m)
unfolding put_name
put_name-Names [] label p m v vs =
    subst (Names m p (encode_labels (label ∷ []))) (sym (put_name-first label [] p m v)) (
      label-Names label [] p m
        (write (put_label label p 0 m) p (length label), p + 1 + length label)
        (omega arith, tt, λ j l. refl))
put_name-Names (next ∷ labels) label p m v (v', vs) =
    subst (Names m p (encode_labels (label ∷ next ∷ labels)))
      (sym (put_name-first label (dotted (next ∷ labels)) p m v))
      (label-Names label (encode_labels (next ∷ labels)) p m
        (put_name (next ++ dotted labels) (p + 1 + length label) 0
          (write (put_label label p 0 m) p (length label)))
        (put_name-Names labels next (p + 1 + length label)
          (write (put_label label p 0 m) p (length label)) v' vs))

-- The query's header and what follows the name.
abbrev pub query_header : ℕ → ℕ → List ℕ
query_header len id = len ∷ id ∷ 1 ∷ 0 ∷ 0 ∷ 1 ∷ 0 ∷ 0 ∷ 0 ∷ 0 ∷ 0 ∷ 0 ∷ []

abbrev pub question_end : List ℕ
question_end = 0 ∷ 0 ∷ 1 ∷ 0 ∷ 1 ∷ []

-- The buffer when the name's code ends at `p`.
abbrev question : ℕ → ℕ → ℕ → Memory → Memory
question len id p m = writes m (
    (p, 0)
    ∷ (p + 1, 0)
    ∷ (p + 2, 1)
    ∷ (p + 3, 0)
    ∷ (p + 4, 1)
    ∷ (42, len)
    ∷ (43, id)
    ∷ (44, 1)
    ∷ (47, 1)
    ∷ [])

question-Holds :
    (code : List ℕ) (len id p : ℕ) (m b : Memory)
    → p ≡ 54 + length code
    → Holds m 54 code
    → ((j : ℕ) → j < 54 → m j ≡ fill b 42 0 12 j)
    → Holds (question len id p m) 42 (query_header len id ++ (code ++ question_end))
question-Holds code len id p m b e h blank =
    Holds-join (question len id p m) 42 (query_header len id) (code ++ question_end)
      (
        ground (arith, e),
        (
          ground (arith, e),
          (
            ground (arith, e),
            (
              empty 45 (omega arith) (omega arith) (omega arith),
              (
                empty 46 (omega arith) (omega arith) (omega arith),
                (
                  ground (arith, e),
                  (
                    empty 48 (omega arith) (omega arith) (omega arith),
                    (
                      empty 49 (omega arith) (omega arith) (omega arith),
                      (
                        empty 50 (omega arith) (omega arith) (omega arith),
                        (
                          empty 51 (omega arith) (omega arith) (omega arith),
                          (
                            empty 52 (omega arith) (omega arith) (omega arith),
                            (empty 53 (omega arith) (omega arith) (omega arith), tt),
                          ),
                        ),
                      ),
                    ),
                  ),
                ),
              ),
            ),
          ),
        ),
      )
      (Holds-join (question len id p m) 54 code question_end
        (Holds-ext m (question len id p m) 54 code (λ j l g. ground (arith, l, g, e)) h)
        (subst (λ j. Holds (question len id p m) j question_end) e
          (ground arith, (ground arith, (ground arith, (ground arith, (ground arith, tt)))))))
  where
    empty : (j : ℕ) → 45 ≤ j → j ≢ 47 → j < 54 → question len id p m j ≡ 0
    empty j l ne g = ground (arith, l, ne, g, e, blank j g)

-- The query for a name of labels without dots and zero bytes is one frame: its number, of which
-- the high byte is its own length, the flags of a query with one question, and the name's code
-- with the question for an address; where it has less than 256 bytes.
pub dns_request_lem :
    (label : List ℕ) (labels : List (List ℕ)) (id : ℕ) (n : Net)
    → IsLabel label
    → All IsLabel labels
    → 17 + length (encode_labels (label ∷ labels)) < 256
    → (f : Frame) × ((dns_request (label ++ dotted labels) id n).sent ≡ f ∷ n.sent)
      × (f.size ≡ 59 + length (encode_labels (label ∷ labels)))
      × Holds f.bytes udp_data_p (
          query_header (17 + length (encode_labels (label ∷ labels))) id
          ++ (encode_labels (label ∷ labels) ++ question_end))
unfolding dns_request
dns_request_lem label labels id n v vs short =
    let code = encode_labels (label ∷ labels) in
    let (e, h, front) = put_name-Names labels label 54 blank v vs in
    let length_byte : u8 (p + 5 - 42) ≡ 17 + length code = omega (arith, e, short) in
    let held : Holds n3.buffer 42 (query_header (u8 (p + 5 - 42)) id ++ (code ++ question_end)) =
      question-Holds code (u8 (p + 5 - 42)) id p m n2.buffer e h front in
    (
      record { size = 42 + u8 (p + 5 - 42); bytes = (udp_transmit (u8 (p + 5 - 42)) n3).buffer },
      udp_transmit-sent (u8 (p + 5 - 42)) n3
          ∙ ap
              (λ l.
                record {
                  size = 42 + u8 (p + 5 - 42);
                  bytes = (udp_transmit (u8 (p + 5 - 42)) n3).buffer;
                }
                ∷ l)
              (udp_prepare-sent (dnsclient_src_port_h * 2 ^ 8 + id) n1.dnsip 53 n1 ∙ ground arith),
      omega (arith, length_byte),
      subst
          (λ x.
            Holds (udp_transmit (u8 (p + 5 - 42)) n3).buffer 42
              (query_header x id ++ (code ++ question_end)))
          length_byte
          (Holds-ext n3.buffer (udp_transmit (u8 (p + 5 - 42)) n3).buffer 42
            (query_header (u8 (p + 5 - 42)) id ++ (code ++ question_end))
            (λ j l g. sym (udp_transmit_far (u8 (p + 5 - 42)) n3 j l)) held),
    )
  where
    n1 : Net
    n1 =
        if n.dnsip.a0 == 0
        then record n { dnsip = record { a0 = 8; a1 = 8; a2 = 8; a3 = 8 } }
        else n

    n2 : Net
    n2 = udp_prepare (dnsclient_src_port_h * 2 ^ 8 + id) n1.dnsip 53 n1

    blank : Memory
    blank = fill n2.buffer 42 0 12

    named : Memory × ℕ
    named = put_name (label ++ dotted labels) 54 0 blank

    m : Memory
    m = named.0

    p : ℕ
    p = named.1

    n3 : Net
    n3 = record n2 { buffer = question (u8 (p + 5 - 42)) id p m }
