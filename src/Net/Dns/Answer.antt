-- ===== src/Net/Dns/Answer.antt =====
-- What dns.cpp takes from an answer, against the records that the answer carries (RFC 1035).
use ether_house.Base.{
  ip_at_held, ℕ, zero, suc, ◌+◌, ◌/◌, ◌^◌, u8, ◌<◌, ◌≤◌, ◌≡◌, ◌≢◌, refl, sym, ap, subst, ◌∙◌,
  bit_and, Bool, true, false, ◌&&◌, ◌==◌, ltb, if◌then◌else◌, List, [], ◌∷◌, ◌++◌, All, Memory, Ip,
  octets, ip_at, length, length-append, arith, Holds, Holds-append, Bool-cases, inl, inr,
}
use ether_house.Net.{Net}
use ether_house.Net.Layout.{udp_src_port_l_p, udp_dst_port_h_p, udp_dst_port_l_p, udp_data_p}
use ether_house.Net.Dns.{
  skip_labels, skip_name, find_address, check_for_dns_answer, dnsclient_src_port_h,
}

-- The name of a record: a pointer to one that came before, or labels in one row of bytes, behind the
-- length of the first.
pub data Owner : Type 0 where
  pointer : ℕ → ℕ → Owner
  labels : ℕ → List ℕ → Owner

-- A record of class IN: an address, or one of another type below 256 with its content. Both have a
-- time to live.
pub data Answer : Type 0 where
  address : Owner → ℕ → Ip → Answer
  resource : Owner → ℕ → ℕ → List ℕ → Answer

abbrev pub owner_bytes : Owner → List ℕ
owner_bytes (pointer a b) = a ∷ b ∷ []
owner_bytes (labels n rest) = n ∷ (rest ++ 0 ∷ [])

abbrev pub IsOwner : Owner → Type 0
IsOwner (pointer a b) = bit_and a 0xc0 ≢ 0
IsOwner (labels n rest) = (bit_and n 0xc0 ≡ 0) × All (λ c. c ≢ 0) rest

abbrev pub record_bytes : ℕ → ℕ → List ℕ → List ℕ
record_bytes kind ttl content =
    0
    ∷ kind
    ∷ 0
    ∷ 1
    ∷ ttl / 2 ^ 24
    ∷ u8 (ttl / 2 ^ 16)
    ∷ u8 (ttl / 2 ^ 8)
    ∷ u8 ttl
    ∷ 0
    ∷ length content
    ∷ content

abbrev pub answer_bytes : Answer → List ℕ
answer_bytes (address o ttl a) = owner_bytes o ++ record_bytes 1 ttl (octets a)
answer_bytes (resource o kind ttl content) = owner_bytes o ++ record_bytes kind ttl content

abbrev pub encode_answers : List Answer → List ℕ
encode_answers [] = []
encode_answers (a ∷ rest) = answer_bytes a ++ encode_answers rest

abbrev pub IsAnswer : Answer → Type 0
IsAnswer (address o ttl a) = IsOwner o
IsAnswer (resource o kind ttl content) = IsOwner o × (kind ≢ 1)

-- The first address among the records, or the one that was there.
abbrev pub first_address : List Answer → Ip → Ip
first_address [] ip = ip
first_address (address o ttl a ∷ rest) ip = a
first_address (resource o kind ttl content ∷ rest) ip = first_address rest ip

skip_labels_lem :
    (rest : List ℕ) (left plen p : ℕ) (m : Memory)
    → All (λ c. c ≢ 0) rest
    → Holds m (p + 1) (rest ++ 0 ∷ [])
    → p + 1 + length rest < plen
    → length rest < left
    → skip_labels left plen p m ≡ p + 2 + length rest
unfolding skip_labels
skip_labels_lem rest zero plen p m v h fits enough = absurd (omega arith)
skip_labels_lem [] (suc left) plen p m v (e, h) fits enough = ground (arith, e)
skip_labels_lem (c ∷ rest) (suc left) plen p m (v, vs) (e, h) fits enough =
    ground (arith, e, v, skip_labels_lem rest left plen (p + 1) m vs h (omega arith) (omega arith))

length-owner : (o : Owner) → 1 ≤ length (owner_bytes o)
length-owner (pointer a b) = omega arith
length-owner (labels n rest) = omega arith

skip_name_lem :
    (o : Owner) (plen p : ℕ) (m : Memory)
    → IsOwner o
    → Holds m p (owner_bytes o)
    → p + length (owner_bytes o) ≤ plen
    → skip_name plen p m ≡ p + length (owner_bytes o)
unfolding skip_name
skip_name_lem (pointer a b) plen p m v (e, h) fits = ground (arith, e, v)
skip_name_lem (labels n rest) plen p m (v, vs) (e, h) fits = ground (
  arith,
  e,
  v,
  skip_labels_lem rest (suc plen) plen p m vs h (omega (arith, fits, length-append rest (0 ∷ [])))
      (omega (arith, fits, length-append rest (0 ∷ []))),
  length-append rest (0 ∷ []),
)

record_at :
    (m : Memory) (q kind ttl : ℕ) (content : List ℕ)
    → Holds m q (record_bytes kind ttl content)
    → (m (q + 1) ≡ kind) × (m (q + 9) ≡ length content) × Holds m (q + 10) content
record_at m q kind ttl content (e0, (e1, (e2, (e3, (e4, (e5, (e6, (e7, (e8, (e9, h)))))))))) =
    (e1, ground (arith, e9), subst (λ j. Holds m j content) (omega arith) h)

-- A round of the loop behind a name that ends at `q`, at a record of the kind with `len` bytes.
abbrev round : ℕ → ℕ → ℕ → ℕ → ℕ → Net → Net
round left plen q kind len n =
    let rest = find_address left plen (q + len + 10) n in
    if ltb plen (q + 14)
    then n
    else if kind == 1 && len == 4
    then record n { hisip = ip_at n.buffer (q + 10) }
    else rest

find_address-round :
    (left plen p q kind len : ℕ) (n : Net)
    → skip_name plen p n.buffer ≡ q
    → n.buffer (q + 1) ≡ kind
    → n.buffer (q + 9) ≡ len
    → find_address (suc left) plen p n ≡ round left plen q kind len n
unfolding find_address
find_address-round left plen p q kind len n e e' e'' =
    ap (λ x. round left plen x (n.buffer (x + 1)) (n.buffer (x + 9)) n) e
    ∙ ap (λ x. round left plen q x (n.buffer (q + 9)) n) e'
    ∙ ap (λ x. round left plen q kind x n) e''

answer_round :
    (left plen p kind ttl : ℕ) (o : Owner) (content : List ℕ) (n : Net)
    → IsOwner o
    → Holds n.buffer p (owner_bytes o ++ record_bytes kind ttl content)
    → p + length (owner_bytes o) ≤ plen
    → (find_address (suc left) plen p n
        ≡ round left plen (p + length (owner_bytes o)) kind (length content) n)
      × Holds n.buffer (p + length (owner_bytes o) + 10) content
answer_round left plen p kind ttl o content n v h fits =
    let q = p + length (owner_bytes o) in
    let (name, behind) =
      Holds-append n.buffer p (owner_bytes o) (record_bytes kind ttl content) h in
    let (e1, e9, held) = record_at n.buffer q kind ttl content behind in
    (
      find_address-round left plen p q kind (length content) n
          (skip_name_lem o plen p n.buffer v name fits) e1 e9,
      held,
    )

-- What is shorter than a record is none.
short-first :
    (answers : List Answer) (ip : Ip)
    → length (encode_answers answers) < 4
    → first_address answers ip ≡ ip
short-first [] ip h = refl
short-first (address o ttl a ∷ rest) ip h = absurd (
    omega (
      arith,
      h,
      length-append (owner_bytes o ++ record_bytes 1 ttl (octets a)) (encode_answers rest),
      length-append (owner_bytes o) (record_bytes 1 ttl (octets a)),
    ))
short-first (resource o kind ttl content ∷ rest) ip h = absurd (
    omega (
      arith,
      h,
      length-append (owner_bytes o ++ record_bytes kind ttl content) (encode_answers rest),
      length-append (owner_bytes o) (record_bytes kind ttl content),
    ))

at_end : (left plen : ℕ) (n : Net) → find_address (suc left) plen plen n ≡ n
unfolding find_address skip_name skip_labels
at_end left plen n = ground arith

find_address-first :
    (answers : List Answer) (left plen p : ℕ) (n : Net)
    → All IsAnswer answers
    → Holds n.buffer p (encode_answers answers)
    → p + length (encode_answers answers) ≡ plen
    → length answers < left
    → find_address left plen p n ≡ record n { hisip = first_address answers n.hisip }
find_address-first answers zero plen p n v h fits enough = absurd (omega arith)
find_address-first [] (suc left) plen p n v h fits enough =
    subst (λ j. find_address (suc left) plen j n ≡ n) (omega (arith, fits)) (at_end left plen n)
find_address-first (address o ttl a ∷ rest) (suc left) plen p n (v, vs) h fits enough =
    let q = p + length (owner_bytes o) in
    let l = length-append (owner_bytes o ++ record_bytes 1 ttl (octets a)) (encode_answers rest) in
    let l' = length-append (owner_bytes o) (record_bytes 1 ttl (octets a)) in
    let (here, there) =
      Holds-append n.buffer p (answer_bytes (address o ttl a)) (encode_answers rest) h in
    let (e, held) =
      answer_round left plen p 1 ttl o (octets a) n v here (omega (arith, fits, l, l')) in
    let t : ltb plen (q + 14) ≡ false = ground (arith, fits, l, l') in
    e
    ∙ ap (λ b. if b then n else record n { hisip = ip_at n.buffer (q + 10) }) t
    ∙ ap (λ x. record n { hisip = x }) (ip_at_held n.buffer (q + 10) a [] held)
find_address-first (resource o kind ttl content ∷ rest) (suc left) plen p n ((v, v'), vs) h fits
      enough =
    let q = p + length (owner_bytes o) in
    let after = find_address left plen (q + length content + 10) n in
    let found = record n { hisip = ip_at n.buffer (q + 10) } in
    let l = length-append (owner_bytes o ++ record_bytes kind ttl content) (encode_answers rest) in
    let l' = length-append (owner_bytes o) (record_bytes kind ttl content) in
    let (here, there) =
      Holds-append n.buffer p (answer_bytes (resource o kind ttl content)) (encode_answers rest)
        h in
    let (e, held) =
      answer_round left plen p kind ttl o content n v here (omega (arith, fits, l, l')) in
    let k : (kind == 1) ≡ false = ground (arith, v') in
    elim (Bool-cases (ltb plen (q + 14))) [
      | inl t ↦
          e
          ∙ ap (λ b. if b then n else if kind == 1 && length content == 4 then found else after) t
          ∙ ap (λ x. record n { hisip = x })
              (sym (short-first rest n.hisip (ground (arith, t, fits, l, l'))))
      | inr t ↦
          e
          ∙ ap (λ b. if b then n else if kind == 1 && length content == 4 then found else after) t
          ∙ ap (λ b. if b && length content == 4 then found else after) k
          ∙ find_address-first rest left plen (q + length content + 10) n vs
              (subst (λ j. Holds n.buffer j (encode_answers rest)) (omega (arith, l')) there)
              (omega (arith, fits, l, l')) (omega (arith, enough))
    ]

length-le-answers : (answers : List Answer) → length answers ≤ length (encode_answers answers)
length-le-answers [] = omega arith
length-le-answers (address o ttl a ∷ rest) = omega (
  arith,
  length-le-answers rest,
  length-append (owner_bytes o ++ record_bytes 1 ttl (octets a)) (encode_answers rest),
  length-append (owner_bytes o) (record_bytes 1 ttl (octets a)),
)
length-le-answers (resource o kind ttl content ∷ rest) = omega (
  arith,
  length-le-answers rest,
  length-append (owner_bytes o ++ record_bytes kind ttl content) (encode_answers rest),
  length-append (owner_bytes o) (record_bytes kind ttl content),
)

-- The packet comes from a name server and answers the query `id`.
abbrev pub answers_query : ℕ → Memory → Bool
answers_query id m =
    m udp_src_port_l_p == 53
    && m udp_dst_port_h_p == dnsclient_src_port_h
    && m udp_dst_port_l_p == id
    && m (udp_data_p + 1) == id

-- A packet of 70 bytes or more that ends with its answers sets the address of the server to the first
-- address among them, if it answers the query and reports no error; with an error the lookup fails,
-- and any other packet changes nothing.
pub check_for_dns_answer-first :
    (answers : List Answer) (id plen : ℕ) (n : Net)
    → All IsAnswer answers
    → Holds n.buffer (udp_data_p + n.buffer udp_data_p) (encode_answers answers)
    → udp_data_p + n.buffer udp_data_p + length (encode_answers answers) ≡ plen
    → 70 ≤ plen
    → check_for_dns_answer id plen n ≡ (
        if answers_query id n.buffer
        then (if bit_and (n.buffer (udp_data_p + 3)) 0x0f == 0
            then (record n { hisip = first_address answers n.hisip }, false)
            else (n, true))
        else (n, false))
unfolding check_for_dns_answer
check_for_dns_answer-first answers id plen n v h fits long = ground (
  arith,
  long,
  find_address-first answers (suc plen) plen (udp_data_p + n.buffer udp_data_p) n v h fits
      (omega (arith, fits, length-le-answers answers)),
)
