-- ===== src/Net/Dhcp/Laws.antt =====
-- What dhcp.cpp takes from a message, against the options that it carries.
use ether_house.Base.{
  ip_at_held, Holds, Holds-append, ℕ, zero, suc, ◌+◌, ◌*◌, ◌^◌, ◌<◌, ◌≤◌, ◌≡◌, ◌≢◌, refl, sym, ap,
  subst, Bool, true, false, not, ◌&&◌, if◌then◌else◌, ltb, ◌∙◌, ◌==◌, List, [], ◌∷◌, All, Memory,
  ip_at, u32, length, length-append, arith,
}
use ether_house.Net.{Net}
use ether_house.Net.Layout.{udp_data_p, udp_src_port_l_p}
use ether_house.Net.Dhcp.{
  Dhcp, milliseconds, take_option, take_options, options_at, process_dhcp_offer, find_type, xid_at,
  dhcp_src_port, dhcp_received_message_type,
}
use ether_house.Net.Dhcp.Options.{
  DhcpOption, subnet_mask, server_identifier, routers, name_servers, lease_seconds, renewal_seconds,
  message_type, other, network_bytes, option_code, option_data, IsOption, encode, learn_option,
  learn_options, has_type,
}

milliseconds_held :
    (m : Memory) (i t : ℕ)
    → t < 2 ^ 32
    → Holds m i (network_bytes t)
    → milliseconds m i ≡ u32 (t * 1000)
milliseconds_held m i t lt (e0, (e1, (e2, (e3, h)))) =
    ap (λ x. u32 (x * 1000)) (ground (arith, e0, e1, e2, e3))

-- The option's code and the position of its data decide what process_dhcp_offer does with it.
pub take_option-learn :
    (o : DhcpOption) (ptr : ℕ) (s : Net × Dhcp)
    → IsOption o
    → Holds s.0.buffer ptr (option_data o)
    → take_option (option_code o) ptr s ≡ learn_option o s
unfolding take_option
take_option-learn (subnet_mask a) ptr (n, d) v h =
    ap (λ ip. (record n { netmask = ip }, d)) (ip_at_held n.buffer ptr a [] h)
take_option-learn (server_identifier a) ptr (n, d) v h =
    ap (λ ip. (n, record d { dhcpip = ip })) (ip_at_held n.buffer ptr a [] h)
take_option-learn (routers a more) ptr (n, d) v h =
    ap (λ ip. (record n { gwip = ip }, d)) (ip_at_held n.buffer ptr a more h)
take_option-learn (name_servers a more) ptr (n, d) v h =
    ap (λ ip. (record n { dnsip = ip }, d)) (ip_at_held n.buffer ptr a more h)
take_option-learn (lease_seconds t) ptr (n, d) v h =
    ap (λ x. (n, record d { lease_time = x })) (milliseconds_held n.buffer ptr t v h)
take_option-learn (renewal_seconds t) ptr (n, d) v h =
    ap (λ x. (n, record d { lease_time = x })) (milliseconds_held n.buffer ptr t v h)
take_option-learn (message_type t) ptr s v h = refl
take_option-learn (other c content) ptr s v h = ground arith

learn_option-buffer : (o : DhcpOption) (s : Net × Dhcp) → (learn_option o s).0.buffer ≡ s.0.buffer
learn_option-buffer (subnet_mask a) s = refl
learn_option-buffer (server_identifier a) s = refl
learn_option-buffer (routers a more) s = refl
learn_option-buffer (name_servers a more) s = refl
learn_option-buffer (lease_seconds t) s = refl
learn_option-buffer (renewal_seconds t) s = refl
learn_option-buffer (message_type t) s = refl
learn_option-buffer (other c content) s = refl

option_code-ne-end : (o : DhcpOption) → IsOption o → option_code o ≢ 255
option_code-ne-end (subnet_mask a) v = omega arith
option_code-ne-end (server_identifier a) v = omega arith
option_code-ne-end (routers a more) v = omega arith
option_code-ne-end (name_servers a more) v = omega arith
option_code-ne-end (lease_seconds t) v = omega arith
option_code-ne-end (renewal_seconds t) v = omega arith
option_code-ne-end (message_type t) v = omega arith
option_code-ne-end (other c content) v = ground arith

pub length-encode : (os : List DhcpOption) → 1 ≤ length (encode os)
length-encode [] = omega arith
length-encode (o ∷ rest) = omega arith

-- A round where the option's code is `c` and its length is `l`.
abbrev round : ℕ → ℕ → ℕ → ℕ → ℕ → Net × Dhcp → Net × Dhcp
round left len ptr c l s =
    let rest = take_options left len (ptr + 2 + l) (take_option c (ptr + 2) s) in
    if not (c == 255) && ltb (ptr + 2 + l) len then rest else take_option c (ptr + 2) s

take_options-round :
    (left len ptr c l : ℕ) (s : Net × Dhcp)
    → s.0.buffer ptr ≡ c
    → s.0.buffer (ptr + 1) ≡ l
    → take_options (suc left) len ptr s ≡ round left len ptr c l s
unfolding take_options
take_options-round left len ptr c l s e e' =
    ap (λ x. round left len ptr x (s.0.buffer (ptr + 1)) s) e
    ∙ ap (λ x. round left len ptr c x s) e'

-- The loop of process_dhcp_offer, with a round for each option and the end.
pub take_options-learn :
    (os : List DhcpOption) (left len ptr : ℕ) (s : Net × Dhcp)
    → All IsOption os
    → Holds s.0.buffer ptr (encode os)
    → ptr + length (encode os) ≤ len
    → length os < left
    → take_options left len ptr s ≡ learn_options os s
take_options-learn os zero len ptr s v h fits enough = absurd (omega arith)
take_options-learn [] (suc left) len ptr s v h fits enough =
    take_options-round left len ptr 255 (s.0.buffer (ptr + 1)) s h.0 refl
    ∙ unfold take_option in refl
take_options-learn (o ∷ rest) (suc left) len ptr s v (e, (e', h)) fits enough =
    let l = length (option_data o) in
    let (here, there) = Holds-append s.0.buffer (ptr + 1 + 1) (option_data o) (encode rest) h in
    let same : ptr + 1 + 1 ≡ ptr + 2 = omega arith in
    let moved : ptr + 1 + 1 + l ≡ ptr + 2 + l = omega arith in
    let learned =
      take_option-learn o (ptr + 2) s v.0
        (subst (λ j. Holds s.0.buffer j (option_data o)) same here) in
    let t : not (option_code o == 255) && ltb (ptr + 2 + l) len ≡ true = ground (
      arith,
      option_code-ne-end o v.0,
      length-append (option_data o) (encode rest),
      length-encode rest,
    ) in
    take_options-round left len ptr (option_code o) l s e e'
    ∙ ap
        (λ b.
          if b
          then take_options left len (ptr + 2 + l) (take_option (option_code o) (ptr + 2) s)
          else take_option (option_code o) (ptr + 2) s)
        t
    ∙ ap (take_options left len (ptr + 2 + l)) learned
    ∙ take_options-learn rest left len (ptr + 2 + l) (learn_option o s) v.1
        (subst (λ j. Holds (learn_option o s).0.buffer j (encode rest)) moved
          (subst (λ b. Holds b (ptr + 1 + 1 + l) (encode rest)) (sym (learn_option-buffer o s))
            there))
        (omega (arith, length-append (option_data o) (encode rest))) (omega arith)

length-le-encode : (os : List DhcpOption) → length os ≤ length (encode os)
length-le-encode [] = omega arith
length-le-encode (o ∷ rest) =
    omega (arith, length-le-encode rest, length-append (option_data o) (encode rest))

-- An offer that carries the options and their end tells the client its address and what the options
-- say, in their order.
pub process_dhcp_offer-learn :
    (os : List DhcpOption) (len : ℕ) (n : Net) (d : Dhcp)
    → All IsOption os
    → Holds n.buffer options_at (encode os)
    → options_at + length (encode os) ≤ len
    → process_dhcp_offer len (n, d)
      ≡ learn_options os (record n { myip = ip_at n.buffer (udp_data_p + 16) }, d)
unfolding process_dhcp_offer
process_dhcp_offer-learn os len n d v h fits =
    take_options-learn os (suc len) len options_at _ v h fits (omega (arith, length-le-encode os))

-- A round of dhcp_received_message_type.
abbrev type_round : ℕ → ℕ → ℕ → ℕ → ℕ → ℕ → ℕ → Memory → Bool
type_round left len type ptr c l t m =
    let rest = find_type left len type (ptr + 2 + l) m in
    if c == 53 && t == type then true else if ltb (ptr + 2 + l) len then rest else false

find_type-round :
    (left len type ptr c l : ℕ) (m : Memory)
    → m ptr ≡ c
    → m (ptr + 1) ≡ l
    → find_type (suc left) len type ptr m ≡ type_round left len type ptr c l (m (ptr + 2)) m
unfolding find_type
find_type-round left len type ptr c l m e e' =
    ap (λ x. type_round left len type ptr x (m (ptr + 1)) (m (ptr + 2)) m) e
    ∙ ap (λ x. type_round left len type ptr c x (m (ptr + 2)) m) e'

-- What a round finds at an option whose data start with `t`.
found_at :
    (o : DhcpOption) (rest : List DhcpOption) (type : ℕ) (m : Memory) (i : ℕ)
    → IsOption o
    → Holds m i (option_data o)
    → (if option_code o == 53 && m i == type then true else has_type type rest)
      ≡ has_type type (o ∷ rest)
found_at (subnet_mask a) rest type m i v h = refl
found_at (server_identifier a) rest type m i v h = refl
found_at (routers a more) rest type m i v h = refl
found_at (name_servers a more) rest type m i v h = refl
found_at (lease_seconds t) rest type m i v h = refl
found_at (renewal_seconds t) rest type m i v h = refl
found_at (message_type t) rest type m i v h = ground (arith, h)
found_at (other c content) rest type m i v h = ground (arith, v)

-- The loop of dhcp_received_message_type over a message that ends with its options.
find_type-has :
    (os : List DhcpOption) (left len type ptr : ℕ) (m : Memory)
    → All IsOption os
    → Holds m ptr (encode os)
    → ptr + length (encode os) ≡ len
    → length os < left
    → find_type left len type ptr m ≡ has_type type os
find_type-has os zero len type ptr m v h fits enough = absurd (omega arith)
find_type-has [] (suc left) len type ptr m v h fits enough =
    find_type-round left len type ptr 255 (m (ptr + 1)) m h.0 refl ∙ ground arith
find_type-has (o ∷ rest) (suc left) len type ptr m v (e, (e', h)) fits enough =
    let l = length (option_data o) in
    let (here, there) = Holds-append m (ptr + 1 + 1) (option_data o) (encode rest) h in
    let same : ptr + 1 + 1 ≡ ptr + 2 = omega arith in
    let moved : ptr + 1 + 1 + l ≡ ptr + 2 + l = omega arith in
    let later =
      find_type-has rest left len type (ptr + 2 + l) m v.1
        (subst (λ j. Holds m j (encode rest)) moved there)
        (omega (arith, length-append (option_data o) (encode rest))) (omega arith) in
    let inside : ltb (ptr + 2 + l) len ≡ true =
      ground (arith, length-append (option_data o) (encode rest), length-encode rest) in
    find_type-round left len type ptr (option_code o) l m e e'
    ∙ ap
        (λ b.
          if option_code o == 53 && m (ptr + 2) == type
          then true
          else if b
          then find_type left len type (ptr + 2 + l) m
          else false)
        inside
    ∙ ap (λ b. if option_code o == 53 && m (ptr + 2) == type then true else b) later
    ∙ found_at o rest type m (ptr + 2) v.0 (subst (λ j. Holds m j (option_data o)) same here)

-- A message from a server's port with the client's number, which ends with its options, is taken for
-- one of a type exactly if one of its options says so.
pub dhcp_received_message_type_iff :
    (os : List DhcpOption) (len type : ℕ) (d : Dhcp) (m : Memory)
    → All IsOption os
    → Holds m options_at (encode os)
    → options_at + length (encode os) ≡ len
    → dhcp_received_message_type d len type m
      ≡ (m udp_src_port_l_p == dhcp_src_port && xid_at m == d.current_xid && has_type type os)
unfolding dhcp_received_message_type
dhcp_received_message_type_iff os len type d m v h fits = ground (
  arith,
  find_type-has os (suc len) len type options_at m v h fits (omega (arith, length-le-encode os)),
)
