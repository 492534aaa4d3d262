-- ===== src/Net/Web/Laws/Values.antt =====
-- The value that findKeyVal finds.
use ether_house.Base.{
  ℕ, zero, suc, ◌+◌, ◌-◌, ◌<◌, ◌≤◌, ◌≡◌, refl, sym, ap, subst, ◌∙◌, arith, ◌==◌, ◌||◌, Bool, true,
  false, if◌then◌else◌, List, [], ◌∷◌, ◌++◌, All, length, Memory, write, write_self, write_ne,
  Holds, length-append, Holds-append, Holds-ext, Holds-join,
}
use ether_house.Net.Web.Keys.{is_end, look_at, find_key, copy_value, find_key_val}

-- A character of a value.
abbrev pub IsInside : ℕ → Type 0
IsInside c = (is_end c || c == 0x26) ≡ false

-- The copy stops behind the value.
copy_value_lem :
    (left : ℕ) (str : Memory) (k : ℕ) (m : Memory) (i : ℕ) (value : List ℕ) (e : ℕ)
    → Holds str k (value ++ e ∷ [])
    → All IsInside value
    → (is_end e || e == 0x26) ≡ true
    → length value ≤ left
    → (m' : Memory) × (copy_value left str k m i ≡ (m', i + length value))
      × Holds m' i value
      × ((j : ℕ) → j < i → m' j ≡ m j)
unfolding copy_value
copy_value_lem zero str k m i [] e h a s le = (m, ap (λ n. (m, n)) (omega arith), tt, λ j lt. refl)
copy_value_lem zero str k m i (x ∷ xs) e h a s le = absurd (omega arith)
copy_value_lem (suc left) str k m i [] e (h, h') a s le = (
  m,
  rw (ap (λ c. is_end c || c == 0x26) h ∙ s) (ap (λ n. (m, n)) (omega arith)),
  tt,
  λ j lt. refl,
)
copy_value_lem (suc left) str k m i (x ∷ xs) e (h, h') (a, a') s le =
    let (m', q, v, old) =
      copy_value_lem left str (k + 1) (write m i (str k)) (i + 1) xs e h' a' s (omega arith) in
    (
      m',
      ap
            (λ c.
              if is_end c || c == 0x26
              then (m, i)
              else copy_value left str (k + 1) (write m i (str k)) (i + 1))
            h
          ∙ ap (λ t. if t then (m, i) else copy_value left str (k + 1) (write m i (str k)) (i + 1))
              a
          ∙ q
          ∙ ap (λ n. (m', n)) (omega arith),
      (old i (omega arith) ∙ write_self m i (str k) ∙ h, v),
      λ j lt. old j (omega arith) ∙ write_ne m i j (str k) (omega arith),
    )

-- A character that is passed over.
abbrev pub IsOther : ℕ → ℕ → Type 0
IsOther first c = (is_end c ≡ false) × ((c == first) ≡ false)

one_round :
    (left : ℕ) (str key : Memory) (i kp : ℕ) (next : ℕ × ℕ × Bool)
    → is_end (str i) ≡ false
    → look_at str key i kp ≡ next
    → find_key (suc left) str key i kp
      ≡ (if next.2 then (next.0, true) else find_key left str key (next.0) (next.1))
unfolding find_key
one_round left str key i kp next e q =
    let n = look_at str key i kp in
    ap
      (λ t.
        if t then (i, false) else if n.2 then (n.0, true) else find_key left str key (n.0) (n.1))
      e
    ∙ ap (λ n'. if n'.2 then (n'.0, true) else find_key left str key (n'.0) (n'.1)) q

look_other :
    (str key : Memory) (i kp : ℕ)
    → (str i == key kp) ≡ false
    → look_at str key i kp ≡ (i + 1, 0, false)
unfolding look_at
look_other str key i kp e =
    ap
      (λ t.
        if t
        then (if key (kp + 1) == 0 then (i + 2, 0, str (i + 1) == 0x3d) else (i + 1, kp + 1, false))
        else (i + 1, 0, false))
      e

look_same :
    (str key : Memory) (i kp : ℕ) (t t' : Bool)
    → (str i == key kp) ≡ true
    → (key (kp + 1) == 0) ≡ t
    → (str (i + 1) == 0x3d) ≡ t'
    → look_at str key i kp ≡ (if t then (i + 2, 0, t') else (i + 1, kp + 1, false))
unfolding look_at
look_same str key i kp t t' e q q' =
    ap
      (λ b.
        if b
        then (if key (kp + 1) == 0 then (i + 2, 0, str (i + 1) == 0x3d) else (i + 1, kp + 1, false))
        else (i + 1, 0, false))
      e
    ∙ ap (λ b. if b then (i + 2, 0, str (i + 1) == 0x3d) else (i + 1, kp + 1, false)) q
    ∙ ap (λ b. if t then (i + 2, 0, b) else (i + 1, kp + 1, false)) q'

skip_prefix :
    (rounds : ℕ) (str key : Memory) (i : ℕ) (xs : List ℕ)
    → Holds str i xs
    → All (IsOther (key 0)) xs
    → length xs ≤ rounds
    → find_key rounds str key i 0 ≡ find_key (rounds - length xs) str key (i + length xs) 0
skip_prefix rounds str key i [] h a le =
    ap (λ r. find_key r str key i 0) (omega arith)
    ∙ ap (λ j. find_key (rounds - 0) str key j 0) (omega arith)
skip_prefix zero str key i (x ∷ xs) h a le = absurd (omega arith)
skip_prefix (suc left) str key i (x ∷ xs) (h, h') ((a, b), c) le =
    one_round left str key i 0 (i + 1, 0, false) (ap is_end h ∙ a)
      (look_other str key i 0 (ap (λ y. y == key 0) h ∙ b))
    ∙ skip_prefix left str key (i + 1) xs h' c (omega arith)
    ∙ ap (λ r. find_key r str key (i + 1 + length xs) 0) (omega arith)
    ∙ ap (λ j. find_key (suc left - suc (length xs)) str key j 0) (omega arith)

find_key_lem :
    (rounds : ℕ) (str key : Memory) (i kp k : ℕ) (ks : List ℕ)
    → Holds str i (k ∷ ks ++ 0x3d ∷ [])
    → Holds key kp (k ∷ ks ++ 0 ∷ [])
    → All (λ c. is_end c ≡ false) (k ∷ ks)
    → length ks < rounds
    → find_key rounds str key i kp ≡ (i + length ks + 2, true)
find_key_lem zero str key i kp k ks h g a lt = absurd (omega arith)
find_key_lem (suc left) str key i kp k [] (h, (h', h'')) (g, (g', g'')) (a, a') lt =
    one_round left str key i kp (i + 2, 0, true) (ap is_end h ∙ a)
      (look_same str key i kp true true (ground (arith, h, g)) (ground (arith, g'))
        (ground (arith, h')))
    ∙ ap (λ j. (j, true)) (omega arith)
find_key_lem (suc left) str key i kp k (x ∷ xs) (h, h') (g, g') (a, a') lt =
    let more : (key (kp + 1) == 0) ≡ false = ground (arith, g'.0, a'.0) in
    one_round left str key i kp (i + 1, kp + 1, false) (ap is_end h ∙ a)
      (look_same str key i kp false (str (i + 1) == 0x3d) (ground (arith, h, g)) more refl)
    ∙ find_key_lem left str key (i + 1) (kp + 1) x xs h' g' a' (omega arith)
    ∙ ap (λ j. (j, true)) (omega arith)

-- findKeyVal finds the value behind a key and an equals sign: its length is the result, and the
-- buffer holds it with a 0 behind it; where the first character of the key does not stand before
-- the key, no space, end of line or end of text stands before the equals sign, the value fits,
-- and there are rounds for the characters before the equals sign.
pub find_key_val_lem :
    (rounds maxlen : ℕ) (str strbuf key : Memory) (before : List ℕ) (k : ℕ) (ks value : List ℕ)
    (e : ℕ)
    → Holds str 0 (before ++ ((k ∷ ks ++ 0x3d ∷ []) ++ (value ++ e ∷ [])))
    → Holds key 0 (k ∷ ks ++ 0 ∷ [])
    → All (IsOther (key 0)) before
    → All (λ c. is_end c ≡ false) (k ∷ ks)
    → All IsInside value
    → (is_end e || e == 0x26) ≡ true
    → length before + length ks < rounds
    → length value < maxlen
    → (m : Memory) × (find_key_val rounds str strbuf maxlen key ≡ (m, length value))
      × Holds m 0 (value ++ 0 ∷ [])
unfolding find_key_val
find_key_val_lem rounds maxlen str strbuf key before k ks value e h g o a v s lt fits =
    let n = length value in
    let (h1, h2) = Holds-append str 0 before ((k ∷ ks ++ 0x3d ∷ []) ++ (value ++ e ∷ [])) h in
    let (hk, hv) =
      Holds-append str (0 + length before) (k ∷ ks ++ 0x3d ∷ []) (value ++ e ∷ []) h2 in
    let place = 0 + length before + length ks + 2 in
    let found : find_key rounds str key 0 0 ≡ (place, true) =
      skip_prefix rounds str key 0 before h1 o (omega arith)
      ∙ find_key_lem (rounds - length before) str key (0 + length before) 0 k ks hk g a
          (omega arith) in
    let there : Holds str place (value ++ e ∷ []) =
      subst (λ i. Holds str i (value ++ e ∷ [])) (omega (arith, length-append ks (0x3d ∷ []))) hv in
    let (m, q, mv, old) =
      copy_value_lem (maxlen - 1) str place strbuf 0 value e there v s (omega arith) in
    let ended = write m n 0 in
    (
      ended,
      ap (λ r. if r.1 then ended_at (copy_value (maxlen - 1) str (r.0) strbuf 0) else (strbuf, 0))
            found
          ∙ ap ended_at (q ∙ ap (λ j. (m, j)) (omega arith)),
      Holds-join ended 0 value (0 ∷ [])
          (Holds-ext m ended 0 value (λ j le lt'. sym (write_ne m n j 0 (omega arith))) mv)
          (ap ended (omega arith) ∙ write_self m n 0, tt),
    )
  where
    ended_at : Memory × ℕ → Memory × ℕ
    ended_at c = (write (c.0) (c.1) 0, c.1)
