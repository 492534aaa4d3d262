-- ===== src/Http/Laws.antt =====
-- What is_200 and find_response answer.
use native.Mathlib.Decide.{ℕ_discrete}
use ether_house.Base.{
  ℕ, zero, suc, ◌+◌, ◌-◌, ◌≤◌, ◌<◌, ◌≡◌, ◌∙◌, true, false, some, Memory, arith, Bool-cases, inl,
  inr, ◌↔◌, ap,
}
use ether_house.Http.{delimiter, ok_words, matches, is_200_from, is_200, find_from, find_response}

module _ (m : Memory) (h : ℕ) where
  -- The words stand at some position that leaves a byte behind them.
  abbrev pub SaysOk : ℕ → Type 0
  SaysOk len = (i : ℕ) × (i + 6 < len) × (matches m (h + i) ok_words ≡ true)

  -- `k` is where the body starts: behind the first delimiter, inside the text, in a text that says
  -- "200 OK".
  pub record IsBody (len k : ℕ) : Type 0 where
    pub behind : 4 ≤ k
    pub inside : k < len
    pub delimited : matches m (h + (k - 4)) delimiter ≡ true
    pub first : (j : ℕ) → j < k - 4 → matches m (h + j) delimiter ≡ false
    pub says_ok : SaysOk len

  is_200_from_found :
      (left i j : ℕ)
      → i ≤ j
      → j < i + left
      → matches m (h + j) ok_words ≡ true
      → is_200_from m h left i ≡ true
  unfolding is_200_from
  is_200_from_found zero i j lo hi e = absurd (omega arith)
  is_200_from_found (suc left) i j lo hi e =
      ground (arith, is_200_from_found left (i + 1) j, ap (λ (x : ℕ). matches m (h + x) ok_words))

  is_200_from_some :
      (left i : ℕ)
      → is_200_from m h left i ≡ true
      → (j : ℕ) × (j < i + left) × (matches m (h + j) ok_words ≡ true)
  unfolding is_200_from
  is_200_from_some zero i e = absurd (cc)
  is_200_from_some (suc left) i e = elim (Bool-cases (matches m (h + i) ok_words)) [
    | inl here ↦ (i, omega arith, here)
    | inr no_match ↦
        let (j, hi, found) = is_200_from_some left (i + 1) (rw no_match at e) in
        (j, omega arith, found)
  ]

  -- is_200 answers whether the words stand anywhere in the text.
  pub is_200_iff : (len : ℕ) → (is_200 m h len ≡ true) ↔ SaysOk len
  unfolding is_200
  is_200_iff len = (
    λ e. let (i, hi, found) = is_200_from_some (len - 6) 0 e in (i, omega arith, found),
    λ (i, hi, found). is_200_from_found (len - 6) 0 i (omega arith) (omega arith) found,
  )

  -- The loop stops at the first delimiter of its range.
  find_from-some :
      (len left i k : ℕ)
      → find_from m h len left i ≡ some k
      → (d : ℕ) × (k ≡ d + 4)
        × (i ≤ d)
        × (d < i + left)
        × (matches m (h + d) delimiter ≡ true)
        × ((j : ℕ) → i ≤ j → j < d → matches m (h + j) delimiter ≡ false)
        × (is_200 m h len ≡ true)
  unfolding find_from
  find_from-some len zero i k e = absurd (cc)
  find_from-some len (suc left) i k e = elim (Bool-cases (matches m (h + i) delimiter)) [
    | inl here ↦ (
      i,
      ground arith,
      omega arith,
      omega arith,
      here,
      λ j lo hi. absurd (omega arith),
      ground arith,
    )
    | inr no_match ↦
        let (d, at, lo, hi, found, first, ok) = find_from-some len left (i + 1) k (ground arith) in
        (
          d,
          at,
          omega arith,
          omega arith,
          found,
          λ j l u. elim (ℕ_discrete j i) [
            | yes here ↦ rw here no_match
            | no later ↦ first j (omega arith) u
          ],
          ok,
        )
  ]

  -- A delimiter in the range, with none before it, is where the loop decides.
  find_from_first :
      (len left i d : ℕ)
      → i ≤ d
      → d < i + left
      → matches m (h + d) delimiter ≡ true
      → ((j : ℕ) → i ≤ j → j < d → matches m (h + j) delimiter ≡ false)
      → is_200 m h len ≡ true
      → find_from m h len left i ≡ some (d + 4)
  unfolding find_from
  find_from_first len zero i d lo hi found first ok = absurd (omega arith)
  find_from_first len (suc left) i d lo hi found first ok = elim (ℕ_discrete i d) [
    | yes here ↦ ground (arith, ap (λ (x : ℕ). matches m (h + x) delimiter) here)
    | no later ↦ ground (
      arith,
      first i,
      find_from_first len left (i + 1) d (omega arith) (omega arith) found
          (λ j l u. first j (omega arith) u) ok,
    )
  ]

  -- find_response gives `k` exactly when a body starts at `k`.
  pub find_response_iff : (len k : ℕ) → (find_response m h len ≡ some k) ↔ IsBody len k
  unfolding find_response
  find_response_iff len k = (there, back)
    where
      there : find_from m h len (len - 4) 0 ≡ some k → IsBody len k
      there e =
          let (d, at, lo, hi, found, first, ok) = find_from-some len (len - 4) 0 k e in
          let back_at : k - 4 ≡ d = omega arith in
          record {
            behind = omega arith;
            inside = omega arith;
            delimited = rw back_at found;
            first = λ j u. first j (omega arith) (omega arith);
            says_ok = (is_200_iff len).0 ok;
          }

      back : IsBody len k → find_from m h len (len - 4) 0 ≡ some k
      back b =
          let fits : k - 4 + 4 ≡ k = omega (arith, b.behind) in
          find_from_first len (len - 4) 0 (k - 4) (omega arith) (omega (arith, b.behind, b.inside))
            b.delimited (λ j l u. b.first j u) ((is_200_iff len).1 b.says_ok)
          ∙ ap some fits
