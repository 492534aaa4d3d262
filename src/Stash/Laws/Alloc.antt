-- ===== src/Stash/Laws/Alloc.antt =====
-- Blocks that are taken and given back.
use ether_house.Base.{
  ℕ, zero, suc, ◌+◌, ◌*◌, ◌/◌, ◌%◌, ◌^◌, ◌<◌, ◌≤◌, ◌≡◌, refl, sym, subst, ap, ◌∙◌, arith, Bool,
  true, false, not, ◌==◌, if◌then◌else◌, Option, some, none, ◌⊎◌, inl, inr, Memory, write, u8,
  IsBytes, IsBytes-write, all_below, all_below_sound,
}
use ether_house.Sketch.Lights.{bit_read, bit_write}
use ether_house.Sketch.Lights.Laws.{bit_write-lt}
use ether_house.Stash.Blocks.{first_bit, first_free, alloc_block, free_block}
use ether_house.Stash.Laws.Bits.{
  is_free, is_free-write, is_free-free_block, FirstBit, first_bit-FirstBit,
}

zero_table : all_below 8 (λ j. not (bit_read 0 j)) ≡ true
unfolding all_below bit_read
zero_table = refl

zero_bits : (byte j : ℕ) → byte ≡ 0 → j < 8 → bit_read byte j ≡ false
zero_bits byte j e lt =
    let z : bit_read 0 j ≡ false = ground (arith, all_below_sound 8 _ j zero_table lt) in
    ap (λ b. bit_read b j) e ∙ z

-- What the loop over the bytes has found, below byte n.
abbrev FirstFree : Memory → ℕ → ℕ → Option (ℕ × ℕ) → Type 0
FirstFree map i n none = (b : ℕ) → 8 * i ≤ b → b < 8 * n → is_free map b ≡ false
FirstFree map i n (some p) =
    (i ≤ p.0)
    × (p.0 < n)
    × (p.1 < 8)
    × (bit_read (map (p.0)) (p.1) ≡ true)
    × ((b : ℕ) → 8 * i ≤ b → b < 8 * p.0 + p.1 → is_free map b ≡ false)

-- None of the bits of byte i.
in_byte_or_behind :
    (map : Memory) (i b : ℕ)
    → ((j : ℕ) → j < 8 → bit_read (map i) j ≡ false)
    → 8 * i ≤ b
    → (8 * (i + 1) ≤ b → is_free map b ≡ false)
    → is_free map b ≡ false
in_byte_or_behind map i b none_free le h = by_test (b / 8 == i) refl
  where
    by_test : (t : Bool) → (b / 8 == i) ≡ t → is_free map b ≡ false
    by_test true q =
        let here : b / 8 ≡ i = ground (arith, q) in
        ap (λ k. bit_read (map k) (b % 8)) here ∙ none_free (b % 8) (omega arith)
    by_test false q = h (ground (arith, q))

skip_byte :
    (map : Memory) (i n : ℕ) (o : Option (ℕ × ℕ))
    → ((j : ℕ) → j < 8 → bit_read (map i) j ≡ false)
    → FirstFree map (i + 1) n o
    → FirstFree map i n o
skip_byte map i n none e h = λ b le lt. in_byte_or_behind map i b e le (λ le'. h b le' lt)
skip_byte map i n (some p) e (le, lt, lt8, f, h) =
    (omega arith, lt, lt8, f, λ b le' lt'. in_byte_or_behind map i b e le' (λ le''. h b le'' lt'))

found_in_byte :
    (map : Memory) (i n : ℕ) (o : Option (ℕ × ℕ)) (q : Option ℕ)
    → i < n
    → FirstBit (map i) 0 8 q
    → FirstFree map (i + 1) n o
    → FirstFree map i n (elim q [ some j ↦ some (i, j) | none ↦ o ])
found_in_byte map i n o none lt b h = skip_byte map i n o (λ j lt'. b j (omega arith) lt') h
found_in_byte map i n o (some j) lt (le, lt8, f, before) h = (
  omega arith,
  lt,
  lt8,
  f,
  λ b le' lt'.
      let here : b / 8 ≡ i = omega arith in
      ap (λ k. bit_read (map k) (b % 8)) here ∙ before (b % 8) (omega arith) (omega (arith, here)),
)

first_free-FirstFree :
    (left : ℕ) (map : Memory) (i : ℕ) → FirstFree map i (i + left) (first_free left map i)
unfolding first_free
first_free-FirstFree zero map i = λ b le lt. absurd (omega arith)
first_free-FirstFree (suc left) map i = by_test (map i == 0) refl (
    subst (λ n. FirstFree map (i + 1) n (first_free left map (i + 1))) (omega arith)
      (first_free-FirstFree left map (i + 1)))
  where
    by_test :
        (t : Bool)
        → (map i == 0) ≡ t
        → FirstFree map (i + 1) (i + suc left) (first_free left map (i + 1))
        → FirstFree map i (i + suc left) (
            if not t
            then elim (first_bit 8 (map i) 0) [
              | some j ↦ some (i, j)
              | none ↦ first_free left map (i + 1)
            ]
            else first_free left map (i + 1))
    by_test true e h =
        skip_byte map i (i + suc left) _ (λ j lt. zero_bits (map i) j (ground (arith, e)) lt) h
    by_test false e h =
        found_in_byte map i (i + suc left) _ (first_bit 8 (map i) 0) (omega arith)
          (first_bit-FirstBit 8 (map i) 0) h

-- Every block up to here is taken.
abbrev pub TakenBelow : Memory → ℕ → Type 0
TakenBelow map n = (b : ℕ) → b < n → is_free map b ≡ false

-- A block and the map behind an allocation: 0 and the same map if all blocks are taken, or else the
-- first free block, which is taken now.
abbrev pub Allocates : Memory → ℕ × Memory → Type 0
Allocates map r =
    ((r ≡ (0, map)) × TakenBelow map 256)
    ⊎ ((r.0 < 256)
        × (is_free map (r.0) ≡ true)
        × TakenBelow map (r.0)
        × ((k : ℕ) → is_free (r.1) k ≡ (if r.0 == k then false else is_free map k)))

-- allocBlock takes the first free block and leaves every other block as it was, or answers 0 with
-- the same map if all 256 blocks are taken; for a map of bytes.
pub alloc_block-Allocates : (map : Memory) → IsBytes map → Allocates map (alloc_block map)
unfolding alloc_block
alloc_block-Allocates map h = by_search (first_free 32 map 0) (first_free-FirstFree 32 map 0)
  where
    cleared : ℕ → ℕ → Memory
    cleared i j = write map i (bit_write (map i) j false)

    by_search :
        (o : Option (ℕ × ℕ))
        → FirstFree map 0 32 o
        → Allocates map
            (elim o [ some p ↦ (u8 (p.0 * 2 ^ 3 + p.1), cleared (p.0) (p.1)) | none ↦ (0, map) ])
    by_search none f = inl (refl, λ b lt. f b (omega arith) lt)
    by_search (some p) (le, lt, lt8, f, before) =
        let blk = p.0 * 2 ^ 3 + p.1 in
        let small : u8 blk ≡ blk = omega arith in
        let byte : blk / 8 ≡ p.0 = omega arith in
        let bit : blk % 8 ≡ p.1 = omega arith in
        let was_free : is_free map blk ≡ true =
          ap (λ i. bit_read (map i) (blk % 8)) byte ∙ ap (λ j. bit_read (map (p.0)) j) bit ∙ f in
        let written : (k : ℕ)
            → is_free (cleared (p.0) (p.1)) k ≡ (if blk == k then false else is_free map k) =
          λ k.
            ap (λ i. is_free (cleared i (p.1)) k) (sym byte)
            ∙ ap (λ j. is_free (cleared (blk / 8) j) k) (sym bit)
            ∙ is_free-write map blk k false h in
        subst (λ n. Allocates map (n, cleared (p.0) (p.1))) (sym small)
          (inr (omega arith, was_free, λ b lt'. before b (omega arith) (omega arith), written))

pub alloc_block-IsBytes : (map : Memory) → IsBytes map → IsBytes ((alloc_block map).1)
unfolding alloc_block
alloc_block-IsBytes map h = by_search (first_free 32 map 0)
  where
    by_search :
        (o : Option (ℕ × ℕ))
        → IsBytes (
            (elim o as (λ _. ℕ × Memory) [
              | some p ↦
                  (u8 (p.0 * 2 ^ 3 + p.1), write map (p.0) (bit_write (map (p.0)) (p.1) false))
              | none ↦ (0, map)
            ]).1)
    by_search none = h
    by_search (some p) =
        IsBytes-write map (p.0) _ h (bit_write-lt (map (p.0)) (p.1) false (h (p.0)))

-- What was allocated is free again when it is given back, and the others are as they were.
pub free_block-alloc_block :
    (map : Memory) (b k : ℕ)
    → IsBytes map
    → b < 256
    → is_free map b ≡ true
    → is_free (free_block ((alloc_block map).0) ((alloc_block map).1)) k ≡ is_free map k
free_block-alloc_block map b k h lt f =
    by_result (alloc_block map) (alloc_block-Allocates map h) (alloc_block-IsBytes map h)
  where
    by_result :
        (r : ℕ × Memory)
        → Allocates map r
        → IsBytes (r.1)
        → is_free (free_block (r.0) (r.1)) k ≡ is_free map k
    by_result r (inl (e, taken)) bytes = absurd (ground (arith, f, taken b lt))
    by_result r (inr (small, was_free, before, written)) bytes =
        is_free-free_block (r.1) (r.0) k bytes ∙ by_test (r.0 == k) refl
      where
        by_test :
            (t : Bool) → (r.0 == k) ≡ t → (if t then true else is_free (r.1) k) ≡ is_free map k
        by_test true e = sym was_free ∙ ap (is_free map) (ground (arith, e))
        by_test false e = written k ∙ ap (λ t. if t then false else is_free map k) e
