-- ===== src/Stash/Laws/Bits.antt =====
-- The bit of a block, and the first one of a byte.
use ether_house.Base.{
  ℕ, zero, suc, ◌+◌, ◌/◌, ◌%◌, ◌<◌, ◌≤◌, ◌≡◌, refl, sym, subst, ap, ◌∙◌, arith, Bool, true, false,
  ◌==◌, if◌then◌else◌, Option, some, none, Memory, write, IsBytes,
}
use ether_house.Base.Bits.{bit_and_mask}
use ether_house.Sketch.Lights.{bit_read, bit_write}
use ether_house.Sketch.Lights.Laws.{bit_read-bit_write}
use ether_house.Stash.Blocks.{first_bit, free_block}

-- The bit of a block.
abbrev pub is_free : Memory → ℕ → Bool
is_free map block = bit_read (map (block / 8)) (block % 8)

-- Writing a block's bit.
pub is_free-write :
    (map : Memory) (block k : ℕ) (v : Bool)
    → IsBytes map
    → is_free (write map (block / 8) (bit_write (map (block / 8)) (block % 8) v)) k
      ≡ (if block == k then v else is_free map k)
is_free-write map block k v h = by_test (block / 8 == k / 8) refl
  where
    in_byte : ℕ
    in_byte = bit_write (map (block / 8)) (block % 8) v

    written :
        bit_read in_byte (k % 8)
        ≡ (if block % 8 == k % 8 then v else bit_read (map (block / 8)) (k % 8))
    written =
        bit_read-bit_write (map (block / 8)) (block % 8) (k % 8) v (h (block / 8)) (omega arith)
          (omega arith)

    at_block :
        (t : Bool)
        → (block == k) ≡ t
        → block / 8 ≡ k / 8
        → bit_read in_byte (k % 8) ≡ (if t then v else is_free map k)
    at_block true e q =
        let same_bit : (block % 8 == k % 8) ≡ true = ground (arith, e) in
        written ∙ ap (λ t. if t then v else bit_read (map (block / 8)) (k % 8)) same_bit
    at_block false e q =
        let other_bit : (block % 8 == k % 8) ≡ false = ground (arith, e, q) in
        written
        ∙ ap (λ t. if t then v else bit_read (map (block / 8)) (k % 8)) other_bit
        ∙ ap (λ b. bit_read (map b) (k % 8)) q

    by_test :
        (t : Bool)
        → (block / 8 == k / 8) ≡ t
        → bit_read (if t then in_byte else map (k / 8)) (k % 8)
          ≡ (if block == k then v else is_free map k)
    by_test true e = at_block (block == k) refl (ground (arith, e))
    by_test false e =
        let other : (block == k) ≡ false = ground (arith, e) in
        ap (λ t. if t then v else is_free map k) (sym other)

-- Freeing a block.
pub is_free-free_block :
    (map : Memory) (block k : ℕ)
    → IsBytes map
    → is_free (free_block block map) k ≡ (if block == k then true else is_free map k)
unfolding free_block
is_free-free_block map block k h =
    ap (λ b. is_free (write map (block / 8) (bit_write (map (block / 8)) b true)) k)
      (bit_and_mask 3 block)
    ∙ is_free-write map block k true h

-- What the loop over the bits has found, below bit n.
abbrev pub FirstBit : ℕ → ℕ → ℕ → Option ℕ → Type 0
FirstBit byte j n none = (i : ℕ) → j ≤ i → i < n → bit_read byte i ≡ false
FirstBit byte j n (some k) =
    (j ≤ k)
    × (k < n)
    × (bit_read byte k ≡ true)
    × ((i : ℕ) → j ≤ i → i < k → bit_read byte i ≡ false)

at_or_behind :
    (byte j i : ℕ)
    → bit_read byte j ≡ false
    → j ≤ i
    → (j + 1 ≤ i → bit_read byte i ≡ false)
    → bit_read byte i ≡ false
at_or_behind byte j i e le h = by_test (j == i) refl
  where
    by_test : (t : Bool) → (j == i) ≡ t → bit_read byte i ≡ false
    by_test true q = subst (λ k. bit_read byte k ≡ false) (ground (arith, q)) e
    by_test false q = h (ground (arith, q))

skip_bit :
    (byte j n : ℕ) (o : Option ℕ)
    → bit_read byte j ≡ false
    → FirstBit byte (j + 1) n o
    → FirstBit byte j n o
skip_bit byte j n none e h = λ i le lt. at_or_behind byte j i e le (λ le'. h i le' lt)
skip_bit byte j n (some k) e (le, lt, b, h) =
    (omega arith, lt, b, λ i le' lt'. at_or_behind byte j i e le' (λ le''. h i le'' lt'))

pub first_bit-FirstBit : (left byte j : ℕ) → FirstBit byte j (j + left) (first_bit left byte j)
unfolding first_bit
first_bit-FirstBit zero byte j = λ i le lt. absurd (omega arith)
first_bit-FirstBit (suc left) byte j = by_test (bit_read byte j) refl (
    subst (λ n. FirstBit byte (j + 1) n (first_bit left byte (j + 1))) (omega arith)
      (first_bit-FirstBit left byte (j + 1)))
  where
    by_test :
        (t : Bool)
        → bit_read byte j ≡ t
        → FirstBit byte (j + 1) (j + suc left) (first_bit left byte (j + 1))
        → FirstBit byte j (j + suc left) (if t then some j else first_bit left byte (j + 1))
    by_test true e h = (omega arith, omega arith, e, λ i le lt. absurd (omega arith))
    by_test false e h = skip_bit byte j (j + suc left) _ e h
