-- ===== src/Sketch/Lights/Laws.antt =====
-- The bits of `state` and the pins.
use ether_house.Base.{
  ℕ, zero, suc, ◌+◌, ◌≤◌, ◌<◌, ◌-◌, ltb, leb, ◌≡◌, refl, Bool, true, false, ◌&&◌, ◌⊎◌, ◌==◌,
  if◌then◌else◌, Memory, write, arith, all_below, all_below_sound,
}
use ether_house.Sketch.{Sketch, num_houses}
use ether_house.Sketch.Lights.{bit_read, bit_write, level, sync_from, sync_leds}

agree : Bool → Bool → Bool
agree true b = b
agree false true = false
agree false false = true

agree_sound : (a b : Bool) → agree a b ≡ true → a ≡ b
unfolding agree
agree_sound true true h = refl
agree_sound true false h = ground arith
agree_sound false true h = ground arith
agree_sound false false h = refl

-- The law of bitWrite at one value and two bits, as a test.
written_well : Bool → ℕ → ℕ → ℕ → Bool
unfolding agree bit_read bit_write
written_well v j i s = agree (bit_read (bit_write s i v) j) (if i == j then v else bit_read s j)

written_well_table :
    (v : Bool)
    → all_below 8 (λ j. all_below 8 (λ i. all_below 256 (λ s. written_well v j i s))) ≡ true
unfolding all_below written_well
written_well_table true = refl
written_well_table false = refl

-- Writing a bit of a byte sets that bit and keeps the seven others.
pub bit_read-bit_write :
    (s i j : ℕ) (v : Bool)
    → s < 256
    → i < 8
    → j < 8
    → bit_read (bit_write s i v) j ≡ (if i == j then v else bit_read s j)
bit_read-bit_write s i j v hs hi hj = agree_sound _ _ (unfold written_well in at_s)
  where
    at_j : all_below 8 (λ i. all_below 256 (λ s. written_well v j i s)) ≡ true
    at_j = all_below_sound 8 _ j (written_well_table v) hj

    at_i : all_below 256 (λ s. written_well v j i s) ≡ true
    at_i = all_below_sound 8 _ i at_j hi

    at_s : written_well v j i s ≡ true
    at_s = all_below_sound 256 _ s at_i hs

-- A byte stays a byte.
pub bit_write-lt : (s i : ℕ) (v : Bool) → s < 256 → bit_write s i v < 256
unfolding bit_write
bit_write-lt s i true h = omega arith
bit_write-lt s i false h = omega arith

-- What n rounds from house i leave in pin k.
sync_from_lem :
    (n i state : ℕ) (pins : Memory) (k : ℕ)
    → sync_from n i state pins k
      ≡ (if leb (i + 2) k && ltb k (i + n + 2) then level (bit_read state (k - 2)) else pins k)
unfolding sync_from
sync_from_lem zero i state pins k = ground arith
sync_from_lem (suc n) i state pins k =
    ground (arith, sync_from_lem n (i + 1) state (write pins (i + 2) (level (bit_read state i))) k)

-- Pin i + 2 shows bit i of `state`, for each house i.
abbrev pub Shows : Sketch → Type 0
Shows s = (i : ℕ) → i < num_houses → s.pins (i + 2) ≡ level (bit_read s.state i)

-- After sync_leds the eight pins from 2 on show the eight bits of `state`, and every other pin is
-- as it was.
pub sync_leds-Shows :
    (s : Sketch)
    → Shows (sync_leds s) × ((k : ℕ) → (k < 2) ⊎ (10 ≤ k) → (sync_leds s).pins k ≡ s.pins k)
unfolding sync_leds
sync_leds-Shows s = (
  λ i h. ground (arith, sync_from_lem num_houses 0 s.state s.pins (i + 2)),
  λ k h. ground (arith, sync_from_lem num_houses 0 s.state s.pins k),
)
