-- ===== src/Net/Filler/Digits.antt =====
-- The digits that wtoa of EtherCard.cpp makes.
use ether_house.Base.{
  ℕ, zero, suc, ◌+◌, ◌-◌, ◌*◌, ◌/◌, ◌%◌, ◌^◌, ◌<◌, ◌≤◌, ◌≡◌, refl, ap, ◌∙◌, Bool, true, false, ltb,
  if◌then◌else◌, List, [], ◌∷◌, ◌++◌, All, length, length-append, arith, Bool-cases, inl, inr,
}
use native.Mathlib.Nat.{pow-succ'}
use ether_house.Net.Filler.{wtoa}

-- The number that a row of decimal digits stands for, behind a number.
abbrev pub decimal : ℕ → List ℕ → ℕ
decimal front [] = front
decimal front (c ∷ rest) = decimal (front * 10 + (c - b'0')) rest

abbrev pub IsDigit : ℕ → Type 0
IsDigit c = (b'0' ≤ c) × (c ≤ b'9')

decimal-append :
    (front c : ℕ) (xs : List ℕ) → decimal front (xs ++ c ∷ []) ≡ decimal front xs * 10 + (c - b'0')
decimal-append front c [] = refl
decimal-append front c (x ∷ xs) = decimal-append (front * 10 + (x - b'0')) c xs

All-append : (c : ℕ) (xs : List ℕ) → All IsDigit xs → IsDigit c → All IsDigit (xs ++ c ∷ [])
All-append c [] h h' = (h', tt)
All-append c (x ∷ xs) (h, hs) h' = (h, All-append c xs hs h')

-- The last digit behind the others.
last-IsDigit : (value : ℕ) → IsDigit (b'0' + value % 10)
last-IsDigit value = (omega arith, omega arith)

pub wtoa-All : (calls value : ℕ) → All IsDigit (wtoa calls value)
unfolding wtoa
wtoa-All zero value = tt
wtoa-All (suc calls) value = by_test (ltb 9 value) (
    All-append (b'0' + value % 10) (wtoa calls (value / 10)) (wtoa-All calls (value / 10))
      (last-IsDigit value))
  where
    by_test :
        (t : Bool)
        → All IsDigit (wtoa calls (value / 10) ++ (b'0' + value % 10) ∷ [])
        → All IsDigit ((if t then wtoa calls (value / 10) else []) ++ (b'0' + value % 10) ∷ [])
    by_test true h = h
    by_test false h = (last-IsDigit value, tt)

pub length-wtoa : (calls value : ℕ) → length (wtoa calls value) ≤ calls
unfolding wtoa
length-wtoa zero value = omega arith
length-wtoa (suc calls) value = by_test (ltb 9 value) (length-wtoa calls (value / 10))
  where
    by_test :
        (t : Bool)
        → length (wtoa calls (value / 10)) ≤ calls
        → length ((if t then wtoa calls (value / 10) else []) ++ (b'0' + value % 10) ∷ [])
          ≤ suc calls
    by_test true h =
        omega (arith, h, length-append (wtoa calls (value / 10)) ((b'0' + value % 10) ∷ []))
    by_test false h = omega arith

tenth : (value x : ℕ) → value < 10 * x → value / 10 < x
tenth value x h = omega (arith, h)

pub decimal-wtoa : (calls value : ℕ) → value < 10 ^ calls → decimal 0 (wtoa calls value) ≡ value
unfolding wtoa
decimal-wtoa zero value h = omega (arith, h)
decimal-wtoa (suc calls) value h = elim (Bool-cases (ltb 9 value)) [
  | inl e ↦ rw e (
      decimal-append 0 (b'0' + value % 10) (wtoa calls (value / 10))
      ∙ ap (λ x. x * 10 + (b'0' + value % 10 - b'0'))
          (decimal-wtoa calls (value / 10)
            (tenth value (10 ^ calls) (omega (arith, h, pow-succ' 10 calls))))
      ∙ omega arith)
  | inr e ↦ rw e (ground (arith, e))
]

-- wtoa turns a number of 16 bits into at most five decimal digits, which stand for it.
pub wtoa_lem :
    (value : ℕ)
    → value < 2 ^ 16
    → (decimal 0 (wtoa 5 value) ≡ value) × All IsDigit (wtoa 5 value) × (length (wtoa 5 value) ≤ 5)
wtoa_lem value h = (decimal-wtoa 5 value (omega (arith, h)), wtoa-All 5 value, length-wtoa 5 value)
