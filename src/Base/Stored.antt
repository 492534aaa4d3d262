-- ===== src/Base/Stored.antt =====
-- What a memory holds from an address on.
use Prim.Native.Nat.{ℕ, zero, suc, ◌+◌, ◌-◌, ◌<◌, ◌≤◌}
use mathlib.Core.Path.{◌≡◌, ap, subst}
use mathlib.Core.List.{List, [], ◌∷◌, ◌++◌}
use native.Mathlib.Omega.{arith}
use ether_house.Base.Lists.{length, get_or}
use ether_house.Base.Ram.{Memory, store}
use ether_house.Base.Addresses.{Ip, ip_at, octets}

-- The memory holds the bytes from `i` on.
abbrev pub Holds : Memory → ℕ → List ℕ → Type 0
Holds m i [] = Unit
Holds m i (x ∷ xs) = (m i ≡ x) × Holds m (i + 1) xs

pub Holds-append :
    (m : Memory) (i : ℕ) (xs ys : List ℕ)
    → Holds m i (xs ++ ys)
    → Holds m i xs × Holds m (i + length xs) ys
Holds-append m i [] ys h = (tt, subst (λ j. Holds m j ys) (omega arith) h)
Holds-append m i (x ∷ xs) ys (e, h) =
    let (first, second) = Holds-append m (i + 1) xs ys h in
    ((e, first), subst (λ j. Holds m j ys) (omega arith) second)

pub Holds-join :
    (m : Memory) (i : ℕ) (xs ys : List ℕ)
    → Holds m i xs
    → Holds m (i + length xs) ys
    → Holds m i (xs ++ ys)
Holds-join m i [] ys h h' = subst (λ j. Holds m j ys) (omega arith) h'
Holds-join m i (x ∷ xs) ys (e, h) h' =
    (e, Holds-join m (i + 1) xs ys h (subst (λ j. Holds m j ys) (omega arith) h'))

get_or-suc : (x : ℕ) (xs : List ℕ) (k : ℕ) → 1 ≤ k → get_or (x ∷ xs) k 0 ≡ get_or xs (k - 1) 0
get_or-suc x xs zero h = absurd (omega arith)
get_or-suc x xs (suc k) h = ap (λ i. get_or xs i 0) (omega arith)

pub Holds-ext :
    (m m' : Memory) (i : ℕ) (xs : List ℕ)
    → ((j : ℕ) → i ≤ j → j < i + length xs → m j ≡ m' j)
    → Holds m i xs
    → Holds m' i xs
Holds-ext m m' i [] e h = tt
Holds-ext m m' i (x ∷ xs) e (h, rest) = (
  ground (arith, e i, h),
  Holds-ext m m' (i + 1) xs (λ j l g. e j (omega arith) (omega arith)) rest,
)

less : (i j : ℕ) → j - i - 1 ≡ j - (i + 1)
less i j = omega arith

pub Holds-store : (m : Memory) (i : ℕ) (xs : List ℕ) → Holds (store m i xs (length xs)) i xs
Holds-store m i [] = tt
Holds-store m i (x ∷ xs) = (
  ground arith,
  Holds-ext (store m (i + 1) xs (length xs)) (store m i (x ∷ xs) (length (x ∷ xs))) (i + 1) xs
      (λ j l g. ground (arith, get_or-suc x xs (j - i), ap (λ k. get_or xs k 0) (less i j)))
      (Holds-store m (i + 1) xs),
)

pub ip_at_held :
    (m : Memory) (i : ℕ) (a : Ip) (more : List ℕ) → Holds m i (octets a ++ more) → ip_at m i ≡ a
ip_at_held m i a more (e0, (e1, (e2, (e3, h)))) = ground (arith, e0, e1, e2, e3)
