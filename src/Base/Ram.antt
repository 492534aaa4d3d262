-- ===== src/Base/Ram.antt =====
-- RAM seen from a base address: an address is an offset and a cell holds a byte.
-- A write beyond an array of the source reaches the cell behind it, as it does there; the modules
-- of the program state which offsets they write.
use Prim.Native.Nat.{ℕ, zero, suc, ◌+◌, ◌-◌, ◌%◌, ◌<◌, ◌≤◌, ◌^◌}
use mathlib.Core.Path.{◌≡◌, refl, ◌∙◌}
use mathlib.Core.List.{List, [], ◌∷◌}
use mathlib.Core.Bool.{◌&&◌}
use mathlib.Core.Logic.{◌≢◌}
use native.Mathlib.Omega.{arith}
use ether_house.Base.Tests.{ltb, leb, ◌==◌, if◌then◌else◌}
use ether_house.Base.Lists.{length, get_or, All}

abbrev pub Memory : Type 0
Memory = ℕ → ℕ

-- m[i] = v.
abbrev pub write : Memory → ℕ → ℕ → Memory
write m i v j = if i == j then v else m j

-- A row of assignments, in order.
abbrev pub writes : Memory → List (ℕ × ℕ) → Memory
writes m [] = m
writes m ((i, v) ∷ rest) = writes (write m i v) rest

-- memset(m + i, v, n).
abbrev pub fill : Memory → ℕ → ℕ → ℕ → Memory
fill m i v n j = if leb i j && ltb j (i + n) then v else m j

-- memcpy(m + i, xs, n), from an array outside the memory that has n bytes at least.
abbrev pub store : Memory → ℕ → List ℕ → ℕ → Memory
store m i xs n j = if leb i j && ltb j (i + n) then get_or xs (j - i) 0 else m j

-- memcpy(m + i, m + k, n), where the areas do not overlap.
abbrev pub move : Memory → ℕ → ℕ → ℕ → Memory
move m i k n j = if leb i j && ltb j (i + n) then m (k + (j - i)) else m j

-- The n bytes from offset i.
abbrev pub load : Memory → ℕ → ℕ → List ℕ
load m i zero = []
load m i (suc n) = m i ∷ load m (i + 1) n

-- Casts.
abbrev pub u8 : ℕ → ℕ
u8 n = n % 2 ^ 8

abbrev pub u16 : ℕ → ℕ
u16 n = n % 2 ^ 16

abbrev pub u32 : ℕ → ℕ
u32 n = n % 2 ^ 32

-- Every cell is a byte.
abbrev pub IsBytes : Memory → Type 0
IsBytes m = (i : ℕ) → m i < 256

pub length-load : (m : Memory) (i n : ℕ) → length (load m i n) ≡ n
length-load m i zero = refl
length-load m i (suc n) = omega (arith, length-load m (i + 1) n)

pub write_self : (m : Memory) (i v : ℕ) → write m i v i ≡ v
write_self m i v = ground arith

pub write_ne : (m : Memory) (i j v : ℕ) → i ≢ j → write m i v j ≡ m j
write_ne m i j v h = ground arith

-- Assignments below an address leave what stands from there on.
pub writes_far :
    (m : Memory) (l : List (ℕ × ℕ)) (k j : ℕ)
    → All (λ (a : ℕ × ℕ). a.0 < k) l
    → k ≤ j
    → writes m l j ≡ m j
writes_far m [] k j h le = refl
writes_far m ((i, v) ∷ rest) k j h le =
    writes_far (write m i v) rest k j h.1 le ∙ write_ne m i j v (ground (arith, h.0))

pub IsBytes-write : (m : Memory) (i v : ℕ) → IsBytes m → v < 256 → IsBytes (write m i v)
IsBytes-write m i v h lt j = ground (arith, h j)

pub IsBytes-writes :
    (m : Memory) (l : List (ℕ × ℕ))
    → IsBytes m
    → All (λ (a : ℕ × ℕ). a.1 < 256) l
    → IsBytes (writes m l)
IsBytes-writes m [] b h = b
IsBytes-writes m ((i, v) ∷ rest) b h =
    IsBytes-writes (write m i v) rest (IsBytes-write m i v b h.0) h.1
