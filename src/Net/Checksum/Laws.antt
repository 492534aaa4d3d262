-- ===== src/Net/Checksum/Laws.antt =====
-- The checksum that fill_checksum leaves is right.
use ether_house.Base.{
  ℕ, zero, suc, ◌+◌, ◌*◌, ◌/◌, ◌%◌, ◌^◌, ◌≤◌, ◌<◌, ◌≡◌, ◌≢◌, refl, ap, Memory, write, u8, u16, u32,
  arith, IsBytes, ◌∙◌, subst, sym,
}
use ether_house.Base.Bits.{bit_or_low_field}
use ether_house.Net.Checksum.{
  initial_sum, word_at, sum_words, fold_carries, checksum, fill_checksum,
}

-- The plain sum of the big-endian words, with nothing cut off.
abbrev pub word_sum : Memory → ℕ → ℕ → ℕ
word_sum m ptr zero = 0
word_sum m ptr (suc zero) = m ptr * 256
word_sum m ptr (suc (suc len)) = m ptr * 256 + m (ptr + 1) + word_sum m (ptr + 2) len

word_at_lem : (m : Memory) (ptr : ℕ) → IsBytes m → word_at m ptr ≡ m ptr * 256 + m (ptr + 1)
unfolding word_at
word_at_lem m ptr b = ground (arith, b ptr, b (ptr + 1), bit_or_low_field 8 (m ptr) (m (ptr + 1)))

word_sum-le : (m : Memory) (ptr len : ℕ) → IsBytes m → word_sum m ptr len ≤ len * 2 ^ 16
word_sum-le m ptr zero b = omega arith
word_sum-le m ptr (suc zero) b = omega (arith, b ptr)
word_sum-le m ptr (suc (suc len)) b =
    omega (arith, b ptr, b (ptr + 1), word_sum-le m (ptr + 2) len b)

-- No carry is lost from the 32-bit sum.
sum_words_lem :
    (m : Memory) (sum ptr len : ℕ)
    → IsBytes m
    → sum + len * 2 ^ 16 < 2 ^ 32
    → sum_words m sum ptr len ≡ sum + word_sum m ptr len
unfolding sum_words
sum_words_lem m sum ptr zero b h = omega arith
sum_words_lem m sum ptr (suc zero) b h = omega (arith, b ptr)
sum_words_lem m sum ptr (suc (suc len)) b h = ground (
  arith,
  b ptr,
  b (ptr + 1),
  word_at_lem m ptr b,
  sum_words_lem m (u32 (sum + word_at m ptr)) (ptr + 2) len b,
)

-- Adding the carries in keeps the sum modulo 2 ^ 16 - 1.
fold_carries_mod :
    (fuel sum : ℕ)
    → (fold_carries fuel sum % 65535 ≡ sum % 65535) × (0 < sum → 0 < fold_carries fuel sum)
unfolding fold_carries
fold_carries_mod zero sum = (refl, λ h. h)
fold_carries_mod (suc fuel) sum = ground (arith, fold_carries_mod fuel (u16 sum + sum / 2 ^ 16))

fold_carries_done : (fuel sum : ℕ) → sum < 2 ^ 16 → fold_carries fuel sum ≡ sum
unfolding fold_carries
fold_carries_done zero sum h = refl
fold_carries_done (suc fuel) sum h = ground arith

fold_carries_round :
    (fuel sum : ℕ) → fold_carries (suc fuel) sum ≡ fold_carries fuel (u16 sum + sum / 2 ^ 16)
unfolding fold_carries
fold_carries_round fuel sum = ground (arith, fold_carries_done fuel sum)

-- Three rounds suffice for a 32-bit sum, and the result has 16 bits.
fold_carries-lt : (sum : ℕ) → sum < 2 ^ 32 → fold_carries 3 sum < 2 ^ 16
fold_carries-lt sum h =
    omega (arith, fold_carries_round 2 sum, fold_carries_round 1 once, fold_carries_done 1 twice)
  where
    once : ℕ
    once = sum % 2 ^ 16 + sum / 2 ^ 16

    twice : ℕ
    twice = once % 2 ^ 16 + once / 2 ^ 16

-- The sum looks at its range only.
pub word_sum_ext :
    (m m' : Memory) (ptr len : ℕ)
    → ((j : ℕ) → ptr ≤ j → j < ptr + len → m j ≡ m' j)
    → word_sum m ptr len ≡ word_sum m' ptr len
word_sum_ext m m' ptr zero h = refl
word_sum_ext m m' ptr (suc zero) h = omega (arith, h ptr (omega arith) (omega arith))
word_sum_ext m m' ptr (suc (suc len)) h = omega (
  arith,
  h ptr (omega arith) (omega arith),
  h (ptr + 1) (omega arith) (omega arith),
  word_sum_ext m m' (ptr + 2) len (λ j l u. h j (omega arith) (omega arith)),
)

-- Writing a word at an even distance from the start changes the sum as it changes that word.
pub word_sum-write :
    (m : Memory) (ptr len dest hi lo k : ℕ)
    → dest ≡ ptr + 2 * k
    → 2 * k + 2 ≤ len
    → word_sum (write (write m dest hi) (dest + 1) lo) ptr len + (m dest * 256 + m (dest + 1))
      ≡ word_sum m ptr len + (hi * 256 + lo)
word_sum-write m ptr zero dest hi lo k e fits = absurd (omega arith)
word_sum-write m ptr (suc zero) dest hi lo k e fits = absurd (omega arith)
word_sum-write m ptr (suc (suc len)) dest hi lo zero e fits =
    let here : dest ≡ ptr = omega arith in
    ground (
      arith,
      here,
      ap m here,
      ap (λ (x : ℕ). m (x + 1)) here,
      word_sum_ext (write (write m dest hi) (dest + 1) lo) m (ptr + 2) len (λ j l u. ground arith),
    )
word_sum-write m ptr (suc (suc len)) dest hi lo (suc k) e fits =
    ground (arith, word_sum-write m (ptr + 2) len dest hi lo k (omega arith) (omega arith))

-- What a receiver checks: the words, with the pseudo header's part, add up to a multiple of
-- 2 ^ 16 - 1 that is not 0, so that their folded sum is 0xffff.
abbrev pub IsChecked : Memory → ℕ → ℕ → ℕ → Type 0
IsChecked m off len kind =
    ((initial_sum kind len + word_sum m off len) % 65535 ≡ 0)
    × (0 < initial_sum kind len + word_sum m off len)

initial_sum-lt : (kind len : ℕ) → initial_sum kind len < 2 ^ 16
unfolding initial_sum
initial_sum-lt kind len = ground arith

-- The checksum completes the sum.
checksum_lem :
    (m : Memory) (off len kind : ℕ)
    → IsBytes m
    → len < 2 ^ 15
    → let sum = initial_sum kind len + word_sum m off len in
      (checksum m off len kind < 2 ^ 16)
      × ((sum + checksum m off len kind) % 65535 ≡ 0)
      × (0 < sum + checksum m off len kind)
unfolding checksum
checksum_lem m off len kind b short = (
  omega arith,
  omega (arith, exact, fold_carries-lt sum small, fold_carries_mod 3 sum),
  ground (arith, exact, fold_carries_done 3 sum),
)
  where
    sum : ℕ
    sum = initial_sum kind len + word_sum m off len

    small : sum < 2 ^ 32
    small = omega (arith, initial_sum-lt kind len, word_sum-le m off len b)

    exact : fold_carries 3 (sum_words m (initial_sum kind len) off len) ≡ fold_carries 3 sum
    exact =
        ap (fold_carries 3) (
          sum_words_lem m (initial_sum kind len) off len b (omega (arith, initial_sum-lt kind len)))

-- An area that checks does so in every buffer that holds the same bytes there.
pub IsChecked-ext :
    (m m' : Memory) (off len kind : ℕ)
    → ((j : ℕ) → off ≤ j → j < off + len → m j ≡ m' j)
    → IsChecked m off len kind
    → IsChecked m' off len kind
IsChecked-ext m m' off len kind h c = omega (arith, word_sum_ext m m' off len h)

abbrev filled : ℕ → ℕ → ℕ → ℕ → Memory → Memory
filled dest off len kind m =
    let ck = checksum m off len kind in write (write m dest (ck / 2 ^ 8)) (dest + 1) (u8 ck)

fill_checksum_lem :
    (dest off len kind : ℕ) (m : Memory)
    → dest < 2 ^ 8
    → off < 2 ^ 8
    → fill_checksum dest off len kind m ≡ filled dest off len kind m
unfolding fill_checksum
fill_checksum_lem dest off len kind m d o =
    ap
      (λ x.
        let ck = checksum m x len kind in
        write (write m (u8 dest) (ck / 2 ^ 8)) (u8 dest + 1) (u8 ck))
      (omega (arith, o))
    ∙ ap (λ x. let ck = checksum m off len kind in write (write m x (ck / 2 ^ 8)) (x + 1) (u8 ck))
        (omega (arith, d))

filled-IsChecked :
    (m : Memory) (off len kind k : ℕ)
    → IsBytes m
    → len < 2 ^ 15
    → 2 * k + 2 ≤ len
    → m (off + 2 * k) ≡ 0
    → m (off + 2 * k + 1) ≡ 0
    → let m' = filled (off + 2 * k) off len kind m in
      IsChecked m' off len kind
      × ((j : ℕ) → j ≢ off + 2 * k → j ≢ off + 2 * k + 1 → m' j ≡ m j)
      × IsBytes m'
filled-IsChecked m off len kind k b short fits z z' = (
  (
    omega (arith, added, checksum_lem m off len kind b short),
    omega (arith, added, checksum_lem m off len kind b short),
  ),
  λ j ne ne'. ground arith,
  λ j. ground (arith, b j, checksum_lem m off len kind b short),
)
  where
    ck : ℕ
    ck = checksum m off len kind

    added : word_sum (filled (off + 2 * k) off len kind m) off len ≡ word_sum m off len + ck
    added = omega (
      arith,
      word_sum-write m off len (off + 2 * k) (ck / 2 ^ 8) (u8 ck) k refl fits,
      checksum_lem m off len kind b short,
    )

-- fill_checksum on a zeroed field in the first 256 bytes of the buffer, at an even place inside
-- an area of less than 2^15 bytes, makes the one's complement sum of the area, with the pseudo
-- header's part, come out right; it writes only the field, and bytes stay bytes.
pub fill_checksum-IsChecked :
    (m : Memory) (off len kind k : ℕ)
    → IsBytes m
    → len < 2 ^ 15
    → 2 * k + 2 ≤ len
    → off + 2 * k < 2 ^ 8
    → m (off + 2 * k) ≡ 0
    → m (off + 2 * k + 1) ≡ 0
    → let m' = fill_checksum (off + 2 * k) off len kind m in
      IsChecked m' off len kind
      × ((j : ℕ) → j ≢ off + 2 * k → j ≢ off + 2 * k + 1 → m' j ≡ m j)
      × IsBytes m'
fill_checksum-IsChecked m off len kind k b short fits small z z' =
    subst
      (λ m'.
        IsChecked m' off len kind
        × ((j : ℕ) → j ≢ off + 2 * k → j ≢ off + 2 * k + 1 → m' j ≡ m j)
        × IsBytes m')
      (sym (fill_checksum_lem (off + 2 * k) off len kind m small (omega arith)))
      (filled-IsChecked m off len kind k b short fits z z')
