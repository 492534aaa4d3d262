-- ===== src/Stash/Blocks.antt =====
-- The map of the free blocks: Stash::allocBlock, freeBlock, initMap and freeCount.
use ether_house.Base.{
  ℕ, zero, suc, ◌+◌, ◌*◌, ◌/◌, ◌^◌, ◌==◌, ltb, bit_and, not, if◌then◌else◌, Option, some, none,
  Memory, write, u8, true, false,
}
use ether_house.Sketch.Lights.{bit_read, bit_write}

-- The loop over the bits of a byte, from bit j.
unfoldable pub first_bit : ℕ → ℕ → ℕ → Option ℕ
first_bit zero byte j = none
first_bit (suc left) byte j =
    let rest = first_bit left byte (j + 1) in if bit_read byte j then some j else rest

-- The loop over the bytes, from byte i: the byte and the bit.
unfoldable pub first_free : ℕ → Memory → ℕ → Option (ℕ × ℕ)
first_free zero map i = none
first_free (suc left) map i =
    let rest = first_free left map (i + 1) in
    if not (map i == 0)
    then elim (first_bit 8 (map i) 0) [ some j ↦ some (i, j) | none ↦ rest ]
    else rest

-- The block and the map, or 0 if none is free.
unfoldable pub alloc_block : Memory → ℕ × Memory
alloc_block map = elim (first_free 32 map 0) [
  | some p ↦ (u8 (p.0 * 2 ^ 3 + p.1), write map (p.0) (bit_write (map (p.0)) (p.1) false))
  | none ↦ (0, map)
]

unfoldable pub free_block : ℕ → Memory → Memory
free_block block map =
    write map (block / 2 ^ 3) (bit_write (map (block / 2 ^ 3)) (bit_and block 7) true)

-- while (--last > 0), with the rounds left; 0 wraps around to 255.
unfoldable pub init_map : ℕ → ℕ → Memory → Memory
init_map zero last map = map
init_map (suc left) last map =
    let next = u8 (last + 255) in
    let rest = init_map left next (free_block next map) in if ltb 0 next then rest else map

-- The bits from 0x80 down, in a byte.
unfoldable pub count_bits : ℕ → ℕ → ℕ → ℕ
count_bits zero byte count = count
count_bits (suc left) byte count =
    count_bits left byte (if not (bit_and byte (2 ^ left) == 0) then u8 (count + 1) else count)

unfoldable pub free_count_from : ℕ → Memory → ℕ → ℕ → ℕ
free_count_from zero map i count = count
free_count_from (suc left) map i count =
    free_count_from left map (i + 1) (count_bits 8 (map i) count)

unfoldable pub free_count : Memory → ℕ
free_count map = free_count_from 32 map 0 0
