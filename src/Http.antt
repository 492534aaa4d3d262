-- ===== src/Http.antt =====
-- find_response and is_200 of client_firmware/api_client.ino: where the body of a HTTP response
-- starts. A `uint8_t *` is an offset into the memory; the lengths are at most the 500 bytes of the
-- buffer, so that `int` holds them.
pub mod Laws
use ether_house.Base.{
  ℕ, zero, suc, ◌+◌, ◌-◌, Bool, true, false, ◌&&◌, ◌==◌, if◌then◌else◌, Option, none, some, List,
  [], ◌∷◌, Memory,
}

-- "\r\n\r\n", without the terminating zero.
abbrev pub delimiter : List ℕ
delimiter = 13 ∷ 10 ∷ 13 ∷ 10 ∷ []

-- "200 OK".
abbrev pub ok_words : List ℕ
ok_words = b'2' ∷ b'0' ∷ b'0' ∷ b' ' ∷ b'O' ∷ b'K' ∷ []

-- memcmp_P(m + i, needle, length needle) == 0.
unfoldable pub matches : Memory → ℕ → List ℕ → Bool
matches m i [] = true
matches m i (x ∷ xs) = m i == x && matches m (i + 1) xs

module _ (m : Memory) (haystack : ℕ) where
  -- The loop of is_200 at i, with the rounds left.
  unfoldable pub is_200_from : ℕ → ℕ → Bool
  is_200_from zero i = false
  is_200_from (suc left) i =
      if matches m (haystack + i) ok_words then true else is_200_from left (i + 1)

  -- `length - needle_length` is negative for a short text; the loop then makes no round.
  unfoldable pub is_200 : ℕ → Bool
  is_200 len = is_200_from (len - 6) 0

  -- The loop of find_response at i; `none` is its -1.
  unfoldable pub find_from : ℕ → ℕ → ℕ → Option ℕ
  find_from len zero i = none
  find_from len (suc left) i =
      if matches m (haystack + i) delimiter
      then if is_200 len then some (i + 4) else none
      else find_from len left (i + 1)

  unfoldable pub find_response : ℕ → Option ℕ
  find_response len = find_from len (len - 4) 0
