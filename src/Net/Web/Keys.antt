-- ===== src/Net/Web/Keys.antt =====
-- findKeyVal of webutil.cpp: the value of a key in a text like q?xyz=abc&uvw=defgh HTTP/1.1.
use ether_house.Base.{
  ℕ, zero, suc, ◌+◌, ◌-◌, ◌==◌, ◌||◌, Bool, true, false, if◌then◌else◌, Memory, write,
}

abbrev pub is_end : ℕ → Bool
is_end c = c == 0 || c == 0x20 || c == 0x0a

-- One round of the search: the next place in the text, the next one in the key, and `found`.
unfoldable pub look_at : Memory → Memory → ℕ → ℕ → ℕ × ℕ × Bool
look_at str key i kp =
    if str i == key kp
    then (if key (kp + 1) == 0 then (i + 2, 0, str (i + 1) == 0x3d) else (i + 1, kp + 1, false))
    else (i + 1, 0, false)

-- The search from place i of the text and kp of the key, with the rounds left.
unfoldable pub find_key : ℕ → Memory → Memory → ℕ → ℕ → ℕ × Bool
find_key zero str key i kp = (i, false)
find_key (suc left) str key i kp =
    let next = look_at str key i kp in
    let rest = find_key left str key (next.0) (next.1) in
    if is_end (str i) then (i, false) else if next.2 then (next.0, true) else rest

-- The copy of the value, with the rounds left: what stands in strbuf, and the length.
unfoldable pub copy_value : ℕ → Memory → ℕ → Memory → ℕ → Memory × ℕ
copy_value zero str k strbuf i = (strbuf, i)
copy_value (suc left) str k strbuf i =
    let rest = copy_value left str (k + 1) (write strbuf i (str k)) (i + 1) in
    if is_end (str k) || str k == 0x26 then (strbuf, i) else rest

-- The copy has a round for each byte but one of strbuf.
unfoldable pub find_key_val : ℕ → Memory → Memory → ℕ → Memory → Memory × ℕ
find_key_val rounds str strbuf maxlen key =
    let at_key = find_key rounds str key 0 0 in
    let copied = copy_value (maxlen - 1) str (at_key.0) strbuf 0 in
    if at_key.1 then (write (copied.0) (copied.1) 0, copied.1) else (strbuf, 0)
