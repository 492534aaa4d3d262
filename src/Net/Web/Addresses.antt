-- ===== src/Net/Web/Addresses.antt =====
-- parseIp and makeNetStr of libraries/ethercard/webutil.cpp. atoi and itoa of the C library are
-- parameters: atoi of a pointer, which may be null, and the text that itoa writes of a number in a
-- base.
pub mod Passes
pub mod Reading
pub mod Laws
use ether_house.Base.{
  ℕ, zero, suc, ◌+◌, ◌-◌, ◌^◌, bit_and, Bool, not, ◌&&◌, ◌||◌, ◌==◌, ltb, leb, if◌then◌else◌,
  Option, none, some, List, [], ◌∷◌, Memory, write, writes, u8,
}
use ether_house.Net.Filler.{put_string}

-- The variables of parseIp; `bytes` is bytestr, and `str` a place in `text`.
pub record Parsing : Type 0 where
  pub sptr : Option ℕ
  pub i : ℕ
  pub bytes : Memory
  pub text : Memory
  pub str : ℕ

abbrev pub is_digit : ℕ → Bool
is_digit c = leb b'0' c && leb c b'9'

-- sptr after a character: the first digit.
abbrev pub start_at : Option ℕ → ℕ → ℕ → Option ℕ
start_at none c str = if is_digit c then some str else none
start_at (some s) c str = some s

module _ (atoi : Memory → Option ℕ → ℕ) where
  unfoldable pub parse_pass : Parsing → Parsing
  parse_pass st =
      let c = st.text st.str in
      let start = start_at st.sptr c st.str in
      let ended = write st.text st.str 0 in
      if c == b'.'
      then record st {
        bytes = write st.bytes st.i (bit_and (atoi ended start) 0xff);
        i = st.i + 1;
        sptr = none;
        text = ended;
        str = st.str + 1;
      }
      else record st { sptr = start; str = st.str + 1 }

  -- The loop over the text, with the passes left.
  unfoldable pub parse_loop : ℕ → Parsing → Parsing
  parse_loop zero st = st
  parse_loop (suc left) st =
      let rest = parse_loop left (parse_pass st) in
      if st.text st.str == 0 || not (ltb st.i 4) then st else rest

  -- Behind the loop: the result, the bytes and the text.
  unfoldable pub parse_end : Parsing → ℕ × Memory × Memory
  parse_end st =
      let ended = write st.text st.str 0 in
      if st.i == 3
      then (0, write st.bytes st.i (bit_and (atoi ended st.sptr) 0xff), ended)
      else (1, st.bytes, ended)

  unfoldable pub parse_ip : ℕ → Memory → ℕ → Memory → ℕ × Memory × Memory
  parse_ip left bytestr str text = parse_end (
      parse_loop left (record {
        sptr = none;
        i = 0;
        bytes = writes bytestr ((0, 0) ∷ (1, 0) ∷ (2, 0) ∷ (3, 0) ∷ []);
        text = text;
        str = str;
      }))

-- while(resultstr[j]){j++;}
unfoldable pub search_end : ℕ → Memory → ℕ → ℕ
search_end zero result j = j
search_end (suc left) result j =
    let rest = search_end left result (u8 (j + 1)) in if result j == 0 then j else rest

module _ (itoa : ℕ → ℕ → List ℕ) (left separator base : ℕ) where
  unfoldable pub make_loop : List ℕ → ℕ → Memory → Memory × ℕ
  make_loop [] j result = (result, j)
  make_loop (b ∷ rest) j result =
      let written = (put_string (itoa b base) j result).0 in
      let end = search_end left written j in
      make_loop rest (u8 (end + 1)) (write written end separator)

  -- The bytes as a list; `left` is for the search of an end.
  unfoldable pub make_net_str : List ℕ → Memory → Memory
  make_net_str bytestr result =
      let (written, j) = make_loop bytestr 0 result in write written (u8 (j + 2 ^ 8 - 1)) 0
