-- ===== src/Tests/Stash.antt =====
-- Stashes on a chip whose pages are kept in a function.
use ether_house.Base.{ℕ, ◌≡◌, arith, ◌==◌, ltb, if◌then◌else◌, [], ◌∷◌, Memory, write, IsBytes}
use ether_house.Stash.{Scratch, Pages}
use ether_house.Stash.Blocks.{first_bit, first_free, alloc_block}
use ether_house.Sketch.Lights.{bit_read}
use ether_house.Stash.Texts.{create, size, save, open_stash}
use ether_house.Stash.Laws.Reading.{get_all}
use ether_house.Stash.Laws.Saved.{get_all-put_all}
use ether_house.Stash.Laws.Alloc.{Allocates, alloc_block-Allocates}
use ether_house.Stash.Laws.Size.{put_all}
use ether_house.Stash.Laws.Create.{size-put_all}
use ether_house.Stash.{Stash}
use ether_house.Base.{refl, inl, inr, List, store, ℕ, List}
use ether_house.Net.Filler.{wtoa}
use ether_house.Stash.Message.{Places, prepare}
use ether_house.Stash.Sending.{tcp_datafill_cb}
use ether_house.Stash.Laws.Formats.{Piece, plain, placed, code, words}
use ether_house.Stash.Laws.Sending.{Fills, tcp_datafill_cb-prepare}
use ether_house.Tests.Sketch.{zeros}

-- 56 pages.
abbrev pages_in_function : Scratch (ℕ → Memory)
pages_in_function = record {
  copyout =
      λ page m chip k i. if ltb page 56 then (if page == k then m i else chip k i) else chip k i;
  copyin = λ page chip m i. if ltb page 56 then (if ltb i 64 then chip page i else m i) else m i;
  peekin = λ page off chip. if ltb page 56 then chip page off else 0;
}

-- The blocks 1 to 7 and 9 are free.
abbrev some_free : Memory
some_free = write (write zeros 0 0xfe) 1 0x02

some_free_bytes : IsBytes some_free
some_free_bytes i = ground arith

abbrev empty_pages : Pages (ℕ → Memory)
empty_pages = record {
  buf0 = record { bytes = zeros; bnum = 0 };
  buf1 = record { bytes = zeros; bnum = 0 };
  map = some_free;
  chip = λ page. zeros;
}

alloc_block-Allocates_example : Allocates some_free (alloc_block some_free)
alloc_block-Allocates_example = alloc_block-Allocates some_free some_free_bytes

size-put_all_example :
    let r =
      put_all pages_in_function
        (5 ∷ 6 ∷ 7 ∷ [])
        ((create pages_in_function empty_pages).0)
        ((create pages_in_function empty_pages).1) in
    size pages_in_function (r.0) (r.1) ≡ 3
unfolding alloc_block first_free first_bit bit_read
size-put_all_example =
    size-put_all pages_in_function (5 ∷ 6 ∷ 7 ∷ []) empty_pages (omega arith) (omega arith)
      (omega arith)

get_all-put_all_example :
    let r =
      put_all pages_in_function
        (5 ∷ 6 ∷ 7 ∷ [])
        ((create pages_in_function empty_pages).0)
        ((create pages_in_function empty_pages).1) in
    let o = open_stash pages_in_function ((r.0).first) (save pages_in_function (r.0) (r.1)) in
    get_all pages_in_function 4 (o.0) (o.1) ≡ 5 ∷ 6 ∷ 7 ∷ 0 ∷ []
unfolding alloc_block first_free first_bit bit_read
get_all-put_all_example =
    get_all-put_all pages_in_function (5 ∷ 6 ∷ 7 ∷ []) empty_pages (omega arith) (omega arith)
      (omega arith) (omega arith)

-- The format v=$D$S with the number 42 and the text ab.
abbrev pieces : List Piece
pieces =
    plain b'v'
    ∷ plain b'='
    ∷ placed b'D' 42 (b'4' ∷ b'2' ∷ [])
    ∷ placed b'S' 300 (b'a' ∷ b'b' ∷ [])
    ∷ []

abbrev sample_places : Places
sample_places = record {
  ram = store zeros 300 (b'a' ∷ b'b' ∷ []) 2;
  flash = store zeros 100 (code pieces) 6;
  eeprom = zeros;
}

abbrev unset : Stash
unset = record { count = 0; first = 0; last = 0; curr = 0; offs = 0 }

tcp_datafill_cb-prepare_example :
    let p = prepare pages_in_function sample_places 20 100 (words pieces) empty_pages in
    Fills zeros p
      (b'v' ∷ b'=' ∷ b'4' ∷ b'2' ∷ b'a' ∷ b'b' ∷ [])
      (tcp_datafill_cb pages_in_function sample_places 20 20 zeros unset zeros p)
unfolding wtoa
tcp_datafill_cb-prepare_example =
    tcp_datafill_cb-prepare pages_in_function sample_places 20 20 100 pieces zeros zeros unset
      empty_pages (refl, (refl, (refl, (refl, (refl, (refl, (refl, tt)))))))
      (omega arith, (omega arith, (omega arith, (omega arith, (omega arith, (omega arith, tt))))))
      (
        (omega arith, omega arith),
        (
          (omega arith, omega arith),
          (
            (omega arith, (omega arith, (omega arith, tt)), omega arith, inl (refl, refl)),
            (
              (
                omega arith,
                (omega arith, (omega arith, tt)),
                omega arith,
                inr (inl (refl, (refl, (refl, (refl, tt))))),
              ),
              tt,
            ),
          ),
        ),
      )
      (omega arith) (omega arith) (omega arith) (omega arith) (omega arith) (omega arith)
