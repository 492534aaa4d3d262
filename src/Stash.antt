-- ===== src/Stash.antt =====
-- The class Stash of libraries/ethercard/EtherCard.cpp: texts in the scratch memory of the network
-- chip, in pages of 64 bytes that are chained, with two pages in RAM.
pub mod Blocks
pub mod Texts
pub mod Message
pub mod Extract
pub mod Sending
pub mod Laws
use ether_house.Base.{ℕ, Memory}

-- The chip's pages, by the operations of the driver: what copyout and copyin do with a page, where
-- copyin is given what stands in its destination, and a byte by peekin.
pub record Scratch {ℓ} (M : Type ℓ) : Type ℓ where
  pub copyout : ℕ → Memory → M → M
  pub copyin : ℕ → M → Memory → Memory
  pub peekin : ℕ → ℕ → M → ℕ

-- A page in RAM.
pub record Block : Type 0 where
  pub bytes : Memory
  pub bnum : ℕ

-- The static variables: the page that is written, the page that is read, and a bit for each free
-- block; with them the pages of the chip.
pub record Pages {ℓ} (M : Type ℓ) : Type ℓ where
  pub buf0 : Block
  pub buf1 : Block
  pub map : Memory
  pub chip : M

-- A stash: the header, and the place that is read.
pub record Stash : Type 0 where
  pub count : ℕ
  pub first : ℕ
  pub last : ℕ
  pub curr : ℕ
  pub offs : ℕ

-- sizeof (StashHeader), and the places of the tail and of the next page.
abbrev pub header_size : ℕ
header_size = 3

abbrev pub tail_p : ℕ
tail_p = 62

abbrev pub next_p : ℕ
next_p = 63

abbrev pub count_p : ℕ
count_p = 0

abbrev pub first_p : ℕ
first_p = 1

abbrev pub last_p : ℕ
last_p = 2
