-- ===== src/Driver.antt =====
-- The driver of the network chip, libraries/ethercard/enc28j60.cpp. The chip is behind the SPI bus:
-- of its behaviour the model has only the byte that it puts on the bus in each exchange.
pub mod Registers
pub mod Spi
pub mod Packets
pub mod SelfTest
pub mod Laws
use ether_house.Base.{ℕ, ◌+◌, Bool, List, [], ◌∷◌, ◌++◌, Memory, if◌then◌else◌}

-- `answer` is the byte in SPDR after each exchange; `rounds` bounds each loop that waits for the
-- chip. `clock` is what millis() returns.
pub record Chip : Type 0 where
  pub answer : ℕ → ℕ
  pub clock : ℕ
  pub rounds : ℕ

-- The static variables, and what has gone over the bus: the bytes that were sent in each transaction,
-- the last one first, and those of the transaction that is open. `exchanges` counts the bytes.
-- `next_packet_ptr` holds the 16 bits of an `int`.
pub record Driver : Type 0 where
  pub bank : ℕ
  pub next_packet_ptr : ℕ
  pub buffer_size : ℕ
  pub broadcast_enabled : Bool
  pub buffer : Memory
  pub transactions : List (List ℕ)
  pub open_bytes : List ℕ
  pub spdr : ℕ
  pub exchanges : ℕ

-- A run returns, or still waits for the chip when the rounds are over.
pub data Outcome {ℓ} (A : Type ℓ) : Type ℓ where
  returns : A → Driver → Outcome A
  waits : Driver → Outcome A

abbrev pub D {ℓ} : Type ℓ → Type ℓ
D A = Driver → Outcome A

infixl 5 ◌>>=◌ ◌>>◌
abbrev pub ◌>>=◌ {ℓ κ} : {A : Type ℓ} {B : Type κ} → D A → (A → D B) → D B
◌>>=◌ m f d = elim (m d) [ returns a d' ↦ f a d' | waits d' ↦ waits d' ]

abbrev pub ◌>>◌ {ℓ} : {B : Type ℓ} → D (Unit {0}) → D B → D B
m >> k = m >>= λ _. k

abbrev pub return {ℓ} : {A : Type ℓ} → A → D A
return a d = returns a d

abbrev pub done : D (Unit {0})
done d = returns tt d

abbrev pub on_driver : (Driver → Driver) → D (Unit {0})
on_driver f d = returns tt (f d)

abbrev pub when : Bool → D (Unit {0}) → D (Unit {0})
when test m = if test then m else done

-- The state that a run ends in.
abbrev pub final {ℓ} : {A : Type ℓ} → Outcome A → Driver
final (returns a d) = d
final (waits d) = d
