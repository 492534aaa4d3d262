-- ===== src/World.antt =====
-- The firmware with what surrounds it: the sketch and the network state that every function may
-- change, the clock, the frames that arrive, and what the libraries answer.
pub mod Lease
pub mod Packets
pub mod Syslog
pub mod Api
pub mod Setup
pub mod Main
pub mod Laws
use ether_house.Base.{
  u32, ℕ, zero, suc, ◌+◌, Bool, true, false, if◌then◌else◌, Option, List, Memory, Ip, Mac,
}
use ether_house.Net.{Net}
use ether_house.Net.Dhcp.{Dhcp}
use ether_house.Sketch.{Sketch}

-- What the program cannot choose. A tick is one look at the clock or at the network chip; time may
-- pass between any two.
-- `clock` is the time, of which millis() returns the low 32 bits; `received_len` and `received` are the result of packetReceive()
-- and the buffer that it leaves; `link_up` is isLinkUp().
-- `chip_found` is whether initialize() of the driver finds the network chip.
-- `stack` is what arrays hold before they are written, and `flash_text` the text in program memory
-- at the address of the array that state_parse_callback logs.
-- `rounds` bounds each loop that waits.
pub record Env : Type 0 where
  pub clock : ℕ → ℕ
  pub received_len : ℕ → ℕ
  pub received : ℕ → Memory → Memory
  pub link_up : ℕ → Bool
  pub chip_found : Bool
  pub crc16_update : ℕ → ℕ → ℕ
  pub stack : Memory
  pub flash_text : List ℕ
  pub rounds : ℕ

-- `broadcast_filter` is whether the chip lets broadcasts through, `broadcast_enabled` the driver's
-- variable, and `stash_map` is Stash::map.
pub record World : Type 0 where
  pub net : Net
  pub sketch : Sketch
  pub dhcp : Dhcp
  pub dnstid_l : ℕ
  pub broadcast_filter : Bool
  pub broadcast_enabled : Bool
  pub stash_map : Memory
  pub ticks : ℕ

-- A run returns, jumps to the reset vector, or still waits when the rounds are over.
pub data Outcome {ℓ} (A : Type ℓ) : Type ℓ where
  returns : A → World → Outcome A
  reboots unfinished : World → Outcome A

abbrev pub M {ℓ} : Type ℓ → Type ℓ
M A = World → Outcome A

infixl 5 ◌>>=◌ ◌>>◌
abbrev pub ◌>>=◌ {ℓ κ} : {A : Type ℓ} {B : Type κ} → M A → (A → M B) → M B
◌>>=◌ m f w = elim (m w) [
  | returns a w' ↦ f a w'
  | reboots w' ↦ reboots w'
  | unfinished w' ↦ unfinished w'
]

abbrev pub ◌>>◌ {ℓ} : {B : Type ℓ} → M (Unit {0}) → M B → M B
m >> k = m >>= λ _. k

abbrev pub return {ℓ} : {A : Type ℓ} → A → M A
return a w = returns a w

abbrev pub done : M (Unit {0})
done w = returns tt w

abbrev pub get : M World
get w = returns w w

abbrev pub on_net : (Net → Net) → M (Unit {0})
on_net f w = returns tt (record w { net = f w.net })

abbrev pub on_sketch : (Sketch → Sketch) → M (Unit {0})
on_sketch f w = returns tt (record w { sketch = f w.sketch })

-- A run that ends with `o`, whatever it starts from.
abbrev pub ended {ℓ} : {A : Type ℓ} → Outcome A → M A
ended o _ = o

-- The world that a run ends in.
abbrev pub final {ℓ} : {A : Type ℓ} → Outcome A → World
final (returns a w) = w
final (reboots w) = w
final (unfinished w) = w

abbrev pub on_dhcp : (Dhcp → Dhcp) → M (Unit {0})
on_dhcp f w = returns tt (record w { dhcp = f w.dhcp })

abbrev pub when : (World → Bool) → M (Unit {0}) → M (Unit {0})
when test m w = if test w then m w else done w

module _ (env : Env) where
  abbrev pub millis : M ℕ
  millis w = returns (u32 (env.clock w.ticks)) (record w { ticks = w.ticks + 1 })

  abbrev pub is_link_up : M Bool
  is_link_up w = returns (env.link_up w.ticks) (record w { ticks = w.ticks + 1 })

  abbrev pub packet_receive : M ℕ
  packet_receive w = returns (env.received_len w.ticks) (record w {
    ticks = w.ticks + 1;
    net = record w.net { buffer = env.received w.ticks w.net.buffer };
  })
