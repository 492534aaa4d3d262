-- ===== src/Driver/Laws/Sequence.antt =====
-- Any sequence of the driver's operations.
use ether_house.Base.{ℕ, ◌≡◌, subst, Bool, false, List, Mac, Memory}
use ether_house.Driver.{Chip, Driver, returns}
use ether_house.Driver.Spi.{read_reg_byte, write_reg_byte}
use ether_house.Driver.Packets.{
  enable_broadcast, disable_broadcast, enable_multicast, disable_multicast, initialize, is_link_up,
  packet_send, packet_receive, copyout, copyin, peekin, power_down, power_up,
}
use ether_house.Driver.SelfTest.{do_bist}
use ether_house.Driver.Laws.Triples.{After}
use ether_house.Driver.Laws.Banks.{Agrees}
use ether_house.Driver.Laws.Plain.{is_control}
use ether_house.Driver.Laws.Access.{Accesses, read_reg_byte-Accesses, write_reg_byte-Accesses}
use ether_house.Driver.Laws.Reach.{
  enable_broadcast-Keeps, disable_broadcast-Keeps, enable_multicast-Keeps, disable_multicast-Keeps,
  is_link_up-Keeps, packet_send-Keeps, packet_receive-Keeps, copyout-Keeps, copyin-Keeps,
  peekin-Keeps, power_down-Keeps, power_up-Keeps,
}
use ether_house.Driver.Laws.Reset.{initialize-Agrees, do_bist-Agrees}

-- An operation of the class ENC28J60 that returns, from one driver to the next.
pub data Operates (chip : Chip) : Driver → Driver → Type 0 where
  initializes :
      (size : ℕ) (macaddr : Mac) {d d' : Driver} {rev : ℕ}
      → initialize chip size macaddr d ≡ returns rev d'
      → Operates chip d d'
  tests : {d d' : Driver} {passed : Bool} → do_bist chip d ≡ returns passed d' → Operates chip d d'
  looks_at_link :
      {d d' : Driver} {up : Bool} → is_link_up chip d ≡ returns up d' → Operates chip d d'
  sends : (len : ℕ) {d d' : Driver} → packet_send chip len d ≡ returns tt d' → Operates chip d d'
  receives : {d d' : Driver} {len : ℕ} → packet_receive chip d ≡ returns len d' → Operates chip d d'
  copies_out :
      (page : ℕ) (content : List ℕ) {d d' : Driver}
      → copyout chip page content d ≡ returns tt d'
      → Operates chip d d'
  copies_in :
      (page : ℕ) {d d' : Driver} {content : List ℕ}
      → copyin chip page d ≡ returns content d'
      → Operates chip d d'
  peeks_in :
      (page off : ℕ) {d d' : Driver} {b : ℕ}
      → peekin chip page off d ≡ returns b d'
      → Operates chip d d'
  powers_down : {d d' : Driver} → power_down chip d ≡ returns tt d' → Operates chip d d'
  powers_up : {d d' : Driver} → power_up chip d ≡ returns tt d' → Operates chip d d'
  broadcasts :
      (temporary : Bool) {d d' : Driver}
      → enable_broadcast chip temporary d ≡ returns tt d'
      → Operates chip d d'
  stops_broadcasts :
      (temporary : Bool) {d d' : Driver}
      → disable_broadcast chip temporary d ≡ returns tt d'
      → Operates chip d d'
  multicasts : {d d' : Driver} → enable_multicast chip d ≡ returns tt d' → Operates chip d d'
  stops_multicasts : {d d' : Driver} → disable_multicast chip d ≡ returns tt d' → Operates chip d d'
  fills : (memory : Memory) {d d' : Driver} → record d { buffer = memory } ≡ d' → Operates chip d d'

-- The sketch may write to the buffer between two operations.
pub data Reached (chip : Chip) (start : Driver) : Driver → Type 0 where
  here : Reached chip start start
  next : {d d' : Driver} → Reached chip start d → Operates chip d d' → Reached chip start d'

Operates-Agrees : (chip : Chip) {d d' : Driver} → Operates chip d d' → Agrees d → Agrees d'
Operates-Agrees chip {d} (initializes size macaddr e) p =
    subst (After (λ _. Agrees)) e (initialize-Agrees chip size macaddr d tt)
Operates-Agrees chip {d} (tests e) p = subst (After (λ _. Agrees)) e (do_bist-Agrees chip d tt)
Operates-Agrees chip {d} (looks_at_link e) p =
    subst (After (λ _. Agrees)) e (is_link_up-Keeps chip d p)
Operates-Agrees chip {d} (sends len e) p =
    subst (After (λ _. Agrees)) e (packet_send-Keeps chip len d p)
Operates-Agrees chip {d} (receives e) p =
    subst (After (λ _. Agrees)) e (packet_receive-Keeps chip d p)
Operates-Agrees chip {d} (copies_out page content e) p =
    subst (After (λ _. Agrees)) e (copyout-Keeps chip page content d p)
Operates-Agrees chip {d} (copies_in page e) p =
    subst (After (λ _. Agrees)) e (copyin-Keeps chip page d p)
Operates-Agrees chip {d} (peeks_in page off e) p =
    subst (After (λ _. Agrees)) e (peekin-Keeps chip page off d p)
Operates-Agrees chip {d} (powers_down e) p =
    subst (After (λ _. Agrees)) e (power_down-Keeps chip d p)
Operates-Agrees chip {d} (powers_up e) p = subst (After (λ _. Agrees)) e (power_up-Keeps chip d p)
Operates-Agrees chip {d} (broadcasts temporary e) p =
    subst (After (λ _. Agrees)) e (enable_broadcast-Keeps chip temporary d p)
Operates-Agrees chip {d} (stops_broadcasts temporary e) p =
    subst (After (λ _. Agrees)) e (disable_broadcast-Keeps chip temporary d p)
Operates-Agrees chip {d} (multicasts e) p =
    subst (After (λ _. Agrees)) e (enable_multicast-Keeps chip d p)
Operates-Agrees chip {d} (stops_multicasts e) p =
    subst (After (λ _. Agrees)) e (disable_multicast-Keeps chip d p)
Operates-Agrees chip {d} (fills memory e) p = subst Agrees e p

pub Reached-Agrees :
    (chip : Chip) (start : Driver) → Agrees start → {d : Driver} → Reached chip start d → Agrees d
Reached-Agrees chip start p here = p
Reached-Agrees chip start p (next r o) = Operates-Agrees chip o (Reached-Agrees chip start p r)

-- Whatever operations of the driver have run since a start in which its bank was the chip's, a
-- read and a write of a register return and go to the register in its own bank; for a register
-- other than those with the number 31.
pub Reached-Accesses :
    (chip : Chip) (start d : Driver)
    → Agrees start
    → Reached chip start d
    → (address x : ℕ) → is_control address ≡ false
    → ((value : ℕ) × (d' : Driver) × (read_reg_byte chip address d ≡ returns value d')
        × Agrees d'
        × Accesses 0 address d')
      × ((d' : Driver) × (write_reg_byte chip address x d ≡ returns tt d')
          × Agrees d'
          × Accesses 0x40 address d')
Reached-Accesses chip start d p r address x h =
    let q = Reached-Agrees chip start p r in
    (read_reg_byte-Accesses chip address d q, write_reg_byte-Accesses chip address x d h q)
