-- ===== src/Tests/Driver.antt =====
-- The driver of the network chip on a bus whose answers are given.
use ether_house.Base.{ℕ, ◌<◌, ◌≤◌, ◌≡◌, refl, false, [], ◌∷◌, get_or, arith}
use ether_house.Driver.{Chip, Driver, returns, final}
use ether_house.Driver.Spi.{
  read_reg_byte, write_reg_byte, set_bank, read_op, write_op, enable_chip, disable_chip, xfer_spi,
}
use ether_house.Driver.Packets.{packet_send, packet_receive, enable_multicast}
use ether_house.Driver.Laws.Banks.{Agrees}
use ether_house.Driver.Laws.Access.{Accesses}
use ether_house.Driver.Laws.Sequence.{Reached, Reached-Accesses, here, next, multicasts}
use ether_house.Driver.Laws.Buffer.{packet_receive-bounds}
use ether_house.Driver.Laws.Send.{Sent, frame}
use ether_house.Driver.Laws.Ready.{packet_send_lem}
use ether_house.Tests.Sketch.{zeros}

-- Fifteen bytes go over the bus before the six in front of a packet, which say: the next packet at
-- 0x0024, eight bytes with the checksum, well received. The packet is 5, 6, 7, 8.
abbrev bus : Chip
bus = record {
  answer = λ i.
      get_or
        (0 ∷ 0 ∷ 0 ∷ 0 ∷ 0 ∷ 1 ∷ 0 ∷ 0 ∷ 0 ∷ 0 ∷ 0 ∷ 0 ∷ 0 ∷ 0 ∷ 0 ∷ 0x24 ∷ 0 ∷ 8 ∷ 0 ∷ 0x80 ∷ 0 ∷ 0
          ∷ 5 ∷ 6 ∷ 7 ∷ 8 ∷ [])
        i 0;
  clock = 0;
  rounds = 100;
}

abbrev start : Driver
start = record {
  bank = 0;
  next_packet_ptr = 0;
  buffer_size = 500;
  broadcast_enabled = false;
  buffer = zeros;
  transactions = [];
  open_bytes = [];
  spdr = 0;
  exchanges = 0;
}

-- After the multicasts are let in.
abbrev multicasting : Driver
multicasting = final (enable_multicast bus start)

multicasting-Reached : Reached bus start multicasting
unfolding enable_multicast read_reg_byte write_reg_byte set_bank read_op write_op enable_chip
    disable_chip xfer_spi
multicasting-Reached = next here (multicasts refl)

-- MAADR1, a register of bank 3.
Reached-Accesses_example :
    ((value : ℕ) × (d' : Driver) × (read_reg_byte bus 0xe4 multicasting ≡ returns value d')
      × Agrees d'
      × Accesses 0 0xe4 d')
    × ((d' : Driver) × (write_reg_byte bus 0xe4 5 multicasting ≡ returns tt d')
        × Agrees d'
        × Accesses 0x40 0xe4 d')
Reached-Accesses_example =
    Reached-Accesses bus start multicasting refl multicasting-Reached 0xe4 5 refl

packet_receive-bounds_example :
    (len : ℕ) × (d' : Driver) × (packet_receive bus start ≡ returns len d')
    × (len < 500)
    × ((i : ℕ) → 500 ≤ i → d'.buffer i ≡ 0)
packet_receive-bounds_example = packet_receive-bounds bus start (omega arith) (omega arith)

packet_send_lem_example :
    (d' : Driver) × (packet_send bus 42 start ≡ returns tt d') × Sent zeros (frame bus zeros 42) d'
packet_send_lem_example =
    packet_send_lem bus 42 26 start refl (λ i le. ground (arith, i, le)) (omega arith) (omega arith)
