-- ===== src/Driver/Packets.antt =====
-- The operations of ENC28J60: the start, the packets, the scratch memory and the filters.
use ether_house.Base.{
  ℕ, ◌+◌, ◌-◌, ◌*◌, ◌/◌, ◌^◌, bit_and, bit_or, Bool, true, false, not, ◌&&◌, ◌||◌, ◌==◌, ltb, leb,
  if◌then◌else◌, List, [], Mac, load, write, store, u8, u16, zero, suc, get_or,
}
use ether_house.Driver.{Chip, D, waits, ◌>>=◌, ◌>>◌, return, on_driver, when}
use ether_house.Driver.Spi.{
  read_op, write_op, read_buf, write_buf, set_bank, read_reg_byte, write_reg_byte, write_reg,
  wait_reg, read_phy_byte, write_phy,
}
use ether_house.Driver.Registers.{
  eie, eir, estat, econ2, econ1, erdpt, ewrpt, etxst, etxnd, erxst, erxnd, erxrdpt, epmm0, epmcs,
  erxfcon, epktcnt, macon1, macon2, macon3, mabbipg, maipg, mamxfl, maadr1, maadr0, maadr3, maadr2,
  maadr5, maadr4, erevid, erxfcon_mcen, erxfcon_bcen, eie_intie, eie_pktie, eir_txerif,
  estat_rxbusy, estat_clkrdy, econ2_pktdec, econ2_pwrsv, econ2_vrps, econ1_txrst, econ1_txrts,
  econ1_rxen, macon1_txpaus, macon1_rxpaus, macon1_marxen, macon3_padcfg0, macon3_txcrcen,
  macon3_frmlnen, phcon2, phstat2, phcon2_hdldis, read_ctrl_reg, write_buf_mem, bit_field_set,
  bit_field_clr, soft_reset, rxstart_init, rxstop_init, txstart_init, txstop_init, scratch_start,
  scratch_limit, scratch_page_shift, max_framelen, scratch_page_size,
}

-- A number of 16 bits in the byte order of the machine.
abbrev pub header_word : List ℕ → ℕ → ℕ
header_word content i = get_or content i 0 + get_or content (i + 1) 0 * 2 ^ 8

-- The length that is copied: without the checksum, and no more than there is room for.
unfoldable pub clamped : ℕ → ℕ → ℕ
clamped size byte_count =
    let len = u16 (byte_count + 2 ^ 16 - 4) in
    if ltb (u16 (size + 2 ^ 16 - 1)) len then u16 (size + 2 ^ 16 - 1) else len

-- The position of a page in the scratch memory, and whether it is outside.
abbrev pub page_at : ℕ → ℕ
page_at page = u16 (scratch_start + page * 2 ^ scratch_page_shift)

abbrev pub is_outside : ℕ → Bool
is_outside pos = ltb pos scratch_start || ltb (scratch_limit - scratch_page_size) pos

module _ (chip : Chip) where
  -- while (!readOp(READ_CTRL_REG, ESTAT) & ESTAT_CLKRDY), where `!` binds first.
  unfoldable pub wait_clock : D ℕ → ℕ → D (Unit {0})
  wait_clock look zero = λ d. waits d
  wait_clock look (suc left) =
      let rest = wait_clock look left in
      look >>= λ x. when (not (bit_and (if x == 0 then 1 else 0) estat_clkrdy == 0)) rest

  unfoldable pub enable_broadcast : Bool → D (Unit {0})
  enable_broadcast temporary = read_reg_byte chip erxfcon >>= λ x.
      write_reg_byte chip erxfcon (bit_or x erxfcon_bcen)
      >> when (not temporary) (on_driver (λ d. record d { broadcast_enabled = true }))

  unfoldable pub disable_broadcast : Bool → D (Unit {0})
  disable_broadcast temporary =
      when (not temporary) (on_driver (λ d. record d { broadcast_enabled = false })) >> λ d.
      when (not d.broadcast_enabled)
        (read_reg_byte chip erxfcon >>= λ x.
          write_reg_byte chip erxfcon (bit_and x (2 ^ 8 - 1 - erxfcon_bcen)))
        d

  unfoldable pub enable_multicast : D (Unit {0})
  enable_multicast =
      read_reg_byte chip erxfcon >>= λ x. write_reg_byte chip erxfcon (bit_or x erxfcon_mcen)

  unfoldable pub disable_multicast : D (Unit {0})
  disable_multicast = read_reg_byte chip erxfcon >>= λ x.
      write_reg_byte chip erxfcon (bit_and x (2 ^ 8 - 1 - erxfcon_mcen))

  unfoldable pub soft_reset_chip : D (Unit {0})
  soft_reset_chip =
      write_op chip soft_reset 0 soft_reset
      >> wait_clock (read_op chip read_ctrl_reg estat) chip.rounds

  unfoldable pub set_up_buffers : D (Unit {0})
  set_up_buffers =
      on_driver (λ d. record d { next_packet_ptr = rxstart_init })
      >> write_reg chip erxst rxstart_init
      >> write_reg chip erxrdpt rxstart_init
      >> write_reg chip erxnd rxstop_init
      >> write_reg chip etxst txstart_init
      >> write_reg chip etxnd txstop_init

  unfoldable pub set_up_mac : Mac → D (Unit {0})
  set_up_mac macaddr =
      write_reg_byte chip macon1 (bit_or (bit_or macon1_marxen macon1_txpaus) macon1_rxpaus)
      >> write_reg_byte chip macon2 0x00
      >> write_op chip bit_field_set macon3
          (bit_or (bit_or macon3_padcfg0 macon3_txcrcen) macon3_frmlnen)
      >> write_reg chip maipg 0x0c12
      >> write_reg_byte chip mabbipg 0x12
      >> write_reg chip mamxfl max_framelen
      >> write_reg_byte chip maadr5 macaddr.m0
      >> write_reg_byte chip maadr4 macaddr.m1
      >> write_reg_byte chip maadr3 macaddr.m2
      >> write_reg_byte chip maadr2 macaddr.m3
      >> write_reg_byte chip maadr1 macaddr.m4
      >> write_reg_byte chip maadr0 macaddr.m5
      >> write_phy chip phcon2 phcon2_hdldis

  -- Behind the setup of the pins. The result is the revision, 0 if there is no chip.
  unfoldable pub initialize : ℕ → Mac → D ℕ
  initialize size macaddr =
      on_driver (λ d. record d { buffer_size = size })
      >> soft_reset_chip
      >> set_up_buffers
      >> enable_broadcast false
      >> write_reg chip epmm0 0x303f
      >> write_reg chip epmcs 0xf7f9
      >> set_up_mac macaddr
      >> set_bank chip econ1
      >> write_op chip bit_field_set eie (bit_or eie_intie eie_pktie)
      >> write_op chip bit_field_set econ1 econ1_rxen
      >> read_reg_byte chip erevid
      >>= λ rev. return (if ltb 5 rev then u8 (rev + 1) else rev)

  unfoldable pub is_link_up : D Bool
  is_link_up = read_phy_byte chip phstat2 >>= λ x. return (not (bit_and (x / 2 ^ 2) 1 == 0))

  -- while (readOp(READ_CTRL_REG, ECON1) & ECON1_TXRTS)
  unfoldable pub wait_sent : ℕ → D (Unit {0})
  wait_sent zero = λ d. waits d
  wait_sent (suc left) =
      let rest = wait_sent left in
      read_op chip read_ctrl_reg econ1 >>= λ x. when (not (bit_and x econ1_txrts == 0)) (
        read_reg_byte chip eir >>= λ y.
        when (not (bit_and y eir_txerif == 0)) (
          write_op chip bit_field_set econ1 econ1_txrst
          >> write_op chip bit_field_clr econ1 econ1_txrst)
        >> rest)

  unfoldable pub packet_send : ℕ → D (Unit {0})
  packet_send len =
      wait_sent chip.rounds
      >> write_reg chip ewrpt txstart_init
      >> write_reg chip etxnd (u16 (txstart_init + len))
      >> write_op chip write_buf_mem 0 0x00
      >> (λ d. write_buf chip (load d.buffer 0 len) d)
      >> write_op chip bit_field_set econ1 econ1_txrts

  unfoldable pub store_packet : ℕ → D (Unit {0})
  store_packet len = read_buf chip len >>= λ content.
      on_driver (λ d. record d { buffer = store d.buffer 0 content len })

  -- `gNextPacketPtr - 1 > RXSTOP_INIT` compares numbers with a sign.
  unfoldable pub free_packet : D (Unit {0})
  free_packet d =
      let ptr = d.next_packet_ptr in
      (write_reg chip erxrdpt (
            if ltb 0 ptr && leb ptr (2 ^ 15) && ltb rxstop_init (ptr - 1)
            then rxstop_init
            else u16 (ptr + 2 ^ 16 - 1))
          >> write_op chip bit_field_set econ2 econ2_pktdec)
        d

  unfoldable pub take_packet : D ℕ
  take_packet d =
      (write_reg chip erdpt d.next_packet_ptr >> read_buf chip 6 >>= λ header.
      let kept =
        (if bit_and (header_word header 4) 0x80 == 0
          then 0
          else clamped d.buffer_size (header_word header 2)) in
      on_driver (λ d'. record d' { next_packet_ptr = header_word header 0 })
      >> when (not (bit_and (header_word header 4) 0x80 == 0)) (store_packet kept)
      >> on_driver (λ d'. record d' { buffer = write d'.buffer kept 0 })
      >> free_packet
      >> return kept)
        d

  unfoldable pub packet_receive : D ℕ
  packet_receive =
      read_reg_byte chip epktcnt >>= λ count. if ltb 0 count then take_packet else return 0

  unfoldable pub copyout : ℕ → List ℕ → D (Unit {0})
  copyout page content =
      when (not (is_outside (page_at page)))
        (write_reg chip ewrpt (page_at page) >> write_buf chip content)

  -- The page's bytes, or nothing.
  unfoldable pub copyin : ℕ → D (List ℕ)
  copyin page =
      if is_outside (page_at page)
      then return []
      else (write_reg chip erdpt (page_at page) >> read_buf chip scratch_page_size)

  unfoldable pub peekin : ℕ → ℕ → D ℕ
  peekin page off =
      let pos = u16 (page_at page + off) in
      if leb scratch_start pos && ltb pos scratch_limit
      then (write_reg chip erdpt pos >> read_buf chip 1 >>= λ content. return (get_or content 0 0))
      else return 0

  unfoldable pub power_down : D (Unit {0})
  power_down =
      write_op chip bit_field_clr econ1 econ1_rxen
      >> wait_reg chip chip.rounds estat estat_rxbusy
      >> wait_reg chip chip.rounds econ1 econ1_txrts
      >> write_op chip bit_field_set econ2 econ2_vrps
      >> write_op chip bit_field_set econ2 econ2_pwrsv

  unfoldable pub power_up : D (Unit {0})
  power_up =
      write_op chip bit_field_clr econ2 econ2_pwrsv
      >> wait_clock (read_reg_byte chip estat) chip.rounds
      >> write_op chip bit_field_set econ1 econ1_rxen
