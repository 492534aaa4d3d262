-- ===== src/Driver/SelfTest.antt =====
-- doBIST of libraries/ethercard/enc28j60.cpp: the memory test of the chip.
use ether_house.Base.{
  ℕ, zero, suc, bit_and, bit_or, Bool, false, not, ◌||◌, ◌==◌, if◌then◌else◌, u8,
}
use ether_house.Driver.{Chip, D, waits, ◌>>=◌, ◌>>◌, return, when}
use ether_house.Driver.Spi.{read_op, write_op, set_bank, write_reg_byte, read_reg, write_reg}
use ether_house.Driver.Packets.{soft_reset_chip}
use ether_house.Driver.Registers.{
  econ1, erxnd, edmast, edmand, edmacs, ebstsd, ebstcon, ebstcs, econ1_dmast, econ1_csumen,
  ebstcon_psel, ebstcon_tme, ebstcon_bistst, read_ctrl_reg, bit_field_set, bit_field_clr,
}

abbrev random_fill : ℕ
random_fill = 0x00

abbrev address_fill : ℕ
address_fill = 0x04

module _ (chip : Chip) where
  -- while (readOp(READ_CTRL_REG, address) & flag)
  unfoldable pub wait_op : ℕ → ℕ → ℕ → D (Unit {0})
  wait_op zero address flag = λ d. waits d
  wait_op (suc left) address flag =
      let rest = wait_op left address flag in
      read_op chip read_ctrl_reg address >>= λ x. when (not (bit_and x flag == 0)) rest

  -- A test of the memory that has been started, and the two checksums.
  unfoldable pub checksums : D (ℕ × ℕ)
  checksums =
      wait_op chip.rounds ebstcon ebstcon_bistst
      >> write_op chip bit_field_clr ebstcon ebstcon_tme
      >> write_op chip bit_field_set econ1 (bit_or econ1_dmast econ1_csumen)
      >> set_bank chip edmacs
      >> wait_op chip.rounds econ1 econ1_dmast
      >> read_reg chip edmacs
      >>= λ mac_result. read_reg chip ebstcs >>= λ bits_result. return (mac_result, bits_result)

  -- Behind the setup of the pins.
  unfoldable pub do_bist : D Bool
  do_bist =
      soft_reset_chip chip
      >> write_reg_byte chip econ1 0
      >> write_reg chip edmast 0
      >> write_reg chip edmand 0x1fff
      >> write_reg chip erxnd 0x1fff
      >> set_bank chip ebstcon
      >> write_reg_byte chip ebstcon (bit_or (bit_or ebstcon_tme ebstcon_bistst) address_fill)
      >> checksums
      >>= λ first.
          if not (first.0 == first.1) || not (first.1 == 0xf807)
          then return false
          else write_op chip bit_field_clr ebstcon ebstcon_tme
            >> write_reg_byte chip ebstsd (u8 (bit_or 0xaa chip.clock))
            >> write_reg_byte chip ebstcon
                (bit_or (bit_or (bit_or ebstcon_tme ebstcon_psel) ebstcon_bistst) random_fill)
            >> checksums
            >>= λ second. return (second.0 == second.1)
