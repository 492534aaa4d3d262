-- ===== src/Driver/Spi.antt =====
-- The instructions of the chip over the SPI bus, and the access to its registers.
use ether_house.Base.{
  ℕ, zero, suc, ◌+◌, ◌*◌, ◌/◌, ◌^◌, bit_and, bit_or, not, ◌==◌, if◌then◌else◌, List, [], ◌∷◌, ◌++◌,
  u8, u16,
}
use ether_house.Driver.{Chip, D, returns, waits, ◌>>=◌, ◌>>◌, return, done, on_driver, when}
use ether_house.Driver.Registers.{
  addr_mask, bank_mask, econ1, econ1_bsel0, econ1_bsel1, read_ctrl_reg, read_buf_mem,
  write_ctrl_reg, write_buf_mem, bit_field_set, bit_field_clr, miregadr, micmd, micmd_miird, mistat,
  mistat_busy, mird, miwr,
}

-- A transaction lasts as long as the chip is selected.
unfoldable pub enable_chip : D (Unit {0})
enable_chip = on_driver (λ d. record d { open_bytes = [] })

unfoldable pub disable_chip : D (Unit {0})
disable_chip =
    on_driver (λ d. record d { transactions = d.open_bytes ∷ d.transactions; open_bytes = [] })

module _ (chip : Chip) where
  -- The wait for the bus ends with the exchange.
  unfoldable pub xfer_spi : ℕ → D (Unit {0})
  xfer_spi data_byte = on_driver (λ d. record d {
    open_bytes = d.open_bytes ++ data_byte ∷ [];
    spdr = chip.answer d.exchanges;
    exchanges = d.exchanges + 1;
  })

  unfoldable pub read_op : ℕ → ℕ → D ℕ
  read_op op address =
      enable_chip
      >> xfer_spi (bit_or op (bit_and address addr_mask))
      >> xfer_spi 0x00
      >> when (not (bit_and address 0x80 == 0)) (xfer_spi 0x00)
      >> λ d. (disable_chip >> return d.spdr) d

  unfoldable pub write_op : ℕ → ℕ → ℕ → D (Unit {0})
  write_op op address data_byte =
      enable_chip
      >> xfer_spi (bit_or op (bit_and address addr_mask))
      >> xfer_spi data_byte
      >> disable_chip

  unfoldable pub read_bytes : ℕ → D (List ℕ)
  read_bytes zero = return []
  read_bytes (suc len) = xfer_spi 0x00 >> λ d. (read_bytes len >>= λ rest. return (d.spdr ∷ rest)) d

  -- What the chip answers is stored by the caller.
  unfoldable pub read_buf : ℕ → D (List ℕ)
  read_buf len = enable_chip >> xfer_spi read_buf_mem >> read_bytes len >>= λ content.
      disable_chip >> return content

  unfoldable pub write_bytes : List ℕ → D (Unit {0})
  write_bytes [] = done
  write_bytes (b ∷ rest) = xfer_spi b >> write_bytes rest

  -- The `len` bytes of the data.
  unfoldable pub write_buf : List ℕ → D (Unit {0})
  write_buf content = enable_chip >> xfer_spi write_buf_mem >> write_bytes content >> disable_chip

  unfoldable pub set_bank : ℕ → D (Unit {0})
  set_bank address d =
      if bit_and address bank_mask == d.bank
      then returns tt d
      else (write_op bit_field_clr econ1 (bit_or econ1_bsel1 econ1_bsel0)
            >> on_driver (λ d'. record d' { bank = bit_and address bank_mask })
            >> write_op bit_field_set econ1 (bit_and address bank_mask / 2 ^ 5))
          d

  unfoldable pub read_reg_byte : ℕ → D ℕ
  read_reg_byte address = set_bank address >> read_op read_ctrl_reg address

  -- The order in which the source evaluates the two calls is the compiler's; here the low byte is
  -- first.
  unfoldable pub read_reg : ℕ → D ℕ
  read_reg address = read_reg_byte address >>= λ low.
      read_reg_byte (address + 1) >>= λ high. return (u16 (low + high * 2 ^ 8))

  unfoldable pub write_reg_byte : ℕ → ℕ → D (Unit {0})
  write_reg_byte address data_byte = set_bank address >> write_op write_ctrl_reg address data_byte

  unfoldable pub write_reg : ℕ → ℕ → D (Unit {0})
  write_reg address value =
      write_reg_byte address (u8 value) >> write_reg_byte (address + 1) (u8 (value / 2 ^ 8))

  -- while (readRegByte(address) & flag)
  unfoldable pub wait_reg : ℕ → ℕ → ℕ → D (Unit {0})
  wait_reg zero address flag = λ d. waits d
  wait_reg (suc left) address flag =
      let rest = wait_reg left address flag in
      read_reg_byte address >>= λ x. when (not (bit_and x flag == 0)) rest

  unfoldable pub read_phy_byte : ℕ → D ℕ
  read_phy_byte address =
      write_reg_byte miregadr address
      >> write_reg_byte micmd micmd_miird
      >> wait_reg chip.rounds mistat mistat_busy
      >> write_reg_byte micmd 0x00
      >> read_reg_byte (mird + 1)

  unfoldable pub write_phy : ℕ → ℕ → D (Unit {0})
  write_phy address value =
      write_reg_byte miregadr address
      >> write_reg miwr value
      >> wait_reg chip.rounds mistat mistat_busy
