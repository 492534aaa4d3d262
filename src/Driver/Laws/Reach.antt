-- ===== src/Driver/Laws/Reach.antt =====
-- Every operation of the driver keeps to the bank that the chip has.
use ether_house.Base.{
  ℕ, ◌&&◌, get_or, ◌+◌, ◌-◌, ◌^◌, ◌≡◌, refl, Bool, false, not, ltb, leb, bit_and, u16, List, load,
  zero, suc,
}
use ether_house.Driver.{Chip, Driver, D, ◌>>=◌, ◌>>◌, return, on_driver}
use ether_house.Driver.Spi.{
  read_buf, read_reg_byte, write_reg_byte, write_reg, wait_reg, read_phy_byte, write_phy,
}
use ether_house.Driver.Packets.{
  wait_clock, enable_broadcast, disable_broadcast, enable_multicast, disable_multicast, is_link_up,
  wait_sent, packet_send, store_packet, free_packet, take_packet, packet_receive, page_at,
  is_outside, copyout, copyin, peekin, power_down, power_up,
}
use ether_house.Driver.SelfTest.{wait_op}
use ether_house.Driver.Laws.Triples.{Keeps, bind-Keeps, then-Keeps, when-Keeps, either-Keeps}
use ether_house.Driver.Laws.Banks.{Agrees}
use ether_house.Driver.Laws.Plain.{is_control}
use ether_house.Driver.Laws.Access.{
  read_op-Keeps, harmless-Keeps, read_reg_byte-Keeps, write_reg_byte-Keeps,
}
use ether_house.Driver.Registers.{scratch_start, scratch_limit, erdpt, erxfcon, erxfcon_bcen}
use ether_house.Driver.Laws.Streams.{read_buf-Keeps, write_buf-Keeps}

module _ (chip : Chip) where
  pub write_reg-Keeps :
      (address value : ℕ)
      → is_control address ≡ false
      → is_control (address + 1) ≡ false
      → Keeps Agrees (write_reg chip address value)
  unfolding write_reg
  write_reg-Keeps address value h h' = search (then-Keeps, write_reg_byte-Keeps)

  pub enable_broadcast-Keeps : (temporary : Bool) → Keeps Agrees (enable_broadcast chip temporary)
  unfolding enable_broadcast
  enable_broadcast-Keeps temporary =
      search (then-Keeps, bind-Keeps, when-Keeps, read_reg_byte-Keeps, write_reg_byte-Keeps)

  pub disable_broadcast-Keeps : (temporary : Bool) → Keeps Agrees (disable_broadcast chip temporary)
  unfolding disable_broadcast
  disable_broadcast-Keeps temporary =
      then-Keeps Agrees _ _
        (when-Keeps Agrees (not temporary) (on_driver (λ d. record d { broadcast_enabled = false }))
          (λ d p. p))
        (λ d. when-Keeps Agrees (not d.broadcast_enabled) cleared cleared-Keeps d)
    where
      cleared : D (Unit {0})
      cleared = read_reg_byte chip erxfcon >>= λ x.
          write_reg_byte chip erxfcon (bit_and x (2 ^ 8 - 1 - erxfcon_bcen))

      cleared-Keeps : Keeps Agrees cleared
      cleared-Keeps = search (bind-Keeps, read_reg_byte-Keeps, write_reg_byte-Keeps)

  pub enable_multicast-Keeps : Keeps Agrees (enable_multicast chip)
  unfolding enable_multicast
  enable_multicast-Keeps = search (bind-Keeps, read_reg_byte-Keeps, write_reg_byte-Keeps)

  pub disable_multicast-Keeps : Keeps Agrees (disable_multicast chip)
  unfolding disable_multicast
  disable_multicast-Keeps = search (bind-Keeps, read_reg_byte-Keeps, write_reg_byte-Keeps)

  wait_reg-Keeps : (left address flag : ℕ) → Keeps Agrees (wait_reg chip left address flag)
  unfolding wait_reg
  wait_reg-Keeps zero address flag = λ d p. tt
  wait_reg-Keeps (suc left) address flag =
      bind-Keeps Agrees _ _ (read_reg_byte-Keeps chip address)
        (λ x. when-Keeps Agrees _ _ (wait_reg-Keeps left address flag))

  pub wait_op-Keeps : (left address flag : ℕ) → Keeps Agrees (wait_op chip left address flag)
  unfolding wait_op
  wait_op-Keeps zero address flag = λ d p. tt
  wait_op-Keeps (suc left) address flag =
      bind-Keeps Agrees _ _ (read_op-Keeps chip address)
        (λ x. when-Keeps Agrees _ _ (wait_op-Keeps left address flag))

  pub wait_clock-Keeps :
      (P : Driver → Type 0) (look : D ℕ)
      → Keeps P look
      → (left : ℕ) → Keeps P (wait_clock chip look left)
  unfolding wait_clock
  wait_clock-Keeps P look h zero = λ d p. tt
  wait_clock-Keeps P look h (suc left) =
      bind-Keeps P _ _ h (λ x. when-Keeps P _ _ (wait_clock-Keeps P look h left))

  read_phy_byte-Keeps : (address : ℕ) → Keeps Agrees (read_phy_byte chip address)
  unfolding read_phy_byte
  read_phy_byte-Keeps address =
      search (then-Keeps, read_reg_byte-Keeps, write_reg_byte-Keeps, wait_reg-Keeps)

  pub write_phy-Keeps : (address value : ℕ) → Keeps Agrees (write_phy chip address value)
  unfolding write_phy
  write_phy-Keeps address value =
      search (then-Keeps, write_reg-Keeps, write_reg_byte-Keeps, wait_reg-Keeps)

  pub is_link_up-Keeps : Keeps Agrees (is_link_up chip)
  unfolding is_link_up
  is_link_up-Keeps = bind-Keeps Agrees _ _ (read_phy_byte-Keeps _) (λ x d p. p)

  pub wait_sent-Keeps : (left : ℕ) → Keeps Agrees (wait_sent chip left)
  unfolding wait_sent
  wait_sent-Keeps zero = λ d p. tt
  wait_sent-Keeps (suc left) =
      let rest = wait_sent-Keeps left in
      bind-Keeps Agrees _ _ (read_op-Keeps chip _) (λ x. when-Keeps Agrees _ _ (
        bind-Keeps Agrees _ _ (read_reg_byte-Keeps chip _) (λ y.
          then-Keeps Agrees _ _
            (when-Keeps Agrees _ _ (
              then-Keeps Agrees _ _ (harmless-Keeps chip _ _ _ refl)
                (harmless-Keeps chip _ _ _ refl)))
            rest)))

  pub packet_send-Keeps : (len : ℕ) → Keeps Agrees (packet_send chip len)
  unfolding packet_send
  packet_send-Keeps len =
      then-Keeps Agrees _ _
        (then-Keeps Agrees _ _
          (search (then-Keeps, wait_sent-Keeps, write_reg-Keeps, harmless-Keeps))
          (λ d. write_buf-Keeps chip (load d.buffer 0 len) d))
        (harmless-Keeps chip _ _ _ refl)

  store_packet-Keeps : (len : ℕ) → Keeps Agrees (store_packet chip len)
  unfolding store_packet
  store_packet-Keeps len = bind-Keeps Agrees _ _ (read_buf-Keeps chip len) (λ content d p. p)

  free_packet-Keeps : Keeps Agrees (free_packet chip)
  unfolding free_packet
  free_packet-Keeps d =
      then-Keeps Agrees _ _ (write_reg-Keeps _ _ refl refl) (harmless-Keeps chip _ _ _ refl) d

  take_packet-Keeps : Keeps Agrees (take_packet chip)
  unfolding take_packet
  take_packet-Keeps d =
      bind-Keeps Agrees _ _
        (then-Keeps Agrees _ _ (write_reg-Keeps _ _ refl refl) (read_buf-Keeps chip 6))
        (λ header.
          search (bind-Keeps, then-Keeps, when-Keeps, store_packet-Keeps, free_packet-Keeps))
        d

  pub packet_receive-Keeps : Keeps Agrees (packet_receive chip)
  unfolding packet_receive
  packet_receive-Keeps =
      bind-Keeps Agrees _ _ (read_reg_byte-Keeps chip _)
        (λ count. either-Keeps Agrees (ltb 0 count) _ _ take_packet-Keeps (λ d p. p))

  pub copyout-Keeps : (page : ℕ) (content : List ℕ) → Keeps Agrees (copyout chip page content)
  unfolding copyout
  copyout-Keeps page content = search (when-Keeps, then-Keeps, write_reg-Keeps, write_buf-Keeps)

  pub copyin-Keeps : (page : ℕ) → Keeps Agrees (copyin chip page)
  unfolding copyin
  copyin-Keeps page =
      either-Keeps Agrees (is_outside (page_at page)) _ _ (λ d p. p)
        (then-Keeps Agrees _ _ (write_reg-Keeps _ _ refl refl) (read_buf-Keeps chip _))

  pub peekin-Keeps : (page off : ℕ) → Keeps Agrees (peekin chip page off)
  unfolding peekin
  peekin-Keeps page off =
      let pos = u16 (page_at page + off) in
      either-Keeps Agrees (leb scratch_start pos && ltb pos scratch_limit)
        (write_reg chip erdpt pos >> read_buf chip 1 >>= λ content. return (get_or content 0 0))
        (return 0)
        (bind-Keeps Agrees _ _
          (then-Keeps Agrees _ _ (write_reg-Keeps _ _ refl refl) (read_buf-Keeps chip 1))
          (λ content d p. p))
        (λ d p. p)

  pub power_down-Keeps : Keeps Agrees (power_down chip)
  unfolding power_down
  power_down-Keeps = search (then-Keeps, harmless-Keeps, wait_reg-Keeps)

  pub power_up-Keeps : Keeps Agrees (power_up chip)
  unfolding power_up
  power_up-Keeps =
      then-Keeps Agrees _ _
        (then-Keeps Agrees _ _ (harmless-Keeps chip _ _ _ refl)
          (wait_clock-Keeps Agrees _ (read_reg_byte-Keeps chip _) _))
        (harmless-Keeps chip _ _ _ refl)
