-- ===== src/Driver/Registers.antt =====
-- The registers, their bits and the instructions of the network chip, as libraries/ethercard/
-- enc28j60.cpp names them. A register's number is its address in bits 0 to 4, its bank in bits 5 and
-- 6, and bit 7 for the registers whose answer comes a byte later.
use ether_house.Base.{ℕ}

abbrev pub addr_mask : ℕ
addr_mask = 0x1f

abbrev pub bank_mask : ℕ
bank_mask = 0x60

abbrev pub eie : ℕ
eie = 0x1b

abbrev pub eir : ℕ
eir = 0x1c

abbrev pub estat : ℕ
estat = 0x1d

abbrev pub econ2 : ℕ
econ2 = 0x1e

abbrev pub econ1 : ℕ
econ1 = 0x1f

abbrev pub erdpt : ℕ
erdpt = 0x00

abbrev pub ewrpt : ℕ
ewrpt = 0x02

abbrev pub etxst : ℕ
etxst = 0x04

abbrev pub etxnd : ℕ
etxnd = 0x06

abbrev pub erxst : ℕ
erxst = 0x08

abbrev pub erxnd : ℕ
erxnd = 0x0a

abbrev pub erxrdpt : ℕ
erxrdpt = 0x0c

abbrev pub edmast : ℕ
edmast = 0x10

abbrev pub edmand : ℕ
edmand = 0x12

abbrev pub edmacs : ℕ
edmacs = 0x16

abbrev pub epmm0 : ℕ
epmm0 = 0x28

abbrev pub epmcs : ℕ
epmcs = 0x30

abbrev pub erxfcon : ℕ
erxfcon = 0x38

abbrev pub epktcnt : ℕ
epktcnt = 0x39

abbrev pub macon1 : ℕ
macon1 = 0xc0

abbrev pub macon2 : ℕ
macon2 = 0xc1

abbrev pub macon3 : ℕ
macon3 = 0xc2

abbrev pub mabbipg : ℕ
mabbipg = 0xc4

abbrev pub maipg : ℕ
maipg = 0xc6

abbrev pub mamxfl : ℕ
mamxfl = 0xca

abbrev pub micmd : ℕ
micmd = 0xd2

abbrev pub miregadr : ℕ
miregadr = 0xd4

abbrev pub miwr : ℕ
miwr = 0xd6

abbrev pub mird : ℕ
mird = 0xd8

abbrev pub maadr1 : ℕ
maadr1 = 0xe0

abbrev pub maadr0 : ℕ
maadr0 = 0xe1

abbrev pub maadr3 : ℕ
maadr3 = 0xe2

abbrev pub maadr2 : ℕ
maadr2 = 0xe3

abbrev pub maadr5 : ℕ
maadr5 = 0xe4

abbrev pub maadr4 : ℕ
maadr4 = 0xe5

abbrev pub ebstsd : ℕ
ebstsd = 0x66

abbrev pub ebstcon : ℕ
ebstcon = 0x67

abbrev pub ebstcs : ℕ
ebstcs = 0x68

abbrev pub mistat : ℕ
mistat = 0xea

abbrev pub erevid : ℕ
erevid = 0x72

abbrev pub erxfcon_mcen : ℕ
erxfcon_mcen = 0x02

abbrev pub erxfcon_bcen : ℕ
erxfcon_bcen = 0x01

abbrev pub eie_intie : ℕ
eie_intie = 0x80

abbrev pub eie_pktie : ℕ
eie_pktie = 0x40

abbrev pub eir_txerif : ℕ
eir_txerif = 0x02

abbrev pub estat_rxbusy : ℕ
estat_rxbusy = 0x04

abbrev pub estat_clkrdy : ℕ
estat_clkrdy = 0x01

abbrev pub econ2_pktdec : ℕ
econ2_pktdec = 0x40

abbrev pub econ2_pwrsv : ℕ
econ2_pwrsv = 0x20

abbrev pub econ2_vrps : ℕ
econ2_vrps = 0x08

abbrev pub econ1_txrst : ℕ
econ1_txrst = 0x80

abbrev pub econ1_dmast : ℕ
econ1_dmast = 0x20

abbrev pub econ1_csumen : ℕ
econ1_csumen = 0x10

abbrev pub econ1_txrts : ℕ
econ1_txrts = 0x08

abbrev pub econ1_rxen : ℕ
econ1_rxen = 0x04

abbrev pub econ1_bsel1 : ℕ
econ1_bsel1 = 0x02

abbrev pub econ1_bsel0 : ℕ
econ1_bsel0 = 0x01

abbrev pub macon1_txpaus : ℕ
macon1_txpaus = 0x08

abbrev pub macon1_rxpaus : ℕ
macon1_rxpaus = 0x04

abbrev pub macon1_marxen : ℕ
macon1_marxen = 0x01

abbrev pub macon3_padcfg0 : ℕ
macon3_padcfg0 = 0x20

abbrev pub macon3_txcrcen : ℕ
macon3_txcrcen = 0x10

abbrev pub macon3_frmlnen : ℕ
macon3_frmlnen = 0x02

abbrev pub micmd_miird : ℕ
micmd_miird = 0x01

abbrev pub mistat_busy : ℕ
mistat_busy = 0x01

abbrev pub ebstcon_psel : ℕ
ebstcon_psel = 0x10

abbrev pub ebstcon_tme : ℕ
ebstcon_tme = 0x02

abbrev pub ebstcon_bistst : ℕ
ebstcon_bistst = 0x01

abbrev pub phcon2 : ℕ
phcon2 = 0x10

abbrev pub phstat2 : ℕ
phstat2 = 0x11

abbrev pub phcon2_hdldis : ℕ
phcon2_hdldis = 0x100

abbrev pub read_ctrl_reg : ℕ
read_ctrl_reg = 0x00

abbrev pub read_buf_mem : ℕ
read_buf_mem = 0x3a

abbrev pub write_ctrl_reg : ℕ
write_ctrl_reg = 0x40

abbrev pub write_buf_mem : ℕ
write_buf_mem = 0x7a

abbrev pub bit_field_set : ℕ
bit_field_set = 0x80

abbrev pub bit_field_clr : ℕ
bit_field_clr = 0xa0

abbrev pub soft_reset : ℕ
soft_reset = 0xff

abbrev pub rxstart_init : ℕ
rxstart_init = 0x00

abbrev pub rxstop_init : ℕ
rxstop_init = 0xbff

abbrev pub txstart_init : ℕ
txstart_init = 0xc00

abbrev pub txstop_init : ℕ
txstop_init = 0x11ff

abbrev pub scratch_start : ℕ
scratch_start = 0x1200

abbrev pub scratch_limit : ℕ
scratch_limit = 0x2000

abbrev pub scratch_page_shift : ℕ
scratch_page_shift = 0x06

abbrev pub max_framelen : ℕ
max_framelen = 0x5dc

abbrev pub scratch_page_size : ℕ
scratch_page_size = 64
