-- ===== src/Sketch.antt =====
-- The globals of client_firmware/*.ino, and the constants of client_firmware.ino.
pub mod Lights
pub mod Eeprom
use ether_house.Base.{ℕ, ◌*◌, Bool, false, List, [], Memory, Ip, Mac}

-- The cells of the EEPROM, and the addresses that were written, newest first.
pub record Device : Type 0 where
  pub cells : Memory
  pub written : List ℕ

-- `state`, `target_mac` and the other variables that the functions share; the levels and the modes
-- of the pins; the device behind `EEPROM`.
pub record Sketch : Type 0 where
  pub target_mac : Mac
  pub target_ip : Ip
  pub api_ip : Ip
  pub state : ℕ
  pub pinger_timer : ℕ
  pub absense_timer : ℕ
  pub pingsweep_timer : ℕ
  pub sync_timer : ℕ
  pub locked : Bool
  pub sniffer_nested : Bool
  pub pins : Memory
  pub modes : Memory
  pub eeprom : Device

abbrev pub all_ones : Ip
all_ones = record { a0 = 255; a1 = 255; a2 = 255; a3 = 255 }

abbrev pub all_zeros : Ip
all_zeros = record { a0 = 0; a1 = 0; a2 = 0; a3 = 0 }

abbrev pub no_mac : Mac
no_mac = record { m0 = 255; m1 = 255; m2 = 255; m3 = 255; m4 = 255; m5 = 255 }

abbrev pub num_houses : ℕ
num_houses = 8

abbrev pub my_id : ℕ
my_id = 0

abbrev pub seconds : ℕ
seconds = 1000

abbrev pub minutes : ℕ
minutes = 60 * seconds

abbrev pub hours : ℕ
hours = 60 * minutes

abbrev pub pinger_interval : ℕ
pinger_interval = 2 * seconds

abbrev pub pingsweep_interval_find_target : ℕ
pingsweep_interval_find_target = 1 * minutes

abbrev pub pingsweep_interval_rescan : ℕ
pingsweep_interval_rescan = 1 * hours

abbrev pub sync_interval : ℕ
sync_interval = 5 * minutes

abbrev pub http_timeout : ℕ
http_timeout = 5 * seconds

abbrev pub absense_timeout : ℕ
absense_timeout = 15 * minutes

abbrev pub reboot_interval : ℕ
reboot_interval = 24 * hours

-- The variables as the program starts, with pins and cells as the hardware has them.
unfoldable pub initial : Memory → Memory → Device → Sketch
initial pins modes eeprom = record {
  target_mac = no_mac;
  target_ip = all_ones;
  api_ip = all_zeros;
  state = 0;
  pinger_timer = 0;
  absense_timer = 0;
  pingsweep_timer = 0;
  sync_timer = 0;
  locked = false;
  sniffer_nested = false;
  pins = pins;
  modes = modes;
  eeprom = eeprom;
}
