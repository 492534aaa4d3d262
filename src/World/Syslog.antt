-- ===== src/World/Syslog.antt =====
-- client_firmware/syslog.ino and watchdog.ino: log messages as UDP broadcasts, and the reset.
use Prim.Native.String.{String}
use ether_house.Base.{ℕ, ◌+◌, List, ◌∷◌, ◌++◌, u8, length, bytes}
use ether_house.Net.Frames.Requests.{send_udp}
use ether_house.Sketch.{all_ones, my_id}
use ether_house.World.{Env, M, ◌>>◌, on_net, reboots}

abbrev pub message : List ℕ → List ℕ
message logstring = bytes "<62>etherhouse" ++ (b'0' + my_id) ∷ b' ' ∷ logstring

-- `string_size - 1` is the length of the message without its end.
unfoldable pub syslog_bytes : List ℕ → M (Unit {0})
syslog_bytes logstring =
    on_net (send_udp (message logstring) (u8 (length (message logstring))) 514 all_ones 514)

-- The overload for a text in program memory.
unfoldable pub syslog : String → M (Unit {0})
syslog logstring = syslog_bytes (bytes logstring)

-- The overload for a `char *`: strlen_P and strcpy_P read program memory at the array's address.
unfoldable pub syslog_ram : Env → M (Unit {0})
syslog_ram env = syslog_bytes env.flash_text

abbrev pub jump : M (Unit {0})
jump w = reboots w

unfoldable pub reboot : M (Unit {0})
reboot = syslog "Rebooting now." >> jump

unfoldable pub reboot_after_delay : M (Unit {0})
reboot_after_delay = syslog "Delayed reboot initiated." >> reboot
