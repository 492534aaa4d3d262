-- ===== src/Lib.antt =====
-- The firmware of the ether_house lamps: client_firmware/*.ino of this repository, and the fork of
-- the EtherCard network library that it is built with, client_firmware/libraries/ethercard.
-- A lamp holds eight houses. Its firmware fetches the address of its owner's phone from a server,
-- listens for frames of that phone, tells the server when the phone comes and goes, and shows on
-- eight pins who is at home. Every source file with state has a module:
--   Sketch: the globals and constants of client_firmware/client_firmware.ino. Sketch/Lights is
--   client_firmware/lights.ino (bitRead, bitWrite, sync_leds, setup_pins); Sketch/Eeprom is
--     client_firmware/rw_helpers.ino (crc_calc, crc_write, saveStateToEeprom, readStateFromEeprom).
--   Http: find_response and is_200 of client_firmware/api_client.ino.
--   Net: the variables of client_firmware/libraries/ethercard/tcpip.cpp and the packet buffer, and
--   the positions of net.h in Net/Layout. Net/Checksum is fill_checksum; Net/Lan is is_lan and
--   updateBroadcastAddress, with is_ip_local of client_firmware/ping_sweep.ino; Net/Sequence is
--   step_seq, get_seq, set_seq and get_tcp_data_len; Net/Frames holds the functions that fill the
--   buffer with a reply, and Net/Frames/Requests those that fill it with a packet of their own;
--   Net/Sniffer is sniffer.cpp.
--   Net/Client is what starts a connection (clientTcpReq, browseUrl) and the tests of clientWaiting*.
--   Net/Dhcp is the messages of dhcp.cpp, with the options of RFC 2132 in Net/Dhcp/Options; Net/Dns
--   is the query and the answer of dns.cpp; Net/Filler is BufferFiller::emit_p of EtherCard.cpp and
--   the request that www_client_internal_datafill_cb writes with it; Net/Web is urlEncode and
--   urlDecode of webutil.cpp, Net/Web/Keys findKeyVal and Net/Web/Addresses parseIp and makeNetStr;
--   Net/UdpServer is udpserver.cpp.
--   Net/Filler/Post is the request with a body, Net/TcpReply is tcp_result_cb and tcpReply.
--   World: the sketch and the network with what surrounds them, and runs as a state monad. Env is
--   the surroundings; World/Packets is packetLoop with the TCP client and accept; World/Syslog is
--   client_firmware/syslog.ino and reboot of watchdog.ino; World/Api is the calls of the server of
--   api_client.ino, toggle_house of lights.ino, sniffer.ino, ping_sweep.ino and
--   selectAndArpDestAddr; World/Lease is DhcpStateMachine, which packetLoop runs first; World/Setup is
--   begin, dhcpSetup and dnsLookup; World/Main is setup and loop. World/Laws holds the theorems.
--   Stash: the class Stash of client_firmware/libraries/ethercard/EtherCard.cpp. Stash/Blocks is its
--   map of blocks, Stash/Texts its pages in RAM and the text; the record Scratch is what the driver
--   does with a page of the chip. Stash/Message is prepare and length, Stash/Extract extract and
--   cleanup, Stash/Sending the function of tcpip.cpp that calls them (tcp_datafill_cb).
--   Driver: client_firmware/libraries/ethercard/enc28j60.cpp, with the static variables and the bus.
--   Driver/Registers is its constants, Driver/Spi the instructions and the access to registers,
--   Driver/Packets the class ENC28J60 (initialize, packetSend, packetReceive, copyout and the filters),
--   Driver/SelfTest doBIST.
--   Base: tests, lists, memory, addresses, and the laws of bits. Tests: runs on concrete inputs.
-- An operation takes the state and returns the new one. A memory is a function from offsets to
-- bytes; a pointer into the packet buffer is an offset, and an array is the offsets from its own.
-- A write beyond an array reaches what stands behind it, as in the source. Numbers are natural
-- numbers, with each cast to 8, 16 or 32 bits written out. `~ x` on k bits is 2 ^ k - 1 - x.
-- Bounds and fuel: the loop of fill_checksum that folds the carries takes three rounds, which
-- suffice for any 32-bit sum; every other loop recurs on the rounds that it has left. urlDecode has a
-- pass for each character and its end. A loop that
-- waits for packets has `rounds` of the environment; they suffice where the deadline passes on the
-- clock within them. millis() is the low 32 bits of a clock that is any row of numbers.
-- The loops over the options of a DHCP
-- message and over an answer of a name server have a round for each byte of the packet and one.
-- extract has a round for each character that is written, each $ and each end of an argument.
-- Polling is two levels deep in World/Main, as the callback of the sniffer returns at once within
-- itself; World/Laws/Nested is about deeper ones.
-- atoi and itoa are the C library's; they are parameters, with what it says of decimal digits as
-- the hypotheses IsAtoi and IsItoa. `_crc16_update` is avr-libc's; it is a parameter, and where a
-- theorem relies on it the hypothesis IsCrc16 says what its documentation says. `EEPROM.read` and
-- `EEPROM.write` access cells. RAM, program memory and the EEPROM, from which prepare and extract
-- read texts, are the record Places.
-- The chip behind the driver is the row of bytes that it answers, one for each exchange, and the
-- driver's work is the row of transactions that it sends; a loop that waits for the chip has `rounds`.
-- The modules above the driver do not use this one: there `packetSend` is a frame that is added to a
-- list, and what packetReceive and isLinkUp give comes from the environment; World has the state of the
-- driver's filter of broadcasts, and the map of the Stash that begin sets up.
-- Not modelled: the setup of the pins and the SPI unit; the calls of clientTcpReq in httpPost and
-- tcpSend, the ping callback and dhcpAddOptionCallback, which the firmware does not use; the call of
-- the UDP listeners in packetLoop, as it registers none; the watchdog's interrupt; the examples of
-- the fork; what is printed on the serial port.
pub mod Base
pub mod Sketch
pub mod Http
pub mod Net
pub mod Stash
pub mod World
pub mod Driver
mod Tests
