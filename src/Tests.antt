-- ===== src/Tests.antt =====
-- Runs on concrete inputs: the theorems at inputs that meet their hypotheses.
mod Sketch
mod Net
mod World
mod Dhcp
mod Dns
mod UdpServer
mod Web
mod Driver
mod Stash
