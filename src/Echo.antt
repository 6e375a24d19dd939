-- ===== src/Echo.antt =====
-- finalTask1: an echo service over raw UDP sockets. `server.c` and `client.c` share the checksum and
-- the layout of a datagram, which `Checksum` and `Packet` model; memory is read and written as on a
-- little-endian machine.
pub mod Checksum
pub mod Packet
pub mod Clients
pub mod Server
pub mod Client
mod Tests
