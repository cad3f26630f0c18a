-- ===== src/Net.antt =====
-- The loopback network stack of src/kernel/net: checksums, the queue of datagrams, IPv4 with ICMP
-- echo, TCP with its built-in web server, and the polling loops of net.c.
pub mod Checksum
pub mod Loopback
pub mod Ipv4
pub mod Tcp
pub mod Input
pub mod Stack
mod Tests
