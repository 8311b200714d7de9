-- ===== src/Net.antt =====
-- kernel/net: the frame formats, the socket table and the interface.
pub mod Wire
pub mod Ethernet
pub mod Arp
pub mod Checksum
pub mod Ipv4
pub mod Icmp
pub mod Udp
pub mod Socket
pub mod Iface
mod Tests
