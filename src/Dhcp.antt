-- ===== src/Dhcp.antt =====
-- The DHCPv4 client of the network rescue, sirati-nmbl/nmbl-init-rs/src/net/dhcp.
pub mod Packet
pub mod Checksum
pub mod RoundTrip
pub mod Bounds
pub mod Exchange
pub mod Acquire
pub mod Retries
pub mod Replies
pub mod Leases
mod Tests
