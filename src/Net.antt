-- ===== src/Net.antt =====
-- Addresses of the standard library (std::net) and the interface of the `ipnet` crate.
pub mod Addr
pub mod IpNet
