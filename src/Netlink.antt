-- ===== src/Netlink.antt =====
-- Routes from the kernel, src/netlink.rs.
pub mod Message
pub mod Kernel
pub mod Filter
pub mod Freshness
pub mod Events
pub mod Socket
pub mod Snapshot
pub mod Reconcile
