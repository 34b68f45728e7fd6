-- ===== src/Gateways.antt =====
-- The gateways that are classes over the base class of Gateway.antt.
pub mod Environment
pub mod Files
pub mod DeviceNode
pub mod Network
pub mod Cgroups
pub mod Sockets
pub mod DBus
