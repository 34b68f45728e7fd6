-- ===== src/Tests.antt =====
-- Runs of the theorems on concrete inputs.
pub mod Values
pub mod Hosts
mod Toolkit
mod Lxc
pub mod Kernels
mod Netlinks
mod Networks
mod Buses
mod Gateways
mod Configuration
mod StartUps
mod Containers
mod Agents
mod Clearing
