-- ===== src/Tests.antt =====
-- The properties at concrete inputs, and runs of the modelled code on small inputs.
pub mod Store
pub mod Lru
mod Placement
pub mod Instances
mod Backups
mod Placer
mod Lifetime
mod Links
mod Persist
mod Window
mod Group
