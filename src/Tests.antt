-- ===== src/Tests.antt =====
-- The theorems at concrete inputs.
mod Reports
mod Tags
mod Threads
mod Registries
mod Pools
mod Words
mod Basics
