-- ===== src/Examples.antt =====
-- The theorems at concrete inputs, and tests of the definitions.
mod Router
mod Mesh
mod Tasks
mod Device
mod Files
mod Network
mod Started
mod Exchange
mod Delivered
mod Hosting
mod Texts
mod Endings
mod Generated
