-- ===== src/Tests.antt =====
-- Concrete states, runs of the modelled code on them, and the theorems at them.
mod Connections
mod Limits
mod Texts
mod Traffic
mod Tasks
mod Nodes
mod Hysteria
mod Panel
mod Life
mod Cores
