-- ===== src/Tests.antt =====
-- Runs of the driver on a simulated platform, and the theorems at concrete inputs.
mod Life
mod Logged
mod Memory
mod Traffic
mod Cards
mod Echo
mod Chip
mod Links
mod Sim
mod Bus
mod Tags
mod Card
mod Machine
