-- ===== src/Tests.antt =====
-- Witnesses and tests: the theorems of the other modules at concrete inputs.
mod Data
mod Buckets
mod Sources
mod Bans
mod Scans
mod Sums
mod Frames
mod World
mod Firewall
mod Ladder
mod Sent
mod Inbound
