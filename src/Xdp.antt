-- ===== src/Xdp.antt =====
-- bpf/xdp_firewall.bpf.c: the XDP program, a chain of four programs that tail-call each other.
-- State is what they keep in maps, and each stage of the ladder is a module below.
pub mod State
pub mod Run
pub mod Bans
pub mod Verdict
pub mod Anomaly
pub mod Reputation
pub mod Conntrack
pub mod Policy
pub mod Ports
pub mod Rates
pub mod Scans
pub mod Action
pub mod Frame
pub mod Frame6
pub mod Network
pub mod Link
pub mod Chain
pub mod Stages
pub mod Counts
pub mod Reasons
pub mod CountedPolicy
pub mod CountedAction
pub mod Charges
pub mod Refusals
pub mod Answers
pub mod Admission
pub mod Silence
pub mod Escapes
pub mod BanResult
pub mod RateSame
pub mod Learning
pub mod Forged
pub mod Monitor
pub mod BanOrder
