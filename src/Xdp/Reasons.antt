-- ===== src/Xdp/Reasons.antt =====
-- The reasons that the classifiers of a packet give are those of drops.
use caly_anti.Base.{ℕ, ◌≤◌, ◌≡◌, ◌⊎◌, arith, Bool, List}
use caly_anti.Abi.Reason.{StatReason, reason_code}
use caly_anti.Source.{v4_src_bogon, v6_src_bogon, tcp_flags_illegal}

-- No objection, or the reason of a drop.
abbrev pub Objects : StatReason → Type 0
Objects reason = (reason_code reason ≡ 0) ⊎ ((19 ≤ reason_code reason) × (reason_code reason ≤ 80))

pub v4_src_bogon-Objects :
    (a b c d : ℕ) (drop_private : Bool) → Objects (v4_src_bogon a b c d drop_private)
unfolding v4_src_bogon reason_code
v4_src_bogon-Objects a b c d drop_private = ground arith

pub v6_src_bogon-Objects :
    (a : List ℕ) (drop_private : Bool) → Objects (v6_src_bogon a drop_private)
unfolding v6_src_bogon reason_code
v6_src_bogon-Objects a drop_private = ground arith

pub tcp_flags_illegal-Objects : (flags : ℕ) → Objects (tcp_flags_illegal flags)
unfolding tcp_flags_illegal reason_code
tcp_flags_illegal-Objects flags = ground arith
