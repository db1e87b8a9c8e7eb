-- ===== src/Abi/Bucket.antt =====
-- common.h: token buckets, the six kinds of bucket that a source has, and its rate state.
use caly_anti.Base.{ℕ}
use caly_anti.Abi.Reason.{StatReason}

pub record TokenBucket : Type 0 where
  pub tokens : ℕ
  pub last_refill_ns : ℕ

-- `enum caly_tb_kind`, less CALY_TB_MAX
pub data TbKind : Type 0 where
  pps bps syn udp icmp newconn : TbKind

-- An array that `enum caly_tb_kind` indexes.
pub record PerKind (A : Type 0) : Type 0 where
  pub at_pps : A
  pub at_bps : A
  pub at_syn : A
  pub at_udp : A
  pub at_icmp : A
  pub at_newconn : A

unfoldable pub slot : {A : Type 0} → TbKind → PerKind A → A
slot pps t = t.at_pps
slot bps t = t.at_bps
slot syn t = t.at_syn
slot udp t = t.at_udp
slot icmp t = t.at_icmp
slot newconn t = t.at_newconn

unfoldable pub put : {A : Type 0} → TbKind → A → PerKind A → PerKind A
put pps a t = record t { at_pps = a }
put bps a t = record t { at_bps = a }
put syn a t = record t { at_syn = a }
put udp a t = record t { at_udp = a }
put icmp a t = record t { at_icmp = a }
put newconn a t = record t { at_newconn = a }

pub record RateState : Type 0 where
  pub tb : PerKind TokenBucket
  pub window_start_ns : ℕ
  pub last_seen_ns : ℕ
  pub strikes : ℕ
  pub last_reason : StatReason
  pub offences : ℕ
  pub flags : ℕ
