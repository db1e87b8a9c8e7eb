-- ===== src/Xdp/Run.antt =====
-- bpf/xdp_firewall.bpf.c: the locals of a program, and the control flow of its stages: a stage falls
-- through (`next`), goes to the verdict (`goto verdict`), or has handed the packet to the SYN proxy
-- by a tail call that does not return.
use caly_anti.Base.{ℕ, Bool, false, Option, none}
use caly_anti.Base.Bits.{test_bit}
use caly_anti.Abi.Config.{FwConfig}
use caly_anti.Abi.Reason.{StatReason}
use caly_anti.Bucket.{PortRule}
use caly_anti.Parse.Packet.{PktCtx}
use caly_anti.Xdp.State.{Maps, Env}

-- CALY_ACT_*; no program sets CALY_ACT_TX
pub data Act : Type 0 where
  pass drop tx : Act

-- The code that the kernel gets.
pub data XdpAction : Type 0 where
  xdp_pass xdp_drop xdp_tx : XdpAction

-- What does not change while a program runs.
pub record Fixed : Type 0 where
  pub env : Env
  pub cfg : FwConfig
  pub is_wan : Bool
  pub if_monitor : Bool
  pub if_flags : ℕ
  pub icmp_tc : ℕ

pub record Run : Type 0 where
  pub maps : Maps
  pub pkt : PktCtx
  pub reason : StatReason
  pub act : Act
  pub want_event : Bool
  pub evval : ℕ
  pub ban_ttl : ℕ
  pub icmp_policy : ℕ
  pub ban_deferred : Bool
  pub ct_missed : Bool
  pub ct_key_valid : Bool
  pub prule : Option PortRule

pub data Flow : Type 0 where
  next : Run → Flow
  verdict : Run → Flow
  handed_over : Run → Flow

infixl 5 ◌>>=◌
abbrev pub ◌>>=◌ : Flow → (Run → Flow) → Flow
next r >>= f = f r
verdict r >>= f = verdict r
handed_over r >>= f = handed_over r

abbrev pub flag : Fixed → ℕ → Bool
flag fx k = test_bit fx.cfg.flags k

abbrev pub pkt_flag : Run → ℕ → Bool
pkt_flag r k = test_bit r.pkt.flags k

-- `reason = ...; act = CALY_ACT_DROP; goto verdict;`
unfoldable pub drop_for : StatReason → Run → Flow
drop_for reason r = verdict (record r { reason = reason; act = drop })

-- `reason = ...; goto verdict;`
unfoldable pub pass_for : StatReason → Run → Flow
pass_for reason r = verdict (record r { reason = reason })

-- The locals at the start of a program.
unfoldable pub start : Maps → PktCtx → Run
start m pkt = record {
  maps = m;
  pkt = pkt;
  reason = StatReason.pass_default;
  act = pass;
  want_event = false;
  evval = 0;
  ban_ttl = 0;
  icmp_policy = 1;
  ban_deferred = false;
  ct_missed = false;
  ct_key_valid = false;
  prule = none;
}

-- What holds of the locals wherever a stage ends.
abbrev pub Ensures {ℓ} : (Run → Type ℓ) → (Run → Type ℓ) → (Run → Type ℓ) → Flow → Type ℓ
Ensures N V H (next r) = N r
Ensures N V H (verdict r) = V r
Ensures N V H (handed_over r) = H r

pub Ensures-bind {ℓ} :
    (N M V H : Run → Type ℓ) (m : Flow) (f : Run → Flow)
    → Ensures N V H m
    → ((r : Run) → N r → Ensures M V H (f r))
    → Ensures M V H (m >>= f)
Ensures-bind N M V H (next r) f h k = k r h
Ensures-bind N M V H (verdict r) f h k = h
Ensures-bind N M V H (handed_over r) f h k = h

-- One property that every stage keeps.
abbrev pub Keeps {ℓ} : (Run → Type ℓ) → (Run → Flow) → Type ℓ
Keeps P f = (r : Run) → P r → Ensures P P P (f r)

pub Keeps-bind {ℓ} :
    (P : Run → Type ℓ) (f g : Run → Flow) → Keeps P f → Keeps P g → Keeps P (λ r. f r >>= g)
Keeps-bind P f g kf kg r h = Ensures-bind P P P P (f r) g (kf r h) kg
