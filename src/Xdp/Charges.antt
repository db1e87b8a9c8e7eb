-- ===== src/Xdp/Charges.antt =====
-- A packet that the XDP programs answer is charged once: one more packet, and one more of the
-- aggregate that the answer names.
use caly_anti.Base.{ℕ, ◌≤◌, ◌≡◌, ◌≢◌, refl, arith, Bool-cases, inl, inr}
use caly_anti.Base.Word.{add_u64}
use caly_anti.Abi.Reason.{StatReason, reason_code}
use caly_anti.Xdp.State.{Maps, Source, VerdictCode, stat, gauge}
use caly_anti.Xdp.Run.{Fixed, Run, Act, XdpAction, xdp_pass, xdp_drop, xdp_tx}
use caly_anti.Xdp.Verdict.{
  Who, monitors, judge, count_reason, count_action, count_gauges, count_talker, account, finish,
  finish_quiet, emit,
}
use caly_anti.Xdp.Counts.{SameCounts, IsSettled}

-- The counters of an answer, beside those before it.
abbrev pub ChargedOnce : Maps → Maps → XdpAction → Type 0
ChargedOnce m m' xdp_pass =
    (m'.stats StatReason.pkt_total ≡ add_u64 (m.stats StatReason.pkt_total) 1)
    × (m'.stats StatReason.pass_total ≡ add_u64 (m.stats StatReason.pass_total) 1)
    × (m'.stats StatReason.drop_total ≡ m.stats StatReason.drop_total)
    × (m'.stats StatReason.tx_total ≡ m.stats StatReason.tx_total)
ChargedOnce m m' xdp_drop =
    (m'.stats StatReason.pkt_total ≡ add_u64 (m.stats StatReason.pkt_total) 1)
    × (m'.stats StatReason.pass_total ≡ m.stats StatReason.pass_total)
    × (m'.stats StatReason.drop_total ≡ add_u64 (m.stats StatReason.drop_total) 1)
    × (m'.stats StatReason.tx_total ≡ m.stats StatReason.tx_total)
ChargedOnce m m' xdp_tx = ⊥

count_talker-SameCounts :
    (fx : Fixed) (s : Source) (r : Run) (code : VerdictCode) (m : Maps)
    → SameCounts m (count_talker fx s r code m)
unfolding count_talker stat reason_code
count_talker-SameCounts fx s r code m = ground arith

count_gauges-SameCounts : (w : Who) (r : Run) (m : Maps) → SameCounts m (count_gauges w r m)
unfolding count_gauges gauge
count_gauges-SameCounts w r m = ground arith

emit-SameCounts : (fx : Fixed) (r : Run) (code : VerdictCode) → SameCounts r.maps (emit fx r code)
unfolding emit gauge stat reason_code
emit-SameCounts fx r code = ground arith

judge-IsSettled :
    (fx : Fixed) (m : Maps) (r : Run)
    → IsSettled m r
    → SameCounts m (judge fx r).0.maps
      × (5 ≤ reason_code (judge fx r).0.reason)
      × ((judge fx r).0.act ≢ Act.tx)
unfolding judge stat reason_code
judge-IsSettled fx m r h = elim (Bool-cases (monitors fx)) [
  | inl only ↦ ground arith
  | inr real ↦ ground arith
]

-- The counters of the answer are those of the action.
count_action-ChargedOnce :
    (m m' : Maps) (act : Act) (reason : StatReason) (len : ℕ)
    → SameCounts m m'
    → 5 ≤ reason_code reason
    → act ≢ Act.tx
    → ChargedOnce m
        (count_action act len (count_reason reason len (stat StatReason.pkt_total len m'))).0
        (count_action act len (count_reason reason len (stat StatReason.pkt_total len m'))).1
unfolding count_action count_reason stat gauge reason_code
count_action-ChargedOnce m m' Act.pass reason len same low h = ground arith
count_action-ChargedOnce m m' Act.drop reason len same low h = ground arith
count_action-ChargedOnce m m' Act.tx reason len same low h = absurd (h refl)

ChargedOnce-same :
    (m m' m'' : Maps) (action : XdpAction)
    → ChargedOnce m m' action
    → SameCounts m' m''
    → ChargedOnce m m'' action
ChargedOnce-same m m' m'' xdp_pass h same = ground arith
ChargedOnce-same m m' m'' xdp_drop h same = ground arith
ChargedOnce-same m m' m'' xdp_tx h same = h

account-ChargedOnce :
    (fx : Fixed) (w : Who) (m : Maps) (r : Run)
    → IsSettled m r
    → ChargedOnce m (account fx w r).0.0.maps (account fx w r).1
unfolding account
account-ChargedOnce fx w m r h =
    let (j, code) = judge fx r in
    let (same, low, act) = judge-IsSettled fx m r h in
    let counted =
      count_reason j.reason j.pkt.pkt_len (stat StatReason.pkt_total j.pkt.pkt_len j.maps) in
    let m' = (count_action j.act j.pkt.pkt_len counted).0 in
    ChargedOnce-same m (count_gauges w j m') (count_talker fx w.source j code (count_gauges w j m'))
      (count_action j.act j.pkt.pkt_len counted).1
      (ChargedOnce-same m m' (count_gauges w j m') (count_action j.act j.pkt.pkt_len counted).1
        (count_action-ChargedOnce m j.maps j.act j.reason j.pkt.pkt_len same low act)
        (count_gauges-SameCounts w j m'))
      (count_talker-SameCounts fx w.source j code (count_gauges w j m'))

pub finish_quiet-ChargedOnce :
    (fx : Fixed) (w : Who) (m : Maps) (r : Run)
    → IsSettled m r
    → ChargedOnce m (finish_quiet fx w r).0 (finish_quiet fx w r).1
unfolding finish_quiet
finish_quiet-ChargedOnce fx w m r h = account-ChargedOnce fx w m r h

pub finish-ChargedOnce :
    (fx : Fixed) (w : Who) (m : Maps) (r : Run)
    → IsSettled m r
    → ChargedOnce m (finish fx w r).0 (finish fx w r).1
unfolding finish
finish-ChargedOnce fx w m r h =
    let ((j, code), action) = account fx w r in
    ChargedOnce-same m j.maps (emit fx j code) action (account-ChargedOnce fx w m r h)
      (emit-SameCounts fx j code)
