-- ===== src/Xdp/Silence.antt =====
-- The verdict of `caly_xdp_policy` has no event block.
use mathlib.Core.Path.{subst}
use caly_anti.Base.{ℕ, ◌≡◌, ◌∙◌, arith, refl, true, some}
use caly_anti.Abi.Reason.{StatReason}
use caly_anti.Abi.Config.{FwConfig}
use caly_anti.Xdp.State.{Maps, Env, Prog, Source, VerdictCode, stat, gauge}
use caly_anti.Xdp.Run.{Fixed, Run, Act, XdpAction, Ensures, verdict, start}
use caly_anti.Xdp.Verdict.{
  Who, judge, count_reason, count_action, count_gauges, count_talker, account, finish_quiet,
}
use caly_anti.Xdp.Admission.{IsQuiet, IsJudged, Never, policy_stages-Judged}
use caly_anti.Xdp.Policy.{policy_stages, who}
use caly_anti.Xdp.Chain.{Carry, fixed, returns, conclude, with_config, on_lookups, xdp_policy}
use caly_anti.Parse.Packet.{PktCtx}

stat_events : (reason : StatReason) (len : ℕ) (m : Maps) → (stat reason len m).events ≡ m.events
unfolding stat
stat_events reason len m = ground arith

judge_events : (fx : Fixed) (r : Run) → (judge fx r).0.maps.events ≡ r.maps.events
unfolding judge
judge_events fx r = ground (arith, stat_events StatReason.monitor_would_drop r.pkt.pkt_len r.maps)

count_reason_events :
    (reason : StatReason) (len : ℕ) (m : Maps) → (count_reason reason len m).events ≡ m.events
unfolding count_reason
count_reason_events reason len m = ground (arith, stat_events reason len m)

count_action_events :
    (act : Act) (len : ℕ) (m : Maps) → (count_action act len m).0.events ≡ m.events
unfolding count_action gauge
count_action_events Act.pass len m = stat_events StatReason.pass_total len m
count_action_events Act.drop len m = stat_events StatReason.drop_total len m
count_action_events Act.tx len m = stat_events StatReason.tx_total len m

count_gauges_events : (w : Who) (r : Run) (m : Maps) → (count_gauges w r m).events ≡ m.events
unfolding count_gauges gauge
count_gauges_events w r m = ground arith

count_talker_events :
    (fx : Fixed) (s : Source) (r : Run) (code : VerdictCode) (m : Maps)
    → (count_talker fx s r code m).events ≡ m.events
unfolding count_talker stat
count_talker_events fx s r code m = ground arith

finish_quiet_events :
    (fx : Fixed) (w : Who) (r : Run) → (finish_quiet fx w r).0.events ≡ r.maps.events
unfolding finish_quiet account
finish_quiet_events fx w r =
    let (j, code) = judge fx r in
    let len = j.pkt.pkt_len in
    let total = stat StatReason.pkt_total len j.maps in
    let m = (count_action j.act len (count_reason j.reason len total)).0 in
    count_talker_events fx w.source j code (count_gauges w j m)
    ∙ count_gauges_events w j m
    ∙ count_action_events j.act len (count_reason j.reason len total)
    ∙ count_reason_events j.reason len total
    ∙ stat_events StatReason.pkt_total len j.maps
    ∙ judge_events fx r

-- A packet that the policy settles itself is never reported: whatever CALY_F_LOG_EVENTS, the sample
-- rate and the rules that ask for a log say, the program answers and the events sent to userspace
-- are those sent before. This is so of every drop by the blocklist, a ban or the lockdown.
pub xdp_policy_silent :
    (env : Env) (c : Carry) (pkt : PktCtx) (m : Maps) (cfg : FwConfig) (r : Run)
    → env.config Prog.policy ≡ some cfg
    → env.scratch Prog.policy ≡ true
    → policy_stages (fixed env cfg c) (start m pkt) ≡ verdict r
    → (m' : Maps) × (action : XdpAction) × (xdp_policy env c pkt m ≡ returns m' action)
      × (m'.events ≡ m.events)
unfolding xdp_policy with_config on_lookups conclude
xdp_policy_silent env c pkt m cfg r found held ended =
    let fx = fixed env cfg c in
    let start_quiet : IsQuiet m.events (start m pkt) = unfold start in (refl, refl) in
    let judged =
      subst (Ensures (IsQuiet m.events) (IsJudged m.events) Never) ended
        (policy_stages-Judged m.events fx (start m pkt) start_quiet) in
    (
      (finish_quiet fx (who pkt) r).0,
      (finish_quiet fx (who pkt) r).1,
      rw (found, held, ended) refl,
      finish_quiet_events fx (who pkt) r ∙ judged.0,
    )
