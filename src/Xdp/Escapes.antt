-- ===== src/Xdp/Escapes.antt =====
-- The ways past the policy: the allowlist, the management ports, and the ICMP messages that a host
-- cannot do without.
use caly_anti.Base.{ℕ, ◌≡◌, arith, refl, true, ◌&&◌, not, ltb, ◌==◌, if◌then◌else◌, some}
use caly_anti.Abi.Bits.{f_allowlist, f_mgmt_bypass_all, f_frag_checks, pkt_frag, pkt_mgmt}
use caly_anti.Base.Bits.{set_bit}
use caly_anti.Abi.Config.{FwConfig}
use caly_anti.Abi.Reason.{StatReason, reason_code}
use caly_anti.Parse.Packet.{PktCtx}
use caly_anti.Xdp.State.{Maps, Env, Prog, source, is_v4}
use caly_anti.Xdp.Run.{
  Fixed, Run, Flow, Act, xdp_pass, next, verdict, flag, pkt_flag, start, drop_for, pass_for,
  Ensures,
}
use caly_anti.Xdp.Verdict.{Who, judge, count_action, account, finish_quiet}
use caly_anti.Xdp.Counts.{IsOpen, IsSettled, SameCounts}
use caly_anti.Xdp.CountedPolicy.{anomalies-Counted}
use caly_anti.Xdp.Anomaly.{mandatory_reason, icmp_limit, icmp_payload, anomalies}
use caly_anti.Xdp.Reputation.{allow_hit, allowlist, to_mgmt_port, mgmt_ports}
use caly_anti.Xdp.Policy.{who, policy_stages}
use caly_anti.Xdp.Chain.{Carry, fixed, returns, conclude, with_config, on_lookups, xdp_policy}
use mathlib.Core.Path.{subst}

finish_quiet_pass :
    (fx : Fixed) (w : Who) (r : Run) → r.act ≡ Act.pass → (finish_quiet fx w r).1 ≡ xdp_pass
unfolding finish_quiet account judge count_action
finish_quiet_pass fx w r h = ground arith

-- What is left of the run when the anomaly checks go on.
pub anomalies_pass :
    (fx : Fixed) (m : Maps) (pkt : PktCtx) (r : Run)
    → anomalies fx (start m pkt) ≡ next r
    → r.act ≡ Act.pass
anomalies_pass fx m pkt r h =
    let open_run : IsOpen m (start m pkt) = unfold start in unfold reason_code in ground arith in
    (subst (Ensures (IsOpen m) (IsSettled m) (λ s. SameCounts m s.maps)) h
      (anomalies-Counted m fx (start m pkt) open_run)).1

allowlist_pass :
    (fx : Fixed) (r s : Run) → r.act ≡ Act.pass → allowlist fx r ≡ next s → s.act ≡ Act.pass
unfolding allowlist pass_for
allowlist_pass fx r s act h = ground arith

-- The program's answer to a packet that some stage passes.
settled_pass :
    (env : Env) (c : Carry) (pkt : PktCtx) (m : Maps) (cfg : FwConfig) (r : Run)
    → env.config Prog.policy ≡ some cfg
    → env.scratch Prog.policy ≡ true
    → policy_stages (fixed env cfg c) (start m pkt) ≡ verdict r
    → r.act ≡ Act.pass
    → (m' : Maps) × (xdp_policy env c pkt m ≡ returns m' xdp_pass)
unfolding xdp_policy with_config on_lookups conclude
settled_pass env c pkt m cfg r found held ended act = (
  (finish_quiet (fixed env cfg c) (who pkt) r).0,
  rw (found, held, ended, finish_quiet_pass (fixed env cfg c) (who pkt) r act) refl,
)

-- A source that the allowlist matches gets XDP_PASS from the policy once its packet shows no anomaly.
-- The blocklist, a ban, the connection table, the port policy and the mode, lockdown included, have no
-- say in it.
pub xdp_policy_allowlist :
    (env : Env) (c : Carry) (pkt : PktCtx) (m : Maps) (cfg : FwConfig) (r : Run) (i : ℕ)
    → env.config Prog.policy ≡ some cfg
    → env.scratch Prog.policy ≡ true
    → anomalies (fixed env cfg c) (start m pkt) ≡ next r
    → flag (fixed env cfg c) f_allowlist ≡ true
    → env.allow_match (source r.pkt) ≡ some i
    → (m' : Maps) × (xdp_policy env c pkt m ≡ returns m' xdp_pass)
unfolding policy_stages allowlist allow_hit pass_for
xdp_policy_allowlist env c pkt m cfg r i found held clean on matched =
    settled_pass env c pkt m cfg (record (allow_hit r i) { reason = StatReason.pass_allowlist })
      found held (rw (clean, on, matched) refl) (anomalies_pass (fixed env cfg c) m pkt r clean)

-- With CALY_F_MGMT_BYPASS_ALL a packet to a management port gets XDP_PASS from the policy once it
-- shows no anomaly, if the allowlist does not pass it before: being banned or blocked, or a lockdown,
-- does not cost the operator a login.
pub xdp_policy_mgmt_port :
    (env : Env) (c : Carry) (pkt : PktCtx) (m : Maps) (cfg : FwConfig) (r s : Run)
    → env.config Prog.policy ≡ some cfg
    → env.scratch Prog.policy ≡ true
    → anomalies (fixed env cfg c) (start m pkt) ≡ next r
    → allowlist (fixed env cfg c) r ≡ next s
    → to_mgmt_port (fixed env cfg c) s ≡ true
    → flag (fixed env cfg c) f_mgmt_bypass_all ≡ true
    → (m' : Maps) × (xdp_policy env c pkt m ≡ returns m' xdp_pass)
unfolding policy_stages mgmt_ports pass_for
xdp_policy_mgmt_port env c pkt m cfg r s found held clean missed mgmt on =
    settled_pass env c pkt m cfg
      (record s {
        pkt = record s.pkt { flags = set_bit s.pkt.flags pkt_mgmt };
        reason = StatReason.pass_mgmt_port;
      })
      found held (rw (clean, missed, mgmt, on) refl)
      (allowlist_pass (fixed env cfg c) r s (anomalies_pass (fixed env cfg c) m pkt r clean) missed)

-- What becomes of a mandatory ICMP message: a fragment or an oversized one is dropped all the same.
unfoldable pub mandatory_outcome : Fixed → Run → Flow
mandatory_outcome fx r =
    if flag fx f_frag_checks && pkt_flag r pkt_frag
    then drop_for StatReason.drop_frag_icmp r
    else if not (icmp_limit fx r == 0) && ltb (icmp_limit fx r) (icmp_payload r)
    then drop_for
        (if is_v4 r.pkt then StatReason.drop_icmp_oversize else StatReason.drop_icmp6_oversize) r
    else pass_for (mandatory_reason fx r) (record r { icmp_policy = 1 })
