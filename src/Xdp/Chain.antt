-- ===== src/Xdp/Chain.antt =====
-- bpf/xdp_firewall.bpf.c: the four programs, each with its own look at the configuration, and the
-- tail calls that join them. What one leaves in caly_scratch for the next is passed as `Carry`.
use caly_anti.Base.{ℕ, Bool, true, false, if◌then◌else◌, List, Option, none, some}
use caly_anti.Base.Bits.{test_bit}
use caly_anti.Abi.Bits.{if_monitor}
use caly_anti.Abi.Config.{FwConfig}
use caly_anti.Abi.Reason.{StatReason}
use caly_anti.Parse.Packet.{PktCtx}
use caly_anti.Xdp.State.{Maps, Env, Prog, v4, stat}
use caly_anti.Xdp.Run.{
  drop, XdpAction, xdp_pass, Fixed, Run, Flow, next, verdict, handed_over, start,
}
use caly_anti.Xdp.Verdict.{Who, finish, finish_quiet}
use caly_anti.Xdp.Policy.{who, policy_stages, lan_reason}
use caly_anti.Xdp.Action.{action_stages}
use caly_anti.Xdp.Frame.{Parsed, go, refuse, L4}
use caly_anti.Xdp.Network.{parse_layers}
use caly_anti.Xdp.Link.{Reached, settled, layer, fresh_ctx, iface_of, receive}

-- A code for the kernel, or the SYN proxy in the program's place.
pub data Outcome : Type 0 where
  returns : Maps → XdpAction → Outcome
  to_synproxy : Maps → PktCtx → Outcome

-- sc->carry_*
pub record Carry : Type 0 where
  pub is_wan : Bool
  pub if_monitor : Bool
  pub if_flags : ℕ
  pub icmp_tc : ℕ
  pub ct_missed : Bool
  pub ct_key_valid : Bool

abbrev pub answer : Maps × XdpAction → Outcome
answer (m, action) = returns m action

-- A lookup that fails: the packet passes.
unfoldable pub fail_open : StatReason → ℕ → Maps → Outcome
fail_open why len m =
    returns (stat StatReason.pass_total len (stat why len (stat StatReason.pkt_total len m)))
      xdp_pass

-- The two lookups at the head of each program.
unfoldable pub on_lookups : Bool → ℕ → (FwConfig → Outcome) → Maps → Option FwConfig → Outcome
unfolding fail_open
on_lookups scratch len run m none = fail_open StatReason.config_missing len m
on_lookups true len run m (some cfg) = run cfg
on_lookups false len run m (some cfg) = fail_open StatReason.scratch_fail len m

unfoldable pub with_config : Env → Prog → ℕ → (FwConfig → Outcome) → Maps → Outcome
unfolding on_lookups
with_config env prog len run m = on_lookups (env.scratch prog) len run m (env.config prog)

abbrev pub fixed : Env → FwConfig → Carry → Fixed
fixed env cfg c = record {
  env = env;
  cfg = cfg;
  is_wan = c.is_wan;
  if_monitor = c.if_monitor;
  if_flags = c.if_flags;
  icmp_tc = c.icmp_tc;
}

-- Where a stage ends, in the program that has no further one.
unfoldable pub conclude : (Run → Outcome) → (Run → Outcome) → Flow → Outcome
conclude rest last (next r) = rest r
conclude rest last (verdict r) = last r
conclude rest last (handed_over r) = to_synproxy r.maps r.pkt

unfoldable pub xdp_action : Env → Carry → PktCtx → Maps → Outcome
unfolding with_config conclude
xdp_action env c pkt m =
    with_config env Prog.action 0
      (λ cfg.
        let fx = fixed env cfg c in
        let last = λ (r : Run). answer (finish fx (who pkt) r) in
        conclude last last (
          action_stages fx
            (record (start m pkt) { ct_missed = c.ct_missed; ct_key_valid = c.ct_key_valid })))
      m

-- `bpf_tail_call(...); caly_stat(STAT_TAILCALL_FAIL, ...);`
abbrev pub no_call : Run → Run
no_call r = record r { maps = stat StatReason.tailcall_fail r.pkt.pkt_len r.maps }

unfoldable pub xdp_policy : Env → Carry → PktCtx → Maps → Outcome
unfolding with_config conclude
xdp_policy env c pkt m =
    with_config env Prog.policy 0
      (λ cfg.
        let fx = fixed env cfg c in
        let last = λ (r : Run). answer (finish_quiet fx (who pkt) r) in
        let rest = λ (r : Run).
          if env.tail_call Prog.action
          then xdp_action env (record c { ct_missed = r.ct_missed; ct_key_valid = r.ct_key_valid })
              r.pkt r.maps
          else last (lan_reason fx (no_call r)) in
        conclude rest last (policy_stages fx (start m pkt)))
      m

-- Before the policy no program knows the source: the key is that of 0.0.0.0.
abbrev pub nobody : Who
nobody = record { source = v4 0; is_syn = false; is_icmp = false }

-- What follows the parser of the second program.
unfoldable pub after_parse : Env → Carry → FwConfig → Maps → Parsed L4 → Outcome
after_parse env c cfg m (refuse reason pkt) =
    answer (finish (fixed env cfg c) nobody (record (start m pkt) { reason = reason; act = drop }))
after_parse env c cfg m (go (pkt, icmp_tc)) =
    if env.tail_call Prog.policy
    then xdp_policy env (record c { icmp_tc = icmp_tc }) pkt m
    else answer (finish (fixed env cfg c) nobody (no_call (start m pkt)))

unfoldable pub xdp_parse : Env → Carry → List ℕ → PktCtx → ℕ → ℕ → Maps → Outcome
unfolding with_config after_parse
xdp_parse env c f pkt off proto m =
    with_config env Prog.parse 0 (λ cfg. after_parse env c cfg m (parse_layers f cfg pkt off proto))
      m

-- What follows the stages of the first program.
unfoldable pub after_link : Env → Carry → FwConfig → List ℕ → Maps → Reached → Outcome
after_link env c cfg f m (settled reason act pkt) =
    answer (finish (fixed env cfg c) nobody (record (start m pkt) { reason = reason; act = act }))
after_link env c cfg f m (layer pkt off proto) =
    if env.tail_call Prog.parse
    then xdp_parse env c f pkt off proto m
    else answer (finish (fixed env cfg c) nobody (no_call (start m pkt)))

unfoldable pub xdp_main : Env → List ℕ → ℕ → ℕ → Maps → Outcome
unfolding with_config after_link
xdp_main env f ifindex now m =
    let pkt = fresh_ctx f ifindex now in
    with_config env Prog.main pkt.pkt_len
      (λ cfg.
        let face = iface_of cfg (env.iface ifindex) in
        let c : Carry = record {
          is_wan = face.is_wan;
          if_monitor = test_bit face.flags if_monitor;
          if_flags = face.flags;
          icmp_tc = 0;
          ct_missed = false;
          ct_key_valid = false;
        } in
        after_link env c cfg f m (receive cfg (env.iface ifindex) f pkt))
      m
