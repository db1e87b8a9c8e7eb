-- ===== src/Xdp/Answers.antt =====
-- The tail-call chain as a whole charges each packet once.
use caly_anti.Base.{
  ℕ, arith, Bool, true, false, List, Bool-cases, inl, inr, Option, none, some, ◌<◌, if◌then◌else◌,
}
use caly_anti.Abi.Config.{FwConfig}
use caly_anti.Abi.Reason.{StatReason, reason_code}
use caly_anti.Base.Bits.{set_bit}
use caly_anti.Abi.Bits.{pkt_wan}
use caly_anti.Compat.{vlan_depth_bound}
use caly_anti.Parse.Packet.{PktCtx}
use caly_anti.Xdp.State.{Maps, Env, Prog, IfaceConfig, stat}
use caly_anti.Xdp.Run.{Fixed, Run, Flow, Act, XdpAction, Ensures, next, verdict, handed_over, start}
use caly_anti.Xdp.Verdict.{finish}
use caly_anti.Xdp.Counts.{SameCounts, Fits, IsOpen, IsSettled}
use caly_anti.Xdp.Charges.{ChargedOnce, finish-ChargedOnce, finish_quiet-ChargedOnce}
use caly_anti.Xdp.CountedPolicy.{policy_stages-Counted}
use caly_anti.Xdp.CountedAction.{action_stages-Counted}
use caly_anti.Xdp.Policy.{who, policy_stages, lan_reason}
use caly_anti.Xdp.Action.{action_stages}
use caly_anti.Xdp.Frame.{Parsed, go, refuse, L4, u16, past_end}
use caly_anti.Xdp.Network.{parse_layers}
use caly_anti.Xdp.Refusals.{Drops, parse_layers-Drops}
use caly_anti.Xdp.Link.{
  Reached, settled, layer, fresh_ctx, iface_of, Tags, after_tags, parse_link, receive, tag_loop,
  vlan_max,
}
use caly_anti.Xdp.Chain.{
  Outcome, returns, to_synproxy, Carry, answer, fail_open, on_lookups, with_config, fixed, conclude,
  xdp_action, no_call, xdp_policy, nobody, after_parse, xdp_parse, after_link, xdp_main,
}

-- The packet is charged once, or it is the SYN proxy that will charge it.
abbrev pub Answered : Maps → Outcome → Type 0
Answered m (returns m' action) = ChargedOnce m m' action
Answered m (to_synproxy m' pkt) = SameCounts m m'

Answered-after : (m m' : Maps) (o : Outcome) → SameCounts m m' → Answered m' o → Answered m o
Answered-after m m' (returns m'' XdpAction.xdp_pass) same h = ground arith
Answered-after m m' (returns m'' XdpAction.xdp_drop) same h = ground arith
Answered-after m m' (returns m'' XdpAction.xdp_tx) same h = h
Answered-after m m' (to_synproxy m'' pkt) same h = ground arith

fail_open-Answered :
    (why : StatReason) (len : ℕ) (m : Maps) → 3 < reason_code why → Answered m (fail_open why len m)
unfolding fail_open stat reason_code
fail_open-Answered why len m h = ground arith

on_lookups-Answered :
    (scratch : Bool) (len : ℕ) (run : FwConfig → Outcome) (m : Maps) (cfg : Option FwConfig)
    → ((c : FwConfig) → Answered m (run c))
    → Answered m (on_lookups scratch len run m cfg)
unfolding on_lookups
on_lookups-Answered scratch len run m none h =
    fail_open-Answered StatReason.config_missing len m (unfold reason_code in omega arith)
on_lookups-Answered true len run m (some cfg) h = h cfg
on_lookups-Answered false len run m (some cfg) h =
    fail_open-Answered StatReason.scratch_fail len m (unfold reason_code in omega arith)

with_config-Answered :
    (env : Env) (prog : Prog) (len : ℕ) (run : FwConfig → Outcome) (m : Maps)
    → ((cfg : FwConfig) → Answered m (run cfg))
    → Answered m (with_config env prog len run m)
unfolding with_config
with_config-Answered env prog len run m h =
    on_lookups-Answered (env.scratch prog) len run m (env.config prog) h

conclude-Answered :
    (m : Maps) (rest last : Run → Outcome) (flow : Flow)
    → Ensures (IsOpen m) (IsSettled m) (λ s. SameCounts m s.maps) flow
    → ((r : Run) → IsOpen m r → Answered m (rest r))
    → ((r : Run) → IsSettled m r → Answered m (last r))
    → Answered m (conclude rest last flow)
unfolding conclude
conclude-Answered m rest last (next r) h kr kl = kr r h
conclude-Answered m rest last (verdict r) h kr kl = kl r h
conclude-Answered m rest last (handed_over r) h kr kl = h

IsOpen-IsSettled : (m : Maps) (r : Run) → IsOpen m r → IsSettled m r
IsOpen-IsSettled m r h = ground arith

start-IsOpen : (m : Maps) (pkt : PktCtx) → IsOpen m (start m pkt)
unfolding start reason_code
start-IsOpen m pkt = ground arith

no_call-IsOpen : (m : Maps) (r : Run) → IsOpen m r → IsOpen m (no_call r)
unfolding stat reason_code
no_call-IsOpen m r h = ground arith

lan_reason-IsOpen : (fx : Fixed) (m : Maps) (r : Run) → IsOpen m r → IsOpen m (lan_reason fx r)
unfolding lan_reason reason_code
lan_reason-IsOpen fx m r h = ground arith

xdp_action-Answered :
    (env : Env) (c : Carry) (pkt : PktCtx) (m : Maps) → Answered m (xdp_action env c pkt m)
unfolding xdp_action
xdp_action-Answered env c pkt m = with_config-Answered env Prog.action 0 _ m λ cfg.
    conclude-Answered m _ _ (action_stages (fixed env cfg c) _)
      (action_stages-Counted m (fixed env cfg c) _ (start-IsOpen m pkt))
      (λ r h. finish-ChargedOnce (fixed env cfg c) (who pkt) m r (IsOpen-IsSettled m r h))
      (λ r h. finish-ChargedOnce (fixed env cfg c) (who pkt) m r h)

xdp_policy-Answered :
    (env : Env) (c : Carry) (pkt : PktCtx) (m : Maps) → Answered m (xdp_policy env c pkt m)
unfolding xdp_policy
xdp_policy-Answered env c pkt m = with_config-Answered env Prog.policy 0 _ m λ cfg.
    let fx = fixed env cfg c in
    conclude-Answered m _ _ (policy_stages fx (start m pkt))
      (policy_stages-Counted m fx (start m pkt) (start-IsOpen m pkt))
      (λ r h. elim (Bool-cases (env.tail_call Prog.action)) [
        | inl called ↦ rw called (
            Answered-after m r.maps
              (xdp_action env (record c { ct_missed = r.ct_missed; ct_key_valid = r.ct_key_valid })
                r.pkt r.maps)
              h.0
              (xdp_action-Answered env
                (record c { ct_missed = r.ct_missed; ct_key_valid = r.ct_key_valid }) r.pkt r.maps))
        | inr missing ↦ rw missing (
            finish_quiet-ChargedOnce fx (who pkt) m (lan_reason fx (no_call r)) (
              IsOpen-IsSettled m (lan_reason fx (no_call r))
                (lan_reason-IsOpen fx m (no_call r) (no_call-IsOpen m r h))))
      ])
      (λ r h. finish_quiet-ChargedOnce fx (who pkt) m r h)

-- The verdict that a program reaches for want of the next one.
unlinked-ChargedOnce :
    (fx : Fixed) (m : Maps) (pkt : PktCtx)
    → Answered m (answer (finish fx nobody (no_call (start m pkt))))
unlinked-ChargedOnce fx m pkt = finish-ChargedOnce fx nobody m (no_call (start m pkt)) (
    IsOpen-IsSettled m (no_call (start m pkt))
      (no_call-IsOpen m (start m pkt) (start-IsOpen m pkt)))

settled-ChargedOnce :
    (fx : Fixed) (m : Maps) (pkt : PktCtx) (reason : StatReason) (act : Act)
    → Fits act (reason_code reason)
    → Answered m (answer (finish fx nobody (record (start m pkt) { reason = reason; act = act })))
settled-ChargedOnce fx m pkt reason act fits =
    finish-ChargedOnce fx nobody m (record (start m pkt) { reason = reason; act = act })
      ((start-IsOpen m pkt).0, fits)

after_parse-Answered :
    (env : Env) (c : Carry) (cfg : FwConfig) (m : Maps) (p : Parsed L4)
    → Drops p
    → Answered m (after_parse env c cfg m p)
unfolding after_parse
after_parse-Answered env c cfg m (refuse reason pkt) h =
    settled-ChargedOnce (fixed env cfg c) m pkt reason Act.drop h
after_parse-Answered env c cfg m (go (pkt, icmp_tc)) h =
    elim (Bool-cases (env.tail_call Prog.policy)) [
      | inl called ↦ rw called (xdp_policy-Answered env (record c { icmp_tc = icmp_tc }) pkt m)
      | inr missing ↦ rw missing (unlinked-ChargedOnce (fixed env cfg c) m pkt)
    ]

xdp_parse-Answered :
    (env : Env) (c : Carry) (f : List ℕ) (pkt : PktCtx) (off proto : ℕ) (m : Maps)
    → Answered m (xdp_parse env c f pkt off proto m)
unfolding xdp_parse
xdp_parse-Answered env c f pkt off proto m = with_config-Answered env Prog.parse 0 _ m λ cfg.
    after_parse-Answered env c cfg m (parse_layers f cfg pkt off proto)
      (parse_layers-Drops f cfg pkt off proto)

-- Where the first program stops, its reason fits.
abbrev SettlesWell : Reached → Type 0
SettlesWell (settled reason act pkt) = Fits act (reason_code reason)
SettlesWell (layer pkt off proto) = Unit

after_tags-SettlesWell :
    (cfg : FwConfig) (if_flags : ℕ) (t : Tags) (whole : Bool)
    → SettlesWell (after_tags cfg if_flags (t, whole))
unfolding after_tags reason_code
after_tags-SettlesWell cfg if_flags t true = ground arith
after_tags-SettlesWell cfg if_flags t false = ground arith

parse_link-SettlesWell :
    (cfg : FwConfig) (if_flags : ℕ) (f : List ℕ) (pkt : PktCtx)
    → SettlesWell (parse_link cfg if_flags f pkt)
unfolding parse_link reason_code
parse_link-SettlesWell cfg if_flags f pkt = elim (Bool-cases (past_end f 0 14)) [
  | inl short ↦ rw short (omega arith)
  | inr whole ↦
      let first : Tags = record { proto = u16 f 12; off = 14; pkt = pkt } in
      let (t, ended) = tag_loop vlan_depth_bound 0 (vlan_max cfg) f first in
      rw whole (after_tags-SettlesWell cfg if_flags t ended)
]

receive-SettlesWell :
    (cfg : FwConfig) (ifc : Option IfaceConfig) (f : List ℕ) (pkt : PktCtx)
    → SettlesWell (receive cfg ifc f pkt)
unfolding receive reason_code
receive-SettlesWell cfg ifc f pkt =
    let face = iface_of cfg ifc in
    let flags = if face.is_wan then set_bit pkt.flags pkt_wan else pkt.flags in
    ground (arith, parse_link-SettlesWell cfg face.flags f (record pkt { flags = flags }))

after_link-Answered :
    (env : Env) (c : Carry) (cfg : FwConfig) (f : List ℕ) (m : Maps) (reached : Reached)
    → SettlesWell reached
    → Answered m (after_link env c cfg f m reached)
unfolding after_link
after_link-Answered env c cfg f m (settled reason act pkt) h =
    settled-ChargedOnce (fixed env cfg c) m pkt reason act h
after_link-Answered env c cfg f m (layer pkt off proto) h =
    elim (Bool-cases (env.tail_call Prog.parse)) [
      | inl called ↦ rw called (xdp_parse-Answered env c f pkt off proto m)
      | inr missing ↦ rw missing (unlinked-ChargedOnce (fixed env cfg c) m pkt)
    ]

-- For every frame, and whatever the maps, the configuration and the kernel answer, the chain of XDP
-- programs either hands the packet to the SYN proxy with the aggregate counters as they were, or it
-- answers XDP_PASS or XDP_DROP, has counted one more packet, and one more in the aggregate of that
-- answer alone.
pub xdp_main-Answered :
    (env : Env) (f : List ℕ) (ifindex now : ℕ) (m : Maps)
    → Answered m (xdp_main env f ifindex now m)
unfolding xdp_main
xdp_main-Answered env f ifindex now m =
    with_config-Answered env Prog.main (fresh_ctx f ifindex now).pkt_len _ m λ cfg.
      after_link-Answered env _ cfg f m
        (receive cfg (env.iface ifindex) f (fresh_ctx f ifindex now))
        (receive-SettlesWell cfg (env.iface ifindex) f (fresh_ctx f ifindex now))
