-- ===== src/Xdp/Ports.antt =====
-- bpf/xdp_firewall.bpf.c, stages 6 and 7 of `caly_xdp_action`: the reflection filter and the policy
-- of the destination port.
use caly_anti.Base.{
  ℕ, ◌+◌, ◌%◌, Bool, false, ◌&&◌, ◌||◌, not, ◌==◌, if◌then◌else◌, Option, none, some,
}
use caly_anti.Base.Bits.{test_bit, set_bit}
use caly_anti.Abi.Bits.{
  f_anti_amplify, f_cap_tc_egress, f_port_policy, f_default_deny, pkt_l4_trunc, pkt_mgmt,
  port_amplifier, port_present, port_log, port_mgmt,
}
use caly_anti.Abi.Reason.{StatReason}
use caly_anti.Abi.Bucket.{TokenBucket}
use caly_anti.Bucket.{PortRule, PortMode, tb_consume}
use caly_anti.Parse.Packet.{PktCtx, is_icmp}
use caly_anti.Xdp.Run.{Fixed, Run, Flow, next, flag, pkt_flag, drop_for, pass_for}

-- `pkt->flags & (CALY_PKT_F_L4_TRUNC | CALY_PKT_F_MGMT)`
abbrev pub is_exempt : Run → Bool
is_exempt r = pkt_flag r pkt_l4_trunc || pkt_flag r pkt_mgmt

abbrev pub is_amplifier : Option PortRule → Bool
is_amplifier none = false
is_amplifier (some pr) = test_bit pr.flags port_amplifier

unfoldable pub amplification : Fixed → Run → Flow
amplification fx r =
    if flag fx f_anti_amplify
      && flag fx f_cap_tc_egress
      && fx.is_wan
      && r.pkt.proto == 17
      && not (is_exempt r)
      && is_amplifier (fx.env.port_udp r.pkt.sport)
    then drop_for StatReason.drop_amp_srcport (record r { evval = r.pkt.sport })
    else next r

-- CALY_PORT_TB_IDX
abbrev pub port_tb_idx : Bool → ℕ → ℕ
port_tb_idx is_udp port = (if is_udp then 65536 else 0) + port % 65536

abbrev pub tb_put : (ℕ → TokenBucket) → ℕ → TokenBucket → ℕ → TokenBucket
tb_put tbs i tb j = if i == j then tb else tbs j

-- `mode == CALY_PORT_RATELIMIT`: the bucket of the port is charged.
unfoldable pub rate_rule : PortRule → Run → Flow
rate_rule pr r =
    let i = port_tb_idx (r.pkt.proto == 17) r.pkt.dport in
    let (tb, conforms) = tb_consume (r.maps.port_tb i) r.pkt.ts_ns pr.rate pr.burst 1 in
    let r' = record r { maps = record r.maps { port_tb = tb_put r.maps.port_tb i tb } } in
    if conforms
    then next (record r' { reason = StatReason.pass_port_rate_ok })
    else drop_for StatReason.drop_port_rate (record r' { evval = pr.rate })

unfoldable pub mode_rule : PortRule → Run → Flow
unfolding rate_rule
mode_rule pr r = elim pr.mode [
  | PortMode.closed ↦ drop_for StatReason.drop_port_closed r
  | PortMode.ratelimit ↦ rate_rule pr r
  | PortMode.open_port ↦ next (record r { reason = StatReason.pass_port_open })
]

-- A rule that is present.
unfoldable pub apply_rule : PortRule → Run → Flow
unfolding mode_rule
apply_rule pr r =
    let r' = record r { want_event = r.want_event || test_bit pr.flags port_log } in
    if test_bit pr.flags port_mgmt
    then pass_for StatReason.pass_mgmt_port
        (record r' { pkt = record r.pkt { flags = set_bit r.pkt.flags pkt_mgmt } })
    else mode_rule pr r'

unfoldable pub no_rule : Fixed → Run → Flow
no_rule fx r = if flag fx f_default_deny then drop_for StatReason.drop_default_deny r else next r

-- `prule && CALY_RULE_PRESENT(prule)`
unfoldable pub by_rule : Fixed → Run → Option PortRule → Flow
unfolding apply_rule no_rule
by_rule fx r none = no_rule fx r
by_rule fx r (some pr) = if test_bit pr.flags port_present then apply_rule pr r else no_rule fx r

-- The rule of the destination port.
unfoldable pub rule_of : Fixed → Run → Option PortRule
rule_of fx r =
    if r.pkt.proto == 17 then fx.env.port_udp r.pkt.dport else fx.env.port_tcp r.pkt.dport

unfoldable pub port_rule : Fixed → Run → Flow
unfolding by_rule rule_of
port_rule fx r = by_rule fx (record r { prule = rule_of fx r }) (rule_of fx r)

-- IPIP, IPv6 in IP, GRE
unfoldable pub is_tunnel_proto : ℕ → Bool
is_tunnel_proto proto = proto == 4 || proto == 41 || proto == 47

abbrev pub has_ports : PktCtx → Bool
has_ports pkt = pkt.proto == 6 || pkt.proto == 17

unfoldable pub port_policy : Fixed → Run → Flow
unfolding port_rule is_tunnel_proto
port_policy fx r =
    if flag fx f_port_policy && not (is_exempt r) && has_ports r.pkt
    then port_rule fx r
    else if flag fx f_default_deny
        && not (pkt_flag r pkt_mgmt)
        && not (is_icmp r.pkt.proto)
        && not (has_ports r.pkt)
        && not (pkt_flag r pkt_l4_trunc)
    then drop_for
        (if is_tunnel_proto (r.pkt.proto % 256) && not (r.pkt.tunnel_depth == 0)
          then StatReason.drop_tunnel_depth
          else StatReason.drop_l4_unknown)
        r
    else next r
