-- ===== src/Xdp/Policy.antt =====
-- bpf/xdp_firewall.bpf.c, `caly_xdp_policy`: the end of stage 5, and the order of the stages.
use caly_anti.Base.{Bool, ◌&&◌, not, ◌==◌, if◌then◌else◌, none, some}
use caly_anti.Base.Bits.{test_bit}
use caly_anti.Abi.Bits.{f_cap_tc_egress, f_lockdown_icmp, pkt_mgmt, tcp_syn, tcp_ack}
use caly_anti.Abi.Reason.{StatReason, reason_code}
use caly_anti.Parse.Packet.{PktCtx, is_icmp}
use caly_anti.Xdp.State.{source}
use caly_anti.Xdp.Run.{Fixed, Run, Flow, next, ◌>>=◌, flag, pkt_flag, drop_for, pass_for}
use caly_anti.Xdp.Verdict.{Who, fw_mode_lockdown}
use caly_anti.Xdp.Anomaly.{anomalies}
use caly_anti.Xdp.Reputation.{allowlist, mgmt_ports, reputation, is_active, serve_ban}
use caly_anti.Xdp.Conntrack.{conntrack}

-- A ban that the dataplane set by itself is served only now.
unfoldable pub deferred_ban : Run → Flow
unfolding is_active serve_ban
deferred_ban r =
    if r.ban_deferred
    then elim (r.maps.ban (source r.pkt)) [
      | none ↦ next r
      | some be ↦ if is_active be r.pkt.ts_ns then serve_ban be r else next r
    ]
    else next r

unfoldable pub unsolicited_synack : Fixed → Run → Flow
unsolicited_synack fx r =
    if flag fx f_cap_tc_egress
      && r.ct_missed
      && r.pkt.proto == 6
      && test_bit r.pkt.tcp_flags tcp_syn
      && test_bit r.pkt.tcp_flags tcp_ack
      && not (pkt_flag r pkt_mgmt)
    then drop_for StatReason.drop_tcp_synack_unsol r
    else next r

unfoldable pub lockdown : Fixed → Run → Flow
lockdown fx r =
    if fx.cfg.mode == fw_mode_lockdown && not (pkt_flag r pkt_mgmt)
    then (if flag fx f_lockdown_icmp && is_icmp r.pkt.proto && not (r.icmp_policy == 0)
        then pass_for StatReason.pass_icmp_policy r
        else drop_for StatReason.drop_lockdown r)
    else next r

unfoldable pub policy_stages : Fixed → Run → Flow
policy_stages fx r =
    anomalies fx r
    >>= allowlist fx
    >>= mgmt_ports fx
    >>= reputation fx
    >>= conntrack fx
    >>= deferred_ban
    >>= unsolicited_synack fx
    >>= lockdown fx

abbrev pub is_syn : PktCtx → Bool
is_syn pkt =
    pkt.proto == 6 && test_bit pkt.tcp_flags tcp_syn && not (test_bit pkt.tcp_flags tcp_ack)

-- The keys and the kind of a packet that is parsed.
abbrev pub who : PktCtx → Who
who pkt = record { source = source pkt; is_syn = is_syn pkt; is_icmp = is_icmp pkt.proto }

-- `if (reason == STAT_PASS_DEFAULT && !is_wan) reason = STAT_PASS_LAN_IFACE;`
unfoldable pub lan_reason : Fixed → Run → Run
unfolding reason_code
lan_reason fx r =
    if reason_code r.reason == reason_code StatReason.pass_default && not fx.is_wan
    then record r { reason = StatReason.pass_lan_iface }
    else r
