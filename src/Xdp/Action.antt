-- ===== src/Xdp/Action.antt =====
-- bpf/xdp_firewall.bpf.c, stage 10 of `caly_xdp_action` and what follows: SYN packets, the flow that
-- an accepted SYN opens, and the order of the stages.
use caly_anti.Base.{ℕ, Bool, false, ◌&&◌, not, ◌==◌, if◌then◌else◌, Option, none, some}
use caly_anti.Base.Bits.{test_bit, set_bit}
use caly_anti.Abi.Bits.{
  f_synproxy, f_cap_synproxy, f_conntrack, port_synproxy, port_no_ct, pkt_mgmt, pkt_allowlist,
  ct_f_mgmt, ct_f_allowlist,
}
use caly_anti.Abi.Reason.{StatReason}
use caly_anti.Bucket.{PortRule, tb_consume}
use caly_anti.Xdp.State.{CtState, ConnState, conn_eq, store, stat}
use caly_anti.Xdp.Run.{Fixed, Run, Flow, next, handed_over, ◌>>=◌, flag, pkt_flag, drop_for}
use caly_anti.Xdp.Verdict.{fw_mode_under_attack}
use caly_anti.Xdp.Conntrack.{conn_key}
use caly_anti.Xdp.Policy.{is_syn, lan_reason}
use caly_anti.Xdp.Ports.{amplification, port_policy, port_tb_idx, tb_put}
use caly_anti.Xdp.Rates.{rate_limit}
use caly_anti.Xdp.Scans.{portscan}

abbrev pub rule_flag : Option PortRule → ℕ → Bool
rule_flag none k = false
rule_flag (some pr) k = test_bit pr.flags k

-- `spr = prule`, or the rule of the TCP port where there is none.
abbrev pub syn_rule : Option PortRule → Option PortRule → Option PortRule
syn_rule none again = again
syn_rule (some pr) again = some pr

unfoldable pub to_synproxy : Fixed → Run → Flow
to_synproxy fx r =
    if flag fx f_synproxy && flag fx f_cap_synproxy && fx.cfg.mode == fw_mode_under_attack
    then (if rule_flag (syn_rule r.prule (fx.env.port_tcp r.pkt.dport)) port_synproxy
        then (if fx.env.synproxy_call
            then handed_over r
            else next (record r {
              maps =
                  stat StatReason.synproxy_unavail r.pkt.pkt_len
                    (stat StatReason.tailcall_fail r.pkt.pkt_len r.maps);
            }))
        else next (record r { maps = stat StatReason.synproxy_skipped r.pkt.pkt_len r.maps }))
    else next r

-- Without the SYN proxy: one bucket for all SYNs.
unfoldable pub syn_fallback : Fixed → Run → Flow
syn_fallback fx r =
    let pps = fx.cfg.syn_fallback_pps in
    let i = port_tb_idx false 0 in
    let (tb, conforms) = tb_consume (r.maps.port_tb i) r.pkt.ts_ns pps pps 1 in
    let r' = record r { maps = record r.maps { port_tb = tb_put r.maps.port_tb i tb } } in
    if not (flag fx f_cap_synproxy) && not (pps == 0)
    then (if conforms
        then next r'
        else drop_for StatReason.drop_rate_global_syn (record r' { evval = pps }))
    else next r

unfoldable pub syn_handling : Fixed → Run → Flow
unfolding to_synproxy syn_fallback
syn_handling fx r = if is_syn r.pkt then to_synproxy fx r >>= syn_fallback fx else next r

-- The state of a flow that a SYN opens.
unfoldable pub opened : Run → ConnState
opened r =
    let mgmt = if pkt_flag r pkt_mgmt then set_bit 0 ct_f_mgmt else 0 in
    record {
      created_ns = r.pkt.ts_ns;
      last_seen_ns = r.pkt.ts_ns;
      pkts_in = 1;
      bytes_in = r.pkt.pkt_len;
      pkts_out = 0;
      bytes_out = 0;
      state = CtState.syn_recv;
      flags = if pkt_flag r pkt_allowlist then set_bit mgmt ct_f_allowlist else mgmt;
      ifindex = r.pkt.ifindex;
    }

unfoldable pub learn : Fixed → Run → Flow
unfolding opened
learn fx r =
    if flag fx f_conntrack
      && r.ct_key_valid
      && r.ct_missed
      && is_syn r.pkt
      && not (rule_flag r.prule port_no_ct)
    then (if fx.env.conn_insert.fails
        then next (record r { maps = stat StatReason.ct_full r.pkt.pkt_len r.maps })
        else next (record r {
          maps = stat StatReason.ct_created r.pkt.pkt_len (record r.maps {
            conn = store conn_eq fx.env.conn_insert (conn_key r.pkt) (opened r) r.maps.conn;
          });
        }))
    else next r

unfoldable pub action_stages : Fixed → Run → Flow
action_stages fx r =
    amplification fx r
    >>= port_policy fx
    >>= rate_limit fx
    >>= portscan fx
    >>= syn_handling fx
    >>= learn fx
    >>= λ s. next (lan_reason fx s)
