-- ===== src/Xdp/Conntrack.antt =====
-- bpf/xdp_firewall.bpf.c, stage 5 of `caly_xdp_policy`: a packet of a flow that is known.
use caly_anti.Base.{
  ℕ, ◌-◌, ◌%◌, Bool, true, false, ◌&&◌, not, ltb, leb, ◌==◌, if◌then◌else◌, none, some,
}
use caly_anti.Base.Bits.{test_bit, set_bit}
use caly_anti.Base.Word.{add_u64}
use caly_anti.Abi.Bits.{
  f_conntrack, pkt_l4_trunc, pkt_ct_hit, ct_f_seen_reply, tcp_fin, tcp_rst, tcp_ack,
}
use caly_anti.Abi.Config.{FwConfig}
use caly_anti.Abi.Reason.{StatReason}
use caly_anti.Parse.Key.{ConnKey, key_zero, copy_words}
use caly_anti.Parse.Packet.{PktCtx, is_icmp}
use caly_anti.Xdp.State.{CtState, ConnState, conn_eq, write, stat}
use caly_anti.Xdp.Run.{Fixed, Run, Flow, next, flag, pkt_flag, pass_for}

-- The key of a packet, its source the remote peer.
unfoldable pub conn_key : PktCtx → ConnKey
conn_key pkt = record key_zero {
  saddr = copy_words pkt.saddr;
  daddr = copy_words pkt.daddr;
  sport = pkt.sport;
  dport = pkt.dport;
  proto = pkt.proto % 256;
  family = pkt.family % 256;
}

unfoldable pub tcp_timeout : FwConfig → CtState → ℕ
tcp_timeout cfg CtState.established = cfg.ct_tcp_est_ns
tcp_timeout cfg CtState.fin_wait = cfg.ct_tcp_fin_ns
tcp_timeout cfg CtState.closed = cfg.ct_tcp_fin_ns
tcp_timeout cfg CtState.new = cfg.ct_tcp_syn_ns
tcp_timeout cfg CtState.syn_recv = cfg.ct_tcp_syn_ns
tcp_timeout cfg CtState.syn_sent = cfg.ct_tcp_syn_ns

unfoldable pub timeout : FwConfig → PktCtx → ConnState → ℕ
unfolding tcp_timeout
timeout cfg pkt cs =
    if pkt.proto == 6
    then tcp_timeout cfg cs.state
    else if pkt.proto == 17
    then (if test_bit cs.flags ct_f_seen_reply then cfg.ct_udp_stream_ns else cfg.ct_udp_ns)
    else if is_icmp pkt.proto
    then cfg.ct_icmp_ns
    else cfg.ct_generic_ns

unfoldable pub is_stale : FwConfig → PktCtx → ConnState → Bool
unfolding timeout
is_stale cfg pkt cs =
    let idle = if leb cs.last_seen_ns pkt.ts_ns then pkt.ts_ns - cs.last_seen_ns else 0 in
    not (timeout cfg pkt cs == 0) && ltb (timeout cfg pkt cs) idle

-- SYN_RECV, SYN_SENT or NEW
abbrev pub awaits_ack : CtState → Bool
awaits_ack CtState.new = true
awaits_ack CtState.syn_recv = true
awaits_ack CtState.syn_sent = true
awaits_ack CtState.established = false
awaits_ack CtState.fin_wait = false
awaits_ack CtState.closed = false

abbrev pub is_new : CtState → Bool
is_new CtState.new = true
is_new CtState.syn_recv = false
is_new CtState.syn_sent = false
is_new CtState.established = false
is_new CtState.fin_wait = false
is_new CtState.closed = false

abbrev pub is_closed : CtState → Bool
is_closed CtState.new = false
is_closed CtState.syn_recv = false
is_closed CtState.syn_sent = false
is_closed CtState.established = false
is_closed CtState.fin_wait = false
is_closed CtState.closed = true

abbrev pub establish : ConnState → ConnState
establish cs = record cs { state = CtState.established; flags = set_bit cs.flags ct_f_seen_reply }

unfoldable pub advance : PktCtx → ConnState → ConnState
advance pkt cs =
    if pkt.proto == 6
    then (if test_bit pkt.tcp_flags tcp_rst
        then record cs { state = CtState.closed }
        else if test_bit pkt.tcp_flags tcp_fin
        then record cs { state = CtState.fin_wait }
        else if test_bit pkt.tcp_flags tcp_ack && awaits_ack cs.state
        then establish cs
        else cs)
    else if is_new cs.state
    then establish cs
    else cs

unfoldable pub touched : PktCtx → ConnState → ConnState
unfolding advance
touched pkt cs = advance pkt (record cs {
  last_seen_ns = pkt.ts_ns;
  pkts_in = add_u64 cs.pkts_in 1;
  bytes_in = add_u64 cs.bytes_in pkt.pkt_len;
})

unfoldable pub touch : Run → ConnState → Run
unfolding touched conn_key
touch r cs =
    let kept = record r.maps {
      conn = write conn_eq (conn_key r.pkt) (touched r.pkt cs) r.maps.conn;
    } in
    let reset =
      if r.pkt.proto == 6 && test_bit r.pkt.tcp_flags tcp_rst
      then stat StatReason.ct_closed r.pkt.pkt_len kept
      else kept in
    record r { maps = stat StatReason.ct_updated r.pkt.pkt_len reset }

unfoldable pub known_flow : Fixed → Run → ConnState → Flow
unfolding is_stale touch touched
known_flow fx r cs =
    if is_stale fx.cfg r.pkt cs
    then next (record r { ct_missed = true; maps = stat StatReason.ct_miss r.pkt.pkt_len r.maps })
    else let r' = touch r cs in
      if is_closed (touched r.pkt cs).state
      then next (record r' { ct_missed = true })
      else pass_for StatReason.pass_conntrack (record r' {
        pkt = record r.pkt { flags = set_bit r.pkt.flags pkt_ct_hit };
        maps = stat StatReason.ct_hit r.pkt.pkt_len r'.maps;
      })

unfoldable pub conntrack : Fixed → Run → Flow
unfolding known_flow conn_key
conntrack fx r =
    let r' = record r { ct_key_valid = true } in
    if flag fx f_conntrack && not (pkt_flag r pkt_l4_trunc)
    then elim (r.maps.conn (conn_key r.pkt)) [
      | some cs ↦ known_flow fx r' cs
      | none ↦
          next (record r' { ct_missed = true; maps = stat StatReason.ct_miss r.pkt.pkt_len r.maps })
    ]
    else next r
