-- ===== src/Xdp/Verdict.antt =====
-- bpf/xdp_firewall.bpf.c, the block at the label `verdict`, which every program ends in: the
-- counters, the gauges, the top talkers, the sampled events, and the code for the kernel.
use caly_anti.Base.{
  ℕ, ◌-◌, Bool, true, false, ◌&&◌, ◌||◌, not, ltb, leb, ◌==◌, if◌then◌else◌, [], ◌∷◌, ◌++◌, none,
  some,
}
use caly_anti.Base.Word.{add_u64}
use caly_anti.Abi.Bits.{f_monitor_only, f_src_stats, f_log_events, pkt_frag}
use caly_anti.Abi.Reason.{StatReason, reason_code}
use caly_anti.Bucket.{nsec_per_sec}
use caly_anti.Xdp.State.{
  Maps, Source, SrcStats, VerdictCode, v_pass, v_drop, v_tx, v_monitor, Event, Gauge, source_eq,
  write, store, stat, gauge, g_pkts, g_bytes, g_syn, g_newconn, g_drops, g_udp, g_icmp, g_frag,
  g_events, g_events_lost,
}
use caly_anti.Xdp.Run.{Act, XdpAction, xdp_pass, xdp_drop, xdp_tx, Fixed, Run, flag, pkt_flag}

-- The locals that the block reads besides: the key of the source, and what kind of packet it is.
pub record Who : Type 0 where
  pub source : Source
  pub is_syn : Bool
  pub is_icmp : Bool

abbrev pub fw_mode_lockdown : ℕ
fw_mode_lockdown = 3

abbrev pub fw_mode_under_attack : ℕ
fw_mode_under_attack = 2

abbrev pub fw_mode_monitor_only : ℕ
fw_mode_monitor_only = 4

unfoldable pub monitors : Fixed → Bool
monitors fx = flag fx f_monitor_only || fx.cfg.mode == fw_mode_monitor_only || fx.if_monitor

-- The verdict, rewritten where the program only monitors.
unfoldable pub judge : Fixed → Run → Run × VerdictCode
unfolding monitors
judge fx r = elim r.act [
  | Act.drop ↦
      if monitors fx
      then (
        record r {
          maps = stat StatReason.monitor_would_drop r.pkt.pkt_len r.maps;
          act = Act.pass;
          want_event = true;
        },
        v_monitor,
      )
      else (record r { want_event = true }, v_drop)
  | Act.tx ↦ (record r { want_event = true }, v_tx)
  | Act.pass ↦ (r, v_pass)
]

-- `caly_stat(STAT_PKT_TOTAL, ...)`, the reason, and the aggregate of the action.
unfoldable pub count_reason : StatReason → ℕ → Maps → Maps
unfolding reason_code
count_reason reason len m = if reason_code reason == 0 then m else stat reason len m

unfoldable pub count_action : Act → ℕ → Maps → Maps × XdpAction
count_action Act.drop len m = (gauge g_drops 1 (stat StatReason.drop_total len m), xdp_drop)
count_action Act.tx len m = (stat StatReason.tx_total len m, xdp_tx)
count_action Act.pass len m = (stat StatReason.pass_total len m, xdp_pass)

abbrev pub gauge_if : Bool → Gauge → Maps → Maps
gauge_if b g m = if b then gauge g 1 m else m

unfoldable pub count_gauges : Who → Run → Maps → Maps
count_gauges w r m =
    let bytes = gauge g_bytes r.pkt.pkt_len (gauge g_pkts 1 m) in
    let syn = gauge_if w.is_syn g_syn bytes in
    let newconn = gauge_if (w.is_syn && r.ct_missed) g_newconn syn in
    let udp = gauge_if (r.pkt.proto == 17) g_udp newconn in
    gauge_if (pkt_flag r pkt_frag) g_frag (gauge_if w.is_icmp g_icmp udp)

abbrev pub counts_as_drop : VerdictCode → Bool
counts_as_drop v_drop = true
counts_as_drop v_monitor = true
counts_as_drop v_pass = false
counts_as_drop v_tx = false

unfoldable pub talker_more : SrcStats → Run → VerdictCode → SrcStats
talker_more ss r code =
    let seen = record ss {
      packets = add_u64 ss.packets 1;
      bytes = add_u64 ss.bytes r.pkt.pkt_len;
      last_seen_ns = r.pkt.ts_ns;
    } in
    if counts_as_drop code
    then record seen {
      drops = add_u64 ss.drops 1;
      drop_bytes = add_u64 ss.drop_bytes r.pkt.pkt_len;
      last_reason = r.reason;
    }
    else seen

unfoldable pub talker_first : Run → VerdictCode → SrcStats
talker_first r code = record {
  packets = 1;
  bytes = r.pkt.pkt_len;
  drops = if counts_as_drop code then 1 else 0;
  drop_bytes = if counts_as_drop code then r.pkt.pkt_len else 0;
  first_seen_ns = r.pkt.ts_ns;
  last_seen_ns = r.pkt.ts_ns;
  last_reason = r.reason;
}

unfoldable pub count_talker : Fixed → Source → Run → VerdictCode → Maps → Maps
unfolding talker_more talker_first
count_talker fx s r code m =
    if flag fx f_src_stats && not (r.pkt.family == 0)
    then elim (m.top s) [
      | some ss ↦ record m { top = write source_eq s (talker_more ss r code) m.top }
      | none ↦
          if fx.env.top_insert.fails
          then stat StatReason.map_full_srcstat r.pkt.pkt_len m
          else record m { top = store source_eq fx.env.top_insert s (talker_first r code) m.top }
    ]
    else m

-- The block without the events, as caly_xdp_policy has it.
unfoldable pub account : Fixed → Who → Run → (Run × VerdictCode) × XdpAction
unfolding judge count_reason count_action count_gauges count_talker
account fx w r =
    let (j, code) = judge fx r in
    let counted =
      count_reason j.reason j.pkt.pkt_len (stat StatReason.pkt_total j.pkt.pkt_len j.maps) in
    let (m, action) = count_action j.act j.pkt.pkt_len counted in
    ((record j { maps = count_talker fx w.source j code (count_gauges w j m) }, code), action)

unfoldable pub finish_quiet : Fixed → Who → Run → Maps × XdpAction
unfolding account
finish_quiet fx w r = let ((j, code), action) = account fx w r in (j.maps, action)

-- One event in `log_sample_rate`.
unfoldable pub sample : Fixed → ℕ → Maps → Maps × Bool
sample fx len m =
    let n = add_u64 m.ev_count 1 in
    if ltb n fx.cfg.log_sample_rate
    then (stat StatReason.event_sampled_out len (record m { ev_count = n }), false)
    else (record m { ev_count = 0 }, true)

-- `log_max_pps` events in a second.
unfoldable pub open_second : ℕ → Maps → Maps
open_second now m =
    if ltb now m.ev_win_ns || leb nsec_per_sec (now - m.ev_win_ns)
    then record m { ev_win_ns = now; ev_in_win = 0 }
    else m

unfoldable pub throttle : Fixed → ℕ → ℕ → Maps × Bool → Maps × Bool
unfolding open_second
throttle fx now len (m, false) = (m, false)
throttle fx now len (m, true) =
    if fx.cfg.log_max_pps == 0
    then (m, true)
    else let m' = open_second now m in
      if leb fx.cfg.log_max_pps m'.ev_in_win
      then (stat StatReason.event_sampled_out len m', false)
      else (record m' { ev_in_win = add_u64 m'.ev_in_win 1 }, true)

unfoldable pub event_of : Fixed → Run → VerdictCode → Event
event_of fx r code = record {
  ts_ns = r.pkt.ts_ns;
  ban_ttl_ns = r.ban_ttl;
  value = r.evval;
  saddr = r.pkt.saddr;
  daddr = r.pkt.daddr;
  ifindex = r.pkt.ifindex;
  reason = r.reason;
  verdict = code;
  proto = r.pkt.proto;
  pkt_len = r.pkt.pkt_len;
  family = r.pkt.family;
  sport = r.pkt.sport;
  dport = r.pkt.dport;
  tcp_flags = r.pkt.tcp_flags;
  mode = fx.cfg.mode;
}

unfoldable pub output : Fixed → ℕ → Event → Maps × Bool → Maps
output fx len ev (m, false) = m
output fx len ev (m, true) =
    if fx.env.output_fails
    then gauge g_events_lost 1 (stat StatReason.event_lost len m)
    else gauge g_events 1
        (stat StatReason.event_emitted len (record m { events = m.events ++ ev ∷ [] }))

unfoldable pub emit : Fixed → Run → VerdictCode → Maps
unfolding sample throttle event_of output
emit fx r code =
    if r.want_event && flag fx f_log_events && not (fx.cfg.log_sample_rate == 0)
    then output fx r.pkt.pkt_len (event_of fx r code)
        (throttle fx r.pkt.ts_ns r.pkt.pkt_len (sample fx r.pkt.pkt_len r.maps))
    else r.maps

-- The whole block.
unfoldable pub finish : Fixed → Who → Run → Maps × XdpAction
unfolding account emit
finish fx w r = let ((j, code), action) = account fx w r in (emit fx j code, action)
