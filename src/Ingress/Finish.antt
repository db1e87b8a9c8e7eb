-- ===== src/Ingress/Finish.antt =====
-- bpf/tc_ingress.bpf.c: the single exit, its counters, its top talkers and its events.
use caly_anti.Base.{
  ℕ, ◌%◌, Bool, true, false, ◌&&◌, ◌||◌, not, ltb, ◌==◌, if◌then◌else◌, [], ◌∷◌, ◌++◌, none, some,
}
use caly_anti.Base.Bits.{test_bit}
use caly_anti.Base.Word.{add_u64}
use caly_anti.Abi.Bits.{f_src_stats, f_log_events, pkt_frag}
use caly_anti.Abi.Config.{FwConfig}
use caly_anti.Abi.Reason.{StatReason, reason_code}
use caly_anti.Parse.Key.{copy_words, af_inet, af_inet6}
use caly_anti.Parse.Packet.{is_icmp}
use caly_anti.Xdp.State.{
  Source, Insert, Maps, SrcStats, Event, VerdictCode, v_pass, v_drop, v_tx, v_monitor, Gauge,
  source_eq, write, store, gauge,
}
use caly_anti.Ingress.{TciPkt, tci_stat, tci_source}

-- TC_ACT_OK and TC_ACT_SHOT
pub data TcAction : Type 0 where
  act_ok act_shot : TcAction

-- `tci_gauge`, the same code as `caly_gauge`
abbrev pub tci_gauge : Gauge → ℕ → Maps → Maps
tci_gauge g add m = gauge g add m

abbrev pub gauge_when : Bool → Gauge → Maps → Maps
gauge_when b g m = if b then tci_gauge g 1 m else m

abbrev pub talker_zero : ℕ → SrcStats
talker_zero now = record {
  packets = 0;
  bytes = 0;
  drops = 0;
  drop_bytes = 0;
  first_seen_ns = now;
  last_seen_ns = 0;
  last_reason = StatReason.pkt_total;
}

unfoldable pub tci_talker : TciPkt → StatReason → Bool → ℕ → SrcStats → SrcStats
tci_talker p reason dropped now ss =
    let seen = record ss {
      packets = add_u64 ss.packets 1;
      bytes = add_u64 ss.bytes p.pkt_len;
      last_seen_ns = now;
      last_reason = reason;
    } in
    if dropped
    then record seen { drops = add_u64 ss.drops 1; drop_bytes = add_u64 ss.drop_bytes p.pkt_len }
    else seen

unfoldable pub tci_srcstats :
    FwConfig → Insert Source → TciPkt → StatReason → Bool → ℕ → Maps → Maps
unfolding tci_talker
tci_srcstats cfg ins p reason dropped now m =
    if test_bit cfg.flags f_src_stats && (p.family == af_inet || p.family == af_inet6)
    then elim (m.top (tci_source p)) [
      | some ss ↦ record m {
        top = write source_eq (tci_source p) (tci_talker p reason dropped now ss) m.top;
      }
      | none ↦ if ins.fails then tci_stat StatReason.map_full_srcstat 0 m else record m {
        top =
            store source_eq ins (tci_source p) (tci_talker p reason dropped now (talker_zero now))
              m.top;
      }
    ]
    else m

abbrev pub is_drop : VerdictCode → Bool
is_drop v_drop = true
is_drop v_pass = false
is_drop v_tx = false
is_drop v_monitor = false

abbrev pub tci_gauges : TciPkt → Maps → Maps
tci_gauges p m =
    let total = tci_gauge Gauge.g_bytes p.pkt_len (tci_gauge Gauge.g_pkts 1 m) in
    let kind =
      if p.proto == 17
      then tci_gauge Gauge.g_udp 1 total
      else gauge_when (is_icmp p.proto) Gauge.g_icmp total in
    gauge_when (test_bit p.pkt_flags pkt_frag) Gauge.g_frag kind

unfoldable pub tci_count : TciPkt → StatReason → Bool → Maps → Maps
unfolding reason_code
tci_count p reason dropped m =
    let why = if reason_code reason == 0 then m else tci_stat reason p.pkt_len m in
    if dropped
    then tci_gauge Gauge.g_drops 1 (tci_stat StatReason.drop_total p.pkt_len why)
    else tci_stat StatReason.pass_total p.pkt_len why

unfoldable pub tci_finish :
    FwConfig → Insert Source → TciPkt → StatReason → VerdictCode → Bool → ℕ → Maps → Maps × TcAction
unfolding tci_count tci_srcstats
tci_finish cfg ins p reason verdict monitor now m =
    let watched = is_drop verdict && monitor in
    let dropped = is_drop verdict && not monitor in
    let m1 = if watched then tci_stat StatReason.monitor_would_drop p.pkt_len m else m in
    let m2 = tci_gauges p (tci_stat StatReason.pkt_total p.pkt_len m1) in
    let m3 = tci_count p reason dropped m2 in
    (tci_srcstats cfg ins p reason dropped now m3, if dropped then act_shot else act_ok)

-- `roll` is what `bpf_get_prandom_u32` gives.
unfoldable pub tci_event :
    FwConfig → Bool → ℕ → TciPkt → StatReason → VerdictCode → ℕ → ℕ → ℕ → Maps → Maps
tci_event cfg output_fails roll p reason verdict ban_ttl value now m =
    let event : Event = record {
      ts_ns = now;
      ban_ttl_ns = ban_ttl;
      value = value;
      saddr = copy_words p.saddr;
      daddr = copy_words p.daddr;
      ifindex = p.ifindex;
      reason = reason;
      verdict = verdict;
      proto = p.proto;
      pkt_len = p.pkt_len;
      family = p.family;
      sport = p.sport;
      dport = p.dport;
      tcp_flags = p.tcp_flags;
      mode = cfg.mode % 256;
    } in
    if not (test_bit cfg.flags f_log_events) || cfg.log_sample_rate == 0
    then m
    else if ltb 1 cfg.log_sample_rate && not (roll % cfg.log_sample_rate == 0)
    then tci_stat StatReason.event_sampled_out 0 m
    else if output_fails
    then tci_gauge Gauge.g_events_lost 1 (tci_stat StatReason.event_lost 0 m)
    else tci_gauge Gauge.g_events 1
        (tci_stat StatReason.event_emitted 0 (record m { events = m.events ++ event ∷ [] }))
