-- ===== src/Ingress/Limits.antt =====
-- bpf/tc_ingress.bpf.c: the buckets, the strikes and the scan detector of a source.
use caly_anti.Base.{
  ℕ, Bool, true, false, ◌&&◌, ◌||◌, not, ltb, leb, ◌==◌, if◌then◌else◌, Option, none, some,
}
use caly_anti.Base.Bits.{set_bit}
use caly_anti.Base.Word.{add_u32, sub_u64}
use caly_anti.Abi.Bits.{rs_seeded, rs_striking}
use caly_anti.Abi.Bucket.{TbKind, TokenBucket, RateState}
use caly_anti.Abi.Config.{FwConfig}
use caly_anti.Abi.Reason.{StatReason, reason_code}
use caly_anti.Compat.{add_sat_u32}
use caly_anti.Parse.Packet.{is_icmp}
use caly_anti.Rate.{charge}
use caly_anti.Scan.{ScanState, scan_mark, scan_reset}
use caly_anti.Xdp.State.{Source, Insert, Maps, source_eq, write, store}
use caly_anti.Xdp.Scans.{scan_zero}
use caly_anti.Ingress.{TciPkt, tci_stat, tci_source}

abbrev pub bucket_zero : TokenBucket
bucket_zero = record { tokens = 0; last_refill_ns = 0 }

-- A zeroed state, marked as seeded.
abbrev pub rate_zero : RateState
rate_zero = record {
  tb = record {
    at_pps = bucket_zero;
    at_bps = bucket_zero;
    at_syn = bucket_zero;
    at_udp = bucket_zero;
    at_icmp = bucket_zero;
    at_newconn = bucket_zero;
  };
  window_start_ns = 0;
  last_seen_ns = 0;
  strikes = 0;
  last_reason = StatReason.pkt_total;
  offences = 0;
  flags = set_bit 0 rs_seeded;
}

-- The state of the source, a new one if need be; none where the map does not take it.
unfoldable pub tci_rate_state : Insert Source → TciPkt → Maps → Maps × Option RateState
tci_rate_state ins p m = elim (m.rate (tci_source p)) [
  | some rs ↦ (m, some rs)
  | none ↦
      if ins.fails
      then (m, none)
      else (record m { rate = store source_eq ins (tci_source p) rate_zero m.rate }, some rate_zero)
]

-- `if (reason == STAT_PKT_TOTAL && applies && !caly_tb_consume(...)) reason = ...;`
unfoldable pub tci_charge :
    FwConfig → ℕ → Bool → TbKind → ℕ → StatReason → RateState × StatReason → RateState × StatReason
unfolding charge reason_code
tci_charge cfg now applies kind want why (rs, reason) =
    let (rs', conforms) = charge rs cfg now kind want in
    if reason_code reason == reason_code StatReason.pkt_total && applies
    then (rs', if conforms then reason else why)
    else (rs, reason)

unfoldable pub tci_rate_check : RateState → FwConfig → TciPkt → Bool → ℕ → RateState × StatReason
unfolding tci_charge
tci_rate_check rs cfg p ct_miss now =
    let udp = p.proto == 17 in
    let icmp = is_icmp p.proto in
    let newconn = ct_miss && (p.is_syn || udp || icmp) in
    let seen = record rs { last_seen_ns = now } in
    let s1 =
      tci_charge cfg now true TbKind.pps 1 StatReason.drop_rate_pps (seen, StatReason.pkt_total) in
    let s2 = tci_charge cfg now true TbKind.bps p.pkt_len StatReason.drop_rate_bps s1 in
    let s3 = tci_charge cfg now p.is_syn TbKind.syn 1 StatReason.drop_rate_syn s2 in
    let s4 = tci_charge cfg now udp TbKind.udp 1 StatReason.drop_rate_udp s3 in
    let s5 = tci_charge cfg now icmp TbKind.icmp 1 StatReason.drop_rate_icmp s4 in
    tci_charge cfg now newconn TbKind.newconn 1 StatReason.drop_rate_newconn s5

-- A strike, and whether the source is to be banned for it.
unfoldable pub tci_strike : RateState → FwConfig → StatReason → ℕ → RateState × Bool
tci_strike rs cfg reason now =
    let opened =
      if rs.window_start_ns == 0 || ltb cfg.strike_window_ns (sub_u64 now rs.window_start_ns)
      then record rs { window_start_ns = now; strikes = 0 }
      else rs in
    let struck = record opened {
      strikes = add_sat_u32 opened.strikes 1;
      last_reason = reason;
      flags = set_bit opened.flags rs_striking;
    } in
    (struck, not (cfg.strike_limit == 0) && leb cfg.strike_limit struck.strikes)

-- A probe of the window, and whether the source has tried too many ports.
unfoldable pub tci_probe : FwConfig → ℕ → ℕ → ScanState → ScanState × Bool
tci_probe cfg now port st =
    let slid =
      if ltb cfg.scan_window_ns (sub_u64 now st.window_start_ns) then scan_reset st now else st in
    let seen = record slid { last_seen_ns = now; hits = add_u32 slid.hits 1 } in
    let marked = (scan_mark (record seen { last_port = port }) port).0 in
    if port == seen.last_port
    then (seen, false)
    else (marked, not (cfg.scan_port_threshold == 0) && ltb cfg.scan_port_threshold marked.distinct)

unfoldable pub tci_scan : FwConfig → Insert Source → TciPkt → ℕ → Maps → Maps × Bool
unfolding tci_probe
tci_scan cfg ins p now m = elim (m.scan (tci_source p)) [
  | some st ↦
      let (st', over) = tci_probe cfg now p.dport st in
      (record m { scan = write source_eq (tci_source p) st' m.scan }, over)
  | none ↦
      let (st', over) = tci_probe cfg now p.dport (scan_reset scan_zero now) in
      if ins.fails
      then (tci_stat StatReason.map_full_scan 0 m, false)
      else (record m { scan = store source_eq ins (tci_source p) st' m.scan }, over)
]
