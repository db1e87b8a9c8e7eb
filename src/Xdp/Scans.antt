-- ===== src/Xdp/Scans.antt =====
-- bpf/xdp_firewall.bpf.c, stage 9 of `caly_xdp_action`: the ports that the source touches.
use caly_anti.Base.{
  ℕ, ◌+◌, ◌-◌, ◌*◌, Bool, ◌&&◌, ◌||◌, not, ltb, ◌==◌, if◌then◌else◌, none, some, [], ◌∷◌,
}
use caly_anti.Base.Word.{u32_max}
use caly_anti.Abi.Bits.{f_portscan_detect, pkt_l4_trunc, pkt_allowlist}
use caly_anti.Abi.Config.{FwConfig}
use caly_anti.Abi.Reason.{StatReason}
use caly_anti.Bucket.{nsec_per_sec}
use caly_anti.Scan.{ScanState, scan_mark, scan_reset}
use caly_anti.Xdp.State.{Maps, source, source_eq, write, store, stat}
use caly_anti.Xdp.Run.{Fixed, Run, Flow, next, flag, pkt_flag, drop_for}
use caly_anti.Xdp.Bans.{ban_install}
use caly_anti.Xdp.Ports.{has_ports}
use caly_anti.Xdp.Rates.{offence}

abbrev pub scan_zero : ScanState
scan_zero = record {
  window_start_ns = 0;
  last_seen_ns = 0;
  bitmap = 0 ∷ 0 ∷ 0 ∷ 0 ∷ 0 ∷ 0 ∷ 0 ∷ 0 ∷ [];
  distinct = 0;
  hits = 0;
  last_port = 0;
}

-- The state of a source that is seen for the first time.
unfoldable pub first_probe : ℕ → ℕ → ScanState
first_probe now dport =
    let st = record (scan_reset scan_zero now) { last_seen_ns = now; hits = 1 } in
    record (scan_mark st dport).0 { last_port = dport }

unfoldable pub slide_window : FwConfig → ℕ → ScanState → ScanState
slide_window cfg now st =
    let win = if cfg.scan_window_ns == 0 then 30 * nsec_per_sec else cfg.scan_window_ns in
    if ltb now st.window_start_ns || ltb win (now - st.window_start_ns)
    then scan_reset st now
    else st

unfoldable pub next_probe : FwConfig → ℕ → ℕ → ScanState → ScanState
unfolding slide_window
next_probe cfg now dport st =
    let open_st = slide_window cfg now st in
    let seen = record open_st {
      last_seen_ns = now;
      hits = if ltb open_st.hits u32_max then open_st.hits + 1 else open_st.hits;
    } in
    if seen.last_port == dport then seen else record (scan_mark seen dport).0 { last_port = dport }

unfoldable pub exceeds_threshold : FwConfig → ScanState → Bool
exceeds_threshold cfg st =
    not (cfg.scan_port_threshold == 0) && ltb cfg.scan_port_threshold st.distinct

abbrev pub keep_scan : Run → ScanState → Maps → Maps
keep_scan r st m = record m { scan = write source_eq (source r.pkt) st m.scan }

unfoldable pub scanner : Fixed → Run → ScanState → Flow
scanner fx r st =
    let (m, ttl) =
      ban_install fx.env fx.cfg
        (offence r StatReason.drop_portscan fx.cfg.ban_ttl_scan_ns st.distinct) r.maps in
    drop_for StatReason.drop_portscan (record r {
      maps = keep_scan r (scan_reset st r.pkt.ts_ns) m;
      evval = st.distinct;
      ban_ttl = ttl;
    })

unfoldable pub first_scan : Fixed → Run → Run
unfolding first_probe
first_scan fx r =
    if fx.env.scan_insert.fails
    then record r { maps = stat StatReason.map_full_scan r.pkt.pkt_len r.maps }
    else record r {
      maps = record r.maps {
        scan =
            store source_eq fx.env.scan_insert (source r.pkt) (first_probe r.pkt.ts_ns r.pkt.dport)
              r.maps.scan;
      };
    }

unfoldable pub known_scan : Fixed → Run → ScanState → Flow
unfolding next_probe exceeds_threshold scanner
known_scan fx r st =
    let st' = next_probe fx.cfg r.pkt.ts_ns r.pkt.dport st in
    if exceeds_threshold fx.cfg st'
    then scanner fx r st'
    else next (record r { maps = keep_scan r st' r.maps })

unfoldable pub portscan : Fixed → Run → Flow
unfolding known_scan first_scan
portscan fx r =
    if flag fx f_portscan_detect
      && not (pkt_flag r pkt_l4_trunc || pkt_flag r pkt_allowlist)
      && has_ports r.pkt
    then elim (r.maps.scan (source r.pkt)) [
      | none ↦ next (first_scan fx r)
      | some st ↦ known_scan fx r st
    ]
    else next r
