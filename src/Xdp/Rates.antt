-- ===== src/Xdp/Rates.antt =====
-- bpf/xdp_firewall.bpf.c, stage 8 of `caly_xdp_action`: the buckets of the source, its strikes, and
-- the ban that they earn.
use caly_anti.Base.{
  ℕ, ◌+◌, ◌-◌, ◌*◌, Bool, true, false, ◌&&◌, ◌||◌, not, ltb, leb, ◌==◌, if◌then◌else◌, none, some,
}
use caly_anti.Base.Bits.{set_bit}
use caly_anti.Base.Word.{add_u32, u32_max}
use caly_anti.Abi.Bits.{f_rate_limit, f_autoban, pkt_allowlist, rs_seeded, rs_striking}
use caly_anti.Abi.Bucket.{TbKind, slot, RateState}
use caly_anti.Abi.Config.{FwConfig}
use caly_anti.Abi.Reason.{StatReason, reason_code}
use caly_anti.Bucket.{tb_init, nsec_per_sec}
use caly_anti.Parse.Packet.{is_icmp}
use caly_anti.Rate.{charge, PacketKind}
use caly_anti.Xdp.State.{Maps, source, source_eq, write, store, stat}
use caly_anti.Xdp.Run.{Fixed, Run, Flow, next, flag, pkt_flag, drop_for}
use caly_anti.Xdp.Bans.{Offence, ban_install}
use caly_anti.Xdp.Policy.{is_syn}

-- The kind of a packet, for the buckets.
unfoldable pub packet_kind : Run → PacketKind
packet_kind r = record {
  want_bytes = r.pkt.pkt_len;
  is_syn = is_syn r.pkt;
  is_udp = r.pkt.proto == 17;
  is_icmp = is_icmp r.pkt.proto;
  is_newconn = is_syn r.pkt && r.ct_missed;
}

-- A rate state, what refused, and the rate that it exceeded.
abbrev pub Charged : Type 0
Charged = RateState × StatReason × ℕ

-- `else if (applies && !caly_tb_consume(...)) { hit = ...; evval = ...; }`
unfoldable pub refused :
    FwConfig → TbKind → StatReason → ℕ → (RateState → Charged) → RateState × Bool → Charged
unfolding slot
refused cfg kind reason evval rest (rs, true) = rest rs
refused cfg kind reason evval rest (rs, false) = (rs, reason, slot kind cfg.tb_rate)

unfoldable pub refused_if :
    Bool → FwConfig → ℕ → TbKind → StatReason → ℕ → (RateState → Charged) → RateState → Charged
unfolding refused charge
refused_if applies cfg now kind reason evval rest rs =
    if applies then refused cfg kind reason evval rest (charge rs cfg now kind 1) else rest rs

unfoldable pub charge_known : FwConfig → ℕ → PacketKind → ℕ → RateState → Charged
unfolding refused refused_if charge
charge_known cfg now p evval rs =
    let newconn =
      refused_if p.is_newconn cfg now TbKind.newconn StatReason.drop_rate_newconn evval
        (λ r. (r, StatReason.pkt_total, evval)) in
    let icmp = refused_if p.is_icmp cfg now TbKind.icmp StatReason.drop_rate_icmp evval newconn in
    let udp = refused_if p.is_udp cfg now TbKind.udp StatReason.drop_rate_udp evval icmp in
    let syn = refused_if p.is_syn cfg now TbKind.syn StatReason.drop_rate_syn evval udp in
    let bps = λ (r : RateState).
      refused cfg TbKind.bps StatReason.drop_rate_bps evval syn
        (charge r cfg now TbKind.bps p.want_bytes) in
    refused cfg TbKind.pps StatReason.drop_rate_pps evval bps (charge rs cfg now TbKind.pps 1)

-- The first packet of a source: full buckets, all of them charged, nothing refused.
unfoldable pub full_state : FwConfig → ℕ → RateState
unfolding slot tb_init
full_state cfg now = record {
  tb = record {
    at_pps = tb_init now (slot TbKind.pps cfg.tb_burst);
    at_bps = tb_init now (slot TbKind.bps cfg.tb_burst);
    at_syn = tb_init now (slot TbKind.syn cfg.tb_burst);
    at_udp = tb_init now (slot TbKind.udp cfg.tb_burst);
    at_icmp = tb_init now (slot TbKind.icmp cfg.tb_burst);
    at_newconn = tb_init now (slot TbKind.newconn cfg.tb_burst);
  };
  window_start_ns = now;
  last_seen_ns = now;
  strikes = 0;
  last_reason = StatReason.pkt_total;
  offences = 0;
  flags = set_bit 0 rs_seeded;
}

abbrev pub charge_when : Bool → FwConfig → ℕ → TbKind → RateState → RateState
charge_when b cfg now kind rs = if b then (charge rs cfg now kind 1).0 else rs

unfoldable pub charge_first : FwConfig → ℕ → PacketKind → RateState
unfolding full_state
charge_first cfg now p =
    let pps = (charge (full_state cfg now) cfg now TbKind.pps 1).0 in
    let bps = (charge pps cfg now TbKind.bps p.want_bytes).0 in
    let syn = charge_when p.is_syn cfg now TbKind.syn bps in
    let udp = charge_when p.is_udp cfg now TbKind.udp syn in
    let icmp = charge_when p.is_icmp cfg now TbKind.icmp udp in
    charge_when p.is_newconn cfg now TbKind.newconn icmp

-- A strike, in the open window or in a new one.
unfoldable pub add_strike : FwConfig → ℕ → StatReason → RateState → RateState
add_strike cfg now hit rs =
    let win = if cfg.strike_window_ns == 0 then 60 * nsec_per_sec else cfg.strike_window_ns in
    let fresh = ltb now rs.window_start_ns || ltb win (now - rs.window_start_ns) in
    let strikes' = if fresh then 0 else rs.strikes in
    record rs {
      window_start_ns = if fresh then now else rs.window_start_ns;
      strikes = if ltb strikes' u32_max then strikes' + 1 else strikes';
      last_reason = hit;
      flags = set_bit rs.flags rs_striking;
    }

-- Strikes by UDP or ICMP never ban: their source may be forged.
unfoldable pub earns_ban : Fixed → PacketKind → RateState → Bool
earns_ban fx p rs =
    flag fx f_autoban
    && not (fx.cfg.strike_limit == 0)
    && not p.is_udp
    && not p.is_icmp
    && leb fx.cfg.strike_limit rs.strikes

-- `if (ban_ttl) { ... }`
unfoldable pub after_ban : ℕ → ℕ → RateState → RateState
after_ban ttl now rs =
    if ttl == 0
    then rs
    else record rs { offences = add_u32 rs.offences 1; strikes = 0; window_start_ns = now }

abbrev pub offence : Run → StatReason → ℕ → ℕ → Offence
offence r reason override strikes = record {
  source = source r.pkt;
  now_ns = r.pkt.ts_ns;
  reason = reason;
  ttl_override = override;
  strikes = strikes;
  pkt_len = r.pkt.pkt_len;
}

abbrev pub keep_rate : Run → RateState → Maps → Maps
keep_rate r rs m = record m { rate = write source_eq (source r.pkt) rs m.rate }

-- The ban of a source with as many strikes as it takes.
unfoldable pub ban_source : Fixed → Run → StatReason → RateState → Maps → Flow
unfolding after_ban
ban_source fx r hit struck m =
    let (m', ttl) = ban_install fx.env fx.cfg (offence r hit 0 struck.strikes) m in
    drop_for hit
      (record r { maps = keep_rate r (after_ban ttl r.pkt.ts_ns struck) m'; ban_ttl = ttl })

-- The source exceeded a bucket: a strike, perhaps a ban, and a drop.
unfoldable pub punish : Fixed → Run → StatReason → RateState → Flow
unfolding earns_ban ban_source
punish fx r hit struck =
    let m = stat StatReason.strike_added r.pkt.pkt_len r.maps in
    if earns_ban fx (packet_kind r) struck
    then ban_source fx r hit struck m
    else drop_for hit (record r { maps = keep_rate r struck m })

unfoldable pub strike : Fixed → Run → StatReason → RateState → Flow
unfolding add_strike punish
strike fx r hit rs = punish fx r hit (add_strike fx.cfg r.pkt.ts_ns hit rs)

-- `hit != STAT_PKT_TOTAL`
unfoldable pub after_charge : Fixed → Run → Charged → Flow
unfolding strike reason_code
after_charge fx r (rs, hit, evval) =
    let r' = record r { evval = evval } in
    if reason_code hit == 0
    then next (record r' { maps = keep_rate r rs r.maps })
    else strike fx r' hit rs

unfoldable pub first_seen : Fixed → Run → Run
unfolding charge_first packet_kind
first_seen fx r =
    let rs = charge_first fx.cfg r.pkt.ts_ns (packet_kind r) in
    if fx.env.rate_insert.fails
    then record r { maps = stat StatReason.map_full_rate r.pkt.pkt_len r.maps }
    else record r {
      maps = record r.maps {
        rate = store source_eq fx.env.rate_insert (source r.pkt) rs r.maps.rate;
      };
    }

unfoldable pub rate_limit : Fixed → Run → Flow
unfolding charge_known after_charge first_seen packet_kind
rate_limit fx r =
    if flag fx f_rate_limit && not (pkt_flag r pkt_allowlist)
    then elim (r.maps.rate (source r.pkt)) [
      | none ↦ next (first_seen fx r)
      | some rs ↦ after_charge fx r (
          charge_known fx.cfg r.pkt.ts_ns (packet_kind r) r.evval
            (record rs { last_seen_ns = r.pkt.ts_ns }))
    ]
    else next r
