-- ===== src/Ban.antt =====
-- bpf/common.h and bpf/ratelimit.h: the record of a ban, and how its time to live grows.
pub mod Ttl
pub mod Record
use caly_anti.Base.{
  ℕ, ◌+◌, ◌-◌, ◌*◌, ◌/◌, Bool, true, false, ◌&&◌, ◌||◌, not, ltb, leb, ◌==◌, if◌then◌else◌,
}
use caly_anti.Base.Word.{add_u64, mul_u64}
use caly_anti.Base.Bits.{test_bit, set_bit}
use caly_anti.Abi.Bits.{ban_auto, ban_permanent, ban_escalated}
use caly_anti.Abi.Config.{FwConfig}
use caly_anti.Abi.Reason
use caly_anti.Abi.Reason.{StatReason}
use caly_anti.Compat.{add_sat_u32, add_sat_u64}

pub record BanEntry : Type 0 where
  pub expiry_ns : ℕ
  pub first_seen_ns : ℕ
  pub last_hit_ns : ℕ
  pub cur_ttl_ns : ℕ
  pub hit_pkts : ℕ
  pub hit_bytes : ℕ
  pub reason : StatReason
  pub strikes : ℕ
  pub offences : ℕ
  pub flags : ℕ

-- The first two tests of `ban_next_ttl`: the bounds that it works with.
abbrev pub ttl_floor : ℕ → ℕ
ttl_floor base_ns = if base_ns == 0 then 1 else base_ns

abbrev pub ttl_ceiling : ℕ → ℕ → ℕ
ttl_ceiling base_ns max_ns = if ltb max_ns (ttl_floor base_ns) then ttl_floor base_ns else max_ns

unfoldable pub ban_next_ttl : ℕ → ℕ → ℕ → ℕ → ℕ → ℕ
ban_next_ttl cur_ttl_ns base_ns max_ns num den =
    let base = ttl_floor base_ns in
    let max = ttl_ceiling base_ns max_ns in
    if ltb cur_ttl_ns base
    then base
    else if den == 0 || leb num den
    then (if ltb max cur_ttl_ns then max else cur_ttl_ns)
    else if ltb max cur_ttl_ns
    then max
    else let next = mul_u64 (cur_ttl_ns / den) num in
      let kept = if ltb next cur_ttl_ns then cur_ttl_ns else next in
      if ltb max kept then max else kept

-- `if (cfg->ban_ttl_max_ns && ttl > cfg->ban_ttl_max_ns) ttl = cfg->ban_ttl_max_ns;`
abbrev pub cap_ttl : FwConfig → ℕ → ℕ
cap_ttl cfg ttl =
    if not (cfg.ban_ttl_max_ns == 0) && ltb cfg.ban_ttl_max_ns ttl then cfg.ban_ttl_max_ns else ttl

unfoldable pub ban_fill : StatReason → ℕ → FwConfig → ℕ → ℕ → BanEntry
ban_fill reason now_ns cfg base_ttl_ns strikes =
    let base = if base_ttl_ns == 0 then cfg.ban_ttl_base_ns else base_ttl_ns in
    let ttl = cap_ttl cfg base in
    record {
      expiry_ns = add_u64 now_ns ttl;
      first_seen_ns = now_ns;
      last_hit_ns = now_ns;
      cur_ttl_ns = ttl;
      hit_pkts = 0;
      hit_bytes = 0;
      reason = reason;
      strikes = strikes;
      offences = 1;
      flags = set_bit 0 ban_auto;
    }

-- The counters of a packet that a ban drops.
unfoldable pub count_hit : BanEntry → ℕ → ℕ → BanEntry
count_hit b now_ns pkt_len = record b {
  last_hit_ns = now_ns;
  hit_pkts = add_sat_u64 b.hit_pkts 1;
  hit_bytes = add_sat_u64 b.hit_bytes pkt_len;
}

unfoldable pub ban_hit : BanEntry → ℕ → ℕ → BanEntry × ℕ
unfolding count_hit
ban_hit b now_ns pkt_len = (count_hit b now_ns pkt_len, b.cur_ttl_ns)

-- `if (expired) { ... }`
unfoldable pub reoffend : BanEntry → FwConfig → ℕ → StatReason → BanEntry × ℕ
reoffend b cfg now_ns reason =
    let ttl =
      ban_next_ttl b.cur_ttl_ns cfg.ban_ttl_base_ns cfg.ban_ttl_max_ns cfg.ban_escalate_num
        cfg.ban_escalate_den in
    (
      record b {
        cur_ttl_ns = ttl;
        expiry_ns = add_u64 now_ns ttl;
        offences = add_sat_u32 b.offences 1;
        reason = reason;
        flags = set_bit b.flags ban_escalated;
        first_seen_ns = if b.first_seen_ns == 0 then now_ns else b.first_seen_ns;
      },
      ttl,
    )

-- A ban that is still active: its expiry slides, its time to live stays.
unfoldable pub slide : BanEntry → FwConfig → ℕ → BanEntry × ℕ
slide b cfg now_ns =
    if test_bit b.flags ban_permanent
    then (b, b.cur_ttl_ns)
    else let ttl = cap_ttl cfg (if b.cur_ttl_ns == 0 then cfg.ban_ttl_base_ns else b.cur_ttl_ns) in
      (record b { expiry_ns = add_u64 now_ns ttl }, ttl)

unfoldable pub ban_refresh : BanEntry → FwConfig → ℕ → StatReason → ℕ → Bool → BanEntry × ℕ
unfolding count_hit reoffend slide
ban_refresh b cfg now_ns reason pkt_len expired =
    let hit = count_hit b now_ns pkt_len in
    if expired then reoffend hit cfg now_ns reason else slide hit cfg now_ns

unfoldable pub ban_base_ttl : FwConfig → StatReason → ℕ
ban_base_ttl cfg StatReason.drop_portscan =
    if cfg.ban_ttl_scan_ns == 0 then cfg.ban_ttl_base_ns else cfg.ban_ttl_scan_ns
ban_base_ttl cfg StatReason.drop_amp_srcport =
    if cfg.ban_ttl_amp_ns == 0 then cfg.ban_ttl_base_ns else cfg.ban_ttl_amp_ns
ban_base_ttl cfg _ = cfg.ban_ttl_base_ns
