-- ===== src/Xdp/Bans.antt =====
-- bpf/xdp_firewall.bpf.c, `caly_ban_install`: a source that offends is put into the ban map.
use caly_anti.Base.{ℕ, ◌&&◌, not, ltb, ◌==◌, if◌then◌else◌, Option, none, some}
use caly_anti.Base.Bits.{test_bit, set_bit}
use caly_anti.Base.Word.{add_u64, add_u32}
use caly_anti.Abi.Bits.{f_autoban, ban_auto, ban_permanent, ban_escalated}
use caly_anti.Abi.Config.{FwConfig}
use caly_anti.Abi.Reason.{StatReason}
use caly_anti.Ban.{BanEntry, cap_ttl, ban_next_ttl}
use caly_anti.Xdp.State.{Maps, Env, Source, source_eq, write, store, stat}

-- What the caller says of the offence.
pub record Offence : Type 0 where
  pub source : Source
  pub now_ns : ℕ
  pub reason : StatReason
  pub ttl_override : ℕ
  pub strikes : ℕ
  pub pkt_len : ℕ

-- A ban that is still being served: a new deadline, without escalation.
unfoldable pub active_ttl : BanEntry → FwConfig → ℕ → ℕ
active_ttl be cfg override =
    let ttl = if be.cur_ttl_ns == 0 then cfg.ban_ttl_base_ns else be.cur_ttl_ns in
    if ltb ttl override then override else ttl

unfoldable pub refresh_active : BanEntry → ℕ → Offence → Maps → Maps × ℕ
refresh_active be ttl o m = if ttl == 0 then (m, 0) else (
  stat StatReason.ban_refreshed o.pkt_len (record m {
    ban =
        write source_eq o.source
          (record be { expiry_ns = add_u64 o.now_ns ttl; last_hit_ns = o.now_ns }) m.ban;
  }),
  ttl,
)

-- An expired record of a repeat offender.
unfoldable pub repeat_ttl : BanEntry → FwConfig → ℕ → ℕ
repeat_ttl be cfg override =
    if override == 0
    then ban_next_ttl be.cur_ttl_ns cfg.ban_ttl_base_ns cfg.ban_ttl_max_ns cfg.ban_escalate_num
        cfg.ban_escalate_den
    else override

unfoldable pub escalate_ban : BanEntry → ℕ → Offence → Maps → Maps × ℕ
escalate_ban be ttl o m = if ttl == 0 then (m, 0) else (
  stat StatReason.ban_escalated o.pkt_len (record m {
    ban =
        write source_eq o.source
          (record be {
            expiry_ns = add_u64 o.now_ns ttl;
            last_hit_ns = o.now_ns;
            cur_ttl_ns = ttl;
            reason = o.reason;
            strikes = o.strikes;
            offences = add_u32 be.offences 1;
            flags = set_bit (set_bit be.flags ban_auto) ban_escalated;
          })
          m.ban;
  }),
  ttl,
)

-- The record of a first offence.
unfoldable pub fresh_ban : Offence → ℕ → BanEntry
fresh_ban o ttl = record {
  expiry_ns = add_u64 o.now_ns ttl;
  first_seen_ns = o.now_ns;
  last_hit_ns = o.now_ns;
  cur_ttl_ns = ttl;
  hit_pkts = 0;
  hit_bytes = 0;
  reason = o.reason;
  strikes = o.strikes;
  offences = 1;
  flags = set_bit 0 ban_auto;
}

unfoldable pub first_ban : Env → FwConfig → Offence → Maps → Maps × ℕ
unfolding fresh_ban
first_ban env cfg o m =
    let asked = if o.ttl_override == 0 then cfg.ban_ttl_base_ns else o.ttl_override in
    let ttl = cap_ttl cfg asked in
    if asked == 0
    then (m, 0)
    else if env.ban_insert.fails
    then (stat StatReason.ban_full o.pkt_len m, 0)
    else (
      stat StatReason.ban_added o.pkt_len
          (record m { ban = store source_eq env.ban_insert o.source (fresh_ban o ttl) m.ban }),
      ttl,
    )

-- By the record that the map has of the source.
unfoldable pub renew_ban : Env → FwConfig → Offence → Maps → Option BanEntry → Maps × ℕ
unfolding active_ttl refresh_active repeat_ttl escalate_ban first_ban
renew_ban env cfg o m none = first_ban env cfg o m
renew_ban env cfg o m (some be) =
    if ltb o.now_ns be.expiry_ns && not (test_bit be.flags ban_permanent)
    then refresh_active be (active_ttl be cfg o.ttl_override) o m
    else escalate_ban be (repeat_ttl be cfg o.ttl_override) o m

unfoldable pub ban_install : Env → FwConfig → Offence → Maps → Maps × ℕ
unfolding renew_ban
ban_install env cfg o m =
    if test_bit cfg.flags f_autoban then renew_ban env cfg o m (m.ban o.source) else (m, 0)
