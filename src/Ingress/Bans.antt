-- ===== src/Ingress/Bans.antt =====
-- bpf/tc_ingress.bpf.c: the bans of a source.
use caly_anti.Base.{ℕ, Bool, true, false, ◌&&◌, not, leb, ◌==◌, if◌then◌else◌, none, some}
use caly_anti.Base.Bits.{test_bit, set_bit}
use caly_anti.Base.Word.{add_u64, add_u32}
use caly_anti.Abi.Bits.{ban_auto, ban_escalated, ban_permanent}
use caly_anti.Abi.Config.{FwConfig}
use caly_anti.Abi.Reason.{StatReason}
use caly_anti.Ban.{BanEntry, ban_next_ttl}
use caly_anti.Xdp.State.{Source, Insert, Maps, source_eq, write, store}
use caly_anti.Ingress.{TciPkt, tci_stat, tci_source}

-- An active ban drops the packet and counts it.
unfoldable pub tci_ban_active : TciPkt → ℕ → Maps → Maps × Bool
tci_ban_active p now m = elim (m.ban (tci_source p)) [
  | none ↦ (m, false)
  | some b ↦ if not (test_bit b.flags ban_permanent) && leb b.expiry_ns now then (m, false) else (
    record m {
      ban =
          write source_eq (tci_source p)
            (record b {
              last_hit_ns = now;
              hit_pkts = add_u64 b.hit_pkts 1;
              hit_bytes = add_u64 b.hit_bytes p.pkt_len;
            })
            m.ban;
    },
    true,
  )
]

unfoldable pub tci_ban_again : FwConfig → BanEntry → StatReason → ℕ → ℕ → BanEntry × ℕ
tci_ban_again cfg e reason strikes now =
    let ttl =
      ban_next_ttl e.cur_ttl_ns cfg.ban_ttl_base_ns cfg.ban_ttl_max_ns cfg.ban_escalate_num
        cfg.ban_escalate_den in
    (
      record e {
        expiry_ns = add_u64 now ttl;
        cur_ttl_ns = ttl;
        last_hit_ns = now;
        reason = reason;
        strikes = strikes;
        offences = add_u32 e.offences 1;
        flags = set_bit (set_bit e.flags ban_auto) ban_escalated;
      },
      ttl,
    )

unfoldable pub tci_ban_new : StatReason → ℕ → ℕ → ℕ → BanEntry
tci_ban_new reason ttl strikes now = record {
  expiry_ns = add_u64 now ttl;
  first_seen_ns = now;
  last_hit_ns = now;
  cur_ttl_ns = ttl;
  hit_pkts = 0;
  hit_bytes = 0;
  reason = reason;
  strikes = strikes;
  offences = 1;
  flags = set_bit 0 ban_auto;
}

unfoldable pub tci_ban_apply :
    FwConfig → Insert Source → TciPkt → StatReason → ℕ → ℕ → ℕ → Maps → Maps × ℕ
unfolding tci_ban_again tci_ban_new
tci_ban_apply cfg ins p reason base_ttl strikes now m = elim (m.ban (tci_source p)) [
  | some e ↦
      let (e', ttl) = tci_ban_again cfg e reason strikes now in
      (
        tci_stat StatReason.ban_escalated 0
            (record m { ban = write source_eq (tci_source p) e' m.ban }),
        ttl,
      )
  | none ↦
      let ttl = if base_ttl == 0 then cfg.ban_ttl_base_ns else base_ttl in
      (
        (if ins.fails
            then tci_stat StatReason.ban_full 0 m
            else tci_stat StatReason.ban_added 0 (record m {
              ban = store source_eq ins (tci_source p) (tci_ban_new reason ttl strikes now) m.ban;
            })),
        ttl,
      )
]
