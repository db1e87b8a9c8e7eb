-- ===== src/Ban/Record.antt =====
-- The record of a ban over its life: how long each call of `caly_ban_fill` and `caly_ban_refresh`
-- holds the source, and what it counts. No program calls the two: the XDP and tc ingress programs
-- leave the deadline of a ban alone when they drop a packet by it.
use caly_anti.Base.{
  ℕ, ◌+◌, ◌≤◌, ◌<◌, ◌≡◌, arith, Bool, true, false, if◌then◌else◌, min, List, [], ◌∷◌, length,
}
use caly_anti.Base.Bits.{test_bit}
use caly_anti.Base.Word.{IsU32, IsU64, u32_max, u64_max}
use caly_anti.Abi.Bits.{ban_permanent}
use caly_anti.Abi.Config.{FwConfig}
use caly_anti.Abi.Reason.{StatReason}
use caly_anti.Compat.{saturating}
use caly_anti.Ban.{BanEntry, ban_fill, ban_refresh, ban_hit, ban_base_ttl}
use caly_anti.Ban.Ttl.{ban_next_ttl_bounds}

-- What the loader makes sure of: a base that is not 0, under a ceiling, and deadlines that fit.
pub record Sane (cfg : FwConfig) (now_ns : ℕ) : Type 0 where
  pub base_pos : 0 < cfg.ban_ttl_base_ns
  pub base_le_max : cfg.ban_ttl_base_ns ≤ cfg.ban_ttl_max_ns
  pub fits : IsU64 (now_ns + cfg.ban_ttl_max_ns)

-- A call at `now_ns` leaves the ban `b` and returns `ttl`: the source is held for `ttl` from now,
-- longer than no time and no longer than the ceiling, and the ban's own time to live is in bounds.
pub record Holds (cfg : FwConfig) (now_ns : ℕ) (b : BanEntry) (ttl : ℕ) : Type 0 where
  pub deadline : b.expiry_ns ≡ now_ns + ttl
  pub some_time : 0 < ttl
  pub under_ceiling : ttl ≤ cfg.ban_ttl_max_ns
  pub ttl_bound : b.cur_ttl_ns ≤ cfg.ban_ttl_max_ns

-- Under the same configurations a new ban of any class holds the source for its time to live, which
-- is not 0 and is capped by the ceiling.
pub ban_fill-Holds :
    (reason banned_for : StatReason) (now_ns : ℕ) (cfg : FwConfig) (strikes : ℕ)
    → Sane cfg now_ns
    → Holds cfg now_ns
        (ban_fill reason now_ns cfg (ban_base_ttl cfg banned_for) strikes)
        (ban_fill reason now_ns cfg (ban_base_ttl cfg banned_for) strikes).cur_ttl_ns
unfolding ban_fill
ban_fill-Holds reason banned_for now cfg strikes s = ground arith

-- Where the base time to live is not 0 and under the ceiling, and deadlines fit a word, a call of
-- `caly_ban_refresh` on a ban that is not permanent and whose time to live is under the ceiling renews
-- it, whether in force or expired: the deadline becomes the returned time from now, which is not 0 and
-- not above the ceiling, and the ban's own time to live does not fall.
pub ban_refresh-Holds :
    (b : BanEntry) (cfg : FwConfig) (now_ns : ℕ) (reason : StatReason) (pkt_len : ℕ)
    (expired : Bool)
    → Sane cfg now_ns
    → b.cur_ttl_ns ≤ cfg.ban_ttl_max_ns
    → test_bit b.flags ban_permanent ≡ false
    → Holds cfg now_ns
        (ban_refresh b cfg now_ns reason pkt_len expired).0
        (ban_refresh b cfg now_ns reason pkt_len expired).1
      × (b.cur_ttl_ns ≤ (ban_refresh b cfg now_ns reason pkt_len expired).0.cur_ttl_ns)
unfolding ban_refresh
ban_refresh-Holds b cfg now reason pkt_len expired s h p = ground (
  arith,
  ban_next_ttl_bounds b.cur_ttl_ns cfg.ban_ttl_base_ns cfg.ban_ttl_max_ns cfg.ban_escalate_num
      cfg.ban_escalate_den,
)

-- A permanent ban in force keeps its deadline, its time to live and its flags.
pub ban_refresh_permanent :
    (b : BanEntry) (cfg : FwConfig) (now_ns : ℕ) (reason : StatReason) (pkt_len : ℕ)
    → test_bit b.flags ban_permanent ≡ true
    → ban_refresh b cfg now_ns reason pkt_len false ≡ ban_hit b now_ns pkt_len
unfolding ban_refresh ban_hit
ban_refresh_permanent b cfg now reason pkt_len p = ground arith

-- One call of `caly_ban_refresh` for a packet of a banned source: its time, its length, and whether the ban had expired.
pub record Hit : Type 0 where
  pub at_ns : ℕ
  pub pkt_len : ℕ
  pub reason : StatReason
  pub expired : Bool

unfoldable pub life : BanEntry → FwConfig → List Hit → BanEntry
life b cfg [] = b
life b cfg (h ∷ hs) = life (ban_refresh b cfg h.at_ns h.reason h.pkt_len h.expired).0 cfg hs

unfoldable pub returns : List Hit → ℕ
returns [] = 0
returns (h ∷ hs) = (if h.expired then 1 else 0) + returns hs

refresh_counts :
    (b : BanEntry) (cfg : FwConfig) (now : ℕ) (reason : StatReason) (pkt_len : ℕ) (expired : Bool)
    → IsU64 b.hit_pkts
    → IsU32 b.offences
    → ((ban_refresh b cfg now reason pkt_len expired).0.hit_pkts ≡ min (b.hit_pkts + 1) u64_max)
      × ((ban_refresh b cfg now reason pkt_len expired).0.offences
          ≡ min (b.offences + (if expired then 1 else 0)) u32_max)
unfolding ban_refresh
refresh_counts b cfg now reason pkt_len expired hp ho = grind saturating

-- Over any sequence of calls of `caly_ban_refresh` on a ban, from counters that are words, the counters are
-- the true counts, cut at the largest word: every call is a hit, and every one after expiry is one
-- more offence. They never wrap.
pub life_counts :
    (hits : List Hit) (b : BanEntry) (cfg : FwConfig)
    → IsU64 b.hit_pkts
    → IsU32 b.offences
    → ((life b cfg hits).hit_pkts ≡ min (b.hit_pkts + length hits) u64_max)
      × ((life b cfg hits).offences ≡ min (b.offences + returns hits) u32_max)
unfolding life returns
life_counts [] b cfg hp ho = omega arith
life_counts (h ∷ hs) b cfg hp ho =
    let c = refresh_counts b cfg h.at_ns h.reason h.pkt_len h.expired hp ho in
    let next : BanEntry = (ban_refresh b cfg h.at_ns h.reason h.pkt_len h.expired).0 in
    omega (arith, c.0, c.1, life_counts hs next cfg (omega arith) (omega arith))
