-- ===== src/Tests/Bans.antt =====
-- Bans at concrete inputs.
use caly_anti.Base.{ℕ, ◌≤◌, ◌≡◌, refl, arith, true, false, List, [], ◌∷◌}
use caly_anti.Base.Bits.{test_bit}
use caly_anti.Abi.Reason.{StatReason}
use caly_anti.Ban.{ban_next_ttl, BanEntry, ban_hit, ban_refresh}
use caly_anti.Ban.Ttl.{ban_next_ttl_stalls}
use caly_anti.Ban.Record.{Sane, Holds, ban_refresh-Holds, ban_refresh_permanent, Hit}
use caly_anti.Tests.Data.{config}

abbrev banned : BanEntry
banned = record {
  expiry_ns = 9_000;
  first_seen_ns = 7_000;
  last_hit_ns = 7_000;
  cur_ttl_ns = 2_000;
  hit_pkts = 5;
  hit_bytes = 500;
  reason = StatReason.drop_portscan;
  strikes = 0;
  offences = 1;
  flags = 1;
}

abbrev permanent : BanEntry
permanent = record banned { flags = 5 }

abbrev hit : ℕ → Hit
hit now = record { at_ns = now; pkt_len = 60; reason = StatReason.drop_portscan; expired = true }

abbrev two_hits : List Hit
two_hits = hit 9_500 ∷ hit 20_000 ∷ []

config-Sane : Sane config 9_500
config-Sane = record { base_pos = omega arith; base_le_max = omega arith; fits = omega arith }

-- A base of 2^60 ns, tripled under a ceiling above it: the product of 16 is exactly a word.
ban_next_ttl_stalls_example :
    ban_next_ttl 1_152_921_504_606_846_976 1 4_000_000_000_000_000_000 16 1
    ≡ 1_152_921_504_606_846_976
ban_next_ttl_stalls_example =
    ban_next_ttl_stalls 1_152_921_504_606_846_976 1 4_000_000_000_000_000_000 16 1 (omega arith)
      (omega arith) (omega arith) (omega arith) (omega arith) (omega arith)

ban_refresh-Holds_example :
    Holds config 9_500
      (ban_refresh banned config 9_500 StatReason.drop_portscan 60 true).0
      (ban_refresh banned config 9_500 StatReason.drop_portscan 60 true).1
    × (banned.cur_ttl_ns
        ≤ (ban_refresh banned config 9_500 StatReason.drop_portscan 60 true).0.cur_ttl_ns)
unfolding test_bit
ban_refresh-Holds_example =
    ban_refresh-Holds banned config 9_500 StatReason.drop_portscan 60 true config-Sane (omega arith)
      refl

ban_refresh_permanent_example :
    ban_refresh permanent config 9_500 StatReason.drop_portscan 60 false
    ≡ ban_hit permanent 9_500 60
unfolding test_bit
ban_refresh_permanent_example =
    ban_refresh_permanent permanent config 9_500 StatReason.drop_portscan 60 refl
