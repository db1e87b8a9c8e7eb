-- ===== src/Tests/Sources.antt =====
-- The source filters and the state of one source at concrete inputs.
use caly_anti.Base.{
  ℕ, ◌+◌, ◌*◌, ◌≡◌, ◌↔◌, refl, arith, true, false, if◌then◌else◌, ◌==◌, List, [], ◌∷◌, length,
}
use caly_anti.Base.Bits.{test_bit}
use caly_anti.Abi.Bucket.{TbKind, slot, RateState}
use caly_anti.Tests.Data.{each, config}
use caly_anti.Abi.Reason.{StatReason, reason_code}
use caly_anti.Bucket.{tb_consume, tb_peek}
use caly_anti.Compat.{age_ns}
use caly_anti.Rate.{seeded, PacketKind, rate_check}
use caly_anti.Rate.Check.{refusal, charged_bucket, rate_check_reason, rate_check_buckets}
use caly_anti.Rate.Strike.{Counts, bans, bans-InWindow}
use caly_anti.Source.{v4_src_bogon, tcp_flags_illegal}
use caly_anti.Source.Prefixes.{v4_reference}
use caly_anti.Source.Ipv4.{v4_src_bogon-v4_reference}
use caly_anti.Source.Flags.{is_legal, tcp_flags_illegal_iff}

-- A seeded source with one unit left in each bucket.
abbrev source : RateState
source = record {
  tb = each (record { tokens = 1; last_refill_ns = 7_000 });
  window_start_ns = 0;
  last_seen_ns = 0;
  strikes = 0;
  last_reason = StatReason.pkt_total;
  offences = 0;
  flags = 1;
}

-- A SYN of two units of bytes: it passes the first bucket and trips the second.
abbrev syn_packet : PacketKind
syn_packet = record {
  want_bytes = 2;
  is_syn = true;
  is_udp = false;
  is_icmp = false;
  is_newconn = true;
}

rate_check_reason_example :
    (rate_check source config 8_000 syn_packet).1 ≡ refusal source config 8_000 syn_packet
rate_check_reason_example = rate_check_reason source config 8_000 syn_packet

trips_bps : refusal source config 8_000 syn_packet ≡ StatReason.drop_rate_bps
unfolding tb_peek tb_consume slot seeded test_bit
trips_bps = refl

rate_check_buckets_example :
    slot TbKind.pps (rate_check source config 8_000 syn_packet).0.tb
    ≡ charged_bucket source config 8_000 syn_packet TbKind.pps
rate_check_buckets_example = rate_check_buckets source config 8_000 syn_packet TbKind.pps

config-Counts : Counts config
config-Counts = record {
  window_pos = omega arith;
  limit_pos = omega arith;
  limit_word = omega arith;
}

abbrev later_strikes : List ℕ
later_strikes = 8_500 ∷ 9_000 ∷ []

-- Three strikes in one window, where the limit is three.
bans-InWindow_example :
    bans source config StatReason.drop_rate_bps (8_000 ∷ later_strikes)
    ≡ (if 1 + length later_strikes == config.strike_limit then 1 else 0)
unfolding test_bit age_ns
bans-InWindow_example =
    bans-InWindow source config StatReason.drop_rate_bps 8_000 later_strikes config-Counts refl
      (omega arith, (omega arith, tt)) (omega arith)

v4_src_bogon-v4_reference_example :
    v4_src_bogon 172 20 3 4 true ≡ v4_reference (((172 * 256 + 20) * 256 + 3) * 256 + 4) true
v4_src_bogon-v4_reference_example =
    v4_src_bogon-v4_reference 172 20 3 4 true (omega arith) (omega arith) (omega arith)
      (omega arith)

-- SYN and FIN together.
tcp_flags_illegal_iff_example : (reason_code (tcp_flags_illegal 3) ≡ 0) ↔ (is_legal 3 ≡ true)
tcp_flags_illegal_iff_example = tcp_flags_illegal_iff 3 (omega arith)
