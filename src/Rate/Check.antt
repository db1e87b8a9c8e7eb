-- ===== src/Rate/Check.antt =====
-- `rate_check`: which reason it returns, and what it does to each of the six buckets.
use caly_anti.Base.{ℕ, ◌≡◌, Bool, true, ◌||◌, ◌&&◌, not, if◌then◌else◌, arith}
use caly_anti.Abi.Bucket.{TokenBucket, TbKind, slot, RateState}
use caly_anti.Abi.Config.{FwConfig}
use caly_anti.Abi.Reason.{StatReason}
use caly_anti.Bucket.{tb_consume, tb_peek}
use caly_anti.Rate.{seeded, PacketKind, rate_check}

module _ (rs : RateState) (cfg : FwConfig) (now_ns : ℕ) (p : PacketKind) where
  -- The bucket of a kind as the check finds it, and the answer that it would give.
  abbrev pub found : TbKind → TokenBucket
  found kind = slot kind (seeded rs cfg now_ns).tb

  abbrev pub want : TbKind → ℕ
  want TbKind.bps = p.want_bytes
  want _ = 1

  abbrev pub conforms : TbKind → Bool
  conforms kind =
      tb_peek (found kind) now_ns (slot kind cfg.tb_rate) (slot kind cfg.tb_burst) (want kind)

  abbrev pub applies : TbKind → Bool
  applies TbKind.syn = p.is_syn
  applies TbKind.udp = p.is_udp
  applies TbKind.icmp = p.is_icmp
  applies TbKind.newconn = p.is_newconn
  applies _ = true

  abbrev pub passes : TbKind → Bool
  passes kind = not (applies kind) || conforms kind

  abbrev pub refusal : StatReason
  refusal =
      if not (passes TbKind.pps)
      then StatReason.drop_rate_pps
      else if not (passes TbKind.bps)
      then StatReason.drop_rate_bps
      else if not (passes TbKind.syn)
      then StatReason.drop_rate_syn
      else if not (passes TbKind.udp)
      then StatReason.drop_rate_udp
      else if not (passes TbKind.icmp)
      then StatReason.drop_rate_icmp
      else if not (passes TbKind.newconn)
      then StatReason.drop_rate_newconn
      else StatReason.pkt_total

  -- The reason that `rate_check` returns is that of the first bucket, in the order of the kinds,
  -- that applies to the packet and that alone would refuse it by `tb_peek`; it is `pkt_total` where
  -- all that apply conform.
  pub rate_check_reason : (rate_check rs cfg now_ns p).1 ≡ refusal
  unfolding rate_check tb_peek slot
  rate_check_reason = ground arith

  -- A bucket is reached when all before it pass.
  abbrev pub reached : TbKind → Bool
  reached TbKind.pps = true
  reached TbKind.bps = passes TbKind.pps
  reached TbKind.syn = passes TbKind.pps && passes TbKind.bps
  reached TbKind.udp = passes TbKind.pps && passes TbKind.bps && passes TbKind.syn
  reached TbKind.icmp =
      passes TbKind.pps && passes TbKind.bps && passes TbKind.syn && passes TbKind.udp
  reached TbKind.newconn =
      passes TbKind.pps
      && passes TbKind.bps
      && passes TbKind.syn
      && passes TbKind.udp
      && passes TbKind.icmp

  abbrev pub charged_bucket : TbKind → TokenBucket
  charged_bucket kind =
      if applies kind && reached kind
      then (tb_consume (found kind) now_ns (slot kind cfg.tb_rate) (slot kind cfg.tb_burst)
          (want kind)).0
      else found kind

  -- Of the six buckets `rate_check` charges exactly those that apply to the packet and that are
  -- reached, which is when all buckets before them pass; the others, those after the first refusal
  -- included, are as the check found them, seeded where the state was not.
  pub rate_check_buckets :
      (kind : TbKind) → slot kind (rate_check rs cfg now_ns p).0.tb ≡ charged_bucket kind
  unfolding rate_check tb_peek slot
  rate_check_buckets TbKind.pps = ground arith
  rate_check_buckets TbKind.bps = ground arith
  rate_check_buckets TbKind.syn = ground arith
  rate_check_buckets TbKind.udp = ground arith
  rate_check_buckets TbKind.icmp = ground arith
  rate_check_buckets TbKind.newconn = ground arith
