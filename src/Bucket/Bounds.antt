-- ===== src/Bucket/Bounds.antt =====
-- The bounds of a bucket: what one call of `tb_consume` leaves in it.
use caly_anti.Base.{ℕ, ◌-◌, ◌≤◌, ◌<◌, ◌≡◌, arith}
use caly_anti.Base.Word.{IsU64}
use caly_anti.Abi.Bucket.{TokenBucket}
use caly_anti.Bucket.{clamp_rate, tb_consume}
use caly_anti.Bucket.Exact.{
  consumed_le, ideal_refill, ideal_anchor, ideal_anchor_recent, ideal_anchor_tokens,
  ideal_refill_tokens, ideal_take, ideal_consume, tb_consume-ideal_consume, clamp_rate_bounds,
}

-- A bucket in use: no more than full, and anchored at a time that is not in the future.
pub record IsBucket (burst now_ns : ℕ) (tb : TokenBucket) : Type 0 where
  pub tokens_le : tb.tokens ≤ burst
  pub anchor_le : tb.last_refill_ns ≤ now_ns

ideal_refill_anchor :
    (tb : TokenBucket) (now rate burst : ℕ)
    → 0 < rate
    → tb.last_refill_ns ≤ now
    → (ideal_refill tb now rate burst).last_refill_ns ≤ now
unfolding ideal_refill
ideal_refill_anchor tb now rate burst hr h =
    ground (arith, consumed_le (now - tb.last_refill_ns) rate hr)

ideal_take-IsBucket :
    (tb : TokenBucket) (burst now want : ℕ)
    → IsBucket burst now tb
    → IsBucket burst now (ideal_take tb want).0
unfolding ideal_take
ideal_take-IsBucket tb burst now want h = ground arith

pub ideal_consume_enabled :
    (tb : TokenBucket) (now rate burst want : ℕ)
    → 0 < rate
    → 0 < burst
    → ideal_consume tb now rate burst want
      ≡ ideal_take (ideal_refill (ideal_anchor tb now burst) now (clamp_rate rate) burst) want
unfolding ideal_consume
ideal_consume_enabled tb now rate burst want hr hb = ground arith

-- An enabled bucket that held no more than its depth holds no more after any call, and its anchor
-- is not in the future.
pub tb_consume-IsBucket :
    (tb : TokenBucket) (now_ns rate burst want : ℕ)
    → IsU64 now_ns
    → IsU64 burst
    → 0 < rate
    → 0 < burst
    → tb.tokens ≤ burst
    → IsBucket burst now_ns (tb_consume tb now_ns rate burst want).0
tb_consume-IsBucket tb now rate burst want hn hb hr h0 ht =
    let t : TokenBucket = ideal_anchor tb now burst in
    let tokens = ideal_anchor_tokens tb now burst burst ht (omega arith) in
    let r = clamp_rate_bounds rate in
    rw
      (
        tb_consume-ideal_consume tb now rate burst want hn (omega arith) hb,
        ideal_consume_enabled tb now rate burst want hr h0,
      )
      (ideal_take-IsBucket (ideal_refill t now (clamp_rate rate) burst) burst now want (record {
        tokens_le = ideal_refill_tokens t now (clamp_rate rate) burst burst tokens (omega arith);
        anchor_le =
            ideal_refill_anchor t now (clamp_rate rate) burst (r.1 hr)
              (ideal_anchor_recent tb now burst).0;
      }))
