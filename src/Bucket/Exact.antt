-- ===== src/Bucket/Exact.antt =====
-- `tb_consume` on words of 64 bits computes what it would on unbounded numbers: nothing wraps.
use caly_anti.Base.{
  ℕ, ◌+◌, ◌-◌, ◌*◌, ◌/◌, ◌^◌, ◌≤◌, ◌<◌, ◌≡◌, arith, Bool, true, false, ◌||◌, ltb, leb, ◌==◌,
  if◌then◌else◌,
}
use caly_anti.Base.Arith.{mul_mono}
use caly_anti.Base.Word.{IsU64, sub_u64, mul_u64}
use caly_anti.Abi.Bucket.{TokenBucket}
use caly_anti.Bucket.{
  nsec_per_sec, tb_rate_max, tb_reseed, tb_snap, tb_add, tb_refill, tb_take, clamp_rate, tb_consume,
}

-- The refill by `elapsed` nanoseconds on unbounded numbers.
abbrev pub added : ℕ → ℕ → ℕ
added elapsed rate = elapsed * rate / nsec_per_sec

unfoldable pub ideal_refill : TokenBucket → ℕ → ℕ → ℕ → TokenBucket
ideal_refill tb now_ns rate burst =
    let add = added (now_ns - tb.last_refill_ns) rate in
    if ltb 0 add
    then record {
      tokens = if ltb burst (tb.tokens + add) then burst else tb.tokens + add;
      last_refill_ns = tb.last_refill_ns + add * nsec_per_sec / rate;
    }
    else tb

product_word : (e r : ℕ) → e ≤ nsec_per_sec → r ≤ tb_rate_max → e * r ≤ nsec_per_sec * tb_rate_max
product_word e r he hr = mul_mono e nsec_per_sec r tb_rate_max he hr

-- A quotient times its divisor is at most the dividend.
pub quotient_le : (a r : ℕ) → 0 < r → a / r * r ≤ a
quotient_le a r h = grind arith

quotient_of_le : (a b r : ℕ) → 0 < r → a ≤ b * r → a / r ≤ b
quotient_of_le a b r h k = grind arith

pub consumed_le : (e r : ℕ) → 0 < r → added e r * nsec_per_sec / r ≤ e
consumed_le e r h = quotient_of_le (added e r * nsec_per_sec) e r h (omega arith)

tb_add_exact :
    (tb : TokenBucket) (rate burst add : ℕ)
    → IsU64 tb.tokens
    → IsU64 burst
    → add * nsec_per_sec < 2 ^ 64
    → tb.last_refill_ns + add * nsec_per_sec / rate < 2 ^ 64
    → tb_add tb rate burst add ≡ (
        if ltb 0 add
        then record {
          tokens = if ltb burst (tb.tokens + add) then burst else tb.tokens + add;
          last_refill_ns = tb.last_refill_ns + add * nsec_per_sec / rate;
        }
        else tb)
unfolding tb_add
tb_add_exact tb rate burst add ht hb hm hl = rw no_wrap (ground arith)
  where
    no_wrap : mul_u64 add nsec_per_sec ≡ add * nsec_per_sec
    no_wrap = omega arith

elapsed_exact : (now last : ℕ) → IsU64 now → last ≤ now → sub_u64 now last ≡ now - last
elapsed_exact now last hn h = omega arith

add_exact :
    (e rate : ℕ)
    → e ≤ nsec_per_sec
    → rate ≤ tb_rate_max
    → mul_u64 e rate / nsec_per_sec ≡ added e rate
add_exact e rate he hr = omega (arith, product_word e rate he hr)

pub tb_refill_exact :
    (tb : TokenBucket) (now rate burst : ℕ)
    → IsU64 now
    → IsU64 tb.tokens
    → IsU64 burst
    → 0 < rate
    → rate ≤ tb_rate_max
    → tb.last_refill_ns ≤ now
    → now ≤ tb.last_refill_ns + nsec_per_sec
    → tb_refill tb now rate burst ≡ ideal_refill tb now rate burst
unfolding tb_refill ideal_refill
tb_refill_exact tb now rate burst hn ht hb hr hm ha he =
    let e : ℕ = now - tb.last_refill_ns in
    rw (elapsed_exact now tb.last_refill_ns hn ha, add_exact e rate (omega arith) hm)
      (tb_add_exact tb rate burst (added e rate) ht hb
        (omega (arith, product_word e rate (omega arith) hm))
        (omega (arith, consumed_le e rate hr)))

-- Where a call begins to refill: a fresh or recycled entry is full, and the anchor a second old.
unfoldable pub ideal_anchor : TokenBucket → ℕ → ℕ → TokenBucket
ideal_anchor tb now burst =
    if tb.last_refill_ns == 0 || ltb now tb.last_refill_ns
    then record { tokens = burst; last_refill_ns = now }
    else if ltb (tb.last_refill_ns + nsec_per_sec) now
    then record tb { last_refill_ns = now - nsec_per_sec }
    else tb

unfoldable pub ideal_take : TokenBucket → ℕ → TokenBucket × Bool
ideal_take tb want =
    if leb want tb.tokens then (record tb { tokens = tb.tokens - want }, true) else (tb, false)

-- The specification of `tb_consume`, on unbounded numbers.
unfoldable pub ideal_consume : TokenBucket → ℕ → ℕ → ℕ → ℕ → TokenBucket × Bool
unfolding ideal_anchor ideal_refill ideal_take
ideal_consume tb now rate burst want =
    if rate == 0 || burst == 0
    then (tb, true)
    else ideal_take (ideal_refill (ideal_anchor tb now burst) now (clamp_rate rate) burst) want

tb_anchor_exact :
    (tb : TokenBucket) (now burst : ℕ)
    → IsU64 now
    → tb_snap (tb_reseed tb now burst) now ≡ ideal_anchor tb now burst
unfolding tb_snap tb_reseed ideal_anchor
tb_anchor_exact tb now burst hn = ground arith

-- The anchor of a refill lies within the last second.
pub ideal_anchor_recent :
    (tb : TokenBucket) (now burst : ℕ)
    → ((ideal_anchor tb now burst).last_refill_ns ≤ now)
      × (now ≤ (ideal_anchor tb now burst).last_refill_ns + nsec_per_sec)
unfolding ideal_anchor
ideal_anchor_recent tb now burst = ground arith

pub ideal_anchor_tokens :
    (tb : TokenBucket) (now burst bound : ℕ)
    → tb.tokens ≤ bound
    → burst ≤ bound
    → (ideal_anchor tb now burst).tokens ≤ bound
unfolding ideal_anchor
ideal_anchor_tokens tb now burst bound ht hb = ground arith

pub ideal_refill_tokens :
    (tb : TokenBucket) (now rate burst bound : ℕ)
    → tb.tokens ≤ bound
    → burst ≤ bound
    → (ideal_refill tb now rate burst).tokens ≤ bound
unfolding ideal_refill
ideal_refill_tokens tb now rate burst bound ht hb = ground arith

tb_take_exact :
    (tb : TokenBucket) (want : ℕ) → IsU64 tb.tokens → tb_take tb want ≡ ideal_take tb want
unfolding tb_take ideal_take
tb_take_exact tb want h = ground arith

pub clamp_rate_bounds :
    (rate : ℕ) → (clamp_rate rate ≤ tb_rate_max) × (0 < rate → 0 < clamp_rate rate)
clamp_rate_bounds rate = ground arith

-- The body of `tb_consume`, when the bucket is enabled.
consume_enabled :
    (tb : TokenBucket) (now rate burst want : ℕ)
    → IsU64 now
    → IsU64 tb.tokens
    → IsU64 burst
    → 0 < rate
    → tb_take (tb_refill (tb_snap (tb_reseed tb now burst) now) now (clamp_rate rate) burst) want
      ≡ ideal_take (ideal_refill (ideal_anchor tb now burst) now (clamp_rate rate) burst) want
consume_enabled tb now rate burst want hn ht hb hr =
    let t : TokenBucket = ideal_anchor tb now burst in
    let word : t.tokens ≤ 2 ^ 64 - 1 =
      ideal_anchor_tokens tb now burst (2 ^ 64 - 1) (omega arith) (omega arith) in
    let recent = ideal_anchor_recent tb now burst in
    let exact =
      tb_refill_exact t now (clamp_rate rate) burst hn (omega arith) hb
        ((clamp_rate_bounds rate).1 hr) (clamp_rate_bounds rate).0 recent.0 recent.1 in
    rw (tb_anchor_exact tb now burst hn, exact)
      (tb_take_exact (ideal_refill t now (clamp_rate rate) burst) want (
        omega (
          arith,
          ideal_refill_tokens t now (clamp_rate rate) burst (2 ^ 64 - 1) word (omega arith),
        )))

-- On words of 64 bits `tb_consume` gives the bucket and the answer of the specification on unbounded
-- numbers, whatever the rate, the depth, the demand and the anchor: nothing wraps.
pub tb_consume-ideal_consume :
    (tb : TokenBucket) (now_ns rate burst want : ℕ)
    → IsU64 now_ns
    → IsU64 tb.tokens
    → IsU64 burst
    → tb_consume tb now_ns rate burst want ≡ ideal_consume tb now_ns rate burst want
unfolding tb_consume ideal_consume
tb_consume-ideal_consume tb now_ns rate burst want hn ht hb =
    ground (arith, consume_enabled tb now_ns rate burst want)
