-- ===== src/Bucket/Credit.antt =====
-- The credit of a bucket: what it may still admit, and how one call of `tb_consume` spends it.
use caly_anti.Base.{ℕ, ◌+◌, ◌-◌, ◌*◌, ◌/◌, ◌≤◌, ◌<◌, ◌≡◌, ◌≢◌, refl, ap, arith, Bool, if◌then◌else◌}
use native.Mathlib.Nat.{div-add-mod, div-eq_of_eq-mul_right}
use caly_anti.Base.Arith.{mul_mono}
use caly_anti.Base.Word.{IsU64}
use caly_anti.Bucket.Bounds.{ideal_consume_enabled}
use caly_anti.Abi.Bucket.{TokenBucket}
use caly_anti.Bucket.{nsec_per_sec, clamp_rate, tb_consume, tb_rate_max}
use caly_anti.Bucket.Exact.{
  added, consumed_le, ideal_refill, ideal_anchor, ideal_anchor_recent, ideal_take,
  tb_consume-ideal_consume,
}

-- What a bucket may still admit by `now`, in billionths of a unit.
unfoldable pub credit : TokenBucket → ℕ → ℕ → ℕ
credit tb now rate = tb.tokens * nsec_per_sec + rate * (now - tb.last_refill_ns)

-- `slack` covers what rounding the spent nanoseconds down gives away in one refill.
abbrev pub Slack : ℕ → ℕ → Type 0
Slack rate slack = (add : ℕ) → add * nsec_per_sec ≤ rate * (add * nsec_per_sec / rate) + slack

pub Slack-rate : (rate : ℕ) → 0 < rate → Slack rate rate
Slack-rate rate h add = grind (arith, div-add-mod (add * nsec_per_sec) rate)

-- No slack where the rate divides a second.
pub Slack-zero : (rate step : ℕ) → 0 < rate → rate * step ≡ nsec_per_sec → Slack rate 0
Slack-zero rate step h e add =
    let whole : add * nsec_per_sec ≡ rate * (add * step) =
      omega (arith, ap (λ (t : ℕ). add * t) e) in
    omega (arith, ap (λ (t : ℕ). rate * t) (div-eq_of_eq-mul_right h whole))

-- One refill, with its elapsed time `e` and its spent time `c`.
spend :
    (rate tokens tokens' add e c slack : ℕ)
    → tokens' ≤ tokens + add
    → c ≤ e
    → add * nsec_per_sec ≤ rate * c + slack
    → tokens' * nsec_per_sec + rate * (e - c) ≤ tokens * nsec_per_sec + rate * e + slack
spend rate tokens tokens' add e c slack ht hc hs = grind (arith, split)
  where
    whole : e ≡ c + (e - c)
    whole = omega arith

    split : rate * e ≡ rate * c + rate * (e - c)
    split = omega (arith, ap (λ (t : ℕ). rate * t) whole)

-- What a refill by `add` leaves, in the terms of `spend`.
refill_parts :
    (tb : TokenBucket) (now rate burst : ℕ)
    → 0 < rate
    → tb.last_refill_ns ≤ now
    → (c : ℕ) × ((ideal_refill tb now rate burst).tokens
        ≤ tb.tokens + added (now - tb.last_refill_ns) rate)
      × ((ideal_refill tb now rate burst).last_refill_ns ≡ tb.last_refill_ns + c)
      × (c ≤ now - tb.last_refill_ns)
      × (c ≡ added (now - tb.last_refill_ns) rate * nsec_per_sec / rate)
unfolding ideal_refill
refill_parts tb now rate burst hr h =
    let e : ℕ = now - tb.last_refill_ns in
    let none_spent : 0 * nsec_per_sec / rate ≡ 0 = grind arith in
    (
      added e rate * nsec_per_sec / rate,
      ground arith,
      ground (arith, none_spent),
      consumed_le e rate hr,
      refl,
    )

credit-ideal_refill :
    (tb : TokenBucket) (now rate burst slack : ℕ)
    → 0 < rate
    → Slack rate slack
    → tb.last_refill_ns ≤ now
    → credit (ideal_refill tb now rate burst) now rate ≤ credit tb now rate + slack
unfolding credit
credit-ideal_refill tb now rate burst slack hr hs h =
    let e : ℕ = now - tb.last_refill_ns in
    let t : TokenBucket = ideal_refill tb now rate burst in
    let (c, tokens, anchor, small, spent) = refill_parts tb now rate burst hr h in
    let left : now - t.last_refill_ns ≡ e - c = omega arith in
    let enough : added e rate * nsec_per_sec ≤ rate * c + slack = rw spent (hs (added e rate)) in
    rw left (spend rate tb.tokens t.tokens (added e rate) e c slack tokens small enough)

-- Snapping the anchor forward gives nothing away.
credit-ideal_anchor :
    (tb : TokenBucket) (now rate burst : ℕ)
    → tb.last_refill_ns ≢ 0
    → tb.last_refill_ns ≤ now
    → credit (ideal_anchor tb now burst) now rate ≤ credit tb now rate
unfolding credit ideal_anchor
credit-ideal_anchor tb now rate burst h0 h =
    let older : nsec_per_sec ≤ now - tb.last_refill_ns
        → rate * nsec_per_sec ≤ rate * (now - tb.last_refill_ns) =
      λ k. mul_mono rate rate nsec_per_sec (now - tb.last_refill_ns) (omega arith) k in
    ground (arith, older)

abbrev pub charged : Bool → ℕ → ℕ
charged ok want = if ok then want else 0

ideal_take-credit :
    (tb : TokenBucket) (now rate want : ℕ)
    → charged (ideal_take tb want).1 want * nsec_per_sec + credit (ideal_take tb want).0 now rate
      ≡ credit tb now rate
unfolding credit ideal_take
ideal_take-credit tb now rate want = ground arith

credit_later :
    (tb : TokenBucket) (before now rate : ℕ)
    → tb.last_refill_ns ≤ before
    → before ≤ now
    → credit tb now rate ≡ credit tb before rate + rate * (now - before)
unfolding credit
credit_later tb before now rate ha h =
    let whole : now - tb.last_refill_ns ≡ (before - tb.last_refill_ns) + (now - before) =
      omega arith in
    omega (arith, ap (λ (t : ℕ). rate * t) whole)

-- What one call admits and what the bucket may admit after it are paid by the credit before it,
-- by the time gone by at the bucket's rate, and by one rounding.
pub tb_consume-credit :
    (tb : TokenBucket) (before now rate burst want slack : ℕ)
    → IsU64 now
    → IsU64 burst
    → 0 < rate
    → rate ≤ tb_rate_max
    → 0 < burst
    → Slack rate slack
    → tb.tokens ≤ burst
    → tb.last_refill_ns ≢ 0
    → tb.last_refill_ns ≤ before
    → before ≤ now
    → charged (tb_consume tb now rate burst want).1 want * nsec_per_sec
        + credit (tb_consume tb now rate burst want).0 now rate
      ≤ credit tb before rate + rate * (now - before) + slack
tb_consume-credit tb before now rate burst want slack hn hb hr hm h0 hs ht ha hl hw =
    let same : clamp_rate rate ≡ rate = ground arith in
    let t : TokenBucket = ideal_anchor tb now burst in
    rw
      (
        tb_consume-ideal_consume tb now rate burst want hn (omega arith) hb,
        ideal_consume_enabled tb now rate burst want hr h0,
        same,
      )
      (omega (
        arith,
        ideal_take-credit (ideal_refill t now rate burst) now rate want,
        credit-ideal_refill t now rate burst slack hr hs (ideal_anchor_recent tb now burst).0,
        credit-ideal_anchor tb now rate burst ha (omega arith),
        credit_later tb before now rate hl hw,
      ))

ideal_refill_anchor_ne_zero :
    (tb : TokenBucket) (now rate burst : ℕ)
    → tb.last_refill_ns ≢ 0
    → (ideal_refill tb now rate burst).last_refill_ns ≢ 0
unfolding ideal_refill
ideal_refill_anchor_ne_zero tb now rate burst h = ground arith

ideal_anchor_ne_zero :
    (tb : TokenBucket) (now burst : ℕ)
    → tb.last_refill_ns ≢ 0
    → tb.last_refill_ns ≤ now
    → (ideal_anchor tb now burst).last_refill_ns ≢ 0
unfolding ideal_anchor
ideal_anchor_ne_zero tb now burst h0 h = ground arith

ideal_take_anchor :
    (tb : TokenBucket) (want : ℕ) → (ideal_take tb want).0.last_refill_ns ≡ tb.last_refill_ns
unfolding ideal_take
ideal_take_anchor tb want = ground arith

-- A bucket that was seeded stays seeded: its anchor never becomes 0 again.
pub tb_consume_anchor :
    (tb : TokenBucket) (now rate burst want : ℕ)
    → IsU64 now
    → IsU64 burst
    → 0 < rate
    → 0 < burst
    → tb.tokens ≤ burst
    → tb.last_refill_ns ≢ 0
    → tb.last_refill_ns ≤ now
    → (tb_consume tb now rate burst want).0.last_refill_ns ≢ 0
tb_consume_anchor tb now rate burst want hn hb hr h0 ht ha hl =
    let t : TokenBucket = ideal_anchor tb now burst in
    rw
      (
        tb_consume-ideal_consume tb now rate burst want hn (omega arith) hb,
        ideal_consume_enabled tb now rate burst want hr h0,
        ideal_take_anchor (ideal_refill t now (clamp_rate rate) burst) want,
      )
      (ideal_refill_anchor_ne_zero t now (clamp_rate rate) burst
        (ideal_anchor_ne_zero tb now burst ha hl))
