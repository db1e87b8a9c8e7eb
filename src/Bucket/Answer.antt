-- ===== src/Bucket/Answer.antt =====
-- When a bucket says yes: the peek, the depth that it reports, and idle sources.
use caly_anti.Base.{
  ℕ, ◌+◌, ◌-◌, ◌≤◌, ◌<◌, ◌≡◌, refl, ◌∙◌, arith, Bool, true, leb, ◌==◌, if◌then◌else◌, Bool-cases,
  ◌⊎◌, inl, inr,
}
use caly_anti.Base.Word.{IsU64}
use caly_anti.Abi.Bucket.{TokenBucket}
use caly_anti.Bucket.{
  nsec_per_sec, tb_rate_max, tb_peek, clamp_rate, tb_consume, tb_avail, syn_global_ok,
}
use caly_anti.Bucket.Exact.{added, ideal_refill, ideal_anchor, ideal_take, tb_consume-ideal_consume}
use caly_anti.Bucket.Bounds.{ideal_consume_enabled}

-- What a call leaves when it takes `want` units, and when it is refused.
abbrev pub left_by : Bool → ℕ → ℕ → ℕ
left_by ok tokens want = if ok then tokens - want else tokens

unfoldable pub refilled : TokenBucket → ℕ → ℕ → ℕ → TokenBucket
refilled tb now rate burst = ideal_refill (ideal_anchor tb now burst) now (clamp_rate rate) burst

pub consume_refilled :
    (tb : TokenBucket) (now rate burst want : ℕ)
    → IsU64 now
    → IsU64 tb.tokens
    → IsU64 burst
    → 0 < rate
    → 0 < burst
    → tb_consume tb now rate burst want ≡ ideal_take (refilled tb now rate burst) want
unfolding refilled
consume_refilled tb now rate burst want hn ht hb hr h0 =
    tb_consume-ideal_consume tb now rate burst want hn ht hb
    ∙ ideal_consume_enabled tb now rate burst want hr h0

ideal_take_answer :
    (tb : TokenBucket) (want : ℕ)
    → ((ideal_take tb want).1 ≡ leb want tb.tokens)
      × ((ideal_take tb want).0.tokens ≡ left_by (ideal_take tb want).1 tb.tokens want)
unfolding ideal_take
ideal_take_answer tb want = ground arith

avail_refilled :
    (tb : TokenBucket) (now rate burst : ℕ)
    → IsU64 now
    → IsU64 tb.tokens
    → IsU64 burst
    → 0 < rate
    → 0 < burst
    → tb_avail tb now rate burst ≡ (refilled tb now rate burst).tokens
unfolding tb_avail
avail_refilled tb now rate burst hn ht hb hr h0 =
    ground (
      arith,
      consume_refilled tb now rate burst 0,
      ideal_take_answer (refilled tb now rate burst) 0,
    )

-- An enabled bucket admits a packet exactly when the depth that `tb_avail` reports covers it; then
-- it is charged in full, and a packet that is refused is charged nothing. `tb_peek` agrees.
pub tb_consume_answer :
    (tb : TokenBucket) (now_ns rate burst want : ℕ)
    → IsU64 now_ns
    → IsU64 tb.tokens
    → IsU64 burst
    → 0 < rate
    → 0 < burst
    → ((tb_consume tb now_ns rate burst want).1 ≡ leb want (tb_avail tb now_ns rate burst))
      × (tb_peek tb now_ns rate burst want ≡ (tb_consume tb now_ns rate burst want).1)
      × ((tb_consume tb now_ns rate burst want).0.tokens
          ≡ left_by (tb_consume tb now_ns rate burst want).1 (tb_avail tb now_ns rate burst) want)
unfolding tb_peek
tb_consume_answer tb now rate burst want hn ht hb hr h0 =
    let taken = ideal_take_answer (refilled tb now rate burst) want in
    let call = consume_refilled tb now rate burst want hn ht hb hr h0 in
    let depth = avail_refilled tb now rate burst hn ht hb hr h0 in
    (rw (call, depth) taken.0, refl, rw (call, depth) taken.1)

second_adds : (rate : ℕ) → added nsec_per_sec rate ≡ rate
second_adds rate = omega arith

idle_anchor :
    (tb : TokenBucket) (now burst : ℕ)
    → tb.last_refill_ns + nsec_per_sec ≤ now
    → (ideal_anchor tb now burst ≡ record { tokens = burst; last_refill_ns = now })
      ⊎ (ideal_anchor tb now burst
          ≡ record { tokens = tb.tokens; last_refill_ns = now - nsec_per_sec })
unfolding ideal_anchor
idle_anchor tb now burst idle = ground arith

second_refill :
    (tokens now rate burst want : ℕ)
    → nsec_per_sec ≤ now
    → want ≤ rate
    → want ≤ burst
    → want
      ≤ (ideal_refill
          (record { tokens = tokens; last_refill_ns = now - nsec_per_sec })
          now
          rate
          burst).tokens
unfolding ideal_refill
second_refill tokens now rate burst want hn hr hb =
    let second : now - (now - nsec_per_sec) ≡ nsec_per_sec = omega arith in
    rw (second, second_adds rate) (ground arith)

full_refill :
    (now rate burst want : ℕ)
    → want ≤ burst
    → want ≤ (ideal_refill (record { tokens = burst; last_refill_ns = now }) now rate burst).tokens
unfolding ideal_refill
full_refill now rate burst want hb = ground arith

idle_refilled :
    (tb : TokenBucket) (now rate burst want : ℕ)
    → rate ≤ tb_rate_max
    → tb.last_refill_ns + nsec_per_sec ≤ now
    → want ≤ rate
    → want ≤ burst
    → want ≤ (refilled tb now rate burst).tokens
unfolding refilled
idle_refilled tb now rate burst want hm idle hr hb =
    let same : clamp_rate rate ≡ rate = ground arith in
    elim (idle_anchor tb now burst idle) [
      | inl full ↦ rw (same, full) (full_refill now rate burst want hb)
      | inr old ↦ rw (same, old) (second_refill tb.tokens now rate burst want (omega arith) hr hb)
    ]

disabled :
    (tb : TokenBucket) (now rate burst want : ℕ)
    → (burst == 0) ≡ true
    → (tb_consume tb now rate burst want).1 ≡ true
unfolding tb_consume
disabled tb now rate burst want h = ground arith

-- At a rate that is not 0 and not above the cap, a bucket that holds no more than its depth and
-- whose anchor is a second old or more never refuses a packet that wants no more than the depth and
-- no more than one second's refill.
pub tb_consume_idle :
    (tb : TokenBucket) (now_ns rate burst want : ℕ)
    → IsU64 now_ns
    → IsU64 burst
    → 0 < rate
    → rate ≤ tb_rate_max
    → tb.tokens ≤ burst
    → tb.last_refill_ns + nsec_per_sec ≤ now_ns
    → want ≤ rate
    → want ≤ burst
    → (tb_consume tb now_ns rate burst want).1 ≡ true
tb_consume_idle tb now rate burst want hn hb hr hm ht idle hw hd = elim (Bool-cases (burst == 0)) [
  | inl off ↦ disabled tb now rate burst want off
  | inr deep ↦
      let refills = idle_refilled tb now rate burst want hm idle hw hd in
      rw
        (
          consume_refilled tb now rate burst want hn (omega arith) hb hr (ground arith),
          (ideal_take_answer (refilled tb now rate burst) want).0,
        )
        (ground arith)
]

-- The guard on the burst of the global cap never fires: the cap is the bucket whose rate and depth
-- are both `fallback_pps`, and 0 admits everything.
pub syn_global_ok-tb_consume :
    (tb : TokenBucket) (now_ns fallback_pps : ℕ)
    → syn_global_ok tb now_ns fallback_pps ≡ tb_consume tb now_ns fallback_pps fallback_pps 1
unfolding syn_global_ok tb_consume
syn_global_ok-tb_consume tb now pps = ground arith
