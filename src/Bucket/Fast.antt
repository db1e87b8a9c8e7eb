-- ===== src/Bucket/Fast.antt =====
-- Rates above one unit a nanosecond, where the token of a refill spends no time.
use caly_anti.Base.{ℕ, zero, suc, ◌+◌, ◌-◌, ◌*◌, ◌/◌, ◌<◌, ◌≡◌, ◌≢◌, refl, arith, true, [], ◌∷◌}
use native.Mathlib.Nat.{div-eq_of_lt}
use caly_anti.Base.Word.{IsU64}
use caly_anti.Abi.Bucket.{TokenBucket}
use caly_anti.Bucket.{nsec_per_sec, clamp_rate, tb_consume}
use caly_anti.Bucket.Exact.{added, ideal_refill, ideal_anchor, ideal_take}
use caly_anti.Bucket.Runs.{Trace, admitted}
use caly_anti.Bucket.Answer.{refilled, consume_refilled}

abbrev pub same_instant : ℕ → ℕ → Trace
same_instant zero now = []
same_instant (suc n) now = (now, 1) ∷ same_instant n now

abbrev pub empty_at : ℕ → TokenBucket
empty_at anchor = record { tokens = 0; last_refill_ns = anchor }

fast_anchor :
    (anchor burst : ℕ)
    → anchor ≢ 0
    → ideal_anchor (empty_at anchor) (anchor + 1) burst ≡ empty_at anchor
unfolding ideal_anchor
fast_anchor anchor burst ha = ground arith

fast_refill :
    (anchor rate burst : ℕ)
    → nsec_per_sec < rate
    → rate < 2 * nsec_per_sec
    → 0 < burst
    → ideal_refill (empty_at anchor) (anchor + 1) rate burst
      ≡ record { tokens = 1; last_refill_ns = anchor }
unfolding ideal_refill
fast_refill anchor rate burst hl hu h0 =
    let one_ns : anchor + 1 - anchor ≡ 1 = omega arith in
    let one_token : added 1 rate ≡ 1 = omega arith in
    let no_time : 1 * nsec_per_sec / rate ≡ 0 = div-eq_of_lt (omega arith) in
    rw (one_ns, one_token, no_time) (ground arith)

fast_rate_step :
    (anchor rate burst : ℕ)
    → IsU64 (anchor + 1)
    → anchor ≢ 0
    → nsec_per_sec < rate
    → rate < 2 * nsec_per_sec
    → IsU64 burst
    → 0 < burst
    → tb_consume (empty_at anchor) (anchor + 1) rate burst 1 ≡ (empty_at anchor, true)
unfolding refilled ideal_take
fast_rate_step anchor rate burst hn ha hl hu hb h0 =
    let same : clamp_rate rate ≡ rate = ground arith in
    rw (
      consume_refilled (empty_at anchor) (anchor + 1) rate burst 1 hn (omega arith) hb (omega arith)
          h0,
      fast_anchor anchor burst ha,
      same,
      fast_refill anchor rate burst hl hu h0,
    )

-- At a rate strictly between one and two units a nanosecond, with a depth that is not 0, an empty
-- bucket admits any number of packets of one unit at a single instant, one nanosecond past its
-- anchor: the token of each call spends no time.
pub fast_rate_free :
    (n anchor rate burst : ℕ)
    → IsU64 (anchor + 1)
    → anchor ≢ 0
    → nsec_per_sec < rate
    → rate < 2 * nsec_per_sec
    → IsU64 burst
    → 0 < burst
    → admitted (empty_at anchor) rate burst (same_instant n (anchor + 1)) ≡ n
unfolding admitted
fast_rate_free zero anchor rate burst hn ha hl hu hb h0 = refl
fast_rate_free (suc n) anchor rate burst hn ha hl hu hb h0 =
    rw (fast_rate_step anchor rate burst hn ha hl hu hb h0)
      (omega (arith, fast_rate_free n anchor rate burst hn ha hl hu hb h0))
