-- ===== src/Bucket/Runs.antt =====
-- Runs of a token bucket: a sequence of calls at growing times, the units that they admit, and the
-- calls of bpf/ratelimit.h that build on one bucket.
use caly_anti.Base.{ℕ, ◌+◌, ◌-◌, ◌*◌, ◌≤◌, ◌<◌, ◌≡◌, ◌≢◌, ap, arith, List, [], ◌∷◌, length}
use caly_anti.Base.Word.{IsU64}
use caly_anti.Abi.Bucket.{TokenBucket}
use caly_anti.Bucket.{nsec_per_sec, tb_rate_max, tb_init, tb_consume}
use caly_anti.Bucket.Bounds.{IsBucket, tb_consume-IsBucket}
use caly_anti.Bucket.Credit.{
  credit, Slack, Slack-rate, Slack-zero, charged, tb_consume-credit, tb_consume_anchor,
}

-- The packets that reach one bucket: when each one comes, and how many units it wants.
abbrev pub Trace : Type 0
Trace = List (ℕ × ℕ)

unfoldable pub run : TokenBucket → ℕ → ℕ → Trace → TokenBucket
run tb rate burst [] = tb
run tb rate burst ((now, want) ∷ rest) = run (tb_consume tb now rate burst want).0 rate burst rest

-- The units that the trace is admitted, all packets together.
unfoldable pub admitted : TokenBucket → ℕ → ℕ → Trace → ℕ
admitted tb rate burst [] = 0
admitted tb rate burst ((now, want) ∷ rest) =
    charged (tb_consume tb now rate burst want).1 want
    + admitted (tb_consume tb now rate burst want).0 rate burst rest

unfoldable pub last_time : ℕ → Trace → ℕ
last_time start [] = start
last_time start ((now, want) ∷ rest) = last_time now rest

-- Times are words that never fall.
abbrev pub IsTrace : ℕ → Trace → Type 0
IsTrace start [] = IsU64 start
IsTrace start ((now, want) ∷ rest) = (start ≤ now) × IsTrace now rest

IsTrace-word : (start : ℕ) (trace : Trace) → IsTrace start trace → IsU64 start
IsTrace-word start [] h = h
IsTrace-word start ((now, want) ∷ rest) (le, h) = omega (arith, IsTrace-word now rest h)

last_time_later : (start : ℕ) (trace : Trace) → IsTrace start trace → start ≤ last_time start trace
unfolding last_time
last_time_later start [] h = omega arith
last_time_later start ((now, want) ∷ rest) (le, h) = omega (arith, last_time_later now rest h)

module _ (rate burst slack : ℕ) (word : IsU64 burst) (enabled : 0 < rate)
    (capped : rate ≤ tb_rate_max) (deep : 0 < burst) (loss : Slack rate slack) where
  -- The induction behind the bounds below: credit pays for all that a trace is admitted.
  pub admitted-credit :
      (trace : Trace) (tb : TokenBucket) (start : ℕ)
      → IsTrace start trace
      → tb.last_refill_ns ≢ 0
      → IsBucket burst start tb
      → admitted tb rate burst trace * nsec_per_sec
        ≤ credit tb start rate + rate * (last_time start trace - start) + length trace * slack
  unfolding admitted last_time
  admitted-credit [] tb start h ha hi = omega arith
  admitted-credit ((now, want) ∷ rest) tb start (le, h) ha hi =
      let next : TokenBucket = (tb_consume tb now rate burst want).0 in
      let time = IsTrace-word now rest h in
      let later = last_time_later now rest h in
      let kept = tb_consume-IsBucket tb now rate burst want time word enabled deep hi.tokens_le in
      let seeded =
        tb_consume_anchor tb now rate burst want time word enabled deep hi.tokens_le ha
          (omega arith) in
      let one =
        tb_consume-credit tb start now rate burst want slack time word enabled capped deep loss
          hi.tokens_le ha hi.anchor_le le in
      let others = admitted-credit rest next now h seeded kept in
      let gone : last_time now rest - start ≡ (now - start) + (last_time now rest - now) =
        omega arith in
      omega (arith, one, others, ap (λ (t : ℕ). rate * t) gone)

full_credit :
    (start rate burst : ℕ) → credit (tb_init start burst) start rate ≡ burst * nsec_per_sec
unfolding credit tb_init
full_credit start rate burst =
    let no_time : start - start ≡ 0 = omega arith in rw no_time (omega arith)

tb_init-IsBucket : (start burst : ℕ) → IsBucket burst start (tb_init start burst)
unfolding tb_init
tb_init-IsBucket start burst = omega arith

tb_init_anchor : (start burst : ℕ) → start ≢ 0 → (tb_init start burst).last_refill_ns ≢ 0
unfolding tb_init
tb_init_anchor start burst h = h

-- From a full bucket, under a rate that is not 0 and not above the cap and a depth that is not 0, a
-- trace of n packets at times that start after 0 and never fall is admitted at most the depth, what
-- the rate brings in the time that the trace takes, and n roundings of `rate` billionths of a unit.
pub admitted_bound :
    (rate burst start : ℕ) (trace : Trace)
    → IsU64 burst
    → 0 < rate
    → rate ≤ tb_rate_max
    → 0 < burst
    → start ≢ 0
    → IsTrace start trace
    → admitted (tb_init start burst) rate burst trace * nsec_per_sec
      ≤ burst * nsec_per_sec + rate * (last_time start trace - start) + length trace * rate
admitted_bound rate burst start trace hb hr hm h0 hs ht = rw (← full_credit start rate burst) (
    admitted-credit rate burst rate hb hr hm h0 (Slack-rate rate hr) trace (tb_init start burst)
      start ht (tb_init_anchor start burst hs) (tb_init-IsBucket start burst))

-- Under the same conditions, where the rate divides a second, no rounding is given away: a trace is
-- admitted at most the depth and what the rate brings in its time.
pub admitted_bound_exact :
    (rate step burst start : ℕ) (trace : Trace)
    → rate * step ≡ nsec_per_sec
    → IsU64 burst
    → 0 < rate
    → rate ≤ tb_rate_max
    → 0 < burst
    → start ≢ 0
    → IsTrace start trace
    → admitted (tb_init start burst) rate burst trace * nsec_per_sec
      ≤ burst * nsec_per_sec + rate * (last_time start trace - start)
admitted_bound_exact rate step burst start trace hd hb hr hm h0 hs ht = omega (
  arith,
  full_credit start rate burst,
  admitted-credit rate burst 0 hb hr hm h0 (Slack-zero rate step hr hd) trace (tb_init start burst)
      start ht (tb_init_anchor start burst hs) (tb_init-IsBucket start burst),
)
