-- ===== src/Tests/Buckets.antt =====
-- The token bucket of bpf/common.h at concrete inputs.
use caly_anti.Base.{◌+◌, ◌-◌, ◌*◌, ◌≤◌, ◌≡◌, refl, arith, [], ◌∷◌, length}
use caly_anti.Abi.Bucket.{TokenBucket}
use caly_anti.Bucket.{nsec_per_sec, tb_init, tb_consume}
use caly_anti.Bucket.Exact.{ideal_consume, tb_consume-ideal_consume}
use caly_anti.Bucket.Bounds.{IsBucket, tb_consume-IsBucket}
use caly_anti.Bucket.Runs.{Trace, admitted, last_time, admitted_bound}
use caly_anti.Bucket.Fast.{empty_at, same_instant, fast_rate_free}

-- A bucket of 4 units at 7 a second, half empty a moment ago.
abbrev used : TokenBucket
used = record { tokens = 2; last_refill_ns = 5_000_000_000 }

-- Three packets, a second apart in all.
abbrev burst_trace : Trace
burst_trace = (1_000, 4) ∷ (500_001_000, 2) ∷ (1_000_001_000, 5) ∷ []

admits : admitted (tb_init 1_000 4) 7 4 burst_trace ≡ 6
unfolding admitted tb_consume tb_init
admits = refl

tb_consume-ideal_consume_example :
    tb_consume used 5_500_000_000 7 4 3 ≡ ideal_consume used 5_500_000_000 7 4 3
tb_consume-ideal_consume_example =
    tb_consume-ideal_consume used 5_500_000_000 7 4 3 (omega arith) (omega arith) (omega arith)

tb_consume-IsBucket_example : IsBucket 4 5_500_000_000 (tb_consume used 5_500_000_000 7 4 3).0
tb_consume-IsBucket_example =
    tb_consume-IsBucket used 5_500_000_000 7 4 3 (omega arith) (omega arith) (omega arith)
      (omega arith) (omega arith)

admitted_bound_example :
    admitted (tb_init 1_000 4) 7 4 burst_trace * nsec_per_sec
    ≤ 4 * nsec_per_sec + 7 * (last_time 1_000 burst_trace - 1_000) + length burst_trace * 7
admitted_bound_example =
    admitted_bound 7 4 1_000 burst_trace (omega arith) (omega arith) (omega arith) (omega arith)
      (omega arith) (omega arith, (omega arith, (omega arith, omega arith)))

fast_rate_free_example :
    admitted (empty_at 1_000) 1_500_000_000 10 (same_instant 1_000_000 1_001) ≡ 1_000_000
fast_rate_free_example =
    fast_rate_free 1_000_000 1_000 1_500_000_000 10 (omega arith) (omega arith) (omega arith)
      (omega arith) (omega arith) (omega arith)
