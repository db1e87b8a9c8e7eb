-- ===== src/Bucket.antt =====
-- bpf/common.h and bpf/ratelimit.h: one token bucket. A function that changes the bucket returns it
-- with C's result, an int that is 1 (true) when the packet conforms.
pub mod Exact
pub mod Bounds
pub mod Credit
pub mod Runs
pub mod Answer
pub mod Fast
use caly_anti.Base.{
  ℕ, ◌+◌, ◌-◌, ◌*◌, ◌/◌, ◌%◌, ◌^◌, Bool, true, false, ◌||◌, not, ltb, leb, ◌==◌, if◌then◌else◌,
  Option, none, some,
}
use caly_anti.Base.Word.{add_u64, sub_u64, mul_u64}
use caly_anti.Abi.Bucket.{TokenBucket}

abbrev pub nsec_per_sec : ℕ
nsec_per_sec = 1_000_000_000

abbrev pub tb_rate_max : ℕ
tb_rate_max = 4_000_000_000

abbrev pub tb_max_elapsed_ns : ℕ
tb_max_elapsed_ns = nsec_per_sec

unfoldable pub tb_init : ℕ → ℕ → TokenBucket
tb_init now_ns burst = record { tokens = burst; last_refill_ns = now_ns }

-- A fresh entry, or one whose clock went backwards, starts full.
unfoldable pub tb_reseed : TokenBucket → ℕ → ℕ → TokenBucket
tb_reseed tb now_ns burst =
    if tb.last_refill_ns == 0 || ltb now_ns tb.last_refill_ns
    then record { tokens = burst; last_refill_ns = now_ns }
    else tb

-- The anchor of the refill is at most a second old.
unfoldable pub tb_snap : TokenBucket → ℕ → TokenBucket
tb_snap tb now_ns =
    if ltb tb_max_elapsed_ns (sub_u64 now_ns tb.last_refill_ns)
    then record tb { last_refill_ns = sub_u64 now_ns tb_max_elapsed_ns }
    else tb

-- `if (add > 0) { ... }`
unfoldable pub tb_add : TokenBucket → ℕ → ℕ → ℕ → TokenBucket
tb_add tb rate burst add =
    if ltb 0 add
    then record {
      tokens =
          if ltb (add_u64 tb.tokens add) tb.tokens || ltb burst (add_u64 tb.tokens add)
          then burst
          else add_u64 tb.tokens add;
      last_refill_ns = add_u64 tb.last_refill_ns (mul_u64 add nsec_per_sec / rate);
    }
    else tb

unfoldable pub tb_refill : TokenBucket → ℕ → ℕ → ℕ → TokenBucket
unfolding tb_add
tb_refill tb now_ns rate burst =
    tb_add tb rate burst (mul_u64 (sub_u64 now_ns tb.last_refill_ns) rate / nsec_per_sec)

unfoldable pub tb_take : TokenBucket → ℕ → TokenBucket × Bool
tb_take tb want =
    if leb want tb.tokens
    then (record tb { tokens = sub_u64 tb.tokens want }, true)
    else (tb, false)

abbrev pub clamp_rate : ℕ → ℕ
clamp_rate rate = if ltb tb_rate_max rate then tb_rate_max else rate

unfoldable pub tb_consume : TokenBucket → ℕ → ℕ → ℕ → ℕ → TokenBucket × Bool
unfolding tb_reseed tb_snap tb_refill tb_take
tb_consume tb now_ns rate burst want =
    if rate == 0 || burst == 0
    then (tb, true)
    else tb_take
        (tb_refill (tb_snap (tb_reseed tb now_ns burst) now_ns) now_ns (clamp_rate rate) burst) want

unfoldable pub tb_peek : TokenBucket → ℕ → ℕ → ℕ → ℕ → Bool
tb_peek tb now_ns rate burst want = (tb_consume tb now_ns rate burst want).1

unfoldable pub tb_avail : TokenBucket → ℕ → ℕ → ℕ → ℕ
tb_avail tb now_ns rate burst =
    if rate == 0 || burst == 0 then burst else (tb_consume tb now_ns rate burst 0).0.tokens

-- The cap on SYNs from all sources together.
unfoldable pub syn_global_ok : TokenBucket → ℕ → ℕ → TokenBucket × Bool
syn_global_ok tb now_ns fallback_pps =
    if fallback_pps == 0
    then (tb, true)
    else let burst = if ltb fallback_pps 1 then 1 else fallback_pps in
      tb_consume tb now_ns fallback_pps burst 1

-- `enum caly_port_mode`
pub data PortMode : Type 0 where
  closed open_port ratelimit : PortMode

pub record PortRule : Type 0 where
  pub rate : ℕ
  pub burst : ℕ
  pub mode : PortMode
  pub flags : ℕ

-- The rule and the bucket are pointers that may be null.
unfoldable pub port_rate_ok : Option TokenBucket → Option PortRule → ℕ → Option TokenBucket × Bool
port_rate_ok tb none now_ns = (tb, true)
port_rate_ok none (some pr) now_ns = (none, true)
port_rate_ok (some tb) (some pr) now_ns = elim pr.mode [
  | ratelimit ↦
      let (tb', conforms) = tb_consume tb now_ns pr.rate pr.burst 1 in (some tb', conforms)
  | _ ↦ (some tb, true)
]
