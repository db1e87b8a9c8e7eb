-- ===== src/Compat.antt =====
-- bpf/compat.h: saturating counters, ages of timestamps, clamps and the codes of the parsers.
pub mod Errors
pub mod Charge
use caly_anti.Base.{
  ℕ, ◌+◌, ◌-◌, ◌^◌, ◌%◌, ◌≤◌, ◌<◌, ◌≡◌, Bool, ◌||◌, arith, ltb, ◌==◌, if◌then◌else◌, min,
}
use caly_anti.Base.Word.{IsU32, IsU64, u32_max, u64_max, add_u32, add_u64}

unfoldable pub add_sat_u64 : ℕ → ℕ → ℕ
add_sat_u64 a b = let s = add_u64 a b in if ltb s a then u64_max else s

unfoldable pub add_sat_u32 : ℕ → ℕ → ℕ
add_sat_u32 a b = let s = add_u32 a b in if ltb s a then u32_max else s

unfoldable pub age_ns : ℕ → ℕ → ℕ
age_ns now_ns then_ns = if ltb then_ns now_ns then now_ns - then_ns else 0

abbrev pub vlan_depth_bound : ℕ
vlan_depth_bound = 2

abbrev pub ip6_ext_bound : ℕ
ip6_ext_bound = 4

abbrev pub tunnel_depth_bound : ℕ
tunnel_depth_bound = 0

unfoldable pub clamp_vlan_depth : ℕ → ℕ
clamp_vlan_depth v = if v == 0 || ltb vlan_depth_bound v then vlan_depth_bound else v

unfoldable pub clamp_ip6_ext : ℕ → ℕ
clamp_ip6_ext v = if v == 0 || ltb ip6_ext_bound v then ip6_ext_bound else v

unfoldable pub clamp_tunnel_depth : ℕ → ℕ
clamp_tunnel_depth v = if ltb tunnel_depth_bound v then tunnel_depth_bound else v

-- On words of 64 bits the saturating sum is the true sum, cut at the largest word.
pub add_sat_u64-min : (a b : ℕ) → IsU64 a → IsU64 b → add_sat_u64 a b ≡ min (a + b) u64_max
unfolding add_sat_u64
add_sat_u64-min a b ha hb = ground arith

-- The same on words of 32 bits.
pub add_sat_u32-min : (a b : ℕ) → IsU32 a → IsU32 b → add_sat_u32 a b ≡ min (a + b) u32_max
unfolding add_sat_u32
add_sat_u32-min a b ha hb = ground arith

-- Counters that saturate, and the arithmetic of the words that they are.
pub ruleset saturating = (arith, add_sat_u64-min, add_sat_u32-min)
