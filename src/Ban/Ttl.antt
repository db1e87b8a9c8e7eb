-- ===== src/Ban/Ttl.antt =====
-- `ban_next_ttl`: bounds, growth, the ceiling that repeated offences reach, and the overflow.
use native.Mathlib.Nat.{div-add-mod, mod-lt, div-le_self, le-div_iff_mul-le}
use caly_anti.Base.{
  ℕ, zero, suc, ◌+◌, ◌*◌, ◌/◌, ◌^◌, ◌≤◌, ◌<◌, ◌≡◌, refl, arith, ◌==◌, Bool-cases, ==_iff, inl, inr,
  min,
}
use caly_anti.Base.Arith.{mul_mono}
use caly_anti.Base.Word.{IsU64}
use caly_anti.Ban.{ttl_floor, ttl_ceiling, ban_next_ttl}

-- The next time to live lies between the base and the ceiling, whatever the factors and even where
-- the product wraps, and it is never below the current one unless that exceeds the ceiling.
pub ban_next_ttl_bounds :
    (cur base max num den : ℕ)
    → (ttl_floor base ≤ ban_next_ttl cur base max num den)
      × (ban_next_ttl cur base max num den ≤ ttl_ceiling base max)
      × (min cur (ttl_ceiling base max) ≤ ban_next_ttl cur base max num den)
unfolding ban_next_ttl
ban_next_ttl_bounds cur base max num den = ground arith

-- A growing factor on a time to live above the square of its denominator is growth, if the
-- product fits a word.
grows : (cur num den : ℕ) → 0 < den → den < num → den * den ≤ cur → cur < cur / den * num
grows cur num den h0 hn hc =
    let wide : den ≤ cur / den = (le-div_iff_mul-le h0).1 hc in
    let times : cur / den * (den + 1) ≤ cur / den * num =
      mul_mono (cur / den) (cur / den) (den + 1) num (omega arith) (omega arith) in
    omega (arith, times, div-add-mod cur den, mod-lt cur h0)

pub ban_next_ttl_grows :
    (cur base max num den : ℕ)
    → 0 < den
    → den < num
    → den * den ≤ cur
    → ttl_floor base ≤ cur
    → cur < ttl_ceiling base max
    → IsU64 (cur / den * num)
    → cur < ban_next_ttl cur base max num den
unfolding ban_next_ttl
ban_next_ttl_grows cur base max num den h0 hn hc hb hm hw =
    ground (arith, grows cur num den h0 hn hc)

-- The time to live after `n` more offences.
unfoldable pub escalate : ℕ → ℕ → ℕ → ℕ → ℕ → ℕ → ℕ
escalate zero cur base max num den = cur
escalate (suc n) cur base max num den =
    escalate n (ban_next_ttl cur base max num den) base max num den

at_ceiling :
    (base max num den : ℕ)
    → ban_next_ttl (ttl_ceiling base max) base max num den ≡ ttl_ceiling base max
unfolding ban_next_ttl
at_ceiling base max num den = ground arith

stays :
    (n base max num den : ℕ)
    → escalate n (ttl_ceiling base max) base max num den ≡ ttl_ceiling base max
unfolding escalate
stays zero base max num den = refl
stays (suc n) base max num den = rw (at_ceiling base max num den) (stays n base max num den)

-- As many offences as the distance to the ceiling bring the time to live to the ceiling exactly, if
-- the factor is above 1, the time to live is between the base and the ceiling and at least the
-- square of the denominator, and the ceiling times the numerator fits a word.
pub escalate_reaches_max :
    (n cur base max num den : ℕ)
    → 0 < den
    → den < num
    → den * den ≤ cur
    → ttl_floor base ≤ cur
    → cur ≤ ttl_ceiling base max
    → IsU64 (ttl_ceiling base max * num)
    → ttl_ceiling base max ≤ cur + n
    → escalate n cur base max num den ≡ ttl_ceiling base max
unfolding escalate
escalate_reaches_max zero cur base max num den h0 hn hc hb hm hw hk = omega arith
escalate_reaches_max (suc n) cur base max num den h0 hn hc hb hm hw hk =
    elim (Bool-cases (cur == ttl_ceiling base max)) [
      | inl top ↦
          let e : cur ≡ ttl_ceiling base max = (==_iff cur (ttl_ceiling base max)).0 top in
          rw e (stays (suc n) base max num den)
      | inr below ↦
          let next : ℕ = ban_next_ttl cur base max num den in
          let under : cur < ttl_ceiling base max = ground arith in
          let bounds = ban_next_ttl_bounds cur base max num den in
          let fits : cur / den * num ≤ ttl_ceiling base max * num =
            mul_mono (cur / den) (ttl_ceiling base max) num num (omega (arith, div-le_self cur den))
              (omega arith) in
          let more = ban_next_ttl_grows cur base max num den h0 hn hc hb under (omega arith) in
          escalate_reaches_max n next base max num den h0 hn (omega arith) bounds.0 bounds.1 hw
            (omega arith)
    ]

-- Where the factor is above 1, the current time to live is between the base and the ceiling, and the
-- product is past a word by no more than the current time to live, the product wraps, and the next
-- time to live is the current one, below the ceiling.
pub ban_next_ttl_stalls :
    (cur base max num den : ℕ)
    → 0 < den
    → den < num
    → ttl_floor base ≤ cur
    → cur < ttl_ceiling base max
    → 2 ^ 64 ≤ cur / den * num
    → cur / den * num ≤ 2 ^ 64 + cur
    → ban_next_ttl cur base max num den ≡ cur
unfolding ban_next_ttl
ban_next_ttl_stalls cur base max num den h0 hn hb hm hlo hhi = ground arith
