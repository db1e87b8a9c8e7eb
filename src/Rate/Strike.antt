-- ===== src/Rate/Strike.antt =====
-- `strike_register`: strikes in one window, and the strike that bans.
use caly_anti.Base.{
  ℕ, suc, ◌+◌, ◌≤◌, ◌<◌, ◌≡◌, ap, ◌∙◌, Bool, true, false, ◌==◌, if◌then◌else◌, arith, List, [], ◌∷◌,
  length, ◌⊎◌, inl, inr, Bool-cases,
}
use caly_anti.Base.Word.{IsU32}
use caly_anti.Base.Bits.{bit_laws, test_bit}
use caly_anti.Abi.Bits.{rs_striking}
use caly_anti.Abi.Bucket.{RateState}
use caly_anti.Abi.Config.{FwConfig}
use caly_anti.Abi.Reason.{StatReason}
use caly_anti.Compat.{saturating, age_ns}
use caly_anti.Rate.{strike_register}

-- No window is open, or the source has fewer strikes than the limit.
abbrev pub IsStriking : FwConfig → RateState → Type 0
IsStriking cfg rs = (test_bit rs.flags rs_striking ≡ false) ⊎ (rs.strikes < cfg.strike_limit)

-- The configuration counts strikes: neither the window nor the limit is 0.
pub record Counts (cfg : FwConfig) : Type 0 where
  pub window_pos : 0 < cfg.strike_window_ns
  pub limit_pos : 0 < cfg.strike_limit
  pub limit_word : IsU32 cfg.strike_limit

-- Where window and limit are not 0, it is kept by a strike at any time that a source in an open
-- window has fewer strikes than the limit: the strike that reaches the limit closes the window.
pub strike_register-IsStriking :
    (rs : RateState) (cfg : FwConfig) (now_ns : ℕ) (reason : StatReason)
    → Counts cfg
    → IsStriking cfg rs
    → IsStriking cfg (strike_register rs cfg now_ns reason).0
unfolding strike_register
strike_register-IsStriking rs cfg now reason c h = grind bit_laws

-- The times at which a source trips a bucket.
unfoldable pub strike_run : RateState → FwConfig → StatReason → List ℕ → RateState
strike_run rs cfg reason [] = rs
strike_run rs cfg reason (now ∷ rest) =
    strike_run (strike_register rs cfg now reason).0 cfg reason rest

unfoldable pub bans : RateState → FwConfig → StatReason → List ℕ → ℕ
bans rs cfg reason [] = 0
bans rs cfg reason (now ∷ rest) =
    (if (strike_register rs cfg now reason).1 then 1 else 0)
    + bans (strike_register rs cfg now reason).0 cfg reason rest

-- Times in the window that opened at `start`.
abbrev pub InWindow : ℕ → ℕ → List ℕ → Type 0
InWindow start window [] = Unit {0}
InWindow start window (now ∷ rest) = (age_ns now start ≤ window) × InWindow start window rest

-- The state after `n` strikes in a window that is still open.
pub record Striking (rs : RateState) (start n : ℕ) : Type 0 where
  pub open_flag : test_bit rs.flags rs_striking ≡ true
  pub start_is : rs.window_start_ns ≡ start
  pub count_is : rs.strikes ≡ n

next_strike :
    (rs : RateState) (cfg : FwConfig) (now start n : ℕ) (reason : StatReason)
    → Counts cfg
    → Striking rs start n
    → age_ns now start ≤ cfg.strike_window_ns
    → n + 1 < cfg.strike_limit
    → ((strike_register rs cfg now reason).1 ≡ false)
      × Striking (strike_register rs cfg now reason).0 start (n + 1)
unfolding strike_register
next_strike rs cfg now start n reason c s h hl = grind saturating

last_strike :
    (rs : RateState) (cfg : FwConfig) (now start n : ℕ) (reason : StatReason)
    → Counts cfg
    → Striking rs start n
    → age_ns now start ≤ cfg.strike_window_ns
    → n + 1 ≡ cfg.strike_limit
    → ((strike_register rs cfg now reason).1 ≡ true)
      × (test_bit (strike_register rs cfg now reason).0.flags rs_striking ≡ false)
unfolding strike_register
last_strike rs cfg now start n reason c s h hl = grind (bit_laws, saturating)

-- A strike outside any open window: it opens one, and bans only where one strike is enough.
pub first_strike :
    (rs : RateState) (cfg : FwConfig) (now : ℕ) (reason : StatReason)
    → Counts cfg
    → 1 < cfg.strike_limit
    → (test_bit rs.flags rs_striking ≡ false)
      ⊎ (cfg.strike_window_ns < age_ns now rs.window_start_ns)
    → ((strike_register rs cfg now reason).1 ≡ false)
      × Striking (strike_register rs cfg now reason).0 now 1
unfolding strike_register
first_strike rs cfg now reason c hl stale = grind (bit_laws, saturating)

only_strike :
    (rs : RateState) (cfg : FwConfig) (now : ℕ) (reason : StatReason)
    → Counts cfg
    → cfg.strike_limit ≡ 1
    → test_bit rs.flags rs_striking ≡ false
    → (strike_register rs cfg now reason).1 ≡ true
unfolding strike_register
only_strike rs cfg now reason c hl closed = grind saturating

-- The strike that reaches the limit is the last that the window can hold.
closing :
    (rest : List ℕ) (r : RateState × Bool) (cfg : FwConfig) (reason : StatReason) (n : ℕ)
    → n + 1 ≡ cfg.strike_limit
    → n + suc (length rest) ≤ cfg.strike_limit
    → r.1 ≡ true
    → (if r.1 then 1 else 0) + bans r.0 cfg reason rest
      ≡ (if n + suc (length rest) == cfg.strike_limit then 1 else 0)
unfolding bans
closing [] r cfg reason n e h b = ground arith
closing (now ∷ rest) r cfg reason n e h b = absurd (omega arith)

run_open :
    (rest : List ℕ) (rs : RateState) (cfg : FwConfig) (start n : ℕ) (reason : StatReason)
    → Counts cfg
    → Striking rs start n
    → n < cfg.strike_limit
    → InWindow start cfg.strike_window_ns rest
    → n + length rest ≤ cfg.strike_limit
    → bans rs cfg reason rest ≡ (if n + length rest == cfg.strike_limit then 1 else 0)
unfolding bans
run_open [] rs cfg start n reason c s below w h = ground arith
run_open (now ∷ rest) rs cfg start n reason c s below (inside, w) h =
    elim (Bool-cases (n + 1 == cfg.strike_limit)) [
      | inl full ↦
          closing rest (strike_register rs cfg now reason) cfg reason n (ground arith) h
            (last_strike rs cfg now start n reason c s inside (ground arith)).0
      | inr room ↦
          let step = next_strike rs cfg now start n reason c s inside (ground arith) in
          let next : RateState = (strike_register rs cfg now reason).0 in
          let others =
            run_open rest next cfg start (n + 1) reason c step.1 (ground arith) w (omega arith) in
          ground (arith, step.0, others)
    ]

-- Where window and limit are not 0 and no window is open, the strikes of one window, no more than the
-- limit, ban exactly when they are as many as the limit, and then once.
pub bans-InWindow :
    (rs : RateState) (cfg : FwConfig) (reason : StatReason) (now : ℕ) (rest : List ℕ)
    → Counts cfg
    → test_bit rs.flags rs_striking ≡ false
    → InWindow now cfg.strike_window_ns rest
    → 1 + length rest ≤ cfg.strike_limit
    → bans rs cfg reason (now ∷ rest) ≡ (if 1 + length rest == cfg.strike_limit then 1 else 0)
unfolding bans
bans-InWindow rs cfg reason now rest c closed w h = elim (Bool-cases (1 == cfg.strike_limit)) [
  | inl one ↦
      closing rest (strike_register rs cfg now reason) cfg reason 0 (ground arith) (omega arith)
        (only_strike rs cfg now reason c (ground arith) closed)
      ∙ ap (λ (k : ℕ). if k == cfg.strike_limit then 1 else 0) (omega arith)
  | inr more ↦
      let step = first_strike rs cfg now reason c (ground arith) (inl closed) in
      let next : RateState = (strike_register rs cfg now reason).0 in
      let others = run_open rest next cfg now 1 reason c step.1 (ground arith) w h in
      ground (arith, step.0, others)
]
