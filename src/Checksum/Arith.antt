-- ===== src/Checksum/Arith.antt =====
-- One's complement sums are sums modulo 0xFFFF, with two forms of zero of which a sum of words that
-- are not all 0 never has the first.
use caly_anti.Base.{ℕ, ◌+◌, ◌-◌, ◌%◌, ◌^◌, ◌≡◌, arith, ltb, ◌==◌, if◌then◌else◌}
use caly_anti.Base.Word.{IsU32, u32_max}
use caly_anti.Checksum.{csum_add, csum_fold_partial, csum_fold, not_u16}

-- The true sum behind a folded accumulator, less multiples of 0xFFFF.
pub csum_add_cases :
    (a b : ℕ)
    → IsU32 a
    → IsU32 b
    → csum_add a b ≡ (if ltb (a + b) (2 ^ 32) then a + b else a + b - u32_max)
unfolding csum_add
csum_add_cases a b ha hb = ground arith

pub csum_add_word : (a b : ℕ) → IsU32 a → IsU32 b → IsU32 (csum_add a b)
csum_add_word a b ha hb = ground (arith, csum_add_cases a b ha hb)

-- Adding words of 32 bits is addition modulo 0xFFFF, and gives 0 only from two zeros.
pub csum_add_mod :
    (a b : ℕ)
    → IsU32 a
    → IsU32 b
    → (csum_add a b % 0xFFFF ≡ (a + b) % 0xFFFF) × (csum_add a b ≡ 0 → a + b ≡ 0)
csum_add_mod a b ha hb = ground (arith, csum_add_cases a b ha hb)

-- The representative of a sum in 1 .. 0xFFFF; 0 stands for the sum 0 alone.
abbrev pub representative : ℕ → ℕ
representative n = if n == 0 then 0 else (n - 1) % 0xFFFF + 1

-- Folding a 32-bit accumulator twice gives 0 for 0, and otherwise the number in 1 .. 0xFFFF that it
-- is congruent to modulo 0xFFFF: no third fold is needed.
pub csum_fold_partial_lem : (csum : ℕ) → IsU32 csum → csum_fold_partial csum ≡ representative csum
unfolding csum_fold_partial
csum_fold_partial_lem csum h = ground arith

-- The fold for the wire is the complement of it.
pub csum_fold_lem : (csum : ℕ) → IsU32 csum → csum_fold csum ≡ not_u16 (representative csum)
unfolding csum_fold
csum_fold_lem csum h = ground arith
