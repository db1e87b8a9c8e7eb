-- ===== src/Base/Arith.antt =====
-- Facts on products and quotients that linear arithmetic does not reach.
use caly_anti.Base.{ℕ, ◌*◌, ◌≤◌, arith}

pub mul_mono : (a b c d : ℕ) → a ≤ b → c ≤ d → a * c ≤ b * d
mul_mono a b c d p q = grind arith
