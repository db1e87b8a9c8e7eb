-- ===== src/Tests/Scans.antt =====
-- The detector of port scans at concrete inputs.
use caly_anti.Base.{ℕ, ◌≡◌, refl, arith, List, [], ◌∷◌}
use caly_anti.Base.Word.{u64_max}
use caly_anti.Scan.{ScanState}
use caly_anti.Scan.Window.{scan_bans, scan_register_quiet}
use caly_anti.Compat.{age_ns}
use caly_anti.Tests.Data.{config}

abbrev fresh : ScanState
fresh = record {
  window_start_ns = 0;
  last_seen_ns = 0;
  bitmap = 0 ∷ 0 ∷ 0 ∷ 0 ∷ 0 ∷ 0 ∷ 0 ∷ 0 ∷ [];
  distinct = 0;
  hits = 0;
  last_port = 0;
}

abbrev probes : List (ℕ × ℕ)
probes = (5_100, 443) ∷ (5_200, 80) ∷ (5_300, 22) ∷ []

scan_register_quiet_example : scan_bans fresh config ((5_000, 80) ∷ probes) ≡ 0
unfolding age_ns
scan_register_quiet_example =
    scan_register_quiet fresh config 5_000 80 probes refl (omega arith)
      (omega arith, (omega arith, (omega arith, tt))) (omega arith)

-- Every bit is set.
abbrev full : ScanState
full = let w = u64_max in record fresh { bitmap = w ∷ w ∷ w ∷ w ∷ w ∷ w ∷ w ∷ w ∷ [] }
