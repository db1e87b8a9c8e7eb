-- ===== src/Scan/Window.antt =====
-- `scan_register` over a window: a source that touches few ports is not banned.
use caly_anti.Base.{
  ℕ, ◌+◌, ◌≤◌, ◌<◌, ◌≡◌, ◌≢◌, refl, sym, ◌∙◌, arith, Bool, true, false, ◌==◌, if◌then◌else◌, List,
  [], ◌∷◌, Bool-cases, ==_iff, inl, inr, All,
}
use caly_anti.Abi.Config.{FwConfig}
use caly_anti.Compat.{age_ns, add_sat_u32}
use caly_anti.Scan.{ScanState, scan_mark, scan_reset, scan_window, scan_probe, scan_register}
use caly_anti.Scan.Filter.{
  IsBitmap, IsMarked, scan_mark-IsBitmap, IsMarked-scan_mark, IsMarked-All_mono, mem, count_new,
  distinct-scan_mark_new,
}

-- The state inside a window that opened at `start`, when the ports `seen` were touched in it.
pub record InScan (st : ScanState) (start : ℕ) (seen : List ℕ) : Type 0 where
  pub started : st.window_start_ns ≡ start
  pub words : IsBitmap st.bitmap
  pub marked : All (IsMarked st) seen
  pub last_marked : (port : ℕ) → st.last_port ≡ port + 1 → IsMarked st port

scan_mark_keeps :
    (st : ScanState) (port : ℕ)
    → ((scan_mark st port).0.window_start_ns ≡ st.window_start_ns)
      × ((scan_mark st port).0.last_port ≡ st.last_port)
unfolding scan_mark
scan_mark_keeps st port = ground arith

-- A probe in the window: it stays in the window, and counts its port at most if it is new.
probe_step :
    (st : ScanState) (cfg : FwConfig) (start port : ℕ) (seen : List ℕ)
    → InScan st start seen
    → InScan (scan_probe st cfg port).0 start (port ∷ seen)
      × ((scan_probe st cfg port).0.distinct ≤ st.distinct + (if mem port seen then 0 else 1))
      × ((scan_probe st cfg port).1 ≡ true
          → cfg.scan_port_threshold < (scan_probe st cfg port).0.distinct)
unfolding scan_probe
probe_step st cfg start port seen s = elim (Bool-cases (st.last_port == port + 1)) [
  | inl again ↦ rw again (
    record {
      started = s.started;
      words = s.words;
      marked = (s.last_marked port ((==_iff st.last_port (port + 1)).0 again), s.marked);
      last_marked = s.last_marked;
    },
    omega arith,
    λ e. cc,
  )
  | inr other ↦
      let st' : ScanState = record st { last_port = port + 1 } in
      let next : ScanState = (scan_mark st' port).0 in
      let here = IsMarked-scan_mark st' port s.words in
      rw other (
        record {
          started = (scan_mark_keeps st' port).0 ∙ s.started;
          words = scan_mark-IsBitmap st' port s.words;
          marked = (here, IsMarked-All_mono st' port seen s.words s.marked);
          last_marked =
              λ p e. let q : p ≡ port = omega (arith, (scan_mark_keeps st' port).1) in rw q here;
        },
        distinct-scan_mark_new st' port seen s.words s.marked,
        λ e. ground arith,
      )
]

-- The probes of one source: when each comes, and its destination port.
unfoldable pub scan_bans : ScanState → FwConfig → List (ℕ × ℕ) → ℕ
scan_bans st cfg [] = 0
scan_bans st cfg ((now, port) ∷ rest) =
    (if (scan_register st cfg now port).1 then 1 else 0)
    + scan_bans (scan_register st cfg now port).0 cfg rest

abbrev pub ports_of : List (ℕ × ℕ) → List ℕ
ports_of [] = []
ports_of ((now, port) ∷ rest) = port ∷ ports_of rest

abbrev pub InWindow : ℕ → ℕ → List (ℕ × ℕ) → Type 0
InWindow start window [] = Unit {0}
InWindow start window ((now, port) ∷ rest) =
    (age_ns now start ≤ window) × InWindow start window rest

-- What one call does, whatever its window: the same as a probe.
abbrev StepsTo : ScanState × Bool → FwConfig → ℕ → List ℕ → ℕ → Type 0
StepsTo r cfg start seen bound =
    InScan r.0 start seen
    × (r.0.distinct ≤ bound)
    × (r.1 ≡ true → cfg.scan_port_threshold < r.0.distinct)

touched :
    (st : ScanState) (start now hits : ℕ) (seen : List ℕ)
    → InScan st start seen
    → InScan (record st { last_seen_ns = now; hits = hits }) start seen
touched st start now hits seen s = record {
  started = s.started;
  words = s.words;
  marked = s.marked;
  last_marked = s.last_marked;
}

register_from :
    (st : ScanState) (cfg : FwConfig) (now start port : ℕ) (seen : List ℕ)
    → 0 < cfg.scan_port_threshold
    → InScan (scan_window st cfg now) start seen
    → StepsTo
        (scan_register st cfg now port)
        cfg
        start
        (port ∷ seen)
        ((scan_window st cfg now).distinct + (if mem port seen then 0 else 1))
unfolding scan_register
register_from st cfg now start port seen on s =
    let st' : ScanState = scan_window st cfg now in
    let counted : ScanState = record st' { last_seen_ns = now; hits = add_sat_u32 st'.hits 1 } in
    let enabled : (cfg.scan_port_threshold == 0) ≡ false = ground arith in
    rw enabled (
      probe_step counted cfg start port seen
        (touched st' start now (add_sat_u32 st'.hits 1) seen s))

window_stays :
    (st : ScanState) (cfg : FwConfig) (now : ℕ)
    → st.window_start_ns ≢ 0
    → age_ns now st.window_start_ns ≤ cfg.scan_window_ns
    → scan_window st cfg now ≡ st
unfolding scan_window
window_stays st cfg now h0 h = ground arith

quiet_from :
    (trace : List (ℕ × ℕ)) (st : ScanState) (cfg : FwConfig) (start : ℕ) (seen : List ℕ)
    → 0 < cfg.scan_port_threshold
    → start ≢ 0
    → InScan st start seen
    → InWindow start cfg.scan_window_ns trace
    → st.distinct + count_new seen (ports_of trace) ≤ cfg.scan_port_threshold
    → scan_bans st cfg trace ≡ 0
unfolding scan_bans
quiet_from [] st cfg start seen on h0 s w h = refl
quiet_from ((now, port) ∷ rest) st cfg start seen on h0 s (inside, w) h =
    let same = window_stays st cfg now (λ e. h0 (sym s.started ∙ e)) (rw s.started inside) in
    let kept : InScan (scan_window st cfg now) start seen = rw same s in
    let step = register_from st cfg now start port seen on kept in
    let bound : (scan_register st cfg now port).0.distinct
        ≤ st.distinct + (if mem port seen then 0 else 1) =
      rw same at step.1 in
    let others =
      quiet_from rest (scan_register st cfg now port).0 cfg start (port ∷ seen) on h0 step.0 w
        (omega arith) in
    ground (arith, step.2, others)

reset_opens :
    (st : ScanState) (cfg : FwConfig) (now : ℕ)
    → st.window_start_ns ≡ 0
    → scan_window st cfg now ≡ scan_reset st now
unfolding scan_window
reset_opens st cfg now h = ground arith

reset-InScan : (st : ScanState) (now : ℕ) → InScan (scan_reset st now) now []
unfolding scan_reset
reset-InScan st now = record {
  started = refl;
  words = refl;
  marked = tt;
  last_marked = λ p e. absurd (omega arith);
}

reset_distinct : (st : ScanState) (now : ℕ) → (scan_reset st now).distinct ≡ 0
unfolding scan_reset
reset_distinct st now = refl

-- A source whose window has not started, whose probes all fall in the window that its first one
-- opens, at a time that is not 0, and that touches no more distinct ports than the threshold, is
-- never banned as a scanner.
pub scan_register_quiet :
    (st : ScanState) (cfg : FwConfig) (now_ns port : ℕ) (rest : List (ℕ × ℕ))
    → st.window_start_ns ≡ 0
    → now_ns ≢ 0
    → InWindow now_ns cfg.scan_window_ns rest
    → count_new [] (port ∷ ports_of rest) ≤ cfg.scan_port_threshold
    → scan_bans st cfg ((now_ns, port) ∷ rest) ≡ 0
unfolding scan_bans
scan_register_quiet st cfg now port rest new h0 w h =
    let opened : scan_window st cfg now ≡ scan_reset st now = reset_opens st cfg now new in
    let kept : InScan (scan_window st cfg now) now [] = rw opened (reset-InScan st now) in
    let step = register_from st cfg now now port [] (omega arith) kept in
    let bound : (scan_register st cfg now port).0.distinct ≤ (scan_reset st now).distinct + 1 =
      rw opened at step.1 in
    let none : (scan_reset st now).distinct ≡ 0 = reset_distinct st now in
    let others =
      quiet_from rest (scan_register st cfg now port).0 cfg now (port ∷ []) (omega arith) h0 step.0
        w (omega arith) in
    ground (arith, step.2, others)
