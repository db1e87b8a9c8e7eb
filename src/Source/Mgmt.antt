-- ===== src/Source/Mgmt.antt =====
-- The loop over the management ports is membership in the entries that the count makes valid.
use caly_anti.Base.{
  ℕ, zero, suc, ◌+◌, ◌-◌, ◌<◌, ◌≤◌, ◌≡◌, refl, arith, Bool, false, ◌||◌, ltb, leb, ◌==◌,
  if◌then◌else◌, min, List, [], ◌∷◌, get_or, take, drop, length, Bool-cases, inl, inr, sym, ◌∙◌,
}
use caly_anti.Abi.Config.{FwConfig}
use caly_anti.Source.{mgmt_ports_max, mgmt_loop, is_mgmt, is_mgmt_tcp, is_mgmt_udp}

abbrev pub listed : ℕ → List ℕ → Bool
listed port [] = false
listed port (p ∷ ps) = p == port || listed port ps

drop-cons :
    (i : ℕ) (ports : List ℕ)
    → i < length ports
    → drop i ports ≡ get_or ports i 0 ∷ drop (suc i) ports
drop-cons i [] h = elim h [ ]
drop-cons zero (p ∷ ps) h = refl
drop-cons (suc i) (p ∷ ps) h = drop-cons i ps (omega arith)

past_end : (i n port : ℕ) (rest : List ℕ) → n ≤ i → listed port (take (n - i) rest) ≡ false
past_end i n port rest h = let none : n - i ≡ 0 = omega arith in rw none

inside :
    (i n port p : ℕ) (rest : List ℕ)
    → i < n
    → listed port (take (n - i) (p ∷ rest)) ≡ (p == port || listed port (take (n - (i + 1)) rest))
inside i n port p rest h = let more : n - i ≡ suc (n - (i + 1)) = omega arith in rw more

drop-all : (i : ℕ) (ports : List ℕ) → length ports ≤ i → drop i ports ≡ []
drop-all zero [] h = refl
drop-all zero (p ∷ ps) h = elim h [ ]
drop-all (suc i) [] h = refl
drop-all (suc i) (p ∷ ps) h = drop-all i ps (omega arith)

no_port : (port n : ℕ) → false ≡ listed port (take n [])
no_port port zero = refl
no_port port (suc n) = refl

-- The loop at index `i`, with the rounds that the array leaves it.
loop_listed :
    (rounds i n port : ℕ) (ports : List ℕ)
    → i + rounds ≡ length ports
    → mgmt_loop rounds i n ports port ≡ listed port (take (n - i) (drop i ports))
unfolding mgmt_loop
loop_listed zero i n port ports h =
    let none = drop-all i ports (omega arith) in rw none (no_port port (n - i))
loop_listed (suc rounds) i n port ports h =
    let next = loop_listed rounds (i + 1) n port ports (omega arith) in
    let succ : i + 1 ≡ suc i = omega arith in
    rw (drop-cons i ports (omega arith)) (elim (Bool-cases (leb n i)) [
      | inl over ↦
          rw over (sym (past_end i n port (get_or ports i 0 ∷ drop (suc i) ports) (ground arith)))
      | inr under ↦
          rw
            (
              under,
              inside i n port (get_or ports i 0) (drop (suc i) ports) (ground arith),
              next,
              succ,
            )
            (ground arith)
    ])

is_mgmt_entries :
    (count port : ℕ) (ports : List ℕ)
    → length ports ≡ mgmt_ports_max
    → is_mgmt count ports port ≡ listed port (take (min count mgmt_ports_max) ports)
unfolding is_mgmt
is_mgmt_entries count port ports h =
    let clamp : (if ltb mgmt_ports_max count then mgmt_ports_max else count)
        ≡ min count mgmt_ports_max =
      ground arith in
    let whole : min count mgmt_ports_max - 0 ≡ min count mgmt_ports_max = omega arith in
    rw clamp
      (loop_listed mgmt_ports_max 0 (min count mgmt_ports_max) port ports (omega arith) ∙ rw whole)

-- A port is a management port exactly when it is among the entries that the count makes valid, of
-- which there are sixteen at most; this holds of either protocol.
pub is_mgmt-listed :
    (cfg : FwConfig) (port : ℕ)
    → length cfg.mgmt_tcp_ports ≡ mgmt_ports_max
    → length cfg.mgmt_udp_ports ≡ mgmt_ports_max
    → (is_mgmt_tcp cfg port
        ≡ listed port (take (min cfg.mgmt_tcp_count mgmt_ports_max) cfg.mgmt_tcp_ports))
      × (is_mgmt_udp cfg port
          ≡ listed port (take (min cfg.mgmt_udp_count mgmt_ports_max) cfg.mgmt_udp_ports))
unfolding is_mgmt_tcp is_mgmt_udp
is_mgmt-listed cfg port ht hu = (
  is_mgmt_entries cfg.mgmt_tcp_count port cfg.mgmt_tcp_ports ht,
  is_mgmt_entries cfg.mgmt_udp_count port cfg.mgmt_udp_ports hu,
)
