-- ===== src/Source/Flags.antt =====
-- `tcp_flags_illegal` on all 256 values of the flag byte.

use caly_anti.Base.{
  ℕ, ◌+◌, ◌<◌, ◌≡◌, refl, arith, Bool, true, false, ◌&&◌, ◌||◌, not, leb, ◌==◌, if◌then◌else◌, ◌↔◌,
}
use caly_anti.Base.Bits.{test_bit, passes_below, passes_one}
use caly_anti.Abi.Reason.{reason_code}
use caly_anti.Source.{tcp_flags_illegal}

abbrev one_if : Bool → ℕ
one_if b = if b then 1 else 0

-- What the classifier is to let through, flag by flag: SYN, FIN and RST exclude one another, a FIN
-- comes with PSH, ACK or URG, but not with PSH and URG both, and some flag of the six is set. ECE and
-- CWR do not count.
abbrev pub is_legal : ℕ → Bool
is_legal flags =
    let fin = test_bit flags 0 in
    let syn = test_bit flags 1 in
    let rst = test_bit flags 2 in
    let psh = test_bit flags 3 in
    let ack = test_bit flags 4 in
    let urg = test_bit flags 5 in
    leb (one_if fin + one_if syn + one_if rst) 1
    && (not fin || psh || ack || urg)
    && not (fin && psh && urg)
    && (fin || syn || rst || psh || ack || urg)

same_answer : ℕ → Bool
same_answer flags =
    let acceptable = reason_code (tcp_flags_illegal flags) == 0 in
    if acceptable then is_legal flags else not (is_legal flags)

all_flags : passes_below same_answer 256 ≡ true
unfolding passes_below same_answer tcp_flags_illegal reason_code test_bit
all_flags = refl

agree :
    (code : ℕ) (legal : Bool)
    → (if code == 0 then legal else not legal) ≡ true
    → (code ≡ 0) ↔ (legal ≡ true)
agree code true h = ground arith
agree code false h = ground arith

-- Of the 256 flag bytes the classifier accepts exactly those in which at most one of SYN, FIN and RST
-- is set, a FIN comes with PSH, ACK or URG, but not with PSH and URG both, and some flag of the six is
-- set. So a FIN without ACK passes where PSH or URG (not both) is set, and ECE and CWR change
-- nothing.
pub tcp_flags_illegal_iff :
    (flags : ℕ)
    → flags < 256
    → (reason_code (tcp_flags_illegal flags) ≡ 0) ↔ (is_legal flags ≡ true)
unfolding same_answer
tcp_flags_illegal_iff flags h =
    agree (reason_code (tcp_flags_illegal flags)) (is_legal flags)
      (passes_one same_answer 256 all_flags flags h)
