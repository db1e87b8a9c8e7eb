-- ===== src/Scan.antt =====
-- bpf/common.h and bpf/ratelimit.h: the detector of port scans, a Bloom filter of 512 bits over the
-- ports that a source touches in a window.
pub mod Filter
pub mod Window
use Prim.Native.Nat.{bit_xor}
use caly_anti.Base.{
  ℕ, ◌+◌, ◌*◌, ◌/◌, ◌%◌, ◌^◌, Bool, true, false, ◌&&◌, ◌||◌, not, ltb, leb, ◌==◌, if◌then◌else◌,
  List, [], ◌∷◌, get_or, set,
}
use caly_anti.Base.Word.{mul_u32, u32_max}
use caly_anti.Base.Bits.{test_bit, set_bit}
use caly_anti.Abi.Config.{FwConfig}
use caly_anti.Compat.{add_sat_u32, age_ns}

abbrev pub scan_bitmap_words : ℕ
scan_bitmap_words = 8

abbrev pub scan_bitmap_bits : ℕ
scan_bitmap_bits = scan_bitmap_words * 64

pub record ScanState : Type 0 where
  pub window_start_ns : ℕ
  pub last_seen_ns : ℕ
  pub bitmap : List ℕ
  pub distinct : ℕ
  pub hits : ℕ
  pub last_port : ℕ

-- `x ^= x >> k`
abbrev pub xor_shift : ℕ → ℕ → ℕ
xor_shift x k = bit_xor x (x / 2 ^ k)

unfoldable pub mix32 : ℕ → ℕ → ℕ
mix32 x seed =
    let x1 = mul_u32 (bit_xor x seed) 0x2545_F491 in
    let x2 = mul_u32 (xor_shift x1 15) 0x85EB_CA6B in
    let x3 = mul_u32 (xor_shift x2 13) 0xC2B2_AE35 in xor_shift x3 16

-- The two bits of a port; `& CALY_SCAN_BITMAP_MASK` keeps the low nine bits.
unfoldable pub hash1 : ℕ → ℕ
unfolding mix32
hash1 port = mix32 port 0x9E37_79B9 % scan_bitmap_bits

unfoldable pub hash2 : ℕ → ℕ
unfolding mix32
hash2 port = mix32 port 0x7F4A_7C15 % scan_bitmap_bits

-- `bitmap[h >> 6] & (1 << (h & 63))`, and the same with `|=`
unfoldable pub has_hash : List ℕ → ℕ → Bool
has_hash bitmap h = test_bit (get_or bitmap (h / 64) 0) (h % 64)

unfoldable pub add_hash : List ℕ → ℕ → List ℕ
add_hash bitmap h = set bitmap (h / 64) (set_bit (get_or bitmap (h / 64) 0) (h % 64))

unfoldable pub scan_mark : ScanState → ℕ → ScanState × Bool
scan_mark st port =
    let h1 = hash1 port in
    let h2 = hash2 port in
    let fresh = not (has_hash st.bitmap h1 && has_hash st.bitmap h2) in
    if leb scan_bitmap_words (h1 / 64) || leb scan_bitmap_words (h2 / 64) then (st, false) else (
      record st {
        bitmap = add_hash (add_hash st.bitmap h1) h2;
        distinct = if fresh && ltb st.distinct u32_max then st.distinct + 1 else st.distinct;
      },
      fresh,
    )

unfoldable pub scan_reset : ScanState → ℕ → ScanState
scan_reset st now_ns = record st {
  window_start_ns = now_ns;
  distinct = 0;
  hits = 0;
  last_port = 0;
  bitmap = 0 ∷ 0 ∷ 0 ∷ 0 ∷ 0 ∷ 0 ∷ 0 ∷ 0 ∷ [];
}

-- A fresh entry, or one whose window has gone by, starts again.
unfoldable pub scan_window : ScanState → FwConfig → ℕ → ScanState
unfolding scan_reset
scan_window st cfg now_ns =
    if st.window_start_ns == 0
      || not (cfg.scan_window_ns == 0) && ltb cfg.scan_window_ns (age_ns now_ns st.window_start_ns)
    then scan_reset st now_ns
    else st

-- A probe of the port that the last one touched is not marked again.
unfoldable pub scan_probe : ScanState → FwConfig → ℕ → ScanState × Bool
scan_probe st cfg dport =
    if st.last_port == dport + 1
    then (st, false)
    else let marked = (scan_mark (record st { last_port = dport + 1 }) dport).0 in
      (marked, ltb cfg.scan_port_threshold marked.distinct)

unfoldable pub scan_register : ScanState → FwConfig → ℕ → ℕ → ScanState × Bool
unfolding scan_window scan_probe
scan_register st cfg now_ns dport =
    if cfg.scan_port_threshold == 0
    then (st, false)
    else let st' = scan_window st cfg now_ns in
      scan_probe (record st' { last_seen_ns = now_ns; hits = add_sat_u32 st'.hits 1 }) cfg dport
