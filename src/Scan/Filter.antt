-- ===== src/Scan/Filter.antt =====
-- The Bloom filter: a port that was marked stays marked, so that the estimate of distinct ports is
-- never above their number.
use caly_anti.Base.{
  ℕ, ◌+◌, ◌/◌, ◌%◌, ◌≤◌, ◌<◌, ◌≡◌, ◌≢◌, refl, ◌∙◌, arith, Bool, true, false, ◌||◌, ◌==◌,
  if◌then◌else◌, List, [], ◌∷◌, get_or, length, length-set, get_or-set_self, get_or-set_ne,
  set-get_or, Bool-cases, ==_iff, inl, inr, All,
}
use caly_anti.Base.Bits.{set_bit, test_bit-set_bit, set_bit_of_test, test_bit-set_bit_mono}
use caly_anti.Scan.{
  scan_bitmap_words, ScanState, hash1, hash2, has_hash, add_hash, scan_mark, scan_reset,
}

-- The bitmap has its eight words.
abbrev pub IsBitmap : List ℕ → Type 0
IsBitmap bitmap = length bitmap ≡ scan_bitmap_words

word_bound : (h : ℕ) → h < 512 → h / 64 < 8
word_bound h lt = omega arith

pub hash1_lt : (port : ℕ) → hash1 port < 512
unfolding hash1
hash1_lt port = omega arith

pub hash2_lt : (port : ℕ) → hash2 port < 512
unfolding hash2
hash2_lt port = omega arith

pub add_hash-IsBitmap : (bitmap : List ℕ) (h : ℕ) → IsBitmap bitmap → IsBitmap (add_hash bitmap h)
unfolding add_hash
add_hash-IsBitmap bitmap h b = length-set bitmap (h / 64) _ ∙ b

pub has_hash-add_hash :
    (bitmap : List ℕ) (h : ℕ) → IsBitmap bitmap → h < 512 → has_hash (add_hash bitmap h) h ≡ true
unfolding has_hash add_hash
has_hash-add_hash bitmap h b lt =
    let word : h / 64 < length bitmap = omega arith in
    rw (get_or-set_self bitmap (h / 64) (set_bit (get_or bitmap (h / 64) 0) (h % 64)) 0 word)
      (test_bit-set_bit (get_or bitmap (h / 64) 0) (h % 64))

pub has_hash-add_hash_mono :
    (bitmap : List ℕ) (h j : ℕ)
    → IsBitmap bitmap
    → h < 512
    → has_hash bitmap j ≡ true
    → has_hash (add_hash bitmap h) j ≡ true
unfolding has_hash add_hash
has_hash-add_hash_mono bitmap h j b lt e = elim (Bool-cases (h / 64 == j / 64)) [
  | inl same ↦
      let q : h / 64 ≡ j / 64 = (==_iff (h / 64) (j / 64)).0 same in
      let word : j / 64 < length bitmap = omega arith in
      rw q (
        rw (get_or-set_self bitmap (j / 64) (set_bit (get_or bitmap (j / 64) 0) (h % 64)) 0 word)
          (test_bit-set_bit_mono (get_or bitmap (j / 64) 0) (h % 64) (j % 64) e))
  | inr other ↦
      let q : h / 64 ≢ j / 64 = ground arith in
      rw (get_or-set_ne bitmap (h / 64) (j / 64) (set_bit (get_or bitmap (h / 64) 0) (h % 64)) 0 q)
        e
]

pub add_hash_of_has :
    (bitmap : List ℕ) (h : ℕ) → has_hash bitmap h ≡ true → add_hash bitmap h ≡ bitmap
unfolding has_hash add_hash
add_hash_of_has bitmap h e =
    rw (set_bit_of_test (get_or bitmap (h / 64) 0) (h % 64) e) (set-get_or bitmap (h / 64) 0)

-- Both bits of a port are set.
abbrev pub IsMarked : ScanState → ℕ → Type 0
IsMarked st port =
    (has_hash st.bitmap (hash1 port) ≡ true) × (has_hash st.bitmap (hash2 port) ≡ true)

module _ (st : ScanState) (port : ℕ) (b : IsBitmap st.bitmap) where
  bitmap_after :
      (scan_mark st port).0.bitmap ≡ add_hash (add_hash st.bitmap (hash1 port)) (hash2 port)
  unfolding scan_mark
  bitmap_after = ground (arith, hash1_lt port, hash2_lt port)

  pub scan_mark-IsBitmap : IsBitmap (scan_mark st port).0.bitmap
  scan_mark-IsBitmap = rw bitmap_after (
      add_hash-IsBitmap (add_hash st.bitmap (hash1 port)) (hash2 port)
        (add_hash-IsBitmap st.bitmap (hash1 port) b))

  pub IsMarked-scan_mark : IsMarked (scan_mark st port).0 port
  IsMarked-scan_mark =
      let inner : IsBitmap (add_hash st.bitmap (hash1 port)) =
        add_hash-IsBitmap st.bitmap (hash1 port) b in
      rw bitmap_after (
        has_hash-add_hash_mono (add_hash st.bitmap (hash1 port)) (hash2 port) (hash1 port) inner
            (hash2_lt port) (has_hash-add_hash st.bitmap (hash1 port) b (hash1_lt port)),
        has_hash-add_hash (add_hash st.bitmap (hash1 port)) (hash2 port) inner (hash2_lt port),
      )

  has_hash-scan_mark :
      (h : ℕ) → has_hash st.bitmap h ≡ true → has_hash (scan_mark st port).0.bitmap h ≡ true
  has_hash-scan_mark h e = rw bitmap_after (
      has_hash-add_hash_mono (add_hash st.bitmap (hash1 port)) (hash2 port) h
        (add_hash-IsBitmap st.bitmap (hash1 port) b) (hash2_lt port)
        (has_hash-add_hash_mono st.bitmap (hash1 port) h b (hash1_lt port) e))

  -- Marking another port forgets none.
  pub IsMarked-scan_mark_mono : (seen : ℕ) → IsMarked st seen → IsMarked (scan_mark st port).0 seen
  IsMarked-scan_mark_mono seen m =
      (has_hash-scan_mark (hash1 seen) m.0, has_hash-scan_mark (hash2 seen) m.1)

  pub distinct-scan_mark : (scan_mark st port).0.distinct ≤ st.distinct + 1
  unfolding scan_mark
  distinct-scan_mark = ground (arith, hash1_lt port, hash2_lt port)

-- To mark a port whose two bits are set changes nothing, and the port is not reported as fresh.
pub scan_mark_of_marked :
    (st : ScanState) (port : ℕ) → IsMarked st port → scan_mark st port ≡ (st, false)
unfolding scan_mark
scan_mark_of_marked st port m = ground (
  arith,
  hash1_lt port,
  hash2_lt port,
  add_hash_of_has st.bitmap (hash1 port) m.0,
  add_hash_of_has st.bitmap (hash2 port) m.1,
)

abbrev pub mem : ℕ → List ℕ → Bool
mem p [] = false
mem p (q ∷ qs) = p == q || mem p qs

-- How many of `ports` are neither in `seen` nor repeated.
abbrev pub count_new : List ℕ → List ℕ → ℕ
count_new seen [] = 0
count_new seen (p ∷ ps) = (if mem p seen then 0 else 1) + count_new (p ∷ seen) ps

pub IsMarked-of_mem :
    (st : ScanState) (port : ℕ) (seen : List ℕ)
    → All (IsMarked st) seen
    → mem port seen ≡ true
    → IsMarked st port
IsMarked-of_mem st port [] all h = absurd (ground arith)
IsMarked-of_mem st port (q ∷ qs) (m, all) h = elim (Bool-cases (port == q)) [
  | inl same ↦ rw ((==_iff port q).0 same) m
  | inr other ↦ IsMarked-of_mem st port qs all (ground arith)
]

pub IsMarked-All_mono :
    (st : ScanState) (port : ℕ) (seen : List ℕ)
    → IsBitmap st.bitmap
    → All (IsMarked st) seen
    → All (IsMarked (scan_mark st port).0) seen
IsMarked-All_mono st port [] b all = tt
IsMarked-All_mono st port (q ∷ qs) b (m, all) =
    (IsMarked-scan_mark_mono st port b q m, IsMarked-All_mono st port qs b all)

unfoldable pub mark_all : ScanState → List ℕ → ScanState
mark_all st [] = st
mark_all st (p ∷ ps) = mark_all (scan_mark st p).0 ps

-- One mark counts a port at most if it is new.
pub distinct-scan_mark_new :
    (st : ScanState) (port : ℕ) (seen : List ℕ)
    → IsBitmap st.bitmap
    → All (IsMarked st) seen
    → (scan_mark st port).0.distinct ≤ st.distinct + (if mem port seen then 0 else 1)
distinct-scan_mark_new st port seen b all = elim (Bool-cases (mem port seen)) [
  | inl old ↦
      let same = scan_mark_of_marked st port (IsMarked-of_mem st port seen all old) in
      rw (same, old) (omega arith)
  | inr new ↦ rw new (distinct-scan_mark st port b)
]

distinct-mark_all_from :
    (ports : List ℕ) (st : ScanState) (seen : List ℕ)
    → IsBitmap st.bitmap
    → All (IsMarked st) seen
    → (mark_all st ports).distinct ≤ st.distinct + count_new seen ports
unfolding mark_all
distinct-mark_all_from [] st seen b all = omega arith
distinct-mark_all_from (p ∷ ps) st seen b all =
    let next : ScanState = (scan_mark st p).0 in
    omega (
      arith,
      distinct-scan_mark_new st p seen b all,
      distinct-mark_all_from ps next (p ∷ seen) (scan_mark-IsBitmap st p b)
          (IsMarked-scan_mark st p b, IsMarked-All_mono st p seen b all),
    )

-- After a reset the estimate is never above the number of distinct ports that were marked: the
-- filter errs only towards too few.
pub distinct-mark_all :
    (st : ScanState) (now_ns : ℕ) (ports : List ℕ)
    → (mark_all (scan_reset st now_ns) ports).distinct ≤ count_new [] ports
unfolding scan_reset
distinct-mark_all st now ports =
    omega (arith, distinct-mark_all_from ports (scan_reset st now) [] refl tt)
