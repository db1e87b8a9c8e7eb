-- ===== src/Checksum/Verify.antt =====
-- `ipv4_csum` against the check of the receiver: the sum of the whole header, its checksum included.
use caly_anti.Base.{
  ℕ, zero, suc, ◌+◌, ◌-◌, ◌*◌, ◌/◌, ◌%◌, ◌<◌, ◌≤◌, ◌≡◌, refl, arith, true, false, ◌||◌, not, ltb,
  ◌==◌, List, All, sym, get_or, length, Bool-cases, inl, inr, ◌∙◌, ap,
}
use caly_anti.Base.Word.{IsU32, IsByte}
use caly_anti.Compat.Errors.{Result, ok, err}
use caly_anti.Checksum.{
  Endian, word_of, little, big, load16, csum_fold, csum_range, ipv4_csum, csum_no_skip,
  ip4_csum_off,
}
use caly_anti.Checksum.Arith.{csum_fold_lem, representative}
use caly_anti.Checksum.Words.{get_or-IsByte, word_of-IsU16, word_at, words_sum, odd_word, range_sum}
use caly_anti.Checksum.Range.{IsRange, csum_range-Sums}

-- Beyond the stored checksum both sums take every word.
words_after :
    (e : Endian) (bytes : List ℕ) (n i : ℕ)
    → 5 < i
    → i + n < 1000
    → words_sum e bytes csum_no_skip n i ≡ words_sum e bytes ip4_csum_off n i
unfolding words_sum word_at
words_after e bytes zero i h b = refl
words_after e bytes (suc n) i h b =
    let kept : (i * 2 == ip4_csum_off) ≡ false = ground arith in
    let free : (i * 2 == csum_no_skip) ≡ false = ground arith in
    rw (kept, words_after e bytes n (i + 1) (omega arith) (omega arith))

-- The sum with the stored checksum is the sum without it, and the checksum.
words_split :
    (e : Endian) (bytes : List ℕ) (n i : ℕ)
    → i ≤ 5
    → 5 < i + n
    → i + n < 1000
    → words_sum e bytes csum_no_skip n i
      ≡ words_sum e bytes ip4_csum_off n i + load16 e bytes ip4_csum_off
unfolding words_sum word_at
words_split e bytes zero i h g b = absurd (omega arith)
words_split e bytes (suc n) i h g b = elim (Bool-cases (i == 5)) [
  | inl here ↦
      let at : i ≡ 5 = ground arith in
      rw (at, words_after e bytes n 6 (omega arith) (omega arith)) (omega arith)
  | inr there ↦
      let kept : (i * 2 == ip4_csum_off) ≡ false = ground arith in
      rw (kept, words_split e bytes n (i + 1) (ground arith) (omega arith) (omega arith))
        (omega arith)
]

-- The lengths of an IPv4 header.
pub record IsIhl (ihl_bytes : ℕ) : Type 0 where
  pub ihl_ge : 20 ≤ ihl_bytes
  pub ihl_le : ihl_bytes ≤ 60
  pub ihl_words : ihl_bytes % 4 ≡ 0

-- A header's words sum to the plain sum without the checksum, and the checksum.
header_sum :
    (e : Endian) (bytes : List ℕ) (ihl_bytes : ℕ)
    → IsIhl ihl_bytes
    → range_sum e bytes ihl_bytes csum_no_skip
      ≡ range_sum e bytes ihl_bytes ip4_csum_off + load16 e bytes ip4_csum_off
unfolding range_sum odd_word
header_sum e bytes ihl_bytes v =
    let even : (ihl_bytes % 2 == 0) ≡ true = even_ihl ihl_bytes v.ihl_words in
    rw (even, words_split e bytes (ihl_bytes / 2) 0 (omega arith) (long v.ihl_ge) (short v.ihl_le))
      (omega arith)
  where
    even_ihl : (n : ℕ) → n % 4 ≡ 0 → (n % 2 == 0) ≡ true
    even_ihl n h = ground arith

    long : 20 ≤ ihl_bytes → 5 < 0 + ihl_bytes / 2
    long h = omega arith

    short : ihl_bytes ≤ 60 → 0 + ihl_bytes / 2 < 1000
    short h = omega arith

ihl-IsRange : (ihl_bytes : ℕ) → IsIhl ihl_bytes → IsRange ihl_bytes ip4_csum_off
ihl-IsRange ihl_bytes v = record {
  len_le = omega (arith, v.ihl_le);
  skip_word = inr (refl, omega (arith, v.ihl_ge));
}

whole-IsRange : (ihl_bytes : ℕ) → IsIhl ihl_bytes → IsRange ihl_bytes csum_no_skip
whole-IsRange ihl_bytes v = record { len_le = omega (arith, v.ihl_le); skip_word = inl refl }

-- What `ipv4_csum` returns for a header that is all there.
ipv4_csum_folds :
    (e : Endian) (bytes : List ℕ) (ihl_bytes sum : ℕ)
    → IsIhl ihl_bytes
    → csum_range e bytes ihl_bytes ip4_csum_off ≡ ok sum
    → ipv4_csum e bytes ihl_bytes ≡ ok (csum_fold sum)
unfolding ipv4_csum
ipv4_csum_folds e bytes ihl_bytes sum v r = rw (good v.ihl_ge v.ihl_le v.ihl_words, r)
  where
    good :
        20 ≤ ihl_bytes
        → ihl_bytes ≤ 60
        → ihl_bytes % 4 ≡ 0
        → (ltb ihl_bytes 20 || ltb 60 ihl_bytes || not (ihl_bytes % 4 == 0)) ≡ false
    good a b c = ground arith

folds :
    (s t n c : ℕ)
    → IsU32 s
    → IsU32 t
    → s % 0xFFFF ≡ n % 0xFFFF
    → 0 < s
    → t % 0xFFFF ≡ (n + c) % 0xFFFF
    → 0 < t
    → c < 0x10000
    → (csum_fold s ≡ c)
    → csum_fold t ≡ 0
folds s t n c hs ht ms ps mt pt hc e =
    let opened : 0xFFFF - representative s ≡ c = sym (csum_fold_lem s hs) ∙ e in
    rw (csum_fold_lem t ht) (ground arith)

word_of_pos : (e : Endian) (x y : ℕ) → 0 < x → 0 < word_of e x y
word_of_pos little x y h = omega arith
word_of_pos big x y h = omega arith

-- A header whose first byte is not 0 has a sum that is not 0.
header_pos :
    (e : Endian) (bytes : List ℕ) (ihl_bytes : ℕ)
    → IsIhl ihl_bytes
    → 0 < get_or bytes 0 0
    → 0 < range_sum e bytes ihl_bytes ip4_csum_off
unfolding range_sum words_sum word_at load16
header_pos e bytes ihl_bytes v h =
    let first = words_pos (ihl_bytes / 2) (long v.ihl_ge) in omega arith
  where
    long : 20 ≤ ihl_bytes → 0 < ihl_bytes / 2
    long g = omega arith

    words_pos : (n : ℕ) → 0 < n → 0 < words_sum e bytes ip4_csum_off n 0
    words_pos zero g = absurd (omega arith)
    words_pos (suc n) g = omega (arith, word_of_pos e (get_or bytes 0 0) (get_or bytes 1 0) h)

-- A header that stores what `ipv4_csum` computes passes the receiver's check: the sum of all its
-- words, the checksum included, folds to 0. The header is all there, and its first byte, which
-- holds the version, is not 0.
pub ipv4_csum_verifies :
    (e : Endian) (bytes : List ℕ) (ihl_bytes : ℕ)
    → All IsByte bytes
    → IsIhl ihl_bytes
    → ihl_bytes ≤ length bytes
    → 0 < get_or bytes 0 0
    → ipv4_csum e bytes ihl_bytes ≡ ok (load16 e bytes ip4_csum_off)
    → (sum : ℕ) × (csum_range e bytes ihl_bytes csum_no_skip ≡ ok sum) × (csum_fold sum ≡ 0)
unfolding load16
ipv4_csum_verifies e bytes ihl_bytes hb v hl hv stored =
    let kept = csum_range-Sums e bytes ihl_bytes ip4_csum_off hb (ihl-IsRange ihl_bytes v) hl in
    let all = csum_range-Sums e bytes ihl_bytes csum_no_skip hb (whole-IsRange ihl_bytes v) hl in
    let n = range_sum e bytes ihl_bytes ip4_csum_off in
    let c = load16 e bytes ip4_csum_off in
    let whole = header_sum e bytes ihl_bytes v in
    let pos = header_pos e bytes ihl_bytes v hv in
    let small : c < 0x10000 =
      word_of-IsU16 e (get_or bytes 10 0) (get_or bytes 11 0) (get_or-IsByte bytes 10 hb)
        (get_or-IsByte bytes 11 hb) in
    let same = ok_inj (sym (ipv4_csum_folds e bytes ihl_bytes kept.sum v kept.returned) ∙ stored) in
    (
      all.sum,
      all.returned,
      folds kept.sum all.sum n c kept.word all.word kept.congruent (ground (arith, kept.positive))
          (rw (sym whole) all.congruent) (ground (arith, all.positive)) small same,
    )
  where
    value : Result ℕ → ℕ
    value (ok a) = a
    value (err e) = 0

    ok_inj : {a b : ℕ} → Path (Result ℕ) (ok a) (ok b) → a ≡ b
    ok_inj e = ap value e
