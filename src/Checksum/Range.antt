-- ===== src/Checksum/Range.antt =====
-- `csum_range`: the sum of the words of a range, or an error where the range is not all there.
use caly_anti.Base.{
  ℕ, ◌+◌, ◌-◌, ◌*◌, ◌/◌, ◌%◌, ◌<◌, ◌≤◌, ◌≡◌, ◌≢◌, refl, arith, true, false, ◌&&◌, ◌||◌, not, ltb,
  leb, ltb→lt, ◌==◌, List, All, get_or, length, ◌⊎◌, Bool-cases, inl, inr,
}
use caly_anti.Base.Word.{IsByte, IsU32}
use caly_anti.Compat.Errors.{ok, err, inval, trunc}
use caly_anti.Checksum.{
  Endian, little, big, word_of, htons, csum_add, is_skipped, csum_loop, csum_tail, csum_range,
  csum_max_words, csum_max_bytes, csum_no_skip,
}
use caly_anti.Checksum.Arith.{csum_add_word, csum_add_mod}
use caly_anti.Checksum.Words.{
  get_or-IsByte, word_of-IsU16, words_sum, odd_word, range_sum, Sums, loop-Sums, loop_trunc,
}

htons_odd : (e : Endian) (b : ℕ) → IsByte b → htons e (b * 256) ≡ word_of e b 0
unfolding htons
htons_odd little b h = omega arith
htons_odd big b h = omega arith

tail-Sums :
    (e : Endian) (bytes : List ℕ) (len skip_off sum n : ℕ)
    → All IsByte bytes
    → len ≤ length bytes
    → IsU32 sum
    → sum % 0xFFFF ≡ n % 0xFFFF
    → (n ≡ 0) ⊎ (0 < sum)
    → Sums (csum_tail e bytes len skip_off sum) (n + odd_word e bytes len skip_off)
unfolding csum_tail odd_word
tail-Sums e bytes len skip_off sum n hb hl hs hm hp = elim (Bool-cases (len % 2 == 0)) [
  | inl even ↦ rw even (done (n + 0) (omega arith) (ground arith))
  | inr odd ↦
      let there : ltb (length bytes) (len - 1 + 1) ≡ false = ground arith in
      let b = get_or bytes (len - 1) 0 in
      let is_byte = get_or-IsByte bytes (len - 1) hb in
      let small = word_of-IsU16 e b 0 is_byte (omega arith) in
      let added = csum_add_mod sum (word_of e b 0) hs (omega arith) in
      elim (Bool-cases (is_skipped skip_off (len - 1))) [
        | inl skip ↦ rw (odd, there, skip) (done (n + 0) (omega arith) (ground arith))
        | inr keep ↦
            rw (odd, there, keep, htons_odd e b is_byte)
              (record {
                sum = csum_add sum (word_of e b 0);
                returned = refl;
                word = csum_add_word sum (word_of e b 0) hs (omega arith);
                congruent = omega (arith, added.0);
                positive = ground (arith, added.1);
              })
      ]
]
  where
    done : (m : ℕ) → sum % 0xFFFF ≡ m % 0xFFFF → (m ≡ 0) ⊎ (0 < sum) → Sums (ok sum) m
    done m same pos = record {
      sum = sum;
      returned = refl;
      word = hs;
      congruent = same;
      positive = pos;
    }

-- The arguments that `csum_range` takes: a length that the unrolled loop covers, and either no word
-- to skip or a word of the range.
pub record IsRange (len skip_off : ℕ) : Type 0 where
  pub len_le : len ≤ csum_max_bytes
  pub skip_word : (skip_off ≡ csum_no_skip) ⊎ ((skip_off % 2 ≡ 0) × (skip_off < len))

valid_len : (len : ℕ) → len ≤ csum_max_bytes → ltb csum_max_bytes len ≡ false
valid_len len h = ground arith

valid_skip :
    (len skip_off : ℕ)
    → (skip_off ≡ csum_no_skip) ⊎ ((skip_off % 2 ≡ 0) × (skip_off < len))
    → (not (skip_off == csum_no_skip) && (skip_off % 2 == 1 || leb len skip_off)) ≡ false
valid_skip len skip_off h = ground arith

-- The whole loop.
whole_loop :
    (e : Endian) (bytes : List ℕ) (len skip_off : ℕ)
    → All IsByte bytes
    → len ≤ csum_max_bytes
    → len / 2 * 2 ≤ length bytes
    → Sums
        (csum_loop e bytes (len / 2) skip_off csum_max_words 0 0)
        (words_sum e bytes skip_off (len / 2) 0)
whole_loop e bytes len skip_off hb hm hl =
    let words = len / 2 in
    let looped =
      loop-Sums e bytes words skip_off csum_max_words words 0 0 hb (omega arith) (omega arith)
        (omega arith) hl in
    record {
      sum = looped.sum;
      returned = looped.returned;
      word = looped.word;
      congruent = omega (arith, looped.congruent);
      positive = ground (arith, looped.positive);
    }

-- A range of at most 128 bytes that is all there, with no word to skip or an even offset inside it,
-- gives an accumulator that agrees modulo 0xFFFF with the plain sum of its words, the skipped one
-- left out and an odd last byte padded with 0, and that is 0 only if that sum is.
pub csum_range-Sums :
    (e : Endian) (bytes : List ℕ) (len skip_off : ℕ)
    → All IsByte bytes
    → IsRange len skip_off
    → len ≤ length bytes
    → Sums (csum_range e bytes len skip_off) (range_sum e bytes len skip_off)
unfolding csum_range range_sum
csum_range-Sums e bytes len skip_off hb v hl =
    let looped = whole_loop e bytes len skip_off hb v.len_le (half len (length bytes) hl) in
    rw (valid_len len v.len_le, valid_skip len skip_off v.skip_word, looped.returned)
      (tail-Sums e bytes len skip_off looped.sum (words_sum e bytes skip_off (len / 2) 0) hb hl
        looped.word looped.congruent looped.positive)
  where
    half : (len n : ℕ) → len ≤ n → len / 2 * 2 ≤ n
    half len n h = omega arith

-- A range of at most 128 bytes, with no word to skip or an even offset inside it, that the end of the
-- packet cuts gives the error of a truncated packet, never the sum of a part.
pub csum_range_cut :
    (e : Endian) (bytes : List ℕ) (len skip_off : ℕ)
    → All IsByte bytes
    → IsRange len skip_off
    → length bytes < len
    → csum_range e bytes len skip_off ≡ err trunc
unfolding csum_range csum_tail
csum_range_cut e bytes len skip_off hb v cut =
    rw (valid_len len v.len_le, valid_skip len skip_off v.skip_word)
      (elim (Bool-cases (ltb (length bytes) (len / 2 * 2))) [
        | inl short ↦ rw (
            loop_trunc e bytes (len / 2) skip_off csum_max_words (len / 2) 0 0 (omega arith)
              (bound len v.len_le) (ltb→lt (length bytes) (len / 2 * 2) short) (omega arith))
        | inr whole ↦
            let looped = whole_loop e bytes len skip_off hb v.len_le (ground arith) in
            let odd : (len % 2 == 0) ≡ false = ground arith in
            let gone : ltb (length bytes) (len - 1 + 1) ≡ true = ground arith in
            rw (looped.returned, odd, gone)
      ])
  where
    bound : (len : ℕ) → len ≤ csum_max_bytes → len / 2 ≤ csum_max_words
    bound len h = omega arith

-- A range that the unrolled loop does not cover, or a word to skip that is not one of the range's.
pub csum_range_inval :
    (e : Endian) (bytes : List ℕ) (len skip_off : ℕ)
    → (csum_max_bytes < len) ⊎ ((skip_off ≢ csum_no_skip) × ((skip_off % 2 ≡ 1) ⊎ (len ≤ skip_off)))
    → csum_range e bytes len skip_off ≡ err inval
unfolding csum_range
csum_range_inval e bytes len skip_off h = elim (Bool-cases (ltb csum_max_bytes len)) [
  | inl long ↦ rw long
  | inr fits ↦
      let refused : (not (skip_off == csum_no_skip) && (skip_off % 2 == 1 || leb len skip_off))
          ≡ true =
        ground arith in
      rw (fits, refused)
]
