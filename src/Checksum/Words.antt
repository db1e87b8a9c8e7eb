-- ===== src/Checksum/Words.antt =====
-- The loop of `csum_range`: the words of a range, and their plain sum.
use caly_anti.Base.{
  ℕ, zero, suc, ◌+◌, ◌-◌, ◌*◌, ◌/◌, ◌%◌, ◌<◌, ◌≤◌, ◌≡◌, refl, arith, true, false, ltb, leb, ◌==◌,
  if◌then◌else◌, List, [], ◌∷◌, All, get_or, length, ◌⊎◌, Bool-cases, inl, inr,
}
use caly_anti.Base.Word.{IsByte, IsU32}
use caly_anti.Compat.Errors.{Result, ok, err, trunc}
use caly_anti.Checksum.{Endian, little, big, word_of, load16, csum_add, is_skipped, csum_loop}
use caly_anti.Checksum.Arith.{csum_add_word, csum_add_mod}

pub get_or-IsByte : (bytes : List ℕ) (i : ℕ) → All IsByte bytes → IsByte (get_or bytes i 0)
get_or-IsByte [] i h = omega arith
get_or-IsByte (b ∷ bs) zero (hb, h) = hb
get_or-IsByte (b ∷ bs) (suc i) (hb, h) = get_or-IsByte bs i h

pub word_of-IsU16 : (e : Endian) (x y : ℕ) → IsByte x → IsByte y → word_of e x y < 0x10000
word_of-IsU16 little x y hx hy = omega arith
word_of-IsU16 big x y hx hy = omega arith

-- The word at an offset, taken as 0 where it is the one to skip.
unfoldable pub word_at : Endian → List ℕ → ℕ → ℕ → ℕ
unfolding load16
word_at e bytes skip_off off = if is_skipped skip_off off then 0 else load16 e bytes off

-- The plain sum of `n` words from the word `i` on.
unfoldable pub words_sum : Endian → List ℕ → ℕ → ℕ → ℕ → ℕ
words_sum e bytes skip_off zero i = 0
words_sum e bytes skip_off (suc n) i =
    word_at e bytes skip_off (i * 2) + words_sum e bytes skip_off n (i + 1)

-- An odd byte at the end is the first of a word whose other byte is 0.
unfoldable pub odd_word : Endian → List ℕ → ℕ → ℕ → ℕ
odd_word e bytes len skip_off =
    if len % 2 == 0
    then 0
    else if is_skipped skip_off (len - 1)
    then 0
    else word_of e (get_or bytes (len - 1) 0) 0

-- The sum that a range should have, as a plain number.
unfoldable pub range_sum : Endian → List ℕ → ℕ → ℕ → ℕ
range_sum e bytes len skip_off =
    words_sum e bytes skip_off (len / 2) 0 + odd_word e bytes len skip_off

-- `result` holds an accumulator of 32 bits for the plain sum `n`.
pub record Sums (result : Result ℕ) (n : ℕ) : Type 0 where
  pub sum : ℕ
  pub returned : result ≡ ok sum
  pub word : IsU32 sum
  pub congruent : sum % 0xFFFF ≡ n % 0xFFFF
  pub positive : (n ≡ 0) ⊎ (0 < sum)

load16_word :
    (e : Endian) (bytes : List ℕ) (off : ℕ) → All IsByte bytes → load16 e bytes off < 0x10000
unfolding load16
load16_word e bytes off h =
    word_of-IsU16 e (get_or bytes off 0) (get_or bytes (off + 1) 0) (get_or-IsByte bytes off h)
      (get_or-IsByte bytes (off + 1) h)

-- One round's accumulator.
accumulate :
    (e : Endian) (bytes : List ℕ) (skip_off off sum : ℕ)
    → All IsByte bytes
    → IsU32 sum
    → (acc : ℕ) × ((if is_skipped skip_off off then sum else csum_add sum (load16 e bytes off))
        ≡ acc)
      × IsU32 acc
      × (acc % 0xFFFF ≡ (sum + word_at e bytes skip_off off) % 0xFFFF)
      × ((sum + word_at e bytes skip_off off ≡ 0) ⊎ (0 < acc))
unfolding word_at
accumulate e bytes skip_off off sum hb hs = elim (Bool-cases (is_skipped skip_off off)) [
  | inl skip ↦ (sum, rw skip, hs, rw skip (omega arith), rw skip (ground arith))
  | inr keep ↦
      let w = load16_word e bytes off hb in
      let added = csum_add_mod sum (load16 e bytes off) hs (omega arith) in
      (
        csum_add sum (load16 e bytes off),
        rw keep,
        csum_add_word sum (load16 e bytes off) hs (omega arith),
        rw keep added.0,
        rw keep (ground (arith, added.1)),
      )
]

finished : (sum : ℕ) → IsU32 sum → Sums (ok sum) (sum + 0)
finished sum hs = record {
  sum = sum;
  returned = refl;
  word = hs;
  congruent = omega arith;
  positive = ground arith;
}

-- The loop at word `i`, with `n` words to go and rounds for them.
pub loop-Sums :
    (e : Endian) (bytes : List ℕ) (words skip_off rounds n i sum : ℕ)
    → All IsByte bytes
    → IsU32 sum
    → i + n ≡ words
    → n ≤ rounds
    → words * 2 ≤ length bytes
    → Sums (csum_loop e bytes words skip_off rounds i sum) (sum + words_sum e bytes skip_off n i)
unfolding csum_loop words_sum
loop-Sums e bytes words skip_off zero zero i sum hb hs hw hr hl = finished sum hs
loop-Sums e bytes words skip_off zero (suc n) i sum hb hs hw hr hl = absurd (omega arith)
loop-Sums e bytes words skip_off (suc rounds) zero i sum hb hs hw hr hl =
    let over : leb words i ≡ true = ground arith in rw over (finished sum hs)
loop-Sums e bytes words skip_off (suc rounds) (suc n) i sum hb hs hw hr hl =
    let (acc, is, word, same, pos) = accumulate e bytes skip_off (i * 2) sum hb hs in
    let more : leb words i ≡ false = ground arith in
    let there : ltb (length bytes) (i * 2 + 2) ≡ false = ground arith in
    let rest =
      loop-Sums e bytes words skip_off rounds n (i + 1) acc hb word (omega arith) (omega arith)
        hl in
    rw (more, there, is)
      (record {
        sum = rest.sum;
        returned = rest.returned;
        word = rest.word;
        congruent = omega (arith, same, rest.congruent);
        positive = ground (arith, pos, rest.positive);
      })

-- A word that is not all there stops the loop.
pub loop_trunc :
    (e : Endian) (bytes : List ℕ) (words skip_off rounds n i sum : ℕ)
    → i + n ≡ words
    → n ≤ rounds
    → length bytes < words * 2
    → i * 2 ≤ length bytes
    → csum_loop e bytes words skip_off rounds i sum ≡ err trunc
unfolding csum_loop
loop_trunc e bytes words skip_off zero n i sum hw hr hl hi = absurd (omega arith)
loop_trunc e bytes words skip_off (suc rounds) zero i sum hw hr hl hi = absurd (omega arith)
loop_trunc e bytes words skip_off (suc rounds) (suc n) i sum hw hr hl hi =
    let more : leb words i ≡ false = ground arith in
    let next = if is_skipped skip_off (i * 2) then sum else csum_add sum (load16 e bytes (i * 2)) in
    elim (Bool-cases (ltb (length bytes) (i * 2 + 2))) [
      | inl gone ↦ rw (more, gone)
      | inr there ↦
          rw (more, there)
            (loop_trunc e bytes words skip_off rounds n (i + 1) next (omega arith) (omega arith) hl
              (ground arith))
    ]
