-- ===== src/Checksum/Replace.antt =====
-- RFC 1624: a checksum updated for a changed field is the checksum of the changed packet.
use caly_anti.Base.{ℕ, ◌+◌, ◌%◌, ◌<◌, ◌≡◌, ◌≢◌, arith, List, [], ◌∷◌, All}
use caly_anti.Base.Word.{IsU16, IsU32}
use caly_anti.Checksum.{
  csum_add, csum_sub, csum_fold, not_u32, csum_replace2, csum_replace4, csum_replace16, add_words,
  sub_words,
}
use caly_anti.Checksum.Arith.{csum_add_word, csum_add_mod, csum_fold_lem}

abbrev pub total : List ℕ → ℕ
total [] = 0
total (w ∷ ws) = w + total ws

pub csum_sub_mod :
    (a b : ℕ)
    → IsU32 a
    → IsU32 b
    → ((csum_sub a b + b) % 0xFFFF ≡ a % 0xFFFF) × IsU32 (csum_sub a b) × (0 < a → 0 < csum_sub a b)
unfolding csum_sub
csum_sub_mod a b ha hb =
    let added = csum_add_mod a (not_u32 b) ha (omega arith) in
    (omega (arith, added.0), csum_add_word a (not_u32 b) ha (omega arith), grind (arith, added.1))

pub add_words_mod :
    (ws : List ℕ) (tmp : ℕ)
    → IsU32 tmp
    → All IsU32 ws
    → (add_words tmp ws % 0xFFFF ≡ (tmp + total ws) % 0xFFFF)
      × IsU32 (add_words tmp ws)
      × (0 < tmp + total ws → 0 < add_words tmp ws)
unfolding add_words
add_words_mod [] tmp h hs = (omega arith, h, λ k. omega arith)
add_words_mod (w ∷ ws) tmp h (hw, hs) =
    let one = csum_add_mod tmp w h hw in
    let rest = add_words_mod ws (csum_add tmp w) (csum_add_word tmp w h hw) hs in
    (omega (arith, one.0, rest.0), rest.1, λ k. grind (arith, one.1, rest.2))

pub sub_words_mod :
    (ws : List ℕ) (tmp : ℕ)
    → IsU32 tmp
    → All IsU32 ws
    → ((sub_words tmp ws + total ws) % 0xFFFF ≡ tmp % 0xFFFF)
      × IsU32 (sub_words tmp ws)
      × (0 < tmp → 0 < sub_words tmp ws)
unfolding sub_words
sub_words_mod [] tmp h hs = (omega arith, h, λ k. omega arith)
sub_words_mod (w ∷ ws) tmp h (hw, hs) =
    let one = csum_sub_mod tmp w h hw in
    let rest = sub_words_mod ws (csum_sub tmp w) one.1 hs in
    (omega (arith, one.0, rest.0), rest.1, λ k. grind (arith, one.2, rest.2))

-- Two sums that are not 0 fold alike when they agree modulo 0xFFFF.
pub csum_fold_eq :
    (a b : ℕ)
    → IsU32 a
    → IsU32 b
    → 0 < a
    → 0 < b
    → a % 0xFFFF ≡ b % 0xFFFF
    → csum_fold a ≡ csum_fold b
csum_fold_eq a b ha hb pa pb e = rw (csum_fold_lem a ha, csum_fold_lem b hb) (ground arith)

-- The accumulator that the complement of a stored checksum opens.
stored_mod :
    (s : ℕ) → IsU32 s → (not_u32 (csum_fold s) % 0xFFFF ≡ s % 0xFFFF) × (0 < not_u32 (csum_fold s))
stored_mod s h = rw (csum_fold_lem s h) (ground arith)

-- The checksum of a packet whose other words accumulate to `rest`, updated from the old words of a
-- field to the new ones, all of 32 bits, is the checksum that the changed packet has, unless all of
-- that packet's words are 0.
pub csum_replace16_lem :
    (rest : ℕ) (from to : List ℕ)
    → IsU32 rest
    → All IsU32 from
    → All IsU32 to
    → 0 < rest + total to
    → csum_replace16 (csum_fold (add_words rest from)) from to ≡ csum_fold (add_words rest to)
unfolding csum_replace16
csum_replace16_lem rest from to hr hf ht pos =
    let old = add_words_mod from rest hr hf in
    let new = add_words_mod to rest hr ht in
    let stored = stored_mod (add_words rest from) old.1 in
    let opened : ℕ = not_u32 (csum_fold (add_words rest from)) in
    let less = sub_words_mod from opened (omega arith) hf in
    let done = add_words_mod to (sub_words opened from) less.1 ht in
    csum_fold_eq (add_words (sub_words opened from) to) (add_words rest to) done.1 new.1
      (done.2 (omega (arith, less.2 stored.1))) (new.2 pos)
      (omega (arith, old.0, new.0, stored.0, less.0, done.0))

-- For a field of one word, with `rest` the accumulator of the other words and not all words of the
-- changed packet 0, `csum_replace2` and `csum_replace4` give the checksum of the changed packet.
pub csum_replace_lem :
    (rest from to : ℕ)
    → IsU32 rest
    → IsU32 from
    → IsU32 to
    → 0 < rest + to
    → (csum_replace4 (csum_fold (csum_add rest from)) from to ≡ csum_fold (csum_add rest to))
      × (csum_replace2 (csum_fold (csum_add rest from)) from to ≡ csum_fold (csum_add rest to))
unfolding csum_replace4 csum_replace2 csum_replace16 add_words sub_words
csum_replace_lem rest from to hr hf ht pos =
    let one = csum_replace16_lem rest (from ∷ []) (to ∷ []) hr (hf, tt) (ht, tt) (omega arith) in
    (one, one)

-- An update never produces the negative zero 0xFFFF, whatever was stored.
pub csum_replace2-ne-ffff :
    (sum from to : ℕ) → IsU16 sum → IsU16 from → IsU16 to → csum_replace2 sum from to ≢ 0xFFFF
unfolding csum_replace2
csum_replace2-ne-ffff sum from to hs hf ht e =
    let less = csum_sub_mod (not_u32 sum) from (omega arith) (omega arith) in
    let done = csum_add_mod (csum_sub (not_u32 sum) from) to less.1 (omega arith) in
    let word = csum_add_word (csum_sub (not_u32 sum) from) to less.1 (omega arith) in
    let pos = less.2 (omega arith) in
    let positive : 0 < csum_add (csum_sub (not_u32 sum) from) to = grind (arith, done.1) in
    absurd (ground (arith, csum_fold_lem (csum_add (csum_sub (not_u32 sum) from) to) word))
