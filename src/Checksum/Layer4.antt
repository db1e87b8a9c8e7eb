-- ===== src/Checksum/Layer4.antt =====
-- The checksums of TCP and UDP, over a segment and its pseudo-header.
use caly_anti.Base.{ℕ, ◌+◌, ◌%◌, ◌<◌, ◌≤◌, ◌≡◌, refl, arith, List, All, length}
use caly_anti.Base.Word.{IsU16, IsU32, IsByte}
use caly_anti.Compat.Errors.{ok}
use caly_anti.Checksum.{
  Endian, little, big, htons, htonl, csum_add, csum_fold, add_words, nonzero, pseudo_csum_v4,
  pseudo_csum_v6, l4_csum_v4, l4_csum_v6,
}
use caly_anti.Checksum.Arith.{csum_add_mod, csum_add_word, csum_fold_lem}
use caly_anti.Checksum.Replace.{total, add_words_mod}
use caly_anti.Checksum.Words.{range_sum}
use caly_anti.Checksum.Range.{IsRange, csum_range-Sums}

htons-IsU16 : (e : Endian) (x : ℕ) → IsU16 x → IsU16 (htons e x)
unfolding htons
htons-IsU16 little x h = omega arith
htons-IsU16 big x h = h

htonl-IsU32 : (e : Endian) (x : ℕ) → IsU32 x → IsU32 (htonl e x)
unfolding htonl
htonl-IsU32 little x h = omega arith
htonl-IsU32 big x h = h

-- An accumulator for the plain sum `n`.
record Carries (n sum : ℕ) : Type 0 where
  pub word : IsU32 sum
  pub congruent : sum % 0xFFFF ≡ n % 0xFFFF

add-Carries : (n sum w : ℕ) → Carries n sum → IsU32 w → Carries (n + w) (csum_add sum w)
add-Carries n sum w c h =
    let added = csum_add_mod sum w c.word h in
    record { word = csum_add_word sum w c.word h; congruent = omega (arith, added.0, c.congruent) }

words-Carries :
    (n sum : ℕ) (ws : List ℕ)
    → Carries n sum
    → All IsU32 ws
    → Carries (n + total ws) (add_words sum ws)
words-Carries n sum ws c h =
    let added = add_words_mod ws sum c.word h in
    record { word = added.1; congruent = omega (arith, added.0, c.congruent) }

zero-Carries : Carries 0 0
zero-Carries = record { word = omega arith; congruent = refl }

first-Carries : (n sum : ℕ) → Carries (0 + n) sum → Carries n sum
first-Carries n sum c = record { word = c.word; congruent = omega (arith, c.congruent) }

-- The plain sums of the two pseudo-headers.
abbrev pub pseudo_v4 : Endian → ℕ → ℕ → ℕ → ℕ → ℕ
pseudo_v4 e saddr daddr proto len = saddr + daddr + htons e proto + htons e len

abbrev pub pseudo_v6 : Endian → List ℕ → List ℕ → ℕ → ℕ → ℕ
pseudo_v6 e saddr daddr nexthdr len = total saddr + total daddr + htonl e len + htonl e nexthdr

-- What is sent for an accumulator of the plain sum `n`.
pub record Closes (n out : ℕ) : Type 0 where
  pub not_zero : 0 < out
  pub half : IsU16 out
  pub cancels : (n + out) % 0xFFFF ≡ 0

closing : (n sum : ℕ) → Carries n sum → Closes n (nonzero (csum_fold sum))
closing n sum c =
    rw (csum_fold_lem sum c.word) (record {
      not_zero = ground arith;
      half = ground arith;
      cancels = ground (arith, c.congruent);
    })

v4-Carries :
    (e : Endian) (saddr daddr proto len : ℕ)
    → IsU32 saddr
    → IsU32 daddr
    → IsU16 proto
    → IsU16 len
    → Carries (pseudo_v4 e saddr daddr proto len) (pseudo_csum_v4 e saddr daddr proto len)
unfolding pseudo_csum_v4
v4-Carries e saddr daddr proto len hs hd hp hl =
    let p = htons-IsU16 e proto hp in
    let l = htons-IsU16 e len hl in
    add-Carries (saddr + daddr + htons e proto) _ (htons e len)
      (add-Carries (saddr + daddr) _ (htons e proto)
        (add-Carries saddr _ daddr (first-Carries saddr _ (add-Carries 0 0 saddr zero-Carries hs))
          hd)
        (omega arith))
      (omega arith)

v6-Carries :
    (e : Endian) (saddr daddr : List ℕ) (nexthdr len : ℕ)
    → All IsU32 saddr
    → All IsU32 daddr
    → IsU32 nexthdr
    → IsU32 len
    → Carries (pseudo_v6 e saddr daddr nexthdr len) (pseudo_csum_v6 e saddr daddr nexthdr len)
unfolding pseudo_csum_v6
v6-Carries e saddr daddr nexthdr len hs hd hn hl =
    add-Carries (total saddr + total daddr + htonl e len) _ (htonl e nexthdr)
      (add-Carries (total saddr + total daddr) _ (htonl e len)
        (words-Carries (total saddr) _ daddr
          (first-Carries (total saddr) _ (words-Carries 0 0 saddr zero-Carries hs)) hd)
        (htonl-IsU32 e len hl))
      (htonl-IsU32 e nexthdr hn)

segment :
    (n m sum pseudo : ℕ)
    → Carries n sum
    → Carries m pseudo
    → Closes (n + m) (nonzero (csum_fold (csum_add sum pseudo)))
segment n m sum pseudo c d =
    let added = csum_add_mod sum pseudo c.word d.word in
    closing (n + m) (csum_add sum pseudo) (record {
      word = csum_add_word sum pseudo c.word d.word;
      congruent = omega (arith, added.0, c.congruent, d.congruent);
    })

-- Over a segment that is all there, the checksum of either family is a word that is not 0, the value
-- that means "no checksum" to UDP, and it cancels the sum of the segment and the pseudo-header
-- modulo 0xFFFF, which is what the receiver checks.
pub l4_csum_lem :
    (e : Endian) (bytes saddr6 daddr6 : List ℕ) (saddr daddr proto l4_len skip_off : ℕ)
    → All IsByte bytes
    → IsRange l4_len skip_off
    → l4_len ≤ length bytes
    → IsU32 saddr
    → IsU32 daddr
    → All IsU32 saddr6
    → All IsU32 daddr6
    → IsByte proto
    → ((out : ℕ) × (l4_csum_v4 e bytes saddr daddr proto l4_len skip_off ≡ ok out)
        × Closes (range_sum e bytes l4_len skip_off + pseudo_v4 e saddr daddr proto l4_len) out)
      × ((out : ℕ) × (l4_csum_v6 e bytes saddr6 daddr6 proto l4_len skip_off ≡ ok out)
          × Closes (range_sum e bytes l4_len skip_off + pseudo_v6 e saddr6 daddr6 proto l4_len) out)
unfolding l4_csum_v4 l4_csum_v6
l4_csum_lem e bytes saddr6 daddr6 saddr daddr proto l4_len skip_off hb hr hl hs hd h6s h6d hp =
    let s = csum_range-Sums e bytes l4_len skip_off hb hr hl in
    let n = range_sum e bytes l4_len skip_off in
    let c : Carries n s.sum = record { word = s.word; congruent = s.congruent } in
    let short : l4_len ≤ 128 = hr.len_le in
    let p4 = v4-Carries e saddr daddr proto l4_len hs hd (omega arith) (omega arith) in
    let p6 = v6-Carries e saddr6 daddr6 proto l4_len h6s h6d (omega arith) (omega arith) in
    rw s.returned (
      (
        nonzero (csum_fold (csum_add s.sum (pseudo_csum_v4 e saddr daddr proto l4_len))),
        refl,
        segment n (pseudo_v4 e saddr daddr proto l4_len) s.sum _ c p4,
      ),
      (
        nonzero (csum_fold (csum_add s.sum (pseudo_csum_v6 e saddr6 daddr6 proto l4_len))),
        refl,
        segment n (pseudo_v6 e saddr6 daddr6 proto l4_len) s.sum _ c p6,
      ),
    )
