-- ===== src/Tests/Sums.antt =====
-- Checksums at concrete inputs.
use caly_anti.Base.{◌+◌, ℕ, ◌≡◌, refl, arith, List, [], ◌∷◌, inr}
use caly_anti.Compat.Errors.{ok}
use caly_anti.Checksum.{
  big, little, load16, csum_add, csum_fold, csum_replace16, add_words, csum_loop, csum_tail,
  csum_range, csum_no_skip, ipv4_csum, l4_csum_v4, l4_csum_v6,
}
use caly_anti.Checksum.Replace.{csum_replace16_lem}
use caly_anti.Checksum.Words.{range_sum}
use caly_anti.Checksum.Layer4.{Closes, pseudo_v4, pseudo_v6, l4_csum_lem}
use caly_anti.Checksum.Verify.{ipv4_csum_verifies}

-- The header of a UDP packet from 192.168.0.1 to 192.168.0.199.
abbrev header : List ℕ
header =
    0x45 ∷ 0x00 ∷ 0x00 ∷ 0x73 ∷ 0x00 ∷ 0x00 ∷ 0x40 ∷ 0x00 ∷ 0x40 ∷ 0x11 ∷ 0xb8 ∷ 0x61 ∷ 0xc0 ∷ 0xa8
    ∷ 0x00 ∷ 0x01 ∷ 0xc0 ∷ 0xa8 ∷ 0x00 ∷ 0xc7 ∷ []

stored : ipv4_csum big header 20 ≡ ok 0xb861
unfolding ipv4_csum csum_range csum_loop csum_tail csum_add csum_fold load16
stored = refl

ipv4_csum_verifies_example :
    (sum : ℕ) × (csum_range little header 20 csum_no_skip ≡ ok sum) × (csum_fold sum ≡ 0)
unfolding ipv4_csum csum_range csum_loop csum_tail csum_add csum_fold load16
ipv4_csum_verifies_example =
    ipv4_csum_verifies little header 20 (ground arith)
      (record { ihl_ge = omega arith; ihl_le = omega arith; ihl_words = refl }) (omega arith)
      (omega arith) refl

-- Two words beside the two of a field, and the field's new words.
csum_replace16_lem_example :
    csum_replace16
      (csum_fold (add_words 0x12345 (7 ∷ 0xFFFF_FFFF ∷ [])))
      (7 ∷ 0xFFFF_FFFF ∷ [])
      (0xABCD_0000 ∷ 1 ∷ [])
    ≡ csum_fold (add_words 0x12345 (0xABCD_0000 ∷ 1 ∷ []))
csum_replace16_lem_example =
    csum_replace16_lem 0x12345 (7 ∷ 0xFFFF_FFFF ∷ []) (0xABCD_0000 ∷ 1 ∷ []) (omega arith)
      (omega arith, (omega arith, tt)) (omega arith, (omega arith, tt)) (omega arith)

-- A UDP segment of ten bytes, its checksum skipped.
abbrev datagram : List ℕ
datagram = 0xC0 ∷ 0x01 ∷ 0 ∷ 53 ∷ 0 ∷ 10 ∷ 0xAB ∷ 0xCD ∷ 1 ∷ 2 ∷ []

abbrev words6 : List ℕ
words6 = 0x20 ∷ 0 ∷ 0 ∷ 0x0100_0000 ∷ []

l4_csum_lem_example :
    ((out : ℕ) × (l4_csum_v4 little datagram 0x0100_A8C0 0xC700_A8C0 17 10 6 ≡ ok out)
      × Closes
          (range_sum little datagram 10 6 + pseudo_v4 little 0x0100_A8C0 0xC700_A8C0 17 10)
          out)
    × ((out : ℕ) × (l4_csum_v6 little datagram words6 words6 17 10 6 ≡ ok out)
        × Closes (range_sum little datagram 10 6 + pseudo_v6 little words6 words6 17 10) out)
l4_csum_lem_example =
    l4_csum_lem little datagram words6 words6 0x0100_A8C0 0xC700_A8C0 17 10 6 (ground arith)
      (record { len_le = omega arith; skip_word = inr (refl, omega arith) }) (omega arith)
      (omega arith) (omega arith) (ground arith) (ground arith) (omega arith)
