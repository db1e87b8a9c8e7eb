-- ===== src/Checksum.antt =====
-- bpf/checksum.h: the one's complement arithmetic of RFC 1071 and RFC 1624. A packet is the list of
-- the bytes from a header's first to `data_end`; a native load depends on the host's byte order. A
-- checksum is returned, so there is no out-pointer, and no error for one that is null.
pub mod Arith
pub mod Replace
pub mod Words
pub mod Range
pub mod Verify
pub mod Layer4
use caly_anti.Base.{
  ℕ, zero, suc, ◌+◌, ◌-◌, ◌*◌, ◌/◌, ◌%◌, Bool, true, false, ◌&&◌, ◌||◌, not, ltb, leb, ◌==◌,
  if◌then◌else◌, List, [], ◌∷◌, get_or, length,
}
use caly_anti.Base.Word.{add_u32, u32_max}
use caly_anti.Compat.Errors.{Result, ok, err, ◌>>=◌, inval, trunc}

pub data Endian : Type 0 where
  little big : Endian

-- A native load of two bytes, and the bytes of a native store: `lo_byte` is first in memory.
abbrev pub word_of : Endian → ℕ → ℕ → ℕ
word_of little first second = first + second * 256
word_of big first second = first * 256 + second

abbrev pub first_byte : Endian → ℕ → ℕ
first_byte little w = w % 256
first_byte big w = w / 256

abbrev pub second_byte : Endian → ℕ → ℕ
second_byte little w = w / 256
second_byte big w = w % 256

unfoldable pub load16 : Endian → List ℕ → ℕ → ℕ
load16 e bytes off = word_of e (get_or bytes off 0) (get_or bytes (off + 1) 0)

abbrev pub swap16 : ℕ → ℕ
swap16 x = x % 256 * 256 + x / 256

unfoldable pub htons : Endian → ℕ → ℕ
htons little x = swap16 x
htons big x = x

abbrev pub swap32 : ℕ → ℕ
swap32 x = swap16 (x % 65536) * 65536 + swap16 (x / 65536)

unfoldable pub htonl : Endian → ℕ → ℕ
htonl little x = swap32 x
htonl big x = x

unfoldable pub csum_add : ℕ → ℕ → ℕ
csum_add csum addend = let s = add_u32 csum addend in add_u32 s (if ltb s addend then 1 else 0)

-- `~x` on 32 and on 16 bits
abbrev pub not_u32 : ℕ → ℕ
not_u32 x = u32_max - x

abbrev pub not_u16 : ℕ → ℕ
not_u16 x = 0xFFFF - x

unfoldable pub csum_sub : ℕ → ℕ → ℕ
csum_sub csum addend = csum_add csum (not_u32 addend)

abbrev pub fold_once : ℕ → ℕ
fold_once csum = add_u32 (csum % 0x10000) (csum / 0x10000)

unfoldable pub csum_fold_partial : ℕ → ℕ
csum_fold_partial csum = fold_once (fold_once csum) % 0x10000

unfoldable pub csum_fold : ℕ → ℕ
csum_fold csum = not_u32 (fold_once (fold_once csum)) % 0x10000

unfoldable pub csum_unfold : ℕ → ℕ
csum_unfold sum = sum

unfoldable pub csum_replace2 : ℕ → ℕ → ℕ → ℕ
unfolding csum_unfold
csum_replace2 sum from to = csum_fold (csum_add (csum_sub (not_u32 (csum_unfold sum)) from) to)

unfoldable pub csum_replace4 : ℕ → ℕ → ℕ → ℕ
unfolding csum_unfold
csum_replace4 sum from to = csum_fold (csum_add (csum_sub (not_u32 (csum_unfold sum)) from) to)

-- The loops over the four words of an address.
unfoldable pub sub_words : ℕ → List ℕ → ℕ
sub_words tmp [] = tmp
sub_words tmp (w ∷ ws) = sub_words (csum_sub tmp w) ws

unfoldable pub add_words : ℕ → List ℕ → ℕ
add_words tmp [] = tmp
add_words tmp (w ∷ ws) = add_words (csum_add tmp w) ws

unfoldable pub csum_replace16 : ℕ → List ℕ → List ℕ → ℕ
unfolding csum_unfold
csum_replace16 sum from to = csum_fold (add_words (sub_words (not_u32 (csum_unfold sum)) from) to)

unfoldable pub csum_swap_noop : ℕ → ℕ
csum_swap_noop sum = sum

abbrev pub csum_max_bytes : ℕ
csum_max_bytes = 128

abbrev pub csum_max_words : ℕ
csum_max_words = 64

abbrev pub csum_no_skip : ℕ
csum_no_skip = u32_max

abbrev pub is_skipped : ℕ → ℕ → Bool
is_skipped skip_off off = not (skip_off == csum_no_skip) && off == skip_off

-- The unrolled loop, on the rounds left. `bytes` ends at `data_end`.
unfoldable pub csum_loop : Endian → List ℕ → ℕ → ℕ → ℕ → ℕ → ℕ → Result ℕ
csum_loop e bytes words skip_off zero i sum = ok sum
csum_loop e bytes words skip_off (suc rounds) i sum =
    let off = i * 2 in
    let sum' = if is_skipped skip_off off then sum else csum_add sum (load16 e bytes off) in
    let rest = csum_loop e bytes words skip_off rounds (i + 1) sum' in
    if leb words i then ok sum else if ltb (length bytes) (off + 2) then err trunc else rest

-- The odd byte at the end, if there is one.
unfoldable pub csum_tail : Endian → List ℕ → ℕ → ℕ → ℕ → Result ℕ
csum_tail e bytes len skip_off sum =
    if len % 2 == 0
    then ok sum
    else let off = len - 1 in
      if ltb (length bytes) (off + 1)
      then err trunc
      else if is_skipped skip_off off
      then ok sum
      else ok (csum_add sum (htons e (get_or bytes off 0 * 256)))

unfoldable pub csum_range : Endian → List ℕ → ℕ → ℕ → Result ℕ
csum_range e bytes len skip_off =
    if ltb csum_max_bytes len
    then err inval
    else if not (skip_off == csum_no_skip) && (skip_off % 2 == 1 || leb len skip_off)
    then err inval
    else do
      sum ← csum_loop e bytes (len / 2) skip_off csum_max_words 0 0
      csum_tail e bytes len skip_off sum

abbrev pub ip4_csum_off : ℕ
ip4_csum_off = 10

unfoldable pub ipv4_csum : Endian → List ℕ → ℕ → Result ℕ
ipv4_csum e bytes ihl_bytes =
    if ltb ihl_bytes 20 || ltb 60 ihl_bytes || not (ihl_bytes % 4 == 0)
    then err inval
    else do sum ← csum_range e bytes ihl_bytes ip4_csum_off; ok (csum_fold sum)

unfoldable pub pseudo_csum_v4 : Endian → ℕ → ℕ → ℕ → ℕ → ℕ
pseudo_csum_v4 e saddr_net daddr_net proto l4_len =
    let s1 = csum_add 0 saddr_net in
    let s2 = csum_add s1 daddr_net in
    let s3 = csum_add s2 (htons e proto) in csum_add s3 (htons e l4_len)

-- The addresses are four words each.
unfoldable pub pseudo_csum_v6 : Endian → List ℕ → List ℕ → ℕ → ℕ → ℕ
unfolding add_words
pseudo_csum_v6 e saddr daddr nexthdr l4_len =
    let sum = add_words (add_words 0 saddr) daddr in
    csum_add (csum_add sum (htonl e l4_len)) (htonl e nexthdr)

-- A checksum of 0 is sent as 0xFFFF.
abbrev pub nonzero : ℕ → ℕ
nonzero out = if out == 0 then 0xFFFF else out

unfoldable pub l4_csum_v4 : Endian → List ℕ → ℕ → ℕ → ℕ → ℕ → ℕ → Result ℕ
l4_csum_v4 e bytes saddr_net daddr_net proto l4_len skip_off = do
  sum ← csum_range e bytes l4_len skip_off
  ok (nonzero (csum_fold (csum_add sum (pseudo_csum_v4 e saddr_net daddr_net proto l4_len))))

unfoldable pub l4_csum_v6 : Endian → List ℕ → List ℕ → List ℕ → ℕ → ℕ → ℕ → Result ℕ
l4_csum_v6 e bytes saddr daddr nexthdr l4_len skip_off = do
  sum ← csum_range e bytes l4_len skip_off
  ok (nonzero (csum_fold (csum_add sum (pseudo_csum_v6 e saddr daddr nexthdr l4_len))))

unfoldable pub csum_ok : ℕ → ℕ → Bool
csum_ok computed stored =
    computed == stored || (computed == 0 && stored == 0xFFFF || computed == 0xFFFF && stored == 0)
