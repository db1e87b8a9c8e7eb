-- ===== src/Parse/Ip6.antt =====
-- bpf/parsing.h, `caly_parse_ipv6` and `caly_skip_ip6_exts`.
use caly_anti.Base.{
  ℕ, zero, suc, ◌+◌, ◌*◌, ◌/◌, ◌%◌, ◌^◌, Bool, false, ◌&&◌, ◌||◌, not, ltb, leb, ◌==◌,
  if◌then◌else◌, List, [], ◌∷◌, Option, none, some,
}
use caly_anti.Base.Bits.{test_bit}
use caly_anti.Abi.Bits.{f_drop_rh0}
use caly_anti.Compat.{ip6_ext_bound}
use caly_anti.Compat.Errors.{
  Result, ok, err, ◌>>=◌, l3_unknown, ip6_trunc, ip6_ext_trunc, ip6_ext_depth, ip6_rh0, encrypted,
  no_next,
}
use caly_anti.Parse.{Cursor, pull, peek, avail, load_u8, load_u16, load_u32, need, refuse_if}

pub record Ip6Info : Type 0 where
  pub saddr : List ℕ
  pub daddr : List ℕ
  pub payload_len : ℕ
  pub ext_bytes : ℕ
  pub frag_off : ℕ
  pub nexthdr : ℕ
  pub hop_limit : ℕ
  pub more_frags : Bool
  pub ext_count : ℕ

-- Four words from `p` on.
abbrev pub load_addr : Cursor → ℕ → List ℕ
load_addr c p = load_u32 c p ∷ load_u32 c (p + 4) ∷ load_u32 c (p + 8) ∷ load_u32 c (p + 12) ∷ []

unfoldable pub ip6_info : Cursor → ℕ → Ip6Info
ip6_info c p = record {
  saddr = load_addr c (p + 8);
  daddr = load_addr c (p + 24);
  payload_len = load_u16 c (p + 4);
  ext_bytes = 0;
  frag_off = 0;
  nexthdr = load_u8 c (p + 6);
  hop_limit = load_u8 c (p + 7);
  more_frags = false;
  ext_count = 0;
}

unfoldable pub parse_ipv6 : Cursor → Result (Ip6Info × Cursor)
parse_ipv6 c = do
  ip6 ← need ip6_trunc (pull c 40)
  version ← refuse_if l3_unknown (not (load_u32 c ip6.at / 2 ^ 28 == 6))
  long ←
      refuse_if ip6_trunc
        (not (load_u16 c (ip6.at + 4) == 0) && ltb (avail c) (load_u16 c (ip6.at + 4) + 40))
  ok (ip6_info c ip6.at, ip6.rest)

-- The cases of the `switch` on a next header.
pub data ExtKind : Type 0 where
  sized routing fragment auth esp no_more upper : ExtKind

unfoldable pub ext_kind : ℕ → ExtKind
ext_kind nh =
    if nh == 0 || nh == 60 || nh == 135
    then sized
    else if nh == 43
    then routing
    else if nh == 44
    then fragment
    else if nh == 51
    then auth
    else if nh == 50
    then esp
    else if nh == 59
    then no_more
    else upper

-- The walk over the chain: what it has noted of the packet, the next header that it has reached,
-- the bytes that it has walked, and the cursor.
pub record Walk : Type 0 where
  pub info : Ip6Info
  pub nh : ℕ
  pub walked : ℕ
  pub cursor : Cursor

-- One header of `hlen` bytes: `if (hlen < lo || hlen > hi) return ...; nh = ...; if (!pull) ...`
unfoldable pub ext_advance : Walk → ℕ → ℕ → ℕ → Result Walk
ext_advance w nexthdr hlen hi = do
  bounded ← refuse_if ip6_ext_trunc (ltb hlen 8 || ltb hi hlen)
  ext ← need ip6_ext_trunc (pull w.cursor hlen)
  ok (record w { nh = nexthdr; walked = w.walked + hlen; cursor = ext.rest })

-- The note of a fragment header at `p`.
unfoldable pub note_fragment : Walk → ℕ → Walk
note_fragment w p =
    let fo = load_u16 w.cursor (p + 2) in
    record w { info = record w.info { frag_off = fo / 8; more_frags = test_bit fo 0 } }

-- A fragment header is noted before it is pulled, and its length is fixed.
unfoldable pub fragment_step : Walk → Option ℕ → Walk × Result Walk
unfolding ext_advance note_fragment
fragment_step w none = (w, err ip6_ext_trunc)
fragment_step w (some p) =
    (note_fragment w p, ext_advance (note_fragment w p) (load_u8 w.cursor p) 8 8)

-- The body of one header of the chain.
unfoldable pub ext_step : ExtKind → Walk → ℕ → Walk × Result Walk
unfolding ext_advance fragment_step
ext_step sized w cfg_flags = (
  w,
  do
    p ← need ip6_ext_trunc (peek w.cursor 2)
    ext_advance w (load_u8 w.cursor p) ((load_u8 w.cursor (p + 1) + 1) * 8) 2048,
)
ext_step routing w cfg_flags = (
  w,
  do
    p ← need ip6_ext_trunc (peek w.cursor 4)
    rh0 ← refuse_if ip6_rh0 (load_u8 w.cursor (p + 2) == 0 && test_bit cfg_flags f_drop_rh0)
    ext_advance w (load_u8 w.cursor p) ((load_u8 w.cursor (p + 1) + 1) * 8) 2048,
)
ext_step fragment w cfg_flags = fragment_step w (peek w.cursor 8)
ext_step auth w cfg_flags = (
  w,
  do
    p ← need ip6_ext_trunc (peek w.cursor 12)
    ext_advance w (load_u8 w.cursor p) ((load_u8 w.cursor (p + 1) + 2) * 4) 1024,
)
ext_step _ w cfg_flags = (w, ok w)

-- `info->nexthdr = nh; info->ext_bytes = walked; info->ext_count = (__u8)i;`
abbrev pub store_walk : Walk → ℕ → Ip6Info
store_walk w count = record w.info { nexthdr = w.nh; ext_bytes = w.walked; ext_count = count % 256 }

-- The `switch` after the loop.
unfoldable pub end_at : ExtKind → Ip6Info → Cursor → Ip6Info × Result Cursor
end_at upper info c = (info, ok c)
end_at esp info c = (info, err encrypted)
end_at no_more info c = (info, err no_next)
end_at _ info c = (info, err ip6_ext_depth)

-- A walk that has taken its last round.
unfoldable pub exts_end : Walk → Ip6Info × Result Cursor
unfolding end_at
exts_end w =
    end_at (ext_kind w.nh) (record w.info { nexthdr = w.nh; ext_bytes = w.walked }) w.cursor

-- What follows one header: the return of its error, or the rest of the walk.
unfoldable pub after_ext :
    (Walk → Ip6Info × Result Cursor) → Walk × Result Walk → Ip6Info × Result Cursor
after_ext rest (noted, err e) = (noted.info, err e)
after_ext rest (noted, ok w) = rest w

-- The `switch` of a round: one more header, or the end of the chain.
unfoldable pub exts_round :
    ExtKind → ℕ → ℕ → (Walk → Ip6Info × Result Cursor) → Walk → Ip6Info × Result Cursor
unfolding after_ext ext_step
exts_round esp i cfg_flags rest w = (store_walk w i, err encrypted)
exts_round no_more i cfg_flags rest w = (store_walk w i, err no_next)
exts_round upper i cfg_flags rest w = (store_walk w i, ok w.cursor)
exts_round kind i cfg_flags rest w = after_ext rest (ext_step kind w cfg_flags)

-- The unrolled loop, on the rounds left.
unfoldable pub exts_loop : ℕ → ℕ → ℕ → ℕ → Walk → Ip6Info × Result Cursor
unfolding exts_end exts_round
exts_loop zero i ext_max cfg_flags w = exts_end w
exts_loop (suc rounds) i ext_max cfg_flags w =
    let rest = λ (w' : Walk).
      exts_loop rounds (i + 1) ext_max cfg_flags
        (record w' { info = record w'.info { ext_count = (i + 1) % 256 } }) in
    if leb ext_max i then exts_end w else exts_round (ext_kind w.nh) i cfg_flags rest w

unfoldable pub skip_ip6_exts : Cursor → ℕ → ℕ → Ip6Info → Ip6Info × Result Cursor
skip_ip6_exts c cfg_flags ext_max info =
    exts_loop ip6_ext_bound 0 (if ltb ip6_ext_bound ext_max then ip6_ext_bound else ext_max)
      cfg_flags (record { info = info; nh = info.nexthdr; walked = 0; cursor = c })
