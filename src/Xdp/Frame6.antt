-- ===== src/Xdp/Frame6.antt =====
-- bpf/xdp_firewall.bpf.c, the IPv6 part of `caly_parse_l3`: the header and its extension headers.
use caly_anti.Base.{
  ℕ, zero, suc, ◌+◌, ◌-◌, ◌*◌, ◌/◌, Bool, ◌&&◌, ◌||◌, not, ltb, leb, ◌==◌, if◌then◌else◌, List, [],
  ◌∷◌, min,
}
use caly_anti.Base.Bits.{test_bit}
use caly_anti.Abi.Bits.{f_anomaly_checks, f_drop_rh0, f_drop_all_frags, f_frag_checks}
use caly_anti.Abi.Config.{FwConfig}
use caly_anti.Abi.Reason.{StatReason}
use caly_anti.Compat.{ip6_ext_bound}
use caly_anti.Parse.Key.{af_inet6}
use caly_anti.Parse.Packet.{PktCtx}
use caly_anti.Xdp.Frame.{
  Parsed, go, ◌>>=◌, refuse_if, max_hdr_off, u8, u16, u32, past_end, mark_fragment, L3, ttl_low,
}

unfoldable pub ip6_is_ext : ℕ → Bool
ip6_is_ext nh = nh == 0 || nh == 43 || nh == 44 || nh == 60 || nh == 51 || nh == 135

-- The context, the next header and its offset.
pub record ExtWalk : Type 0 where
  pub pkt : PktCtx
  pub nh : ℕ
  pub off : ℕ

unfoldable pub ext_fragment : List ℕ → FwConfig → ExtWalk → Parsed PktCtx
unfolding mark_fragment
ext_fragment f cfg w = do
  let frag_off = u16 f (w.off + 2) / 8
  let marked = mark_fragment w.pkt frag_off
  policy ← refuse_if marked StatReason.drop_frag_policy (test_bit cfg.flags f_drop_all_frags)
  one ←
      refuse_if marked StatReason.drop_frag_off_one
        (test_bit cfg.flags f_frag_checks && frag_off == 1)
  go marked

-- The bytes of a header that is no routing and no fragment header.
abbrev pub ext_bytes : ℕ → ℕ → ℕ
ext_bytes nh hdrlen = if nh == 51 then (hdrlen + 2) * 4 else (hdrlen + 1) * 8

unfoldable pub ext_header : List ℕ → FwConfig → ExtWalk → Parsed (PktCtx × ℕ)
unfolding ext_fragment
ext_header f cfg w =
    if w.nh == 43
    then (do
      rh0 ←
          refuse_if w.pkt StatReason.drop_ip6_rh0
            (test_bit cfg.flags f_drop_rh0 && u8 f (w.off + 2) == 0)
      go (w.pkt, (u8 f (w.off + 1) + 1) * 8))
    else if w.nh == 44
    then (do marked ← ext_fragment f cfg w; go (marked, 8))
    else go (w.pkt, ext_bytes w.nh (u8 f (w.off + 1)))

unfoldable pub ext_round : List ℕ → FwConfig → ExtWalk → Parsed ExtWalk
unfolding ext_header
ext_round f cfg w = do
  deep ← refuse_if w.pkt StatReason.drop_ip6_ext_depth (ltb max_hdr_off w.off)
  short ← refuse_if w.pkt StatReason.drop_ip6_ext_trunc (past_end f w.off 8)
  header ← ext_header f cfg w
  go (record {
    pkt = header.0;
    nh = u8 f w.off;
    off = w.off + (if ltb header.1 8 then 8 else header.1);
  })

-- The unrolled loop, on the rounds left.
unfoldable pub ext_walk : ℕ → ℕ → ℕ → List ℕ → FwConfig → ExtWalk → Parsed ExtWalk
ext_walk zero i ext_max f cfg w = go w
ext_walk (suc rounds) i ext_max f cfg w =
    let rest = λ (w' : ExtWalk). ext_walk rounds (i + 1) ext_max f cfg w' in
    if leb ext_max i
    then go w
    else if not (ip6_is_ext w.nh)
    then go w
    else ext_round f cfg w >>= rest

abbrev pub clamp_ext : FwConfig → ℕ
clamp_ext cfg = if ltb ip6_ext_bound cfg.ip6_ext_max then ip6_ext_bound else cfg.ip6_ext_max

-- l4_len, of what the payload length leaves after the headers of `used` bytes.
unfoldable pub left_after : ℕ → ℕ → ℕ
left_after plen used =
    if not (plen == 0) && leb 40 used && ltb used (plen + 40)
    then min (plen + 40 - used) 0xFFFF
    else 0

unfoldable pub ip6_sane : List ℕ → FwConfig → PktCtx → StatReason → Parsed (Unit {0})
unfolding ttl_low
ip6_sane f cfg pkt trunc = do
  let p = pkt.l3_off
  let plen = u16 f (p + 4)
  short ← refuse_if pkt trunc (past_end f p 40)
  version ← refuse_if pkt StatReason.drop_l3_unknown (not (u8 f p / 16 == 6))
  zero_ttl ← refuse_if pkt StatReason.drop_ttl_zero (u8 f (p + 7) == 0)
  low_ttl ← refuse_if pkt StatReason.drop_ttl_low (ttl_low cfg (u8 f (p + 7)))
  refuse_if pkt trunc
      (test_bit cfg.flags f_anomaly_checks && not (plen == 0) && ltb pkt.pkt_len (p + 40 + plen))

-- The chain of extension headers has to end, and not too far into the frame.
unfoldable pub exts_ended : ExtWalk → Parsed (Unit {0})
exts_ended w = do
  more ← refuse_if w.pkt StatReason.drop_ip6_ext_depth (ip6_is_ext w.nh)
  refuse_if w.pkt StatReason.drop_ip6_ext_depth (ltb max_hdr_off w.off)

unfoldable pub parse_ip6 : List ℕ → FwConfig → PktCtx → StatReason → Parsed L3
unfolding ip6_sane ext_walk exts_ended left_after
parse_ip6 f cfg pkt trunc = do
  let p = pkt.l3_off
  sane ← ip6_sane f cfg pkt trunc
  let seen = record pkt {
    family = af_inet6;
    saddr = u32 f (p + 8) ∷ u32 f (p + 12) ∷ u32 f (p + 16) ∷ u32 f (p + 20) ∷ [];
    daddr = u32 f (p + 24) ∷ u32 f (p + 28) ∷ u32 f (p + 32) ∷ u32 f (p + 36) ∷ [];
  }
  w ←
      ext_walk ip6_ext_bound 0 (clamp_ext cfg) f cfg
        (record { pkt = seen; nh = u8 f (p + 6); off = p + 40 })
  ended ← exts_ended w
  go (record w.pkt { l4_len = left_after (u16 f (p + 4)) (w.off - p) }, w.off, w.nh)
