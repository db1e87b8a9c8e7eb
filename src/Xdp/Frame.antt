-- ===== src/Xdp/Frame.antt =====
-- bpf/xdp_firewall.bpf.c, `caly_parse_l4` and the IPv4 part of `caly_parse_l3`, on the bytes of a
-- frame. A field in network order is the number that it has on the wire.
use caly_anti.Base.{
  ℕ, ◌+◌, ◌-◌, ◌*◌, ◌/◌, ◌%◌, Bool, true, false, ◌&&◌, ◌||◌, not, ltb, ◌==◌, if◌then◌else◌, List,
  [], ◌∷◌, get_or, length, min,
}
use caly_anti.Base.Bits.{test_bit, set_bit, clear_bit}
use caly_anti.Abi.Bits.{
  f_anomaly_checks, f_drop_ip4_options, f_ttl_check, f_drop_all_frags, f_frag_checks, pkt_frag,
  pkt_frag_first, pkt_l4_trunc,
}
use caly_anti.Abi.Config.{FwConfig}
use caly_anti.Abi.Reason.{StatReason}
use caly_anti.Parse.Key.{af_inet, zero_words}
use caly_anti.Parse.Packet.{PktCtx, is_icmp}

-- A step of the parser: it goes on, or it returns a reason, leaving the context as it is then.
pub data Parsed {ℓ} (A : Type ℓ) : Type ℓ where
  go : A → Parsed A
  refuse : StatReason → PktCtx → Parsed A

infixl 5 ◌>>=◌
abbrev pub ◌>>=◌ {ℓ κ} : {A : Type ℓ} {B : Type κ} → Parsed A → (A → Parsed B) → Parsed B
go a >>= f = f a
refuse reason pkt >>= f = refuse reason pkt

-- `if (bad) return reason;`
abbrev pub refuse_if : PktCtx → StatReason → Bool → Parsed (Unit {0})
refuse_if pkt reason true = refuse reason pkt
refuse_if pkt reason false = go tt

abbrev pub max_hdr_off : ℕ
max_hdr_off = 512

abbrev pub u8 : List ℕ → ℕ → ℕ
u8 f p = get_or f p 0

abbrev pub u16 : List ℕ → ℕ → ℕ
u16 f p = u8 f p * 256 + u8 f (p + 1)

abbrev pub u32 : List ℕ → ℕ → ℕ
u32 f p = u16 f p * 65536 + u16 f (p + 2)

-- `(void *)(h + 1) > data_end`, for a header of n bytes
abbrev pub past_end : List ℕ → ℕ → ℕ → Bool
past_end f p n = ltb (length f) (p + n)

-- A packet that is parsed, and the type and code of its ICMP message.
abbrev pub L4 : Type 0
L4 = PktCtx × ℕ

-- The smallest data offset that the configuration asks for.
unfoldable pub min_doff : FwConfig → ℕ
min_doff cfg = if ltb cfg.tcp_min_doff 5 || ltb 15 cfg.tcp_min_doff then 5 else cfg.tcp_min_doff

unfoldable pub tcp_l4 : List ℕ → FwConfig → PktCtx → ℕ → Parsed L4
unfolding min_doff
tcp_l4 f cfg pkt icmp_tc = do
  let off = pkt.l4_off
  short ← refuse_if pkt StatReason.drop_l4_trunc (past_end f off 20)
  let seen = record pkt { sport = u16 f off; dport = u16 f (off + 2); tcp_flags = u8 f (off + 13) }
  let doff = u8 f (off + 12) / 16
  let strict = test_bit cfg.flags f_anomaly_checks
  small ← refuse_if seen StatReason.drop_tcp_doff (strict && ltb doff (min_doff cfg))
  long ← refuse_if seen StatReason.drop_tcp_doff (strict && ltb pkt.pkt_len (off + doff * 4))
  go (record seen { payload_off = off + (if ltb doff 5 then 5 else doff) * 4 }, icmp_tc)

unfoldable pub udp_l4 : List ℕ → PktCtx → ℕ → Parsed L4
udp_l4 f pkt icmp_tc = do
  let off = pkt.l4_off
  short ← refuse_if pkt StatReason.drop_l4_trunc (past_end f off 8)
  go (record pkt { sport = u16 f off; dport = u16 f (off + 2); payload_off = off + 8 }, icmp_tc)

unfoldable pub icmp_l4 : List ℕ → PktCtx → Parsed L4
icmp_l4 f pkt = do
  let off = pkt.l4_off
  short ← refuse_if pkt StatReason.drop_l4_trunc (past_end f off 8)
  go (record pkt { payload_off = off + 8 }, u8 f off * 256 + u8 f (off + 1))

unfoldable pub parse_transport : List ℕ → FwConfig → PktCtx → ℕ → Parsed L4
unfolding tcp_l4 udp_l4 icmp_l4
parse_transport f cfg pkt icmp_tc =
    if ltb max_hdr_off pkt.l4_off
    then refuse StatReason.drop_l4_trunc pkt
    else if test_bit pkt.flags pkt_frag && not (pkt.frag_off == 0)
    then go
        (record pkt { flags = set_bit pkt.flags pkt_l4_trunc; payload_off = pkt.l4_off }, icmp_tc)
    else if pkt.proto == 6
    then tcp_l4 f cfg pkt icmp_tc
    else if pkt.proto == 17
    then udp_l4 f pkt icmp_tc
    else if is_icmp pkt.proto
    then icmp_l4 f pkt
    else go (record pkt { payload_off = pkt.l4_off }, icmp_tc)

-- What an earlier pass has stored is cleared.
unfoldable pub clear_l3 : PktCtx → ℕ → PktCtx
clear_l3 pkt l3_off = record pkt {
  l3_off = l3_off;
  saddr = zero_words;
  daddr = zero_words;
  sport = 0;
  dport = 0;
  tcp_flags = 0;
  frag_off = 0;
  flags = clear_bit (clear_bit (clear_bit pkt.flags pkt_frag) pkt_frag_first) pkt_l4_trunc;
}

-- The offset of a fragment, and whether it is the first.
unfoldable pub mark_fragment : PktCtx → ℕ → PktCtx
mark_fragment pkt frag_off =
    let flags = set_bit pkt.flags pkt_frag in
    record pkt {
      frag_off = frag_off;
      flags = if frag_off == 0 then set_bit flags pkt_frag_first else flags;
    }

-- A context with the offset and the protocol of what follows the header.
abbrev pub L3 : Type 0
L3 = PktCtx × ℕ × ℕ

unfoldable pub ip4_fragment : List ℕ → FwConfig → PktCtx → Parsed PktCtx
unfolding mark_fragment
ip4_fragment f cfg pkt =
    let raw = u16 f (pkt.l3_off + 6) in
    let frag_off = raw % 0x2000 in
    let more = test_bit raw 13 in
    let marked = mark_fragment pkt frag_off in
    let strict = test_bit cfg.flags f_frag_checks in
    let payload = u16 f (pkt.l3_off + 2) - u8 f pkt.l3_off % 16 * 4 in
    if not (frag_off == 0) || more
    then (do
      policy ← refuse_if marked StatReason.drop_frag_policy (test_bit cfg.flags f_drop_all_frags)
      one ← refuse_if marked StatReason.drop_frag_off_one (strict && frag_off == 1)
      tiny ←
          refuse_if marked StatReason.drop_frag_tiny
            (strict && more && not (cfg.frag_min_bytes == 0) && ltb payload cfg.frag_min_bytes)
      go marked)
    else go pkt

-- `(flags & CALY_F_TTL_CHECK) && cfg->ip_min_ttl && ttl < cfg->ip_min_ttl`
unfoldable pub ttl_low : FwConfig → ℕ → Bool
ttl_low cfg ttl =
    test_bit cfg.flags f_ttl_check && not (cfg.ip_min_ttl == 0) && ltb ttl cfg.ip_min_ttl

-- The lengths that the header claims.
unfoldable pub ip4_sane : List ℕ → FwConfig → PktCtx → StatReason → Parsed (Unit {0})
ip4_sane f cfg pkt trunc = do
  let p = pkt.l3_off
  let ihl = u8 f p % 16
  let tot_len = u16 f (p + 2)
  short ← refuse_if pkt trunc (past_end f p 20)
  version ← refuse_if pkt StatReason.drop_l3_unknown (not (u8 f p / 16 == 4))
  small ← refuse_if pkt StatReason.drop_ip4_ihl (ltb ihl 5)
  total ← refuse_if pkt StatReason.drop_ip4_totlen (ltb tot_len (ihl * 4))
  refuse_if pkt StatReason.drop_ip4_totlen
      (test_bit cfg.flags f_anomaly_checks && ltb pkt.pkt_len (p + tot_len))

-- What the configuration does not allow.
unfoldable pub ip4_allowed : List ℕ → FwConfig → PktCtx → Parsed (Unit {0})
unfolding ttl_low
ip4_allowed f cfg pkt = do
  let p = pkt.l3_off
  options ←
      refuse_if pkt StatReason.drop_ip4_options
        (ltb 5 (u8 f p % 16) && test_bit cfg.flags f_drop_ip4_options)
  zero_ttl ← refuse_if pkt StatReason.drop_ttl_zero (u8 f (p + 8) == 0)
  refuse_if pkt StatReason.drop_ttl_low (ttl_low cfg (u8 f (p + 8)))

unfoldable pub parse_ip4 : List ℕ → FwConfig → PktCtx → StatReason → Parsed L3
unfolding ip4_sane ip4_allowed ip4_fragment
parse_ip4 f cfg pkt trunc = do
  let p = pkt.l3_off
  let ihl = u8 f p % 16
  sane ← ip4_sane f cfg pkt trunc
  allowed ← ip4_allowed f cfg pkt
  seen ← ip4_fragment f cfg (record pkt {
    family = af_inet;
    saddr = u32 f (p + 12) ∷ 0 ∷ 0 ∷ 0 ∷ [];
    daddr = u32 f (p + 16) ∷ 0 ∷ 0 ∷ 0 ∷ [];
  })
  go (record seen { l4_len = min (u16 f (p + 2) - ihl * 4) 0xFFFF }, p + ihl * 4, u8 f (p + 9))
