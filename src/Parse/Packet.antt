-- ===== src/Parse/Packet.antt =====
-- bpf/parsing.h: a whole frame into `struct pkt_ctx`, which every later stage reads.
use caly_anti.Base.{
  ℕ, ◌-◌, Bool, ◌&&◌, ◌||◌, not, leb, ◌==◌, if◌then◌else◌, List, [], ◌∷◌, length, Option, none,
  some, min,
}
use caly_anti.Base.Bits.{set_bit}
use caly_anti.Abi.Bits.{pkt_frag, pkt_frag_first, pkt_l4_trunc}
use caly_anti.Compat.Errors.{ParseErr, Result, ok, err, l4_unknown, frag_no_l4}
use caly_anti.Parse.{Cursor, offset}
use caly_anti.Parse.L4.{L4Info, l4_zero, parse_tcp, parse_udp, parse_icmp, icmp_pack}
use caly_anti.Parse.Tunnel.{proto_is_tunnel}
use caly_anti.Parse.Key.{copy_words, zero_words}

pub record PktCtx : Type 0 where
  pub ts_ns : ℕ
  pub saddr : List ℕ
  pub daddr : List ℕ
  pub l3_off : ℕ
  pub l4_off : ℕ
  pub payload_off : ℕ
  pub pkt_len : ℕ
  pub ifindex : ℕ
  pub family : ℕ
  pub proto : ℕ
  pub vlan_depth : ℕ
  pub tunnel_depth : ℕ
  pub frag_off : ℕ
  pub tcp_flags : ℕ
  pub flags : ℕ
  pub sport : ℕ
  pub dport : ℕ
  pub eth_proto : ℕ
  pub l4_len : ℕ

unfoldable pub pkt_ctx_reset : List ℕ → ℕ → ℕ → PktCtx
pkt_ctx_reset bytes ifindex now_ns = record {
  ts_ns = now_ns;
  saddr = zero_words;
  daddr = zero_words;
  l3_off = 0;
  l4_off = 0;
  payload_off = 0;
  pkt_len = length bytes;
  ifindex = ifindex;
  family = 0;
  proto = 0;
  vlan_depth = 0;
  tunnel_depth = 0;
  frag_off = 0;
  tcp_flags = 0;
  flags = 0;
  sport = 0;
  dport = 0;
  eth_proto = 0;
  l4_len = 0;
}

unfoldable pub pkt_set_v4_addrs : PktCtx → ℕ → ℕ → PktCtx
pkt_set_v4_addrs pkt saddr_net daddr_net = record pkt {
  saddr = saddr_net ∷ 0 ∷ 0 ∷ 0 ∷ [];
  daddr = daddr_net ∷ 0 ∷ 0 ∷ 0 ∷ [];
}

unfoldable pub pkt_set_v6_addrs : PktCtx → List ℕ → List ℕ → PktCtx
pkt_set_v6_addrs pkt saddr daddr = record pkt { saddr = copy_words saddr; daddr = copy_words daddr }

abbrev pub is_icmp : ℕ → Bool
is_icmp proto = proto == 1 || proto == 58

-- The `switch` on the protocol.
unfoldable pub parse_l4 : Cursor → ℕ → ℕ → Option (L4Info × Result Cursor)
parse_l4 c proto min_doff =
    if proto == 6
    then some (parse_tcp c min_doff l4_zero)
    else if proto == 17
    then some (parse_udp c l4_zero)
    else if is_icmp proto
    then some (parse_icmp c l4_zero)
    else none

-- `if (err == CALY_ERR_L4_TRUNC) pkt->flags |= CALY_PKT_F_L4_TRUNC;`
abbrev pub mark_trunc : ParseErr → ℕ → ℕ
mark_trunc ParseErr.l4_trunc flags = set_bit flags pkt_l4_trunc
mark_trunc _ flags = flags

-- `if (err != CALY_OK) { ... }`
unfoldable pub store_l4_err : PktCtx → ℕ → L4Info → ParseErr → PktCtx
store_l4_err pkt proto l4 e = record pkt {
  flags = mark_trunc e pkt.flags;
  sport = if is_icmp proto then 0 else l4.sport;
  dport = if is_icmp proto then 0 else l4.dport;
  tcp_flags = if proto == 6 then l4.tcp_flags else pkt.tcp_flags;
}

unfoldable pub store_l4 : PktCtx → Cursor → ℕ → L4Info → PktCtx
store_l4 pkt rest proto l4 = record pkt {
  sport = if is_icmp proto then 0 else l4.sport;
  dport = if is_icmp proto then 0 else l4.dport;
  payload_off = offset rest;
  tcp_flags =
      if proto == 6
      then l4.tcp_flags
      else if is_icmp proto
      then icmp_pack l4.icmp_type l4.icmp_code
      else pkt.tcp_flags;
  l4_len = if leb pkt.l4_off pkt.pkt_len then min (pkt.pkt_len - pkt.l4_off) 0xFFFF else pkt.l4_len;
}

-- What follows the parser of the protocol, if there is one.
unfoldable pub after_l4 : PktCtx → ℕ → Option (L4Info × Result Cursor) → PktCtx × Result (Unit {0})
unfolding store_l4_err store_l4
after_l4 pkt proto none = (pkt, err l4_unknown)
after_l4 pkt proto (some (l4, err e)) = (store_l4_err pkt proto l4 e, err e)
after_l4 pkt proto (some (l4, ok rest)) = (store_l4 pkt rest proto l4, ok tt)

unfoldable pub pkt_fill_l4 : PktCtx → Cursor → ℕ → ℕ → Bool → PktCtx × Result (Unit {0})
unfolding parse_l4 after_l4
pkt_fill_l4 pkt c proto min_doff no_l4 =
    let seen = record pkt { proto = proto; l4_off = offset c } in
    if no_l4
    then (
      record seen { sport = 0; dport = 0; flags = set_bit seen.flags pkt_l4_trunc },
      err frag_no_l4,
    )
    else after_l4 seen proto (parse_l4 c proto min_doff)

pub record L3Result : Type 0 where
  pub proto : ℕ
  pub is_tunnel : Bool
  pub frag_no_l4 : Bool

-- The flags of a fragment.
abbrev pub mark_frag : ℕ → Bool → ℕ → ℕ
mark_frag frag_off more_frags flags =
    if not (frag_off == 0) || more_frags
    then (if frag_off == 0
        then set_bit (set_bit flags pkt_frag) pkt_frag_first
        else set_bit flags pkt_frag)
    else flags

abbrev pub l3_result : ℕ → ℕ → Bool → L3Result
l3_result proto frag_off more_frags = record {
  proto = proto;
  is_tunnel = frag_off == 0 && not more_frags && proto_is_tunnel proto;
  frag_no_l4 = not (frag_off == 0);
}
