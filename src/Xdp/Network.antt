-- ===== src/Xdp/Network.antt =====
-- bpf/xdp_firewall.bpf.c, `caly_parse_l3` as a whole, and the passes over the headers of a tunnel.
use caly_anti.Base.{ℕ, zero, suc, ◌+◌, ◌%◌, Bool, ◌&&◌, ◌||◌, not, ltb, ◌==◌, if◌then◌else◌, List}
use caly_anti.Base.Bits.{test_bit, set_bit}
use caly_anti.Abi.Bits.{f_tunnel_inspect, pkt_tunneled}
use caly_anti.Abi.Config.{FwConfig}
use caly_anti.Abi.Reason.{StatReason}
use caly_anti.Compat.{tunnel_depth_bound}
use caly_anti.Parse.Link.{eth_p_ip, eth_p_ipv6}
use caly_anti.Parse.Packet.{PktCtx}
use caly_anti.Xdp.Frame.{
  Parsed, go, refuse, ◌>>=◌, refuse_if, max_hdr_off, u16, past_end, L3, L4, clear_l3, parse_ip4,
  parse_transport,
}
use caly_anti.Xdp.Frame6.{parse_ip6}
use caly_anti.Xdp.Ports.{is_tunnel_proto}

-- CALY_PARSE_OK and CALY_PARSE_TUNNEL
pub data Layer : Type 0 where
  transport : L4 → Layer
  tunnel : PktCtx → ℕ → ℕ → Layer

-- `no_tunnel: return caly_parse_l4(...);`
unfoldable pub no_tunnel : List ℕ → FwConfig → PktCtx → ℕ → Parsed Layer
unfolding parse_transport
no_tunnel f cfg pkt icmp_tc = do l4 ← parse_transport f cfg pkt icmp_tc; go (transport l4)

abbrev pub option_bytes : Bool → ℕ
option_bytes b = if b then 4 else 0

-- The optional words of a GRE header: checksum, key, sequence number.
abbrev pub gre_len : ℕ → ℕ
gre_len gflags =
    4
    + option_bytes (test_bit gflags 15)
    + option_bytes (test_bit gflags 13)
    + option_bytes (test_bit gflags 12)

-- Source routing is refused.
unfoldable pub gre_sane : List ℕ → PktCtx → Parsed (Unit {0})
gre_sane f pkt = do
  deep ← refuse_if pkt StatReason.drop_tunnel_trunc (ltb max_hdr_off pkt.l4_off)
  short ← refuse_if pkt StatReason.drop_tunnel_trunc (past_end f pkt.l4_off 4)
  refuse_if pkt StatReason.drop_gre_malformed
      (test_bit (u16 f pkt.l4_off) 14 || test_bit (u16 f pkt.l4_off) 11)

-- A version other than 0 or a payload other than IP is no tunnel.
unfoldable pub gre_inner : List ℕ → FwConfig → PktCtx → ℕ → Parsed Layer
unfolding no_tunnel
gre_inner f cfg pkt icmp_tc =
    let gflags = u16 f pkt.l4_off in
    let ethp = u16 f (pkt.l4_off + 2) in
    if not (gflags % 8 == 0) || not (ethp == eth_p_ip) && not (ethp == eth_p_ipv6)
    then no_tunnel f cfg pkt icmp_tc
    else go (tunnel pkt (pkt.l4_off + gre_len gflags) ethp)

unfoldable pub enter_gre : List ℕ → FwConfig → PktCtx → ℕ → Parsed Layer
unfolding gre_sane gre_inner
enter_gre f cfg pkt icmp_tc = gre_sane f pkt >>= λ _. gre_inner f cfg pkt icmp_tc

unfoldable pub enter_tunnel : List ℕ → FwConfig → PktCtx → Bool → ℕ → Parsed Layer
unfolding enter_gre no_tunnel
enter_tunnel f cfg pkt allow icmp_tc =
    if is_tunnel_proto pkt.proto && allow
    then (if pkt.proto == 4
        then go (tunnel pkt pkt.l4_off eth_p_ip)
        else if pkt.proto == 41
        then go (tunnel pkt pkt.l4_off eth_p_ipv6)
        else enter_gre f cfg pkt icmp_tc)
    else no_tunnel f cfg pkt icmp_tc

-- The header of the layer that the ethertype names.
unfoldable pub network_header : List ℕ → FwConfig → PktCtx → ℕ → StatReason → StatReason → Parsed L3
network_header f cfg pkt proto trunc4 trunc6 =
    if proto == eth_p_ip
    then parse_ip4 f cfg pkt trunc4
    else if proto == eth_p_ipv6
    then parse_ip6 f cfg pkt trunc6
    else refuse StatReason.drop_l3_unknown pkt

abbrev pub trunc4 : Bool → StatReason
trunc4 is_inner = if is_inner then StatReason.drop_tunnel_trunc else StatReason.drop_ip4_trunc

abbrev pub trunc6 : Bool → StatReason
trunc6 is_inner = if is_inner then StatReason.drop_tunnel_trunc else StatReason.drop_ip6_trunc

-- The first pass, or one on an inner header.
unfoldable pub parse_network : List ℕ → FwConfig → PktCtx → ℕ → ℕ → Bool → Bool → ℕ → Parsed Layer
unfolding network_header enter_tunnel clear_l3
parse_network f cfg pkt l3_off proto allow is_inner icmp_tc = do
  deep ← refuse_if pkt (trunc4 is_inner) (ltb max_hdr_off l3_off)
  l3 ← network_header f cfg (clear_l3 pkt l3_off) proto (trunc4 is_inner) (trunc6 is_inner)
  enter_tunnel f cfg (record l3.0 { l4_off = l3.1; proto = l3.2 }) allow icmp_tc

-- The loop body: one pass, and the next on what it finds inside.
abbrev pub descend : (PktCtx → ℕ → ℕ → Parsed L4) → Layer → Parsed L4
descend inner (transport l4) = go l4
descend inner (tunnel seen off proto) = inner seen off proto

-- The loop over CALY_TUNNEL_MAX_DEPTH + 1 passes, on the passes left.
unfoldable pub passes : ℕ → ℕ → List ℕ → FwConfig → PktCtx → ℕ → ℕ → ℕ → Parsed L4
passes zero i f cfg pkt off proto icmp_tc = refuse StatReason.drop_tunnel_depth pkt
passes (suc left) i f cfg pkt off proto icmp_tc =
    let tun_max =
      if ltb tunnel_depth_bound cfg.tunnel_max_depth
      then tunnel_depth_bound
      else cfg.tunnel_max_depth in
    let allow = test_bit cfg.flags f_tunnel_inspect && ltb i tun_max in
    let inner = λ (seen : PktCtx) (o p : ℕ).
      passes left (i + 1) f cfg
        (record seen { tunnel_depth = i + 1; flags = set_bit seen.flags pkt_tunneled }) o p
        icmp_tc in
    parse_network f cfg pkt off proto allow (ltb 0 i) icmp_tc >>= descend inner

unfoldable pub parse_layers : List ℕ → FwConfig → PktCtx → ℕ → ℕ → Parsed L4
unfolding passes parse_network
parse_layers f cfg pkt off proto = passes (tunnel_depth_bound + 1) 0 f cfg pkt off proto 0
