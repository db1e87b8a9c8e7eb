-- ===== src/Parse/Frame.antt =====
-- bpf/parsing.h: the layers of a frame in turn, and `caly_parse_packet`, the entry point.
use caly_anti.Base.{
  ℕ, zero, suc, ◌+◌, Bool, true, false, ◌&&◌, ltb, ◌==◌, if◌then◌else◌, List, Option, none, some,
}
use caly_anti.Base.Bits.{test_bit, set_bit}
use caly_anti.Abi.Bits.{f_tunnel_inspect, pkt_tunneled, pkt_vlan}
use caly_anti.Abi.Config.{FwConfig}
use caly_anti.Compat.{
  clamp_vlan_depth, clamp_ip6_ext, vlan_depth_bound, ip6_ext_bound, tunnel_depth_bound,
}
use caly_anti.Compat.Errors.{
  ParseErr, parse_err_benign, Result, ok, err, l3_unknown, no_next, tunnel_depth,
}
use caly_anti.Parse.{Cursor, cursor_init, offset}
use caly_anti.Parse.Link.{Link, parse_eth, eth_p_ip, eth_p_ipv6, eth_p_arp}
use caly_anti.Parse.Ip4.{Ip4Info, parse_ipv4}
use caly_anti.Parse.Ip6.{Ip6Info, parse_ipv6, skip_ip6_exts}
use caly_anti.Parse.Tunnel.{tunnel_inspect}
use caly_anti.Parse.Key.{af_inet, af_inet6}
use caly_anti.Parse.Packet.{
  PktCtx, pkt_ctx_reset, pkt_set_v4_addrs, pkt_set_v6_addrs, pkt_fill_l4, L3Result, mark_frag,
  l3_result,
}

-- `cfg ? cfg->flags : 0`, and the like: the configuration is a pointer that may be null.
abbrev pub cfg_flags : Option FwConfig → ℕ
cfg_flags none = 0
cfg_flags (some cfg) = cfg.flags

abbrev pub cfg_ext_max : Option FwConfig → ℕ
cfg_ext_max none = ip6_ext_bound
cfg_ext_max (some cfg) = clamp_ip6_ext cfg.ip6_ext_max

abbrev pub cfg_max_vlan : Option FwConfig → ℕ
cfg_max_vlan none = vlan_depth_bound
cfg_max_vlan (some cfg) = clamp_vlan_depth cfg.vlan_max_depth

abbrev pub cfg_min_doff : Option FwConfig → ℕ
cfg_min_doff none = 5
cfg_min_doff (some cfg) = cfg.tcp_min_doff

-- A stage of the parser: the packet as it leaves it, and its result or its error.
abbrev pub Stage : Type 0 → Type 0
Stage A = PktCtx × Result A

unfoldable pub store_l3v4 : PktCtx → Result (Ip4Info × Cursor) → Stage (L3Result × Cursor)
store_l3v4 pkt (err e) = (pkt, err e)
store_l3v4 pkt (ok (ip, rest)) = (
  record (pkt_set_v4_addrs pkt ip.saddr ip.daddr) {
    frag_off = ip.frag_off;
    flags = mark_frag ip.frag_off ip.more_frags pkt.flags;
  },
  ok (l3_result ip.protocol ip.frag_off ip.more_frags, rest),
)

unfoldable pub parse_l3v4 : PktCtx → Cursor → Option FwConfig → Stage (L3Result × Cursor)
unfolding store_l3v4
parse_l3v4 pkt c cfg =
    store_l3v4 (record pkt { family = af_inet; eth_proto = eth_p_ip; l3_off = offset c })
      (parse_ipv4 c (cfg_flags cfg))

-- `if (err == CALY_ERR_ENCRYPTED || err == CALY_ERR_NO_NEXT) pkt->proto = ip6.nexthdr;`
abbrev pub proto_at_end : ParseErr → ℕ → ℕ → ℕ
proto_at_end ParseErr.encrypted nexthdr proto = nexthdr
proto_at_end ParseErr.no_next nexthdr proto = nexthdr
proto_at_end _ nexthdr proto = proto

unfoldable pub store_exts : PktCtx → Ip6Info × Result Cursor → Stage (L3Result × Cursor)
store_exts pkt (ip6, walked) =
    let noted = record pkt {
      frag_off = ip6.frag_off;
      flags = mark_frag ip6.frag_off ip6.more_frags pkt.flags;
    } in
    elim walked [
      | err e ↦ (record noted { proto = proto_at_end e ip6.nexthdr noted.proto }, err e)
      | ok rest ↦ (noted, ok (l3_result ip6.nexthdr ip6.frag_off ip6.more_frags, rest))
    ]

unfoldable pub store_l3v6 :
    PktCtx → Option FwConfig → Result (Ip6Info × Cursor) → Stage (L3Result × Cursor)
unfolding store_exts
store_l3v6 pkt cfg (err e) = (pkt, err e)
store_l3v6 pkt cfg (ok (ip6, c)) =
    store_exts (pkt_set_v6_addrs pkt ip6.saddr ip6.daddr)
      (skip_ip6_exts c (cfg_flags cfg) (cfg_ext_max cfg) ip6)

unfoldable pub parse_l3v6 : PktCtx → Cursor → Option FwConfig → Stage (L3Result × Cursor)
unfolding store_l3v6
parse_l3v6 pkt c cfg =
    store_l3v6 (record pkt { family = af_inet6; eth_proto = eth_p_ipv6; l3_off = offset c }) cfg
      (parse_ipv6 c)

-- `r.is_tunnel && (cflags & CALY_F_TUNNEL_INSPECT) && pkt->tunnel_depth < CALY_TUNNEL_MAX_DEPTH`
abbrev pub descends : PktCtx → Option FwConfig → L3Result → Bool
descends pkt cfg r =
    r.is_tunnel
    && test_bit (cfg_flags cfg) f_tunnel_inspect
    && ltb pkt.tunnel_depth tunnel_depth_bound

-- The descent into a tunnel: the next round, or the return of the error, or `fill`.
unfoldable pub after_tunnel :
    PktCtx
    → (PktCtx → Cursor → Bool → Stage (Unit {0}))
    → Stage (Unit {0})
    → Result (Bool × Cursor)
    → Stage (Unit {0})
after_tunnel pkt again fill (ok (inner_v6, c)) =
    again
      (record pkt { tunnel_depth = pkt.tunnel_depth + 1; flags = set_bit pkt.flags pkt_tunneled }) c
      inner_v6
after_tunnel pkt again fill (err e) = if parse_err_benign e then fill else (pkt, err e)

-- One round, after its L3 header.
unfoldable pub after_l3 :
    Option FwConfig
    → (PktCtx → Cursor → Bool → Stage (Unit {0}))
    → Stage (L3Result × Cursor)
    → Stage (Unit {0})
unfolding after_tunnel
after_l3 cfg again (pkt, err e) = (pkt, err e)
after_l3 cfg again (pkt, ok (r, c)) =
    let fill = pkt_fill_l4 pkt c r.proto (cfg_min_doff cfg) r.frag_no_l4 in
    if descends pkt cfg r
    then after_tunnel pkt again fill (tunnel_inspect c r.proto pkt.tunnel_depth)
    else fill

-- The unrolled loop, on the rounds left.
unfoldable pub l3_loop : ℕ → Option FwConfig → PktCtx → Cursor → Bool → Stage (Unit {0})
unfolding after_l3
l3_loop zero cfg pkt c is_v6 = (pkt, err tunnel_depth)
l3_loop (suc rounds) cfg pkt c is_v6 =
    after_l3 cfg (λ (p : PktCtx) (d : Cursor) (inner : Bool). l3_loop rounds cfg p d inner)
      (if is_v6 then parse_l3v6 pkt c cfg else parse_l3v4 pkt c cfg)

unfoldable pub parse_l3_and_l4 : PktCtx → Cursor → Option FwConfig → Bool → Stage (Unit {0})
parse_l3_and_l4 pkt c cfg is_v6 = l3_loop (tunnel_depth_bound + 1) cfg pkt c is_v6

-- What follows the Ethernet header.
unfoldable pub after_eth : PktCtx → Option FwConfig → Result Link → Stage (Unit {0})
after_eth pkt cfg (err e) = (pkt, err e)
after_eth pkt cfg (ok l) =
    let tagged = record pkt {
      vlan_depth = l.depth;
      eth_proto = l.proto;
      flags = if l.depth == 0 then pkt.flags else set_bit pkt.flags pkt_vlan;
    } in
    if l.proto == eth_p_ip
    then parse_l3_and_l4 tagged l.cursor cfg false
    else if l.proto == eth_p_ipv6
    then parse_l3_and_l4 tagged l.cursor cfg true
    else if l.proto == eth_p_arp
    then (record tagged { eth_proto = eth_p_arp }, err no_next)
    else (tagged, err l3_unknown)

unfoldable pub parse_packet : List ℕ → ℕ → ℕ → Option FwConfig → Stage (Unit {0})
unfolding after_eth
parse_packet bytes ifindex now_ns cfg =
    after_eth (pkt_ctx_reset bytes ifindex now_ns) cfg
      (parse_eth (cursor_init bytes) (cfg_max_vlan cfg))
