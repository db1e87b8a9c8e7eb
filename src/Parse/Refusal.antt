-- ===== src/Parse/Refusal.antt =====
-- What the parser makes of tunnels and of ICMP.
use caly_anti.Base.{
  ℕ, ◌+◌, ◌%◌, ◌≤◌, ◌≡◌, refl, arith, Bool, true, false, ◌&&◌, ◌==◌, length, Option, none, some,
  List,
}
use caly_anti.Base.Bits.{test_bit}
use caly_anti.Abi.Bits.{f_tunnel_inspect}
use caly_anti.Abi.Config.{FwConfig}
use caly_anti.Compat.Errors.{Result, ok, err, l4_unknown}
use caly_anti.Parse.{Cursor, cursor_init, load_u16, load_u8, offset}
use caly_anti.Parse.Link.{eth_proto_is_vlan, eth_p_ip}
use caly_anti.Parse.Ip4.{ip4_info}
use caly_anti.Parse.L4.{L4Info, l4_zero, parse_icmp}
use caly_anti.Parse.Tunnel.{proto_is_tunnel}
use caly_anti.Parse.Packet.{
  PktCtx, pkt_ctx_reset, pkt_set_v4_addrs, is_icmp, parse_l4, store_l4, store_l4_err, after_l4,
  pkt_fill_l4,
}
use caly_anti.Parse.Frame.{
  cfg_flags, cfg_max_vlan, cfg_min_doff, store_l3v4, parse_l3v4, after_l3, l3_loop, parse_l3_and_l4,
  after_eth, parse_packet,
}
use caly_anti.Parse.Verdict.{parse_eth_plain, parse_ipv4_plain}

-- An IPv4 packet without tags, options or fragments that carries IPIP, 6in4 or GRE.
pub record IsTunnel4 (bytes : List ℕ) : Type 0 where
  pub headers_inside : 34 ≤ length bytes
  pub ethertype : load_u16 (cursor_init bytes) 12 ≡ eth_p_ip
  pub version_ihl : load_u8 (cursor_init bytes) 14 ≡ 0x45
  pub tot_len_ge : 20 ≤ load_u16 (cursor_init bytes) 16
  pub tot_len_inside : 14 + load_u16 (cursor_init bytes) 16 ≤ length bytes
  pub first : load_u16 (cursor_init bytes) 20 % 0x2000 ≡ 0
  pub last : test_bit (load_u16 (cursor_init bytes) 20) 13 ≡ false
  pub tunnel : proto_is_tunnel (load_u8 (cursor_init bytes) 23) ≡ true

and_false : (b : Bool) → (b && false) ≡ false
and_false true = refl
and_false false = refl

tunnel_unknown :
    (c : Cursor) (proto min_doff : ℕ)
    → proto_is_tunnel proto ≡ true
    → parse_l4 c proto min_doff ≡ none
unfolding parse_l4 proto_is_tunnel
tunnel_unknown c proto min_doff h =
    let tcp : (proto == 6) ≡ false = ground arith in
    let udp : (proto == 17) ≡ false = ground arith in
    let icmp : is_icmp proto ≡ false = ground arith in rw (tcp, udp, icmp)

-- A tunnel in an IPv4 packet without tags, options or fragments is not looked into: whatever the
-- configuration says of CALY_F_TUNNEL_INSPECT, the result is the error of an unknown L4 protocol,
-- and the tunnel depth stays 0.
pub parse_packet_tunnel4 :
    (bytes : List ℕ) (ifindex now_ns : ℕ) (cfg : Option FwConfig)
    → IsTunnel4 bytes
    → ((parse_packet bytes ifindex now_ns cfg).1 ≡ err l4_unknown)
      × ((parse_packet bytes ifindex now_ns cfg).0.tunnel_depth ≡ 0)
unfolding parse_packet after_eth cursor_init eth_proto_is_vlan parse_l3_and_l4 l3_loop parse_l3v4
    store_l3v4 offset ip4_info pkt_ctx_reset pkt_set_v4_addrs after_l3 pkt_fill_l4 after_l4
parse_packet_tunnel4 bytes ifindex now_ns cfg u =
    let c : Cursor = cursor_init bytes in
    let c3 : Cursor = record { frame = bytes; pos = 14 } in
    let c4 : Cursor = record { frame = bytes; pos = 34 } in
    let plain : eth_proto_is_vlan (load_u16 c 12) ≡ false = rw u.ethertype in
    let eth = parse_eth_plain c (cfg_max_vlan cfg) (omega (arith, u.headers_inside)) plain in
    let ip4 =
      parse_ipv4_plain c3 (cfg_flags cfg) (omega (arith, u.headers_inside)) u.version_ihl
        u.tot_len_ge u.tot_len_inside in
    let unknown = tunnel_unknown c4 (load_u8 c 23) (cfg_min_doff cfg) u.tunnel in
    let flag = test_bit (cfg_flags cfg) f_tunnel_inspect in
    rw eth (
      rw u.ethertype
        (rw ip4 (rw (u.first, u.last, u.tunnel, and_false flag) (rw unknown (refl, refl)))))

icmp_parser :
    (c : Cursor) (proto min_doff : ℕ)
    → is_icmp proto ≡ true
    → parse_l4 c proto min_doff ≡ some (parse_icmp c l4_zero)
unfolding parse_l4
icmp_parser c proto min_doff h =
    let tcp : (proto == 6) ≡ false = ground arith in
    let udp : (proto == 17) ≡ false = ground arith in rw (tcp, udp, h)

icmp_stored :
    (r : L4Info × Result Cursor) (pkt : PktCtx) (proto : ℕ)
    → is_icmp proto ≡ true
    → ((after_l4 pkt proto (some r)).0.sport ≡ 0) × ((after_l4 pkt proto (some r)).0.dport ≡ 0)
unfolding after_l4 store_l4 store_l4_err
icmp_stored (l4, ok d) pkt proto h = rw h (refl, refl)
icmp_stored (l4, err e) pkt proto h = rw h (refl, refl)

-- An ICMP message has no ports: its type and code never reach them, whether or not it parses and
-- whatever the packet held before.
pub pkt_fill_l4_icmp :
    (pkt : PktCtx) (c : Cursor) (proto min_doff : ℕ) (no_l4 : Bool)
    → is_icmp proto ≡ true
    → ((pkt_fill_l4 pkt c proto min_doff no_l4).0.sport ≡ 0)
      × ((pkt_fill_l4 pkt c proto min_doff no_l4).0.dport ≡ 0)
unfolding pkt_fill_l4
pkt_fill_l4_icmp pkt c proto min_doff true h = (refl, refl)
pkt_fill_l4_icmp pkt c proto min_doff false h =
    rw (icmp_parser c proto min_doff h)
      (icmp_stored (parse_icmp c l4_zero) (record pkt { proto = proto; l4_off = offset c }) proto h)
