-- ===== src/Parse/Verdict.antt =====
-- What the parser accepts: UDP over IPv4.
use caly_anti.Base.{
  ℕ, zero, suc, ◌+◌, ◌-◌, ◌%◌, ◌≤◌, ◌<◌, ◌≡◌, refl, arith, true, false, ltb, leb, ◌==◌,
  if◌then◌else◌, length, Option, some, Bool-cases, inl, inr, List, [], ◌∷◌, min,
}
use caly_anti.Base.Bits.{test_bit}
use caly_anti.Abi.Config.{FwConfig}
use caly_anti.Compat.{vlan_depth_bound}
use caly_anti.Compat.Errors.{ok}
use caly_anti.Parse.{Cursor, cursor_init, pull, avail, load_u16, load_u8, load_u32, offset}
use caly_anti.Parse.Link.{Link, parse_eth, vlan_loop, eth_proto_is_vlan, eth_p_ip}
use caly_anti.Parse.Ip4.{ip4_info, parse_ipv4, skip_ip4_options}
use caly_anti.Parse.L4.{L4Info, l4_zero, parse_udp, udp_pulled, udp_info, judge_udp}
use caly_anti.Parse.Tunnel.{proto_is_tunnel}
use caly_anti.Parse.Packet.{
  PktCtx, pkt_ctx_reset, pkt_set_v4_addrs, parse_l4, store_l4, after_l4, pkt_fill_l4,
}
use caly_anti.Parse.Frame.{
  cfg_flags, cfg_max_vlan, store_l3v4, parse_l3v4, after_l3, l3_loop, parse_l3_and_l4, after_eth,
  parse_packet,
}

pub pull_there :
    (c : Cursor) (len : ℕ)
    → len ≤ 2048
    → c.pos + len ≤ length c.frame
    → pull c len ≡ some (record { at = c.pos; rest = record c { pos = c.pos + len } })
unfolding pull
pull_there c len hm h =
    let short : ltb 2048 len ≡ false = ground arith in
    let there : ltb (length c.frame) (c.pos + len) ≡ false = ground arith in rw (short, there)

-- No tag: the loop stops in its first round whatever the limit.
no_tags :
    (rounds max_vlan : ℕ) (l : Link)
    → eth_proto_is_vlan l.proto ≡ false
    → vlan_loop rounds 0 max_vlan l ≡ ok l
unfolding vlan_loop
no_tags zero max_vlan l h = refl
no_tags (suc rounds) max_vlan l h = elim (Bool-cases (leb max_vlan 0)) [
  | inl over ↦ rw over
  | inr under ↦ rw (under, h)
]

pub parse_eth_plain :
    (c : Cursor) (max_vlan : ℕ)
    → c.pos + 14 ≤ length c.frame
    → eth_proto_is_vlan (load_u16 c (c.pos + 12)) ≡ false
    → parse_eth c max_vlan
      ≡ ok (record {
        proto = load_u16 c (c.pos + 12);
        depth = 0;
        cursor = record c { pos = c.pos + 14 };
      })
unfolding parse_eth
parse_eth_plain c max_vlan h plain = rw (pull_there c 14 (omega arith) h) (
    rw (
      no_tags vlan_depth_bound
          (if ltb vlan_depth_bound max_vlan then vlan_depth_bound else max_vlan)
          (record {
            proto = load_u16 c (c.pos + 12);
            depth = 0;
            cursor = record c { pos = c.pos + 14 };
          })
          plain,
      plain,
    ))

pub parse_ipv4_plain :
    (c : Cursor) (flags : ℕ)
    → c.pos + 20 ≤ length c.frame
    → load_u8 c c.pos ≡ 0x45
    → 20 ≤ load_u16 c (c.pos + 2)
    → c.pos + load_u16 c (c.pos + 2) ≤ length c.frame
    → parse_ipv4 c flags ≡ ok (ip4_info c c.pos, record c { pos = c.pos + 20 })
unfolding parse_ipv4 skip_ip4_options avail
parse_ipv4_plain c flags h version long there =
    let tot = load_u16 c (c.pos + 2) in
    let enough : ltb tot 20 ≡ false = ground arith in
    let inside : ltb (avail c) tot ≡ false = ground arith in
    rw (pull_there c 20 (omega arith) h) (rw (version, enough, inside))

parse_udp_plain :
    (c : Cursor) (out : L4Info)
    → c.pos + 8 ≤ length c.frame
    → 0 < load_u16 c c.pos
    → 0 < load_u16 c (c.pos + 2)
    → parse_udp c out ≡ (udp_info c c.pos, ok (record c { pos = c.pos + 8 }))
unfolding parse_udp udp_pulled judge_udp udp_info
parse_udp_plain c out h hs hd =
    let s : (load_u16 c c.pos == 0) ≡ false = ground arith in
    let d : (load_u16 c (c.pos + 2) == 0) ≡ false = ground arith in
    rw (pull_there c 8 (omega arith) h) (rw (s, d))

-- A UDP packet over IPv4 without tags, options or fragments, whose lengths fit its frame, and
-- whose ports are not 0.
pub record IsUdp4 (bytes : List ℕ) : Type 0 where
  pub headers_inside : 42 ≤ length bytes
  pub ethertype : load_u16 (cursor_init bytes) 12 ≡ eth_p_ip
  pub version_ihl : load_u8 (cursor_init bytes) 14 ≡ 0x45
  pub tot_len_ge : 20 ≤ load_u16 (cursor_init bytes) 16
  pub tot_len_inside : 14 + load_u16 (cursor_init bytes) 16 ≤ length bytes
  pub first : load_u16 (cursor_init bytes) 20 % 0x2000 ≡ 0
  pub last : test_bit (load_u16 (cursor_init bytes) 20) 13 ≡ false
  pub protocol : load_u8 (cursor_init bytes) 23 ≡ 17
  pub sport_pos : 0 < load_u16 (cursor_init bytes) 34
  pub dport_pos : 0 < load_u16 (cursor_init bytes) 36

-- What the parser should make of it.
pub udp4_ctx : List ℕ → ℕ → ℕ → PktCtx
udp4_ctx bytes ifindex now_ns =
    let c = cursor_init bytes in
    record {
      ts_ns = now_ns;
      saddr = load_u32 c 26 ∷ 0 ∷ 0 ∷ 0 ∷ [];
      daddr = load_u32 c 30 ∷ 0 ∷ 0 ∷ 0 ∷ [];
      l3_off = 14;
      l4_off = 34;
      payload_off = 42;
      pkt_len = length bytes;
      ifindex = ifindex;
      family = 4;
      proto = 17;
      vlan_depth = 0;
      tunnel_depth = 0;
      frag_off = 0;
      tcp_flags = 0;
      flags = 0;
      sport = load_u16 c 34;
      dport = load_u16 c 36;
      eth_proto = eth_p_ip;
      l4_len = min (length bytes - 34) 0xFFFF;
    }

-- A UDP packet over IPv4 without tags, options or fragments, whose lengths fit its frame and whose
-- ports are not 0, is parsed without an error under any configuration and under none, and every
-- field of the packet context is the one on the wire or the offset at which it stands.
pub parse_packet_udp4 :
    (bytes : List ℕ) (ifindex now_ns : ℕ) (cfg : Option FwConfig)
    → IsUdp4 bytes
    → parse_packet bytes ifindex now_ns cfg ≡ (udp4_ctx bytes ifindex now_ns, ok tt)
unfolding parse_packet after_eth cursor_init eth_proto_is_vlan parse_l3_and_l4 l3_loop parse_l3v4
    store_l3v4 offset ip4_info pkt_ctx_reset pkt_set_v4_addrs after_l3 pkt_fill_l4 parse_l4 after_l4
    store_l4 udp_info udp4_ctx proto_is_tunnel
parse_packet_udp4 bytes ifindex now_ns cfg u =
    let c : Cursor = cursor_init bytes in
    let c3 : Cursor = record { frame = bytes; pos = 14 } in
    let c4 : Cursor = record { frame = bytes; pos = 34 } in
    let plain : eth_proto_is_vlan (load_u16 c 12) ≡ false = rw u.ethertype in
    let eth = parse_eth_plain c (cfg_max_vlan cfg) (omega (arith, u.headers_inside)) plain in
    let ip4 =
      parse_ipv4_plain c3 (cfg_flags cfg) (omega (arith, u.headers_inside)) u.version_ihl
        u.tot_len_ge u.tot_len_inside in
    let udp =
      parse_udp_plain c4 l4_zero (omega (arith, u.headers_inside)) u.sport_pos u.dport_pos in
    let room : leb 34 (length bytes) ≡ true = ground (arith, u.headers_inside) in
    rw eth (rw u.ethertype (rw ip4 (rw (u.first, u.last, u.protocol) (rw udp (rw room refl)))))
