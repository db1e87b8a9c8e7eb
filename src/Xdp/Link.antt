-- ===== src/Xdp/Link.antt =====
-- bpf/xdp_firewall.bpf.c, stages 0 and 1 of `caly_xdp_main`: the interface, the Ethernet header and
-- its VLAN tags, and the ethertypes that are parsed no further.
use caly_anti.Base.{
  ℕ, zero, suc, ◌+◌, Bool, true, false, ◌||◌, not, leb, ◌==◌, if◌then◌else◌, List, Option, none,
  some, min, length,
}
use caly_anti.Base.Bits.{test_bit, set_bit}
use caly_anti.Abi.Bits.{
  f_enabled, f_ipv4, f_ipv6, f_vlan_inspect, f_drop_unknown_l3, if_wan, if_disabled, if_no_ipv6,
  pkt_wan, pkt_vlan,
}
use caly_anti.Abi.Config.{FwConfig}
use caly_anti.Abi.Reason.{StatReason}
use caly_anti.Compat.{vlan_depth_bound}
use caly_anti.Parse.Link.{eth_p_ip, eth_p_ipv6, eth_p_arp, eth_proto_is_vlan}
use caly_anti.Parse.Packet.{PktCtx, pkt_ctx_reset}
use caly_anti.Xdp.State.{IfaceConfig}
use caly_anti.Xdp.Run.{Act, pass, drop}
use caly_anti.Xdp.Frame.{u16, past_end}

-- Where the first program leaves a frame: a reason for the verdict, or a layer to parse next.
pub data Reached : Type 0 where
  settled : StatReason → Act → PktCtx → Reached
  layer : PktCtx → ℕ → ℕ → Reached

abbrev pub refuse_frame : StatReason → PktCtx → Reached
refuse_frame reason pkt = settled reason drop pkt

abbrev pub pass_frame : StatReason → PktCtx → Reached
pass_frame reason pkt = settled reason pass pkt

abbrev pub max_pkt_len : ℕ
max_pkt_len = 65535

-- The context that the program zeroes and fills.
unfoldable pub fresh_ctx : List ℕ → ℕ → ℕ → PktCtx
unfolding pkt_ctx_reset
fresh_ctx f ifindex now = record (pkt_ctx_reset f ifindex now) {
  pkt_len = min (length f) max_pkt_len;
}

abbrev pub zone_unspec : ℕ
zone_unspec = 0

abbrev pub zone_wan : ℕ
zone_wan = 1

-- What the interface decides.
pub record Iface : Type 0 where
  pub flags : ℕ
  pub is_wan : Bool

abbrev pub zone_of : FwConfig → Option IfaceConfig → ℕ
zone_of cfg none = cfg.default_zone
zone_of cfg (some ifc) = if ifc.zone == zone_unspec then cfg.default_zone else ifc.zone

abbrev pub flags_of : Option IfaceConfig → ℕ
flags_of none = 0
flags_of (some ifc) = ifc.flags

unfoldable pub iface_of : FwConfig → Option IfaceConfig → Iface
iface_of cfg ifc = record {
  flags = flags_of ifc;
  is_wan = zone_of cfg ifc == zone_wan || test_bit (flags_of ifc) if_wan;
}

-- The tags that are walked: at most `vlan_max_depth`, at most two.
pub record Tags : Type 0 where
  pub proto : ℕ
  pub off : ℕ
  pub pkt : PktCtx

unfoldable pub untag : List ℕ → Tags → Tags
untag f t = record {
  proto = u16 f (t.off + 2);
  off = t.off + 4;
  pkt = record t.pkt { vlan_depth = t.pkt.vlan_depth + 1; flags = set_bit t.pkt.flags pkt_vlan };
}

-- The unrolled loop, on the rounds left; the context where a tag is cut off.
unfoldable pub tag_loop : ℕ → ℕ → ℕ → List ℕ → Tags → Tags × Bool
unfolding untag
tag_loop zero i vlan_max f t = (t, true)
tag_loop (suc rounds) i vlan_max f t =
    let rest = tag_loop rounds (i + 1) vlan_max f (untag f t) in
    if leb vlan_max i
    then (t, true)
    else if not (eth_proto_is_vlan t.proto)
    then (t, true)
    else if past_end f t.off 4
    then (t, false)
    else rest

unfoldable pub vlan_max : FwConfig → ℕ
vlan_max cfg =
    if test_bit cfg.flags f_vlan_inspect then min cfg.vlan_max_depth vlan_depth_bound else 0

-- The ethertypes that end here, and those that are parsed.
unfoldable pub select_proto : FwConfig → ℕ → Tags → Reached
select_proto cfg if_flags t =
    let pkt = record t.pkt { eth_proto = t.proto } in
    if t.proto == eth_p_arp
    then pass_frame StatReason.pass_not_ip pkt
    else if t.proto == eth_p_ip
    then (if test_bit cfg.flags f_ipv4
        then layer pkt t.off t.proto
        else pass_frame StatReason.pass_not_ip pkt)
    else if t.proto == eth_p_ipv6
    then (if not (test_bit cfg.flags f_ipv6) || test_bit if_flags if_no_ipv6
        then refuse_frame StatReason.drop_ip6_disabled pkt
        else layer pkt t.off t.proto)
    else if test_bit cfg.flags f_drop_unknown_l3
    then refuse_frame StatReason.drop_l3_unknown pkt
    else pass_frame StatReason.pass_not_ip pkt

-- What follows the walk over the tags.
unfoldable pub after_tags : FwConfig → ℕ → Tags × Bool → Reached
unfolding select_proto
after_tags cfg if_flags (t, false) = refuse_frame StatReason.drop_vlan_trunc t.pkt
after_tags cfg if_flags (t, true) =
    if eth_proto_is_vlan t.proto
    then (if test_bit cfg.flags f_vlan_inspect
        then refuse_frame StatReason.drop_vlan_depth t.pkt
        else if test_bit cfg.flags f_drop_unknown_l3
        then refuse_frame StatReason.drop_l3_unknown t.pkt
        else pass_frame StatReason.pass_not_ip t.pkt)
    else select_proto cfg if_flags t

unfoldable pub parse_link : FwConfig → ℕ → List ℕ → PktCtx → Reached
unfolding tag_loop vlan_max after_tags
parse_link cfg if_flags f pkt =
    if past_end f 0 14
    then refuse_frame StatReason.drop_eth_trunc pkt
    else after_tags cfg if_flags (
        tag_loop vlan_depth_bound 0 (vlan_max cfg) f
          (record { proto = u16 f 12; off = 14; pkt = pkt }))

-- The stages up to the first tail call, with the interface's part in them.
unfoldable pub receive : FwConfig → Option IfaceConfig → List ℕ → PktCtx → Reached
unfolding iface_of parse_link
receive cfg ifc f pkt =
    let face = iface_of cfg ifc in
    let flags = if face.is_wan then set_bit pkt.flags pkt_wan else pkt.flags in
    if not (test_bit cfg.flags f_enabled)
    then pass_frame StatReason.pass_disabled pkt
    else if test_bit face.flags if_disabled
    then pass_frame StatReason.pass_disabled pkt
    else parse_link cfg face.flags f (record pkt { flags = flags })
