-- ===== src/Ingress/Headers.antt =====
-- bpf/tc_ingress.bpf.c, `tci_parse`: the headers of a packet, on its linear bytes.
use caly_anti.Base.{
  ℕ, zero, suc, ◌+◌, ◌*◌, ◌/◌, ◌%◌, Bool, true, false, ◌&&◌, ◌||◌, not, ltb, ◌==◌, if◌then◌else◌,
  List, [], ◌∷◌,
}
use caly_anti.Base.Bits.{test_bit, set_bit}
use caly_anti.Abi.Bits.{
  f_drop_ip4_options, f_drop_rh0, f_ipv6, if_no_ipv6, pkt_frag, pkt_frag_first, pkt_vlan,
  pkt_l4_trunc, tcp_fin, tcp_syn, tcp_rst, tcp_ack,
}
use caly_anti.Abi.Config.{FwConfig}
use caly_anti.Abi.Reason.{StatReason}
use caly_anti.Compat.{vlan_depth_bound, ip6_ext_bound}
use caly_anti.Parse.Key.{af_inet, af_inet6}
use caly_anti.Parse.Link.{eth_proto_is_vlan}
use caly_anti.Parse.Packet.{is_icmp}
use caly_anti.Xdp.Frame.{u8, u16, u32, past_end}
use caly_anti.Ingress.{TciPkt}

-- A packet for the policy, a reason to drop it, or TCI_PASS_NONIP.
pub data TciParsed : Type 0 where
  parsed : TciPkt → TciParsed
  refused : StatReason → TciPkt → TciParsed
  not_ip : TciPkt → TciParsed

-- The tags: the ethertype behind them, and the offset.
pub data TciTags : Type 0 where
  untagged : ℕ → ℕ → TciPkt → TciTags
  cut : TciPkt → TciTags

unfoldable pub tci_tags : ℕ → List ℕ → ℕ → ℕ → TciPkt → TciTags
unfolding eth_proto_is_vlan
tci_tags zero f proto off tp = untagged proto off tp
tci_tags (suc rounds) f proto off tp =
    let rest =
      tci_tags rounds f (u16 f (off + 2)) (off + 4)
        (record tp { pkt_flags = set_bit tp.pkt_flags pkt_vlan }) in
    if eth_proto_is_vlan proto
    then (if past_end f off 4 then cut tp else rest)
    else untagged proto off tp

-- The TCP flags of an initial SYN.
abbrev pub is_initial : ℕ → Bool
is_initial flags =
    test_bit flags tcp_syn
    && not (test_bit flags tcp_ack || test_bit flags tcp_rst || test_bit flags tcp_fin)

abbrev pub cut_off : TciPkt → TciParsed
cut_off tp =
    refused StatReason.drop_l4_trunc (record tp { pkt_flags = set_bit tp.pkt_flags pkt_l4_trunc })

unfoldable pub tci_l4 : List ℕ → Bool → TciPkt → TciParsed
tci_l4 f no_l4 tp =
    let off = tp.l4_off in
    let ports = record tp { sport = u16 f off; dport = u16 f (off + 2) } in
    let flagged = record ports { tcp_flags = u8 f (off + 13) } in
    if no_l4
    then parsed (record tp { pkt_flags = set_bit tp.pkt_flags pkt_l4_trunc })
    else if tp.proto == 6
    then (if past_end f off 20
        then cut_off tp
        else if ltb (u8 f (off + 12) / 16) 5
        then refused StatReason.drop_tcp_doff flagged
        else parsed (record flagged { is_syn = is_initial (u8 f (off + 13)) }))
    else if tp.proto == 17
    then (if past_end f off 8 then cut_off tp else parsed ports)
    else if is_icmp tp.proto
    then (if past_end f off 4 then cut_off tp else parsed (record tp { icmp_type = u8 f off }))
    else parsed tp

unfoldable pub tci_ip4_flags : List ℕ → ℕ → TciPkt → TciPkt
tci_ip4_flags f p tp =
    let frag = u16 f (p + 6) in
    let seen = record tp { frag_units = frag % 0x2000 } in
    let any = record seen { pkt_flags = set_bit tp.pkt_flags pkt_frag } in
    if frag % 0x4000 == 0
    then seen
    else if frag / 0x2000 % 2 == 1 && frag % 0x2000 == 0
    then record any { pkt_flags = set_bit any.pkt_flags pkt_frag_first }
    else any

abbrev pub tci_ip4_packet : List ℕ → ℕ → TciPkt → TciPkt
tci_ip4_packet f p tp = record tp {
  family = af_inet;
  l3_off = p;
  l4_off = p + u8 f p % 16 * 4;
  proto = u8 f (p + 9);
  ttl = u8 f (p + 8);
  saddr = u32 f (p + 12) ∷ 0 ∷ 0 ∷ 0 ∷ [];
  daddr = u32 f (p + 16) ∷ 0 ∷ 0 ∷ 0 ∷ [];
}

unfoldable pub tci_ip4 : List ℕ → FwConfig → ℕ → TciPkt → TciParsed
unfolding tci_l4 tci_ip4_flags
tci_ip4 f cfg p tp =
    let ihl = u8 f p % 16 in
    if past_end f p 20
    then refused StatReason.drop_ip4_trunc tp
    else if ltb ihl 5
    then refused StatReason.drop_ip4_ihl tp
    else if ltb (u16 f (p + 2)) (ihl * 4)
    then refused StatReason.drop_ip4_totlen tp
    else if test_bit cfg.flags f_drop_ip4_options && ltb 5 ihl
    then refused StatReason.drop_ip4_options tp
    else tci_l4 f (not (u16 f (p + 6) % 0x2000 == 0)) (tci_ip4_flags f p (tci_ip4_packet f p tp))

-- Where the walk over the extension headers stands.
pub record TciWalk : Type 0 where
  pub tp : TciPkt
  pub nexthdr : ℕ
  pub off : ℕ
  pub no_l4 : Bool

pub data TciStep : Type 0 where
  again : TciWalk → TciStep
  done : TciWalk → TciStep
  broken : StatReason → TciPkt → TciStep

abbrev pub has_l4 : ℕ → Bool
has_l4 nh = nh == 6 || nh == 17 || nh == 58

-- HOPOPTS, ROUTING, DSTOPTS, AH and MH
abbrev pub is_option : ℕ → Bool
is_option nh = nh == 0 || nh == 43 || nh == 60 || nh == 51 || nh == 135

unfoldable pub tci_fragment : List ℕ → TciWalk → TciStep
tci_fragment f w =
    let tp = record w.tp { pkt_flags = set_bit w.tp.pkt_flags pkt_frag } in
    let units = if past_end f w.off 4 then 0 else u16 f (w.off + 2) / 8 in
    let next = record w { nexthdr = u8 f w.off; off = w.off + 8 } in
    if past_end f w.off 2
    then broken StatReason.drop_ip6_ext_trunc tp
    else if units == 0
    then again (record next { tp = record tp { pkt_flags = set_bit tp.pkt_flags pkt_frag_first } })
    else again (record next { tp = tp; no_l4 = true })

unfoldable pub tci_option : List ℕ → FwConfig → TciWalk → TciStep
tci_option f cfg w =
    let is_rh0 =
      w.nexthdr == 43
      && not (past_end f w.off 4)
      && u8 f (w.off + 2) == 0
      && not (u8 f (w.off + 3) == 0) in
    let len = if w.nexthdr == 51 then (u8 f (w.off + 1) + 2) * 4 else (u8 f (w.off + 1) + 1) * 8 in
    if past_end f w.off 2
    then broken StatReason.drop_ip6_ext_trunc w.tp
    else if test_bit cfg.flags f_drop_rh0 && is_rh0
    then broken StatReason.drop_ip6_rh0 w.tp
    else again (record w { nexthdr = u8 f w.off; off = w.off + len })

abbrev pub tci_pull_len : ℕ
tci_pull_len = 128

unfoldable pub tci_round : List ℕ → FwConfig → TciWalk → TciStep
unfolding tci_fragment tci_option
tci_round f cfg w =
    if has_l4 w.nexthdr
    then done w
    else if ltb tci_pull_len w.off
    then broken StatReason.drop_ip6_ext_trunc w.tp
    else if w.nexthdr == 44
    then tci_fragment f w
    else if is_option w.nexthdr
    then tci_option f cfg w
    else done w

abbrev pub go_on : TciStep → (TciWalk → TciStep) → TciStep
go_on (again w) k = k w
go_on (done w) k = done w
go_on (broken reason tp) k = broken reason tp

unfoldable pub tci_walk : ℕ → List ℕ → FwConfig → TciWalk → TciStep
unfolding tci_round
tci_walk zero f cfg w = done w
tci_walk (suc rounds) f cfg w = go_on (tci_round f cfg w) (tci_walk rounds f cfg)

unfoldable pub after_walk : List ℕ → TciStep → TciParsed
unfolding tci_l4
after_walk f (again w) = tci_l4 f w.no_l4 (record w.tp { proto = w.nexthdr; l4_off = w.off })
after_walk f (done w) = tci_l4 f w.no_l4 (record w.tp { proto = w.nexthdr; l4_off = w.off })
after_walk f (broken reason tp) = refused reason tp

abbrev pub tci_ip6_start : List ℕ → ℕ → TciPkt → TciWalk
tci_ip6_start f p tp = record {
  tp = record tp {
    family = af_inet6;
    l3_off = p;
    ttl = u8 f (p + 7);
    saddr = u32 f (p + 8) ∷ u32 f (p + 12) ∷ u32 f (p + 16) ∷ u32 f (p + 20) ∷ [];
    daddr = u32 f (p + 24) ∷ u32 f (p + 28) ∷ u32 f (p + 32) ∷ u32 f (p + 36) ∷ [];
  };
  nexthdr = u8 f (p + 6);
  off = p + 40;
  no_l4 = false;
}

unfoldable pub tci_ip6 : List ℕ → FwConfig → ℕ → ℕ → TciPkt → TciParsed
unfolding tci_walk after_walk
tci_ip6 f cfg if_flags p tp =
    if past_end f p 40
    then refused StatReason.drop_ip6_trunc tp
    else if not (test_bit cfg.flags f_ipv6) || test_bit if_flags if_no_ipv6
    then refused StatReason.drop_ip6_disabled tp
    else after_walk f (tci_walk ip6_ext_bound f cfg (tci_ip6_start f p tp))

unfoldable pub after_tci_tags : List ℕ → FwConfig → ℕ → TciTags → TciParsed
unfolding tci_ip4 tci_ip6 eth_proto_is_vlan
after_tci_tags f cfg if_flags (cut tp) = refused StatReason.drop_vlan_trunc tp
after_tci_tags f cfg if_flags (untagged proto off tp) =
    if eth_proto_is_vlan proto
    then refused StatReason.drop_vlan_depth tp
    else if proto == 0x0800
    then tci_ip4 f cfg off tp
    else if proto == 0x86DD
    then tci_ip6 f cfg if_flags off tp
    else not_ip tp

unfoldable pub tci_parse : List ℕ → FwConfig → ℕ → TciPkt → TciParsed
unfolding tci_tags after_tci_tags
tci_parse f cfg if_flags tp =
    if past_end f 0 14
    then refused StatReason.drop_eth_trunc tp
    else after_tci_tags f cfg if_flags (tci_tags vlan_depth_bound f (u16 f 12) 14 tp)
