-- ===== src/Xdp/Refusals.antt =====
-- Whatever the parser refuses a packet for is the reason of a drop.
use caly_anti.Base.{
  ℕ, zero, suc, ◌+◌, ◌≤◌, arith, Bool, true, false, List, Bool-cases, inl, inr, leb, ltb, ◌&&◌,
  if◌then◌else◌, [], ◌∷◌,
}
use caly_anti.Base.Bits.{test_bit, set_bit}
use caly_anti.Abi.Bits.{f_tunnel_inspect, pkt_tunneled}
use caly_anti.Compat.{ip6_ext_bound, tunnel_depth_bound}
use caly_anti.Parse.Key.{af_inet, af_inet6}
use caly_anti.Abi.Config.{FwConfig}
use caly_anti.Abi.Reason.{StatReason, reason_code}
use caly_anti.Parse.Packet.{PktCtx}
use caly_anti.Xdp.Frame.{
  L4, u8, u32, max_hdr_off, clear_l3, Parsed, go, refuse, ◌>>=◌, refuse_if, parse_transport,
  ip4_fragment, ip4_sane, ip4_allowed, parse_ip4,
}
use caly_anti.Xdp.Frame6.{
  clamp_ext, ExtWalk, ip6_is_ext, ext_round, ext_walk, ip6_sane, exts_ended, parse_ip6,
}
use caly_anti.Xdp.Network.{
  Layer, transport, tunnel, no_tunnel, gre_sane, gre_inner, enter_gre, enter_tunnel, network_header,
  parse_network, passes, parse_layers, trunc4, trunc6, descend,
}

abbrev pub IsDrop : StatReason → Type 0
IsDrop reason = (19 ≤ reason_code reason) × (reason_code reason ≤ 80)

abbrev pub Drops {ℓ} : {A : Type ℓ} → Parsed A → Type 0
Drops (go a) = Unit
Drops (refuse reason pkt) = IsDrop reason

Drops-bind {ℓ κ} :
    {A : Type ℓ} {B : Type κ} (m : Parsed A) (f : A → Parsed B)
    → Drops m
    → ((a : A) → Drops (f a))
    → Drops (m >>= f)
Drops-bind (go a) f h k = k a
Drops-bind (refuse reason pkt) f h k = h

refuse_if-Drops :
    (pkt : PktCtx) (reason : StatReason) (bad : Bool)
    → IsDrop reason
    → Drops (refuse_if pkt reason bad)
refuse_if-Drops pkt reason true h = h
refuse_if-Drops pkt reason false h = tt

trunc4-IsDrop : (is_inner : Bool) → IsDrop (trunc4 is_inner)
unfolding reason_code
trunc4-IsDrop true = omega arith
trunc4-IsDrop false = omega arith

trunc6-IsDrop : (is_inner : Bool) → IsDrop (trunc6 is_inner)
unfolding reason_code
trunc6-IsDrop true = omega arith
trunc6-IsDrop false = omega arith

parse_transport-Drops :
    (f : List ℕ) (cfg : FwConfig) (pkt : PktCtx) (icmp_tc : ℕ)
    → Drops (parse_transport f cfg pkt icmp_tc)
unfolding parse_transport reason_code
parse_transport-Drops f cfg pkt icmp_tc = ground arith

ip4_fragment-Drops : (f : List ℕ) (cfg : FwConfig) (pkt : PktCtx) → Drops (ip4_fragment f cfg pkt)
unfolding ip4_fragment reason_code
ip4_fragment-Drops f cfg pkt = ground arith

-- Reasons that the checks of a header name.
literal_drops :
    IsDrop StatReason.drop_l3_unknown
    × IsDrop StatReason.drop_ip4_ihl
    × IsDrop StatReason.drop_ip4_totlen
    × IsDrop StatReason.drop_ttl_zero
    × IsDrop StatReason.drop_ttl_low
unfolding reason_code
literal_drops = omega arith

ip4_sane-Drops :
    (f : List ℕ) (cfg : FwConfig) (pkt : PktCtx) (trunc : StatReason)
    → IsDrop trunc
    → Drops (ip4_sane f cfg pkt trunc)
unfolding ip4_sane
ip4_sane-Drops f cfg pkt trunc h = ground (arith, literal_drops)

ip4_allowed-Drops : (f : List ℕ) (cfg : FwConfig) (pkt : PktCtx) → Drops (ip4_allowed f cfg pkt)
unfolding ip4_allowed reason_code
ip4_allowed-Drops f cfg pkt = ground arith

ext_round-Drops : (f : List ℕ) (cfg : FwConfig) (w : ExtWalk) → Drops (ext_round f cfg w)
unfolding ext_round reason_code
ext_round-Drops f cfg w = ground arith

ext_walk-Drops :
    (rounds i ext_max : ℕ) (f : List ℕ) (cfg : FwConfig) (w : ExtWalk)
    → Drops (ext_walk rounds i ext_max f cfg w)
unfolding ext_walk
ext_walk-Drops zero i ext_max f cfg w = tt
ext_walk-Drops (suc rounds) i ext_max f cfg w = elim (Bool-cases (leb ext_max i)) [
  | inl full ↦ rw full tt
  | inr more ↦ rw more (elim (Bool-cases (ip6_is_ext w.nh)) [
    | inr last ↦ rw last tt
    | inl ext ↦ rw ext (
        Drops-bind (ext_round f cfg w) (λ w'. ext_walk rounds (i + 1) ext_max f cfg w')
          (ext_round-Drops f cfg w) (λ w'. ext_walk-Drops rounds (i + 1) ext_max f cfg w'))
  ])
]

ip6_sane-Drops :
    (f : List ℕ) (cfg : FwConfig) (pkt : PktCtx) (trunc : StatReason)
    → IsDrop trunc
    → Drops (ip6_sane f cfg pkt trunc)
unfolding ip6_sane
ip6_sane-Drops f cfg pkt trunc h = ground (arith, literal_drops)

exts_ended-Drops : (w : ExtWalk) → Drops (exts_ended w)
unfolding exts_ended reason_code
exts_ended-Drops w = ground arith

gre_sane-Drops : (f : List ℕ) (pkt : PktCtx) → Drops (gre_sane f pkt)
unfolding gre_sane reason_code
gre_sane-Drops f pkt = ground arith

-- A part of the parser, and what goes on with its result.
module _ (f : List ℕ) (cfg : FwConfig) where
  parse_ip4-Drops :
      (pkt : PktCtx) (trunc : StatReason) → IsDrop trunc → Drops (parse_ip4 f cfg pkt trunc)
  unfolding parse_ip4
  parse_ip4-Drops pkt trunc h = ground (
    arith,
    ip4_sane-Drops f cfg pkt trunc,
    ip4_allowed-Drops f cfg pkt,
    ip4_fragment-Drops f cfg (record pkt {
      family = af_inet;
      saddr = u32 f (pkt.l3_off + 12) ∷ 0 ∷ 0 ∷ 0 ∷ [];
      daddr = u32 f (pkt.l3_off + 16) ∷ 0 ∷ 0 ∷ 0 ∷ [];
    }),
  )

  parse_ip6-Drops :
      (pkt : PktCtx) (trunc : StatReason) → IsDrop trunc → Drops (parse_ip6 f cfg pkt trunc)
  unfolding parse_ip6
  parse_ip6-Drops pkt trunc h =
      let seen : PktCtx = record pkt {
        family = af_inet6;
        saddr =
            u32 f (pkt.l3_off + 8)
            ∷ u32 f (pkt.l3_off + 12)
            ∷ u32 f (pkt.l3_off + 16)
            ∷ u32 f (pkt.l3_off + 20)
            ∷ [];
        daddr =
            u32 f (pkt.l3_off + 24)
            ∷ u32 f (pkt.l3_off + 28)
            ∷ u32 f (pkt.l3_off + 32)
            ∷ u32 f (pkt.l3_off + 36)
            ∷ [];
      } in
      let first : ExtWalk = record {
        pkt = seen;
        nh = u8 f (pkt.l3_off + 6);
        off = pkt.l3_off + 40;
      } in
      let walk = ext_walk ip6_ext_bound 0 (clamp_ext cfg) f cfg first in
      Drops-bind (ip6_sane f cfg pkt trunc) _ (ip6_sane-Drops f cfg pkt trunc h) λ _.
        Drops-bind walk _ (ext_walk-Drops ip6_ext_bound 0 (clamp_ext cfg) f cfg first)
          λ w. Drops-bind (exts_ended w) _ (exts_ended-Drops w) (λ _. tt)

  no_tunnel-Drops : (pkt : PktCtx) (icmp_tc : ℕ) → Drops (no_tunnel f cfg pkt icmp_tc)
  unfolding no_tunnel
  no_tunnel-Drops pkt icmp_tc =
      Drops-bind (parse_transport f cfg pkt icmp_tc) _ (parse_transport-Drops f cfg pkt icmp_tc)
        (λ l4. tt)

  gre_inner-Drops : (pkt : PktCtx) (icmp_tc : ℕ) → Drops (gre_inner f cfg pkt icmp_tc)
  unfolding gre_inner
  gre_inner-Drops pkt icmp_tc = ground (arith, no_tunnel-Drops pkt icmp_tc)

  enter_gre-Drops : (pkt : PktCtx) (icmp_tc : ℕ) → Drops (enter_gre f cfg pkt icmp_tc)
  unfolding enter_gre
  enter_gre-Drops pkt icmp_tc =
      Drops-bind (gre_sane f pkt) _ (gre_sane-Drops f pkt) (λ _. gre_inner-Drops pkt icmp_tc)

  enter_tunnel-Drops :
      (pkt : PktCtx) (allow : Bool) (icmp_tc : ℕ) → Drops (enter_tunnel f cfg pkt allow icmp_tc)
  unfolding enter_tunnel
  enter_tunnel-Drops pkt allow icmp_tc =
      ground (arith, no_tunnel-Drops pkt icmp_tc, enter_gre-Drops pkt icmp_tc)

  network_header-Drops :
      (pkt : PktCtx) (proto : ℕ) (is_inner : Bool)
      → IsDrop (trunc4 is_inner)
      → IsDrop (trunc6 is_inner)
      → Drops (network_header f cfg pkt proto (trunc4 is_inner) (trunc6 is_inner))
  unfolding network_header
  network_header-Drops pkt proto is_inner h4 h6 = ground (
    arith,
    literal_drops,
    parse_ip4-Drops pkt (trunc4 is_inner) h4,
    parse_ip6-Drops pkt (trunc6 is_inner) h6,
  )

  parse_network-Drops :
      (pkt : PktCtx) (off proto : ℕ) (allow is_inner : Bool) (icmp_tc : ℕ)
      → Drops (parse_network f cfg pkt off proto allow is_inner icmp_tc)
  unfolding parse_network
  parse_network-Drops pkt off proto allow is_inner icmp_tc =
      Drops-bind (refuse_if pkt (trunc4 is_inner) (ltb max_hdr_off off)) _
        (refuse_if-Drops pkt (trunc4 is_inner) (ltb max_hdr_off off) (trunc4-IsDrop is_inner))
        λ _.
          Drops-bind
            (network_header f cfg (clear_l3 pkt off) proto (trunc4 is_inner) (trunc6 is_inner)) _
            (network_header-Drops (clear_l3 pkt off) proto is_inner (trunc4-IsDrop is_inner)
              (trunc6-IsDrop is_inner))
            (λ l3. enter_tunnel-Drops (record l3.0 { l4_off = l3.1; proto = l3.2 }) allow icmp_tc)

  descend-Drops :
      (inner : PktCtx → ℕ → ℕ → Parsed L4)
      → ((seen : PktCtx) (off proto : ℕ) → Drops (inner seen off proto))
      → (layer : Layer) → Drops (descend inner layer)
  descend-Drops inner h (transport l4) = tt
  descend-Drops inner h (tunnel seen off proto) = h seen off proto

  passes-Drops :
      (left i : ℕ) (pkt : PktCtx) (off proto icmp_tc : ℕ)
      → Drops (passes left i f cfg pkt off proto icmp_tc)
  unfolding passes
  passes-Drops zero i pkt off proto icmp_tc = unfold reason_code in omega arith
  passes-Drops (suc left) i pkt off proto icmp_tc =
      let tun_max =
        if ltb tunnel_depth_bound cfg.tunnel_max_depth
        then tunnel_depth_bound
        else cfg.tunnel_max_depth in
      let allow = test_bit cfg.flags f_tunnel_inspect && ltb i tun_max in
      Drops-bind (parse_network f cfg pkt off proto allow (ltb 0 i) icmp_tc) _
        (parse_network-Drops pkt off proto allow (ltb 0 i) icmp_tc)
        (descend-Drops _ λ seen o p.
          passes-Drops left (i + 1)
            (record seen { tunnel_depth = i + 1; flags = set_bit seen.flags pkt_tunneled }) o p
            icmp_tc)

  pub parse_layers-Drops : (pkt : PktCtx) (off proto : ℕ) → Drops (parse_layers f cfg pkt off proto)
  unfolding parse_layers
  parse_layers-Drops pkt off proto = passes-Drops (tunnel_depth_bound + 1) 0 pkt off proto 0
