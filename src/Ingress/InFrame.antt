-- ===== src/Ingress/InFrame.antt =====
-- What the policy of bpf/tc_ingress.bpf.c may rely on of a packet that `tci_parse` hands to it.
use caly_anti.Base.{
  ℕ, ◌+◌, ◌*◌, ◌%◌, ◌&&◌, ltb, ◌≤◌, ◌≡◌, ◌⊎◌, arith, Bool, true, false, ◌||◌, not, ◌==◌,
  if◌then◌else◌, List, length, inl,
}
use caly_anti.Base.Bits.{test_bit, test_bit-set_bit}
use caly_anti.Abi.Bits.{pkt_l4_trunc, f_drop_ip4_options, f_ipv6, if_no_ipv6}
use caly_anti.Abi.Config.{FwConfig}
use caly_anti.Abi.Reason.{StatReason}
use caly_anti.Compat.{vlan_depth_bound, ip6_ext_bound}
use caly_anti.Parse.Link.{eth_proto_is_vlan}
use caly_anti.Parse.Packet.{is_icmp}
use caly_anti.Xdp.Frame.{u8, u16, past_end}
use caly_anti.Ingress.{TciPkt}
use caly_anti.Ingress.Headers.{
  TciParsed, parsed, refused, not_ip, TciTags, untagged, cut, tci_tags, tci_l4, tci_ip4,
  tci_ip4_flags, tci_ip4_packet, tci_ip6_start, TciStep, again, done, broken, tci_walk, after_walk,
  tci_ip6, after_tci_tags, tci_parse,
}

-- The bytes that the transport header is read from.
abbrev pub l4_bytes : ℕ → ℕ
l4_bytes proto =
    if proto == 6 then 20 else if proto == 17 then 8 else if is_icmp proto then 4 else 0

abbrev pub IsInFrame : List ℕ → TciPkt → Type 0
IsInFrame f tp =
    (test_bit tp.pkt_flags pkt_l4_trunc ≡ true)
    ⊎ (l4_bytes tp.proto ≡ 0)
    ⊎ (tp.l4_off + l4_bytes tp.proto ≤ length f)

abbrev pub IfParsed : (TciPkt → Type 0) → TciParsed → Type 0
IfParsed P (parsed tp) = P tp
IfParsed P (refused reason tp) = Unit
IfParsed P (not_ip tp) = Unit

tci_l4-IsInFrame :
    (f : List ℕ) (no_l4 : Bool) (tp : TciPkt) → IfParsed (IsInFrame f) (tci_l4 f no_l4 tp)
unfolding tci_l4
tci_l4-IsInFrame f true tp = inl (test_bit-set_bit tp.pkt_flags pkt_l4_trunc)
tci_l4-IsInFrame f false tp = ground arith

-- `if (bad) return reason;`
guarded :
    (P : TciPkt → Type 0) (bad : Bool) (reason : StatReason) (tp : TciPkt) (rest : TciParsed)
    → IfParsed P rest
    → IfParsed P (if bad then refused reason tp else rest)
guarded P true reason tp rest h = tt
guarded P false reason tp rest h = h

tci_ip4-IsInFrame :
    (f : List ℕ) (cfg : FwConfig) (p : ℕ) (tp : TciPkt)
    → IfParsed (IsInFrame f) (tci_ip4 f cfg p tp)
unfolding tci_ip4
tci_ip4-IsInFrame f cfg p tp =
    let rest =
      tci_l4 f (not (u16 f (p + 6) % 0x2000 == 0)) (tci_ip4_flags f p (tci_ip4_packet f p tp)) in
    let options = test_bit cfg.flags f_drop_ip4_options && ltb 5 (u8 f p % 16) in
    let r1 = if options then refused StatReason.drop_ip4_options tp else rest in
    let short = ltb (u16 f (p + 2)) (u8 f p % 16 * 4) in
    let r2 = if short then refused StatReason.drop_ip4_totlen tp else r1 in
    let small = ltb (u8 f p % 16) 5 in
    let r3 = if small then refused StatReason.drop_ip4_ihl tp else r2 in
    guarded (IsInFrame f) (past_end f p 20) StatReason.drop_ip4_trunc tp r3 (
      guarded (IsInFrame f) small StatReason.drop_ip4_ihl tp r2 (
        guarded (IsInFrame f) short StatReason.drop_ip4_totlen tp r1 (
          guarded (IsInFrame f) options StatReason.drop_ip4_options tp rest (
            tci_l4-IsInFrame f (not (u16 f (p + 6) % 0x2000 == 0))
              (tci_ip4_flags f p (tci_ip4_packet f p tp))))))

after_walk-IsInFrame : (f : List ℕ) (w : TciStep) → IfParsed (IsInFrame f) (after_walk f w)
unfolding after_walk
after_walk-IsInFrame f (again w) =
    tci_l4-IsInFrame f w.no_l4 (record w.tp { proto = w.nexthdr; l4_off = w.off })
after_walk-IsInFrame f (done w) =
    tci_l4-IsInFrame f w.no_l4 (record w.tp { proto = w.nexthdr; l4_off = w.off })
after_walk-IsInFrame f (broken reason tp) = tt

tci_ip6-IsInFrame :
    (f : List ℕ) (cfg : FwConfig) (if_flags p : ℕ) (tp : TciPkt)
    → IfParsed (IsInFrame f) (tci_ip6 f cfg if_flags p tp)
unfolding tci_ip6
tci_ip6-IsInFrame f cfg if_flags p tp =
    let rest = after_walk f (tci_walk ip6_ext_bound f cfg (tci_ip6_start f p tp)) in
    let off = not (test_bit cfg.flags f_ipv6) || test_bit if_flags if_no_ipv6 in
    let r1 = if off then refused StatReason.drop_ip6_disabled tp else rest in
    guarded (IsInFrame f) (past_end f p 40) StatReason.drop_ip6_trunc tp r1 (
      guarded (IsInFrame f) off StatReason.drop_ip6_disabled tp rest
        (after_walk-IsInFrame f (tci_walk ip6_ext_bound f cfg (tci_ip6_start f p tp))))

by_type :
    (f : List ℕ) (x y : TciParsed) (tp : TciPkt) (is4 is6 : Bool)
    → IfParsed (IsInFrame f) x
    → IfParsed (IsInFrame f) y
    → IfParsed (IsInFrame f) (if is4 then x else if is6 then y else not_ip tp)
by_type f x y tp true is6 hx hy = hx
by_type f x y tp false true hx hy = hy
by_type f x y tp false false hx hy = tt

after_tci_tags-IsInFrame :
    (f : List ℕ) (cfg : FwConfig) (if_flags : ℕ) (t : TciTags)
    → IfParsed (IsInFrame f) (after_tci_tags f cfg if_flags t)
unfolding after_tci_tags
after_tci_tags-IsInFrame f cfg if_flags (cut tp) = tt
after_tci_tags-IsInFrame f cfg if_flags (untagged proto off tp) =
    guarded (IsInFrame f) (eth_proto_is_vlan proto) StatReason.drop_vlan_depth tp
      (if proto == 0x0800
        then tci_ip4 f cfg off tp
        else if proto == 0x86DD
        then tci_ip6 f cfg if_flags off tp
        else not_ip tp)
      (by_type f (tci_ip4 f cfg off tp) (tci_ip6 f cfg if_flags off tp) tp (proto == 0x0800)
        (proto == 0x86DD) (tci_ip4-IsInFrame f cfg off tp)
        (tci_ip6-IsInFrame f cfg if_flags off tp))

-- Of every packet that the parser hands to the policy, the transport header that the policy judges
-- (ports, flags, ICMP type) was inside the frame, unless the packet is marked CALY_PKT_F_L4_TRUNC or
-- has a protocol of which nothing is read. This holds behind VLAN tags and any chain of IPv6 headers.
pub tci_parse-IsInFrame :
    (f : List ℕ) (cfg : FwConfig) (if_flags : ℕ) (tp : TciPkt)
    → IfParsed (IsInFrame f) (tci_parse f cfg if_flags tp)
unfolding tci_parse
tci_parse-IsInFrame f cfg if_flags tp =
    let tags = tci_tags vlan_depth_bound f (u16 f 12) 14 tp in
    guarded (IsInFrame f) (past_end f 0 14) StatReason.drop_eth_trunc tp
      (after_tci_tags f cfg if_flags tags) (after_tci_tags-IsInFrame f cfg if_flags tags)
