-- ===== src/Egress.antt =====
-- bpf/tc_egress.bpf.c: packets that the host sends open and update flows in the connection table, so
-- that their replies are known on ingress. The program always returns TC_ACT_OK.
use caly_anti.Base.{
  ℕ, zero, suc, ◌+◌, ◌*◌, ◌/◌, ◌%◌, Bool, true, false, ◌&&◌, ◌||◌, not, ltb, ◌==◌, if◌then◌else◌,
  List, [], ◌∷◌, get_or, length, Option, none, some,
}
use caly_anti.Base.Bits.{test_bit, set_bit}
use caly_anti.Base.Word.{add_u64}
use caly_anti.Abi.Bits.{
  f_enabled, f_conntrack, ct_f_outbound, ct_f_mgmt, ct_f_seen_reply, tcp_fin, tcp_syn, tcp_rst,
  tcp_ack,
}
use caly_anti.Abi.Config.{FwConfig}
use caly_anti.Abi.Reason.{StatReason, reason_code}
use caly_anti.Compat.{vlan_depth_bound}
use caly_anti.Parse.Key.{ConnKey, key_zero, copy_words, af_inet, af_inet6}
use caly_anti.Source.{is_mgmt_tcp, is_mgmt_udp}
use caly_anti.Xdp.State.{CtState, ConnState, Insert, Maps, conn_eq, write, store, bump}
use caly_anti.Xdp.Frame.{u8, u16, u32, past_end}
pub mod Reply
pub mod Repeat

-- What the program reads of `struct __sk_buff`, its bytes those that are linear after the pull.
pub record Skb : Type 0 where
  pub bytes : List ℕ
  pub len : ℕ
  pub protocol : ℕ
  pub ifindex : ℕ

-- `struct tce_out`, the source being this host
pub record Outbound : Type 0 where
  pub src : List ℕ
  pub dst : List ℕ
  pub family : ℕ
  pub proto : ℕ
  pub sport : ℕ
  pub dport : ℕ
  pub tcp_flags : ℕ
  pub pkt_len : ℕ

unfoldable pub tce_stat : StatReason → Maps → Maps
unfolding reason_code
tce_stat reason m =
    if not (ltb (reason_code reason) (reason_code StatReason.max))
    then m
    else record m { stats = bump 1 reason m.stats }

abbrev pub is_tag : ℕ → Bool
is_tag proto = proto == 0x8100 || proto == 0x88A8 || proto == 0x9100

abbrev pub family_of : ℕ → ℕ → Option (ℕ × ℕ)
family_of proto off =
    if proto == 0x0800
    then some (off, af_inet)
    else if proto == 0x86DD
    then some (off, af_inet6)
    else none

-- Past the tags, of which at most `rounds` are read.
unfoldable pub skip_tags : ℕ → List ℕ → ℕ → ℕ → Option (ℕ × ℕ)
skip_tags zero f proto off = family_of proto off
skip_tags (suc rounds) f proto off =
    let rest = skip_tags rounds f (u16 f (off + 2)) (off + 4) in
    if is_tag proto then (if past_end f off 4 then none else rest) else family_of proto off

-- A buffer that starts at the network header.
unfoldable pub bare_l3 : List ℕ → ℕ → Option (ℕ × ℕ)
bare_l3 f protocol =
    if protocol == 0x0800
    then some (0, af_inet)
    else if protocol == 0x86DD
    then some (0, af_inet6)
    else if past_end f 0 1
    then none
    else if u8 f 0 / 16 == 4
    then some (0, af_inet)
    else if u8 f 0 / 16 == 6
    then some (0, af_inet6)
    else none

-- The offset of the network header, and the family.
unfoldable pub l3_off : List ℕ → ℕ → Option (ℕ × ℕ)
unfolding skip_tags bare_l3
l3_off f protocol =
    let ethertype = u16 f 12 in
    if not (past_end f 0 14) && (ethertype == 0x0800 || ethertype == 0x86DD || is_tag ethertype)
    then skip_tags vlan_depth_bound f ethertype 14
    else bare_l3 f protocol

abbrev pub with_ports : Outbound → Option Outbound
with_ports o = if o.sport == 0 || o.dport == 0 then none else some o

-- From the transport header on.
unfoldable pub parse_ports : List ℕ → Outbound → ℕ → Option Outbound
parse_ports f o off =
    let ports = record o { sport = u16 f off; dport = u16 f (off + 2) } in
    if o.proto == 6
    then (if past_end f off 20
        then none
        else with_ports (record ports { tcp_flags = u8 f (off + 13) }))
    else if o.proto == 17
    then (if past_end f off 8 then none else with_ports (record ports { tcp_flags = 0 }))
    else none

unfoldable pub outbound_zero : ℕ → ℕ → Outbound
outbound_zero len family = record {
  src = 0 ∷ 0 ∷ 0 ∷ 0 ∷ [];
  dst = 0 ∷ 0 ∷ 0 ∷ 0 ∷ [];
  family = family;
  proto = 0;
  sport = 0;
  dport = 0;
  tcp_flags = 0;
  pkt_len = len;
}

abbrev pub addressed4 : List ℕ → Outbound → ℕ → Outbound
addressed4 f o p = record o {
  proto = u8 f (p + 9);
  src = u32 f (p + 12) ∷ 0 ∷ 0 ∷ 0 ∷ [];
  dst = u32 f (p + 16) ∷ 0 ∷ 0 ∷ 0 ∷ [];
}

abbrev pub addressed6 : List ℕ → Outbound → ℕ → Outbound
addressed6 f o p = record o {
  proto = u8 f (p + 6);
  src = u32 f (p + 8) ∷ u32 f (p + 12) ∷ u32 f (p + 16) ∷ u32 f (p + 20) ∷ [];
  dst = u32 f (p + 24) ∷ u32 f (p + 28) ∷ u32 f (p + 32) ∷ u32 f (p + 36) ∷ [];
}

unfoldable pub parse_out4 : List ℕ → Outbound → ℕ → Option Outbound
unfolding parse_ports
parse_out4 f o p =
    if past_end f p 20 || ltb (u8 f p % 16) 5 || not (u16 f (p + 6) % 0x4000 == 0)
    then none
    else parse_ports f (addressed4 f o p) (p + u8 f p % 16 * 4)

unfoldable pub parse_out6 : List ℕ → Outbound → ℕ → Option Outbound
unfolding parse_ports
parse_out6 f o p = if past_end f p 40 then none else parse_ports f (addressed6 f o p) (p + 40)

unfoldable pub parse_out : Skb → Option Outbound
unfolding l3_off outbound_zero parse_out4 parse_out6
parse_out skb = elim (l3_off skb.bytes skb.protocol) [
  | none ↦ none
  | some (p, family) ↦
      let o = outbound_zero skb.len family in
      if family == af_inet then parse_out4 skb.bytes o p else parse_out6 skb.bytes o p
]

-- The key as ingress sees the flow: the remote peer is its source.
unfoldable pub out_key : Outbound → ConnKey
out_key o = record key_zero {
  saddr = copy_words o.dst;
  daddr = copy_words o.src;
  sport = o.dport;
  dport = o.sport;
  proto = o.proto % 256;
  family = o.family % 256;
}

abbrev pub out_flag : Outbound → ℕ → Bool
out_flag o k = o.proto == 6 && test_bit o.tcp_flags k

-- SYN_RECV or SYN_SENT
abbrev pub half_open : CtState → Bool
half_open CtState.new = false
half_open CtState.syn_recv = true
half_open CtState.syn_sent = true
half_open CtState.established = false
half_open CtState.fin_wait = false
half_open CtState.closed = false

abbrev pub is_established : CtState → Bool
is_established CtState.new = false
is_established CtState.syn_recv = false
is_established CtState.syn_sent = false
is_established CtState.established = true
is_established CtState.fin_wait = false
is_established CtState.closed = false

-- A flow that is known, by a packet of the host.
unfoldable pub sent : Outbound → ℕ → ConnState → ConnState
sent o now cs =
    let seen = record cs {
      last_seen_ns = now;
      pkts_out = add_u64 cs.pkts_out 1;
      bytes_out = add_u64 cs.bytes_out o.pkt_len;
      flags = set_bit cs.flags ct_f_outbound;
    } in
    let state = if half_open cs.state then CtState.established else cs.state in
    let flow =
      if is_established state
      then record seen { state = state; flags = set_bit seen.flags ct_f_seen_reply }
      else record seen { state = state } in
    if out_flag o tcp_rst
    then record flow { state = CtState.closed }
    else if out_flag o tcp_fin
    then record flow { state = CtState.fin_wait }
    else flow

-- Does either port take part in the management of the host?
unfoldable pub touches_mgmt : FwConfig → Outbound → Bool
touches_mgmt cfg o =
    if o.proto == 6
    then is_mgmt_tcp cfg o.sport || is_mgmt_tcp cfg o.dport
    else is_mgmt_udp cfg o.sport || is_mgmt_udp cfg o.dport

-- A flow that the host opens.
unfoldable pub outgoing : FwConfig → Skb → Outbound → ℕ → ConnState
unfolding touches_mgmt
outgoing cfg skb o now = record {
  created_ns = now;
  last_seen_ns = now;
  pkts_in = 0;
  bytes_in = 0;
  pkts_out = 1;
  bytes_out = o.pkt_len;
  state = if o.proto == 6 then CtState.syn_sent else CtState.established;
  flags =
      if touches_mgmt cfg o
      then set_bit (set_bit 0 ct_f_outbound) ct_f_mgmt
      else set_bit 0 ct_f_outbound;
  ifindex = skb.ifindex;
}

-- A packet without an entry that opens none: a TCP segment that is no initial SYN.
unfoldable pub opens_none : Outbound → Bool
opens_none o =
    (o.proto == 6 && not (out_flag o tcp_syn && not (test_bit o.tcp_flags tcp_ack)))
    || out_flag o tcp_rst

unfoldable pub track : FwConfig → Insert ConnKey → Skb → ℕ → Outbound → Maps → Maps
unfolding out_key sent outgoing opens_none tce_stat
track cfg ins skb now o m = elim (m.conn (out_key o)) [
  | some cs ↦
      let kept = record m { conn = write conn_eq (out_key o) (sent o now cs) m.conn } in
      tce_stat StatReason.ct_updated
        (if out_flag o tcp_rst then tce_stat StatReason.ct_closed kept else kept)
  | none ↦
      if opens_none o
      then m
      else if ins.fails
      then tce_stat StatReason.ct_full m
      else tce_stat StatReason.ct_created
          (record m { conn = store conn_eq ins (out_key o) (outgoing cfg skb o now) m.conn })
]

unfoldable pub tc_egress : Option FwConfig → Insert ConnKey → Skb → ℕ → Maps → Maps
unfolding parse_out track
tc_egress none ins skb now m = m
tc_egress (some cfg) ins skb now m =
    if test_bit cfg.flags f_enabled && test_bit cfg.flags f_conntrack
    then elim (parse_out skb) [ none ↦ m | some o ↦ track cfg ins skb now o m ]
    else m
