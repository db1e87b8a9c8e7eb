-- ===== src/Egress/Reply.antt =====
-- The reply to a flow that the host opens: bpf/tc_egress.bpf.c and stage 5 of bpf/xdp_firewall.bpf.c
-- share the connection table.
use caly_anti.Base.{
  ℕ, ◌+◌, ◌*◌, ◌%◌, ltb, ◌≤◌, ◌≡◌, ◌⊎◌, refl, arith, Bool, true, false, ◌&&◌, ◌||◌, not, ◌==◌,
  if◌then◌else◌, Option, none, some, List, Bool-cases, inl, inr,
}
use caly_anti.Base.Bits.{test_bit, set_bit}
use caly_anti.Abi.Bits.{
  f_enabled, f_conntrack, pkt_l4_trunc, tcp_rst, ct_f_seen_reply, ct_f_outbound, ct_f_mgmt,
}
use caly_anti.Abi.Config.{FwConfig}
use caly_anti.Abi.Reason.{StatReason}
use caly_anti.Parse.Key.{ConnKey, af_inet}
use caly_anti.Parse.Packet.{PktCtx}
use caly_anti.Xdp.State.{Insert, Maps, conn_eq_refl, store}
use caly_anti.Xdp.Frame.{u8, u16, past_end}
use caly_anti.Xdp.Run.{Fixed, Run, Ensures, flag, pkt_flag, pass_for}
use caly_anti.Xdp.Admission.{Never}
use caly_anti.Xdp.Conntrack.{
  conn_key, tcp_timeout, timeout, is_stale, is_closed, advance, touched, touch, known_flow,
  conntrack,
}
use caly_anti.Egress.{
  Skb, Outbound, tce_stat, l3_off, with_ports, parse_ports, parse_out4, parse_out6, parse_out,
  addressed4, addressed6, outbound_zero, out_key, touches_mgmt, outgoing, opens_none, track,
  tc_egress,
}
use mathlib.Core.Path.{subst}

-- A packet of the flow in the other direction.
pub record IsReply (o : Outbound) (pkt : PktCtx) : Type 0 where
  pub saddr : pkt.saddr ≡ o.dst
  pub daddr : pkt.daddr ≡ o.src
  pub sport : pkt.sport ≡ o.dport
  pub dport : pkt.dport ≡ o.sport
  pub proto : pkt.proto ≡ o.proto
  pub family : pkt.family ≡ o.family

-- TCP or UDP.
abbrev pub has_flow : Outbound → Bool
has_flow o = o.proto == 6 || o.proto == 17

unfoldable IfSome : Option Outbound → Type 0
IfSome none = Unit
IfSome (some o) = has_flow o ≡ true

with_ports-IfSome : (o : Outbound) → has_flow o ≡ true → IfSome (with_ports o)
unfolding IfSome
with_ports-IfSome o h = ground arith

parse_ports-IfSome : (f : List ℕ) (o : Outbound) (off : ℕ) → IfSome (parse_ports f o off)
unfolding parse_ports IfSome
parse_ports-IfSome f o off = ground arith

parse_out4-IfSome : (f : List ℕ) (o : Outbound) (p : ℕ) → IfSome (parse_out4 f o p)
unfolding parse_out4
parse_out4-IfSome f o p =
    elim (Bool-cases
      (past_end f p 20 || ltb (u8 f p % 16) 5 || not (u16 f (p + 6) % 0x4000 == 0))) [
        | inl bad ↦ rw bad (unfold IfSome in tt)
        | inr good ↦ rw good (parse_ports-IfSome f (addressed4 f o p) (p + u8 f p % 16 * 4))
      ]

parse_out6-IfSome : (f : List ℕ) (o : Outbound) (p : ℕ) → IfSome (parse_out6 f o p)
unfolding parse_out6
parse_out6-IfSome f o p = elim (Bool-cases (past_end f p 40)) [
  | inl bad ↦ rw bad (unfold IfSome in tt)
  | inr good ↦ rw good (parse_ports-IfSome f (addressed6 f o p) (p + 40))
]

by_family-IfSome :
    (f : List ℕ) (o : Outbound) (p : ℕ) (b : Bool)
    → IfSome (if b then parse_out4 f o p else parse_out6 f o p)
by_family-IfSome f o p true = parse_out4-IfSome f o p
by_family-IfSome f o p false = parse_out6-IfSome f o p

parse_out-IfSome : (skb : Skb) → IfSome (parse_out skb)
unfolding parse_out
parse_out-IfSome skb =
    elim (l3_off skb.bytes skb.protocol)
      as (λ l. IfSome (elim l [
        | none ↦ none
        | some (p, family) ↦
            if family == af_inet
            then parse_out4 skb.bytes (outbound_zero skb.len family) p
            else parse_out6 skb.bytes (outbound_zero skb.len family) p
      ])) [
        | none ↦ unfold IfSome in tt
        | some (p, family) ↦
            by_family-IfSome skb.bytes (outbound_zero skb.len family) p (family == af_inet)
      ]

pub reply_key : (o : Outbound) (pkt : PktCtx) → IsReply o pkt → conn_key pkt ≡ out_key o
unfolding conn_key out_key
reply_key o pkt h = rw (h.saddr, h.daddr, h.sport, h.dport, h.proto, h.family) refl

-- How long the flow that was opened is kept without traffic, where 0 is for ever.
abbrev pub reply_time : FwConfig → Outbound → ℕ
reply_time cfg o = if o.proto == 6 then cfg.ct_tcp_syn_ns else cfg.ct_udp_ns

flags_of_new :
    (mgmt : Bool)
    → test_bit
        (if mgmt then set_bit (set_bit 0 ct_f_outbound) ct_f_mgmt else set_bit 0 ct_f_outbound)
        ct_f_seen_reply
      ≡ false
unfolding test_bit set_bit
flags_of_new true = refl
flags_of_new false = refl

no_reply_yet :
    (cfg : FwConfig) (skb : Skb) (o : Outbound) (now : ℕ)
    → test_bit (outgoing cfg skb o now).flags ct_f_seen_reply ≡ false
unfolding outgoing
no_reply_yet cfg skb o now = flags_of_new (touches_mgmt cfg o)

outgoing-timeout :
    (cfg cfg' : FwConfig) (skb : Skb) (o : Outbound) (now : ℕ) (pkt : PktCtx)
    → has_flow o ≡ true
    → IsReply o pkt
    → timeout cfg' pkt (outgoing cfg skb o now) ≡ reply_time cfg' o
unfolding timeout tcp_timeout
outgoing-timeout cfg cfg' skb o now pkt flow h =
    rw (h.proto, no_reply_yet cfg skb o now) (unfold outgoing in ground arith)

outgoing-fresh :
    (cfg cfg' : FwConfig) (skb : Skb) (o : Outbound) (now : ℕ) (pkt : PktCtx)
    → has_flow o ≡ true
    → IsReply o pkt
    → (reply_time cfg' o ≡ 0) ⊎ (pkt.ts_ns ≤ now + reply_time cfg' o)
    → is_stale cfg' pkt (outgoing cfg skb o now) ≡ false
unfolding is_stale
outgoing-fresh cfg cfg' skb o now pkt flow h soon =
    rw (outgoing-timeout cfg cfg' skb o now pkt flow h) (unfold outgoing in ground arith)

outgoing-open :
    (cfg : FwConfig) (skb : Skb) (o : Outbound) (now : ℕ) (pkt : PktCtx)
    → (pkt.proto == 6 && test_bit pkt.tcp_flags tcp_rst) ≡ false
    → is_closed (touched pkt (outgoing cfg skb o now)).state ≡ false
unfolding touched advance outgoing
outgoing-open cfg skb o now pkt h = ground arith

pub track-opens :
    (cfg : FwConfig) (ins : Insert ConnKey) (skb : Skb) (now : ℕ) (o : Outbound) (m : Maps)
    → m.conn (out_key o) ≡ none
    → opens_none o ≡ false
    → ins.fails ≡ false
    → (track cfg ins skb now o m).conn (out_key o) ≡ some (outgoing cfg skb o now)
unfolding track tce_stat store
track-opens cfg ins skb now o m unknown opens room = ground (arith, conn_eq_refl (out_key o))

-- What the program comes to for a packet that it can parse.
pub tc_egress-track :
    (cfg : FwConfig) (ins : Insert ConnKey) (skb : Skb) (now : ℕ) (o : Outbound) (m : Maps)
    → (test_bit cfg.flags f_enabled && test_bit cfg.flags f_conntrack) ≡ true
    → parse_out skb ≡ some o
    → tc_egress (some cfg) ins skb now m ≡ track cfg ins skb now o m
unfolding tc_egress
tc_egress-track cfg ins skb now o m on parsed = rw (on, parsed) refl

-- What the host asks for, it hears: a UDP datagram or an initial SYN that the host sends and that no
-- entry knows yet opens a flow, and a packet from the other end, in the same map and before the time
-- of a half-open flow is over, that resets nothing, then passes stage 5 of the policy for
-- PASS_CONNTRACK, whatever comes below it: ports, buckets and the scan detector have no say in it.
pub tc_egress-conntrack :
    (cfg : FwConfig) (ins : Insert ConnKey) (skb : Skb) (now : ℕ) (m : Maps) (o : Outbound)
    (fx : Fixed) (r : Run)
    → (test_bit cfg.flags f_enabled && test_bit cfg.flags f_conntrack) ≡ true
    → parse_out skb ≡ some o
    → m.conn (out_key o) ≡ none
    → opens_none o ≡ false
    → ins.fails ≡ false
    → r.maps.conn ≡ (tc_egress (some cfg) ins skb now m).conn
    → IsReply o r.pkt
    → (reply_time fx.cfg o ≡ 0) ⊎ (r.pkt.ts_ns ≤ now + reply_time fx.cfg o)
    → (r.pkt.proto == 6 && test_bit r.pkt.tcp_flags tcp_rst) ≡ false
    → flag fx f_conntrack ≡ true
    → pkt_flag r pkt_l4_trunc ≡ false
    → Ensures Never
        (λ s. (s.act ≡ r.act) × (s.reason ≡ StatReason.pass_conntrack))
        Never
        (conntrack fx r)
unfolding conntrack known_flow pass_for touch
tc_egress-conntrack cfg ins skb now m o fx r on parsed unknown opens room same reply soon kept
      tracks whole =
    let flow : has_flow o ≡ true = unfold IfSome in subst IfSome parsed (parse_out-IfSome skb) in
    let opened : (tc_egress (some cfg) ins skb now m).conn (out_key o)
        ≡ some (outgoing cfg skb o now) =
      rw (tc_egress-track cfg ins skb now o m on parsed)
        (track-opens cfg ins skb now o m unknown opens room) in
    let hit : r.maps.conn (conn_key r.pkt) ≡ some (outgoing cfg skb o now) =
      rw (same, reply_key o r.pkt reply, opened) refl in
    rw
      (
        tracks,
        whole,
        hit,
        outgoing-fresh cfg fx.cfg skb o now r.pkt flow reply soon,
        outgoing-open cfg skb o now r.pkt kept,
      )
      (refl, refl)
