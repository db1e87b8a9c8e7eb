-- ===== src/Tests/Sent.antt =====
-- bpf/tc_egress.bpf.c on concrete packets.
use caly_anti.Base.{ℕ, ◌+◌, ◌^◌, ◌≡◌, refl, arith, true, List, [], ◌∷◌, some, inr}
use caly_anti.Base.Bits.{test_bit}
use caly_anti.Abi.Bits.{ct_f_seen_reply}
use caly_anti.Abi.Config.{FwConfig}
use caly_anti.Abi.Reason.{StatReason}
use caly_anti.Parse.Packet.{PktCtx}
use caly_anti.Xdp.State.{Maps, ConnState, CtState}
use caly_anti.Xdp.Run.{Run, ◌>>=◌, Ensures, start}
use caly_anti.Xdp.Admission.{Never}
use caly_anti.Xdp.Conntrack.{conntrack}
use caly_anti.Xdp.Policy.{deferred_ban, unsolicited_synack}
use caly_anti.Xdp.Chain.{fixed}
use caly_anti.Egress.{
  Skb, Outbound, skip_tags, l3_off, outbound_zero, parse_ports, parse_out4, parse_out, out_key,
  opens_none, tc_egress,
}
use caly_anti.Egress.Reply.{IsReply, tc_egress-conntrack}
use caly_anti.Egress.Repeat.{IsRefused, tc_egress_unanswered, tc_egress_reconnect}
use caly_anti.Tests.Data.{config}
use caly_anti.Tests.World.{env, insert, maps, segment, carry}

-- From 192.168.0.1 to 192.168.0.199, the IPv4 header and what follows.
abbrev frame : ℕ → ℕ → List ℕ → List ℕ
frame tot_len proto rest =
    2 ∷ 0 ∷ 0 ∷ 0 ∷ 0 ∷ 2 ∷ 2 ∷ 0 ∷ 0 ∷ 0 ∷ 0 ∷ 1 ∷ 8 ∷ 0 ∷ 0x45 ∷ 0 ∷ 0 ∷ tot_len ∷ 0 ∷ 7 ∷ 0x40
    ∷ 0 ∷ 64 ∷ proto ∷ 0 ∷ 0 ∷ 192 ∷ 168 ∷ 0 ∷ 1 ∷ 192 ∷ 168 ∷ 0 ∷ 199 ∷ rest

-- A query to port 53.
abbrev query : Skb
query = record {
  bytes = frame 28 17 (0xC0 ∷ 1 ∷ 0 ∷ 53 ∷ 0 ∷ 8 ∷ 0 ∷ 0 ∷ []);
  len = 42;
  protocol = 0x0800;
  ifindex = 3;
}

-- A SYN to port 443.
abbrev syn : Skb
syn = record {
  bytes =
      frame 40 6 (
        0xC0 ∷ 1 ∷ 1 ∷ 187 ∷ 0 ∷ 0 ∷ 0 ∷ 0 ∷ 0 ∷ 0 ∷ 0 ∷ 0 ∷ 0x50 ∷ 2 ∷ 0 ∷ 0 ∷ 0 ∷ 0 ∷ 0 ∷ 0 ∷ []);
  len = 54;
  protocol = 0x0800;
  ifindex = 3;
}

abbrev asked : Outbound
asked = record {
  src = 3232235521 ∷ 0 ∷ 0 ∷ 0 ∷ [];
  dst = 3232235719 ∷ 0 ∷ 0 ∷ 0 ∷ [];
  family = 4;
  proto = 17;
  sport = 49153;
  dport = 53;
  tcp_flags = 0;
  pkt_len = 42;
}

abbrev opening : Outbound
opening = record asked { proto = 6; dport = 443; tcp_flags = 2; pkt_len = 54 }

query_parsed : parse_out query ≡ some asked
unfolding parse_out l3_off skip_tags outbound_zero parse_out4 parse_ports
query_parsed = refl

syn_parsed : parse_out syn ≡ some opening
unfolding parse_out l3_off skip_tags outbound_zero parse_out4 parse_ports
syn_parsed = refl

abbrev tracking : FwConfig
tracking = record config { flags = 1 + 2 ^ 24 + 2 ^ 35 }

abbrev answer : PktCtx
answer = record segment {
  ts_ns = 1_030;
  saddr = 3232235719 ∷ 0 ∷ 0 ∷ 0 ∷ [];
  daddr = 3232235521 ∷ 0 ∷ 0 ∷ 0 ∷ [];
  proto = 17;
  sport = 53;
  dport = 49153;
  tcp_flags = 0;
}

abbrev answered : Run
answered = record (start maps answer) {
  maps = record maps { conn = (tc_egress (some tracking) insert query 1_000 maps).conn };
}

answer-IsReply : IsReply asked answer
answer-IsReply = record {
  saddr = refl;
  daddr = refl;
  sport = refl;
  dport = refl;
  proto = refl;
  family = refl;
}

tc_egress-conntrack_example :
    Ensures Never
      (λ s. (s.act ≡ answered.act) × (s.reason ≡ StatReason.pass_conntrack))
      Never
      (conntrack (fixed (env tracking) tracking carry) answered)
unfolding start test_bit opens_none
tc_egress-conntrack_example =
    tc_egress-conntrack tracking insert query 1_000 maps asked (fixed (env tracking) tracking carry)
      answered refl query_parsed refl refl refl refl answer-IsReply (inr (omega arith)) refl refl
      refl

tc_egress_unanswered_example :
    (cs : ConnState) × ((tc_egress
          (some tracking)
          insert
          query
          1_010
          (tc_egress (some tracking) insert query 1_000 maps)).conn
        (out_key asked)
      ≡ some cs)
    × (cs.pkts_in ≡ 0)
    × (cs.state ≡ CtState.established)
    × (test_bit cs.flags ct_f_seen_reply ≡ true)
unfolding test_bit opens_none
tc_egress_unanswered_example =
    tc_egress_unanswered tracking insert query query 1_000 1_010 maps asked asked refl query_parsed
      query_parsed refl refl refl refl refl refl

-- An entry that a reset has closed.
abbrev reset : ConnState
reset = record {
  created_ns = 100;
  last_seen_ns = 900;
  pkts_in = 3;
  bytes_in = 300;
  pkts_out = 3;
  bytes_out = 300;
  state = CtState.closed;
  flags = 17;
  ifindex = 3;
}

abbrev with_reset : Maps
with_reset = record maps { conn = λ k. some reset }

abbrev synack : Run
synack = record (start maps (record answer { proto = 6; sport = 443; tcp_flags = 18 })) {
  maps = record maps { conn = (tc_egress (some tracking) insert syn 1_000 with_reset).conn };
}

synack-IsReply : IsReply opening (record answer { proto = 6; sport = 443; tcp_flags = 18 })
synack-IsReply = record {
  saddr = refl;
  daddr = refl;
  sport = refl;
  dport = refl;
  proto = refl;
  family = refl;
}

tc_egress_reconnect_example :
    (cs : ConnState) × ((tc_egress (some tracking) insert syn 1_000 with_reset).conn
        (out_key opening)
      ≡ some cs)
    × (cs.state ≡ CtState.closed)
    × (cs.last_seen_ns ≡ 1_000)
    × Ensures Never IsRefused Never (
        conntrack (fixed (env tracking) tracking carry) synack
        >>= deferred_ban
        >>= unsolicited_synack (fixed (env tracking) tracking carry))
unfolding start test_bit
tc_egress_reconnect_example =
    tc_egress_reconnect tracking insert syn 1_000 with_reset opening reset
      (fixed (env tracking) tracking carry) synack refl syn_parsed refl refl refl refl
      synack-IsReply refl refl refl refl refl refl refl
