-- ===== src/Tests/World.antt =====
-- Empty maps, a packet and a kernel that grants every call.
use caly_anti.Base.{false, true, [], ◌∷◌, none, some}
use caly_anti.Abi.Config.{FwConfig}
use caly_anti.Parse.Packet.{PktCtx}
use caly_anti.Xdp.State.{Maps, Env, Insert}
use caly_anti.Xdp.Chain.{Carry}

abbrev pub insert : {K : Type 0} → Insert K
insert = record { fails = false; evicts = λ k. false }

abbrev pub env : FwConfig → Env
env cfg = record {
  config = λ prog. some cfg;
  scratch = λ prog. true;
  iface = λ i. none;
  tail_call = λ prog. true;
  synproxy_call = false;
  allow_match = λ s. some 0;
  block_match = λ s. none;
  local_match = λ s. false;
  icmp4_pol = λ t. none;
  icmp6_pol = λ t. none;
  port_tcp = λ p. none;
  port_udp = λ p. none;
  ban_insert = insert;
  rate_insert = insert;
  scan_insert = insert;
  top_insert = insert;
  conn_insert = insert;
  output_fails = false;
}

abbrev pub maps : Maps
maps = record {
  stats = λ q. 0;
  stats_b = λ q. 0;
  gauges = λ g. 0;
  ban = λ s. none;
  rate = λ s. none;
  scan = λ s. none;
  top = λ s. none;
  conn = λ k. none;
  allow = λ i. record { hits = 0; flags = 0 };
  block = λ i. record { hits = 0; flags = 0 };
  port_tb = λ i. record { tokens = 0; last_refill_ns = 0 };
  ev_count = 0;
  ev_win_ns = 0;
  ev_in_win = 0;
  events = [];
}

-- A segment of TCP from 203.0.113.9 to 192.168.0.1, to port 22, with FIN and ACK.
abbrev pub segment : PktCtx
segment = record {
  ts_ns = 5_000;
  saddr = 0x097100CB ∷ 0 ∷ 0 ∷ 0 ∷ [];
  daddr = 0x0100A8C0 ∷ 0 ∷ 0 ∷ 0 ∷ [];
  l3_off = 14;
  l4_off = 34;
  payload_off = 54;
  pkt_len = 60;
  ifindex = 3;
  family = 4;
  proto = 6;
  vlan_depth = 0;
  tunnel_depth = 0;
  frag_off = 0;
  tcp_flags = 17;
  flags = 0;
  sport = 40_000;
  dport = 22;
  eth_proto = 0x0800;
  l4_len = 20;
}

abbrev pub carry : Carry
carry = record {
  is_wan = true;
  if_monitor = false;
  if_flags = 0;
  icmp_tc = 0x0300;
  ct_missed = true;
  ct_key_valid = true;
}
