-- ===== src/Ingress.antt =====
-- bpf/tc_ingress.bpf.c: the helpers of the program that filters where no XDP program can be attached,
-- on the maps of the XDP programs.
use caly_anti.Base.{
  ℕ, ◌%◌, Bool, true, false, ◌&&◌, ◌||◌, not, ltb, leb, ◌==◌, if◌then◌else◌, List, [], ◌∷◌, get_or,
  Option, none, some,
}
use caly_anti.Base.Bits.{test_bit, set_bit}
use caly_anti.Base.Word.{add_u64, add_u32, sub_u64}
use caly_anti.Abi.Bits.{
  rs_seeded, rs_striking, ct_f_outbound, ct_f_allowlist, ct_f_seen_reply, tcp_fin, tcp_syn, tcp_rst,
  tcp_ack, ban_auto, ban_escalated, ban_permanent,
}
use caly_anti.Abi.Bucket.{TbKind, PerKind, TokenBucket, RateState}
use caly_anti.Abi.Config.{FwConfig}
use caly_anti.Abi.Reason.{StatReason, reason_code}
use caly_anti.Ban.{BanEntry, ban_next_ttl}
use caly_anti.Compat.{add_sat_u32}
use caly_anti.Parse.Key.{ConnKey, key_zero, copy_words, af_inet}
use caly_anti.Parse.Packet.{is_icmp}
use caly_anti.Rate.{charge}
use caly_anti.Scan.{ScanState, scan_mark, scan_reset}
use caly_anti.Xdp.State.{
  Source, v4, v6, CtState, ConnState, Insert, Maps, conn_eq, source_eq, write, store, stat,
}
use caly_anti.Xdp.Conntrack.{is_closed}
pub mod Bans
pub mod Limits
pub mod Finish
pub mod Charged
pub mod Headers
pub mod InFrame
pub mod Flows
pub mod Handshake
pub mod SameBuckets

-- `struct tci_pkt`
pub record TciPkt : Type 0 where
  pub saddr : List ℕ
  pub daddr : List ℕ
  pub family : ℕ
  pub proto : ℕ
  pub l3_off : ℕ
  pub l4_off : ℕ
  pub pkt_len : ℕ
  pub ifindex : ℕ
  pub pkt_flags : ℕ
  pub icmp_type : ℕ
  pub sport : ℕ
  pub dport : ℕ
  pub tcp_flags : ℕ
  pub frag_units : ℕ
  pub ttl : ℕ
  pub is_wan : Bool
  pub is_syn : Bool
  pub drop_private : Bool

-- `tci_stat`, the same code as `caly_stat`
abbrev pub tci_stat : StatReason → ℕ → Maps → Maps
tci_stat reason bytes m = stat reason bytes m

-- key4 or key6
abbrev pub tci_source : TciPkt → Source
tci_source p = if p.family == af_inet then v4 (get_or p.saddr 0 0) else v6 (copy_words p.saddr)

unfoldable pub tci_conn_key : TciPkt → ConnKey
tci_conn_key p = record key_zero {
  saddr = copy_words p.saddr;
  daddr = copy_words p.daddr;
  sport = p.sport;
  dport = p.dport;
  proto = p.proto % 256;
  family = p.family % 256;
}

-- TCI_CT_*
pub data CtHit : Type 0 where
  ct_miss ct_unconfirmed ct_confirmed : CtHit

abbrev pub tci_tcp : TciPkt → ℕ → Bool
tci_tcp p k = p.proto == 6 && test_bit p.tcp_flags k

abbrev pub is_syn_recv : CtState → Bool
is_syn_recv CtState.new = false
is_syn_recv CtState.syn_recv = true
is_syn_recv CtState.syn_sent = false
is_syn_recv CtState.established = false
is_syn_recv CtState.fin_wait = false
is_syn_recv CtState.closed = false

abbrev pub tci_seen : TciPkt → ℕ → ConnState → ConnState
tci_seen p now cs = record cs {
  last_seen_ns = now;
  pkts_in = add_u64 cs.pkts_in 1;
  bytes_in = add_u64 cs.bytes_in p.pkt_len;
}

-- The ACK of a handshake that an inbound SYN began.
abbrev pub ends_handshake : TciPkt → ConnState → Bool
ends_handshake p cs =
    is_syn_recv cs.state && tci_tcp p tcp_ack && not (test_bit p.tcp_flags tcp_syn)

unfoldable pub tci_advance : TciPkt → ConnState → ConnState
tci_advance p cs =
    let up =
      if ends_handshake p cs
      then record cs { state = CtState.established; flags = set_bit cs.flags ct_f_seen_reply }
      else cs in
    if tci_tcp p tcp_rst
    then record up { state = CtState.closed }
    else if tci_tcp p tcp_fin
    then record up { state = CtState.fin_wait }
    else up

unfoldable pub tci_class : ConnState → CtHit
tci_class cs =
    if test_bit cs.flags ct_f_seen_reply || test_bit cs.flags ct_f_outbound
    then ct_confirmed
    else ct_unconfirmed

abbrev pub stat_if : Bool → StatReason → Maps → Maps
stat_if b reason m = if b then tci_stat reason 0 m else m

-- A packet that has an entry.
unfoldable pub tci_known : TciPkt → ℕ → ConnState → Maps → Maps × CtHit
unfolding tci_conn_key tci_advance tci_class
tci_known p now cs m =
    let seen = tci_seen p now cs in
    let cs' = tci_advance p seen in
    if is_closed cs.state
    then (
      tci_stat StatReason.ct_miss 0
          (record m { conn = write conn_eq (tci_conn_key p) seen m.conn }),
      ct_miss,
    )
    else (
      tci_stat StatReason.ct_hit 0 (
          stat_if (tci_tcp p tcp_rst) StatReason.ct_closed (
            stat_if (ends_handshake p seen) StatReason.ct_updated
              (record m { conn = write conn_eq (tci_conn_key p) cs' m.conn }))),
      tci_class cs',
    )

unfoldable pub tci_conn_hit : TciPkt → ℕ → Maps → Maps × CtHit
unfolding tci_conn_key tci_known
tci_conn_hit p now m = elim (m.conn (tci_conn_key p)) [
  | none ↦ (tci_stat StatReason.ct_miss 0 m, ct_miss)
  | some cs ↦ tci_known p now cs m
]

-- `rule_flags` is the flags of the allowlist rule that matched, or 0.
unfoldable pub tci_opened : TciPkt → ℕ → ℕ → ConnState
tci_opened p rule_flags now = record {
  created_ns = now;
  last_seen_ns = now;
  pkts_in = 1;
  bytes_in = p.pkt_len;
  pkts_out = 0;
  bytes_out = 0;
  state = if p.proto == 6 && p.is_syn then CtState.syn_recv else CtState.new;
  flags = if rule_flags == 0 then 0 else set_bit 0 ct_f_allowlist;
  ifindex = p.ifindex;
}

unfoldable pub tci_conn_create : Insert ConnKey → TciPkt → ℕ → ℕ → Maps → Maps
unfolding tci_conn_key tci_opened
tci_conn_create ins p rule_flags now m =
    if ins.fails
    then tci_stat StatReason.ct_full 0 m
    else tci_stat StatReason.ct_created 0 (record m {
      conn = store conn_eq ins (tci_conn_key p) (tci_opened p rule_flags now) m.conn;
    })
