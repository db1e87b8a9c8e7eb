-- ===== src/Xdp/State.antt =====
-- bpf/common.h, bpf/maps.h: what the XDP programs keep in maps, and what they ask of the kernel.
--
-- A pair of maps for the two families (caly_ban4 and caly_ban6, ...) is one map with keys of either
-- kind. A map is a function from keys to what is stored there. `Env` is the kernel's side: what a
-- program reads and does not change, whether a call fails, and which entries an insertion evicts.
use caly_anti.Base.{
  ℕ, Bool, true, false, ◌&&◌, leb, ◌==◌, if◌then◌else◌, ◌≡◌, arith, List, get_or, Option, none,
  some,
}
use caly_anti.Base.Word.{add_u64}
use caly_anti.Abi.Bucket.{TokenBucket, RateState}
use caly_anti.Abi.Config.{FwConfig}
use caly_anti.Abi.Reason.{StatReason, reason_code}
use caly_anti.Ban.{BanEntry}
use caly_anti.Bucket.{PortRule}
use caly_anti.Parse.Key.{ConnKey, af_inet, copy_words}
use caly_anti.Parse.Packet.{PktCtx}
use caly_anti.Scan.{ScanState}

-- The key of a map per source: a word, or `struct in6_key`.
pub data Source : Type 0 where
  v4 : ℕ → Source
  v6 : List ℕ → Source

-- conn_state.state, CALY_CT_*
pub data CtState : Type 0 where
  new syn_recv syn_sent established fin_wait closed : CtState

pub record ConnState : Type 0 where
  pub created_ns : ℕ
  pub last_seen_ns : ℕ
  pub pkts_in : ℕ
  pub bytes_in : ℕ
  pub pkts_out : ℕ
  pub bytes_out : ℕ
  pub state : CtState
  pub flags : ℕ
  pub ifindex : ℕ

pub record RuleMeta : Type 0 where
  pub hits : ℕ
  pub flags : ℕ

pub record SrcStats : Type 0 where
  pub packets : ℕ
  pub bytes : ℕ
  pub drops : ℕ
  pub drop_bytes : ℕ
  pub first_seen_ns : ℕ
  pub last_seen_ns : ℕ
  pub last_reason : StatReason

-- `enum caly_verdict`
pub data VerdictCode : Type 0 where
  v_pass v_drop v_tx v_monitor : VerdictCode

pub record Event : Type 0 where
  pub ts_ns : ℕ
  pub ban_ttl_ns : ℕ
  pub value : ℕ
  pub saddr : List ℕ
  pub daddr : List ℕ
  pub ifindex : ℕ
  pub reason : StatReason
  pub verdict : VerdictCode
  pub proto : ℕ
  pub pkt_len : ℕ
  pub family : ℕ
  pub sport : ℕ
  pub dport : ℕ
  pub tcp_flags : ℕ
  pub mode : ℕ

-- `enum caly_gauge`, less those of the SYN proxy
pub data Gauge : Type 0 where
  g_pkts g_bytes g_syn g_newconn g_drops g_udp g_icmp g_frag g_events g_events_lost : Gauge

unfoldable pub gauge_code : Gauge → ℕ
gauge_code g_pkts = 0
gauge_code g_bytes = 1
gauge_code g_syn = 2
gauge_code g_newconn = 3
gauge_code g_drops = 4
gauge_code g_udp = 5
gauge_code g_icmp = 6
gauge_code g_frag = 7
gauge_code g_events = 9
gauge_code g_events_lost = 10

pub record Maps : Type 0 where
  pub stats : StatReason → ℕ
  pub stats_b : StatReason → ℕ
  pub gauges : Gauge → ℕ
  pub ban : Source → Option BanEntry
  pub rate : Source → Option RateState
  pub scan : Source → Option ScanState
  pub top : Source → Option SrcStats
  pub conn : ConnKey → Option ConnState
  -- the rules of the allow and block tries, by the number of the rule
  pub allow : ℕ → RuleMeta
  pub block : ℕ → RuleMeta
  pub port_tb : ℕ → TokenBucket
  -- caly_scratch.tmp
  pub ev_count : ℕ
  pub ev_win_ns : ℕ
  pub ev_in_win : ℕ
  pub events : List Event

-- What an insertion into a map with an LRU does besides: fail, or evict other entries.
pub record Insert (K : Type 0) : Type 0 where
  pub fails : Bool
  pub evicts : K → Bool

pub record IfaceConfig : Type 0 where
  pub flags : ℕ
  pub zone : ℕ

-- The programs of the tail-call chain.
pub data Prog : Type 0 where
  main parse policy action : Prog

pub record Env : Type 0 where
  pub config : Prog → Option FwConfig
  pub scratch : Prog → Bool
  pub iface : ℕ → Option IfaceConfig
  pub tail_call : Prog → Bool
  pub synproxy_call : Bool
  -- the longest-prefix matches of the tries
  pub allow_match : Source → Option ℕ
  pub block_match : Source → Option ℕ
  pub local_match : Source → Bool
  pub icmp4_pol : ℕ → Option ℕ
  pub icmp6_pol : ℕ → Option ℕ
  pub port_tcp : ℕ → Option PortRule
  pub port_udp : ℕ → Option PortRule
  pub ban_insert : Insert Source
  pub rate_insert : Insert Source
  pub scan_insert : Insert Source
  pub top_insert : Insert Source
  pub conn_insert : Insert ConnKey
  pub output_fails : Bool

unfoldable pub words_eq : List ℕ → List ℕ → Bool
words_eq a b =
    get_or a 0 0 == get_or b 0 0
    && get_or a 1 0 == get_or b 1 0
    && get_or a 2 0 == get_or b 2 0
    && get_or a 3 0 == get_or b 3 0

unfoldable pub source_eq : Source → Source → Bool
unfolding words_eq
source_eq (v4 a) (v4 b) = a == b
source_eq (v4 a) (v6 b) = false
source_eq (v6 a) (v4 b) = false
source_eq (v6 a) (v6 b) = words_eq a b

unfoldable pub conn_eq : ConnKey → ConnKey → Bool
unfolding words_eq
conn_eq a b =
    words_eq a.saddr b.saddr
    && words_eq a.daddr b.daddr
    && a.sport == b.sport
    && a.dport == b.dport
    && a.proto == b.proto
    && a.family == b.family
    && get_or a.pad 0 0 == get_or b.pad 0 0
    && get_or a.pad 1 0 == get_or b.pad 1 0

pub words_eq_refl : (a : List ℕ) → words_eq a a ≡ true
unfolding words_eq
words_eq_refl a = ground arith

pub source_eq_refl : (s : Source) → source_eq s s ≡ true
unfolding source_eq
source_eq_refl (v4 a) = ground arith
source_eq_refl (v6 a) = words_eq_refl a

pub conn_eq_refl : (k : ConnKey) → conn_eq k k ≡ true
unfolding conn_eq
conn_eq_refl k = ground (arith, words_eq_refl k.saddr, words_eq_refl k.daddr)

-- A value that is written through the pointer that a lookup gave.
abbrev pub write : {K V : Type 0} → (K → K → Bool) → K → V → (K → Option V) → K → Option V
write eq k v m j = if eq k j then some v else m j

-- `bpf_map_update_elem(..., BPF_ANY)`, where it succeeds.
unfoldable pub store :
    {K V : Type 0} → (K → K → Bool) → Insert K → K → V → (K → Option V) → K → Option V
store eq ins k v m j = if eq k j then some v else if ins.evicts j then none else m j

-- `caly_stat`
unfoldable pub bump : ℕ → StatReason → (StatReason → ℕ) → StatReason → ℕ
bump n reason f q = if reason_code q == reason_code reason then add_u64 (f q) n else f q

unfoldable pub stat : StatReason → ℕ → Maps → Maps
unfolding reason_code bump
stat reason bytes m =
    if leb (reason_code StatReason.max) (reason_code reason)
    then m
    else record m { stats = bump 1 reason m.stats; stats_b = bump bytes reason m.stats_b }

unfoldable pub gauge : Gauge → ℕ → Maps → Maps
gauge g add m = record m {
  gauges = λ q. if gauge_code q == gauge_code g then add_u64 (m.gauges q) add else m.gauges q;
}

abbrev pub is_v4 : PktCtx → Bool
is_v4 pkt = pkt.family == af_inet

-- skey4 or skey6
abbrev pub source : PktCtx → Source
source pkt = if is_v4 pkt then v4 (get_or pkt.saddr 0 0) else v6 (copy_words pkt.saddr)
