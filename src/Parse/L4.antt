-- ===== src/Parse/L4.antt =====
-- bpf/parsing.h: the headers of TCP, UDP and ICMP. `out` is filled before a header is judged, so a
-- parser returns it beside its result.
use caly_anti.Base.{ℕ, ◌+◌, ◌-◌, ◌*◌, ◌/◌, ◌%◌, ◌||◌, ltb, ◌==◌, if◌then◌else◌, Option, none, some}
use caly_anti.Compat.Errors.{Result, ok, err, ◌>>=◌, l4_trunc, tcp_doff, l4_port_zero}
use caly_anti.Parse.{Cursor, Pulled, pull, load_u8, load_u16, need, refuse_if}

pub record L4Info : Type 0 where
  pub sport : ℕ
  pub dport : ℕ
  pub hdr_bytes : ℕ
  pub tcp_flags : ℕ
  pub icmp_type : ℕ
  pub icmp_code : ℕ

-- `__builtin_memset(&l4, 0, sizeof(l4))`
abbrev pub l4_zero : L4Info
l4_zero = record {
  sport = 0;
  dport = 0;
  hdr_bytes = 0;
  tcp_flags = 0;
  icmp_type = 0;
  icmp_code = 0;
}

unfoldable pub tcp_info : Cursor → ℕ → L4Info
tcp_info c p = record {
  sport = load_u16 c p;
  dport = load_u16 c (p + 2);
  hdr_bytes = load_u8 c (p + 12) / 16 * 4;
  tcp_flags = load_u8 c (p + 13);
  icmp_type = 0;
  icmp_code = 0;
}

abbrev pub clamp_doff : ℕ → ℕ
clamp_doff min_doff = if ltb min_doff 5 || ltb 15 min_doff then 5 else min_doff

-- `if (doff_bytes > sizeof(*th)) { ... }`: the cursor past the options.
unfoldable pub pull_tcp_options : Cursor → ℕ → Result Cursor
pull_tcp_options c doff_bytes = do
  sized ← refuse_if tcp_doff (ltb 40 (doff_bytes - 20))
  opts ← need l4_trunc (pull c (doff_bytes - 20))
  ok opts.rest

-- What `caly_parse_tcp` makes of a header that it has pulled.
unfoldable pub judge_tcp : Cursor → ℕ → L4Info → Result Cursor
unfolding pull_tcp_options
judge_tcp rest min_doff th = do
  short ← refuse_if tcp_doff (ltb th.hdr_bytes (clamp_doff min_doff * 4))
  port_zero ← refuse_if l4_port_zero (th.sport == 0 || th.dport == 0)
  if ltb 20 th.hdr_bytes then pull_tcp_options rest th.hdr_bytes else ok rest

unfoldable pub tcp_pulled : Option Pulled → Cursor → ℕ → L4Info → L4Info × Result Cursor
unfolding tcp_info judge_tcp
tcp_pulled none c min_doff out = (out, err l4_trunc)
tcp_pulled (some h) c min_doff out = (tcp_info c h.at, judge_tcp h.rest min_doff (tcp_info c h.at))

unfoldable pub parse_tcp : Cursor → ℕ → L4Info → L4Info × Result Cursor
unfolding tcp_pulled
parse_tcp c min_doff out = tcp_pulled (pull c 20) c min_doff out

unfoldable pub udp_info : Cursor → ℕ → L4Info
udp_info c p = record {
  sport = load_u16 c p;
  dport = load_u16 c (p + 2);
  hdr_bytes = 8;
  tcp_flags = 0;
  icmp_type = 0;
  icmp_code = 0;
}

unfoldable pub judge_udp : Cursor → L4Info → Result Cursor
judge_udp rest uh = do port_zero ← refuse_if l4_port_zero (uh.sport == 0 || uh.dport == 0); ok rest

unfoldable pub udp_pulled : Option Pulled → Cursor → L4Info → L4Info × Result Cursor
unfolding udp_info judge_udp
udp_pulled none c out = (out, err l4_trunc)
udp_pulled (some h) c out = (udp_info c h.at, judge_udp h.rest (udp_info c h.at))

unfoldable pub parse_udp : Cursor → L4Info → L4Info × Result Cursor
unfolding udp_pulled
parse_udp c out = udp_pulled (pull c 8) c out

-- CALY_PKT_ICMP_PACK
abbrev pub icmp_pack : ℕ → ℕ → ℕ
icmp_pack type code = type * 256 + code % 256

unfoldable pub icmp_info : Cursor → ℕ → L4Info
icmp_info c p = record {
  sport = icmp_pack (load_u8 c p) (load_u8 c (p + 1)) % 65536;
  dport = 0;
  hdr_bytes = 8;
  tcp_flags = 0;
  icmp_type = load_u8 c p;
  icmp_code = load_u8 c (p + 1);
}

unfoldable pub icmp_pulled : Option Pulled → Cursor → L4Info → L4Info × Result Cursor
unfolding icmp_info
icmp_pulled none c out = (out, err l4_trunc)
icmp_pulled (some h) c out = (icmp_info c h.at, ok h.rest)

unfoldable pub parse_icmp : Cursor → L4Info → L4Info × Result Cursor
unfolding icmp_pulled
parse_icmp c out = icmp_pulled (pull c 8) c out
