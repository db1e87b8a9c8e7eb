-- ===== src/Lib.antt =====
-- Caly-ANTI: the decisions of the BPF dataplane, the shared headers of src/bpf, its XDP
-- programs and its tc programs.
--
-- The XDP and tc programs take a frame, parse it, charge the buckets of its source, register strikes
-- and scans, and ban. They share src/bpf/common.h, compat.h and maps.h, and otherwise have parsers,
-- limiters and bans of their own, written out in their ladders. src/bpf/ratelimit.h, checksum.h and
-- parsing.h are the library that was written for them: no program includes ratelimit.h, and none calls
-- a function of the other two (tc_egress.bpf.c, tc_ingress.bpf.c and xdp_synproxy.bpf.c include them).
-- The three headers are modelled and proved in their own right; the theorems on the rate ladders of
-- the XDP and tc ingress programs say where those agree with caly_rate_check of ratelimit.h. A result
-- on Parse, Checksum, Ban or the functions of ratelimit.h is about a call of these functions.
--
-- src/bpf/xdp_firewall.bpf.c is a chain of four programs that tail-call each other: caly_xdp_main
-- (the link layer), caly_xdp_parse (the network and transport headers),
-- caly_xdp_policy (anomalies, lists, bans, known flows, lockdown) and caly_xdp_action (ports, buckets,
-- scans, SYN). Each ends in a verdict block that counts and reports the packet. They keep their state
-- in kernel maps. src/bpf/tc_egress.bpf.c enters what the host sends into the connection table
-- that the policy reads.
--
-- Files and code
--   Base        numbers, words that wrap, single bits, lists over the native numbers.
--   Abi         common.h: enum stat_reason (Reason), flag bits (Bits), buckets and struct rate_state
--               (Bucket), struct fw_config (Config).
--   Compat      compat.h: saturating counters, ages and clamps; CALY_ERR_* and their reasons (Errors),
--               and what each is charged to (Charge).
--   Bucket      common.h caly_tb_init and caly_tb_consume, ratelimit.h caly_tb_peek, caly_tb_avail,
--               caly_syn_global_ok, caly_port_rate_ok. Proofs: Exact (no wrap), Bounds, Credit and
--               Runs (sequences of packets), Answer, Fast.
--   Rate        ratelimit.h caly_rate_seed, caly_rate_check, caly_rate_syn_ok, caly_strike_register,
--               caly_strike_clear. Proofs: Check, Strike.
--   Ban         common.h caly_ban_next_ttl, ratelimit.h caly_ban_fill, caly_ban_refresh, caly_ban_hit,
--               caly_ban_base_ttl. Proofs: Ttl, Record.
--   Scan        common.h caly_mix32, caly_scan_mark, caly_scan_reset, ratelimit.h caly_scan_register.
--               Proofs: Filter, Window.
--   Source      common.h caly_v4_src_bogon, caly_v6_src_bogon, caly_tcp_flags_illegal,
--               caly_is_mgmt_tcp and caly_is_mgmt_udp. Proofs: Prefixes, Ipv4, Ipv6, Flags, Mgmt.
--   Checksum    checksum.h. Proofs: Arith, Replace, Words, Range, Verify, Layer4.
--   Parse       parsing.h: the cursor, and a child module per layer: Link, Ip4, Ip6, L4, Tunnel, Key,
--               Packet (caly_pkt_fill_l4 and struct pkt_ctx) and Frame (caly_parse_packet). Proofs:
--               Bounds, Chain, Fragment, Transport, Network, Offsets, Verdict, Refusal.
--   Xdp         xdp_firewall.bpf.c. State: the values of the maps, caly_stat, caly_gauge. Run: the locals
--               of a program and its control flow. Frame, Frame6, Network: caly_parse_l4, caly_parse_l3
--               and the loop of caly_xdp_parse. Link: caly_xdp_main. Anomaly, Reputation, Conntrack,
--               Policy: the stages of caly_xdp_policy. Ports, Rates, Scans, Action: those of
--               caly_xdp_action. Bans: caly_ban_install. Verdict: the verdict blocks. Chain: the four
--               programs and their tail calls. Proofs: Answers and Monitor (whole chain, on Stages,
--               Counts, Reasons, Charges, CountedPolicy, CountedAction, Refusals), Admission, Escapes,
--               Silence, BanOrder, BanResult, RateSame, Learning, Forged.
--   Egress      src/bpf/tc_egress.bpf.c, on the connection table of Xdp. Proofs: Reply (the reply to a flow
--               that the host opens), Repeat (a second packet of a flow).
--   Ingress     src/bpf/tc_ingress.bpf.c, the fallback of the XDP programs: the connection table, its
--               parser (Headers), its bans (Bans), the buckets, strikes and scans of a source (Limits),
--               and its exit (Finish). Proofs: Flows and Handshake (which inbound flows skip the buckets),
--               SameBuckets, Charged, InFrame.
--   Tests       concrete inputs.
--
-- Correspondence
--   A function keeps its name less `caly_`. One that writes through a pointer takes the structure and
--   returns the new one, with its result. An int that is 0 or 1 is a Bool; a pointer that may be null
--   is an Option; an array that an enum indexes is a record (PerKind). A machine word is a natural
--   number and every operation that can wrap has its modulus written out; a mask of one bit is given
--   by its position. A parser's negative code is `err`, of the constructor that CALY_ERR_* names.
--   A packet pointer is an offset into the list of the frame's bytes, and data_end is its length; a
--   byte is read at an offset that a pull or a peek has bounded. A field in network order is, in
--   Parse, the number that it has on the wire; Checksum works on native loads, so it takes the byte
--   order of the host (Endian) and its results hold of both.
--   The cursor and the output of a parser that fails are kept where a caller still reads them:
--   struct pkt_ctx, the fields of the L4 header, and what the walk over the IPv6 extension headers
--   has noted. `eth_out`, which the parser only hands on, is left out.
--
--   The XDP programs are state passing on a record of maps (Maps). A pair of maps for the two families
--   is one map keyed by either kind of address. A lookup gives the value, and a write through the
--   pointer that it gave replaces the value of that key; an insertion may fail, or evict other keys,
--   as a map with an LRU does. A stage is a function from the locals of its program (Run) to where it
--   goes next (Flow): on to the next stage, to the verdict, or away to the SYN proxy, whose program
--   replaces this one. The order of the stages is the composition of these functions.
--   What the kernel answers is a parameter (Env), about which nothing is assumed: the configuration as
--   each program of the chain finds it, whether the scratch record is there, whether a tail call
--   succeeds, the longest-prefix matches of the tries, the rules of ports and ICMP types, which
--   insertions fail. What a program leaves in caly_scratch for the next is passed on (Carry).
--
-- Bounds and loops
--   Every loop of the dataplane is unrolled against a constant; here it recurses on the rounds left,
--   which is that constant: 2 VLAN tags, 4 extension headers, one L3 header, 16 management ports,
--   64 words of a checksum; the loops of the XDP programs have the same bounds. The code leaves a loop
--   earlier by its own tests, which are kept, so no run ends for want of rounds.
--
-- Not modelled
--   The ladder of the tc ingress program as a whole, the SYN proxy (only that a packet is handed
--   over to it), what the kernel does with its maps beyond Env, and userspace (loader, daemon, configuration, control socket,
--   statistics, tuning). Updates of one map value by several CPUs at once: each program is modelled as
--   a run of its own. The fields of struct fw_config that the modelled functions do not read are left
--   out, and so is the version in an event.
pub mod Base
pub mod Abi
pub mod Compat
pub mod Bucket
pub mod Rate
pub mod Ban
pub mod Scan
pub mod Source
pub mod Checksum
pub mod Parse
pub mod Tests
pub mod Xdp
pub mod Egress
pub mod Ingress
