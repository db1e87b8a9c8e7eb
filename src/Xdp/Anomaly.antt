-- ===== src/Xdp/Anomaly.antt =====
-- bpf/xdp_firewall.bpf.c, stage 2 of `caly_xdp_policy`: what no legitimate packet looks like.
use caly_anti.Base.{
  ℕ, ◌-◌, ◌*◌, ◌/◌, ◌%◌, ◌^◌, Bool, ◌&&◌, ◌||◌, not, ltb, leb, ◌==◌, if◌then◌else◌, List, [], ◌∷◌,
  get_or, Option, none, some,
}
use caly_anti.Abi.Bits.{
  f_land_check, f_tcp_flag_checks, f_anomaly_checks, f_frag_checks, f_icmp_filter, f_bogon_filter,
  f_wan_drop_private, if_drop_private, pkt_frag, pkt_l4_trunc,
}
use caly_anti.Base.Bits.{test_bit}
use caly_anti.Abi.Reason.{StatReason, reason_code}
use caly_anti.Parse.Packet.{is_icmp}
use caly_anti.Source.{v4_src_bogon, v6_src_bogon, tcp_flags_illegal}
use caly_anti.Xdp.State.{words_eq, is_v4, source}
use caly_anti.Xdp.Run.{Fixed, Run, Flow, next, ◌>>=◌, flag, pkt_flag, drop_for, pass_for}

unfoldable pub land_check : Fixed → Run → Flow
land_check fx r =
    if flag fx f_land_check && words_eq r.pkt.saddr r.pkt.daddr
    then drop_for StatReason.drop_land r
    else next r

-- `bad != STAT_PKT_TOTAL`
unfoldable pub refuse_for : StatReason → Run → Flow
unfolding reason_code
refuse_for bad r = if reason_code bad == 0 then next r else drop_for bad r

unfoldable pub flags_check : Fixed → Run → Flow
unfolding refuse_for
flags_check fx r =
    if flag fx f_tcp_flag_checks
    then refuse_for (tcp_flags_illegal (r.pkt.tcp_flags % 256)) r
    else next r

unfoldable pub ports_check : Fixed → Run → Flow
ports_check fx r =
    if flag fx f_anomaly_checks && (r.pkt.sport == 0 || r.pkt.dport == 0)
    then drop_for StatReason.drop_l4_port_zero r
    else next r

unfoldable pub tcp_check : Fixed → Run → Flow
unfolding flags_check ports_check
tcp_check fx r =
    if r.pkt.proto == 6 && not (pkt_flag r pkt_l4_trunc)
    then flags_check fx r >>= ports_check fx
    else next r

unfoldable pub udp_check : Fixed → Run → Flow
unfolding ports_check
udp_check fx r =
    if r.pkt.proto == 17 && not (pkt_flag r pkt_l4_trunc) then ports_check fx r else next r

abbrev pub icmp_type : Fixed → ℕ
icmp_type fx = fx.icmp_tc / 2 ^ 8 % 256

-- Destination unreachable; packet too big, and router and neighbour discovery.
unfoldable pub mandatory : Fixed → Run → Bool
mandatory fx r =
    if is_v4 r.pkt
    then icmp_type fx == 3
    else icmp_type fx == 2
      || icmp_type fx == 133
      || icmp_type fx == 134
      || icmp_type fx == 135
      || icmp_type fx == 136

unfoldable pub mandatory_reason : Fixed → Run → StatReason
mandatory_reason fx r =
    if is_v4 r.pkt
    then StatReason.pass_icmp4_pmtud
    else if icmp_type fx == 2
    then StatReason.pass_icmp6_pmtud
    else StatReason.pass_icmp6_nd

unfoldable pub icmp_frag_check : Fixed → Run → Flow
icmp_frag_check fx r =
    if flag fx f_frag_checks && pkt_flag r pkt_frag
    then drop_for StatReason.drop_frag_icmp r
    else next r

-- The bytes after the ICMP header, and the largest number of them.
unfoldable pub icmp_payload : Run → ℕ
icmp_payload r = if leb 8 r.pkt.l4_len then r.pkt.l4_len - 8 else 0

unfoldable pub icmp_limit : Fixed → Run → ℕ
icmp_limit fx r = if is_v4 r.pkt then fx.cfg.icmp_max_payload else fx.cfg.icmp6_max_payload

unfoldable pub icmp_size_check : Fixed → Run → Flow
unfolding icmp_payload icmp_limit
icmp_size_check fx r =
    if not (icmp_limit fx r == 0) && ltb (icmp_limit fx r) (icmp_payload r)
    then drop_for
        (if is_v4 r.pkt then StatReason.drop_icmp_oversize else StatReason.drop_icmp6_oversize) r
    else next r

-- `pol ? *pol : CALY_ICMP_PASS`
abbrev pub policy_or_pass : Option ℕ → ℕ
policy_or_pass none = 1
policy_or_pass (some p) = p

unfoldable pub icmp_policy_of : Fixed → Run → ℕ
icmp_policy_of fx r =
    policy_or_pass
      (if is_v4 r.pkt then fx.env.icmp4_pol (icmp_type fx) else fx.env.icmp6_pol (icmp_type fx))

unfoldable pub icmp_rule : Fixed → Run → Flow
unfolding mandatory mandatory_reason icmp_policy_of
icmp_rule fx r =
    if mandatory fx r
    then pass_for (mandatory_reason fx r) (record r { icmp_policy = 1 })
    else let r' = record r { icmp_policy = icmp_policy_of fx r } in
      if flag fx f_icmp_filter && r'.icmp_policy == 0
      then drop_for (if is_v4 r.pkt then StatReason.drop_icmp_type else StatReason.drop_icmp6_type)
          r'
      else next r'

unfoldable pub icmp_check : Fixed → Run → Flow
unfolding icmp_frag_check icmp_size_check icmp_rule
icmp_check fx r =
    if is_icmp r.pkt.proto
    then icmp_frag_check fx r >>= icmp_size_check fx >>= icmp_rule fx
    else next r

-- `(const __u8 *)&pkt->saddr[0]`: the bytes of a word in network order.
abbrev pub word_byte : List ℕ → ℕ → ℕ → ℕ
word_byte a i k = get_or a i 0 / 2 ^ (24 - 8 * k) % 256

abbrev pub word_bytes : List ℕ → ℕ → List ℕ
word_bytes a i = word_byte a i 0 ∷ word_byte a i 1 ∷ word_byte a i 2 ∷ word_byte a i 3 ∷ []

abbrev pub addr_bytes : List ℕ → List ℕ
addr_bytes a =
    word_byte a 0 0
    ∷ word_byte a 0 1
    ∷ word_byte a 0 2
    ∷ word_byte a 0 3
    ∷ word_byte a 1 0
    ∷ word_byte a 1 1
    ∷ word_byte a 1 2
    ∷ word_byte a 1 3
    ∷ word_byte a 2 0
    ∷ word_byte a 2 1
    ∷ word_byte a 2 2
    ∷ word_byte a 2 3
    ∷ word_byte a 3 0
    ∷ word_byte a 3 1
    ∷ word_byte a 3 2
    ∷ word_byte a 3 3
    ∷ []

unfoldable pub src_bogon : Fixed → Run → StatReason
src_bogon fx r =
    let drop_private = flag fx f_wan_drop_private || test_bit fx.if_flags if_drop_private in
    if is_v4 r.pkt
    then v4_src_bogon (word_byte r.pkt.saddr 0 0) (word_byte r.pkt.saddr 0 1)
        (word_byte r.pkt.saddr 0 2) (word_byte r.pkt.saddr 0 3) drop_private
    else v6_src_bogon (addr_bytes r.pkt.saddr) drop_private

-- A source in one of our own prefixes.
unfoldable pub self_check : Fixed → Run → Flow
self_check fx r =
    if fx.env.local_match (source r.pkt) then drop_for StatReason.drop_src_self r else next r

unfoldable pub martian_check : Fixed → Run → Flow
unfolding src_bogon refuse_for self_check
martian_check fx r =
    if flag fx f_bogon_filter && fx.is_wan
    then refuse_for (src_bogon fx r) r >>= self_check fx
    else next r

unfoldable pub anomalies : Fixed → Run → Flow
unfolding land_check tcp_check udp_check icmp_check martian_check
anomalies fx r =
    land_check fx r >>= tcp_check fx >>= udp_check fx >>= icmp_check fx >>= martian_check fx
