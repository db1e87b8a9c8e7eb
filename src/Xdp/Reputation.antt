-- ===== src/Xdp/Reputation.antt =====
-- bpf/xdp_firewall.bpf.c, stages 3 and 4 of `caly_xdp_policy`: the allowlist, the management ports,
-- the blocklist and the bans.
use caly_anti.Base.{
  ℕ, ◌-◌, Bool, true, false, ◌&&◌, ◌||◌, not, ltb, ◌==◌, if◌then◌else◌, none, some,
}
use caly_anti.Base.Bits.{test_bit, set_bit}
use caly_anti.Base.Word.{add_u64}
use caly_anti.Abi.Bits.{
  f_allowlist, f_blocklist, f_mgmt_bypass_all, rule_log, pkt_allowlist, pkt_mgmt, pkt_l4_trunc,
  ban_manual, ban_feed, ban_permanent,
}
use caly_anti.Abi.Reason.{StatReason}
use caly_anti.Ban.{BanEntry}
use caly_anti.Source.{is_mgmt_tcp, is_mgmt_udp}
use caly_anti.Xdp.State.{RuleMeta, source, source_eq, write}
use caly_anti.Xdp.Run.{Fixed, Run, Flow, next, ◌>>=◌, flag, pkt_flag, drop_for, pass_for}

abbrev pub hit_rule : (ℕ → RuleMeta) → ℕ → ℕ → RuleMeta
hit_rule rules i j =
    if i == j then record (rules i) { hits = add_u64 (rules i).hits 1 } else rules j

unfoldable pub allow_hit : Run → ℕ → Run
allow_hit r i = record r {
  maps = record r.maps { allow = hit_rule r.maps.allow i };
  pkt = record r.pkt { flags = set_bit r.pkt.flags pkt_allowlist };
  want_event = r.want_event || test_bit (r.maps.allow i).flags rule_log;
}

unfoldable pub allowlist : Fixed → Run → Flow
unfolding allow_hit
allowlist fx r =
    if flag fx f_allowlist
    then elim (fx.env.allow_match (source r.pkt)) [
      | none ↦ next r
      | some i ↦ pass_for StatReason.pass_allowlist (allow_hit r i)
    ]
    else next r

unfoldable pub to_mgmt_port : Fixed → Run → Bool
to_mgmt_port fx r =
    not (pkt_flag r pkt_l4_trunc)
    && (if r.pkt.proto == 6
        then is_mgmt_tcp fx.cfg r.pkt.dport
        else if r.pkt.proto == 17
        then is_mgmt_udp fx.cfg r.pkt.dport
        else false)

unfoldable pub mgmt_ports : Fixed → Run → Flow
unfolding to_mgmt_port
mgmt_ports fx r =
    let r' = record r { pkt = record r.pkt { flags = set_bit r.pkt.flags pkt_mgmt } } in
    if to_mgmt_port fx r
    then (if flag fx f_mgmt_bypass_all then pass_for StatReason.pass_mgmt_port r' else next r')
    else next r

unfoldable pub blocklist : Fixed → Run → Flow
blocklist fx r =
    if flag fx f_blocklist
    then elim (fx.env.block_match (source r.pkt)) [
      | none ↦ next r
      | some i ↦
          drop_for StatReason.drop_blocklist
            (record r { maps = record r.maps { block = hit_rule r.maps.block i } })
    ]
    else next r

unfoldable pub is_active : BanEntry → ℕ → Bool
is_active be now = test_bit be.flags ban_permanent || ltb now be.expiry_ns

-- Set by the operator, a feed, or for good.
unfoldable pub is_deliberate : BanEntry → Bool
is_deliberate be =
    test_bit be.flags ban_manual || test_bit be.flags ban_feed || test_bit be.flags ban_permanent

-- The packet is dropped by the ban.
unfoldable pub serve_ban : BanEntry → Run → Flow
serve_ban be r = drop_for StatReason.drop_ban_active (record r {
  maps = record r.maps {
    ban =
        write source_eq (source r.pkt)
          (record be {
            last_hit_ns = r.pkt.ts_ns;
            hit_pkts = add_u64 be.hit_pkts 1;
            hit_bytes = add_u64 be.hit_bytes r.pkt.pkt_len;
          })
          r.maps.ban;
  };
  evval = if ltb r.pkt.ts_ns be.expiry_ns then be.expiry_ns - r.pkt.ts_ns else 0;
  ban_ttl = be.cur_ttl_ns;
})

unfoldable pub bans : Run → Flow
unfolding is_active is_deliberate serve_ban
bans r = elim (r.maps.ban (source r.pkt)) [
  | none ↦ next r
  | some be ↦
      if is_active be r.pkt.ts_ns
      then (if is_deliberate be then serve_ban be r else next (record r { ban_deferred = true }))
      else next r
]

unfoldable pub reputation : Fixed → Run → Flow
unfolding blocklist bans
reputation fx r = if pkt_flag r pkt_mgmt then next r else blocklist fx r >>= bans
