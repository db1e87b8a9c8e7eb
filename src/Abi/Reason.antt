-- ===== src/Abi/Reason.antt =====
-- common.h, `enum stat_reason`: why a packet passed or was dropped. `reason_code` is the number that
-- C gives to each name; `pkt_total`, 0, also stands for "no objection" in the classifiers.
use caly_anti.Base.{ℕ, Bool, ◌&&◌, ◌||◌, leb, ◌==◌}

pub data StatReason : Type 0 where
  pkt_total pass_total drop_total tx_total monitor_would_drop pass_not_ip : StatReason
  pass_lan_iface pass_disabled pass_allowlist pass_mgmt_port pass_conntrack : StatReason
  pass_port_open pass_port_rate_ok pass_icmp_policy pass_icmp6_nd pass_icmp6_pmtud : StatReason
  pass_icmp4_pmtud pass_syncookie_ok pass_default drop_eth_trunc drop_vlan_trunc : StatReason
  drop_vlan_depth drop_l3_unknown drop_ip4_trunc drop_ip4_ihl drop_ip4_totlen : StatReason
  drop_ip4_options drop_ip6_trunc drop_ip6_ext_depth drop_ip6_ext_trunc : StatReason
  drop_ip6_rh0 drop_ip6_disabled drop_ttl_zero drop_ttl_low drop_tunnel_trunc : StatReason
  drop_tunnel_depth drop_tunnel_proto drop_gre_malformed drop_l4_trunc : StatReason
  drop_l4_unknown drop_l4_port_zero drop_land drop_bogon_src drop_private_src : StatReason
  drop_mcast_src drop_bcast_src drop_ip6_src_unspec drop_ip6_src_loopback : StatReason
  drop_src_self drop_frag_tiny drop_frag_off_one drop_frag_policy drop_frag_icmp : StatReason
  drop_tcp_null drop_tcp_fin_only drop_tcp_syn_fin drop_tcp_syn_rst : StatReason
  drop_tcp_fin_rst drop_tcp_xmas drop_tcp_all_flags drop_tcp_doff : StatReason
  drop_tcp_synack_unsol drop_icmp_type drop_icmp_oversize drop_icmp6_type : StatReason
  drop_icmp6_oversize drop_blocklist drop_ban_active drop_lockdown drop_amp_srcport : StatReason
  drop_port_closed drop_port_rate drop_default_deny drop_rate_pps drop_rate_bps : StatReason
  drop_rate_syn drop_rate_udp drop_rate_icmp drop_rate_newconn drop_rate_global_syn : StatReason
  drop_portscan synproxy_gen_ok synproxy_gen_fail synproxy_tx synproxy_tx_fail : StatReason
  synproxy_check_ok drop_syncookie_bad synproxy_unavail synproxy_skipped ct_created : StatReason
  ct_hit ct_miss ct_updated ct_full ct_closed ban_added ban_escalated ban_refreshed : StatReason
  ban_full strike_added map_full_rate map_full_scan map_full_srcstat event_emitted : StatReason
  event_sampled_out event_lost tailcall_fail scratch_fail config_missing max : StatReason

unfoldable pub reason_code : StatReason → ℕ
reason_code pkt_total = 0
reason_code pass_total = 1
reason_code drop_total = 2
reason_code tx_total = 3
reason_code monitor_would_drop = 4
reason_code pass_not_ip = 5
reason_code pass_lan_iface = 6
reason_code pass_disabled = 7
reason_code pass_allowlist = 8
reason_code pass_mgmt_port = 9
reason_code pass_conntrack = 10
reason_code pass_port_open = 11
reason_code pass_port_rate_ok = 12
reason_code pass_icmp_policy = 13
reason_code pass_icmp6_nd = 14
reason_code pass_icmp6_pmtud = 15
reason_code pass_icmp4_pmtud = 16
reason_code pass_syncookie_ok = 17
reason_code pass_default = 18
reason_code drop_eth_trunc = 19
reason_code drop_vlan_trunc = 20
reason_code drop_vlan_depth = 21
reason_code drop_l3_unknown = 22
reason_code drop_ip4_trunc = 23
reason_code drop_ip4_ihl = 24
reason_code drop_ip4_totlen = 25
reason_code drop_ip4_options = 26
reason_code drop_ip6_trunc = 27
reason_code drop_ip6_ext_depth = 28
reason_code drop_ip6_ext_trunc = 29
reason_code drop_ip6_rh0 = 30
reason_code drop_ip6_disabled = 31
reason_code drop_ttl_zero = 32
reason_code drop_ttl_low = 33
reason_code drop_tunnel_trunc = 34
reason_code drop_tunnel_depth = 35
reason_code drop_tunnel_proto = 36
reason_code drop_gre_malformed = 37
reason_code drop_l4_trunc = 38
reason_code drop_l4_unknown = 39
reason_code drop_l4_port_zero = 40
reason_code drop_land = 41
reason_code drop_bogon_src = 42
reason_code drop_private_src = 43
reason_code drop_mcast_src = 44
reason_code drop_bcast_src = 45
reason_code drop_ip6_src_unspec = 46
reason_code drop_ip6_src_loopback = 47
reason_code drop_src_self = 48
reason_code drop_frag_tiny = 49
reason_code drop_frag_off_one = 50
reason_code drop_frag_policy = 51
reason_code drop_frag_icmp = 52
reason_code drop_tcp_null = 53
reason_code drop_tcp_fin_only = 54
reason_code drop_tcp_syn_fin = 55
reason_code drop_tcp_syn_rst = 56
reason_code drop_tcp_fin_rst = 57
reason_code drop_tcp_xmas = 58
reason_code drop_tcp_all_flags = 59
reason_code drop_tcp_doff = 60
reason_code drop_tcp_synack_unsol = 61
reason_code drop_icmp_type = 62
reason_code drop_icmp_oversize = 63
reason_code drop_icmp6_type = 64
reason_code drop_icmp6_oversize = 65
reason_code drop_blocklist = 66
reason_code drop_ban_active = 67
reason_code drop_lockdown = 68
reason_code drop_amp_srcport = 69
reason_code drop_port_closed = 70
reason_code drop_port_rate = 71
reason_code drop_default_deny = 72
reason_code drop_rate_pps = 73
reason_code drop_rate_bps = 74
reason_code drop_rate_syn = 75
reason_code drop_rate_udp = 76
reason_code drop_rate_icmp = 77
reason_code drop_rate_newconn = 78
reason_code drop_rate_global_syn = 79
reason_code drop_portscan = 80
reason_code synproxy_gen_ok = 81
reason_code synproxy_gen_fail = 82
reason_code synproxy_tx = 83
reason_code synproxy_tx_fail = 84
reason_code synproxy_check_ok = 85
reason_code drop_syncookie_bad = 86
reason_code synproxy_unavail = 87
reason_code synproxy_skipped = 88
reason_code ct_created = 89
reason_code ct_hit = 90
reason_code ct_miss = 91
reason_code ct_updated = 92
reason_code ct_full = 93
reason_code ct_closed = 94
reason_code ban_added = 95
reason_code ban_escalated = 96
reason_code ban_refreshed = 97
reason_code ban_full = 98
reason_code strike_added = 99
reason_code map_full_rate = 100
reason_code map_full_scan = 101
reason_code map_full_srcstat = 102
reason_code event_emitted = 103
reason_code event_sampled_out = 104
reason_code event_lost = 105
reason_code tailcall_fail = 106
reason_code scratch_fail = 107
reason_code config_missing = 108
reason_code max = 109

unfoldable pub stat_reason_is_drop : StatReason → Bool
unfolding reason_code
stat_reason_is_drop r =
    leb (reason_code drop_eth_trunc) (reason_code r)
      && leb (reason_code r) (reason_code drop_portscan)
    || reason_code r == reason_code drop_syncookie_bad
