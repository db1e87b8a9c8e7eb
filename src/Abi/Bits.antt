-- ===== src/Abi/Bits.antt =====
-- common.h: the positions of the flag bits that the modelled code tests or sets.
use caly_anti.Base.{ℕ}

-- CALY_RS_F_*, of rate_state.flags
abbrev pub rs_seeded : ℕ
rs_seeded = 0

abbrev pub rs_striking : ℕ
rs_striking = 1

-- CALY_BAN_F_*, of ban_entry.flags
abbrev pub ban_auto : ℕ
ban_auto = 0

abbrev pub ban_manual : ℕ
ban_manual = 1

abbrev pub ban_permanent : ℕ
ban_permanent = 2

abbrev pub ban_escalated : ℕ
ban_escalated = 3

abbrev pub ban_feed : ℕ
ban_feed = 4

-- CALY_F_*, of fw_config.flags
abbrev pub f_tunnel_inspect : ℕ
f_tunnel_inspect = 5

abbrev pub f_drop_ip4_options : ℕ
f_drop_ip4_options = 14

abbrev pub f_drop_rh0 : ℕ
f_drop_rh0 = 15

abbrev pub f_enabled : ℕ
f_enabled = 0

abbrev pub f_monitor_only : ℕ
f_monitor_only = 1

abbrev pub f_ipv4 : ℕ
f_ipv4 = 2

abbrev pub f_ipv6 : ℕ
f_ipv6 = 3

abbrev pub f_vlan_inspect : ℕ
f_vlan_inspect = 4

abbrev pub f_anomaly_checks : ℕ
f_anomaly_checks = 6

abbrev pub f_land_check : ℕ
f_land_check = 7

abbrev pub f_bogon_filter : ℕ
f_bogon_filter = 8

abbrev pub f_wan_drop_private : ℕ
f_wan_drop_private = 9

abbrev pub f_tcp_flag_checks : ℕ
f_tcp_flag_checks = 10

abbrev pub f_frag_checks : ℕ
f_frag_checks = 11

abbrev pub f_drop_all_frags : ℕ
f_drop_all_frags = 12

abbrev pub f_icmp_filter : ℕ
f_icmp_filter = 13

abbrev pub f_ttl_check : ℕ
f_ttl_check = 16

abbrev pub f_allowlist : ℕ
f_allowlist = 17

abbrev pub f_blocklist : ℕ
f_blocklist = 18

abbrev pub f_autoban : ℕ
f_autoban = 19

abbrev pub f_rate_limit : ℕ
f_rate_limit = 20

abbrev pub f_anti_amplify : ℕ
f_anti_amplify = 21

abbrev pub f_port_policy : ℕ
f_port_policy = 22

abbrev pub f_default_deny : ℕ
f_default_deny = 23

abbrev pub f_conntrack : ℕ
f_conntrack = 24

abbrev pub f_portscan_detect : ℕ
f_portscan_detect = 25

abbrev pub f_synproxy : ℕ
f_synproxy = 26

abbrev pub f_src_stats : ℕ
f_src_stats = 27

abbrev pub f_log_events : ℕ
f_log_events = 28

abbrev pub f_mgmt_bypass_all : ℕ
f_mgmt_bypass_all = 29

abbrev pub f_lockdown_icmp : ℕ
f_lockdown_icmp = 30

abbrev pub f_drop_unknown_l3 : ℕ
f_drop_unknown_l3 = 31

abbrev pub f_cap_synproxy : ℕ
f_cap_synproxy = 32

abbrev pub f_cap_tc_egress : ℕ
f_cap_tc_egress = 35

-- CALY_PKT_F_*, of pkt_ctx.flags
abbrev pub pkt_frag : ℕ
pkt_frag = 0

abbrev pub pkt_frag_first : ℕ
pkt_frag_first = 1

abbrev pub pkt_tunneled : ℕ
pkt_tunneled = 2

abbrev pub pkt_vlan : ℕ
pkt_vlan = 3

abbrev pub pkt_wan : ℕ
pkt_wan = 4

abbrev pub pkt_allowlist : ℕ
pkt_allowlist = 5

abbrev pub pkt_mgmt : ℕ
pkt_mgmt = 6

abbrev pub pkt_ct_hit : ℕ
pkt_ct_hit = 7

abbrev pub pkt_l4_trunc : ℕ
pkt_l4_trunc = 8

-- CALY_PORT_F_*, of port_rule.flags
abbrev pub port_amplifier : ℕ
port_amplifier = 0

abbrev pub port_mgmt : ℕ
port_mgmt = 1

abbrev pub port_synproxy : ℕ
port_synproxy = 2

abbrev pub port_no_ct : ℕ
port_no_ct = 3

abbrev pub port_log : ℕ
port_log = 4

abbrev pub port_present : ℕ
port_present = 5

-- CALY_IF_F_*, of iface_config.flags
abbrev pub if_wan : ℕ
if_wan = 0

abbrev pub if_monitor : ℕ
if_monitor = 1

abbrev pub if_disabled : ℕ
if_disabled = 2

abbrev pub if_drop_private : ℕ
if_drop_private = 3

abbrev pub if_no_ipv6 : ℕ
if_no_ipv6 = 4

-- CALY_CT_F_*, of conn_state.flags
abbrev pub ct_f_outbound : ℕ
ct_f_outbound = 0

abbrev pub ct_f_mgmt : ℕ
ct_f_mgmt = 2

abbrev pub ct_f_allowlist : ℕ
ct_f_allowlist = 3

abbrev pub ct_f_seen_reply : ℕ
ct_f_seen_reply = 4

-- CALY_RULE_F_LOG, of rule_meta.flags
abbrev pub rule_log : ℕ
rule_log = 4

-- CALY_TCP_*, of the flags byte of a TCP header
abbrev pub tcp_fin : ℕ
tcp_fin = 0

abbrev pub tcp_syn : ℕ
tcp_syn = 1

abbrev pub tcp_rst : ℕ
tcp_rst = 2

abbrev pub tcp_ack : ℕ
tcp_ack = 4
