-- ===== src/Tests/Data.antt =====
-- A configuration of bpf/common.h that the tests share.
use caly_anti.Base.{ℕ, List, [], ◌∷◌}
use caly_anti.Abi.Bucket.{PerKind}
use caly_anti.Abi.Config.{FwConfig}

abbrev pub each : {A : Type 0} → A → PerKind A
each a = record { at_pps = a; at_bps = a; at_syn = a; at_udp = a; at_icmp = a; at_newconn = a }

abbrev pub ports : List ℕ
ports = 22 ∷ 8443 ∷ 0 ∷ 0 ∷ 0 ∷ 0 ∷ 0 ∷ 0 ∷ 0 ∷ 0 ∷ 0 ∷ 0 ∷ 0 ∷ 0 ∷ 0 ∷ 0 ∷ []

abbrev pub config : FwConfig
config = record {
  flags = 0;
  tb_rate = each 10;
  tb_burst = each 20;
  syn_fallback_pps = 100;
  ban_ttl_base_ns = 1_000;
  ban_ttl_max_ns = 10_000;
  ban_ttl_scan_ns = 2_000;
  ban_ttl_amp_ns = 3_000;
  strike_window_ns = 1_000;
  scan_window_ns = 1_000;
  strike_limit = 3;
  ct_tcp_syn_ns = 30;
  ct_tcp_est_ns = 1000;
  ct_tcp_fin_ns = 20;
  ct_udp_ns = 40;
  ct_udp_stream_ns = 80;
  ct_icmp_ns = 10;
  ct_generic_ns = 60;
  mode = 0;
  default_zone = 1;
  icmp_max_payload = 1472;
  icmp6_max_payload = 1452;
  frag_min_bytes = 256;
  ip_min_ttl = 0;
  tunnel_max_depth = 1;
  log_sample_rate = 1;
  log_max_pps = 100;
  ban_escalate_num = 3;
  ban_escalate_den = 2;
  scan_port_threshold = 4;
  vlan_max_depth = 2;
  ip6_ext_max = 4;
  tcp_min_doff = 5;
  mgmt_tcp_count = 2;
  mgmt_udp_count = 1;
  mgmt_tcp_ports = ports;
  mgmt_udp_ports = ports;
}
