-- ===== src/Abi/Config.antt =====
-- common.h, `struct fw_config`: the fields that the modelled code reads.
use caly_anti.Base.{ℕ, List}
use caly_anti.Abi.Bucket.{PerKind}

pub record FwConfig : Type 0 where
  pub flags : ℕ
  pub tb_rate : PerKind ℕ
  pub tb_burst : PerKind ℕ
  pub syn_fallback_pps : ℕ
  pub ban_ttl_base_ns : ℕ
  pub ban_ttl_max_ns : ℕ
  pub ban_ttl_scan_ns : ℕ
  pub ban_ttl_amp_ns : ℕ
  pub strike_window_ns : ℕ
  pub scan_window_ns : ℕ
  pub ct_tcp_syn_ns : ℕ
  pub ct_tcp_est_ns : ℕ
  pub ct_tcp_fin_ns : ℕ
  pub ct_udp_ns : ℕ
  pub ct_udp_stream_ns : ℕ
  pub ct_icmp_ns : ℕ
  pub ct_generic_ns : ℕ
  pub mode : ℕ
  pub default_zone : ℕ
  pub strike_limit : ℕ
  pub ban_escalate_num : ℕ
  pub ban_escalate_den : ℕ
  pub scan_port_threshold : ℕ
  pub icmp_max_payload : ℕ
  pub icmp6_max_payload : ℕ
  pub frag_min_bytes : ℕ
  pub ip_min_ttl : ℕ
  pub vlan_max_depth : ℕ
  pub ip6_ext_max : ℕ
  pub tunnel_max_depth : ℕ
  pub tcp_min_doff : ℕ
  pub log_sample_rate : ℕ
  pub log_max_pps : ℕ
  pub mgmt_tcp_count : ℕ
  pub mgmt_udp_count : ℕ
  pub mgmt_tcp_ports : List ℕ
  pub mgmt_udp_ports : List ℕ
