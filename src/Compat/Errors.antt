-- ===== src/Compat/Errors.antt =====
-- bpf/compat.h: the codes that the parsers return when they fail, and what each one is charged to.
use caly_anti.Base.{Bool, true, false}
use caly_anti.Abi.Reason.{StatReason}

-- The codes CALY_ERR_*. CALY_OK is no code here: a parser returns its result instead.
pub data ParseErr : Type 0 where
  trunc eth_trunc vlan_trunc vlan_depth l3_unknown ip4_trunc ip4_ihl ip4_totlen : ParseErr
  ip4_options ip6_trunc ip6_ext_depth ip6_ext_trunc ip6_rh0 tunnel_trunc tunnel_depth : ParseErr
  tunnel_proto gre_malformed l4_trunc l4_unknown tcp_doff l4_port_zero encrypted : ParseErr
  no_next frag_no_l4 inval : ParseErr

unfoldable pub parse_err_reason : ParseErr → StatReason
parse_err_reason eth_trunc = StatReason.drop_eth_trunc
parse_err_reason vlan_trunc = StatReason.drop_vlan_trunc
parse_err_reason vlan_depth = StatReason.drop_vlan_depth
parse_err_reason l3_unknown = StatReason.drop_l3_unknown
parse_err_reason ip4_trunc = StatReason.drop_ip4_trunc
parse_err_reason ip4_ihl = StatReason.drop_ip4_ihl
parse_err_reason ip4_totlen = StatReason.drop_ip4_totlen
parse_err_reason ip4_options = StatReason.drop_ip4_options
parse_err_reason ip6_trunc = StatReason.drop_ip6_trunc
parse_err_reason ip6_ext_depth = StatReason.drop_ip6_ext_depth
parse_err_reason ip6_ext_trunc = StatReason.drop_ip6_ext_trunc
parse_err_reason ip6_rh0 = StatReason.drop_ip6_rh0
parse_err_reason tunnel_trunc = StatReason.drop_tunnel_trunc
parse_err_reason tunnel_depth = StatReason.drop_tunnel_depth
parse_err_reason tunnel_proto = StatReason.drop_tunnel_proto
parse_err_reason gre_malformed = StatReason.drop_gre_malformed
parse_err_reason l4_trunc = StatReason.drop_l4_trunc
parse_err_reason l4_unknown = StatReason.drop_l4_unknown
parse_err_reason tcp_doff = StatReason.drop_tcp_doff
parse_err_reason l4_port_zero = StatReason.drop_l4_port_zero
parse_err_reason trunc = StatReason.drop_l4_trunc
parse_err_reason encrypted = StatReason.pkt_total
parse_err_reason no_next = StatReason.pkt_total
parse_err_reason frag_no_l4 = StatReason.pkt_total
parse_err_reason inval = StatReason.pkt_total

unfoldable pub parse_err_benign : ParseErr → Bool
parse_err_benign encrypted = true
parse_err_benign no_next = true
parse_err_benign frag_no_l4 = true
parse_err_benign _ = false

-- A parser's result, or its code.
pub data Result {ℓ} (A : Type ℓ) : Type ℓ where
  ok : A → Result A
  err : ParseErr → Result A

infixl 5 ◌>>=◌
abbrev pub ◌>>=◌ {ℓ κ} : {A : Type ℓ} {B : Type κ} → Result A → (A → Result B) → Result B
ok a >>= f = f a
err e >>= f = err e
