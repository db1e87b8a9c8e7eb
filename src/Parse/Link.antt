-- ===== src/Parse/Link.antt =====
-- bpf/parsing.h, `caly_parse_eth`: the Ethernet header and its VLAN tags.
use caly_anti.Base.{ℕ, zero, suc, ◌+◌, Bool, not, ◌||◌, ltb, leb, ◌==◌, if◌then◌else◌}
use caly_anti.Compat.{vlan_depth_bound}
use caly_anti.Compat.Errors.{Result, ok, ◌>>=◌, eth_trunc, vlan_trunc, vlan_depth}
use caly_anti.Parse.{Cursor, Pulled, pull, load_u16, need, refuse_if}

abbrev pub eth_p_ip : ℕ
eth_p_ip = 0x0800

abbrev pub eth_p_ipv6 : ℕ
eth_p_ipv6 = 0x86DD

abbrev pub eth_p_arp : ℕ
eth_p_arp = 0x0806

abbrev pub eth_p_teb : ℕ
eth_p_teb = 0x6558

unfoldable pub eth_proto_is_vlan : ℕ → Bool
eth_proto_is_vlan proto =
    proto == 0x8100 || proto == 0x88A8 || proto == 0x9100 || proto == 0x9200 || proto == 0x9300

-- What the walk over the tags has reached, and the parser's results.
pub record Link : Type 0 where
  pub proto : ℕ
  pub depth : ℕ
  pub cursor : Cursor

-- The unrolled loop, on the rounds left.
unfoldable pub vlan_loop : ℕ → ℕ → ℕ → Link → Result Link
vlan_loop zero i max_vlan l = ok l
vlan_loop (suc rounds) i max_vlan l =
    let rest = λ (h : Pulled).
      vlan_loop rounds (i + 1) max_vlan
        (record { proto = load_u16 l.cursor (h.at + 2); depth = l.depth + 1; cursor = h.rest }) in
    if leb max_vlan i
    then ok l
    else if not (eth_proto_is_vlan l.proto)
    then ok l
    else need vlan_trunc (pull l.cursor 4) >>= rest

unfoldable pub parse_eth : Cursor → ℕ → Result Link
parse_eth c max_vlan = do
  eth ← need eth_trunc (pull c 14)
  l ←
      vlan_loop vlan_depth_bound 0
        (if ltb vlan_depth_bound max_vlan then vlan_depth_bound else max_vlan)
        (record { proto = load_u16 c (eth.at + 12); depth = 0; cursor = eth.rest })
  refused ← refuse_if vlan_depth (eth_proto_is_vlan l.proto)
  ok l
