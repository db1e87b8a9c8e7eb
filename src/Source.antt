-- ===== src/Source.antt =====
-- bpf/common.h: what the dataplane thinks of a source address, of TCP flags, and of a management
-- port.
pub mod Prefixes
pub mod Ipv4
pub mod Ipv6
pub mod Flags
pub mod Mgmt
use Prim.Native.Nat.{bit_and, bit_or}
use caly_anti.Base.{
  ℕ, zero, suc, ◌+◌, Bool, true, false, ◌&&◌, ◌||◌, not, ltb, leb, ◌==◌, if◌then◌else◌, List, [],
  ◌∷◌, get_or,
}
use caly_anti.Abi.Config.{FwConfig}
use caly_anti.Abi.Reason.{
  StatReason, pkt_total, drop_bogon_src, drop_mcast_src, drop_bcast_src, drop_private_src,
  drop_ip6_src_unspec, drop_ip6_src_loopback, drop_tcp_all_flags, drop_tcp_null, drop_tcp_syn_fin,
  drop_tcp_syn_rst, drop_tcp_fin_rst, drop_tcp_xmas, drop_tcp_fin_only,
}

-- The address is its four bytes, first octet first.
unfoldable pub v4_src_bogon : ℕ → ℕ → ℕ → ℕ → Bool → StatReason
v4_src_bogon a b c d drop_private =
    if a == 0
    then drop_bogon_src
    else if a == 127
    then drop_bogon_src
    else if a == 169 && b == 254
    then drop_bogon_src
    else if bit_and a 0xF0 == 0xE0
    then drop_mcast_src
    else if bit_and a 0xF0 == 0xF0
    then (if a == 255 && b == 255 && c == 255 && d == 255 then drop_bcast_src else drop_bogon_src)
    else if a == 192 && b == 0 && c == 2
    then drop_bogon_src
    else if a == 198 && b == 51 && c == 100
    then drop_bogon_src
    else if a == 203 && b == 0 && c == 113
    then drop_bogon_src
    else if a == 198 && bit_and b 0xFE == 18
    then drop_bogon_src
    else if drop_private && a == 10
    then drop_private_src
    else if drop_private && (a == 172 && bit_and b 0xF0 == 16)
    then drop_private_src
    else if drop_private && (a == 192 && b == 168)
    then drop_private_src
    else if drop_private && (a == 100 && bit_and b 0xC0 == 64)
    then drop_private_src
    else pkt_total

-- `for (i = 0; i < n; i++) acc |= a[i]`
unfoldable pub or_bytes : ℕ → ℕ → List ℕ → ℕ
or_bytes zero acc a = acc
or_bytes (suc n) acc [] = acc
or_bytes (suc n) acc (x ∷ a) = or_bytes n (bit_or acc x) a

abbrev pub byte_at : List ℕ → ℕ → ℕ
byte_at a i = get_or a i 0

-- The address is its sixteen bytes.
unfoldable pub v6_src_bogon : List ℕ → Bool → StatReason
v6_src_bogon a drop_private =
    let acc = or_bytes 15 0 a in
    if byte_at a 0 == 0xFF
    then drop_mcast_src
    else if acc == 0 && byte_at a 15 == 0
    then drop_ip6_src_unspec
    else if acc == 0 && byte_at a 15 == 1
    then drop_ip6_src_loopback
    else if byte_at a 0 == 1
        && byte_at a 1 == 0
        && byte_at a 2 == 0
        && byte_at a 3 == 0
        && byte_at a 4 == 0
        && byte_at a 5 == 0
        && byte_at a 6 == 0
        && byte_at a 7 == 0
    then drop_bogon_src
    else if drop_private && bit_and (byte_at a 0) 0xFE == 0xFC
    then drop_private_src
    else if drop_private && (byte_at a 0 == 0xFE && bit_and (byte_at a 1) 0xC0 == 0x80)
    then drop_private_src
    else pkt_total

-- CALY_TCP_FIN 1, SYN 2, RST 4, PSH 8, ACK 16, URG 32; the mask 0x3F leaves out ECE and CWR.
unfoldable pub tcp_flags_illegal : ℕ → StatReason
tcp_flags_illegal flags =
    let f = bit_and flags 0x3F in
    if flags == 0xFF
    then drop_tcp_all_flags
    else if f == 0
    then drop_tcp_null
    else if bit_and f 0x03 == 0x03
    then drop_tcp_syn_fin
    else if bit_and f 0x06 == 0x06
    then drop_tcp_syn_rst
    else if bit_and f 0x05 == 0x05
    then drop_tcp_fin_rst
    else if bit_and f 0x29 == 0x29
    then drop_tcp_xmas
    else if f == 0x01
    then drop_tcp_fin_only
    else pkt_total

abbrev pub mgmt_ports_max : ℕ
mgmt_ports_max = 16

-- `for (i = 0; i < CALY_MGMT_PORTS_MAX; i++)`, on the rounds left, with its break at `n`.
unfoldable pub mgmt_loop : ℕ → ℕ → ℕ → List ℕ → ℕ → Bool
mgmt_loop zero i n ports port = false
mgmt_loop (suc rounds) i n ports port =
    let rest = mgmt_loop rounds (i + 1) n ports port in
    if leb n i then false else if get_or ports i 0 == port then true else rest

unfoldable pub is_mgmt : ℕ → List ℕ → ℕ → Bool
is_mgmt count ports port =
    let n = if ltb mgmt_ports_max count then mgmt_ports_max else count in
    mgmt_loop mgmt_ports_max 0 n ports port

unfoldable pub is_mgmt_tcp : FwConfig → ℕ → Bool
is_mgmt_tcp cfg port = is_mgmt cfg.mgmt_tcp_count cfg.mgmt_tcp_ports port

unfoldable pub is_mgmt_udp : FwConfig → ℕ → Bool
is_mgmt_udp cfg port = is_mgmt cfg.mgmt_udp_count cfg.mgmt_udp_ports port
