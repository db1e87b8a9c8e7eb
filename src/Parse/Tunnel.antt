-- ===== src/Parse/Tunnel.antt =====
-- bpf/parsing.h: one level of a tunnel, IPIP, 6in4 or GRE.
use Prim.Native.Nat.{bit_and}
use caly_anti.Base.{ℕ, ◌+◌, ◌%◌, Bool, true, false, ◌||◌, not, ltb, leb, ◌==◌, if◌then◌else◌}
use caly_anti.Base.Bits.{test_bit}
use caly_anti.Compat.{tunnel_depth_bound, vlan_depth_bound}
use caly_anti.Compat.Errors.{
  Result, ok, err, ◌>>=◌, tunnel_trunc, tunnel_depth, tunnel_proto, gre_malformed,
}
use caly_anti.Parse.{Cursor, Pulled, pull, load_u16, need, refuse_if}
use caly_anti.Parse.Link.{parse_eth, eth_p_ip, eth_p_ipv6, eth_p_teb}

unfoldable pub proto_is_tunnel : ℕ → Bool
proto_is_tunnel proto = proto == 4 || proto == 41 || proto == 47

-- The bytes of the optional fields: checksum, key and sequence number.
unfoldable pub gre_optbytes : ℕ → ℕ
gre_optbytes flags =
    (if test_bit flags 15 then 4 else 0)
    + (if test_bit flags 13 then 4 else 0)
    + (if test_bit flags 12 then 4 else 0)

-- `if (optbytes && !caly_pull(c, optbytes)) return ...;`
unfoldable pub skip_gre_options : Cursor → ℕ → Result Cursor
skip_gre_options c optbytes =
    if optbytes == 0
    then ok c
    else need tunnel_trunc (pull c optbytes) >>= (λ (h : Pulled). ok h.rest)

-- The inner ethertype, and the cursor past the header. CALY_GRE_F_ROUTING, CALY_GRE_F_SSR and
-- CALY_GRE_F_RESERVED0 make up the mask 0x48F8.
unfoldable pub parse_gre : Cursor → Result (ℕ × Cursor)
unfolding gre_optbytes
parse_gre c = do
  gre ← need tunnel_trunc (pull c 4)
  version ← refuse_if gre_malformed (not (load_u16 c gre.at % 8 == 0))
  reserved ← refuse_if gre_malformed (not (bit_and (load_u16 c gre.at) 0x48F8 == 0))
  sized ← refuse_if gre_malformed (ltb 12 (gre_optbytes (load_u16 c gre.at)))
  rest ← skip_gre_options gre.rest (gre_optbytes (load_u16 c gre.at))
  ok (load_u16 c (gre.at + 2), rest)

-- `*inner_is_v6`, from an ethertype.
unfoldable pub inner_of : ℕ → Result Bool
inner_of eth =
    if eth == eth_p_ip then ok false else if eth == eth_p_ipv6 then ok true else err tunnel_proto

-- A bridged frame: its Ethernet header is peeled too.
unfoldable pub inspect_teb : Cursor → Result (Bool × Cursor)
unfolding inner_of
inspect_teb c = do l ← parse_eth c vlan_depth_bound; inner ← inner_of l.proto; ok (inner, l.cursor)

unfoldable pub inspect_inner : ℕ × Cursor → Result (Bool × Cursor)
unfolding inner_of inspect_teb
inspect_inner (eth, c) =
    if eth == eth_p_teb then inspect_teb c else inner_of eth >>= (λ (inner : Bool). ok (inner, c))

-- On success: whether the inner header is IPv6, and the cursor at it. The depth that the caller
-- keeps goes up by 1.
unfoldable pub tunnel_inspect : Cursor → ℕ → ℕ → Result (Bool × Cursor)
unfolding parse_gre inspect_inner
tunnel_inspect c outer_proto depth =
    if leb tunnel_depth_bound depth
    then err tunnel_depth
    else if outer_proto == 4
    then ok (false, c)
    else if outer_proto == 41
    then ok (true, c)
    else if outer_proto == 47
    then parse_gre c >>= inspect_inner
    else err tunnel_proto
