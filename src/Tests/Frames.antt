-- ===== src/Tests/Frames.antt =====
-- The parser of bpf/parsing.h on concrete frames.
use caly_anti.Base.{ℕ, ◌≡◌, refl, arith, false, List, [], ◌∷◌, some, ◌++◌}
use caly_anti.Base.Bits.{test_bit}
use caly_anti.Compat.Errors.{ParseErr, ok, err, l4_unknown}
use caly_anti.Parse.{Cursor, cursor_init}
use caly_anti.Parse.Ip6.{Ip6Info, skip_ip6_exts}
use caly_anti.Parse.Frame.{parse_packet}
use caly_anti.Parse.Tunnel.{proto_is_tunnel}
use caly_anti.Parse.Fragment.{skip_ip6_exts_fragment}
use caly_anti.Parse.Offsets.{Laid, parse_packet-Laid}
use caly_anti.Parse.Verdict.{IsUdp4, udp4_ctx, parse_packet_udp4}
use caly_anti.Parse.Refusal.{parse_packet_tunnel4}
use caly_anti.Tests.Data.{config}

abbrev macs : List ℕ
macs = 2 ∷ 0 ∷ 0 ∷ 0 ∷ 0 ∷ 1 ∷ 2 ∷ 0 ∷ 0 ∷ 0 ∷ 0 ∷ 2 ∷ []

-- An IPv4 header of `tot_len` bytes in all, from 192.168.0.1 to 192.168.0.199.
abbrev ip4_header : ℕ → ℕ → List ℕ
ip4_header tot_len proto =
    0x45 ∷ 0 ∷ 0 ∷ tot_len ∷ 0 ∷ 7 ∷ 0x40 ∷ 0 ∷ 64 ∷ proto ∷ 0 ∷ 0 ∷ 192 ∷ 168 ∷ 0 ∷ 1 ∷ 192 ∷ 168
    ∷ 0 ∷ 199 ∷ []

-- A DNS query of two bytes.
abbrev udp_frame : List ℕ
udp_frame =
    macs ++ (8 ∷ 0 ∷ []) ++ ip4_header 30 17 ++ (0xC0 ∷ 0x01 ∷ 0 ∷ 53 ∷ 0 ∷ 10 ∷ 0 ∷ 0 ∷ 1 ∷ 2 ∷ [])

abbrev gre_frame : List ℕ
gre_frame = macs ++ (8 ∷ 0 ∷ []) ++ ip4_header 28 47 ++ (0 ∷ 0 ∷ 8 ∷ 0 ∷ 0 ∷ 0 ∷ 0 ∷ 0 ∷ [])

-- One tag, and IPv6.
abbrev tagged_frame : List ℕ
tagged_frame = macs ++ (0x81 ∷ 0 ∷ 0 ∷ 9 ∷ 0x86 ∷ 0xDD ∷ 0x60 ∷ [])

udp_frame-IsUdp4 : IsUdp4 udp_frame
unfolding test_bit cursor_init
udp_frame-IsUdp4 = record {
  headers_inside = omega arith;
  ethertype = refl;
  version_ihl = refl;
  tot_len_ge = omega arith;
  tot_len_inside = omega arith;
  first = refl;
  last = refl;
  protocol = refl;
  sport_pos = omega arith;
  dport_pos = omega arith;
}

parse_packet_udp4_example :
    parse_packet udp_frame 3 1_000 (some config) ≡ (udp4_ctx udp_frame 3 1_000, ok tt)
parse_packet_udp4_example = parse_packet_udp4 udp_frame 3 1_000 (some config) udp_frame-IsUdp4

udp_frame_ok : (parse_packet udp_frame 3 1_000 (some config)).1 ≡ ok tt
udp_frame_ok = rw parse_packet_udp4_example

parse_packet-Laid_example : Laid udp_frame (parse_packet udp_frame 3 1_000 (some config)).0
parse_packet-Laid_example = parse_packet-Laid udp_frame 3 1_000 (some config) udp_frame_ok

parse_packet_tunnel4_example :
    ((parse_packet gre_frame 3 1_000 (some config)).1 ≡ err l4_unknown)
    × ((parse_packet gre_frame 3 1_000 (some config)).0.tunnel_depth ≡ 0)
unfolding test_bit cursor_init proto_is_tunnel
parse_packet_tunnel4_example = parse_packet_tunnel4 gre_frame 3 1_000 (some config) (record {
  headers_inside = omega arith;
  ethertype = refl;
  version_ihl = refl;
  tot_len_ge = omega arith;
  tot_len_inside = omega arith;
  first = refl;
  last = refl;
  tunnel = refl;
})

abbrev at_l3 : Cursor
at_l3 = record { frame = udp_frame; pos = 14 }

-- Hop-by-hop options of eight bytes, then UDP.
abbrev chain : Cursor
chain = record { frame = 17 ∷ 0 ∷ 0 ∷ 0 ∷ 0 ∷ 0 ∷ 0 ∷ 0 ∷ 0xC0 ∷ []; pos = 0 }

abbrev hop_by_hop : Ip6Info
hop_by_hop = record {
  saddr = [];
  daddr = [];
  payload_len = 9;
  ext_bytes = 0;
  frag_off = 0;
  nexthdr = 0;
  hop_limit = 64;
  more_frags = false;
  ext_count = 0;
}

-- The fragment at offset 8 of eight-byte units, with two bytes of payload.
abbrev later_fragment : Cursor
later_fragment = record { frame = 60 ∷ 0 ∷ 0 ∷ 0x40 ∷ 0 ∷ 0 ∷ 0 ∷ 9 ∷ 0x41 ∷ 0xFF ∷ []; pos = 0 }

skip_ip6_exts_fragment_example :
    ((skip_ip6_exts later_fragment 0 4 (record hop_by_hop { nexthdr = 44 })).1
      ≡ err ParseErr.ip6_ext_trunc)
    × ((skip_ip6_exts later_fragment 0 4 (record hop_by_hop { nexthdr = 44 })).0.frag_off ≡ 8)
skip_ip6_exts_fragment_example =
    skip_ip6_exts_fragment later_fragment 0 4 (record hop_by_hop { nexthdr = 44 })
      (record { inside = omega arith; options = refl; overlong = omega arith }) refl (omega arith)
