-- ===== src/Source/Ipv4.antt =====
-- `v4_src_bogon` against the table of prefixes that its comments name.

use caly_anti.Base.{ℕ, ◌*◌, ◌/◌, ◌<◌, ◌≡◌, arith, Bool, true, ◌&&◌, ◌==◌, if◌then◌else◌}
use caly_anti.Abi.Reason.{
  StatReason, pkt_total, drop_bogon_src, drop_mcast_src, drop_bcast_src, drop_private_src,
}
use caly_anti.Source.{v4_src_bogon}
use caly_anti.Source.Prefixes.{
  dotted, v4_reference, high_nibble, high_seven, high_two, benchmark, broadcast, link_local,
  loopback, multicast, ninetwo, reserved, seventeen, shared, ten, test_net1, test_net2, test_net3,
  zero_net,
}

-- The code tests for the broadcast address inside 240/4, the table before it.
same_ladder :
    (zero_net loopback link_local multicast broadcast reserved net1 net2 net3 bench : Bool)
    (otherwise : StatReason)
    → (broadcast ≡ true → reserved ≡ true)
    → (multicast ≡ true → reserved ≡ true → ⊥)
    → (if zero_net
        then drop_bogon_src
        else if loopback
        then drop_bogon_src
        else if link_local
        then drop_bogon_src
        else if multicast
        then drop_mcast_src
        else if reserved
        then (if broadcast then drop_bcast_src else drop_bogon_src)
        else if net1
        then drop_bogon_src
        else if net2
        then drop_bogon_src
        else if net3
        then drop_bogon_src
        else if bench
        then drop_bogon_src
        else otherwise)
      ≡ (if zero_net
          then drop_bogon_src
          else if loopback
          then drop_bogon_src
          else if link_local
          then drop_bogon_src
          else if multicast
          then drop_mcast_src
          else if broadcast
          then drop_bcast_src
          else if reserved
          then drop_bogon_src
          else if net1
          then drop_bogon_src
          else if net2
          then drop_bogon_src
          else if net3
          then drop_bogon_src
          else if bench
          then drop_bogon_src
          else otherwise)
same_ladder z l k m b r x y w v o h1 h2 = ground arith

private_ladder :
    (on t1 t2 t3 t4 : Bool)
    → (if on && t1
        then drop_private_src
        else if on && t2
        then drop_private_src
        else if on && t3
        then drop_private_src
        else if on && t4
        then drop_private_src
        else pkt_total)
      ≡ (if on
          then (if t1
              then drop_private_src
              else if t2
              then drop_private_src
              else if t3
              then drop_private_src
              else if t4
              then drop_private_src
              else pkt_total)
          else pkt_total)
private_ladder on t1 t2 t3 t4 = ground arith

-- On every source address the classifier names the reason of the first prefix of the reference
-- table that covers it, and nothing where none does.
pub v4_src_bogon-v4_reference :
    (a b c d : ℕ) (drop_private : Bool)
    → a < 256
    → b < 256
    → c < 256
    → d < 256
    → v4_src_bogon a b c d drop_private ≡ v4_reference (dotted a b c d) drop_private
unfolding v4_src_bogon
v4_src_bogon-v4_reference a b c d drop_private ha hb hc hd =
    rw
      (
        high_nibble a ha,
        high_nibble b hb,
        high_seven b hb,
        high_two b hb,
        zero_net a b c d ha hb hc hd,
        loopback a b c d ha hb hc hd,
        link_local a b c d ha hb hc hd,
        multicast a b c d ha hb hc hd,
        broadcast a b c d ha hb hc hd,
        reserved a b c d ha hb hc hd,
        test_net1 a b c d ha hb hc hd,
        test_net2 a b c d ha hb hc hd,
        test_net3 a b c d ha hb hc hd,
        benchmark a b c d ha hb hc hd,
        ten a b c d ha hb hc hd,
        seventeen a b c d ha hb hc hd,
        ninetwo a b c d ha hb hc hd,
        shared a b c d ha hb hc hd,
        private_ladder drop_private,
      )
      (same_ladder (a == 0) (a == 127) (a == 169 && b == 254) (a / 16 * 16 == 0xE0)
        (a == 255 && b == 255 && c == 255 && d == 255) (a / 16 * 16 == 0xF0)
        (a == 192 && b == 0 && c == 2) (a == 198 && b == 51 && c == 100)
        (a == 203 && b == 0 && c == 113) (a == 198 && b / 2 * 2 == 18)
        (if drop_private
          then (if a == 10
              then drop_private_src
              else if a == 172 && b / 16 * 16 == 16
              then drop_private_src
              else if a == 192 && b == 168
              then drop_private_src
              else if a == 100 && b / 64 * 64 == 64
              then drop_private_src
              else pkt_total)
          else pkt_total)
        (ground arith) (ground arith))
