-- ===== src/Source/Prefixes.antt =====
-- The prefixes that the comments of `caly_v4_src_bogon` name, and each test of the code as one.
use Prim.Native.Nat.{bit_and}
use caly_anti.Base.{
  ℕ, ◌+◌, ◌-◌, ◌*◌, ◌/◌, ◌^◌, ◌<◌, ◌≡◌, refl, arith, Bool, ◌&&◌, ◌==◌, if◌then◌else◌, List, [], ◌∷◌,
  ==_iff,
}
use caly_anti.Base.Word.{IsByte}
use caly_anti.Base.Bits.{passes_below, passes_one}
use caly_anti.Abi.Reason.{
  StatReason, pkt_total, drop_bogon_src, drop_mcast_src, drop_bcast_src, drop_private_src,
}

-- An address prefix: the source is in it when they share the first `len` bits.
pub record Prefix : Type 0 where
  pub net : ℕ
  pub len : ℕ
  pub reason : StatReason

abbrev pub dotted : ℕ → ℕ → ℕ → ℕ → ℕ
dotted a b c d = ((a * 256 + b) * 256 + c) * 256 + d

abbrev pub prefix : ℕ → ℕ → ℕ → ℕ → ℕ → StatReason → Prefix
prefix a b c d len reason = record { net = dotted a b c d; len = len; reason = reason }

pub covers : Prefix → ℕ → Bool
covers p addr = addr / 2 ^ (32 - p.len) == p.net / 2 ^ (32 - p.len)

-- The first prefix that holds the address, in order.
abbrev pub first_cover : List Prefix → ℕ → StatReason → StatReason
first_cover [] addr otherwise = otherwise
first_cover (p ∷ ps) addr otherwise =
    if covers p addr then p.reason else first_cover ps addr otherwise

abbrev pub bogons : List Prefix
bogons =
    prefix 0 0 0 0 8 drop_bogon_src
    ∷ prefix 127 0 0 0 8 drop_bogon_src
    ∷ prefix 169 254 0 0 16 drop_bogon_src
    ∷ prefix 224 0 0 0 4 drop_mcast_src
    ∷ prefix 255 255 255 255 32 drop_bcast_src
    ∷ prefix 240 0 0 0 4 drop_bogon_src
    ∷ prefix 192 0 2 0 24 drop_bogon_src
    ∷ prefix 198 51 100 0 24 drop_bogon_src
    ∷ prefix 203 0 113 0 24 drop_bogon_src
    ∷ prefix 198 18 0 0 15 drop_bogon_src
    ∷ []

abbrev pub private_nets : List Prefix
private_nets =
    prefix 10 0 0 0 8 drop_private_src
    ∷ prefix 172 16 0 0 12 drop_private_src
    ∷ prefix 192 168 0 0 16 drop_private_src
    ∷ prefix 100 64 0 0 10 drop_private_src
    ∷ []

-- The reference: the bogons, and on a WAN interface the private networks.
abbrev pub v4_reference : ℕ → Bool → StatReason
v4_reference addr drop_private =
    first_cover bogons addr
      (if drop_private then first_cover private_nets addr pkt_total else pkt_total)

pub high_nibble : (b : ℕ) → IsByte b → bit_and b 0xF0 ≡ b / 16 * 16
unfolding passes_below
high_nibble b h = (==_iff _ _).0 (passes_one (λ x. bit_and x 0xF0 == x / 16 * 16) 256 refl b h)

pub high_seven : (b : ℕ) → IsByte b → bit_and b 0xFE ≡ b / 2 * 2
unfolding passes_below
high_seven b h = (==_iff _ _).0 (passes_one (λ x. bit_and x 0xFE == x / 2 * 2) 256 refl b h)

pub high_two : (b : ℕ) → IsByte b → bit_and b 0xC0 ≡ b / 64 * 64
unfolding passes_below
high_two b h = (==_iff _ _).0 (passes_one (λ x. bit_and x 0xC0 == x / 64 * 64) 256 refl b h)

-- Each test of the code is the cover of one prefix.
module _ (a b c d : ℕ) (ha : a < 256) (hb : b < 256) (hc : c < 256) (hd : d < 256) where
  pub zero_net : covers (prefix 0 0 0 0 8 drop_bogon_src) (dotted a b c d) ≡ (a == 0)
  unfolding covers
  zero_net = ground arith

  pub loopback : covers (prefix 127 0 0 0 8 drop_bogon_src) (dotted a b c d) ≡ (a == 127)
  unfolding covers
  loopback = ground arith

  pub link_local :
      covers (prefix 169 254 0 0 16 drop_bogon_src) (dotted a b c d) ≡ (a == 169 && b == 254)
  unfolding covers
  link_local = ground arith

  pub multicast :
      covers (prefix 224 0 0 0 4 drop_mcast_src) (dotted a b c d) ≡ (a / 16 * 16 == 0xE0)
  unfolding covers
  multicast = ground arith

  pub broadcast :
      covers (prefix 255 255 255 255 32 drop_bcast_src) (dotted a b c d)
      ≡ (a == 255 && b == 255 && c == 255 && d == 255)
  unfolding covers
  broadcast = ground arith

  pub reserved : covers (prefix 240 0 0 0 4 drop_bogon_src) (dotted a b c d) ≡ (a / 16 * 16 == 0xF0)
  unfolding covers
  reserved = ground arith

  pub test_net1 :
      covers (prefix 192 0 2 0 24 drop_bogon_src) (dotted a b c d) ≡ (a == 192 && b == 0 && c == 2)
  unfolding covers
  test_net1 = ground arith

  pub test_net2 :
      covers (prefix 198 51 100 0 24 drop_bogon_src) (dotted a b c d)
      ≡ (a == 198 && b == 51 && c == 100)
  unfolding covers
  test_net2 = ground arith

  pub test_net3 :
      covers (prefix 203 0 113 0 24 drop_bogon_src) (dotted a b c d)
      ≡ (a == 203 && b == 0 && c == 113)
  unfolding covers
  test_net3 = ground arith

  pub benchmark :
      covers (prefix 198 18 0 0 15 drop_bogon_src) (dotted a b c d) ≡ (a == 198 && b / 2 * 2 == 18)
  unfolding covers
  benchmark = ground arith

  pub ten : covers (prefix 10 0 0 0 8 drop_private_src) (dotted a b c d) ≡ (a == 10)
  unfolding covers
  ten = ground arith

  pub seventeen :
      covers (prefix 172 16 0 0 12 drop_private_src) (dotted a b c d)
      ≡ (a == 172 && b / 16 * 16 == 16)
  unfolding covers
  seventeen = ground arith

  pub ninetwo :
      covers (prefix 192 168 0 0 16 drop_private_src) (dotted a b c d) ≡ (a == 192 && b == 168)
  unfolding covers
  ninetwo = ground arith

  pub shared :
      covers (prefix 100 64 0 0 10 drop_private_src) (dotted a b c d)
      ≡ (a == 100 && b / 64 * 64 == 64)
  unfolding covers
  shared = ground arith
