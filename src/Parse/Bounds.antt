-- ===== src/Parse/Bounds.antt =====
-- The cursor stays in the frame: where each parser of bpf/parsing.h leaves it.
use caly_anti.Base.{
  ℕ, zero, suc, ◌+◌, ◌-◌, ◌*◌, ◌/◌, ◌%◌, ◌^◌, ◌≤◌, ◌≡◌, refl, arith, Bool, true, false, ◌&&◌, not,
  ltb, leb, ◌==◌, if◌then◌else◌, length, Bool-cases, inl, inr, ◌∙◌, ap,
}
use caly_anti.Compat.{vlan_depth_bound}
use caly_anti.Compat.Errors.{ParseErr, Result, ok, err, ◌>>=◌}
use caly_anti.Base.Bits.{test_bit}
use caly_anti.Abi.Bits.{f_drop_ip4_options}
use caly_anti.Parse.{avail, Cursor, Pulled, pull, need, refuse_if, load_u16, load_u8, load_u32}
use caly_anti.Parse.Link.{Link, vlan_loop, parse_eth, eth_proto_is_vlan}
use caly_anti.Parse.Ip4.{Ip4Info, parse_ipv4, pull_options, skip_ip4_options, ip4_info}
use caly_anti.Parse.Ip6.{parse_ipv6}

-- A predicate on what a parser returns, where it does not fail.
abbrev pub IfOk {ℓ} : {A : Type ℓ} → (A → Type 0) → Result A → Type 0
IfOk P (ok a) = P a
IfOk P (err e) = Unit {0}

-- `d` stands in the same frame as `c`, at least `n` bytes further on, and not past its end.
pub record Ahead (n : ℕ) (c d : Cursor) : Type 0 where
  pub same_frame : d.frame ≡ c.frame
  pub further : c.pos + n ≤ d.pos
  pub inside : d.pos ≤ length d.frame

pub IfOk-bind {ℓ κ} :
    {A : Type ℓ} {B : Type κ} (Before : A → Type 0) (After : B → Type 0) (first : Result A)
    (next : A → Result B)
    → IfOk Before first
    → ((a : A) → Before a → IfOk After (next a))
    → IfOk After (first >>= next)
IfOk-bind Before After (ok a) next holds step = step a holds
IfOk-bind Before After (err e) next holds step = tt

pub IfOk-refuse {ℓ} :
    {B : Type ℓ} (Q : B → Type 0) (e : ParseErr) (bad : Bool) (f : Unit {0} → Result B)
    → (bad ≡ false → IfOk Q (f tt))
    → IfOk Q (refuse_if e bad >>= f)
IfOk-refuse Q e true f h = tt
IfOk-refuse Q e false f h = h refl

-- A pull that succeeds starts at the cursor, moves it by `len`, and ends inside the frame.
pub record Reserved (c : Cursor) (len : ℕ) (h : Pulled) : Type 0 where
  pub starts : h.at ≡ c.pos
  pub moves : h.rest ≡ record c { pos = c.pos + len }
  pub fits : c.pos + len ≤ length c.frame

pub pull-Reserved :
    (e : ParseErr) (c : Cursor) (len : ℕ) → IfOk (Reserved c len) (need e (pull c len))
unfolding pull
pull-Reserved e c len = elim (Bool-cases (ltb 2048 len)) [
  | inl long ↦ rw long tt
  | inr short ↦ elim (Bool-cases (ltb (length c.frame) (c.pos + len))) [
    | inl past ↦ rw (short, past) tt
    | inr there ↦ rw (short, there) (record { starts = refl; moves = refl; fits = ground arith })
  ]
]

pub Reserved-Ahead : (c : Cursor) (len : ℕ) (h : Pulled) → Reserved c len h → Ahead len c h.rest
Reserved-Ahead c len h r =
    rw r.moves (record { same_frame = refl; further = omega arith; inside = r.fits })

-- The link layer: the cursor past the header and as many tags as it reports.
pub record Linked (c : Cursor) (l : Link) : Type 0 where
  pub same_frame : l.cursor.frame ≡ c.frame
  pub at_tags : l.cursor.pos ≡ c.pos + 14 + 4 * l.depth
  pub inside : l.cursor.pos ≤ length l.cursor.frame

vlan_loop-Linked :
    (rounds i max_vlan : ℕ) (c : Cursor) (l : Link)
    → Linked c l
    → l.depth ≡ i
    → i ≤ max_vlan
    → IfOk (λ r. Linked c r × (r.depth ≤ max_vlan)) (vlan_loop rounds i max_vlan l)
unfolding vlan_loop
vlan_loop-Linked zero i max_vlan c l h hd hm = (h, omega arith)
vlan_loop-Linked (suc rounds) i max_vlan c l h hd hm = elim (Bool-cases (leb max_vlan i)) [
  | inl over ↦ rw over (h, omega arith)
  | inr under ↦ elim (Bool-cases (not (eth_proto_is_vlan l.proto))) [
    | inl plain ↦ rw (under, plain) (h, omega arith)
    | inr tag ↦
        rw (under, tag)
          (IfOk-bind _ _ (need ParseErr.vlan_trunc (pull l.cursor 4)) _
            (pull-Reserved ParseErr.vlan_trunc l.cursor 4)
            (λ p r.
              vlan_loop-Linked rounds (i + 1) max_vlan c
                (record {
                  proto = load_u16 l.cursor (p.at + 2);
                  depth = l.depth + 1;
                  cursor = p.rest;
                })
                (rw r.moves (record {
                  same_frame = h.same_frame;
                  at_tags = omega (arith, h.at_tags);
                  inside = r.fits;
                }))
                (omega arith) (ground arith)))
  ]
]

-- Where the link layer is parsed, the cursor is past the Ethernet header and the tags that it
-- reports, inside the frame; they are no more than the operator's limit and the bound of the loop;
-- and what follows is no further tag.
pub parse_eth-Linked :
    (c : Cursor) (max_vlan : ℕ)
    → IfOk
        (λ l.
          Linked c l
          × ((l.depth ≤ max_vlan) × (l.depth ≤ vlan_depth_bound))
          × (eth_proto_is_vlan l.proto ≡ false))
        (parse_eth c max_vlan)
unfolding parse_eth
parse_eth-Linked c max_vlan =
    let bound = if ltb vlan_depth_bound max_vlan then vlan_depth_bound else max_vlan in
    IfOk-bind _ _ (need ParseErr.eth_trunc (pull c 14)) _ (pull-Reserved ParseErr.eth_trunc c 14)
      (λ h r.
        let start : Link = record { proto = load_u16 c (h.at + 12); depth = 0; cursor = h.rest } in
        IfOk-bind _ _ (vlan_loop vlan_depth_bound 0 bound start) _
          (vlan_loop-Linked vlan_depth_bound 0 bound c start
            (rw r.moves (record { same_frame = refl; at_tags = omega arith; inside = r.fits })) refl
            (omega arith))
          (λ l k.
            IfOk-refuse _ _ (eth_proto_is_vlan l.proto) _
              (λ plain. (k.0, ground (arith, k.1), plain))))

-- An IPv4 header of `hdr_bytes` at the cursor, with its options, and a payload inside the frame.
pub record Parsed4 (c : Cursor) (ip : Ip4Info) (d : Cursor) : Type 0 where
  pub same_frame : d.frame ≡ c.frame
  pub past_header : d.pos ≡ c.pos + ip.hdr_bytes
  pub header_ge : 20 ≤ ip.hdr_bytes
  pub header_le : ip.hdr_bytes ≤ 60
  pub payload_inside : d.pos + ip.payload_len ≤ length d.frame

options_inside :
    (c : Cursor) (flags ihl : ℕ)
    → 20 ≤ ihl
    → c.pos ≤ length c.frame
    → IfOk
        (λ d. (d.frame ≡ c.frame) × (d.pos + 20 ≡ c.pos + ihl) × (d.pos ≤ length d.frame))
        (skip_ip4_options c flags ihl)
unfolding skip_ip4_options pull_options
options_inside c flags ihl h hc = elim (Bool-cases (ltb 20 ihl)) [
  | inl more ↦ rw more (
      IfOk-refuse _ _ (test_bit flags f_drop_ip4_options) _ (λ a.
        IfOk-refuse _ _ (ltb 40 (ihl - 20)) _ (λ b.
          IfOk-bind _ _ (need ParseErr.ip4_trunc (pull c (ihl - 20))) _
            (pull-Reserved ParseErr.ip4_trunc c (ihl - 20))
            (λ p r. rw r.moves (refl, ground arith, r.fits)))))
  | inr less ↦ rw less (refl, ground arith, hc)
]

avail_inside :
    (c : Cursor) (len : ℕ)
    → c.pos ≤ length c.frame
    → ltb (avail c) len ≡ false
    → c.pos + len ≤ length c.frame
unfolding avail
avail_inside c len h there = ground arith

-- An IPv4 header that parses takes 20 to 60 bytes of the frame, options included, and the payload
-- that its total length leaves is inside the frame.
pub parse_ipv4-Parsed4 :
    (c : Cursor) (flags : ℕ) → IfOk (λ r. Parsed4 c r.0 r.1) (parse_ipv4 c flags)
unfolding parse_ipv4 ip4_info avail
parse_ipv4-Parsed4 c flags =
    IfOk-bind _ _ (need ParseErr.ip4_trunc (pull c 20)) _ (pull-Reserved ParseErr.ip4_trunc c 20)
      (λ p r.
        let ihl = load_u8 c p.at % 16 * 4 in
        let tot = load_u16 c (p.at + 2) in
        IfOk-refuse _ _ (not (load_u8 c p.at / 16 == 4)) _ (λ version.
          IfOk-refuse _ _ (ltb ihl 20) _ (λ long_header.
            IfOk-refuse _ _ (ltb tot ihl) _ (λ long_enough.
              IfOk-refuse _ _ (ltb (avail c) tot) _ (λ there.
                IfOk-bind _ _ (skip_ip4_options p.rest flags ihl) _
                  (options_inside p.rest flags ihl (ground arith) (rw r.moves r.fits))
                  (λ d k.
                    let moved : p.rest.pos ≡ c.pos + 20 = rw r.moves in
                    let framed : p.rest.frame ≡ c.frame = rw r.moves in
                    let size : length d.frame ≡ length c.frame = ap length (k.0 ∙ framed) in
                    let inside = avail_inside c tot (omega (arith, r.fits)) there in
                    let whole : ihl ≤ tot = ground arith in
                    record {
                      same_frame = k.0 ∙ framed;
                      past_header = omega (arith, k.1, moved);
                      header_ge = ground arith;
                      header_le = omega arith;
                      payload_inside = omega (arith, k.1, moved, size, inside, whole);
                    }))))))

-- An IPv6 header that parses takes 40 bytes of the frame.
pub parse_ipv6-Ahead :
    (c : Cursor) → IfOk (λ r. Ahead 40 c r.1 × (r.1.pos ≡ c.pos + 40)) (parse_ipv6 c)
unfolding parse_ipv6
parse_ipv6-Ahead c =
    IfOk-bind _ _ (need ParseErr.ip6_trunc (pull c 40)) _ (pull-Reserved ParseErr.ip6_trunc c 40)
      (λ p r. IfOk-refuse _ _ (not (load_u32 c p.at / 2 ^ 28 == 6)) _ (λ version.
        IfOk-refuse _ _
          (not (load_u16 c (p.at + 4) == 0) && ltb (avail c) (load_u16 c (p.at + 4) + 40)) _
          (λ there. (Reserved-Ahead c 40 p r, rw r.moves))))
