-- ===== src/Parse/Offsets.antt =====
-- The offsets that `caly_parse_packet` reports, where it succeeds: every header is inside the frame,
-- after the one that carries it.
use caly_anti.Base.{
  ℕ, ◌+◌, ◌-◌, ◌*◌, ◌≤◌, ◌≡◌, refl, arith, Bool, true, false, ◌∙◌, ap, sym, leb, ◌==◌,
  if◌then◌else◌, length, Option, Bool-cases, inl, inr, List, min,
}
use caly_anti.Abi.Config.{FwConfig}
use caly_anti.Compat.Errors.{ParseErr, Result, ok, err}
use caly_anti.Parse.{Cursor, cursor_init}
use caly_anti.Base.Bits.{set_bit}
use caly_anti.Abi.Bits.{pkt_vlan}
use caly_anti.Parse.Link.{eth_proto_is_vlan, Link, parse_eth, eth_p_ip, eth_p_ipv6, eth_p_arp}
use caly_anti.Parse.Packet.{PktCtx, pkt_ctx_reset, pkt_fill_l4, L3Result}
use caly_anti.Parse.Frame.{
  cfg_max_vlan, cfg_min_doff, Stage, parse_l3v4, parse_l3v6, descends, after_l3, l3_loop,
  parse_l3_and_l4, after_eth, parse_packet,
}
use caly_anti.Parse.Bounds.{IfOk, Linked, parse_eth-Linked}
use caly_anti.Parse.Transport.{StageOk, Filled, fill-Filled}
use caly_anti.Parse.Network.{Seen, SeenOk, parse_l3-Seen}

-- No tunnel is ever descended: CALY_TUNNEL_MAX_DEPTH is 0.
pub no_descent : (pkt : PktCtx) (cfg : Option FwConfig) (r : L3Result) → descends pkt cfg r ≡ false
no_descent pkt cfg r = ground arith

-- The offsets of a packet whose L3 header is at `c`.
record Stacked (before : PktCtx) (c : Cursor) (pkt : PktCtx) : Type 0 where
  pub l3_at : pkt.l3_off ≡ c.pos
  pub depth_kept : pkt.vlan_depth ≡ before.vlan_depth
  pub len_kept : pkt.pkt_len ≡ before.pkt_len
  pub l4_after : c.pos + 20 ≤ pkt.l4_off
  pub payload_after : pkt.l4_off + 8 ≤ pkt.payload_off
  pub payload_inside : pkt.payload_off ≤ length c.frame
  pub l4_rest :
      pkt.l4_len
      ≡ (if leb pkt.l4_off pkt.pkt_len then min (pkt.pkt_len - pkt.l4_off) 0xFFFF else pkt.l4_len)

Filled-Stacked :
    (before pkt : PktCtx) (c d : Cursor) (stage : Stage (Unit {0}))
    → Seen before c pkt d
    → StageOk (λ p u. Filled pkt d p) stage
    → StageOk (λ p u. Stacked before c p) stage
Filled-Stacked before pkt c d (p, err e) s h = tt
Filled-Stacked before pkt c d (p, ok u) s h = record {
  l3_at = h.l3_kept ∙ s.l3_at;
  depth_kept = h.depth_kept ∙ s.depth_kept;
  len_kept = h.len_kept ∙ s.len_kept;
  l4_after = omega (arith, h.l4_at, s.ahead.further);
  payload_after = omega (arith, h.l4_at, h.payload_after);
  payload_inside = rw (sym s.ahead.same_frame) h.payload_inside;
  l4_rest = rw (h.l4_at, h.len_kept) (ground (arith, h.l4_rest));
}

after_l3-Stacked :
    (before : PktCtx) (c : Cursor) (cfg : Option FwConfig)
    (again : PktCtx → Cursor → Bool → Stage (Unit {0})) (stage : Stage (L3Result × Cursor))
    → SeenOk before c stage
    → StageOk (λ p u. Stacked before c p) (after_l3 cfg again stage)
unfolding after_l3
after_l3-Stacked before c cfg again (pkt, err e) s = tt
after_l3-Stacked before c cfg again (pkt, ok (r, d)) s = rw (no_descent pkt cfg r) (
    Filled-Stacked before pkt c d (pkt_fill_l4 pkt d r.proto (cfg_min_doff cfg) r.frag_no_l4) s
      (fill-Filled pkt d r.proto (cfg_min_doff cfg) r.frag_no_l4))

parse_l3_and_l4-Stacked :
    (before : PktCtx) (c : Cursor) (cfg : Option FwConfig) (is_v6 : Bool)
    → StageOk (λ p u. Stacked before c p) (parse_l3_and_l4 before c cfg is_v6)
unfolding parse_l3_and_l4 l3_loop
parse_l3_and_l4-Stacked before c cfg is_v6 =
    after_l3-Stacked before c cfg
      (λ (p : PktCtx) (d : Cursor) (v6 : Bool). (p, err ParseErr.tunnel_depth))
      (if is_v6 then parse_l3v6 before c cfg else parse_l3v4 before c cfg)
      (parse_l3-Seen is_v6 before c cfg)

-- The layout of a parsed frame of `bytes`: the offsets of its headers, in order and inside it.
pub record Laid (bytes : List ℕ) (pkt : PktCtx) : Type 0 where
  pub l3_at : pkt.l3_off ≡ 14 + 4 * pkt.vlan_depth
  pub tags : pkt.vlan_depth ≤ 2
  pub l4_after : pkt.l3_off + 20 ≤ pkt.l4_off
  pub payload_after : pkt.l4_off + 8 ≤ pkt.payload_off
  pub payload_inside : pkt.payload_off ≤ pkt.pkt_len
  pub whole : pkt.pkt_len ≡ length bytes
  pub l4_rest : pkt.l4_len ≡ min (pkt.pkt_len - pkt.l4_off) 0xFFFF

Stacked-Laid :
    (bytes : List ℕ) (before : PktCtx) (l : Link) (stage : Stage (Unit {0}))
    → Linked (cursor_init bytes) l
    → l.depth ≤ 2
    → before.vlan_depth ≡ l.depth
    → before.pkt_len ≡ length bytes
    → StageOk (λ p u. Stacked before l.cursor p) stage
    → StageOk (λ p u. Laid bytes p) stage
unfolding cursor_init
Stacked-Laid bytes before l (p, err e) k hd hv hp h = tt
Stacked-Laid bytes before l (p, ok u) k hd hv hp h =
    let size : length l.cursor.frame ≡ length bytes = ap length k.same_frame in
    record {
      l3_at = omega (arith, h.l3_at, h.depth_kept, k.at_tags);
      tags = omega (arith, h.depth_kept);
      l4_after = omega (arith, h.l3_at, h.l4_after);
      payload_after = h.payload_after;
      payload_inside = omega (arith, h.payload_inside, h.len_kept);
      whole = h.len_kept ∙ hp;
      l4_rest = ground (arith, h.l4_rest, h.payload_after, h.payload_inside, h.len_kept);
    }

after_eth-Laid :
    (bytes : List ℕ) (before : PktCtx) (cfg : Option FwConfig) (r : Result Link)
    → before.pkt_len ≡ length bytes
    → IfOk (λ l. Linked (cursor_init bytes) l × (l.depth ≤ 2)) r
    → StageOk (λ p u. Laid bytes p) (after_eth before cfg r)
unfolding after_eth
after_eth-Laid bytes before cfg (err e) hp h = tt
after_eth-Laid bytes before cfg (ok l) hp (k, hd) = elim (Bool-cases (l.proto == eth_p_ip)) [
  | inl v4 ↦ rw v4 (down false)
  | inr a ↦ elim (Bool-cases (l.proto == eth_p_ipv6)) [
    | inl v6 ↦ rw (a, v6) (down true)
    | inr b ↦ elim (Bool-cases (l.proto == eth_p_arp)) [
      | inl arp ↦ rw (a, b, arp) tt
      | inr c ↦ rw (a, b, c) tt
    ]
  ]
]
  where
    tagged : PktCtx
    tagged = record before {
      vlan_depth = l.depth;
      eth_proto = l.proto;
      flags = if l.depth == 0 then before.flags else set_bit before.flags pkt_vlan;
    }

    down :
        (is_v6 : Bool) → StageOk (λ p u. Laid bytes p) (parse_l3_and_l4 tagged l.cursor cfg is_v6)
    down is_v6 =
        Stacked-Laid bytes tagged l (parse_l3_and_l4 tagged l.cursor cfg is_v6) k hd refl hp
          (parse_l3_and_l4-Stacked tagged l.cursor cfg is_v6)

by_result :
    (bytes : List ℕ) (stage : Stage (Unit {0}))
    → StageOk (λ p u. Laid bytes p) stage
    → stage.1 ≡ ok tt
    → Laid bytes stage.0
by_result bytes (p, ok u) h e = h
by_result bytes (p, err x) h e = let q = err_not_ok e in absurd (omega arith)
  where
    is_ok : Result (Unit {0}) → ℕ
    is_ok (ok u) = 1
    is_ok (err y) = 0

    err_not_ok : Path (Result (Unit {0})) (err x) (ok tt) → Path ℕ 0 1
    err_not_ok q = ap is_ok q

-- A frame that is parsed without an error has its headers inside it and in order: the L3 header is
-- past the Ethernet header and at most two tags, the L4 header past at least 20 bytes of L3, and
-- the payload past at least 8 bytes of L4; the lengths are those of the frame and of what is left of
-- it from the L4 header on.
pub parse_packet-Laid :
    (bytes : List ℕ) (ifindex now_ns : ℕ) (cfg : Option FwConfig)
    → (parse_packet bytes ifindex now_ns cfg).1 ≡ ok tt
    → Laid bytes (parse_packet bytes ifindex now_ns cfg).0
unfolding parse_packet pkt_ctx_reset
parse_packet-Laid bytes ifindex now_ns cfg e =
    by_result bytes (parse_packet bytes ifindex now_ns cfg)
      (after_eth-Laid bytes (pkt_ctx_reset bytes ifindex now_ns) cfg
        (parse_eth (cursor_init bytes) (cfg_max_vlan cfg)) refl
        (bounded (cfg_max_vlan cfg) (parse_eth (cursor_init bytes) (cfg_max_vlan cfg))
          (parse_eth-Linked (cursor_init bytes) (cfg_max_vlan cfg))))
      e
  where
    bounded :
        (limit : ℕ) (r : Result Link)
        → IfOk
            (λ l.
              Linked (cursor_init bytes) l
              × ((l.depth ≤ limit) × (l.depth ≤ 2))
              × (eth_proto_is_vlan l.proto ≡ false))
            r
        → IfOk (λ l. Linked (cursor_init bytes) l × (l.depth ≤ 2)) r
    bounded limit (ok l) h = (h.0, h.1.1)
    bounded limit (err x) h = tt
