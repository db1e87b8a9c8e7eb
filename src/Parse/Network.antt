-- ===== src/Parse/Network.antt =====
-- The L3 header is inside the frame, and what the L3 stages note of it.
use caly_anti.Base.{◌+◌, ◌≡◌, refl, arith, Bool, true, false, ◌∙◌, if◌then◌else◌, Option}
use caly_anti.Abi.Config.{FwConfig}
use caly_anti.Compat.Errors.{Result, ok, err}
use caly_anti.Parse.{Cursor, offset}
use caly_anti.Parse.Ip4.{Ip4Info, parse_ipv4}
use caly_anti.Parse.Ip6.{Ip6Info, parse_ipv6, skip_ip6_exts}
use caly_anti.Parse.Packet.{PktCtx, pkt_set_v4_addrs, pkt_set_v6_addrs, L3Result}
use caly_anti.Parse.Frame.{
  cfg_flags, cfg_ext_max, Stage, store_l3v4, parse_l3v4, store_exts, store_l3v6, parse_l3v6,
}
use caly_anti.Parse.Bounds.{IfOk, Ahead, Parsed4, parse_ipv4-Parsed4, parse_ipv6-Ahead}
use caly_anti.Parse.Chain.{Ended, skip_ip6_exts-Ended}
use caly_anti.Parse.Transport.{StageOk}

-- The L3 header at `c`: the packet keeps what is below it, and the cursor is past the header.
pub record Seen (before : PktCtx) (c : Cursor) (pkt : PktCtx) (d : Cursor) : Type 0 where
  pub l3_at : pkt.l3_off ≡ c.pos
  pub depth_kept : pkt.vlan_depth ≡ before.vlan_depth
  pub len_kept : pkt.pkt_len ≡ before.pkt_len
  pub ahead : Ahead 20 c d

abbrev pub SeenOk : PktCtx → Cursor → Stage (L3Result × Cursor) → Type 0
SeenOk before c = StageOk (λ p r. Seen before c p r.1)

store_l3v4-Seen :
    (before pkt : PktCtx) (c : Cursor) (r : Result (Ip4Info × Cursor))
    → pkt.l3_off ≡ c.pos
    → pkt.vlan_depth ≡ before.vlan_depth
    → pkt.pkt_len ≡ before.pkt_len
    → IfOk (λ x. Parsed4 c x.0 x.1) r
    → SeenOk before c (store_l3v4 pkt r)
unfolding store_l3v4 pkt_set_v4_addrs
store_l3v4-Seen before pkt c (err e) hl hd hp h = tt
store_l3v4-Seen before pkt c (ok (ip, d)) hl hd hp h = record {
  l3_at = hl;
  depth_kept = hd;
  len_kept = hp;
  ahead = record {
    same_frame = h.same_frame;
    further = omega (arith, h.past_header, h.header_ge);
    inside = omega (arith, h.payload_inside);
  };
}

store_exts-Seen :
    (before pkt : PktCtx) (c c6 : Cursor) (r : Ip6Info × Result Cursor)
    → pkt.l3_off ≡ c.pos
    → pkt.vlan_depth ≡ before.vlan_depth
    → pkt.pkt_len ≡ before.pkt_len
    → Ahead 40 c c6
    → Ended c6 r
    → SeenOk before c (store_exts pkt r)
unfolding store_exts
store_exts-Seen before pkt c c6 (info, err e) hl hd hp a h = tt
store_exts-Seen before pkt c c6 (info, ok d) hl hd hp a (hf, hpos, hi, k) = record {
  l3_at = hl;
  depth_kept = hd;
  len_kept = hp;
  ahead = record {
    same_frame = hf ∙ a.same_frame;
    further = omega (arith, a.further, hpos);
    inside = hi;
  };
}

store_l3v6-Seen :
    (before pkt : PktCtx) (c : Cursor) (cfg : Option FwConfig) (r : Result (Ip6Info × Cursor))
    → pkt.l3_off ≡ c.pos
    → pkt.vlan_depth ≡ before.vlan_depth
    → pkt.pkt_len ≡ before.pkt_len
    → IfOk (λ x. Ahead 40 c x.1 × (x.1.pos ≡ c.pos + 40)) r
    → SeenOk before c (store_l3v6 pkt cfg r)
unfolding store_l3v6 pkt_set_v6_addrs
store_l3v6-Seen before pkt c cfg (err e) hl hd hp h = tt
store_l3v6-Seen before pkt c cfg (ok (ip6, d)) hl hd hp (a, at) =
    store_exts-Seen before (pkt_set_v6_addrs pkt ip6.saddr ip6.daddr) c d
      (skip_ip6_exts d (cfg_flags cfg) (cfg_ext_max cfg) ip6) hl hd hp a
      (skip_ip6_exts-Ended d (cfg_flags cfg) (cfg_ext_max cfg) ip6 a.inside)

pub parse_l3-Seen :
    (is_v6 : Bool) (before : PktCtx) (c : Cursor) (cfg : Option FwConfig)
    → SeenOk before c (if is_v6 then parse_l3v6 before c cfg else parse_l3v4 before c cfg)
unfolding parse_l3v6 parse_l3v4 offset
parse_l3-Seen true before c cfg =
    store_l3v6-Seen before _ c cfg (parse_ipv6 c) refl refl refl (parse_ipv6-Ahead c)
parse_l3-Seen false before c cfg =
    store_l3v4-Seen before _ c (parse_ipv4 c (cfg_flags cfg)) refl refl refl
      (parse_ipv4-Parsed4 c (cfg_flags cfg))
