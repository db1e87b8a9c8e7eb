-- ===== src/Parse/Transport.antt =====
-- The L4 header is inside the frame, and what `caly_pkt_fill_l4` notes of it.
use caly_anti.Base.{
  ℕ, ◌+◌, ◌-◌, ◌*◌, ◌≤◌, ◌≡◌, refl, arith, Bool, true, false, ◌||◌, ◌∙◌, sym, ltb, leb, ◌==◌,
  if◌then◌else◌, length, Option, none, some, Bool-cases, inl, inr, min,
}
use caly_anti.Compat.Errors.{ParseErr, Result, ok, err}
use caly_anti.Parse.{Cursor, Pulled, pull, need, offset}
use caly_anti.Parse.L4.{
  L4Info, l4_zero, parse_tcp, judge_tcp, pull_tcp_options, tcp_info, clamp_doff, parse_udp,
  judge_udp, udp_info, parse_icmp, tcp_pulled, udp_pulled, icmp_pulled,
}
use caly_anti.Parse.Packet.{PktCtx, is_icmp, parse_l4, store_l4, after_l4, pkt_fill_l4}
use caly_anti.Parse.Frame.{Stage}
use caly_anti.Parse.Bounds.{
  IfOk, IfOk-bind, IfOk-refuse, pull-Reserved, Reserved, Ahead, Reserved-Ahead,
}

Ahead-further : (n m : ℕ) (c d : Cursor) → m ≤ n → Ahead n c d → Ahead m c d
Ahead-further n m c d h a = record {
  same_frame = a.same_frame;
  further = omega (arith, a.further);
  inside = a.inside;
}

Ahead-next : (n : ℕ) (c d e : Cursor) → Ahead n c d → Ahead 0 d e → Ahead n c e
Ahead-next n c d e a b = record {
  same_frame = b.same_frame ∙ a.same_frame;
  further = omega (arith, a.further, b.further);
  inside = b.inside;
}

Ahead-stay : (n : ℕ) (c d : Cursor) → Ahead n c d → Ahead 0 d d
Ahead-stay n c d a = record { same_frame = refl; further = omega arith; inside = a.inside }

judge_tcp-Ahead :
    (c d : Cursor) (min_doff : ℕ) (th : L4Info)
    → Ahead 20 c d
    → IfOk (Ahead 8 c) (judge_tcp d min_doff th)
unfolding judge_tcp pull_tcp_options
judge_tcp-Ahead c d min_doff th a =
    IfOk-refuse _ _ (ltb th.hdr_bytes (clamp_doff min_doff * 4)) _ (λ s.
      IfOk-refuse _ _ (th.sport == 0 || th.dport == 0) _ (λ z.
        elim (Bool-cases (ltb 20 th.hdr_bytes)) [
          | inl more ↦ rw more (
              IfOk-refuse _ _ (ltb 40 (th.hdr_bytes - 20)) _ (λ t.
                IfOk-bind _ _ (need ParseErr.l4_trunc (pull d (th.hdr_bytes - 20))) _
                  (pull-Reserved ParseErr.l4_trunc d (th.hdr_bytes - 20))
                  (λ p r. Ahead-further 20 8 c p.rest (omega arith) (
                    Ahead-next 20 c d p.rest a (
                      Ahead-further (th.hdr_bytes - 20) 0 d p.rest (omega arith)
                        (Reserved-Ahead d (th.hdr_bytes - 20) p r))))))
          | inr less ↦ rw less (Ahead-further 20 8 c d (omega arith) a)
        ]))

judge_udp-Ahead : (c d : Cursor) (uh : L4Info) → Ahead 8 c d → IfOk (Ahead 8 c) (judge_udp d uh)
unfolding judge_udp
judge_udp-Ahead c d uh a = IfOk-refuse _ _ (uh.sport == 0 || uh.dport == 0) _ (λ z. a)

-- The three parsers, on what the pull of the header gives.
tcp_pulled-Ahead :
    (o : Option Pulled) (c : Cursor) (min_doff : ℕ) (out : L4Info)
    → IfOk (Reserved c 20) (need ParseErr.l4_trunc o)
    → IfOk (Ahead 8 c) (tcp_pulled o c min_doff out).1
unfolding tcp_pulled
tcp_pulled-Ahead none c min_doff out h = tt
tcp_pulled-Ahead (some p) c min_doff out h =
    judge_tcp-Ahead c p.rest min_doff (tcp_info c p.at) (Reserved-Ahead c 20 p h)

udp_pulled-Ahead :
    (o : Option Pulled) (c : Cursor) (out : L4Info)
    → IfOk (Reserved c 8) (need ParseErr.l4_trunc o)
    → IfOk (Ahead 8 c) (udp_pulled o c out).1
unfolding udp_pulled
udp_pulled-Ahead none c out h = tt
udp_pulled-Ahead (some p) c out h =
    judge_udp-Ahead c p.rest (udp_info c p.at) (Reserved-Ahead c 8 p h)

icmp_pulled-Ahead :
    (o : Option Pulled) (c : Cursor) (out : L4Info)
    → IfOk (Reserved c 8) (need ParseErr.l4_trunc o)
    → IfOk (Ahead 8 c) (icmp_pulled o c out).1
unfolding icmp_pulled
icmp_pulled-Ahead none c out h = tt
icmp_pulled-Ahead (some p) c out h = Reserved-Ahead c 8 p h

-- A predicate on the packet and the value that a stage gives, where it does not fail.
abbrev pub StageOk : {A : Type 0} → (PktCtx → A → Type 0) → Stage A → Type 0
StageOk P (pkt, ok a) = P pkt a
StageOk P (pkt, err e) = Unit {0}

-- The fields that the layers below L4 have set, and the offsets of L4.
pub record Filled (before : PktCtx) (c : Cursor) (pkt : PktCtx) : Type 0 where
  pub l3_kept : pkt.l3_off ≡ before.l3_off
  pub depth_kept : pkt.vlan_depth ≡ before.vlan_depth
  pub len_kept : pkt.pkt_len ≡ before.pkt_len
  pub l4_at : pkt.l4_off ≡ c.pos
  pub payload_after : c.pos + 8 ≤ pkt.payload_off
  pub payload_inside : pkt.payload_off ≤ length c.frame
  pub l4_rest :
      pkt.l4_len
      ≡ (if leb c.pos before.pkt_len then min (before.pkt_len - c.pos) 0xFFFF else before.l4_len)

abbrev ParsesAhead : Cursor → Option (L4Info × Result Cursor) → Type 0
ParsesAhead c none = Unit {0}
ParsesAhead c (some r) = IfOk (Ahead 8 c) r.1

parse_l4-ParsesAhead : (c : Cursor) (proto min_doff : ℕ) → ParsesAhead c (parse_l4 c proto min_doff)
unfolding parse_l4 parse_tcp parse_udp parse_icmp
parse_l4-ParsesAhead c proto min_doff =
    let tcp =
      tcp_pulled-Ahead (pull c 20) c min_doff l4_zero (pull-Reserved ParseErr.l4_trunc c 20) in
    let udp = udp_pulled-Ahead (pull c 8) c l4_zero (pull-Reserved ParseErr.l4_trunc c 8) in
    let icmp = icmp_pulled-Ahead (pull c 8) c l4_zero (pull-Reserved ParseErr.l4_trunc c 8) in
    elim (Bool-cases (proto == 6)) [
      | inl is_tcp ↦ rw is_tcp tcp
      | inr a ↦ elim (Bool-cases (proto == 17)) [
        | inl is_udp ↦ rw (a, is_udp) udp
        | inr b ↦ elim (Bool-cases (is_icmp proto)) [
          | inl pings ↦ rw (a, b, pings) icmp
          | inr other ↦ rw (a, b, other) tt
        ]
      ]
    ]

after_l4-Filled :
    (before : PktCtx) (c : Cursor) (proto : ℕ) (o : Option (L4Info × Result Cursor))
    → ParsesAhead c o
    → StageOk
        (λ p u. Filled before c p)
        (after_l4 (record before { proto = proto; l4_off = c.pos }) proto o)
unfolding after_l4 store_l4 offset
after_l4-Filled before c proto none h = tt
after_l4-Filled before c proto (some (l4, err e)) h = tt
after_l4-Filled before c proto (some (l4, ok d)) h = record {
  l3_kept = refl;
  depth_kept = refl;
  len_kept = refl;
  l4_at = refl;
  payload_after = h.further;
  payload_inside = rw (sym h.same_frame) h.inside;
  l4_rest = refl;
}

pub fill-Filled :
    (before : PktCtx) (c : Cursor) (proto min_doff : ℕ) (no_l4 : Bool)
    → StageOk (λ p u. Filled before c p) (pkt_fill_l4 before c proto min_doff no_l4)
unfolding pkt_fill_l4 offset
fill-Filled before c proto min_doff true = tt
fill-Filled before c proto min_doff false =
    after_l4-Filled before c proto (parse_l4 c proto min_doff)
      (parse_l4-ParsesAhead c proto min_doff)
