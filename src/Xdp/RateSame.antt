-- ===== src/Xdp/RateSame.antt =====
-- The inlined ladder of buckets of the XDP program and `caly_rate_check` of bpf/ratelimit.h agree.
use caly_anti.Base.{ℕ, ◌≡◌, refl, Bool, true, false}
use caly_anti.Base.Bits.{test_bit}
use caly_anti.Abi.Bits.{rs_seeded}
use caly_anti.Abi.Bucket.{TbKind, RateState}
use caly_anti.Abi.Config.{FwConfig}
use caly_anti.Abi.Reason.{StatReason}
use caly_anti.Rate.{PacketKind, charge, after, charge_if, seeded, rate_check}
use caly_anti.Xdp.Rates.{Charged, refused, refused_if, charge_known}

-- The same state and the same reason.
abbrev pub Agree : Charged → RateState × StatReason → Type 0
Agree (rs, hit, evval) (rs', reason) = (rs ≡ rs') × (hit ≡ reason)

module _ (cfg : FwConfig) (now evval : ℕ) where
  refused-after :
      (kind : TbKind) (reason : StatReason) (rest : RateState → Charged)
      (rest' : RateState → RateState × StatReason)
      → ((rs : RateState) → Agree (rest rs) (rest' rs))
      → (charged : RateState × Bool)
      → Agree (refused cfg kind reason evval rest charged) (after reason rest' charged)
  unfolding refused after
  refused-after kind reason rest rest' h (rs, true) = h rs
  refused-after kind reason rest rest' h (rs, false) = (refl, refl)

  refused_if-charge_if :
      (applies : Bool) (kind : TbKind) (reason : StatReason) (rest : RateState → Charged)
      (rest' : RateState → RateState × StatReason)
      → ((rs : RateState) → Agree (rest rs) (rest' rs))
      → (rs : RateState)
      → Agree
          (refused_if applies cfg now kind reason evval rest rs)
          (charge_if applies kind reason cfg now rest' rs)
  unfolding refused_if charge_if
  refused_if-charge_if true kind reason rest rest' h rs =
      refused-after kind reason rest rest' h (charge rs cfg now kind 1)
  refused_if-charge_if false kind reason rest rest' h rs = h rs

  refl_Agree : (r : RateState) → Agree (r, StatReason.pkt_total, evval) (r, StatReason.pkt_total)
  refl_Agree r = (refl, refl)

  -- What is left of either ladder after each bucket.
  abbrev newconn_l : PacketKind → RateState → Charged
  newconn_l p =
      refused_if p.is_newconn cfg now TbKind.newconn StatReason.drop_rate_newconn evval
        (λ r. (r, StatReason.pkt_total, evval))

  abbrev newconn_r : PacketKind → RateState → RateState × StatReason
  newconn_r p =
      charge_if p.is_newconn TbKind.newconn StatReason.drop_rate_newconn cfg now
        (λ r. (r, StatReason.pkt_total))

  abbrev icmp_l : PacketKind → RateState → Charged
  icmp_l p = refused_if p.is_icmp cfg now TbKind.icmp StatReason.drop_rate_icmp evval (newconn_l p)

  abbrev icmp_r : PacketKind → RateState → RateState × StatReason
  icmp_r p = charge_if p.is_icmp TbKind.icmp StatReason.drop_rate_icmp cfg now (newconn_r p)

  abbrev udp_l : PacketKind → RateState → Charged
  udp_l p = refused_if p.is_udp cfg now TbKind.udp StatReason.drop_rate_udp evval (icmp_l p)

  abbrev udp_r : PacketKind → RateState → RateState × StatReason
  udp_r p = charge_if p.is_udp TbKind.udp StatReason.drop_rate_udp cfg now (icmp_r p)

  abbrev syn_l : PacketKind → RateState → Charged
  syn_l p = refused_if p.is_syn cfg now TbKind.syn StatReason.drop_rate_syn evval (udp_l p)

  abbrev syn_r : PacketKind → RateState → RateState × StatReason
  syn_r p = charge_if p.is_syn TbKind.syn StatReason.drop_rate_syn cfg now (udp_r p)

  abbrev bps_l : PacketKind → RateState → Charged
  bps_l p r =
      refused cfg TbKind.bps StatReason.drop_rate_bps evval (syn_l p)
        (charge r cfg now TbKind.bps p.want_bytes)

  abbrev bps_r : PacketKind → RateState → RateState × StatReason
  bps_r p r = after StatReason.drop_rate_bps (syn_r p) (charge r cfg now TbKind.bps p.want_bytes)

  -- On a rate state that is seeded the XDP program and the shared limiter charge the same buckets in
  -- the same order: the state that they leave and the reason that they give are the same, whatever
  -- the packet.
  pub charge_known-rate_check :
      (p : PacketKind) (rs : RateState)
      → test_bit rs.flags rs_seeded ≡ true
      → Agree (charge_known cfg now p evval rs) (rate_check rs cfg now p)
  unfolding charge_known rate_check seeded
  charge_known-rate_check p rs h =
      let newconn =
        refused_if-charge_if p.is_newconn TbKind.newconn StatReason.drop_rate_newconn
          (λ r. (r, StatReason.pkt_total, evval)) (λ r. (r, StatReason.pkt_total)) refl_Agree in
      let icmp =
        refused_if-charge_if p.is_icmp TbKind.icmp StatReason.drop_rate_icmp (newconn_l p)
          (newconn_r p) newconn in
      let udp =
        refused_if-charge_if p.is_udp TbKind.udp StatReason.drop_rate_udp (icmp_l p) (icmp_r p)
          icmp in
      let syn =
        refused_if-charge_if p.is_syn TbKind.syn StatReason.drop_rate_syn (udp_l p) (udp_r p) udp in
      let bps = λ (r : RateState).
        refused-after TbKind.bps StatReason.drop_rate_bps (syn_l p) (syn_r p) syn
          (charge r cfg now TbKind.bps p.want_bytes) in
      rw h (
        refused-after TbKind.pps StatReason.drop_rate_pps (bps_l p) (bps_r p) bps
          (charge rs cfg now TbKind.pps 1))
