-- ===== src/Ingress/SameBuckets.antt =====
-- The buckets of bpf/tc_ingress.bpf.c and `caly_rate_check` of bpf/ratelimit.h agree.
use caly_anti.Base.{ℕ, ◌≡◌, ◌≢◌, refl, arith, Bool, true, false, ◌&&◌, ◌||◌, ◌==◌, if◌then◌else◌}
use caly_anti.Base.Bits.{test_bit}
use caly_anti.Abi.Bits.{rs_seeded}
use caly_anti.Abi.Bucket.{TbKind, RateState}
use caly_anti.Abi.Config.{FwConfig}
use caly_anti.Abi.Reason.{StatReason, reason_code}
use caly_anti.Parse.Packet.{is_icmp}
use caly_anti.Rate.{PacketKind, charge, after, charge_if, seeded, rate_check}
use caly_anti.Ingress.{TciPkt}
use caly_anti.Ingress.Limits.{tci_charge, tci_rate_check}

-- What the shared limiter would be told of the packet.
abbrev pub kind_of : TciPkt → Bool → PacketKind
kind_of p ct_miss = record {
  want_bytes = p.pkt_len;
  is_syn = p.is_syn;
  is_udp = p.proto == 17;
  is_icmp = is_icmp p.proto;
  is_newconn = ct_miss && (p.is_syn || p.proto == 17 || is_icmp p.proto);
}

abbrev Step : Type 0
Step = RateState × StatReason → RateState × StatReason

-- A step that leaves a refusal as it is.
abbrev KeepsRefusals : Step → Type 0
KeepsRefusals k =
    (rs : RateState) (reason : StatReason) → reason_code reason ≢ 0 → k (rs, reason) ≡ (rs, reason)

module _ (cfg : FwConfig) (now : ℕ) where
  tci_charge-KeepsRefusals :
      (applies : Bool) (kind : TbKind) (want : ℕ) (why : StatReason)
      → KeepsRefusals (tci_charge cfg now applies kind want why)
  unfolding tci_charge reason_code
  tci_charge-KeepsRefusals applies kind want why rs reason h = ground arith

  KeepsRefusals-then :
      (f g : Step) → KeepsRefusals f → KeepsRefusals g → KeepsRefusals (λ s. g (f s))
  KeepsRefusals-then f g hf hg rs reason h = rw (hf rs reason h) (hg rs reason h)

  after_step :
      (k : Step) (rest : RateState → RateState × StatReason) (why : StatReason)
      → KeepsRefusals k
      → ((rs : RateState) → k (rs, StatReason.pkt_total) ≡ rest rs)
      → reason_code why ≢ 0
      → (o : RateState × Bool)
      → k (o.0, if o.1 then StatReason.pkt_total else why) ≡ after why rest o
  unfolding after
  after_step k rest why keeps agree refuses (rs, true) = agree rs
  after_step k rest why keeps agree refuses (rs, false) = keeps rs why refuses

  tci_charge-after :
      (k : Step) (rest : RateState → RateState × StatReason) (kind : TbKind) (want : ℕ)
      (why : StatReason)
      → KeepsRefusals k
      → ((rs : RateState) → k (rs, StatReason.pkt_total) ≡ rest rs)
      → reason_code why ≢ 0
      → (rs : RateState)
      → k (tci_charge cfg now true kind want why (rs, StatReason.pkt_total))
        ≡ after why rest (charge rs cfg now kind want)
  unfolding tci_charge reason_code
  tci_charge-after k rest kind want why keeps agree refuses rs =
      after_step k rest why keeps agree refuses (charge rs cfg now kind want)

  tci_charge-charge_if :
      (k : Step) (rest : RateState → RateState × StatReason) (applies : Bool) (kind : TbKind)
      (why : StatReason)
      → KeepsRefusals k
      → ((rs : RateState) → k (rs, StatReason.pkt_total) ≡ rest rs)
      → reason_code why ≢ 0
      → (rs : RateState)
      → k (tci_charge cfg now applies kind 1 why (rs, StatReason.pkt_total))
        ≡ charge_if applies kind why cfg now rest rs
  unfolding charge_if
  tci_charge-charge_if k rest true kind why keeps agree refuses rs =
      tci_charge-after k rest kind 1 why keeps agree refuses rs
  tci_charge-charge_if k rest false kind why keeps agree refuses rs =
      unfold tci_charge in unfold reason_code in agree rs

  -- The rest of either ladder after each bucket, the last one first.
  module _ (p : TciPkt) (ct_miss : Bool) where
    abbrev kind : PacketKind
    kind = kind_of p ct_miss

    abbrev newconn_l : Step
    newconn_l = tci_charge cfg now kind.is_newconn TbKind.newconn 1 StatReason.drop_rate_newconn

    abbrev newconn_r : RateState → RateState × StatReason
    newconn_r =
        charge_if kind.is_newconn TbKind.newconn StatReason.drop_rate_newconn cfg now
          (λ r. (r, StatReason.pkt_total))

    abbrev icmp_l : Step
    icmp_l s = newconn_l (tci_charge cfg now kind.is_icmp TbKind.icmp 1 StatReason.drop_rate_icmp s)

    abbrev icmp_r : RateState → RateState × StatReason
    icmp_r = charge_if kind.is_icmp TbKind.icmp StatReason.drop_rate_icmp cfg now newconn_r

    abbrev udp_l : Step
    udp_l s = icmp_l (tci_charge cfg now kind.is_udp TbKind.udp 1 StatReason.drop_rate_udp s)

    abbrev udp_r : RateState → RateState × StatReason
    udp_r = charge_if kind.is_udp TbKind.udp StatReason.drop_rate_udp cfg now icmp_r

    abbrev syn_l : Step
    syn_l s = udp_l (tci_charge cfg now kind.is_syn TbKind.syn 1 StatReason.drop_rate_syn s)

    abbrev syn_r : RateState → RateState × StatReason
    syn_r = charge_if kind.is_syn TbKind.syn StatReason.drop_rate_syn cfg now udp_r

    abbrev bps_l : Step
    bps_l s = syn_l (tci_charge cfg now true TbKind.bps p.pkt_len StatReason.drop_rate_bps s)

    abbrev bps_r : RateState → RateState × StatReason
    bps_r r = after StatReason.drop_rate_bps syn_r (charge r cfg now TbKind.bps p.pkt_len)

    -- On a state that is seeded, the fallback program charges the same buckets in the same order as
    -- the shared limiter, stops at the same one and gives the same reason; only the time of the last
    -- packet is stored first.
    pub tci_rate_check-rate_check :
        (rs : RateState)
        → test_bit rs.flags rs_seeded ≡ true
        → tci_rate_check rs cfg p ct_miss now
          ≡ rate_check (record rs { last_seen_ns = now }) cfg now (kind_of p ct_miss)
    unfolding tci_rate_check rate_check seeded reason_code
    tci_rate_check-rate_check rs h =
        let keeps5 =
          tci_charge-KeepsRefusals kind.is_newconn TbKind.newconn 1 StatReason.drop_rate_newconn in
        let keeps4 =
          KeepsRefusals-then
            (tci_charge cfg now kind.is_icmp TbKind.icmp 1 StatReason.drop_rate_icmp) newconn_l
            (tci_charge-KeepsRefusals kind.is_icmp TbKind.icmp 1 StatReason.drop_rate_icmp)
            keeps5 in
        let keeps3 =
          KeepsRefusals-then (tci_charge cfg now kind.is_udp TbKind.udp 1 StatReason.drop_rate_udp)
            icmp_l (tci_charge-KeepsRefusals kind.is_udp TbKind.udp 1 StatReason.drop_rate_udp)
            keeps4 in
        let keeps2 =
          KeepsRefusals-then (tci_charge cfg now kind.is_syn TbKind.syn 1 StatReason.drop_rate_syn)
            udp_l (tci_charge-KeepsRefusals kind.is_syn TbKind.syn 1 StatReason.drop_rate_syn)
            keeps3 in
        let keeps1 =
          KeepsRefusals-then (tci_charge cfg now true TbKind.bps p.pkt_len StatReason.drop_rate_bps)
            syn_l (tci_charge-KeepsRefusals true TbKind.bps p.pkt_len StatReason.drop_rate_bps)
            keeps2 in
        let agree5 =
          tci_charge-charge_if (λ s. s) (λ r. (r, StatReason.pkt_total)) kind.is_newconn
            TbKind.newconn StatReason.drop_rate_newconn (λ r reason e. refl) (λ r. refl)
            (omega arith) in
        let agree4 =
          tci_charge-charge_if newconn_l newconn_r kind.is_icmp TbKind.icmp
            StatReason.drop_rate_icmp keeps5 agree5 (omega arith) in
        let agree3 =
          tci_charge-charge_if icmp_l icmp_r kind.is_udp TbKind.udp StatReason.drop_rate_udp keeps4
            agree4 (omega arith) in
        let agree2 =
          tci_charge-charge_if udp_l udp_r kind.is_syn TbKind.syn StatReason.drop_rate_syn keeps3
            agree3 (omega arith) in
        let agree1 =
          tci_charge-after syn_l syn_r TbKind.bps p.pkt_len StatReason.drop_rate_bps keeps2 agree2
            (omega arith) in
        rw h (
          tci_charge-after bps_l bps_r TbKind.pps 1 StatReason.drop_rate_pps keeps1 agree1
            (omega arith) (record rs { last_seen_ns = now }))
