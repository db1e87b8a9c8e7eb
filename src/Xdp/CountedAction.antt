-- ===== src/Xdp/CountedAction.antt =====
-- The stages of `caly_xdp_action` leave the aggregate counters alone, and each way out of them has a
-- reason that fits its action.
use caly_anti.Base.{
  ℕ, ◌≤◌, arith, ◌&&◌, not, Option, none, some, Bool-cases, Option-cases, inl, inr,
}
use caly_anti.Abi.Bits.{f_port_policy}
use caly_anti.Abi.Bucket.{RateState}
use caly_anti.Abi.Config.{FwConfig}
use caly_anti.Abi.Reason.{StatReason, reason_code}
use caly_anti.Bucket.{PortRule}
use caly_anti.Rate.{PacketKind}
use caly_anti.Scan.{ScanState}
use caly_anti.Xdp.State.{Maps, stat, source}
use caly_anti.Xdp.Run.{Fixed, Run, drop_for, pass_for, next, flag}
use caly_anti.Xdp.Counts.{
  SameCounts, stat-SameCounts, ban_install-SameCounts, IsOpen, IsSettled, Counted, Counted-bind,
}
use caly_anti.Xdp.Stages.{action_stages-Law}
use caly_anti.Xdp.Reasons.{Objects}
use caly_anti.Xdp.Policy.{lan_reason}
use caly_anti.Xdp.Ports.{
  amplification, apply_rule, no_rule, by_rule, rule_of, port_rule, port_policy, is_exempt,
  has_ports,
}
use caly_anti.Xdp.Rates.{
  Charged, charge_known, add_strike, earns_ban, offence, packet_kind, punish, strike, after_charge,
  first_seen, rate_limit,
}
use caly_anti.Xdp.Scans.{scanner, next_probe, known_scan, first_scan, portscan}
use caly_anti.Xdp.Action.{to_synproxy, syn_fallback, syn_handling, learn, action_stages}

charge_known-Objects :
    (cfg : FwConfig) (now : ℕ) (p : PacketKind) (evval : ℕ) (rs : RateState)
    → Objects (charge_known cfg now p evval rs).1
unfolding charge_known reason_code
charge_known-Objects cfg now p evval rs = ground arith

module _ (m : Maps) (fx : Fixed) where
  amplification-Counted : Counted m (amplification fx)
  unfolding amplification drop_for reason_code
  amplification-Counted r h = ground arith

  apply_rule-Counted : (pr : PortRule) → Counted m (apply_rule pr)
  unfolding apply_rule drop_for pass_for reason_code
  apply_rule-Counted pr r h = ground arith

  no_rule-Counted : Counted m (no_rule fx)
  unfolding no_rule drop_for reason_code
  no_rule-Counted r h = ground arith

  by_rule-Counted : (found : Option PortRule) → Counted m (λ r. by_rule fx r found)
  unfolding by_rule
  by_rule-Counted none r h = no_rule-Counted r h
  by_rule-Counted (some pr) r h = ground (arith, apply_rule-Counted pr r h, no_rule-Counted r h)

  port_rule-Counted : Counted m (port_rule fx)
  unfolding port_rule
  port_rule-Counted r h = by_rule-Counted (rule_of fx r) (record r { prule = rule_of fx r }) h

  port_policy-Counted : Counted m (port_policy fx)
  unfolding port_policy drop_for reason_code
  port_policy-Counted r h =
      elim (Bool-cases (flag fx f_port_policy && not (is_exempt r) && has_ports r.pkt)) [
        | inl ruled ↦ rw ruled (port_rule-Counted r h)
        | inr free ↦ rw free (ground arith)
      ]

  punish-Counted :
      (hit : StatReason) (struck : RateState)
      → 19 ≤ reason_code hit
      → reason_code hit ≤ 80
      → Counted m (λ r. punish fx r hit struck)
  unfolding punish drop_for
  punish-Counted hit struck low high r h =
      let m' = stat StatReason.strike_added r.pkt.pkt_len r.maps in
      let counted = stat-SameCounts StatReason.strike_added r.pkt.pkt_len r.maps in
      elim (Bool-cases (earns_ban fx (packet_kind r) struck)) [
        | inl banned ↦ rw banned (
            ground (
              arith,
              counted (unfold reason_code in omega arith),
              ban_install-SameCounts fx.env fx.cfg (offence r hit 0 struck.strikes) m',
            ))
        | inr spared ↦ rw spared (ground (arith, counted (unfold reason_code in omega arith)))
      ]

  strike-Counted :
      (hit : StatReason) (rs : RateState)
      → 19 ≤ reason_code hit
      → reason_code hit ≤ 80
      → Counted m (λ r. strike fx r hit rs)
  unfolding strike
  strike-Counted hit rs low high r h =
      punish-Counted hit (add_strike fx.cfg r.pkt.ts_ns hit rs) low high r h

  after_charge-Counted : (c : Charged) → Objects c.1 → Counted m (λ r. after_charge fx r c)
  unfolding after_charge
  after_charge-Counted (rs, hit, evval) o r h = ground (
    arith,
    λ (a : 19 ≤ reason_code hit) (b : reason_code hit ≤ 80).
        strike-Counted hit rs a b (record r { evval = evval }) h,
  )

  first_seen-Counted : (r : Run) → IsOpen m r → IsOpen m (first_seen fx r)
  unfolding first_seen stat reason_code
  first_seen-Counted r h = ground arith

  rate_limit-Counted : Counted m (rate_limit fx)
  unfolding rate_limit
  rate_limit-Counted r h = elim (Option-cases (r.maps.rate (source r.pkt))) [
    | inl missing ↦ rw missing (ground (arith, first_seen-Counted r h))
    | inr (rs, found) ↦
        let rs' : RateState = record rs { last_seen_ns = r.pkt.ts_ns } in
        let p = packet_kind r in
        let c = charge_known fx.cfg r.pkt.ts_ns p r.evval rs' in
        let objects = charge_known-Objects fx.cfg r.pkt.ts_ns p r.evval rs' in
        rw found (ground (arith, after_charge-Counted c objects r h))
  ]

  first_scan-Counted : (r : Run) → IsOpen m r → IsOpen m (first_scan fx r)
  unfolding first_scan stat reason_code
  first_scan-Counted r h = ground arith

  scanner-Counted : (st : ScanState) → Counted m (λ r. scanner fx r st)
  unfolding scanner drop_for reason_code
  scanner-Counted st r h = ground (
    arith,
    ban_install-SameCounts fx.env fx.cfg
        (offence r StatReason.drop_portscan fx.cfg.ban_ttl_scan_ns st.distinct) r.maps,
  )

  known_scan-Counted : (st : ScanState) → Counted m (λ r. known_scan fx r st)
  unfolding known_scan
  known_scan-Counted st r h =
      ground (arith, scanner-Counted (next_probe fx.cfg r.pkt.ts_ns r.pkt.dport st) r h)

  portscan-Counted : Counted m (portscan fx)
  unfolding portscan
  portscan-Counted r h = elim (Option-cases (r.maps.scan (source r.pkt))) [
    | inl missing ↦ rw missing (ground (arith, first_scan-Counted r h))
    | inr (st, found) ↦ rw found (ground (arith, known_scan-Counted st r h))
  ]

  to_synproxy-Counted : Counted m (to_synproxy fx)
  unfolding to_synproxy stat reason_code
  to_synproxy-Counted r h = ground arith

  syn_fallback-Counted : Counted m (syn_fallback fx)
  unfolding syn_fallback drop_for reason_code
  syn_fallback-Counted r h = ground arith

  syn_handling-Counted : Counted m (syn_handling fx)
  unfolding syn_handling
  syn_handling-Counted r h = ground (
    arith,
    Counted-bind m (to_synproxy fx) (syn_fallback fx) to_synproxy-Counted syn_fallback-Counted r h,
  )

  learn-Counted : Counted m (learn fx)
  unfolding learn stat reason_code
  learn-Counted r h = ground arith

  lan_reason-Counted : Counted m (λ r. next (lan_reason fx r))
  unfolding lan_reason reason_code
  lan_reason-Counted r h = ground arith

  pub action_stages-Counted : Counted m (action_stages fx)
  action_stages-Counted =
      action_stages-Law (IsOpen m) (IsSettled m) (λ s. SameCounts m s.maps) fx
        (record {
          of_amplification = amplification-Counted;
          of_port = port_policy-Counted;
          of_rate = rate_limit-Counted;
          of_scan = portscan-Counted;
          of_syn = syn_handling-Counted;
          of_learn = learn-Counted;
          of_lan = lan_reason-Counted;
        })
