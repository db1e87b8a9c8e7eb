-- ===== src/Xdp/CountedPolicy.antt =====
-- The stages of `caly_xdp_policy` leave the aggregate counters alone, and each way out of them has a
-- reason that fits its action.
use caly_anti.Base.{◌%◌, ◌≡◌, arith, true, Option-cases, Bool-cases, inl, inr, refl}
use caly_anti.Abi.Reason.{StatReason, reason_code}
use caly_anti.Xdp.State.{Maps, ConnState, stat, is_v4}
use caly_anti.Xdp.Run.{Fixed, Run, ◌>>=◌, drop_for, pass_for}
use caly_anti.Xdp.Counts.{SameCounts, stat-SameCounts, IsOpen, IsSettled, Counted, Counted-bind}
use caly_anti.Xdp.Stages.{AnomalyLaws, anomalies-Law, policy_stages-Law}
use caly_anti.Xdp.Reasons.{
  Objects, v4_src_bogon-Objects, v6_src_bogon-Objects, tcp_flags_illegal-Objects,
}
use caly_anti.Xdp.Anomaly.{
  land_check, refuse_for, flags_check, ports_check, tcp_check, udp_check, icmp_frag_check,
  icmp_size_check, icmp_rule, icmp_check, src_bogon, self_check, martian_check, anomalies,
}
use caly_anti.Xdp.Reputation.{allowlist, mgmt_ports, blocklist, bans, reputation}
use caly_anti.Xdp.Conntrack.{conntrack, known_flow, touch, conn_key}
use caly_anti.Xdp.Policy.{deferred_ban, unsolicited_synack, lockdown, policy_stages}

-- A flow that is known keeps the reason and the action so far.
touch_verdict :
    (r : Run) (cs : ConnState) → ((touch r cs).act ≡ r.act) × ((touch r cs).reason ≡ r.reason)
unfolding touch
touch_verdict r cs = (refl, refl)

module _ (m : Maps) (fx : Fixed) where
  land_check-Counted : Counted m (land_check fx)
  unfolding land_check drop_for reason_code
  land_check-Counted r h = ground arith

  refuse_for-Counted : (bad : StatReason) → Objects bad → Counted m (refuse_for bad)
  unfolding refuse_for drop_for reason_code
  refuse_for-Counted bad o r h = ground arith

  flags_check-Counted : Counted m (flags_check fx)
  unfolding flags_check refuse_for drop_for
  flags_check-Counted r h = ground (arith, tcp_flags_illegal-Objects (r.pkt.tcp_flags % 256))

  ports_check-Counted : Counted m (ports_check fx)
  unfolding ports_check drop_for reason_code
  ports_check-Counted r h = ground arith

  tcp_check-Counted : Counted m (tcp_check fx)
  unfolding tcp_check
  tcp_check-Counted r h = ground (
    arith,
    Counted-bind m (flags_check fx) (ports_check fx) flags_check-Counted ports_check-Counted r h,
  )

  udp_check-Counted : Counted m (udp_check fx)
  unfolding udp_check
  udp_check-Counted r h = ground (arith, ports_check-Counted r h)

  icmp_frag_check-Counted : Counted m (icmp_frag_check fx)
  unfolding icmp_frag_check drop_for reason_code
  icmp_frag_check-Counted r h = ground arith

  icmp_size_check-Counted : Counted m (icmp_size_check fx)
  unfolding icmp_size_check drop_for reason_code
  icmp_size_check-Counted r h = ground arith

  icmp_rule-Counted : Counted m (icmp_rule fx)
  unfolding icmp_rule drop_for pass_for reason_code
  icmp_rule-Counted r h = ground arith

  self_check-Counted : Counted m (self_check fx)
  unfolding self_check drop_for reason_code
  self_check-Counted r h = ground arith

  allowlist-Counted : Counted m (allowlist fx)
  unfolding allowlist pass_for reason_code
  allowlist-Counted r h = ground arith

  mgmt_ports-Counted : Counted m (mgmt_ports fx)
  unfolding mgmt_ports pass_for reason_code
  mgmt_ports-Counted r h = ground arith

  blocklist-Counted : Counted m (blocklist fx)
  unfolding blocklist drop_for reason_code
  blocklist-Counted r h = ground arith

  bans-Counted : Counted m bans
  unfolding bans drop_for reason_code
  bans-Counted r h = ground arith

  reputation-Counted : Counted m (reputation fx)
  unfolding reputation
  reputation-Counted r h =
      ground (arith, Counted-bind m (blocklist fx) bans blocklist-Counted bans-Counted r h)

  touch-SameCounts : (r : Run) (cs : ConnState) → SameCounts r.maps (touch r cs).maps
  unfolding touch stat reason_code
  touch-SameCounts r cs = ground arith

  known_flow-Counted : (cs : ConnState) → Counted m (λ r. known_flow fx r cs)
  unfolding known_flow pass_for reason_code
  known_flow-Counted cs r h = ground (
    arith,
    touch-SameCounts r cs,
    touch_verdict r cs,
    stat-SameCounts StatReason.ct_miss r.pkt.pkt_len r.maps,
    stat-SameCounts StatReason.ct_hit r.pkt.pkt_len (touch r cs).maps,
  )

  conntrack-Counted : Counted m (conntrack fx)
  unfolding conntrack reason_code
  conntrack-Counted r h = elim (Option-cases (r.maps.conn (conn_key r.pkt))) [
    | inl missing ↦
        rw missing (ground (arith, stat-SameCounts StatReason.ct_miss r.pkt.pkt_len r.maps))
    | inr (cs, found) ↦
        rw found (ground (arith, known_flow-Counted cs (record r { ct_key_valid = true }) h))
  ]

  deferred_ban-Counted : Counted m deferred_ban
  unfolding deferred_ban drop_for reason_code
  deferred_ban-Counted r h = ground arith

  unsolicited_synack-Counted : Counted m (unsolicited_synack fx)
  unfolding unsolicited_synack drop_for reason_code
  unsolicited_synack-Counted r h = ground arith

  lockdown-Counted : Counted m (lockdown fx)
  unfolding lockdown drop_for pass_for reason_code
  lockdown-Counted r h = ground arith

  icmp_steps-Counted : Counted m (λ r. icmp_frag_check fx r >>= icmp_size_check fx >>= icmp_rule fx)
  icmp_steps-Counted =
      Counted-bind m (λ r. icmp_frag_check fx r >>= icmp_size_check fx) (icmp_rule fx)
        (Counted-bind m (icmp_frag_check fx) (icmp_size_check fx) icmp_frag_check-Counted
          icmp_size_check-Counted)
        icmp_rule-Counted

  icmp_check-Counted : Counted m (icmp_check fx)
  unfolding icmp_check
  icmp_check-Counted r h = ground (arith, icmp_steps-Counted r h)

  src_bogon-Objects : (r : Run) → Objects (src_bogon fx r)
  unfolding src_bogon
  src_bogon-Objects r = elim (Bool-cases (is_v4 r.pkt)) [
    | inl four ↦ rw four (v4_src_bogon-Objects _ _ _ _ _)
    | inr six ↦ rw six (v6_src_bogon-Objects _ _)
  ]

  bogon_check-Counted : Counted m (λ r. refuse_for (src_bogon fx r) r)
  bogon_check-Counted r h = refuse_for-Counted (src_bogon fx r) (src_bogon-Objects r) r h

  martian_check-Counted : Counted m (martian_check fx)
  unfolding martian_check
  martian_check-Counted r h = ground (
    arith,
    Counted-bind m (λ s. refuse_for (src_bogon fx s) s) (self_check fx) bogon_check-Counted
        self_check-Counted r h,
  )

  anomaly_laws : AnomalyLaws (IsOpen m) (IsSettled m) (λ s. SameCounts m s.maps) fx
  anomaly_laws = record {
    of_land = land_check-Counted;
    of_tcp = tcp_check-Counted;
    of_udp = udp_check-Counted;
    of_icmp = icmp_check-Counted;
    of_martian = martian_check-Counted;
  }

  pub anomalies-Counted : Counted m (anomalies fx)
  anomalies-Counted =
      anomalies-Law (IsOpen m) (IsSettled m) (λ s. SameCounts m s.maps) fx anomaly_laws

  pub policy_stages-Counted : Counted m (policy_stages fx)
  policy_stages-Counted =
      policy_stages-Law (IsOpen m) (IsSettled m) (λ s. SameCounts m s.maps) fx
        (record {
          of_anomalies = anomaly_laws;
          of_allowlist = allowlist-Counted;
          of_mgmt = mgmt_ports-Counted;
          of_reputation = reputation-Counted;
          of_conntrack = conntrack-Counted;
          of_deferred = deferred_ban-Counted;
          of_synack = unsolicited_synack-Counted;
          of_lockdown = lockdown-Counted;
        })
