-- ===== src/Xdp/Admission.antt =====
-- What `caly_xdp_policy` lets through by itself, what it leaves to the next program, and what it
-- reports to userspace.
use caly_anti.Base.{◌≡◌, ◌≢◌, ◌⊎◌, Option-cases, inl, inr, arith, refl, true, List}
use mathlib.Core.Path.{subst}
use caly_anti.Abi.Bits.{pkt_mgmt}
use caly_anti.Parse.Packet.{PktCtx}
use caly_anti.Abi.Reason.{StatReason}
use caly_anti.Xdp.State.{Maps, ConnState, Event, stat}
use caly_anti.Xdp.Run.{
  Fixed, Run, Flow, Act, Ensures, ◌>>=◌, next, verdict, handed_over, pkt_flag, drop_for, pass_for,
  start,
}
use caly_anti.Xdp.Verdict.{fw_mode_lockdown}
use caly_anti.Xdp.Stages.{Law, policy_stages-Law}
use caly_anti.Xdp.Anomaly.{land_check, tcp_check, udp_check, icmp_check, martian_check}
use caly_anti.Xdp.Reputation.{allowlist, mgmt_ports, reputation}
use caly_anti.Xdp.Conntrack.{conntrack, known_flow, touch, conn_key}
use caly_anti.Xdp.Policy.{deferred_ban, unsolicited_synack, lockdown, policy_stages}

-- The reasons for which the policy passes a packet: the allowlist, a management port, a known flow,
-- the ICMP policy, neighbour discovery and path MTU discovery.
abbrev pub IsAdmission : StatReason → Type 0
IsAdmission reason =
    (reason ≡ StatReason.pass_allowlist)
    ⊎ (reason ≡ StatReason.pass_mgmt_port)
    ⊎ (reason ≡ StatReason.pass_conntrack)
    ⊎ (reason ≡ StatReason.pass_icmp_policy)
    ⊎ (reason ≡ StatReason.pass_icmp6_nd)
    ⊎ (reason ≡ StatReason.pass_icmp6_pmtud)
    ⊎ (reason ≡ StatReason.pass_icmp4_pmtud)

abbrev pub IsQuiet : List Event → Run → Type 0
IsQuiet e r = (r.maps.events ≡ e) × (r.act ≡ Act.pass)

abbrev pub IsJudged : List Event → Run → Type 0
IsJudged e r = (r.maps.events ≡ e) × ((r.act ≡ Act.drop) ⊎ IsAdmission r.reason)

abbrev pub Never : Run → Type 0
Never r = ⊥

module _ (e : List Event) (fx : Fixed) where
  land_check-Judged : Law (IsQuiet e) (IsJudged e) Never (land_check fx)
  unfolding land_check drop_for
  land_check-Judged r h = ground arith

  tcp_check-Judged : Law (IsQuiet e) (IsJudged e) Never (tcp_check fx)
  unfolding tcp_check drop_for
  tcp_check-Judged r h = ground arith

  udp_check-Judged : Law (IsQuiet e) (IsJudged e) Never (udp_check fx)
  unfolding udp_check drop_for
  udp_check-Judged r h = ground arith

  icmp_check-Judged : Law (IsQuiet e) (IsJudged e) Never (icmp_check fx)
  unfolding icmp_check drop_for pass_for
  icmp_check-Judged r h = ground arith

  martian_check-Judged : Law (IsQuiet e) (IsJudged e) Never (martian_check fx)
  unfolding martian_check drop_for
  martian_check-Judged r h = ground arith

  allowlist-Judged : Law (IsQuiet e) (IsJudged e) Never (allowlist fx)
  unfolding allowlist pass_for
  allowlist-Judged r h = ground arith

  mgmt_ports-Judged : Law (IsQuiet e) (IsJudged e) Never (mgmt_ports fx)
  unfolding mgmt_ports pass_for
  mgmt_ports-Judged r h = ground arith

  reputation-Judged : Law (IsQuiet e) (IsJudged e) Never (reputation fx)
  unfolding reputation drop_for
  reputation-Judged r h = ground arith

  touch-IsQuiet : (r : Run) (cs : ConnState) → IsQuiet e r → IsQuiet e (touch r cs)
  unfolding touch stat
  touch-IsQuiet r cs h = ground arith

  known_flow-Judged :
      (cs : ConnState) → Law (IsQuiet e) (IsJudged e) Never (λ r. known_flow fx r cs)
  unfolding known_flow stat pass_for
  known_flow-Judged cs r h = ground (arith, touch-IsQuiet r cs h)

  conntrack-Judged : Law (IsQuiet e) (IsJudged e) Never (conntrack fx)
  unfolding conntrack stat
  conntrack-Judged r h = elim (Option-cases (r.maps.conn (conn_key r.pkt))) [
    | inl missing ↦ rw missing (ground arith)
    | inr (cs, found) ↦
        rw found (ground (arith, known_flow-Judged cs (record r { ct_key_valid = true }) h))
  ]

  deferred_ban-Judged : Law (IsQuiet e) (IsJudged e) Never deferred_ban
  unfolding deferred_ban drop_for
  deferred_ban-Judged r h = ground arith

  unsolicited_synack-Judged : Law (IsQuiet e) (IsJudged e) Never (unsolicited_synack fx)
  unfolding unsolicited_synack drop_for
  unsolicited_synack-Judged r h = ground arith

  lockdown-Judged : Law (IsQuiet e) (IsJudged e) Never (lockdown fx)
  unfolding lockdown drop_for pass_for
  lockdown-Judged r h = ground arith

  pub policy_stages-Judged : Law (IsQuiet e) (IsJudged e) Never (policy_stages fx)
  policy_stages-Judged = policy_stages-Law (IsQuiet e) (IsJudged e) Never fx (record {
    of_anomalies = record {
      of_land = land_check-Judged;
      of_tcp = tcp_check-Judged;
      of_udp = udp_check-Judged;
      of_icmp = icmp_check-Judged;
      of_martian = martian_check-Judged;
    };
    of_allowlist = allowlist-Judged;
    of_mgmt = mgmt_ports-Judged;
    of_reputation = reputation-Judged;
    of_conntrack = conntrack-Judged;
    of_deferred = deferred_ban-Judged;
    of_synack = unsolicited_synack-Judged;
    of_lockdown = lockdown-Judged;
  })

-- The gate of the lockdown lets nothing but management traffic go on.
lockdown_gate :
    (fx : Fixed) (m : Flow) (r : Run)
    → fx.cfg.mode ≡ fw_mode_lockdown
    → (m >>= lockdown fx) ≡ next r
    → pkt_flag r pkt_mgmt ≡ true
unfolding lockdown drop_for pass_for
lockdown_gate fx (next s) r mode h = ground arith
lockdown_gate fx (verdict s) r mode h = ground arith
lockdown_gate fx (handed_over s) r mode h = ground arith

-- The policy never hands a packet to the SYN proxy. Where it ends a packet itself, it drops it, or it
-- passes it for one of seven reasons: the allowlist, a management port, a known flow, the ICMP policy
-- of the lockdown, neighbour discovery, or path MTU discovery of either family. In lockdown mode it
-- leaves nothing to the next program but packets marked as management traffic.
pub policy_stages-Admits :
    (fx : Fixed) (m : Maps) (pkt : PktCtx)
    → ((r : Run)
        → policy_stages fx (start m pkt) ≡ verdict r
        → (r.act ≡ Act.drop) ⊎ IsAdmission r.reason)
      × ((r : Run) → policy_stages fx (start m pkt) ≢ handed_over r)
      × ((r : Run)
          → fx.cfg.mode ≡ fw_mode_lockdown
          → policy_stages fx (start m pkt) ≡ next r
          → pkt_flag r pkt_mgmt ≡ true)
unfolding start
policy_stages-Admits fx m pkt =
    let judged = policy_stages-Judged m.events fx (start m pkt) (refl, refl) in
    (
      λ r e. (subst (Ensures (IsQuiet m.events) (IsJudged m.events) Never) e judged).1,
      λ r e. subst (Ensures (IsQuiet m.events) (IsJudged m.events) Never) e judged,
      λ r mode e. unfold policy_stages in lockdown_gate fx _ r mode e,
    )
