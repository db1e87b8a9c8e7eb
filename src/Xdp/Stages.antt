-- ===== src/Xdp/Stages.antt =====
-- A property of the stages of a program, one law for each stage, is one of the program.
use caly_anti.Xdp.Run.{Fixed, Run, Flow, ◌>>=◌, Ensures, Ensures-bind, next}
use caly_anti.Xdp.Anomaly.{land_check, tcp_check, udp_check, icmp_check, martian_check, anomalies}
use caly_anti.Xdp.Reputation.{allowlist, mgmt_ports, reputation}
use caly_anti.Xdp.Conntrack.{conntrack}
use caly_anti.Xdp.Policy.{deferred_ban, unsolicited_synack, lockdown, policy_stages, lan_reason}
use caly_anti.Xdp.Ports.{amplification, port_policy}
use caly_anti.Xdp.Rates.{rate_limit}
use caly_anti.Xdp.Scans.{portscan}
use caly_anti.Xdp.Action.{syn_handling, learn, action_stages}

module _ (N V H : Run → Type 0) where
  -- What a stage owes: from a run with N it goes on with N, or ends with V or H.
  abbrev pub Law : (Run → Flow) → Type 0
  Law f = (r : Run) → N r → Ensures N V H (f r)

  pub Law-bind : (f g : Run → Flow) → Law f → Law g → Law (λ r. f r >>= g)
  Law-bind f g hf hg r h = Ensures-bind N N V H (f r) g (hf r h) hg

  pub record AnomalyLaws (fx : Fixed) : Type 0 where
    pub of_land : Law (land_check fx)
    pub of_tcp : Law (tcp_check fx)
    pub of_udp : Law (udp_check fx)
    pub of_icmp : Law (icmp_check fx)
    pub of_martian : Law (martian_check fx)

  pub record PolicyLaws (fx : Fixed) : Type 0 where
    pub of_anomalies : AnomalyLaws fx
    pub of_allowlist : Law (allowlist fx)
    pub of_mgmt : Law (mgmt_ports fx)
    pub of_reputation : Law (reputation fx)
    pub of_conntrack : Law (conntrack fx)
    pub of_deferred : Law deferred_ban
    pub of_synack : Law (unsolicited_synack fx)
    pub of_lockdown : Law (lockdown fx)

  pub record ActionLaws (fx : Fixed) : Type 0 where
    pub of_amplification : Law (amplification fx)
    pub of_port : Law (port_policy fx)
    pub of_rate : Law (rate_limit fx)
    pub of_scan : Law (portscan fx)
    pub of_syn : Law (syn_handling fx)
    pub of_learn : Law (learn fx)
    pub of_lan : Law (λ r. next (lan_reason fx r))

  pub anomalies-Law : (fx : Fixed) → AnomalyLaws fx → Law (anomalies fx)
  unfolding anomalies
  anomalies-Law fx l =
      Law-bind _ (martian_check fx)
        (Law-bind _ (icmp_check fx)
          (Law-bind _ (udp_check fx) (Law-bind (land_check fx) (tcp_check fx) l.of_land l.of_tcp)
            l.of_udp)
          l.of_icmp)
        l.of_martian

  pub policy_stages-Law : (fx : Fixed) → PolicyLaws fx → Law (policy_stages fx)
  unfolding policy_stages
  policy_stages-Law fx l =
      Law-bind _ (lockdown fx)
        (Law-bind _ (unsolicited_synack fx)
          (Law-bind _ deferred_ban
            (Law-bind _ (conntrack fx)
              (Law-bind _ (reputation fx)
                (Law-bind _ (mgmt_ports fx)
                  (Law-bind (anomalies fx) (allowlist fx) (anomalies-Law fx l.of_anomalies)
                    l.of_allowlist)
                  l.of_mgmt)
                l.of_reputation)
              l.of_conntrack)
            l.of_deferred)
          l.of_synack)
        l.of_lockdown

  pub action_stages-Law : (fx : Fixed) → ActionLaws fx → Law (action_stages fx)
  unfolding action_stages
  action_stages-Law fx l =
      Law-bind _ (λ r. next (lan_reason fx r))
        (Law-bind _ (learn fx)
          (Law-bind _ (syn_handling fx)
            (Law-bind _ (portscan fx)
              (Law-bind _ (rate_limit fx)
                (Law-bind (amplification fx) (port_policy fx) l.of_amplification l.of_port)
                l.of_rate)
              l.of_scan)
            l.of_syn)
          l.of_learn)
        l.of_lan
