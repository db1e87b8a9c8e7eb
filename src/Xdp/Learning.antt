-- ===== src/Xdp/Learning.antt =====
-- Which packets open a flow in the connection table.
use caly_anti.Base.{
  ℕ, ◌≡◌, refl, arith, false, ◌&&◌, not, Option, none, some, Bool-cases, Option-cases, inl, inr,
}
use caly_anti.Abi.Bits.{f_port_policy}
use caly_anti.Abi.Bucket.{RateState}
use caly_anti.Abi.Config.{FwConfig}
use caly_anti.Abi.Reason.{StatReason}
use caly_anti.Bucket.{PortRule}
use caly_anti.Parse.Key.{ConnKey}
use caly_anti.Scan.{ScanState}
use caly_anti.Xdp.State.{Maps, Env, ConnState, stat, source}
use caly_anti.Xdp.Run.{Fixed, Run, Flow, Ensures, next, flag, drop_for, pass_for}
use caly_anti.Xdp.Stages.{Law, action_stages-Law}
use caly_anti.Xdp.Bans.{Offence, ban_install}
use caly_anti.Xdp.Policy.{is_syn, lan_reason}
use caly_anti.Xdp.Ports.{
  amplification, apply_rule, no_rule, by_rule, rule_of, port_rule, port_policy, is_exempt,
  has_ports,
}
use caly_anti.Xdp.Rates.{
  Charged, charge_known, add_strike, earns_ban, offence, packet_kind, punish, strike, after_charge,
  first_seen, rate_limit,
}
use caly_anti.Xdp.Scans.{scanner, next_probe, known_scan, first_scan, portscan}
use caly_anti.Xdp.Action.{syn_handling, learn, action_stages}

ban_install_conn :
    (env : Env) (cfg : FwConfig) (o : Offence) (m : Maps)
    → (ban_install env cfg o m).0.conn ≡ m.conn
unfolding ban_install stat
ban_install_conn env cfg o m = ground arith

stat_conn : (reason : StatReason) (len : ℕ) (m : Maps) → (stat reason len m).conn ≡ m.conn
unfolding stat
stat_conn reason len m = ground arith

-- The table is `conn`, and the packet opens no connection.
abbrev pub IsPlain : (ConnKey → Option ConnState) → Run → Type 0
IsPlain conn r = (r.maps.conn ≡ conn) × (is_syn r.pkt ≡ false)

abbrev pub Plain : (ConnKey → Option ConnState) → (Run → Flow) → Type 0
Plain conn f = Law (IsPlain conn) (IsPlain conn) (IsPlain conn) f

module _ (conn : ConnKey → Option ConnState) (fx : Fixed) where
  amplification-Plain : Plain conn (amplification fx)
  unfolding amplification drop_for
  amplification-Plain r h = ground arith

  apply_rule-Plain : (pr : PortRule) → Plain conn (apply_rule pr)
  unfolding apply_rule drop_for pass_for
  apply_rule-Plain pr r h = ground arith

  no_rule-Plain : Plain conn (no_rule fx)
  unfolding no_rule drop_for
  no_rule-Plain r h = ground arith

  by_rule-Plain : (found : Option PortRule) → Plain conn (λ r. by_rule fx r found)
  unfolding by_rule
  by_rule-Plain none r h = no_rule-Plain r h
  by_rule-Plain (some pr) r h = ground (arith, apply_rule-Plain pr r h, no_rule-Plain r h)

  port_rule-Plain : Plain conn (port_rule fx)
  unfolding port_rule
  port_rule-Plain r h = by_rule-Plain (rule_of fx r) (record r { prule = rule_of fx r }) h

  port_policy-Plain : Plain conn (port_policy fx)
  unfolding port_policy drop_for
  port_policy-Plain r h =
      elim (Bool-cases (flag fx f_port_policy && not (is_exempt r) && has_ports r.pkt)) [
        | inl ruled ↦ rw ruled (port_rule-Plain r h)
        | inr free ↦ rw free (ground arith)
      ]

  punish-Plain : (hit : StatReason) (struck : RateState) → Plain conn (λ r. punish fx r hit struck)
  unfolding punish drop_for
  punish-Plain hit struck r h =
      let m' = stat StatReason.strike_added r.pkt.pkt_len r.maps in
      elim (Bool-cases (earns_ban fx (packet_kind r) struck)) [
        | inl banned ↦ rw banned (
            ground (
              arith,
              stat_conn StatReason.strike_added r.pkt.pkt_len r.maps,
              ban_install_conn fx.env fx.cfg (offence r hit 0 struck.strikes) m',
            ))
        | inr spared ↦
            rw spared (ground (arith, stat_conn StatReason.strike_added r.pkt.pkt_len r.maps))
      ]

  after_charge-Plain : (c : Charged) → Plain conn (λ r. after_charge fx r c)
  unfolding after_charge strike
  after_charge-Plain (rs, hit, evval) r h = ground (
    arith,
    punish-Plain hit (add_strike fx.cfg r.pkt.ts_ns hit rs) (record r { evval = evval }) h,
  )

  first_seen-Plain : (r : Run) → IsPlain conn r → IsPlain conn (first_seen fx r)
  unfolding first_seen stat
  first_seen-Plain r h = ground arith

  rate_limit-Plain : Plain conn (rate_limit fx)
  unfolding rate_limit
  rate_limit-Plain r h = elim (Option-cases (r.maps.rate (source r.pkt))) [
    | inl missing ↦ rw missing (ground (arith, first_seen-Plain r h))
    | inr (rs, found) ↦
        let rs' : RateState = record rs { last_seen_ns = r.pkt.ts_ns } in
        let c = charge_known fx.cfg r.pkt.ts_ns (packet_kind r) r.evval rs' in
        rw found (ground (arith, after_charge-Plain c r h))
  ]

  first_scan-Plain : (r : Run) → IsPlain conn r → IsPlain conn (first_scan fx r)
  unfolding first_scan stat
  first_scan-Plain r h = ground arith

  scanner-Plain : (st : ScanState) → Plain conn (λ r. scanner fx r st)
  unfolding scanner drop_for
  scanner-Plain st r h = ground (
    arith,
    ban_install_conn fx.env fx.cfg
        (offence r StatReason.drop_portscan fx.cfg.ban_ttl_scan_ns st.distinct) r.maps,
  )

  known_scan-Plain : (st : ScanState) → Plain conn (λ r. known_scan fx r st)
  unfolding known_scan
  known_scan-Plain st r h =
      ground (arith, scanner-Plain (next_probe fx.cfg r.pkt.ts_ns r.pkt.dport st) r h)

  portscan-Plain : Plain conn (portscan fx)
  unfolding portscan
  portscan-Plain r h = elim (Option-cases (r.maps.scan (source r.pkt))) [
    | inl missing ↦ rw missing (ground (arith, first_scan-Plain r h))
    | inr (st, found) ↦ rw found (ground (arith, known_scan-Plain st r h))
  ]

  syn_handling-Plain : Plain conn (syn_handling fx)
  unfolding syn_handling
  syn_handling-Plain r h = rw h.1 h

  learn-Plain : Plain conn (learn fx)
  unfolding learn
  learn-Plain r h = ground arith

  lan_reason-Plain : Plain conn (λ r. next (lan_reason fx r))
  unfolding lan_reason
  lan_reason-Plain r h = ground arith

-- Whatever packet is no initial SYN (TCP with SYN and without ACK), be it UDP or ICMP, leaves the
-- connection table as it was, wherever in the ladder of `caly_xdp_action` it ends.
pub action_stages-Plain :
    (fx : Fixed) (r : Run)
    → is_syn r.pkt ≡ false
    → Ensures (IsPlain r.maps.conn) (IsPlain r.maps.conn) (IsPlain r.maps.conn) (action_stages fx r)
action_stages-Plain fx r h =
    let conn = r.maps.conn in
    action_stages-Law (IsPlain conn) (IsPlain conn) (IsPlain conn) fx
      (record {
        of_amplification = amplification-Plain conn fx;
        of_port = port_policy-Plain conn fx;
        of_rate = rate_limit-Plain conn fx;
        of_scan = portscan-Plain conn fx;
        of_syn = syn_handling-Plain conn fx;
        of_learn = learn-Plain conn fx;
        of_lan = lan_reason-Plain conn fx;
      })
      r (refl, h)
