-- ===== src/Xdp/Monitor.antt =====
-- A firewall that only monitors.
use caly_anti.Base.{
  ℕ, ◌≡◌, ◌≢◌, refl, arith, Bool, true, false, ◌||◌, ◌==◌, List, Option, none, some, Bool-cases,
  inl, inr,
}
use caly_anti.Base.Bits.{test_bit}
use caly_anti.Abi.Bits.{f_monitor_only}
use caly_anti.Abi.Config.{FwConfig}
use caly_anti.Parse.Packet.{PktCtx}
use caly_anti.Xdp.State.{Maps, Env, Prog}
use caly_anti.Xdp.Run.{
  Fixed, Run, XdpAction, xdp_pass, xdp_drop, xdp_tx, Flow, next, verdict, handed_over, start,
}
use caly_anti.Xdp.Verdict.{
  Who, monitors, judge, count_action, account, finish, finish_quiet, fw_mode_monitor_only,
}
use caly_anti.Xdp.Policy.{who, policy_stages, lan_reason}
use caly_anti.Xdp.Action.{action_stages}
use caly_anti.Xdp.Frame.{Parsed, go, refuse, L4}
use caly_anti.Xdp.Network.{parse_layers}
use caly_anti.Xdp.Link.{Reached, settled, layer, fresh_ctx, receive}
use caly_anti.Xdp.Chain.{
  Outcome, returns, to_synproxy, Carry, answer, fail_open, on_lookups, with_config, fixed, conclude,
  xdp_action, no_call, xdp_policy, nobody, after_parse, xdp_parse, after_link, xdp_main,
}

abbrev pub NotDropped : Outcome → Type 0
NotDropped (returns m xdp_drop) = ⊥
NotDropped (returns m xdp_pass) = Unit
NotDropped (returns m xdp_tx) = Unit
NotDropped (to_synproxy m pkt) = Unit

-- A configuration that monitors, by its flag or by its mode.
abbrev pub only_monitors : FwConfig → Bool
only_monitors cfg = test_bit cfg.flags f_monitor_only || cfg.mode == fw_mode_monitor_only

returns_kept : (m : Maps) (action : XdpAction) → action ≢ xdp_drop → NotDropped (returns m action)
returns_kept m xdp_pass h = tt
returns_kept m xdp_drop h = h refl
returns_kept m xdp_tx h = tt

account_kept : (fx : Fixed) (w : Who) (r : Run) → monitors fx ≡ true → (account fx w r).1 ≢ xdp_drop
unfolding account judge count_action
account_kept fx w r h = ground arith

module _ (env : Env)
    (monitoring : (prog : Prog) (cfg : FwConfig)
      → env.config prog ≡ some cfg
      → only_monitors cfg ≡ true) where
  finish_kept :
      (c : Carry) (cfg : FwConfig) (w : Who) (r : Run)
      → only_monitors cfg ≡ true
      → NotDropped (answer (finish (fixed env cfg c) w r))
  unfolding finish
  finish_kept c cfg w r h =
      returns_kept (finish (fixed env cfg c) w r).0 (account (fixed env cfg c) w r).1
        (account_kept (fixed env cfg c) w r (unfold monitors in ground arith))

  finish_quiet_kept :
      (c : Carry) (cfg : FwConfig) (w : Who) (r : Run)
      → only_monitors cfg ≡ true
      → NotDropped (answer (finish_quiet (fixed env cfg c) w r))
  unfolding finish_quiet
  finish_quiet_kept c cfg w r h =
      returns_kept (finish_quiet (fixed env cfg c) w r).0 (account (fixed env cfg c) w r).1
        (account_kept (fixed env cfg c) w r (unfold monitors in ground arith))

  on_lookups_kept :
      (scratch : Bool) (len : ℕ) (run : FwConfig → Outcome) (m : Maps) (found : Option FwConfig)
      → ((cfg : FwConfig) → found ≡ some cfg → NotDropped (run cfg))
      → NotDropped (on_lookups scratch len run m found)
  unfolding on_lookups fail_open
  on_lookups_kept scratch len run m none h = tt
  on_lookups_kept true len run m (some cfg) h = h cfg refl
  on_lookups_kept false len run m (some cfg) h = tt

  conclude_kept :
      (rest last : Run → Outcome) (flow : Flow)
      → ((r : Run) → NotDropped (rest r))
      → ((r : Run) → NotDropped (last r))
      → NotDropped (conclude rest last flow)
  unfolding conclude
  conclude_kept rest last (next r) hr hl = hr r
  conclude_kept rest last (verdict r) hr hl = hl r
  conclude_kept rest last (handed_over r) hr hl = tt

  xdp_action_kept : (c : Carry) (pkt : PktCtx) (m : Maps) → NotDropped (xdp_action env c pkt m)
  unfolding xdp_action with_config
  xdp_action_kept c pkt m =
      on_lookups_kept (env.scratch Prog.action) 0 _ m (env.config Prog.action) λ cfg found.
        let kept = λ (r : Run). finish_kept c cfg (who pkt) r (monitoring Prog.action cfg found) in
        conclude_kept _ _ (action_stages (fixed env cfg c) _) kept kept

  xdp_policy_kept : (c : Carry) (pkt : PktCtx) (m : Maps) → NotDropped (xdp_policy env c pkt m)
  unfolding xdp_policy with_config
  xdp_policy_kept c pkt m =
      on_lookups_kept (env.scratch Prog.policy) 0 _ m (env.config Prog.policy) λ cfg found.
        let quiet =
          λ (r : Run). finish_quiet_kept c cfg (who pkt) r (monitoring Prog.policy cfg found) in
        conclude_kept _ _ (policy_stages (fixed env cfg c) _)
          (λ r. elim (Bool-cases (env.tail_call Prog.action)) [
            | inl called ↦ rw called (
                xdp_action_kept
                  (record c { ct_missed = r.ct_missed; ct_key_valid = r.ct_key_valid }) r.pkt
                  r.maps)
            | inr missing ↦ rw missing (quiet (lan_reason (fixed env cfg c) (no_call r)))
          ])
          quiet

  after_parse_kept :
      (c : Carry) (cfg : FwConfig) (m : Maps) (p : Parsed L4)
      → only_monitors cfg ≡ true
      → NotDropped (after_parse env c cfg m p)
  unfolding after_parse
  after_parse_kept c cfg m (refuse reason pkt) h = finish_kept c cfg nobody _ h
  after_parse_kept c cfg m (go (pkt, icmp_tc)) h = elim (Bool-cases (env.tail_call Prog.policy)) [
    | inl called ↦ rw called (xdp_policy_kept (record c { icmp_tc = icmp_tc }) pkt m)
    | inr missing ↦ rw missing (finish_kept c cfg nobody (no_call (start m pkt)) h)
  ]

  xdp_parse_kept :
      (c : Carry) (f : List ℕ) (pkt : PktCtx) (off proto : ℕ) (m : Maps)
      → NotDropped (xdp_parse env c f pkt off proto m)
  unfolding xdp_parse with_config
  xdp_parse_kept c f pkt off proto m =
      on_lookups_kept (env.scratch Prog.parse) 0 _ m (env.config Prog.parse) λ cfg found.
        after_parse_kept c cfg m (parse_layers f cfg pkt off proto)
          (monitoring Prog.parse cfg found)

  after_link_kept :
      (c : Carry) (cfg : FwConfig) (f : List ℕ) (m : Maps) (reached : Reached)
      → only_monitors cfg ≡ true
      → NotDropped (after_link env c cfg f m reached)
  unfolding after_link
  after_link_kept c cfg f m (settled reason act pkt) h = finish_kept c cfg nobody _ h
  after_link_kept c cfg f m (layer pkt off proto) h = elim (Bool-cases (env.tail_call Prog.parse)) [
    | inl called ↦ rw called (xdp_parse_kept c f pkt off proto m)
    | inr missing ↦ rw missing (finish_kept c cfg nobody (no_call (start m pkt)) h)
  ]

  -- Where every configuration that the programs find only monitors, by CALY_F_MONITOR_ONLY or by its
  -- mode, the chain drops no frame at all, malformed ones included.
  pub xdp_main-NotDropped :
      (f : List ℕ) (ifindex now : ℕ) (m : Maps) → NotDropped (xdp_main env f ifindex now m)
  unfolding xdp_main with_config
  xdp_main-NotDropped f ifindex now m =
      on_lookups_kept (env.scratch Prog.main) _ _ m (env.config Prog.main) λ cfg found.
        after_link_kept _ cfg f m (receive cfg (env.iface ifindex) f (fresh_ctx f ifindex now))
          (monitoring Prog.main cfg found)
