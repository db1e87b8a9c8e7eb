-- ===== src/Tests/Firewall.antt =====
-- The tail-call chain and the policy of bpf/xdp_firewall.bpf.c on concrete packets.
use caly_anti.Base.{ℕ, ◌^◌, ◌≡◌, ◌≢◌, ◌⊎◌, refl, arith, true, List, [], ◌∷◌, some}
use caly_anti.Base.Bits.{test_bit}
use caly_anti.Abi.Bits.{pkt_mgmt}
use caly_anti.Abi.Config.{FwConfig}
use caly_anti.Abi.Reason.{StatReason}
use caly_anti.Parse.Packet.{PktCtx}
use caly_anti.Xdp.State.{Maps, Prog}
use caly_anti.Xdp.Run.{Run, Act, XdpAction, next, verdict, handed_over, pkt_flag, drop_for, start}
use caly_anti.Xdp.Verdict.{fw_mode_lockdown}
use caly_anti.Xdp.Anomaly.{
  anomalies, land_check, tcp_check, udp_check, icmp_check, martian_check, flags_check, ports_check,
}
use caly_anti.Xdp.Reputation.{allowlist, to_mgmt_port, mgmt_ports, reputation, blocklist, bans}
use caly_anti.Xdp.Conntrack.{conntrack}
use caly_anti.Xdp.Policy.{policy_stages, deferred_ban, unsolicited_synack, lockdown}
use caly_anti.Xdp.Chain.{fixed, returns, xdp_policy, xdp_main}
use caly_anti.Xdp.Answers.{Answered, xdp_main-Answered}
use caly_anti.Xdp.Monitor.{NotDropped, only_monitors, xdp_main-NotDropped}
use caly_anti.Xdp.Admission.{IsAdmission, policy_stages-Admits}
use caly_anti.Xdp.Escapes.{xdp_policy_allowlist, xdp_policy_mgmt_port}
use caly_anti.Xdp.Silence.{xdp_policy_silent}
use caly_anti.Source.{is_mgmt_tcp, is_mgmt, mgmt_loop}
use caly_anti.Tests.Data.{config}
use caly_anti.Tests.World.{env, maps, segment, carry}

-- A frame of ARP.
abbrev arp : List ℕ
arp = 2 ∷ 0 ∷ 0 ∷ 0 ∷ 0 ∷ 1 ∷ 2 ∷ 0 ∷ 0 ∷ 0 ∷ 0 ∷ 2 ∷ 8 ∷ 6 ∷ 0 ∷ 1 ∷ []

abbrev on : FwConfig
on = record config { flags = 1 }

xdp_main-Answered_example : Answered maps (xdp_main (env on) arp 3 1_000 maps)
xdp_main-Answered_example = xdp_main-Answered (env on) arp 3 1_000 maps

abbrev watching : FwConfig
watching = record config { flags = 3 }

watches :
    (prog : Prog) (cfg : FwConfig)
    → (env watching).config prog ≡ some cfg
    → only_monitors cfg ≡ true
unfolding test_bit
watches prog cfg h = ground arith

xdp_main-NotDropped_example : NotDropped (xdp_main (env watching) (2 ∷ []) 3 1_000 maps)
xdp_main-NotDropped_example = xdp_main-NotDropped (env watching) watches (2 ∷ []) 3 1_000 maps

-- In lockdown.
abbrev locked : FwConfig
locked = record config { mode = 3 }

policy_stages-Admits_example :
    ((r : Run)
      → policy_stages (fixed (env locked) locked carry) (start maps segment) ≡ verdict r
      → (r.act ≡ Act.drop) ⊎ IsAdmission r.reason)
    × ((r : Run)
        → policy_stages (fixed (env locked) locked carry) (start maps segment) ≢ handed_over r)
    × ((r : Run)
        → locked.mode ≡ fw_mode_lockdown
        → policy_stages (fixed (env locked) locked carry) (start maps segment) ≡ next r
        → pkt_flag r pkt_mgmt ≡ true)
policy_stages-Admits_example = policy_stages-Admits (fixed (env locked) locked carry) maps segment

-- The allowlist is on, in lockdown.
abbrev allowing : FwConfig
allowing = record config { flags = 2 ^ 17; mode = 3 }

clean :
    anomalies (fixed (env allowing) allowing carry) (start maps segment) ≡ next (start maps segment)
unfolding anomalies land_check tcp_check udp_check icmp_check martian_check flags_check ports_check
    test_bit start
clean = refl

xdp_policy_allowlist_example :
    (m' : Maps) × (xdp_policy (env allowing) carry segment maps ≡ returns m' XdpAction.xdp_pass)
unfolding start test_bit
xdp_policy_allowlist_example =
    xdp_policy_allowlist (env allowing) carry segment maps allowing (start maps segment) 0 refl refl
      clean refl refl

-- The management ports bypass everything, in lockdown.
abbrev bypassing : FwConfig
bypassing = record config { flags = 2 ^ 29; mode = 3 }

clean_bypass :
    anomalies (fixed (env bypassing) bypassing carry) (start maps segment)
    ≡ next (start maps segment)
unfolding anomalies land_check tcp_check udp_check icmp_check martian_check flags_check ports_check
    test_bit start
clean_bypass = refl

missed_bypass :
    allowlist (fixed (env bypassing) bypassing carry) (start maps segment)
    ≡ next (start maps segment)
unfolding allowlist test_bit
missed_bypass = refl

to_login : to_mgmt_port (fixed (env bypassing) bypassing carry) (start maps segment) ≡ true
unfolding to_mgmt_port is_mgmt_tcp is_mgmt mgmt_loop start test_bit
to_login = refl

xdp_policy_mgmt_port_example :
    (m' : Maps) × (xdp_policy (env bypassing) carry segment maps ≡ returns m' XdpAction.xdp_pass)
unfolding test_bit
xdp_policy_mgmt_port_example =
    xdp_policy_mgmt_port (env bypassing) carry segment maps bypassing (start maps segment)
      (start maps segment) refl refl clean_bypass missed_bypass to_login refl

-- Destination Unreachable, code 0.
abbrev unreachable : Run
unreachable = record (start maps segment) { pkt = record segment { proto = 1 } }

-- A segment to a port that is no management port.
abbrev web : PktCtx
web = record segment { dport = 80 }

locked_out :
    policy_stages (fixed (env locked) locked carry) (start maps web)
    ≡ verdict (record (start maps web) { reason = StatReason.drop_lockdown; act = Act.drop })
unfolding policy_stages anomalies land_check tcp_check udp_check icmp_check martian_check
    flags_check ports_check test_bit start allowlist to_mgmt_port is_mgmt_tcp is_mgmt mgmt_loop
    mgmt_ports reputation bans blocklist conntrack deferred_ban unsolicited_synack lockdown drop_for
locked_out = refl

xdp_policy_silent_example :
    (m' : Maps) × (action : XdpAction) × (xdp_policy (env locked) carry web maps
      ≡ returns m' action)
    × (m'.events ≡ maps.events)
xdp_policy_silent_example =
    xdp_policy_silent (env locked) carry web maps locked
      (record (start maps web) { reason = StatReason.drop_lockdown; act = Act.drop }) refl refl
      locked_out
