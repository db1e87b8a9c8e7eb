-- ===== src/Ingress/Charged.antt =====
-- What the single exit of bpf/tc_ingress.bpf.c counts and answers.
use caly_anti.Base.{ℕ, ◌≤◌, ◌≡◌, refl, arith, Bool, true, false, ◌&&◌, not, if◌then◌else◌}
use caly_anti.Base.Word.{add_u64}
use caly_anti.Abi.Config.{FwConfig}
use caly_anti.Abi.Reason.{StatReason, reason_code}
use caly_anti.Xdp.State.{Source, Insert, Maps, VerdictCode, stat, gauge}
use caly_anti.Xdp.Counts.{SameCounts}
use caly_anti.Ingress.{TciPkt}
use caly_anti.Ingress.Finish.{
  TcAction, act_ok, act_shot, tci_srcstats, is_drop, tci_gauges, tci_count, tci_finish,
}

-- One more packet, and one more of the aggregate that the answer names.
abbrev pub IsChargedAs : Maps → Maps → TcAction → Type 0
IsChargedAs m m' act_ok =
    (m'.stats StatReason.pkt_total ≡ add_u64 (m.stats StatReason.pkt_total) 1)
    × (m'.stats StatReason.pass_total ≡ add_u64 (m.stats StatReason.pass_total) 1)
    × (m'.stats StatReason.drop_total ≡ m.stats StatReason.drop_total)
IsChargedAs m m' act_shot =
    (m'.stats StatReason.pkt_total ≡ add_u64 (m.stats StatReason.pkt_total) 1)
    × (m'.stats StatReason.pass_total ≡ m.stats StatReason.pass_total)
    × (m'.stats StatReason.drop_total ≡ add_u64 (m.stats StatReason.drop_total) 1)

tci_srcstats-SameCounts :
    (cfg : FwConfig) (ins : Insert Source) (p : TciPkt) (reason : StatReason) (dropped : Bool)
    (now : ℕ) (m : Maps)
    → SameCounts m (tci_srcstats cfg ins p reason dropped now m)
unfolding tci_srcstats stat reason_code
tci_srcstats-SameCounts cfg ins p reason dropped now m = ground arith

gauges_stats : (p : TciPkt) (m : Maps) → (tci_gauges p m).stats ≡ m.stats
unfolding gauge
gauges_stats p m = ground arith

abbrev Counted : Maps → Bool → Maps → Type 0
Counted m dropped m' =
    (m'.stats StatReason.pkt_total ≡ m.stats StatReason.pkt_total)
    × (m'.stats StatReason.pass_total ≡ (
        if dropped
        then m.stats StatReason.pass_total
        else add_u64 (m.stats StatReason.pass_total) 1))
    × (m'.stats StatReason.drop_total ≡ (
        if dropped
        then add_u64 (m.stats StatReason.drop_total) 1
        else m.stats StatReason.drop_total))

tci_count-Counted :
    (p : TciPkt) (reason : StatReason) (dropped : Bool) (m : Maps)
    → 5 ≤ reason_code reason
    → Counted m dropped (tci_count p reason dropped m)
unfolding tci_count stat gauge
tci_count-Counted p reason true m h = unfold reason_code in ground arith
tci_count-Counted p reason false m h = unfold reason_code in ground arith

seen_pkt :
    (p : TciPkt) (watched : Bool) (m : Maps)
    → let m1 = if watched then stat StatReason.monitor_would_drop p.pkt_len m else m in
      let m2 = tci_gauges p (stat StatReason.pkt_total p.pkt_len m1) in
      (m2.stats StatReason.pkt_total ≡ add_u64 (m.stats StatReason.pkt_total) 1)
      × (m2.stats StatReason.pass_total ≡ m.stats StatReason.pass_total)
      × (m2.stats StatReason.drop_total ≡ m.stats StatReason.drop_total)
unfolding stat reason_code gauge
seen_pkt p watched m = ground arith

charge_of :
    (m m2 m3 m4 : Maps) (dropped : Bool)
    → (m2.stats StatReason.pkt_total ≡ add_u64 (m.stats StatReason.pkt_total) 1)
      × (m2.stats StatReason.pass_total ≡ m.stats StatReason.pass_total)
      × (m2.stats StatReason.drop_total ≡ m.stats StatReason.drop_total)
    → Counted m2 dropped m3
    → SameCounts m3 m4
    → IsChargedAs m m4 (if dropped then act_shot else act_ok)
charge_of m m2 m3 m4 true seen counted same = ground arith
charge_of m m2 m3 m4 false seen counted same = ground arith

-- Whatever the reason of a verdict, which is no aggregate, the exit counts one more packet, and one
-- more in the aggregate of its answer alone; it answers TC_ACT_SHOT exactly when the verdict is a drop
-- and the program does not only monitor.
pub tci_finish-IsChargedAs :
    (cfg : FwConfig) (ins : Insert Source) (p : TciPkt) (reason : StatReason)
    (verdict : VerdictCode) (monitor : Bool) (now : ℕ) (m : Maps)
    → 5 ≤ reason_code reason
    → IsChargedAs m
        (tci_finish cfg ins p reason verdict monitor now m).0
        (tci_finish cfg ins p reason verdict monitor now m).1
      × ((tci_finish cfg ins p reason verdict monitor now m).1
          ≡ (if is_drop verdict && not monitor then act_shot else act_ok))
unfolding tci_finish
tci_finish-IsChargedAs cfg ins p reason verdict monitor now m h =
    let dropped = is_drop verdict && not monitor in
    let watched = is_drop verdict && monitor in
    let m1 = if watched then stat StatReason.monitor_would_drop p.pkt_len m else m in
    let m2 = tci_gauges p (stat StatReason.pkt_total p.pkt_len m1) in
    let m3 = tci_count p reason dropped m2 in
    (
      charge_of m m2 m3 (tci_srcstats cfg ins p reason dropped now m3) dropped
          (seen_pkt p watched m) (tci_count-Counted p reason dropped m2 h)
          (tci_srcstats-SameCounts cfg ins p reason dropped now m3),
      refl,
    )
