-- ===== src/Xdp/Counts.antt =====
-- The aggregate counters of the XDP programs, which only the verdict touches.
use caly_anti.Base.{ℕ, ◌<◌, ◌≤◌, ◌≡◌, arith}
use caly_anti.Abi.Reason.{StatReason, reason_code}
use caly_anti.Abi.Config.{FwConfig}
use caly_anti.Xdp.State.{Maps, Env, stat}
use caly_anti.Xdp.Run.{Run, Flow, Act, ◌>>=◌, Ensures, Ensures-bind}
use caly_anti.Xdp.Bans.{Offence, ban_install}

abbrev pub SameCounts : Maps → Maps → Type 0
SameCounts m m' =
    (m'.stats StatReason.pkt_total ≡ m.stats StatReason.pkt_total)
    × (m'.stats StatReason.pass_total ≡ m.stats StatReason.pass_total)
    × (m'.stats StatReason.drop_total ≡ m.stats StatReason.drop_total)
    × (m'.stats StatReason.tx_total ≡ m.stats StatReason.tx_total)

pub stat-SameCounts :
    (reason : StatReason) (len : ℕ) (m : Maps)
    → 3 < reason_code reason
    → SameCounts m (stat reason len m)
unfolding stat
stat-SameCounts reason len m h = ground arith

-- Installing a ban counts what became of it, and nothing else.
pub ban_install-SameCounts :
    (env : Env) (cfg : FwConfig) (o : Offence) (m : Maps) → SameCounts m (ban_install env cfg o m).0
unfolding ban_install stat
ban_install-SameCounts env cfg o m = ground arith

abbrev pub Fits : Act → ℕ → Type 0
Fits Act.pass code = (5 ≤ code) × (code ≤ 18)
Fits Act.drop code = (19 ≤ code) × (code ≤ 80)
Fits Act.tx code = ⊥

-- A run that is still open passes for a reason of its own, and one that is settled has a reason that
-- fits its action.
abbrev pub IsOpen : Maps → Run → Type 0
IsOpen m r = SameCounts m r.maps × (r.act ≡ Act.pass) × Fits Act.pass (reason_code r.reason)

abbrev pub IsSettled : Maps → Run → Type 0
IsSettled m r = SameCounts m r.maps × Fits r.act (reason_code r.reason)

abbrev pub Counted : Maps → (Run → Flow) → Type 0
Counted m f =
    (r : Run) → IsOpen m r → Ensures (IsOpen m) (IsSettled m) (λ s. SameCounts m s.maps) (f r)

pub Counted-bind :
    (m : Maps) (f g : Run → Flow) → Counted m f → Counted m g → Counted m (λ r. f r >>= g)
Counted-bind m f g cf cg r h =
    Ensures-bind (IsOpen m) (IsOpen m) (IsSettled m) (λ s. SameCounts m s.maps) (f r) g (cf r h) cg
