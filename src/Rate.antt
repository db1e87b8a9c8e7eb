-- ===== src/Rate.antt =====
-- bpf/ratelimit.h: the rate state of one source. `rate_check` charges its buckets, and
-- `strike_register` counts the strikes that earn a ban.
pub mod Check
pub mod Strike
use caly_anti.Base.{ℕ, ◌+◌, ◌-◌, ◌≤◌, Bool, true, false, ◌||◌, not, ltb, leb, ◌==◌, if◌then◌else◌}
use caly_anti.Base.Bits.{test_bit, set_bit, clear_bit}
use caly_anti.Abi.Bits.{rs_seeded, rs_striking}
use caly_anti.Abi.Bucket.{TokenBucket, TbKind, PerKind, slot, put, RateState}
use caly_anti.Abi.Config.{FwConfig}
use caly_anti.Abi.Reason
use caly_anti.Abi.Reason.{StatReason}
use caly_anti.Bucket.{tb_init, tb_consume}
use caly_anti.Compat.{add_sat_u32, age_ns}

unfoldable pub rate_seed : RateState → FwConfig → ℕ → RateState
unfolding slot tb_init
rate_seed rs cfg now_ns = record rs {
  tb = record {
    at_pps = tb_init now_ns (slot TbKind.pps cfg.tb_burst);
    at_bps = tb_init now_ns (slot TbKind.bps cfg.tb_burst);
    at_syn = tb_init now_ns (slot TbKind.syn cfg.tb_burst);
    at_udp = tb_init now_ns (slot TbKind.udp cfg.tb_burst);
    at_icmp = tb_init now_ns (slot TbKind.icmp cfg.tb_burst);
    at_newconn = tb_init now_ns (slot TbKind.newconn cfg.tb_burst);
  };
  window_start_ns = now_ns;
  last_seen_ns = now_ns;
  strikes = 0;
  last_reason = StatReason.pkt_total;
  flags = set_bit rs.flags rs_seeded;
}

unfoldable pub rate_touch : RateState → ℕ → RateState
rate_touch rs now_ns = record rs { last_seen_ns = now_ns }

-- `if (!(rs->flags & CALY_RS_F_SEEDED)) caly_rate_seed(rs, cfg, now_ns);`
unfoldable pub seeded : RateState → FwConfig → ℕ → RateState
seeded rs cfg now_ns = if test_bit rs.flags rs_seeded then rs else rate_seed rs cfg now_ns

-- `caly_tb_consume(&rs->tb[kind], now_ns, rate[kind], burst[kind], want)`
unfoldable pub charge : RateState → FwConfig → ℕ → TbKind → ℕ → RateState × Bool
unfolding slot put
charge rs cfg now_ns kind want =
    let (tb, conforms) =
      tb_consume (slot kind rs.tb) now_ns (slot kind cfg.tb_rate) (slot kind cfg.tb_burst) want in
    (record rs { tb = put kind tb rs.tb }, conforms)

-- What follows a charge: the rest of the function, or the return of `reason`.
unfoldable pub after :
    StatReason → (RateState → RateState × StatReason) → RateState × Bool → RateState × StatReason
after reason rest (rs, true) = rest rs
after reason rest (rs, false) = (rs, reason)

-- What the caller says of the packet.
pub record PacketKind : Type 0 where
  pub want_bytes : ℕ
  pub is_syn : Bool
  pub is_udp : Bool
  pub is_icmp : Bool
  pub is_newconn : Bool

-- `if (applies && !caly_tb_consume(...)) return reason;`, and the rest.
unfoldable pub charge_if :
    Bool
    → TbKind
    → StatReason
    → FwConfig
    → ℕ
    → (RateState → RateState × StatReason)
    → RateState
    → RateState × StatReason
unfolding charge after
charge_if applies kind reason cfg now_ns rest rs =
    if applies then after reason rest (charge rs cfg now_ns kind 1) else rest rs

unfoldable pub rate_check : RateState → FwConfig → ℕ → PacketKind → RateState × StatReason
unfolding seeded charge after charge_if
rate_check rs cfg now_ns p =
    let newconn =
      charge_if p.is_newconn TbKind.newconn StatReason.drop_rate_newconn cfg now_ns
        (λ r. (r, StatReason.pkt_total)) in
    let icmp = charge_if p.is_icmp TbKind.icmp StatReason.drop_rate_icmp cfg now_ns newconn in
    let udp = charge_if p.is_udp TbKind.udp StatReason.drop_rate_udp cfg now_ns icmp in
    let syn = charge_if p.is_syn TbKind.syn StatReason.drop_rate_syn cfg now_ns udp in
    let bps = λ (r : RateState).
      after StatReason.drop_rate_bps syn (charge r cfg now_ns TbKind.bps p.want_bytes) in
    after StatReason.drop_rate_pps bps (charge (seeded rs cfg now_ns) cfg now_ns TbKind.pps 1)

unfoldable pub rate_syn_ok : RateState → FwConfig → ℕ → RateState × Bool
unfolding seeded charge
rate_syn_ok rs cfg now_ns = charge (seeded rs cfg now_ns) cfg now_ns TbKind.syn 1

-- A strike in the open window, or the first of a new one.
unfoldable pub open_window : RateState → FwConfig → ℕ → RateState
open_window rs cfg now_ns =
    if not (test_bit rs.flags rs_striking)
      || ltb cfg.strike_window_ns (age_ns now_ns rs.window_start_ns)
    then record rs { window_start_ns = now_ns; strikes = 0; flags = set_bit rs.flags rs_striking }
    else rs

unfoldable pub count_strike : RateState → FwConfig → StatReason → RateState × Bool
count_strike rs cfg reason =
    let strikes' = add_sat_u32 rs.strikes 1 in
    let rs' = record rs { strikes = strikes'; last_reason = reason } in
    if leb cfg.strike_limit strikes'
    then (record rs' { flags = clear_bit rs.flags rs_striking }, true)
    else (rs', false)

unfoldable pub strike_register : RateState → FwConfig → ℕ → StatReason → RateState × Bool
unfolding open_window count_strike
strike_register rs cfg now_ns reason =
    if cfg.strike_window_ns == 0 || cfg.strike_limit == 0
    then (
      record rs {
        last_reason = reason;
        strikes = add_sat_u32 rs.strikes 1;
        flags = set_bit rs.flags rs_striking;
      },
      true,
    )
    else count_strike (open_window rs cfg now_ns) cfg reason

unfoldable pub strike_clear : RateState → RateState
strike_clear rs = record rs { strikes = 0; flags = clear_bit rs.flags rs_striking }
