-- ===== src/Tests/Inbound.antt =====
-- bpf/tc_ingress.bpf.c on concrete packets.
use caly_anti.Base.{List, ℕ, ◌&&◌, not, if◌then◌else◌, ◌≡◌, refl, arith, true, false, [], ◌∷◌}
use caly_anti.Base.Bits.{test_bit}
use caly_anti.Abi.Bucket.{RateState}
use caly_anti.Abi.Reason.{StatReason, reason_code}
use caly_anti.Xdp.State.{VerdictCode}
use caly_anti.Rate.{rate_check}
use caly_anti.Ingress.{TciPkt, tci_conn_key}
use caly_anti.Ingress.Limits.{tci_rate_check}
use caly_anti.Ingress.Flows.{Arrival, any_confirmed, any_confirmed-unsolicited}
use caly_anti.Ingress.Handshake.{arrive_handshake}
use caly_anti.Ingress.Finish.{tci_finish, act_ok, act_shot, is_drop}
use caly_anti.Ingress.Charged.{IsChargedAs, tci_finish-IsChargedAs}
use caly_anti.Ingress.Headers.{tci_parse}
use caly_anti.Ingress.InFrame.{IfParsed, IsInFrame, tci_parse-IsInFrame}
use caly_anti.Ingress.SameBuckets.{kind_of, tci_rate_check-rate_check}
use caly_anti.Tests.Data.{config, each}
use caly_anti.Tests.World.{insert, maps}

abbrev datagram : TciPkt
datagram = record {
  saddr = 7 ∷ 0 ∷ 0 ∷ 0 ∷ [];
  daddr = 8 ∷ 0 ∷ 0 ∷ 0 ∷ [];
  family = 4;
  proto = 17;
  l3_off = 14;
  l4_off = 34;
  pkt_len = 60;
  ifindex = 3;
  pkt_flags = 0;
  icmp_type = 0;
  sport = 40_000;
  dport = 53;
  tcp_flags = 0;
  frag_units = 0;
  ttl = 64;
  is_wan = true;
  is_syn = false;
  drop_private = false;
}

abbrev opens : TciPkt
opens = record datagram { proto = 6; tcp_flags = 2; is_syn = true }

abbrev ack : TciPkt
ack = record datagram { proto = 6; tcp_flags = 16 }

abbrev at : ℕ → TciPkt → Arrival
at now p = record { packet = p; at_ns = now; rule_flags = 0; permitted = true }

any_confirmed-unsolicited_example :
    any_confirmed insert (at 10 datagram ∷ at 20 datagram ∷ at 30 datagram ∷ []) maps ≡ false
any_confirmed-unsolicited_example =
    any_confirmed-unsolicited insert (tci_conn_key datagram)
      (at 10 datagram ∷ at 20 datagram ∷ at 30 datagram ∷ []) maps refl
      (refl, omega arith, (refl, omega arith, (refl, omega arith, tt)))

arrive_handshake_example : any_confirmed insert (at 10 opens ∷ at 20 ack ∷ []) maps ≡ true
unfolding test_bit tci_conn_key
arrive_handshake_example =
    arrive_handshake insert (at 10 opens) (at 20 ack) maps refl refl refl refl refl refl refl

abbrev half_empty : RateState
half_empty = record {
  tb = each (record { tokens = 1; last_refill_ns = 7_000 });
  window_start_ns = 0;
  last_seen_ns = 0;
  strikes = 0;
  last_reason = StatReason.pkt_total;
  offences = 0;
  flags = 1;
}

tci_rate_check-rate_check_example :
    tci_rate_check half_empty config datagram true 8_000
    ≡ rate_check (record half_empty { last_seen_ns = 8_000 }) config 8_000 (kind_of datagram true)
unfolding test_bit
tci_rate_check-rate_check_example =
    tci_rate_check-rate_check config 8_000 datagram true half_empty refl

tci_finish-IsChargedAs_example :
    IsChargedAs maps
      (tci_finish config insert datagram StatReason.drop_portscan VerdictCode.v_drop false 10
        maps).0
      (tci_finish config insert datagram StatReason.drop_portscan VerdictCode.v_drop false 10
        maps).1
    × ((tci_finish config insert datagram StatReason.drop_portscan VerdictCode.v_drop false 10
          maps).1
        ≡ (if is_drop VerdictCode.v_drop && not false then act_shot else act_ok))
unfolding reason_code
tci_finish-IsChargedAs_example =
    tci_finish-IsChargedAs config insert datagram StatReason.drop_portscan VerdictCode.v_drop false
      10 maps (omega arith)

-- A frame that ends in the IPv4 header.
abbrev stump : List ℕ
stump = 2 ∷ 0 ∷ 0 ∷ 0 ∷ 0 ∷ 2 ∷ 2 ∷ 0 ∷ 0 ∷ 0 ∷ 0 ∷ 1 ∷ 8 ∷ 0 ∷ 0x45 ∷ 0 ∷ 0 ∷ 28 ∷ []

tci_parse-IsInFrame_example : IfParsed (IsInFrame stump) (tci_parse stump config 0 datagram)
tci_parse-IsInFrame_example = tci_parse-IsInFrame stump config 0 datagram
