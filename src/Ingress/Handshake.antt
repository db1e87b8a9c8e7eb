-- ===== src/Ingress/Handshake.antt =====
-- An inbound handshake that the host takes no part in.
use caly_anti.Base.{ℕ, ap, ◌∙◌, ◌≡◌, refl, arith, true, false, ◌&&◌, ◌==◌, [], ◌∷◌, none, some}
use caly_anti.Base.Bits.{test_bit, test_bit-set_bit}
use caly_anti.Abi.Bits.{ct_f_seen_reply, tcp_ack, tcp_syn}
use caly_anti.Abi.Reason.{StatReason}
use caly_anti.Parse.Key.{ConnKey}
use caly_anti.Xdp.State.{ConnState, CtState, Insert, Maps, conn_eq_refl, store, stat}
use caly_anti.Xdp.Conntrack.{is_closed}
use caly_anti.Ingress.{
  TciPkt, tci_tcp, tci_conn_key, CtHit, ct_miss, ct_unconfirmed, ct_confirmed, tci_advance,
  tci_class, tci_seen, tci_known, tci_conn_hit, tci_opened, tci_conn_create,
}
use caly_anti.Ingress.Flows.{
  Arrival, after_lookup, arrive, any_confirmed, stat_conn, hit_missing, hit_known,
}

class_of_reply :
    (cs : ConnState) → test_bit cs.flags ct_f_seen_reply ≡ true → tci_class cs ≡ ct_confirmed
unfolding tci_class
class_of_reply cs h = rw h refl

advance_confirms :
    (p : TciPkt) (cs : ConnState)
    → cs.state ≡ CtState.syn_recv
    → tci_tcp p tcp_ack ≡ true
    → test_bit p.tcp_flags tcp_syn ≡ false
    → test_bit (tci_advance p cs).flags ct_f_seen_reply ≡ true
unfolding tci_advance
advance_confirms p cs state ack syn = ground (arith, test_bit-set_bit cs.flags ct_f_seen_reply)

known_confirms :
    (p : TciPkt) (now : ℕ) (cs : ConnState) (m : Maps)
    → cs.state ≡ CtState.syn_recv
    → tci_tcp p tcp_ack ≡ true
    → test_bit p.tcp_flags tcp_syn ≡ false
    → (tci_known p now cs m).1 ≡ ct_confirmed
unfolding tci_known
known_confirms p now cs m state ack syn =
    let class =
      class_of_reply (tci_advance p (tci_seen p now cs))
        (advance_confirms p (tci_seen p now cs) state ack syn) in
    let live : is_closed cs.state ≡ false = rw state refl in rw live class

create_opens :
    (ins : Insert ConnKey) (p : TciPkt) (rule_flags now : ℕ) (m : Maps)
    → ins.fails ≡ false
    → (tci_conn_create ins p rule_flags now m).conn (tci_conn_key p)
      ≡ some (tci_opened p rule_flags now)
unfolding tci_conn_create store
create_opens ins p rule_flags now m room =
    rw (room, stat_conn) (rw (conn_eq_refl (tci_conn_key p)) refl)

after_lookup_class :
    (ins : Insert ConnKey) (a : Arrival) (o : Maps × CtHit) → (after_lookup ins a o).1 ≡ o.1
unfolding after_lookup
after_lookup_class ins a (m, ct_miss) = refl
after_lookup_class ins a (m, ct_unconfirmed) = refl
after_lookup_class ins a (m, ct_confirmed) = refl

-- A TCP source confirms itself: of a flow that the table does not know, a permitted SYN followed by an
-- ACK of the same source skips the buckets, though the host has sent nothing.
pub arrive_handshake :
    (ins : Insert ConnKey) (a b : Arrival) (m : Maps)
    → m.conn (tci_conn_key a.packet) ≡ none
    → (a.packet.proto == 6 && a.packet.is_syn) ≡ true
    → a.permitted ≡ true
    → ins.fails ≡ false
    → tci_conn_key b.packet ≡ tci_conn_key a.packet
    → tci_tcp b.packet tcp_ack ≡ true
    → test_bit b.packet.tcp_flags tcp_syn ≡ false
    → any_confirmed ins (a ∷ b ∷ []) m ≡ true
unfolding any_confirmed arrive after_lookup
arrive_handshake ins a b m unknown syn permitted room same ack no_syn =
    let m' = tci_conn_create ins a.packet a.rule_flags a.at_ns (stat StatReason.ct_miss 0 m) in
    let opened = tci_opened a.packet a.rule_flags a.at_ns in
    let known : m'.conn (tci_conn_key b.packet) ≡ some opened =
      rw same (create_opens ins a.packet a.rule_flags a.at_ns (stat StatReason.ct_miss 0 m) room) in
    let state : opened.state ≡ CtState.syn_recv = unfold tci_opened in rw syn refl in
    let first : arrive ins a m ≡ (m', ct_miss) =
      rw (hit_missing a.packet a.at_ns m unknown, permitted) refl in
    let second : (arrive ins b m').1 ≡ ct_confirmed =
      after_lookup_class ins b (tci_conn_hit b.packet b.at_ns m')
      ∙ ap (λ o. o.1) (hit_known b.packet b.at_ns m' opened known)
      ∙ known_confirms b.packet b.at_ns opened m' state ack no_syn in
    rw (first, second) refl
