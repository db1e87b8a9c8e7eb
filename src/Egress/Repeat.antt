-- ===== src/Egress/Repeat.antt =====
-- A second packet of a flow that bpf/tc_egress.bpf.c has an entry of.
use caly_anti.Base.{ℕ, if◌then◌else◌, ◌≡◌, refl, arith, true, false, ◌&&◌, ◌==◌, none, some}
use caly_anti.Base.Bits.{test_bit, set_bit, test_bit-set_bit}
use caly_anti.Abi.Bits.{
  f_enabled, ct_f_outbound, f_conntrack, f_cap_tc_egress, pkt_l4_trunc, pkt_mgmt, tcp_rst, tcp_fin,
  tcp_syn, tcp_ack, ct_f_seen_reply,
}
use caly_anti.Abi.Config.{FwConfig}
use caly_anti.Abi.Reason.{StatReason}
use caly_anti.Parse.Key.{ConnKey}
use caly_anti.Xdp.State.{CtState, ConnState, Insert, Maps, conn_eq_refl}
use caly_anti.Xdp.Run.{Fixed, Run, Act, ◌>>=◌, Ensures, Ensures-bind, flag, pkt_flag, drop_for}
use caly_anti.Xdp.Admission.{Never}
use caly_anti.Xdp.Conntrack.{conn_key, advance, touched, touch, known_flow, conntrack}
use caly_anti.Xdp.Policy.{deferred_ban, unsolicited_synack}
use caly_anti.Egress.{
  Skb, Outbound, tce_stat, parse_out, out_key, out_flag, sent, outgoing, opens_none, track,
  tc_egress,
}
use caly_anti.Egress.Reply.{IsReply, reply_key, track-opens, tc_egress-track}
use mathlib.Core.Path.{subst, sym, ◌∙◌}

track-updates :
    (cfg : FwConfig) (ins : Insert ConnKey) (skb : Skb) (now : ℕ) (o : Outbound) (m : Maps)
    (cs : ConnState)
    → m.conn (out_key o) ≡ some cs
    → (track cfg ins skb now o m).conn (out_key o) ≡ some (sent o now cs)
unfolding track tce_stat
track-updates cfg ins skb now o m cs known = ground (arith, conn_eq_refl (out_key o))

sent-State :
    (o : Outbound) (now : ℕ) (proto : ℕ) (cs : ConnState)
    → cs.state ≡ (if proto == 6 then CtState.syn_sent else CtState.established)
    → out_flag o tcp_rst ≡ false
    → out_flag o tcp_fin ≡ false
    → ((sent o now cs).state ≡ CtState.established)
      × ((sent o now cs).pkts_in ≡ cs.pkts_in)
      × (test_bit (sent o now cs).flags ct_f_seen_reply ≡ true)
unfolding sent
sent-State o now proto cs state kept unfinished =
    ground (arith, test_bit-set_bit (set_bit cs.flags ct_f_outbound) ct_f_seen_reply)

-- A flow that was opened by an egress packet and by which nothing has been received is nevertheless
-- ESTABLISHED, with CALY_CT_F_SEEN_REPLY, after one more packet of the host, a repeated SYN or a second
-- datagram: no reply is needed for the long timeouts.
pub tc_egress_unanswered :
    (cfg : FwConfig) (ins : Insert ConnKey) (skb skb' : Skb) (now now' : ℕ) (m : Maps)
    (o o' : Outbound)
    → (test_bit cfg.flags f_enabled && test_bit cfg.flags f_conntrack) ≡ true
    → parse_out skb ≡ some o
    → parse_out skb' ≡ some o'
    → out_key o' ≡ out_key o
    → m.conn (out_key o) ≡ none
    → opens_none o ≡ false
    → ins.fails ≡ false
    → out_flag o' tcp_rst ≡ false
    → out_flag o' tcp_fin ≡ false
    → (cs : ConnState) × ((tc_egress
            (some cfg)
            ins
            skb'
            now'
            (tc_egress (some cfg) ins skb now m)).conn
          (out_key o)
        ≡ some cs)
      × (cs.pkts_in ≡ 0)
      × (cs.state ≡ CtState.established)
      × (test_bit cs.flags ct_f_seen_reply ≡ true)
tc_egress_unanswered cfg ins skb skb' now now' m o o' on first second same unknown opens room kept
      unfinished =
    let opened = track-opens cfg ins skb now o m unknown opens room in
    let cs = outgoing cfg skb o now in
    let state : cs.state ≡ (if o.proto == 6 then CtState.syn_sent else CtState.established) =
      unfold outgoing in refl in
    let again = sent-State o' now' o.proto cs state kept unfinished in
    let updated =
      track-updates cfg ins skb' now' o' (track cfg ins skb now o m) cs (rw same opened) in
    (
      sent o' now' cs,
      rw
          (
            tc_egress-track cfg ins skb now o m on first,
            tc_egress-track cfg ins skb' now' o' (track cfg ins skb now o m) on second,
          )
          (subst
            (λ k.
              (track cfg ins skb' now' o' (track cfg ins skb now o m)).conn k
              ≡ some (sent o' now' cs))
            same updated),
      again.1 ∙ unfold outgoing in refl,
      again.0,
      again.2,
    )

-- What stage 5 leaves of a packet whose entry is closed.
abbrev Misses : Run → Run → Type 0
Misses r s = (s.ct_missed ≡ true) × (s.pkt ≡ r.pkt) × (s.ban_deferred ≡ r.ban_deferred)

-- Dropped as an unsolicited SYN-ACK.
abbrev pub IsRefused : Run → Type 0
IsRefused t = (t.act ≡ Act.drop) × (t.reason ≡ StatReason.drop_tcp_synack_unsol)

known_flow-Misses :
    (fx : Fixed) (r : Run) (cs : ConnState)
    → cs.state ≡ CtState.closed
    → r.pkt.proto ≡ 6
    → test_bit r.pkt.tcp_flags tcp_rst ≡ false
    → test_bit r.pkt.tcp_flags tcp_fin ≡ false
    → Ensures (Misses r) IsRefused Never (known_flow fx r cs)
unfolding known_flow touched touch advance
known_flow-Misses fx r cs closed tcp kept unfinished = ground arith

deferred_ban-Misses :
    (r s : Run)
    → Misses r s
    → r.ban_deferred ≡ false
    → Ensures (Misses r) IsRefused Never (deferred_ban s)
unfolding deferred_ban
deferred_ban-Misses r s h free = rw (h.2 ∙ free) (h.0, h.1, sym free)

unsolicited_synack-IsRefused :
    (fx : Fixed) (s : Run)
    → s.ct_missed ≡ true
    → s.pkt.proto ≡ 6
    → s.pkt.tcp_flags ≡ 18
    → flag fx f_cap_tc_egress ≡ true
    → pkt_flag s pkt_mgmt ≡ false
    → Ensures Never IsRefused Never (unsolicited_synack fx s)
unfolding unsolicited_synack drop_for
unsolicited_synack-IsRefused fx s missed tcp flags egress unmarked =
    let syn : test_bit s.pkt.tcp_flags tcp_syn ≡ true = unfold test_bit in rw flags refl in
    let ack : test_bit s.pkt.tcp_flags tcp_ack ≡ true = unfold test_bit in rw flags refl in
    ground arith

conntrack-Misses :
    (fx : Fixed) (r : Run) (cs : ConnState)
    → r.maps.conn (conn_key r.pkt) ≡ some cs
    → cs.state ≡ CtState.closed
    → flag fx f_conntrack ≡ true
    → pkt_flag r pkt_l4_trunc ≡ false
    → r.pkt.proto ≡ 6
    → test_bit r.pkt.tcp_flags tcp_rst ≡ false
    → test_bit r.pkt.tcp_flags tcp_fin ≡ false
    → Ensures (Misses r) IsRefused Never (conntrack fx r)
unfolding conntrack
conntrack-Misses fx r cs known closed tracks whole tcp kept unfinished =
    rw (tracks, whole, known)
      (known_flow-Misses fx (record r { ct_key_valid = true }) cs closed tcp kept unfinished)

sent-last_seen : (o : Outbound) (now : ℕ) (cs : ConnState) → (sent o now cs).last_seen_ns ≡ now
unfolding sent
sent-last_seen o now cs = ground arith

sent-closed :
    (o : Outbound) (now : ℕ) (cs : ConnState)
    → cs.state ≡ CtState.closed
    → out_flag o tcp_fin ≡ false
    → (sent o now cs).state ≡ CtState.closed
unfolding sent
sent-closed o now cs closed unfinished = ground arith

-- Where a connection's entry was closed by a reset and is still in the table, a segment of the host
-- without FIN, a SYN among them, leaves the entry CLOSED and sets its last_seen_ns to now, and a
-- SYN-ACK that answers it is dropped as unsolicited by the stages of the policy from the connection
-- table on. That holds of an answer with the flags SYN and ACK alone and its ports in the frame, that
-- is not marked as management and whose source has no deferred ban, where the firewall is enabled,
-- connections are tracked and CALY_F_CAP_TC_EGRESS is set.
pub tc_egress_reconnect :
    (cfg : FwConfig) (ins : Insert ConnKey) (skb : Skb) (now : ℕ) (m : Maps) (o : Outbound)
    (cs : ConnState) (fx : Fixed) (r : Run)
    → (test_bit cfg.flags f_enabled && test_bit cfg.flags f_conntrack) ≡ true
    → parse_out skb ≡ some o
    → m.conn (out_key o) ≡ some cs
    → cs.state ≡ CtState.closed
    → out_flag o tcp_fin ≡ false
    → r.maps.conn ≡ (tc_egress (some cfg) ins skb now m).conn
    → IsReply o r.pkt
    → flag fx f_conntrack ≡ true
    → flag fx f_cap_tc_egress ≡ true
    → pkt_flag r pkt_l4_trunc ≡ false
    → pkt_flag r pkt_mgmt ≡ false
    → r.ban_deferred ≡ false
    → r.pkt.proto ≡ 6
    → r.pkt.tcp_flags ≡ 18
    → (cs' : ConnState) × ((tc_egress (some cfg) ins skb now m).conn (out_key o) ≡ some cs')
      × (cs'.state ≡ CtState.closed)
      × (cs'.last_seen_ns ≡ now)
      × Ensures Never IsRefused Never (conntrack fx r >>= deferred_ban >>= unsolicited_synack fx)
tc_egress_reconnect cfg ins skb now m o cs fx r on parsed known closed unfinished same reply tracks
      egress whole unmarked free tcp flags =
    let kept_entry : (tc_egress (some cfg) ins skb now m).conn (out_key o) ≡ some (sent o now cs) =
      rw (tc_egress-track cfg ins skb now o m on parsed)
        (track-updates cfg ins skb now o m cs known) in
    let hit : r.maps.conn (conn_key r.pkt) ≡ some (sent o now cs) =
      rw (same, reply_key o r.pkt reply) kept_entry in
    let shut = sent-closed o now cs closed unfinished in
    let missed =
      conntrack-Misses fx r (sent o now cs) hit shut tracks whole tcp
        (unfold test_bit in rw flags refl) (unfold test_bit in rw flags refl) in
    let kept =
      Ensures-bind (Misses r) (Misses r) IsRefused Never (conntrack fx r) deferred_ban missed
        λ s h. deferred_ban-Misses r s h free in
    (
      sent o now cs,
      kept_entry,
      shut,
      sent-last_seen o now cs,
      Ensures-bind (Misses r) Never IsRefused Never (conntrack fx r >>= deferred_ban)
          (unsolicited_synack fx) kept
          λ s h.
            unsolicited_synack-IsRefused fx s h.0 (rw h.1 tcp) (rw h.1 flags) egress
              (rw h.1 unmarked),
    )
