-- ===== src/Ingress/Flows.antt =====
-- Which inbound flows may skip the buckets.
use caly_anti.Base.{
  ℕ, ap, ◌∙◌, ◌≡◌, ◌≢◌, ◌⊎◌, refl, arith, Bool, true, false, ◌||◌, ◌==◌, if◌then◌else◌, List, [],
  ◌∷◌, none, some, Bool-cases, inl, inr,
}
use caly_anti.Base.Bits.{test_bit, set_bit}
use caly_anti.Abi.Bits.{ct_f_outbound, ct_f_seen_reply, ct_f_allowlist, tcp_rst}
use caly_anti.Abi.Reason.{StatReason}
use caly_anti.Parse.Key.{ConnKey}
use caly_anti.Xdp.State.{
  ConnState, CtState, Insert, Maps, conn_eq, conn_eq_refl, write, store, stat,
}
use caly_anti.Xdp.Conntrack.{is_closed}
use caly_anti.Ingress.{
  TciPkt, tci_tcp, stat_if, ends_handshake, tci_conn_key, CtHit, ct_miss, ct_unconfirmed,
  ct_confirmed, tci_advance, tci_class, tci_seen, tci_known, tci_conn_hit, tci_opened,
  tci_conn_create,
}
use mathlib.Core.Path.{subst}

-- Packets that arrive, with the time and whether the rest of the ladder permits a new flow.
pub record Arrival : Type 0 where
  pub packet : TciPkt
  pub at_ns : ℕ
  pub rule_flags : ℕ
  pub permitted : Bool

abbrev pub is_confirmed : CtHit → Bool
is_confirmed ct_miss = false
is_confirmed ct_unconfirmed = false
is_confirmed ct_confirmed = true

-- A packet that is looked up and, where it is of no known flow and permitted, opens one.
unfoldable pub after_lookup : Insert ConnKey → Arrival → Maps × CtHit → Maps × CtHit
unfolding tci_conn_create
after_lookup ins a (m, ct_miss) =
    ((if a.permitted then tci_conn_create ins a.packet a.rule_flags a.at_ns m else m), ct_miss)
after_lookup ins a (m, ct_unconfirmed) = (m, ct_unconfirmed)
after_lookup ins a (m, ct_confirmed) = (m, ct_confirmed)

unfoldable pub arrive : Insert ConnKey → Arrival → Maps → Maps × CtHit
unfolding after_lookup
arrive ins a m = after_lookup ins a (tci_conn_hit a.packet a.at_ns m)

-- Does any of the arrivals skip the buckets?
unfoldable pub any_confirmed : Insert ConnKey → List Arrival → Maps → Bool
any_confirmed ins [] m = false
any_confirmed ins (a ∷ rest) m =
    let (m', hit) = arrive ins a m in
    let later = any_confirmed ins rest m' in is_confirmed hit || later

-- Nothing but inbound packets is known of the flow.
abbrev IsOneSided : ConnState → Type 0
IsOneSided cs =
    (cs.state ≢ CtState.syn_recv)
    × (test_bit cs.flags ct_f_outbound ≡ false)
    × (test_bit cs.flags ct_f_seen_reply ≡ false)

abbrev IsUnsolicited : ConnKey → Maps → Type 0
IsUnsolicited k m = (m.conn k ≡ none) ⊎ ((cs : ConnState) × (m.conn k ≡ some cs) × IsOneSided cs)

tci_seen-IsOneSided :
    (p : TciPkt) (now : ℕ) (cs : ConnState) → IsOneSided cs → IsOneSided (tci_seen p now cs)
tci_seen-IsOneSided p now cs h = h

tci_advance-IsOneSided :
    (p : TciPkt) (cs : ConnState) → p.proto ≢ 6 → IsOneSided cs → IsOneSided (tci_advance p cs)
unfolding tci_advance
tci_advance-IsOneSided p cs udp h = ground arith

tci_class-unconfirmed : (cs : ConnState) → IsOneSided cs → tci_class cs ≡ ct_unconfirmed
unfolding tci_class
tci_class-unconfirmed cs h = rw (h.1, h.2) refl

flags_of_new :
    (b : Bool)
    → (test_bit (if b then 0 else set_bit 0 ct_f_allowlist) ct_f_outbound ≡ false)
      × (test_bit (if b then 0 else set_bit 0 ct_f_allowlist) ct_f_seen_reply ≡ false)
unfolding test_bit set_bit
flags_of_new true = (refl, refl)
flags_of_new false = (refl, refl)

tci_opened-IsOneSided :
    (p : TciPkt) (rule_flags now : ℕ) → p.proto ≢ 6 → IsOneSided (tci_opened p rule_flags now)
unfolding tci_opened
tci_opened-IsOneSided p rule_flags now udp =
    (ground arith, (flags_of_new (rule_flags == 0)).0, (flags_of_new (rule_flags == 0)).1)

pub stat_conn : (reason : StatReason) (n : ℕ) (m : Maps) → (stat reason n m).conn ≡ m.conn
unfolding stat
stat_conn reason n m = ground arith

stat_if_conn : (b : Bool) (reason : StatReason) (m : Maps) → (stat_if b reason m).conn ≡ m.conn
stat_if_conn true reason m = stat_conn reason 0 m
stat_if_conn false reason m = refl

pub hit_missing :
    (p : TciPkt) (now : ℕ) (m : Maps)
    → m.conn (tci_conn_key p) ≡ none
    → tci_conn_hit p now m ≡ (stat StatReason.ct_miss 0 m, ct_miss)
unfolding tci_conn_hit
hit_missing p now m missing = ground arith

pub hit_known :
    (p : TciPkt) (now : ℕ) (m : Maps) (cs : ConnState)
    → m.conn (tci_conn_key p) ≡ some cs
    → tci_conn_hit p now m ≡ tci_known p now cs m
unfolding tci_conn_hit
hit_known p now m cs found = ground arith

abbrev Quiet : ConnKey → Maps × CtHit → Type 0
Quiet k o = IsUnsolicited k o.0 × (is_confirmed o.1 ≡ false)

-- An entry that is kept.
kept_entry : (k : ConnKey) (cs : ConnState) (m : Maps) → write conn_eq k cs m.conn k ≡ some cs
kept_entry k cs m = rw (conn_eq_refl k) refl

tci_known-Quiet :
    (p : TciPkt) (now : ℕ) (m : Maps) (cs : ConnState)
    → p.proto ≢ 6
    → IsOneSided cs
    → Quiet (tci_conn_key p) (tci_known p now cs m)
unfolding tci_known
tci_known-Quiet p now m cs udp h =
    let seen = tci_seen p now cs in
    let cs' = tci_advance p seen in
    let kept = record m { conn = write conn_eq (tci_conn_key p) cs' m.conn } in
    let one_sided = tci_advance-IsOneSided p seen udp h in
    elim (Bool-cases (is_closed cs.state)) [
      | inl shut ↦ rw (shut, stat_conn) (inr (seen, kept_entry (tci_conn_key p) seen m, h), refl)
      | inr live ↦
          rw (live, stat_conn, tci_class-unconfirmed cs' one_sided)
            (
              inr (
                cs',
                ap (λ table. table (tci_conn_key p))
                      (stat_if_conn (tci_tcp p tcp_rst) StatReason.ct_closed
                          (stat_if (ends_handshake p seen) StatReason.ct_updated kept)
                        ∙ stat_if_conn (ends_handshake p seen) StatReason.ct_updated kept)
                    ∙ kept_entry (tci_conn_key p) cs' m,
                one_sided,
              ),
              refl,
            )
    ]

tci_conn_hit-Quiet :
    (p : TciPkt) (now : ℕ) (m : Maps)
    → p.proto ≢ 6
    → IsUnsolicited (tci_conn_key p) m
    → Quiet (tci_conn_key p) (tci_conn_hit p now m)
tci_conn_hit-Quiet p now m udp (inl missing) =
    rw (hit_missing p now m missing, stat_conn) (inl missing, refl)
tci_conn_hit-Quiet p now m udp (inr (cs, found, one_sided)) =
    rw (hit_known p now m cs found) (tci_known-Quiet p now m cs udp one_sided)

tci_conn_create-IsUnsolicited :
    (ins : Insert ConnKey) (p : TciPkt) (rule_flags now : ℕ) (m : Maps)
    → p.proto ≢ 6
    → IsUnsolicited (tci_conn_key p) m
    → IsUnsolicited (tci_conn_key p) (tci_conn_create ins p rule_flags now m)
unfolding tci_conn_create store
tci_conn_create-IsUnsolicited ins p rule_flags now m udp h = elim (Bool-cases ins.fails) [
  | inl full ↦ rw (full, stat_conn) h
  | inr room ↦
      let opened = tci_opened p rule_flags now in
      rw (room, stat_conn)
        (inr (
          opened,
          rw (conn_eq_refl (tci_conn_key p)) refl,
          tci_opened-IsOneSided p rule_flags now udp,
        ))
]

after_lookup-Quiet :
    (ins : Insert ConnKey) (a : Arrival) (o : Maps × CtHit)
    → a.packet.proto ≢ 6
    → Quiet (tci_conn_key a.packet) o
    → Quiet (tci_conn_key a.packet) (after_lookup ins a o)
unfolding after_lookup
after_lookup-Quiet ins a (m, ct_miss) udp h = elim (Bool-cases a.permitted) [
  | inl permitted ↦
      rw permitted (tci_conn_create-IsUnsolicited ins a.packet a.rule_flags a.at_ns m udp h.0, refl)
  | inr refused ↦ rw refused h
]
after_lookup-Quiet ins a (m, ct_unconfirmed) udp h = h
after_lookup-Quiet ins a (m, ct_confirmed) udp h = h

-- Every arrival is a packet of the flow `k`, and none is TCP.
abbrev pub AllOf : ConnKey → List Arrival → Type 0
AllOf k [] = Unit
AllOf k (a ∷ rest) = (tci_conn_key a.packet ≡ k) × (a.packet.proto ≢ 6) × AllOf k rest

quiet_run :
    (ins : Insert ConnKey) (k : ConnKey) (arrivals : List Arrival) (m : Maps)
    → IsUnsolicited k m
    → AllOf k arrivals
    → any_confirmed ins arrivals m ≡ false
unfolding any_confirmed arrive
quiet_run ins k [] m h all = refl
quiet_run ins k (a ∷ rest) m h all =
    let quiet : Quiet k (arrive ins a m) =
      subst (λ key. IsUnsolicited key m → Quiet key (arrive ins a m)) all.0
        (λ known.
          after_lookup-Quiet ins a (tci_conn_hit a.packet a.at_ns m) all.1
            (tci_conn_hit-Quiet a.packet a.at_ns m all.1 known))
        h in
    rw quiet.1 (quiet_run ins k rest (arrive ins a m).0 quiet.0 all.2)

-- Unsolicited UDP or ICMP never earns the way past the buckets: of a flow that the table does not
-- know, no inbound packet is ever classified as confirmed, however many arrive, and whether or not
-- the ladder permits them and an insertion succeeds.
pub any_confirmed-unsolicited :
    (ins : Insert ConnKey) (k : ConnKey) (arrivals : List Arrival) (m : Maps)
    → m.conn k ≡ none
    → AllOf k arrivals
    → any_confirmed ins arrivals m ≡ false
any_confirmed-unsolicited ins k arrivals m unknown h = quiet_run ins k arrivals m (inl unknown) h
