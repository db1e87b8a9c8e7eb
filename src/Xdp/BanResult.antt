-- ===== src/Xdp/BanResult.antt =====
-- What `caly_ban_install` promises its caller.
use caly_anti.Base.{
  ℕ, ◌+◌, ◌<◌, ◌≡◌, ◌⊎◌, ◌^◌, ◌==◌, arith, refl, true, Option, none, some, ◌&&◌, not, ltb,
  if◌then◌else◌, Bool-cases, inl, inr,
}
use caly_anti.Base.Word.{add_u64, add_u32}
use caly_anti.Base.Bits.{test_bit, set_bit}
use caly_anti.Abi.Config.{FwConfig}
use caly_anti.Abi.Bits.{f_autoban, ban_auto, ban_escalated, ban_permanent}
use caly_anti.Abi.Reason.{StatReason}
use caly_anti.Ban.{BanEntry, cap_ttl}
use caly_anti.Xdp.State.{Maps, Env, source_eq, source_eq_refl, store, stat}
use caly_anti.Xdp.Reputation.{is_active}
use caly_anti.Xdp.Bans.{
  Offence, active_ttl, refresh_active, repeat_ttl, escalate_ban, fresh_ban, first_ban, renew_ban,
  ban_install,
}

-- The source has a record in the map that is active now, and whose deadline is `ttl` from now, when
-- it ends unless it is permanent.
abbrev pub IsBanned : Maps → Offence → ℕ → Type 0
IsBanned m o ttl =
    (be : BanEntry) × (m.ban o.source ≡ some be)
    × (is_active be o.now_ns ≡ true)
    × (be.expiry_ns ≡ o.now_ns + ttl)
    × (is_active be (o.now_ns + ttl) ≡ test_bit be.flags ban_permanent)
    × (be.last_hit_ns ≡ o.now_ns)

-- Either nothing was installed and the bans are as they were, or the source is banned for the time
-- that the caller gets.
abbrev pub Installed : Maps → Offence → Maps × ℕ → Type 0
Installed m o (m', ttl) = ((ttl ≡ 0) × (m'.ban ≡ m.ban)) ⊎ ((0 < ttl) × IsBanned m' o ttl)

stat_ban : (reason : StatReason) (len : ℕ) (m : Maps) → (stat reason len m).ban ≡ m.ban
unfolding stat
stat_ban reason len m = ground arith

active_until :
    (o : Offence) (be : BanEntry) (ttl : ℕ)
    → 0 < ttl
    → o.now_ns + ttl < 2 ^ 64
    → be.expiry_ns ≡ add_u64 o.now_ns ttl
    → (be.expiry_ns ≡ o.now_ns + ttl)
      × (is_active be o.now_ns ≡ true)
      × (is_active be (o.now_ns + ttl) ≡ test_bit be.flags ban_permanent)
unfolding is_active
active_until o be ttl pos fits e = ground arith

refresh_active-Installed :
    (be : BanEntry) (ttl : ℕ) (o : Offence) (m : Maps)
    → o.now_ns + ttl < 2 ^ 64
    → Installed m o (refresh_active be ttl o m)
unfolding refresh_active
refresh_active-Installed be ttl o m fits = elim (Bool-cases (ttl == 0)) [
  | inl none_set ↦ rw none_set (inl (refl, refl))
  | inr set ↦
      let be' : BanEntry = record be { expiry_ns = add_u64 o.now_ns ttl; last_hit_ns = o.now_ns } in
      let until = active_until o be' ttl (ground arith) fits refl in
      rw (set, stat_ban)
        (inr
          (ground arith, (be', rw (source_eq_refl o.source) refl, until.1, until.0, until.2, refl)))
]

escalate_ban-Installed :
    (be : BanEntry) (ttl : ℕ) (o : Offence) (m : Maps)
    → o.now_ns + ttl < 2 ^ 64
    → Installed m o (escalate_ban be ttl o m)
unfolding escalate_ban
escalate_ban-Installed be ttl o m fits = elim (Bool-cases (ttl == 0)) [
  | inl none_set ↦ rw none_set (inl (refl, refl))
  | inr set ↦
      let be' : BanEntry = record be {
        expiry_ns = add_u64 o.now_ns ttl;
        last_hit_ns = o.now_ns;
        cur_ttl_ns = ttl;
        reason = o.reason;
        strikes = o.strikes;
        offences = add_u32 be.offences 1;
        flags = set_bit (set_bit be.flags ban_auto) ban_escalated;
      } in
      let until = active_until o be' ttl (ground arith) fits refl in
      rw (set, stat_ban)
        (inr
          (ground arith, (be', rw (source_eq_refl o.source) refl, until.1, until.0, until.2, refl)))
]

cap_ttl_pos : (cfg : FwConfig) (ttl : ℕ) → 0 < ttl → 0 < cap_ttl cfg ttl
cap_ttl_pos cfg ttl h = ground arith

-- The lifetime of a first ban.
abbrev first_ttl : FwConfig → Offence → ℕ
first_ttl cfg o = cap_ttl cfg (if o.ttl_override == 0 then cfg.ban_ttl_base_ns else o.ttl_override)

stored-Banned :
    (env : Env) (o : Offence) (m : Maps) (ttl : ℕ)
    → 0 < ttl
    → o.now_ns + ttl < 2 ^ 64
    → IsBanned
        (stat StatReason.ban_added o.pkt_len
          (record m { ban = store source_eq env.ban_insert o.source (fresh_ban o ttl) m.ban }))
        o
        ttl
unfolding store fresh_ban
stored-Banned env o m ttl pos fits =
    let until = active_until o (fresh_ban o ttl) ttl pos fits refl in
    rw stat_ban
      (fresh_ban o ttl, rw (source_eq_refl o.source) refl, until.1, until.0, until.2, refl)

first_ban-Installed :
    (env : Env) (cfg : FwConfig) (o : Offence) (m : Maps)
    → o.now_ns + (first_ban env cfg o m).1 < 2 ^ 64
    → Installed m o (first_ban env cfg o m)
unfolding first_ban store
first_ban-Installed env cfg o m fits =
    let asked = if o.ttl_override == 0 then cfg.ban_ttl_base_ns else o.ttl_override in
    elim (Bool-cases (asked == 0)) [
      | inl none_set ↦ rw none_set (inl (refl, refl))
      | inr set ↦ elim (Bool-cases env.ban_insert.fails) [
        | inl full ↦ rw (set, full, stat_ban) (inl (refl, refl))
        | inr room ↦
            let pos = cap_ttl_pos cfg asked (ground arith) in
            let fits' : o.now_ns + first_ttl cfg o < 2 ^ 64 = rw (set, room) at fits in
            rw (set, room) (inr (pos, stored-Banned env o m (first_ttl cfg o) pos fits'))
      ]
    ]

renew_ban-Installed :
    (env : Env) (cfg : FwConfig) (o : Offence) (m : Maps) (found : Option BanEntry)
    → o.now_ns + (renew_ban env cfg o m found).1 < 2 ^ 64
    → Installed m o (renew_ban env cfg o m found)
unfolding renew_ban
renew_ban-Installed env cfg o m none fits = first_ban-Installed env cfg o m fits
renew_ban-Installed env cfg o m (some be) fits =
    elim (Bool-cases (ltb o.now_ns be.expiry_ns && not (test_bit be.flags ban_permanent))) [
      | inl serving ↦
          rw serving
            (refresh_active-Installed be (active_ttl be cfg o.ttl_override) o m (ground arith))
      | inr expired ↦
          rw expired
            (escalate_ban-Installed be (repeat_ttl be cfg o.ttl_override) o m (ground arith))
    ]

-- Installing a ban either gives 0 and leaves the ban map as it was, or it gives a positive time to
-- live, and the source then has a record in the map that is active now, whose field expiry_ns is
-- exactly that time from now, that is no longer active at that time unless it is marked permanent, and
-- that was hit now. This holds of first bans, of active ones and of expired or permanent records, as
-- long as the deadline fits a word of 64 bits.
pub ban_install-Installed :
    (env : Env) (cfg : FwConfig) (o : Offence) (m : Maps)
    → o.now_ns + (ban_install env cfg o m).1 < 2 ^ 64
    → Installed m o (ban_install env cfg o m)
unfolding ban_install
ban_install-Installed env cfg o m fits = elim (Bool-cases (test_bit cfg.flags f_autoban)) [
  | inl on ↦ rw on (renew_ban-Installed env cfg o m (m.ban o.source) (rw on at fits))
  | inr off ↦ rw off (inl (refl, refl))
]
