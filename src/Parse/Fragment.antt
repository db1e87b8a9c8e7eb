-- ===== src/Parse/Fragment.antt =====
-- The walk over the extension headers goes on behind the header of a fragment that is not the first,
-- where the bytes are payload.
use caly_anti.Base.{
  ℕ, ◌+◌, ◌*◌, ◌/◌, ◌≤◌, ◌<◌, ◌≡◌, refl, arith, true, false, ◌||◌, ltb, leb, if◌then◌else◌, length,
  none, some, Bool-cases, inl, inr,
}
use caly_anti.Compat.{ip6_ext_bound}
use caly_anti.Compat.Errors.{ParseErr, err}
use caly_anti.Parse.{Cursor, pull, peek, load_u16, load_u8}
use caly_anti.Parse.Ip6.{
  Ip6Info, ext_kind, Walk, ext_advance, note_fragment, fragment_step, ext_step, after_ext,
  exts_round, exts_loop, skip_ip6_exts,
}
use caly_anti.Parse.Verdict.{pull_there}

peek_there :
    (c : Cursor) (len : ℕ) → len ≤ 2048 → c.pos + len ≤ length c.frame → peek c len ≡ some c.pos
unfolding peek
peek_there c len hm h =
    let short : ltb 2048 len ≡ false = ground arith in
    let there : ltb (length c.frame) (c.pos + len) ≡ false = ground arith in rw (short, there)

pull_gone : (c : Cursor) (len : ℕ) → length c.frame < c.pos + len → pull c len ≡ none
unfolding pull
pull_gone c len h =
    let gone : ltb (length c.frame) (c.pos + len) ≡ true = ground arith in
    elim (Bool-cases (ltb 2048 len)) [ inl long ↦ rw long | inr short ↦ rw (short, gone) ]

advance_gone :
    (w : Walk) (nexthdr hlen hi : ℕ)
    → length w.cursor.frame < w.cursor.pos + hlen
    → ext_advance w nexthdr hlen hi ≡ err ParseErr.ip6_ext_trunc
unfolding ext_advance
advance_gone w nexthdr hlen hi h = elim (Bool-cases (ltb hlen 8 || ltb hi hlen)) [
  | inl odd ↦ rw odd
  | inr sized ↦ rw (sized, pull_gone w.cursor hlen h)
]

-- A fragment of IPv6 at the cursor: its header, then payload whose first two bytes, read as
-- destination options, claim more than the frame holds.
pub record IsFragment (c : Cursor) : Type 0 where
  pub inside : c.pos + 10 ≤ length c.frame
  pub options : load_u8 c c.pos ≡ 60
  pub overlong : length c.frame < c.pos + 8 + (load_u8 c (c.pos + 8 + 1) + 1) * 8

-- At a fragment header whose next header is destination options, and which is followed by bytes that
-- read as such options claim more than the frame holds, a walk that may take two headers fails as
-- truncated, whatever the flags and the fragment offset, and notes that offset. Where the offset is
-- not 0 those bytes are payload.
pub skip_ip6_exts_fragment :
    (c : Cursor) (cfg_flags ext_max : ℕ) (info : Ip6Info)
    → IsFragment c
    → info.nexthdr ≡ 44
    → 2 ≤ ext_max
    → ((skip_ip6_exts c cfg_flags ext_max info).1 ≡ err ParseErr.ip6_ext_trunc)
      × ((skip_ip6_exts c cfg_flags ext_max info).0.frag_off ≡ load_u16 c (c.pos + 2) / 8)
unfolding skip_ip6_exts exts_loop exts_round after_ext ext_kind note_fragment fragment_step ext_step
    ext_advance
skip_ip6_exts_fragment c flags ext_max info f e h =
    let limit : ℕ = if ltb ip6_ext_bound ext_max then ip6_ext_bound else ext_max in
    let first : leb limit 0 ≡ false = ground arith in
    let second : leb limit (0 + 1) ≡ false = ground arith in
    let behind : Cursor = record c { pos = c.pos + 8 } in
    let hlen = (load_u8 c (c.pos + 8 + 1) + 1) * 8 in
    let header = peek_there c 8 (omega arith) (omega (arith, f.inside)) in
    let passed = pull_there c 8 (omega arith) (omega (arith, f.inside)) in
    let options = peek_there behind 2 (omega arith) (omega (arith, f.inside)) in
    let gone = pull_gone behind hlen f.overlong in
    elim (Bool-cases (ltb hlen 8 || ltb 2048 hlen)) [
      | inl odd ↦
          rw (first, e)
            (rw header (rw passed (rw (second, f.options) (rw options (rw odd (refl, refl))))))
      | inr sized ↦
          rw (first, e)
            (rw header
              (rw passed (rw (second, f.options) (rw options (rw (sized, gone) (refl, refl))))))
    ]
