-- ===== src/Parse/Chain.antt =====
-- The walk over the extension headers of IPv6: where it ends, and what it has counted.
use caly_anti.Base.{
  ℕ, zero, suc, ◌+◌, ◌*◌, ◌%◌, ◌≤◌, ◌≡◌, refl, arith, Bool, true, false, ◌&&◌, ◌||◌, ap, ltb, leb,
  ◌==◌, if◌then◌else◌, length, Option, none, some, Bool-cases, inl, inr,
}
use caly_anti.Base.Bits.{test_bit}
use caly_anti.Abi.Bits.{f_drop_rh0}
use caly_anti.Compat.{ip6_ext_bound}
use caly_anti.Compat.Errors.{ParseErr, Result, ok, err, ◌>>=◌}
use caly_anti.Parse.{Cursor, Pulled, pull, peek, need, refuse_if, load_u8}
use caly_anti.Parse.Ip6.{
  Ip6Info, ExtKind, ext_kind, Walk, ext_advance, note_fragment, fragment_step, ext_step, end_at,
  exts_end, exts_round, after_ext, exts_loop, skip_ip6_exts,
}
use caly_anti.Parse.Bounds.{IfOk, pull-Reserved, Reserved}

-- A walk that began at `c`: the bytes that it counts are those that its cursor has passed.
pub record Walked (c : Cursor) (w : Walk) : Type 0 where
  pub same_frame : w.cursor.frame ≡ c.frame
  pub counted : w.cursor.pos ≡ c.pos + w.walked
  pub inside : w.cursor.pos ≤ length w.cursor.frame

-- The errors of one header of the chain.
abbrev is_step_error : ParseErr → Bool
is_step_error ParseErr.ip6_ext_trunc = true
is_step_error ParseErr.ip6_rh0 = true
is_step_error _ = false

-- One header is walked, or fails with an error of its own.
abbrev Steps : Cursor → Result Walk → Type 0
Steps c (ok w) = Walked c w
Steps c (err e) = is_step_error e ≡ true

refused :
    (c : Cursor) (e : ParseErr) (bad : Bool) (f : Unit {0} → Result Walk)
    → is_step_error e ≡ true
    → Steps c (f tt)
    → Steps c (refuse_if e bad >>= f)
refused c e true f he h = he
refused c e false f he h = h

peeked :
    (c : Cursor) (o : Option ℕ) (f : ℕ → Result Walk)
    → ((p : ℕ) → Steps c (f p))
    → Steps c (need ParseErr.ip6_ext_trunc o >>= f)
peeked c none f h = refl
peeked c (some p) f h = h p

pulled :
    (c d : Cursor) (len : ℕ) (o : Option Pulled) (f : Pulled → Result Walk)
    → IfOk (Reserved d len) (need ParseErr.ip6_ext_trunc o)
    → ((h : Pulled) → Reserved d len h → Steps c (f h))
    → Steps c (need ParseErr.ip6_ext_trunc o >>= f)
pulled c d len none f r h = refl
pulled c d len (some p) f r h = h p r

advance-Steps :
    (c : Cursor) (w : Walk) (nexthdr hlen hi : ℕ)
    → Walked c w
    → Steps c (ext_advance w nexthdr hlen hi)
unfolding ext_advance
advance-Steps c w nexthdr hlen hi h =
    refused c ParseErr.ip6_ext_trunc (ltb hlen 8 || ltb hi hlen) _ refl (
      pulled c w.cursor hlen (pull w.cursor hlen) _
        (pull-Reserved ParseErr.ip6_ext_trunc w.cursor hlen)
        (λ p r. rw r.moves (record {
          same_frame = h.same_frame;
          counted = omega (arith, h.counted);
          inside = r.fits;
        })))

fragment-Steps : (o : Option ℕ) (c : Cursor) (w : Walk) → Walked c w → Steps c (fragment_step w o).1
unfolding fragment_step
fragment-Steps none c w h = refl
fragment-Steps (some p) c w h =
    advance-Steps c (note_fragment w p) (load_u8 w.cursor p) 8 8 (noted p)
  where
    noted : (p : ℕ) → Walked c (note_fragment w p)
    noted p = record { same_frame = h.same_frame; counted = h.counted; inside = h.inside }

step-Steps :
    (kind : ExtKind) (c : Cursor) (w : Walk) (flags : ℕ)
    → Walked c w
    → Steps c (ext_step kind w flags).1
unfolding ext_step
step-Steps ExtKind.sized c w flags h =
    peeked c (peek w.cursor 2) _
      (λ p. advance-Steps c w (load_u8 w.cursor p) ((load_u8 w.cursor (p + 1) + 1) * 8) 2048 h)
step-Steps ExtKind.routing c w flags h = peeked c (peek w.cursor 4) _ (λ p.
    refused c ParseErr.ip6_rh0 (load_u8 w.cursor (p + 2) == 0 && test_bit flags f_drop_rh0) _ refl
      (advance-Steps c w (load_u8 w.cursor p) ((load_u8 w.cursor (p + 1) + 1) * 8) 2048 h))
step-Steps ExtKind.fragment c w flags h = fragment-Steps (peek w.cursor 8) c w h
step-Steps ExtKind.auth c w flags h =
    peeked c (peek w.cursor 12) _
      (λ p. advance-Steps c w (load_u8 w.cursor p) ((load_u8 w.cursor (p + 1) + 2) * 4) 1024 h)
step-Steps ExtKind.esp c w flags h = h
step-Steps ExtKind.no_more c w flags h = h
step-Steps ExtKind.upper c w flags h = h

abbrev pub is_extension : ExtKind → Bool
is_extension ExtKind.esp = false
is_extension ExtKind.no_more = false
is_extension ExtKind.upper = false
is_extension _ = true

-- How the walk ends. On success its cursor is past the bytes that `info` counts, at an upper-layer
-- protocol; it is benign only at ESP and at NONE; and too deep only at one more extension header.
abbrev pub Ended : Cursor → Ip6Info × Result Cursor → Type 0
Ended c (info, ok d) =
    (d.frame ≡ c.frame)
    × (d.pos ≡ c.pos + info.ext_bytes)
    × (d.pos ≤ length d.frame)
    × (ext_kind info.nexthdr ≡ ExtKind.upper)
Ended c (info, err ParseErr.encrypted) = ext_kind info.nexthdr ≡ ExtKind.esp
Ended c (info, err ParseErr.no_next) = ext_kind info.nexthdr ≡ ExtKind.no_more
Ended c (info, err ParseErr.ip6_ext_depth) = is_extension (ext_kind info.nexthdr) ≡ true
Ended c (info, err _) = Unit {0}

end-Ended :
    (k : ExtKind) (c d : Cursor) (info : Ip6Info)
    → ext_kind info.nexthdr ≡ k
    → d.frame ≡ c.frame
    → d.pos ≡ c.pos + info.ext_bytes
    → d.pos ≤ length d.frame
    → Ended c (end_at k info d)
unfolding end_at
end-Ended ExtKind.sized c d info e hf hp hi = ap is_extension e
end-Ended ExtKind.routing c d info e hf hp hi = ap is_extension e
end-Ended ExtKind.fragment c d info e hf hp hi = ap is_extension e
end-Ended ExtKind.auth c d info e hf hp hi = ap is_extension e
end-Ended ExtKind.esp c d info e hf hp hi = e
end-Ended ExtKind.no_more c d info e hf hp hi = e
end-Ended ExtKind.upper c d info e hf hp hi = (hf, hp, hi, e)

-- An error of one header says nothing of the end of the chain.
step_error-Ended :
    (e : ParseErr) (c : Cursor) (info : Ip6Info) → is_step_error e ≡ true → Ended c (info, err e)
step_error-Ended ParseErr.ip6_ext_trunc c info s = tt
step_error-Ended ParseErr.ip6_rh0 c info s = tt
step_error-Ended ParseErr.encrypted c info s = absurd (ground arith)
step_error-Ended ParseErr.no_next c info s = absurd (ground arith)
step_error-Ended ParseErr.ip6_ext_depth c info s = absurd (ground arith)
step_error-Ended _ c info s = tt

after-Ended :
    (r : Walk × Result Walk) (c : Cursor) (rest : Walk → Ip6Info × Result Cursor)
    → Steps c r.1
    → ((w : Walk) → Walked c w → Ended c (rest w))
    → Ended c (after_ext rest r)
unfolding after_ext
after-Ended (noted, ok w) c rest h k = k w h
after-Ended (noted, err e) c rest h k = step_error-Ended e c noted.info h

round-Ended :
    (kind : ExtKind) (c : Cursor) (i flags : ℕ) (rest : Walk → Ip6Info × Result Cursor) (w : Walk)
    → ext_kind w.nh ≡ kind
    → Walked c w
    → ((next : Walk) → Walked c next → Ended c (rest next))
    → Ended c (exts_round kind i flags rest w)
unfolding exts_round
round-Ended ExtKind.sized c i flags rest w e h k =
    after-Ended (ext_step ExtKind.sized w flags) c rest (step-Steps ExtKind.sized c w flags h) k
round-Ended ExtKind.routing c i flags rest w e h k =
    after-Ended (ext_step ExtKind.routing w flags) c rest (step-Steps ExtKind.routing c w flags h) k
round-Ended ExtKind.fragment c i flags rest w e h k =
    after-Ended (ext_step ExtKind.fragment w flags) c rest (step-Steps ExtKind.fragment c w flags h)
      k
round-Ended ExtKind.auth c i flags rest w e h k =
    after-Ended (ext_step ExtKind.auth w flags) c rest (step-Steps ExtKind.auth c w flags h) k
round-Ended ExtKind.esp c i flags rest w e h k = e
round-Ended ExtKind.no_more c i flags rest w e h k = e
round-Ended ExtKind.upper c i flags rest w e h k = (h.same_frame, h.counted, h.inside, e)

loop-Ended :
    (rounds i ext_max flags : ℕ) (c : Cursor) (w : Walk)
    → Walked c w
    → Ended c (exts_loop rounds i ext_max flags w)
unfolding exts_loop exts_end
loop-Ended zero i ext_max flags c w h =
    end-Ended (ext_kind w.nh) c w.cursor (record w.info { nexthdr = w.nh; ext_bytes = w.walked })
      refl h.same_frame h.counted h.inside
loop-Ended (suc rounds) i ext_max flags c w h = elim (Bool-cases (leb ext_max i)) [
  | inl over ↦ rw over (
      end-Ended (ext_kind w.nh) c w.cursor (record w.info { nexthdr = w.nh; ext_bytes = w.walked })
        refl h.same_frame h.counted h.inside)
  | inr under ↦ rw under (
      round-Ended (ext_kind w.nh) c i flags _ w refl h (λ next hn.
        loop-Ended rounds (i + 1) ext_max flags c
          (record next { info = record next.info { ext_count = (i + 1) % 256 } })
          (record { same_frame = hn.same_frame; counted = hn.counted; inside = hn.inside })))
]

-- From a cursor in the frame, under any configuration, on success the walk over the extension
-- headers leaves the cursor in the frame, past exactly the bytes that are counted, at an upper-layer protocol; the walk
-- says "encrypted" only at ESP and "no next header" only at NONE; and it says "too deep" only where
-- one more extension header follows.
pub skip_ip6_exts-Ended :
    (c : Cursor) (cfg_flags ext_max : ℕ) (info : Ip6Info)
    → c.pos ≤ length c.frame
    → Ended c (skip_ip6_exts c cfg_flags ext_max info)
unfolding skip_ip6_exts
skip_ip6_exts-Ended c flags ext_max info h =
    loop-Ended ip6_ext_bound 0 (if ltb ip6_ext_bound ext_max then ip6_ext_bound else ext_max) flags
      c (record { info = info; nh = info.nexthdr; walked = 0; cursor = c })
      (record { same_frame = refl; counted = omega arith; inside = h })
