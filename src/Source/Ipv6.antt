-- ===== src/Source/Ipv6.antt =====
-- `v6_src_bogon`: the accumulated OR is a test that the first fifteen bytes are zero.
use Prim.Native.Nat.{bit_or}
use caly_anti.Base.{
  ℕ, zero, suc, ◌≡◌, refl, arith, Bool, true, ◌&&◌, not, ltb, ◌==◌, if◌then◌else◌, ◌↔◌, List, [],
  ◌∷◌, All, length, ap, ◌∙◌,
}
use mathlib.Core.Path.{ap₂}
use caly_anti.Base.Word.{IsByte}
use caly_anti.Base.Bits.{passes_below, passes_one}
use caly_anti.Abi.Reason.{drop_ip6_src_unspec, drop_ip6_src_loopback}
use caly_anti.Source.{or_bytes, byte_at, v6_src_bogon}

abbrev or_agrees : ℕ → ℕ → Bool
or_agrees x y =
    ltb (bit_or x y) 256 && (if bit_or x y == 0 then x == 0 && y == 0 else not (x == 0 && y == 0))

or_row : ℕ → Bool
unfolding passes_below
or_row x = passes_below (or_agrees x) 256

or_table : passes_below or_row 256 ≡ true
unfolding or_row
or_table = refl

-- An OR of two bytes is a byte, and is 0 only when both are.
or_byte : (x y : ℕ) → IsByte x → IsByte y → or_agrees x y ≡ true
unfolding or_row
or_byte x y hx hy = passes_one (or_agrees x) 256 (passes_one or_row 256 or_table x hx) y hy

abbrev pub zeros : ℕ → List ℕ → List ℕ
zeros zero tail = tail
zeros (suc n) tail = 0 ∷ zeros n tail

or_zero : (x y : ℕ) → IsByte x → IsByte y → bit_or x y ≡ 0 → (x ≡ 0) × (y ≡ 0)
or_zero x y hx hy e = ground (arith, or_byte x y hx hy)

or_IsByte : (x y : ℕ) → IsByte x → IsByte y → IsByte (bit_or x y)
or_IsByte x y hx hy = ground (arith, or_byte x y hx hy)

-- A zero OR over all bytes but the last leaves only the last.
or_bytes_zero :
    (n acc : ℕ) (a : List ℕ)
    → IsByte acc
    → All IsByte a
    → length a ≡ suc n
    → or_bytes n acc a ≡ 0
    → (acc ≡ 0) × (a ≡ zeros n (byte_at a n ∷ []))
unfolding or_bytes
or_bytes_zero zero acc [] ha h hl e = absurd (omega arith)
or_bytes_zero zero acc (x ∷ []) ha h hl e = (e, refl)
or_bytes_zero zero acc (x ∷ y ∷ a) ha h hl e = absurd (omega arith)
or_bytes_zero (suc n) acc [] ha h hl e = absurd (omega arith)
or_bytes_zero (suc n) acc (x ∷ a) ha (hx, h) hl e =
    let rest = or_bytes_zero n (bit_or acc x) a (or_IsByte acc x ha hx) h (omega arith) e in
    let both = or_zero acc x ha hx rest.0 in (both.0, ap₂ ◌∷◌ both.1 rest.1)

unspec_tests :
    (a : List ℕ) (drop_private : Bool)
    → (v6_src_bogon a drop_private ≡ drop_ip6_src_unspec
        → (or_bytes 15 0 a ≡ 0) × (byte_at a 15 ≡ 0))
      × (v6_src_bogon a drop_private ≡ drop_ip6_src_loopback
          → (or_bytes 15 0 a ≡ 0) × (byte_at a 15 ≡ 1))
unfolding v6_src_bogon
unspec_tests a drop_private = (λ e. ground arith, λ e. ground arith)

-- Of the addresses of sixteen bytes `::` alone is charged as unspecified, and `::1` alone as
-- loopback, on interfaces of either kind.
pub v6_src_bogon_special :
    (a : List ℕ) (drop_private : Bool)
    → All IsByte a
    → length a ≡ 16
    → ((v6_src_bogon a drop_private ≡ drop_ip6_src_unspec) ↔ (a ≡ zeros 15 (0 ∷ [])))
      × ((v6_src_bogon a drop_private ≡ drop_ip6_src_loopback) ↔ (a ≡ zeros 15 (1 ∷ [])))
unfolding v6_src_bogon or_bytes
v6_src_bogon_special a drop_private h hl =
    let only : or_bytes 15 0 a ≡ 0 → a ≡ zeros 15 (byte_at a 15 ∷ []) =
      λ e. (or_bytes_zero 15 0 a (omega arith) h hl e).1 in
    let tests = unspec_tests a drop_private in
    (
      (λ e. only (tests.0 e).0 ∙ ap (λ (v : ℕ). zeros 15 (v ∷ [])) (tests.0 e).1, λ e. rw e refl),
      (λ e. only (tests.1 e).0 ∙ ap (λ (v : ℕ). zeros 15 (v ∷ [])) (tests.1 e).1, λ e. rw e refl),
    )
