-- ===== src/Parse.antt =====
-- bpf/parsing.h: the cursor over a frame, and the loads from it. The parsers of the layers are the
-- child modules. A pointer into the packet is its offset from the start of the frame, `data_end` is
-- the frame's length, and a field in network order is the number that it has on the wire.
pub mod Link
pub mod Ip4
pub mod Ip6
pub mod L4
pub mod Tunnel
pub mod Key
pub mod Packet
pub mod Frame
pub mod Bounds
pub mod Chain
pub mod Transport
pub mod Network
pub mod Offsets
pub mod Verdict
pub mod Refusal
pub mod Fragment
use caly_anti.Base.{
  ℕ, ◌+◌, ◌-◌, ◌*◌, Bool, true, false, ltb, if◌then◌else◌, List, get_or, length, Option, none, some,
}
use caly_anti.Compat.Errors.{ParseErr, Result, ok, err}

pub record Cursor : Type 0 where
  pub frame : List ℕ
  pub pos : ℕ

-- A header that is all there: where it starts, and the cursor past it.
pub record Pulled : Type 0 where
  pub at : ℕ
  pub rest : Cursor

unfoldable pub cursor_init : List ℕ → Cursor
cursor_init bytes = record { frame = bytes; pos = 0 }

abbrev pub pull_max : ℕ
pull_max = 2048

unfoldable pub pull : Cursor → ℕ → Option Pulled
pull c len =
    if ltb pull_max len
    then none
    else if ltb (length c.frame) (c.pos + len)
    then none
    else some (record { at = c.pos; rest = record c { pos = c.pos + len } })

unfoldable pub peek : Cursor → ℕ → Option ℕ
peek c len =
    if ltb pull_max len
    then none
    else if ltb (length c.frame) (c.pos + len)
    then none
    else some c.pos

unfoldable pub avail : Cursor → ℕ
avail c = if ltb (length c.frame) c.pos then 0 else length c.frame - c.pos

-- The offset from the start of the frame, which is where `data` points.
unfoldable pub offset : Cursor → ℕ
offset c = c.pos

abbrev pub load_u8 : Cursor → ℕ → ℕ
load_u8 c p = get_or c.frame p 0

abbrev pub load_u16 : Cursor → ℕ → ℕ
load_u16 c p = load_u8 c p * 256 + load_u8 c (p + 1)

abbrev pub load_u32 : Cursor → ℕ → ℕ
load_u32 c p = load_u16 c p * 65536 + load_u16 c (p + 2)

-- `if (!p) return e;`
abbrev pub need {ℓ} : {A : Type ℓ} → ParseErr → Option A → Result A
need e none = err e
need e (some a) = ok a

-- `if (bad) return e;`
abbrev pub refuse_if : ParseErr → Bool → Result (Unit {0})
refuse_if e true = err e
refuse_if e false = ok tt
