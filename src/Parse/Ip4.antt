-- ===== src/Parse/Ip4.antt =====
-- bpf/parsing.h, `caly_parse_ipv4`.
use caly_anti.Base.{ℕ, ◌+◌, ◌-◌, ◌*◌, ◌/◌, ◌%◌, Bool, not, ltb, ◌==◌, if◌then◌else◌}
use caly_anti.Base.Bits.{test_bit}
use caly_anti.Abi.Bits.{f_drop_ip4_options}
use caly_anti.Compat.Errors.{
  Result, ok, ◌>>=◌, ip4_trunc, l3_unknown, ip4_ihl, ip4_totlen, ip4_options,
}
use caly_anti.Parse.{Cursor, pull, avail, load_u8, load_u16, load_u32, need, refuse_if}

pub record Ip4Info : Type 0 where
  pub saddr : ℕ
  pub daddr : ℕ
  pub hdr_bytes : ℕ
  pub payload_len : ℕ
  pub frag_off : ℕ
  pub protocol : ℕ
  pub ttl : ℕ
  pub more_frags : Bool
  pub dont_frag : Bool

-- `if (ihl_bytes > 20u) { ... }`: the cursor past the options.
unfoldable pub pull_options : Cursor → ℕ → ℕ → Result Cursor
pull_options c cfg_flags ihl_bytes = do
  allowed ← refuse_if ip4_options (test_bit cfg_flags f_drop_ip4_options)
  sized ← refuse_if ip4_ihl (ltb 40 (ihl_bytes - 20))
  opts ← need ip4_trunc (pull c (ihl_bytes - 20))
  ok opts.rest

unfoldable pub skip_ip4_options : Cursor → ℕ → ℕ → Result Cursor
unfolding pull_options
skip_ip4_options c cfg_flags ihl_bytes =
    if ltb 20 ihl_bytes then pull_options c cfg_flags ihl_bytes else ok c

-- The fields of the header at `p`.
unfoldable pub ip4_info : Cursor → ℕ → Ip4Info
ip4_info c p =
    let ihl_bytes = load_u8 c p % 16 * 4 in
    let frag_field = load_u16 c (p + 6) in
    record {
      saddr = load_u32 c (p + 12);
      daddr = load_u32 c (p + 16);
      hdr_bytes = ihl_bytes;
      payload_len = load_u16 c (p + 2) - ihl_bytes;
      frag_off = frag_field % 0x2000;
      protocol = load_u8 c (p + 9);
      ttl = load_u8 c (p + 8);
      more_frags = test_bit frag_field 13;
      dont_frag = test_bit frag_field 14;
    }

unfoldable pub parse_ipv4 : Cursor → ℕ → Result (Ip4Info × Cursor)
parse_ipv4 c cfg_flags = do
  ip ← need ip4_trunc (pull c 20)
  version ← refuse_if l3_unknown (not (load_u8 c ip.at / 16 == 4))
  ihl ← refuse_if ip4_ihl (ltb (load_u8 c ip.at % 16 * 4) 20)
  short ← refuse_if ip4_totlen (ltb (load_u16 c (ip.at + 2)) (load_u8 c ip.at % 16 * 4))
  long ← refuse_if ip4_totlen (ltb (avail c) (load_u16 c (ip.at + 2)))
  rest ← skip_ip4_options ip.rest cfg_flags (load_u8 c ip.at % 16 * 4)
  ok (ip4_info c ip.at, rest)
