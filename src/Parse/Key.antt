-- ===== src/Parse/Key.antt =====
-- bpf/parsing.h: the keys of the connection table.
use caly_anti.Base.{ℕ, List, [], ◌∷◌, get_or, ◌≡◌, refl}

pub record ConnKey : Type 0 where
  pub saddr : List ℕ
  pub daddr : List ℕ
  pub sport : ℕ
  pub dport : ℕ
  pub proto : ℕ
  pub family : ℕ
  pub pad : List ℕ

abbrev pub af_inet : ℕ
af_inet = 4

abbrev pub af_inet6 : ℕ
af_inet6 = 6

-- The loops over the four words of an address.
abbrev pub copy_words : List ℕ → List ℕ
copy_words a = get_or a 0 0 ∷ get_or a 1 0 ∷ get_or a 2 0 ∷ get_or a 3 0 ∷ []

abbrev pub zero_words : List ℕ
zero_words = 0 ∷ 0 ∷ 0 ∷ 0 ∷ []

abbrev pub key_zero : ConnKey
key_zero = record {
  saddr = zero_words;
  daddr = zero_words;
  sport = 0;
  dport = 0;
  proto = 0;
  family = 0;
  pad = 0 ∷ 0 ∷ [];
}

unfoldable pub conn_key_v4 : ℕ → ℕ → ℕ → ℕ → ℕ → ConnKey
conn_key_v4 saddr_net daddr_net sport_net dport_net proto = record key_zero {
  saddr = saddr_net ∷ 0 ∷ 0 ∷ 0 ∷ [];
  daddr = daddr_net ∷ 0 ∷ 0 ∷ 0 ∷ [];
  sport = sport_net;
  dport = dport_net;
  proto = proto;
  family = af_inet;
}

unfoldable pub conn_key_v6 : List ℕ → List ℕ → ℕ → ℕ → ℕ → ConnKey
conn_key_v6 saddr daddr sport_net dport_net proto = record key_zero {
  saddr = copy_words saddr;
  daddr = copy_words daddr;
  sport = sport_net;
  dport = dport_net;
  proto = proto;
  family = af_inet6;
}

unfoldable pub conn_key_swap : ConnKey → ConnKey
conn_key_swap src = record key_zero {
  saddr = copy_words src.daddr;
  daddr = copy_words src.saddr;
  sport = src.dport;
  dport = src.sport;
  proto = src.proto;
  family = src.family;
}

-- The egress key of a flow is the ingress key with its ends exchanged, of either family, and two
-- exchanges give the key back: the two hooks agree on the entry of the table.
pub conn_key_swap_flow :
    (saddr daddr : List ℕ) (s d sport dport proto : ℕ)
    → (conn_key_swap (conn_key_v4 s d sport dport proto) ≡ conn_key_v4 d s dport sport proto)
      × (conn_key_swap (conn_key_v6 saddr daddr sport dport proto)
          ≡ conn_key_v6 daddr saddr dport sport proto)
      × (conn_key_swap (conn_key_swap (conn_key_v4 s d sport dport proto))
          ≡ conn_key_v4 s d sport dport proto)
      × (conn_key_swap (conn_key_swap (conn_key_v6 saddr daddr sport dport proto))
          ≡ conn_key_v6 saddr daddr sport dport proto)
unfolding conn_key_swap conn_key_v4 conn_key_v6
conn_key_swap_flow saddr daddr s d sport dport proto = (refl, refl, refl, refl)
