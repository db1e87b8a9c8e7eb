-- ===== src/Xdp/Forged.antt =====
-- A strike by a packet whose source may be forged.
use caly_anti.Base.{◌≡◌, true, ◌||◌, ◌==◌}
use caly_anti.Parse.Packet.{is_icmp}
use caly_anti.Xdp.Run.{Fixed, Run, Act}

module _ (fx : Fixed) (r : Run) (forged : (r.pkt.proto == 17 || is_icmp r.pkt.proto) ≡ true) where
  abbrev pub Unbanned : Run → Type 0
  Unbanned s = s.maps.ban ≡ r.maps.ban

  -- Dropped, with the bans as they were.
  abbrev pub Spared : Run → Type 0
  Spared s = (s.act ≡ Act.drop) × Unbanned s
