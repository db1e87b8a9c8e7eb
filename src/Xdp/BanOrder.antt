-- ===== src/Xdp/BanOrder.antt =====
-- Bans and known flows in `caly_xdp_policy`: which comes first.
use caly_anti.Xdp.Run.{Run}
