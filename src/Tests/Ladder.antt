-- ===== src/Tests/Ladder.antt =====
-- Bans, buckets and the connection table of bpf/xdp_firewall.bpf.c on concrete packets.
use caly_anti.Base.{◌+◌, ◌^◌, ◌≡◌, refl, arith, true, false, some}
use caly_anti.Base.Bits.{test_bit}
use caly_anti.Abi.Bucket.{RateState}
use caly_anti.Abi.Config.{FwConfig}
use caly_anti.Abi.Reason.{StatReason}
use caly_anti.Parse.Packet.{PktCtx}
use caly_anti.Ban.{BanEntry}
use caly_anti.Bucket.{tb_consume}
use caly_anti.Rate.{PacketKind, rate_check}
use caly_anti.Xdp.State.{v4, Maps, ConnState, CtState}
use caly_anti.Xdp.Run.{Fixed, Run, Flow, Act, Ensures, next, verdict, handed_over, drop_for, start}
use caly_anti.Xdp.Bans.{Offence, active_ttl, refresh_active, renew_ban, ban_install}
use caly_anti.Xdp.BanResult.{Installed, ban_install-Installed}
use caly_anti.Xdp.Rates.{
  charge_known, refused_if, refused, packet_kind, add_strike, earns_ban, punish, strike,
  after_charge, rate_limit,
}
use caly_anti.Xdp.RateSame.{Agree, charge_known-rate_check}
use caly_anti.Xdp.Action.{action_stages}
use caly_anti.Xdp.Learning.{IsPlain, action_stages-Plain}
use caly_anti.Xdp.Chain.{fixed}
use caly_anti.Tests.Data.{config, each}
use caly_anti.Tests.World.{env, maps, segment, carry}

-- Bans by itself, and tracks connections.
abbrev armed : FwConfig
armed = record config { flags = 2 ^ 19 + 2 ^ 24 }

abbrev probing : Offence
probing = record {
  source = v4 7;
  now_ns = 5_000;
  reason = StatReason.drop_portscan;
  ttl_override = 2_000;
  strikes = 5;
  pkt_len = 60;
}

-- A ban that is still served, of 3 µs at first.
abbrev served : BanEntry
served = record {
  expiry_ns = 6_000;
  first_seen_ns = 2_000;
  last_hit_ns = 2_000;
  cur_ttl_ns = 3_000;
  hit_pkts = 0;
  hit_bytes = 0;
  reason = StatReason.drop_portscan;
  strikes = 5;
  offences = 1;
  flags = 1;
}

abbrev banning : Maps
banning = record maps { ban = λ s. some served }

renewed : (ban_install (env armed) armed probing banning).1 ≡ 3_000
unfolding ban_install renew_ban active_ttl refresh_active test_bit
renewed = refl

ban_install-Installed_example :
    Installed banning probing (ban_install (env armed) armed probing banning)
ban_install-Installed_example =
    ban_install-Installed (env armed) armed probing banning (rw renewed (omega arith))

-- By the operator.
abbrev manual : BanEntry
manual = record served { flags = 2 }

abbrev login : ConnState
login = record {
  created_ns = 4_000;
  last_seen_ns = 4_900;
  pkts_in = 3;
  bytes_in = 300;
  pkts_out = 2;
  bytes_out = 200;
  state = CtState.established;
  flags = 16;
  ifindex = 3;
}

abbrev by_hand : Maps
by_hand = record maps { ban = λ s. some manual; conn = λ k. some login }

-- A segment to a port that is no management port.
abbrev web : PktCtx
web = record segment { dport = 80 }

abbrev fx : Fixed
fx = fixed (env armed) armed carry

abbrev logged_in : Maps
logged_in = record maps { ban = λ s. some served; conn = λ k. some login }

abbrev rs : RateState
rs = record {
  tb = each (record { tokens = 1; last_refill_ns = 4_000 });
  window_start_ns = 0;
  last_seen_ns = 0;
  strikes = 0;
  last_reason = StatReason.pkt_total;
  offences = 0;
  flags = 1;
}

abbrev kind : PacketKind
kind = record { want_bytes = 2; is_syn = true; is_udp = false; is_icmp = false; is_newconn = true }

charge_known-rate_check_example :
    Agree (charge_known config 5_000 kind 0 rs) (rate_check rs config 5_000 kind)
unfolding test_bit
charge_known-rate_check_example = charge_known-rate_check config 5_000 0 kind rs refl

-- A source with no tokens left, and with more strikes than a ban takes.
abbrev spent : RateState
spent = record rs {
  tb = each (record { tokens = 0; last_refill_ns = 5_000 });
  window_start_ns = 4_900;
  strikes = 9;
}

-- A datagram of that source.
abbrev datagram : Run
datagram = record (start maps segment) {
  pkt = record segment { proto = 17; tcp_flags = 0 };
  maps = record maps { rate = λ s. some spent };
}

abbrev act_of : Flow → Act
act_of (next r) = r.act
act_of (verdict r) = r.act
act_of (handed_over r) = r.act

-- Limits rates and bans by itself.
abbrev limiting : FwConfig
limiting = record config { flags = 2 ^ 19 + 2 ^ 20 }

starved : act_of (rate_limit (fixed (env limiting) limiting carry) datagram) ≡ Act.drop
unfolding rate_limit charge_known refused_if refused after_charge strike punish earns_ban add_strike
    drop_for packet_kind test_bit start tb_consume
starved = refl

action_stages-Plain_example :
    Ensures
      (IsPlain datagram.maps.conn)
      (IsPlain datagram.maps.conn)
      (IsPlain datagram.maps.conn)
      (action_stages (fixed (env armed) armed carry) datagram)
unfolding start
action_stages-Plain_example = action_stages-Plain (fixed (env armed) armed carry) datagram refl
