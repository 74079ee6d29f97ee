-- ===== src/Tests/Hops.antt =====
-- A refresh of the snapshot of a router with two neighbours.
use high_performance_gaming.Common.{ℕ, zero, suc, ◌≡◌, true, some}
use high_performance_gaming.Forwarding.{L2Snapshot, ArpEntry}
use high_performance_gaming.Forwarding.Refresh.{Answers, ForwardingState, refresh_l2}
use high_performance_gaming.Forwarding.Refresh.Published.{IsPublished, refresh_l2-IsPublished}

abbrev pub neighbours : ℕ → ArpEntry
neighbours zero = record { ip_nbo = 0x01020304; mac = 0x0a0b0c0d0e0f }
neighbours (suc i) = record { ip_nbo = 0x08080808; mac = 0x010203040506 }

abbrev pub snapshot : L2Snapshot
snapshot = record {
  lan_hw = 0x111111111111;
  wan_hw = 0x222222222222;
  gw_hw = 0x333333333333;
  wan_ip_nbo = 0x01080808;
  wan_prefix_len = some 8;
  arp = neighbours;
  arp_count = 2;
  gw_hw_valid = true;
  wan_cfg_valid = true;
  default_gw_ip_configured = true;
  ready = true;
}

abbrev pub answers : Answers
answers = record {
  lan_ok = true;
  lan_hw = 0x111111111111;
  wan_ok = true;
  wan_hw = 0x222222222222;
  prefix_len = some 24;
  wan_local = some 0x04030201;
  gateway = some (some 0x01020304);
  rows = neighbours;
  n = 2;
}

abbrev pub state : ForwardingState
state = record { shown = snapshot; hidden = snapshot }

refresh_l2-IsPublished_example :
    IsPublished (refresh_l2 state answers).shown × ((refresh_l2 state answers).hidden ≡ snapshot)
refresh_l2-IsPublished_example = refresh_l2-IsPublished state answers
