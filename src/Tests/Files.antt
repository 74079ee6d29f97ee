-- ===== src/Tests/Files.antt =====
-- A configuration file.

use high_performance_gaming.Common.{
  ℕ, ◌+◌, ◌-◌, ◌≡◌, arith, refl, true, false, Option, none, some, [], ◌∷◌,
}
use high_performance_gaming.Config.{
  Text, codes, is_plain, Config, Decimal, opened, load_config, save_config,
}
use high_performance_gaming.Config.RoundTrip.{IsSavable, load_config-save_config}

-- A number is printed as one sign behind those of control.
abbrev print_sign : ℕ → Text
print_sign n = (n + 48) ∷ []

abbrev read_sign : Text → Option ℕ
read_sign [] = none
read_sign (c ∷ t) = some (c - 48)

read_print : (n : ℕ) → read_sign (print_sign n) ≡ some n
read_print n = ground arith

sign_plain : (n : ℕ) → is_plain (print_sign n) ≡ true
unfolding is_plain
sign_plain n = ground arith

abbrev signs : Decimal
signs = record {
  print_u32 = print_sign;
  from_chars = read_sign;
  reads_back = λ n h. read_print n;
  digits = sign_plain;
  short = λ n. omega arith;
}

abbrev stored : Config
stored = record {
  iface_wan = codes "eth0";
  iface_lan = codes "eth1";
  router_ip = codes "192.168.12.1";
  apply_router_ip_to_lan = true;
  lan_prefix_len = 24;
  enable_acceleration = false;
  large_packet_threshold_bytes = 1000;
  enable_nat = true;
  dhcp_pool_start = codes "192.168.12.50";
  dhcp_pool_end = codes "192.168.12.255";
  dhcp_lease_duration = 86400;
}

abbrev fresh : Config
fresh = record {
  iface_wan = [];
  iface_lan = [];
  router_ip = [];
  apply_router_ip_to_lan = false;
  lan_prefix_len = 0;
  enable_acceleration = true;
  large_packet_threshold_bytes = 0;
  enable_nat = false;
  dhcp_pool_start = [];
  dhcp_pool_end = [];
  dhcp_lease_duration = 0;
}

stored-IsSavable : IsSavable signs stored
unfolding is_plain
stored-IsSavable = record {
  wan_ok = record { plain = refl; short = omega arith };
  lan_ok = record { plain = refl; short = omega arith };
  router_ok = record { plain = refl; short = omega arith };
  start_ok = record { plain = refl; short = omega arith };
  end_ok = record { plain = refl; short = omega arith };
  prefix_ok = omega arith;
  threshold_ok = omega arith;
  lease_ok = omega arith;
}

load_config-save_config_example :
    load_config signs (opened (save_config signs stored)) fresh ≡ (true, stored)
load_config-save_config_example = load_config-save_config signs stored fresh stored-IsSavable
