-- ===== src/Config/RoundTrip.antt =====
-- What is saved is loaded again.

use high_performance_gaming.Common.{
  ◌+◌, ◌*◌, ◌%◌, ◌<◌, ◌≡◌, ◌≤◌, true, false, ltb, arith, List, [], ◌∷◌, ◌++◌, refl, ap, ◌∙◌,
}
use high_performance_gaming.Common.Array.{length, length-append}
use high_performance_gaming.Config.{
  Text, codes, same_text, c_string, is_plain, Decimal, Config, drop_cr, is_comment, set_key,
  load_line, load_lines, opened, load_config, print_entry, saved_entries, write_entries,
  save_config,
}
use high_performance_gaming.Config.Lines.{
  c_string-plain, take-all, c_string-IsValue, load_lines-line, load_entry, bool-IsValue,
  number-IsValue, is_true-bool_text, parse-print, no_eq, IsKey, IsValue,
}

module _ (D : Decimal) where
  -- The texts fit lines, and the numbers 32 bits; a prefix length fits 31.
  pub record IsSavable (c : Config) : Type 0 where
    pub wan_ok : IsValue c.iface_wan
    pub lan_ok : IsValue c.iface_lan
    pub router_ok : IsValue c.router_ip
    pub start_ok : IsValue c.dhcp_pool_start
    pub end_ok : IsValue c.dhcp_pool_end
    pub prefix_ok : c.lan_prefix_len < 2147483648
    pub threshold_ok : c.large_packet_threshold_bytes < 4294967296
    pub lease_ok : c.dhcp_lease_duration < 4294967296

  -- Each entry has a key and a value that its line has room for.
  data AreEntries : List (Text × Text) → Type 0 where
    no_more : AreEntries []
    also :
        {key val : Text} {es : List (Text × Text)}
        → IsKey key
        → IsValue val
        → AreEntries es
        → AreEntries ((key, val) ∷ es)

  abbrev set_entries : List (Text × Text) → Config → Config
  set_entries [] c = c
  set_entries ((key, val) ∷ es) c = set_entries es (set_key D key val c)

  load_entries :
      (es : List (Text × Text)) (c : Config)
      → AreEntries es
      → load_lines D [] (write_entries es) c ≡ set_entries es c
  unfolding load_lines load_line drop_cr is_comment
  load_entries [] c a = refl
  load_entries ((key, val) ∷ es) c (also k v a) =
      load_entry D key val (write_entries es) c k v ∙ load_entries es (set_key D key val c) a

  is_key :
      (key : Text)
      → is_plain key ≡ true
      → no_eq key ≡ true
      → ltb (length key) 64 ≡ true
      → is_comment key ≡ false
      → IsKey key
  is_key key p o s n = record {
    plain_key = p;
    one_name = o;
    short_key = ground (arith, s);
    no_comment = n;
  }

  saved_entries-AreEntries : (c : Config) → IsSavable c → AreEntries (saved_entries D c)
  unfolding is_plain is_comment
  saved_entries-AreEntries c s = also (is_key _ refl refl refl refl) (c_string-IsValue s.wan_ok) (
      also (is_key _ refl refl refl refl) (c_string-IsValue s.lan_ok) (
        also (is_key _ refl refl refl refl) (c_string-IsValue s.router_ok) (
          also (is_key _ refl refl refl refl) (bool-IsValue D c.apply_router_ip_to_lan) (
            also (is_key _ refl refl refl refl) (number-IsValue D _) (
              also (is_key _ refl refl refl refl) (bool-IsValue D c.enable_acceleration) (
                also (is_key _ refl refl refl refl) (number-IsValue D _) (
                  also (is_key _ refl refl refl refl) (bool-IsValue D c.enable_nat) (
                    also (is_key _ refl refl refl refl) (c_string-IsValue s.start_ok) (
                      also (is_key _ refl refl refl refl) (c_string-IsValue s.end_ok)
                        (also (is_key _ refl refl refl refl) (number-IsValue D _) no_more))))))))))

  -- Printing as C strings changes none of the texts.
  texts_kept :
      (c : Config)
      → IsSavable c
      → record c {
        iface_wan = c_string c.iface_wan;
        iface_lan = c_string c.iface_lan;
        router_ip = c_string c.router_ip;
        dhcp_pool_start = c_string c.dhcp_pool_start;
        dhcp_pool_end = c_string c.dhcp_pool_end;
      }
        ≡ c
  texts_kept c s =
      rw
        (
          c_string-plain c.iface_wan s.wan_ok.plain,
          c_string-plain c.iface_lan s.lan_ok.plain,
          c_string-plain c.router_ip s.router_ok.plain,
          c_string-plain c.dhcp_pool_start s.start_ok.plain,
          c_string-plain c.dhcp_pool_end s.end_ok.plain,
        )
        refl

  set-saved : (c c0 : Config) → IsSavable c → set_entries (saved_entries D c) c0 ≡ c
  unfolding set_key same_text
  set-saved c c0 s =
      let lease : c.dhcp_lease_duration % 4294967296 ≡ c.dhcp_lease_duration =
        omega (arith, s.lease_ok) in
      rw
        (
          is_true-bool_text D c.apply_router_ip_to_lan,
          is_true-bool_text D c.enable_acceleration,
          is_true-bool_text D c.enable_nat,
          lease,
          parse-print D c.lan_prefix_len (omega (arith, s.prefix_ok)),
          parse-print D c.large_packet_threshold_bytes s.threshold_ok,
          parse-print D c.dhcp_lease_duration s.lease_ok,
        )
        (texts_kept c s)

  print_entry-length :
      (key val rest : Text)
      → IsKey key
      → IsValue val
      → length (print_entry key val rest) ≤ 320 + length rest
  print_entry-length key val rest k v =
      let line = length-append key (61 ∷ val) in
      let whole = length-append (key ++ (61 ∷ val)) (10 ∷ rest) in
      omega (arith, line, whole, k.short_key, v.short)

  entries-length :
      (es : List (Text × Text)) → AreEntries es → length (write_entries es) ≤ 320 * length es
  entries-length [] a = omega arith
  entries-length ((key, val) ∷ es) (also k v a) =
      omega (arith, print_entry-length key val (write_entries es) k v, entries-length es a)

  save_config-length : (c : Config) → IsSavable c → length (save_config D c) ≤ 8191
  unfolding save_config
  save_config-length c s =
      omega (arith, entries-length (saved_entries D c) (saved_entries-AreEntries c s))

  load-saved : (c c0 : Config) → IsSavable c → load_lines D [] (save_config D c) c0 ≡ c
  unfolding save_config load_line drop_cr is_comment is_plain
  load-saved c c0 s =
      load_lines-line D [] (codes "# Auto-saved on shutdown") (write_entries (saved_entries D c)) c0
        refl
      ∙ load_entries (saved_entries D c) c0 (saved_entries-AreEntries c s)
      ∙ set-saved c c0 s

  -- A file that `save_config` has written is loaded without an error and gives the configuration that
  -- was saved, whatever the configuration was before. Its five texts hold neither an end of line nor
  -- NUL and have at most 255 bytes, its threshold and its lease fit 32 bits and its prefix length 31.
  pub load_config-save_config :
      (c c0 : Config) → IsSavable c → load_config D (opened (save_config D c)) c0 ≡ (true, c)
  unfolding load_config
  load_config-save_config c c0 s =
      ap (λ t. (true, load_lines D [] t c0))
        (take-all 8191 (save_config D c) (save_config-length c s))
      ∙ ap (λ d. (true, d)) (load-saved c c0 s)
