-- ===== src/Config.antt =====
-- The configuration file (src/Config.cpp). A text is the list of its bytes. `dprintf`'s decimal numbers
-- and `std::from_chars` are a parameter.
pub mod Lines
pub mod RoundTrip
use Prim.Native.Char.{code}
use Prim.Native.String.{String}
use high_performance_gaming.Common.{
  ℕ, zero, suc, ◌%◌, ◌<◌, ◌≡◌, ◌≤◌, Bool, true, false, not, ◌&&◌, ◌||◌, ltb, leb, ◌==◌,
  if◌then◌else◌, Option, none, some, List, [], ◌∷◌, ◌++◌,
}
use high_performance_gaming.Common.Array.{length}

abbrev pub Text : Type 0
Text = List ℕ

abbrev pub codes : String → Text
codes String.[] = []
codes (String.◌∷◌ c s) = code c ∷ codes s

abbrev pub take : ℕ → Text → Text
take zero t = []
take (suc n) [] = []
take (suc n) (c ∷ t) = c ∷ take n t

-- `strcmp(a, b) == 0`
unfoldable pub same_text : Text → Text → Bool
same_text [] [] = true
same_text [] (d ∷ u) = false
same_text (c ∷ t) [] = false
same_text (c ∷ t) (d ∷ u) = (c == d) && same_text t u

-- What stands in a `char` array as a C string: the bytes before the first NUL.
unfoldable pub c_string : Text → Text
c_string [] = []
c_string (c ∷ t) = let rest = c_string t in if c == 0 then [] else c ∷ rest

-- The bytes of a text that a line or a number is made of: neither an end of line nor NUL.
unfoldable pub is_plain : Text → Bool
is_plain [] = true
is_plain (c ∷ t) = not (c == 10) && (not (c == 13) && (not (c == 0) && is_plain t))

-- The documented behaviour of the library: `%u` prints at most ten digits, and `from_chars` reads
-- them back.
pub record Decimal : Type 0 where
  pub print_u32 : ℕ → Text
  pub from_chars : Text → Option ℕ
  pub reads_back : (n : ℕ) → n < 4294967296 → from_chars (print_u32 n) ≡ some n
  pub digits : (n : ℕ) → is_plain (print_u32 n) ≡ true
  pub short : (n : ℕ) → length (print_u32 n) ≤ 10

-- What `config/config.txt` holds. The lease duration is in seconds.
pub record Config : Type 0 where
  pub iface_wan : Text
  pub iface_lan : Text
  pub router_ip : Text
  pub apply_router_ip_to_lan : Bool
  pub lan_prefix_len : ℕ
  pub enable_acceleration : Bool
  pub large_packet_threshold_bytes : ℕ
  pub enable_nat : Bool
  pub dhcp_pool_start : Text
  pub dhcp_pool_end : Text
  pub dhcp_lease_duration : ℕ

abbrev pub key_starts : ℕ → Option (Text × Text) → Option (Text × Text)
key_starts c none = none
key_starts c (some (k, v)) = some (c ∷ k, v)

-- `memchr(line, '=', len)`: what is before and behind it.
unfoldable pub split_eq : Text → Option (Text × Text)
split_eq [] = none
split_eq (c ∷ t) = let rest = key_starts c (split_eq t) in if c == 61 then some ([], t) else rest

unfoldable pub checked_kv : Option (Text × Text) → Option (Text × Text)
checked_kv none = none
checked_kv (some (k, v)) =
    if (length k == 0) || (leb 64 (length k) || leb 256 (length v))
    then none
    else some (c_string k, c_string v)

unfoldable pub parse_kv : Text → Option (Text × Text)
parse_kv line = checked_kv (split_eq line)

-- `!strcmp(val, "true") || !strcmp(val, "1")`
unfoldable pub is_true : Text → Bool
is_true v = same_text v (codes "true") || same_text v (codes "1")

-- A line without its carriage return.
unfoldable pub drop_cr : Text → Text
drop_cr [] = []
drop_cr (c ∷ []) = if c == 13 then [] else c ∷ []
drop_cr (c ∷ d ∷ t) = c ∷ drop_cr (d ∷ t)

unfoldable pub is_comment : Text → Bool
is_comment [] = true
is_comment (c ∷ t) = c == 35

abbrev pub or_zero : Option ℕ → ℕ
or_zero none = 0
or_zero (some v) = v

-- What `open` and `read` of the file give; a failing `read` counts as an empty file.
pub data Opened : Type 0 where
  missing unreadable : Opened
  opened : Text → Opened

abbrev pub bool_text : Bool → Text
bool_text true = codes "true"
bool_text false = codes "false"

-- `dprintf(fd, "key=%s\n", val)`, and what is written after it.
abbrev pub print_entry : Text → Text → Text → Text
print_entry key val rest = key ++ (61 ∷ val) ++ (10 ∷ rest)

abbrev pub write_entries : List (Text × Text) → Text
write_entries [] = []
write_entries ((key, val) ∷ es) = print_entry key val (write_entries es)

module _ (D : Decimal) where
  open D use {print_u32, from_chars}

  unfoldable pub parse_u32 : Text → ℕ
  parse_u32 t = or_zero (from_chars t)

  -- The chain of comparisons with the known keys.
  unfoldable pub set_key : Text → Text → Config → Config
  set_key key val c =
      if same_text key (codes "IFACE_WAN")
      then record c { iface_wan = val }
      else if same_text key (codes "IFACE_LAN")
      then record c { iface_lan = val }
      else if same_text key (codes "ROUTER_IP")
      then record c { router_ip = val }
      else if same_text key (codes "APPLY_ROUTER_IP_TO_LAN")
      then record c { apply_router_ip_to_lan = is_true val }
      else if same_text key (codes "LAN_PREFIX_LEN")
      then record c { lan_prefix_len = parse_u32 val }
      else if same_text key (codes "ENABLE_ACCELERATION")
      then record c { enable_acceleration = is_true val }
      else if same_text key (codes "LARGE_PACKET_THRESHOLD")
      then record c { large_packet_threshold_bytes = parse_u32 val }
      else if same_text key (codes "enable_nat")
      then record c { enable_nat = is_true val }
      else if same_text key (codes "DHCP_POOL_START")
      then record c { dhcp_pool_start = val }
      else if same_text key (codes "DHCP_POOL_END")
      then record c { dhcp_pool_end = val }
      else if same_text key (codes "DHCP_LEASE_SECONDS")
      then record c { dhcp_lease_duration = parse_u32 val }
      else c

  unfoldable pub set_entry : Option (Text × Text) → Config → Config
  set_entry none c = c
  set_entry (some (key, val)) c = set_key key val c

  -- The body of the loop, for one line. An empty line is taken for a comment.
  unfoldable pub load_line : Text → Config → Config
  load_line line c = let l = drop_cr line in if is_comment l then c else set_entry (parse_kv l) c

  -- The loop: `line` is what has been read of the line.
  unfoldable pub load_lines : Text → Text → Config → Config
  load_lines line [] c = load_line line c
  load_lines line (b ∷ t) c =
      let next = load_lines [] t (load_line line c) in
      let more = load_lines (line ++ (b ∷ [])) t c in if b == 10 then next else more

  -- Whether `load_config` returns without an error, and the configuration. 8191 bytes are read.
  unfoldable pub load_config : Opened → Config → Bool × Config
  load_config missing c = (true, c)
  load_config unreadable c = (false, c)
  load_config (opened t) c = (true, load_lines [] (take 8191 t) c)

  -- The calls of `dprintf` in their order; a prefix length is printed as it is below 2 ^ 31.
  abbrev pub saved_entries : Config → List (Text × Text)
  saved_entries c =
      (codes "IFACE_WAN", c_string c.iface_wan)
      ∷ (codes "IFACE_LAN", c_string c.iface_lan)
      ∷ (codes "ROUTER_IP", c_string c.router_ip)
      ∷ (codes "APPLY_ROUTER_IP_TO_LAN", bool_text c.apply_router_ip_to_lan)
      ∷ (codes "LAN_PREFIX_LEN", print_u32 c.lan_prefix_len)
      ∷ (codes "ENABLE_ACCELERATION", bool_text c.enable_acceleration)
      ∷ (codes "LARGE_PACKET_THRESHOLD", print_u32 c.large_packet_threshold_bytes)
      ∷ (codes "enable_nat", bool_text c.enable_nat)
      ∷ (codes "DHCP_POOL_START", c_string c.dhcp_pool_start)
      ∷ (codes "DHCP_POOL_END", c_string c.dhcp_pool_end)
      ∷ (codes "DHCP_LEASE_SECONDS", print_u32 (c.dhcp_lease_duration % 4294967296))
      ∷ []

  -- The text that is written.
  unfoldable pub save_config : Config → Text
  save_config c = codes "# Auto-saved on shutdown" ++ (10 ∷ write_entries (saved_entries c))
