-- ===== src/DhcpEngine/Options.antt =====
-- The option loop of `handle_dhcp_request`. Its pointers are offsets into the message's bytes.
pub mod Scan
use high_performance_gaming.Common.{
  ℕ, zero, suc, ◌+◌, ◌-◌, Bool, not, ◌&&◌, ◌||◌, Option, none, some, ltb, ◌==◌, if◌then◌else◌,
}
use high_performance_gaming.Net.Bytes.{Memory, load32}

-- Where the loop stands: `opt`, `msg_type` and `raw_requested_ip`.
pub record Cursor : Type 0 where
  pub opt : ℕ
  pub msg_type : ℕ
  pub raw_requested_ip : ℕ

-- The position behind an option, and what the option sets.
unfoldable pub take_option : Memory → Cursor → Cursor
take_option m c =
    let len = m (c.opt + 1) in
    record {
      opt = c.opt + (2 + len);
      msg_type = if (m c.opt == 53) && (len == 1) then m (c.opt + 2) else c.msg_type;
      raw_requested_ip =
          if (m c.opt == 50) && (len == 4) then load32 m (c.opt + 2) else c.raw_requested_ip;
    }

-- One round: `none` where the loop ends.
unfoldable pub option_round : Memory → ℕ → Cursor → Option Cursor
option_round m end c =
    if not (ltb c.opt end) || (m c.opt == 255)
    then none
    else if m c.opt == 0
    then some (record c { opt = c.opt + 1 })
    else if ltb end (c.opt + 2 + m (c.opt + 1))
    then none
    else some (take_option m c)

-- The loop ends at the cursor, or goes on from the next one.
abbrev pub after_round : Option Cursor → Cursor → (Cursor → Option Cursor) → Option Cursor
after_round none c rest = some c
after_round (some c') c rest = rest c'

-- The loop, on fuel; `none` means that it has run out.
unfoldable pub option_loop : ℕ → Memory → ℕ → Cursor → Option Cursor
option_loop zero m end c = none
option_loop (suc fuel) m end c = after_round (option_round m end c) c (option_loop fuel m end)

-- Each round moves on by a byte or more, so this fuel is enough.
unfoldable pub scan_options : Memory → ℕ → ℕ → Option Cursor
scan_options m start end =
    option_loop (suc (end - start)) m end
      (record { opt = start; msg_type = 0; raw_requested_ip = 0 })
