-- ===== src/Network/Subnet.antt =====
-- `ipv4_in_subnet`, `infer_prefix_covering_pool` and the prefix length of an interface's mask.
pub mod Covering
use Prim.Native.Nat.{bit_and}
use high_performance_gaming.Common.{
  ℕ, zero, suc, ◌+◌, ◌-◌, ◌*◌, ◌/◌, ◌%◌, ◌^◌, Bool, true, false, Option, none, some, ltb, ◌==◌,
  if◌then◌else◌,
}
use high_performance_gaming.Net.Bytes.{u32_mod, ntohl}

-- `prefix_len == 0 ? 0u : 0xFFFFFFFFu << (32u - prefix_len)`
abbrev pub prefix_mask : ℕ → ℕ
prefix_mask len = if len == 0 then 0 else 0xffffffff * 2 ^ (32 - len) % u32_mod

-- A prefix length below 0 is `none`.
unfoldable pub ipv4_in_subnet : ℕ → Option ℕ → ℕ → Bool
ipv4_in_subnet ip none anchor = false
ipv4_in_subnet ip (some len) anchor =
    if ltb 32 len
    then false
    else bit_and (ntohl ip) (prefix_mask len) == bit_and (ntohl anchor) (prefix_mask len)

-- The loop with `n` rounds left: the first place from the top where the two differ.
unfoldable pub differ_from : ℕ → ℕ → ℕ → ℕ → ℕ
differ_from zero p ha hb = p
differ_from (suc n) p ha hb =
    let rest = differ_from n (p + 1) ha hb in
    if ha / 2 ^ (31 - p) % 2 == hb / 2 ^ (31 - p) % 2 then rest else p

abbrev pub infer_ordered : ℕ → ℕ → ℕ
infer_ordered ha hb = if ha == hb then 32 else differ_from 32 0 ha hb

unfoldable pub infer_prefix_covering_pool : ℕ → ℕ → ℕ
infer_prefix_covering_pool a b =
    let ha = ntohl a in
    let hb = ntohl b in if ltb hb ha then infer_ordered hb ha else infer_ordered ha hb

-- `while (m & 0x80000000u) { ++prefix; m <<= 1; }`; 33 rounds are enough, as 32 shifts leave 0.
-- The result is the prefix and what is left of the mask.
unfoldable pub leading_ones : ℕ → ℕ → ℕ → Option (ℕ × ℕ)
leading_ones zero prefix m = none
leading_ones (suc n) prefix m =
    let rest = leading_ones n (prefix + 1) (m * 2 % u32_mod) in
    if bit_and m 0x80000000 == 0 then some (prefix, m) else rest

-- The end of `get_iface_ipv4_prefix_len`, for a mask in host order; -1 is `none`.
unfoldable pub mask_prefix_len : ℕ → Option ℕ
mask_prefix_len m = if m == 0 then none else elim (leading_ones 33 0 m) [
  | none ↦ none
  | some (prefix, left) ↦ if left == 0 then some prefix else none
]
