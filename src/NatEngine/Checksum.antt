-- ===== src/NatEngine/Checksum.antt =====
-- The incremental checksum of src/NatEngine.cpp (RFC 1624), and what it keeps.
use high_performance_gaming.Common.{ℕ, ◌+◌, ◌-◌, ◌/◌, ◌%◌, ◌<◌, ◌≡◌, arith}
use high_performance_gaming.Net.Bytes.{ntohs, ntohs-lt, ntohs-ntohs}

-- The one's complement sum of the three words, folded twice. `check` is a reference in the source:
-- here the new value is returned. `~` of a 16-bit word takes it from 65535.
unfoldable pub update_checksum_16 : ℕ → ℕ → ℕ → ℕ
update_checksum_16 check old_val new_val =
    let sum = (65535 - ntohs check) + (65535 - ntohs old_val) + ntohs new_val in
    let folded = sum % 65536 + sum / 65536 in ntohs (65535 - (folded + folded / 65536) % 65536)

unfoldable pub update_checksum_32 : ℕ → ℕ → ℕ → ℕ
update_checksum_32 check old_val new_val =
    update_checksum_16 (update_checksum_16 check (old_val % 65536) (new_val % 65536))
      (old_val / 65536) (new_val / 65536)

pub update_checksum_16-lt : (c o n : ℕ) → update_checksum_16 c o n < 65536
unfolding update_checksum_16
update_checksum_16-lt c o n = ntohs-lt _

pub update_checksum_32-lt : (c o n : ℕ) → update_checksum_32 c o n < 65536
unfolding update_checksum_32
update_checksum_32-lt c o n = update_checksum_16-lt _ _ _

-- Modulo 65535, the sum of the checksum and the word that it covers is after the update, with
-- the new word, what it was before, with the old one; all words in host order.
pub update_checksum_16-sum :
    (c o n : ℕ) → (ntohs (update_checksum_16 c o n) + ntohs n) % 65535 ≡ (ntohs c + ntohs o) % 65535
unfolding update_checksum_16
update_checksum_16-sum c o n =
    let sum = (65535 - ntohs c) + (65535 - ntohs o) + ntohs n in
    let folded = sum % 65536 + sum / 65536 in
    omega (
      arith,
      ntohs-lt c,
      ntohs-lt o,
      ntohs-lt n,
      ntohs-ntohs (65535 - (folded + folded / 65536) % 65536) (omega arith),
    )

-- The two words of an address, added.
abbrev pub address_sum : ℕ → ℕ
address_sum a = ntohs (a % 65536) + ntohs (a / 65536)

-- The same for an address: modulo 65535, the sum of the checksum and the two words of the new
-- address is what it was with the old checksum and the two words of the old address.
pub update_checksum_32-sum :
    (c o n : ℕ)
    → (ntohs (update_checksum_32 c o n) + address_sum n) % 65535 ≡ (ntohs c + address_sum o) % 65535
unfolding update_checksum_32
update_checksum_32-sum c o n = omega (
  arith,
  update_checksum_16-sum c (o % 65536) (n % 65536),
  update_checksum_16-sum (update_checksum_16 c (o % 65536) (n % 65536)) (o / 65536) (n / 65536),
)
