-- ===== src/DhcpEngine/Request/Checksum.antt =====
-- The IPv4 header checksum of a response.
use high_performance_gaming.Common.{
  ℕ, zero, suc, ◌+◌, ◌-◌, ◌*◌, ◌/◌, ◌%◌, ◌≤◌, ◌≡◌, ◌⊎◌, arith, ◌∙◌, ap, refl,
}
use high_performance_gaming.Net.Bytes.{
  Memory, load16, store16, ntohs, ntohs-lt, ntohs-ntohs, sum_words, load16-store16,
  load16-store16_ne,
}
use high_performance_gaming.DhcpEngine.Pool.{DhcpEngine}
use high_performance_gaming.DhcpEngine.Request.{ip_checksum, seal, response}

sum_words-le : (m : Memory) (at n : ℕ) → sum_words m at n ≤ n * 65535
unfolding sum_words
sum_words-le m at zero = omega arith
sum_words-le m at (suc n) = omega (arith, ntohs-lt (load16 m at), sum_words-le m (at + 2) n)

-- Folding twice takes a sum of ten words to a word that is equal to it modulo 65535.
folded_twice :
    (s : ℕ)
    → s ≤ 655350
    → let folded = s / 65536 + s % 65536 in
      ((65535 - (folded + folded / 65536) % 65536) + s) % 65535 ≡ 0
folded_twice s h = omega arith

ip_checksum-sum : (m : Memory) → (ntohs (ip_checksum m) + sum_words m 14 10) % 65535 ≡ 0
unfolding ip_checksum
ip_checksum-sum m =
    let s = sum_words m 14 10 in
    let small : s % 4294967296 ≡ s = omega (arith, sum_words-le m 14 10) in
    let folded = s / 65536 + s % 65536 in
    let word = 65535 - (folded + folded / 65536) % 65536 in
    rw (small, ntohs-ntohs word (omega arith))
      (folded_twice s (omega (arith, sum_words-le m 14 10)))

-- Two memories that differ, among the words of the header, in the checksum alone.
header_differs :
    (m m' : Memory)
    → ((j : ℕ) → (j + 2 ≤ 24) ⊎ ((26 ≤ j) × (j + 2 ≤ 38)) → load16 m' j ≡ load16 m j)
    → sum_words m' 14 10 + ntohs (load16 m 24) ≡ sum_words m 14 10 + ntohs (load16 m' 24)
unfolding sum_words
header_differs m m' same = omega (
  arith,
  ap ntohs (same 14 (omega arith)),
  ap ntohs (same 16 (omega arith)),
  ap ntohs (same 18 (omega arith)),
  ap ntohs (same 20 (omega arith)),
  ap ntohs (same 22 (omega arith)),
  ap ntohs (same 26 (omega arith)),
  ap ntohs (same 28 (omega arith)),
  ap ntohs (same 30 (omega arith)),
  ap ntohs (same 32 (omega arith)),
)

ntohs_zero : ntohs 0 ≡ 0
unfolding ntohs
ntohs_zero = refl

-- Writing the checksum and, behind the header, the UDP length and checksum.
closing :
    (m : Memory) (len : ℕ)
    → load16 m 24 ≡ 0
    → sum_words (store16 (store16 (store16 m 24 (ip_checksum m)) 38 len) 40 0) 14 10 % 65535 ≡ 0
unfolding ip_checksum
closing m len z =
    let c = ip_checksum m in
    let m1 = store16 m 24 c in
    let m2 = store16 m1 38 len in
    let m3 = store16 m2 40 0 in
    let kept : (j : ℕ) → j + 2 ≤ 38 → load16 m3 j ≡ load16 m1 j = λ j h.
      load16-store16_ne m2 40 0 j (omega arith) ∙ load16-store16_ne m1 38 len j (omega arith) in
    let at24 : load16 m3 24 ≡ c = kept 24 (omega arith) ∙ load16-store16 m 24 c (ntohs-lt _) in
    let differ =
      header_differs m m3
        (λ j h. kept j (omega arith) ∙ load16-store16_ne m 24 c j (omega arith)) in
    let zero_word : ntohs (load16 m 24) ≡ 0 = rw z ntohs_zero in
    omega (arith, differ, zero_word, ap ntohs at24, ip_checksum-sum m)

seal-sum : (m : Memory) (ip_len udp_len : ℕ) → sum_words (seal m ip_len udp_len) 14 10 % 65535 ≡ 0
unfolding seal
seal-sum m ip_len udp_len =
    closing (store16 (store16 m 16 (ntohs ip_len)) 24 0) (ntohs udp_len)
      (load16-store16 _ 24 0 (omega arith))

-- Whatever the request and the addresses are, the ten words of a response's IPv4 header add up to 0
-- modulo 65535: its checksum is right.
pub response-sum :
    (e : DhcpEngine) (data_bytes : Memory) (dhcp type yiaddr : ℕ)
    → sum_words (response e data_bytes dhcp type yiaddr).bytes 14 10 % 65535 ≡ 0
unfolding response
response-sum e data_bytes dhcp type yiaddr = seal-sum _ _ _
