-- ===== src/NatEngine/Engine/HeaderSum.antt =====
-- The IPv4 header checksum over a rewrite: the ten words of the header keep their sum modulo 65535,
-- so a header whose checksum is right stays so.
use high_performance_gaming.Common.{
  ℕ, ◌+◌, ◌*◌, ◌/◌, ◌%◌, ◌≤◌, ◌<◌, ◌≡◌, inl, inr, arith, ◌==◌, Bool-cases, ◌∙◌, ap, sym,
}
use high_performance_gaming.Net.Bytes.{
  Memory, Apart, IsBytes, load16, load32, ntohs, load16-lt, sum_words, store16-IsBytes,
  store32-IsBytes,
}
use high_performance_gaming.NatEngine.Checksum.{
  update_checksum_32, update_checksum_32-sum, address_sum,
}
use high_performance_gaming.NatEngine.Engine.{adjust_transport, rewrite_transport, rewrite_icmp}
use high_performance_gaming.NatEngine.Engine.RewriteEcho.{
  rewrite_icmp-load16_ne, rewrite_icmp-address, rewrite_icmp-ip_check, rewrite_icmp-IsBytes,
}
use high_performance_gaming.NatEngine.Engine.Rewrite.{
  IsAddress, rewrite-load16_ne, rewrite-address, rewrite-ip_check,
}

pub address_sum-load32 :
    (m : Memory) (i : ℕ)
    → IsBytes m
    → address_sum (load32 m i) ≡ ntohs (load16 m i) + ntohs (load16 m (i + 2))
unfolding load32
address_sum-load32 m i b =
    let l = load16-lt m i b in
    let e1 : (load16 m i + 65536 * load16 m (i + 2)) % 65536 ≡ load16 m i = omega arith in
    let e2 : (load16 m i + 65536 * load16 m (i + 2)) / 65536 ≡ load16 m (i + 2) = omega arith in
    rw (e1, e2)

adjust-IsBytes :
    (m : Memory) (c a p addr port : ℕ) → IsBytes m → IsBytes (adjust_transport m c a p addr port)
unfolding adjust_transport
adjust-IsBytes m c a p addr port b = elim (Bool-cases (load16 m c == 0)) [
  | inl e ↦ rw e b
  | inr e ↦ rw e (store16-IsBytes _ c _ (store16-IsBytes m c _ b))
]

pub rewrite-IsBytes :
    (m : Memory) (at c a p addr port : ℕ)
    → IsBytes m
    → IsBytes (rewrite_transport m at c a p addr port)
unfolding rewrite_transport
rewrite-IsBytes m at c a p addr port b =
    store16-IsBytes _ p port
      (store32-IsBytes _ a addr (adjust-IsBytes _ c a p addr port (store16-IsBytes m at _ b)))

-- `Σ` of the header's words, at the place where `parse` finds it.
abbrev pub header_sum : Memory → ℕ
header_sum m = sum_words m 14 10

-- The loop over the ten words, written out over a word at each offset.
abbrev ten_words : (ℕ → ℕ) → ℕ
ten_words w = w 14 + w 16 + w 18 + w 20 + w 22 + w 24 + w 26 + w 28 + w 30 + w 32

header_sum_words : (m : Memory) → header_sum m ≡ ten_words (λ j. ntohs (load16 m j))
unfolding sum_words
header_sum_words m = omega arith

-- Two headers that differ in the checksum and in one address alone.
sums_agree :
    (w w' : ℕ → ℕ) (a : ℕ)
    → IsAddress a
    → ((j : ℕ) → Apart 24 2 j 2 → Apart a 4 j 2 → j ≤ 32 → w' j ≡ w j)
    → (w' 24 + (w' a + w' (a + 2))) % 65535 ≡ (w 24 + (w a + w (a + 2))) % 65535
    → ten_words w' % 65535 ≡ ten_words w % 65535
sums_agree w w' a (inl e) same k =
    let k' : (w' 24 + (w' 26 + w' 28)) % 65535 ≡ (w 24 + (w 26 + w 28)) % 65535 = rw e at k in
    let s =
      λ (j : ℕ) (h : Apart 24 2 j 2) (h' : Apart 26 4 j 2) (l : j ≤ 32). same j h (rw e h') l in
    omega (
      arith,
      k',
      s 14 (omega arith) (omega arith) (omega arith),
      s 16 (omega arith) (omega arith) (omega arith),
      s 18 (omega arith) (omega arith) (omega arith),
      s 20 (omega arith) (omega arith) (omega arith),
      s 22 (omega arith) (omega arith) (omega arith),
      s 30 (omega arith) (omega arith) (omega arith),
      s 32 (omega arith) (omega arith) (omega arith),
    )
sums_agree w w' a (inr e) same k =
    let k' : (w' 24 + (w' 30 + w' 32)) % 65535 ≡ (w 24 + (w 30 + w 32)) % 65535 = rw e at k in
    let s =
      λ (j : ℕ) (h : Apart 24 2 j 2) (h' : Apart 30 4 j 2) (l : j ≤ 32). same j h (rw e h') l in
    omega (
      arith,
      k',
      s 14 (omega arith) (omega arith) (omega arith),
      s 16 (omega arith) (omega arith) (omega arith),
      s 18 (omega arith) (omega arith) (omega arith),
      s 20 (omega arith) (omega arith) (omega arith),
      s 22 (omega arith) (omega arith) (omega arith),
      s 26 (omega arith) (omega arith) (omega arith),
      s 28 (omega arith) (omega arith) (omega arith),
    )

-- A header whose one address and checksum have been rewritten together.
header_sum-of :
    (m m' : Memory) (a addr : ℕ)
    → IsBytes m
    → IsBytes m'
    → IsAddress a
    → ((j : ℕ) → Apart 24 2 j 2 → Apart a 4 j 2 → j ≤ 32 → load16 m' j ≡ load16 m j)
    → load16 m' 24 ≡ update_checksum_32 (load16 m 24) (load32 m a) addr
    → load32 m' a ≡ addr
    → header_sum m' % 65535 ≡ header_sum m % 65535
header_sum-of m m' a addr b b' ha same check address = omega (
  arith,
  header_sum_words m,
  header_sum_words m',
  sums_agree (λ j. ntohs (load16 m j)) (λ j. ntohs (load16 m' j)) a ha
      (λ j h1 h2 h3. ap ntohs (same j h1 h2 h3)) covered,
)
  where
    check' : ntohs (load16 m' 24) ≡ ntohs (update_checksum_32 (load16 m 24) (load32 m a) addr)
    check' = ap ntohs check

    new_address : ntohs (load16 m' a) + ntohs (load16 m' (a + 2)) ≡ address_sum addr
    new_address = sym (address_sum-load32 m' a b') ∙ ap address_sum address

    covered :
        (ntohs (load16 m' 24) + (ntohs (load16 m' a) + ntohs (load16 m' (a + 2)))) % 65535
        ≡ (ntohs (load16 m 24) + (ntohs (load16 m a) + ntohs (load16 m (a + 2)))) % 65535
    covered = omega (
      arith,
      check',
      new_address,
      address_sum-load32 m a b,
      update_checksum_32-sum (load16 m 24) (load32 m a) addr,
    )

pub header_sum-rewrite :
    (m : Memory) (c a p addr port : ℕ)
    → IsBytes m
    → IsAddress a
    → 34 ≤ p
    → 34 ≤ c
    → addr < 4294967296
    → header_sum (rewrite_transport m 24 c a p addr port) % 65535 ≡ header_sum m % 65535
header_sum-rewrite m c a p addr port b ha hp hc h =
    header_sum-of m _ a addr b (rewrite-IsBytes m 24 c a p addr port b) ha
      (λ j h1 h2 h3. rewrite-load16_ne m c a p addr port j h1 (omega arith) h2 (omega arith))
      (rewrite-ip_check m c a p addr port ha hp hc)
      (rewrite-address m c a p addr port h (omega arith))

pub header_sum-rewrite_icmp :
    (m : Memory) (c a p addr id : ℕ)
    → IsBytes m
    → IsAddress a
    → 34 ≤ p
    → 34 ≤ c
    → addr < 4294967296
    → header_sum (rewrite_icmp m 24 c a p addr id) % 65535 ≡ header_sum m % 65535
header_sum-rewrite_icmp m c a p addr id b ha hp hc h =
    header_sum-of m _ a addr b (rewrite_icmp-IsBytes m c a p addr id 24 b) ha
      (λ j h1 h2 h3. rewrite_icmp-load16_ne m c a p addr id j h1 (omega arith) h2 (omega arith))
      (rewrite_icmp-ip_check m c a p addr id ha hp hc)
      (rewrite_icmp-address m c a p addr id h (omega arith))
