-- ===== src/NatEngine/Engine/RewriteEcho.antt =====
-- What `rewrite_icmp` writes: the address, the identifier, the two checksums, and nothing else.
use high_performance_gaming.Common.{
  ℕ, ◌+◌, ◌%◌, ◌≤◌, ◌<◌, ◌≡◌, ◌≢◌, inl, inr, arith, ◌==◌, if◌then◌else◌, Bool-cases, ◌∙◌,
}
use high_performance_gaming.Net.Bytes.{
  Memory, Apart, IsBytes, load16, load32, store16, store32, ntohs, load16-store16,
  load16-store16_ne, load32-store16_ne, load32-store32, load16-store32_ne, store16-IsBytes,
  store32-IsBytes,
}
use high_performance_gaming.NatEngine.Checksum.{
  update_checksum_16, update_checksum_32, update_checksum_16-lt, update_checksum_32-lt,
  update_checksum_16-sum,
}
use high_performance_gaming.NatEngine.Engine.{rewrite_icmp}
use high_performance_gaming.NatEngine.Engine.Rewrite.{IsAddress}

module _ (m : Memory) (c a p addr id : ℕ) where
  -- The step that adjusts the echo checksum, over the memory before it.
  echo_adjusted : Memory → Memory
  echo_adjusted m1 =
      if load16 m1 c == 0
      then m1
      else store16 m1 c (update_checksum_16 (load16 m1 c) (load16 m p) id)

  echo_adjusted-load16_ne :
      (m1 : Memory) (j : ℕ) → Apart c 2 j 2 → load16 (echo_adjusted m1) j ≡ load16 m1 j
  unfolding echo_adjusted
  echo_adjusted-load16_ne m1 j h =
      ground (arith, load16-store16_ne m1 c (update_checksum_16 (load16 m1 c) (load16 m p) id) j)

  echo_adjusted-IsBytes : (m1 : Memory) → IsBytes m1 → IsBytes (echo_adjusted m1)
  unfolding echo_adjusted
  echo_adjusted-IsBytes m1 b = elim (Bool-cases (load16 m1 c == 0)) [
    | inl e ↦ rw e b
    | inr e ↦ rw e (store16-IsBytes m1 c _ b)
  ]

  pub rewrite_icmp-IsBytes : (at : ℕ) → IsBytes m → IsBytes (rewrite_icmp m at c a p addr id)
  unfolding rewrite_icmp echo_adjusted
  rewrite_icmp-IsBytes at b =
      store16-IsBytes _ p id
        (store32-IsBytes _ a addr (echo_adjusted-IsBytes _ (store16-IsBytes m at _ b)))

  pub rewrite_icmp-load16_ne :
      (j : ℕ)
      → Apart 24 2 j 2
      → Apart c 2 j 2
      → Apart a 4 j 2
      → Apart p 2 j 2
      → load16 (rewrite_icmp m 24 c a p addr id) j ≡ load16 m j
  unfolding rewrite_icmp echo_adjusted
  rewrite_icmp-load16_ne j h1 h2 h3 h4 =
      let m1 = store16 m 24 (update_checksum_32 (load16 m 24) (load32 m a) addr) in
      let m2 = echo_adjusted m1 in
      load16-store16_ne (store32 m2 a addr) p id j h4
      ∙ load16-store32_ne m2 a addr j h3
      ∙ echo_adjusted-load16_ne m1 j h2
      ∙ load16-store16_ne m 24 _ j h1

  pub rewrite_icmp-id : id < 65536 → load16 (rewrite_icmp m 24 c a p addr id) p ≡ id
  unfolding rewrite_icmp
  rewrite_icmp-id h = load16-store16 _ p id h

  pub rewrite_icmp-address :
      addr < 4294967296 → Apart p 2 a 4 → load32 (rewrite_icmp m 24 c a p addr id) a ≡ addr
  unfolding rewrite_icmp
  rewrite_icmp-address h k = load32-store16_ne _ p id a k ∙ load32-store32 _ a addr h

  pub rewrite_icmp-ip_check :
      IsAddress a
      → 34 ≤ p
      → 34 ≤ c
      → load16 (rewrite_icmp m 24 c a p addr id) 24
        ≡ update_checksum_32 (load16 m 24) (load32 m a) addr
  unfolding rewrite_icmp echo_adjusted
  rewrite_icmp-ip_check ha hp hc =
      let m1 = store16 m 24 (update_checksum_32 (load16 m 24) (load32 m a) addr) in
      let m2 = echo_adjusted m1 in
      load16-store16_ne (store32 m2 a addr) p id 24 (omega arith)
      ∙ load16-store32_ne m2 a addr 24 (omega arith)
      ∙ echo_adjusted-load16_ne m1 24 (omega arith)
      ∙ load16-store16 m 24 _ (update_checksum_32-lt _ _ _)

  -- The echo checksum after the rewrite, with the identifier that it covers.
  pub rewrite_icmp-check :
      IsAddress a
      → 34 ≤ p
      → 34 ≤ c
      → Apart c 2 p 2
      → load16 m c ≢ 0
      → (ntohs (load16 (rewrite_icmp m 24 c a p addr id) c) + ntohs id) % 65535
        ≡ (ntohs (load16 m c) + ntohs (load16 m p)) % 65535
  unfolding rewrite_icmp echo_adjusted
  rewrite_icmp-check ha hp hc hcp ne =
      let m1 = store16 m 24 (update_checksum_32 (load16 m 24) (load32 m a) addr) in
      let m2 = echo_adjusted m1 in
      let u = update_checksum_16 (load16 m1 c) (load16 m p) id in
      let e1 : load16 m1 c ≡ load16 m c = load16-store16_ne m 24 _ c (omega arith) in
      let e2 : load16 (store16 m1 c u) c ≡ u =
        load16-store16 m1 c u (update_checksum_16-lt _ _ _) in
      let e4 : load16 (store16 (store32 m2 a addr) p id) c ≡ load16 m2 c =
        load16-store16_ne (store32 m2 a addr) p id c (omega arith)
        ∙ load16-store32_ne m2 a addr c (omega arith) in
      ground (arith, e1, e2, e4, update_checksum_16-sum (load16 m1 c) (load16 m p) id)
