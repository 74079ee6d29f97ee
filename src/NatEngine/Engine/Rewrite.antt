-- ===== src/NatEngine/Engine/Rewrite.antt =====
-- What `rewrite_transport` and `rewrite_icmp` write: the fields they are given, the two checksums,
-- and nothing else.
use high_performance_gaming.Common.{ℕ, ◌+◌, ◌%◌, ◌≤◌, ◌<◌, ◌≡◌, ◌≢◌, ◌⊎◌, arith, ◌∙◌}
use high_performance_gaming.Net.Bytes.{
  Memory, Apart, load16, load32, store16, store32, ntohs, load16-store16, load16-store16_ne,
  load8-store16_ne, load32-store16_ne, load32-store32, load16-store32_ne, load8-store32_ne,
}
use high_performance_gaming.NatEngine.Checksum.{
  update_checksum_16, update_checksum_32, update_checksum_16-lt, update_checksum_32-lt,
  update_checksum_16-sum, update_checksum_32-sum, address_sum,
}
use high_performance_gaming.NatEngine.Engine.{adjust_transport, rewrite_transport}

adjust-load16_ne :
    (m : Memory) (c a p addr port j : ℕ)
    → Apart c 2 j 2
    → load16 (adjust_transport m c a p addr port) j ≡ load16 m j
unfolding adjust_transport
adjust-load16_ne m c a p addr port j h =
    let u = update_checksum_32 (load16 m c) (load32 m a) addr in
    let m' = store16 m c u in
    let v = update_checksum_16 (load16 m' c) (load16 m' p) port in
    ground (arith, load16-store16_ne m c u j, load16-store16_ne m' c v j)

-- The transport checksum is adjusted for both fields, unless it is 0.
pub adjust-check :
    (m : Memory) (c a p addr port : ℕ)
    → Apart c 2 p 2
    → load16 m c ≢ 0
    → (ntohs (load16 (adjust_transport m c a p addr port) c) + address_sum addr + ntohs port)
        % 65535
      ≡ (ntohs (load16 m c) + address_sum (load32 m a) + ntohs (load16 m p)) % 65535
unfolding adjust_transport
adjust-check m c a p addr port h ne =
    let u = update_checksum_32 (load16 m c) (load32 m a) addr in
    let m' = store16 m c u in
    let v = update_checksum_16 (load16 m' c) (load16 m' p) port in
    let e1 : load16 m' c ≡ u = load16-store16 m c u (update_checksum_32-lt _ _ _) in
    let e2 : load16 m' p ≡ load16 m p = load16-store16_ne m c u p h in
    let e3 : load16 (store16 m' c v) c ≡ v = load16-store16 m' c v (update_checksum_16-lt _ _ _) in
    let w = update_checksum_16 u (load16 m p) port in
    ground (
      arith,
      e1,
      e2,
      e3,
      update_checksum_32-sum (load16 m c) (load32 m a) addr,
      update_checksum_16-sum u (load16 m p) port,
    )

adjust-load8_ne :
    (m : Memory) (c a p addr port j : ℕ)
    → Apart c 2 j 1
    → adjust_transport m c a p addr port j ≡ m j
unfolding adjust_transport
adjust-load8_ne m c a p addr port j h =
    let u = update_checksum_32 (load16 m c) (load32 m a) addr in
    let m' = store16 m c u in
    let v = update_checksum_16 (load16 m' c) (load16 m' p) port in
    ground (arith, load8-store16_ne m c u j, load8-store16_ne m' c v j)

-- The IPv4 header stands at 14: its checksum at 24, its addresses at 26 and 30.
abbrev pub IsAddress : ℕ → Type 0
IsAddress a = (a ≡ 26) ⊎ (a ≡ 30)

module _ (m : Memory) (c a p addr port : ℕ) where
  -- A word outside the four fields is kept.
  pub rewrite-load16_ne :
      (j : ℕ)
      → Apart 24 2 j 2
      → Apart c 2 j 2
      → Apart a 4 j 2
      → Apart p 2 j 2
      → load16 (rewrite_transport m 24 c a p addr port) j ≡ load16 m j
  unfolding rewrite_transport
  rewrite-load16_ne j h1 h2 h3 h4 =
      let m1 = store16 m 24 (update_checksum_32 (load16 m 24) (load32 m a) addr) in
      let m2 = adjust_transport m1 c a p addr port in
      load16-store16_ne (store32 m2 a addr) p port j h4
      ∙ load16-store32_ne m2 a addr j h3
      ∙ adjust-load16_ne m1 c a p addr port j h2
      ∙ load16-store16_ne m 24 _ j h1

  -- A byte outside the four fields is kept.
  pub rewrite-load8_ne :
      (j : ℕ)
      → Apart 24 2 j 1
      → Apart c 2 j 1
      → Apart a 4 j 1
      → Apart p 2 j 1
      → rewrite_transport m 24 c a p addr port j ≡ m j
  unfolding rewrite_transport
  rewrite-load8_ne j h1 h2 h3 h4 =
      let m1 = store16 m 24 (update_checksum_32 (load16 m 24) (load32 m a) addr) in
      let m2 = adjust_transport m1 c a p addr port in
      load8-store16_ne (store32 m2 a addr) p port j h4
      ∙ load8-store32_ne m2 a addr j h3
      ∙ adjust-load8_ne m1 c a p addr port j h2
      ∙ load8-store16_ne m 24 _ j h1

  pub rewrite-port : port < 65536 → load16 (rewrite_transport m 24 c a p addr port) p ≡ port
  unfolding rewrite_transport
  rewrite-port h = load16-store16 _ p port h

  pub rewrite-address :
      addr < 4294967296 → Apart p 2 a 4 → load32 (rewrite_transport m 24 c a p addr port) a ≡ addr
  unfolding rewrite_transport
  rewrite-address h k = load32-store16_ne _ p port a k ∙ load32-store32 _ a addr h

  pub rewrite-ip_check :
      IsAddress a
      → 34 ≤ p
      → 34 ≤ c
      → load16 (rewrite_transport m 24 c a p addr port) 24
        ≡ update_checksum_32 (load16 m 24) (load32 m a) addr
  unfolding rewrite_transport
  rewrite-ip_check ha hp hc =
      let m1 = store16 m 24 (update_checksum_32 (load16 m 24) (load32 m a) addr) in
      let m2 = adjust_transport m1 c a p addr port in
      load16-store16_ne (store32 m2 a addr) p port 24 (omega arith)
      ∙ load16-store32_ne m2 a addr 24 (omega arith)
      ∙ adjust-load16_ne m1 c a p addr port 24 (omega arith)
      ∙ load16-store16 m 24 _ (update_checksum_32-lt _ _ _)

  -- Where the checksum of the transport header is not 0, is apart from the port, and both lie
  -- behind the first 20 bytes of the IPv4 header: modulo 65535, the sum of that checksum, of the
  -- words of the address and of the port is after the rewrite, with the new address and port,
  -- what it was before.
  pub rewrite-check :
      IsAddress a
      → 34 ≤ p
      → 34 ≤ c
      → Apart c 2 p 2
      → load16 m c ≢ 0
      → (ntohs (load16 (rewrite_transport m 24 c a p addr port) c) + address_sum addr + ntohs port)
          % 65535
        ≡ (ntohs (load16 m c) + address_sum (load32 m a) + ntohs (load16 m p)) % 65535
  unfolding rewrite_transport
  rewrite-check ha hp hc hcp ne =
      let m1 = store16 m 24 (update_checksum_32 (load16 m 24) (load32 m a) addr) in
      let m2 = adjust_transport m1 c a p addr port in
      let e1 : load16 m1 c ≡ load16 m c = load16-store16_ne m 24 _ c (omega arith) in
      let e2 : load16 m1 p ≡ load16 m p = load16-store16_ne m 24 _ p (omega arith) in
      let e3 : load32 m1 a ≡ load32 m a = load32-store16_ne m 24 _ a (omega arith) in
      let e4 : load16 (store16 (store32 m2 a addr) p port) c ≡ load16 m2 c =
        load16-store16_ne (store32 m2 a addr) p port c (omega arith)
        ∙ load16-store32_ne m2 a addr c (omega arith) in
      ground (arith, e1, e2, e3, e4, adjust-check m1 c a p addr port hcp)
