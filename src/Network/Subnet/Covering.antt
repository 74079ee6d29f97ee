-- ===== src/Network/Subnet/Covering.antt =====
-- The subnet that covers a pool.
use Prim.Native.Nat.{bit_and}
use high_performance_gaming.Common.{
  ℕ, zero, suc, ◌+◌, ◌-◌, ◌/◌, ◌%◌, ◌^◌, ◌≤◌, ◌<◌, ◌≡◌, ◌≢◌, ◌⊎◌, ◌↔◌, inl, inr, arith, refl, sym,
  ap, ◌∙◌, Bool, true, false, ◌&&◌, Option, none, some, ltb, ◌==◌, ==_iff, if◌then◌else◌,
  Bool-cases,
}
use high_performance_gaming.Net.Bytes.{ntohl, ntohl-lt}
use high_performance_gaming.Network.Masks.{
  ones_above, top, cleared, bit_and-ones_above, cleared-inj, cleared-top, top-div, top-le, top-suc,
}
use high_performance_gaming.Network.Subnet.{
  prefix_mask, ipv4_in_subnet, differ_from, infer_ordered, infer_prefix_covering_pool, leading_ones,
  mask_prefix_len,
}

-- A test that holds for each number below `n`, by running it.
abbrev checks : ℕ → (ℕ → Bool) → Bool
checks zero test = true
checks (suc n) test = checks n test && test n

checked : (n : ℕ) (test : ℕ → Bool) (i : ℕ) → checks n test ≡ true → i < n → test i ≡ true
checked zero test i h lt = absurd (omega arith)
checked (suc n) test i h lt = ground (arith, checked n test i)

prefix_mask-ones_above : (len : ℕ) → len ≤ 32 → prefix_mask len ≡ ones_above len (32 - len)
prefix_mask-ones_above len h =
    (==_iff _ _).0 (checked 33 (λ l. prefix_mask l == ones_above l (32 - l)) len refl (omega arith))

top-lt : (k j x : ℕ) → x < 2 ^ (k + j) → top k x < 2 ^ j
top-lt zero j x h = let e : 0 + j ≡ j = omega arith in rw e at h
top-lt (suc k) j x h =
    let e : suc k + j ≡ suc (k + j) = omega arith in top-lt k j (x / 2) (omega (arith, rw e at h))

masked :
    (len x : ℕ) → len ≤ 32 → x < 4294967296 → bit_and x (prefix_mask len) ≡ cleared (32 - len) x
masked len x h lt =
    let e : (32 - len) + len ≡ 32 = omega arith in
    ap (bit_and x) (prefix_mask-ones_above len h)
    ∙ bit_and-ones_above (32 - len) len x (top-lt (32 - len) len x (rw e lt))

-- Being in a subnet is to agree with its anchor above the host part.
pub in_subnet-top :
    (ip len anchor : ℕ)
    → len ≤ 32
    → (ipv4_in_subnet ip (some len) anchor ≡ true)
      ↔ (top (32 - len) (ntohl ip) ≡ top (32 - len) (ntohl anchor))
unfolding ipv4_in_subnet
in_subnet-top ip len anchor h =
    let m = masked len (ntohl ip) h (ntohl-lt ip) in
    let m' = masked len (ntohl anchor) h (ntohl-lt anchor) in
    let fits : ltb 32 len ≡ false = ground arith in
    rw (fits, m, m')
      (
        λ e. cleared-inj (32 - len) _ _ ((==_iff _ _).0 e),
        λ e. (==_iff _ _).1 (cleared-top (32 - len) _ _ e),
      )

-- What the loop comes to: the two agree above place `p`, and differ there if it is no more than 31.
pub record Differs (x y p : ℕ) : Type 0 where
  pub in_range : p ≤ 32
  pub above : top (32 - p) x ≡ top (32 - p) y
  pub there : (p ≡ 32) ⊎ (top (31 - p) x ≢ top (31 - p) y)

differ_from-Differs :
    (n p x y : ℕ) → n + p ≡ 32 → top n x ≡ top n y → Differs x y (differ_from n p x y)
unfolding differ_from
differ_from-Differs zero p x y h e =
    let p32 : p ≡ 32 = omega arith in
    rw p32 (record { in_range = omega arith; above = e; there = inl refl })
differ_from-Differs (suc n) p x y h e =
    let at : 31 - p ≡ n = omega arith in
    let tx = top-div n x in
    let ty = top-div n y in
    elim (Bool-cases (top n x % 2 == top n y % 2)) [
      | inl same ↦
          rw (at, ← tx, ← ty, same)
            (differ_from-Differs n (p + 1) x y (omega arith)
              (omega (arith, top-suc n x, top-suc n y, e, (==_iff _ _).0 same)))
      | inr other ↦
          let at' : 32 - p ≡ suc n = omega arith in
          rw (at, ← tx, ← ty, other)
            (record {
              in_range = omega arith;
              above = rw at' e;
              there = inr (rw at (λ eq. ground (arith, eq, other)));
            })
    ]

infer_ordered-Differs :
    (x y : ℕ) → x < 4294967296 → y < 4294967296 → Differs x y (infer_ordered x y)
infer_ordered-Differs x y hx hy = elim (Bool-cases (x == y)) [
  | inl same ↦
      rw same (record { in_range = omega arith; above = (==_iff x y).0 same; there = inl refl })
  | inr other ↦
      let tx : x / 2 ^ 32 ≡ 0 = omega arith in
      let ty : y / 2 ^ 32 ≡ 0 = omega arith in
      rw other (differ_from-Differs 32 0 x y refl (top-div 32 x ∙ tx ∙ sym ty ∙ sym (top-div 32 y)))
]

infer-Differs :
    (a b : ℕ) → ntohl a ≤ ntohl b → Differs (ntohl a) (ntohl b) (infer_prefix_covering_pool a b)
unfolding infer_prefix_covering_pool
infer-Differs a b h =
    let ordered : ltb (ntohl b) (ntohl a) ≡ false = ground arith in
    rw ordered (infer_ordered-Differs (ntohl a) (ntohl b) (ntohl-lt a) (ntohl-lt b))

-- Agreeing from some digit on, two numbers agree from a higher one on.
top_higher : (d k x y : ℕ) → top k x ≡ top k y → top (d + k) x ≡ top (d + k) y
top_higher zero k x y h = let e : 0 + k ≡ k = omega arith in rw e h
top_higher (suc d) k x y h =
    let e : suc d + k ≡ suc (d + k) = omega arith in
    rw e (omega (arith, top_higher d k x y h, top-suc (d + k) x, top-suc (d + k) y))

pub infer_prefix-covers :
    (a b : ℕ)
    → ntohl a ≤ ntohl b
    → let p = infer_prefix_covering_pool a b in
      (p ≤ 32)
      × ((ip : ℕ) → ntohl a ≤ ntohl ip → ntohl ip ≤ ntohl b → ipv4_in_subnet ip (some p) a ≡ true)
      × ((len : ℕ) → p < len → len ≤ 32 → ipv4_in_subnet b (some len) a ≡ false)
infer_prefix-covers a b h = go (infer_prefix_covering_pool a b) (infer-Differs a b h)
  where
    go :
        (p : ℕ)
        → Differs (ntohl a) (ntohl b) p
        → (p ≤ 32)
          × ((ip : ℕ)
              → ntohl a ≤ ntohl ip
              → ntohl ip ≤ ntohl b
              → ipv4_in_subnet ip (some p) a ≡ true)
          × ((len : ℕ) → p < len → len ≤ 32 → ipv4_in_subnet b (some len) a ≡ false)
    go p d = (
      d.in_range,
      λ ip lo hi. (in_subnet-top ip p a d.in_range).1 (
          omega (
            arith,
            d.above,
            top-le (32 - p) (ntohl a) (ntohl ip) lo,
            top-le (32 - p) (ntohl ip) (ntohl b) hi,
          )),
      λ len more fits. elim (Bool-cases (ipv4_in_subnet b (some len) a)) [
        | inr out ↦ out
        | inl in_it ↦
            let agree = (in_subnet-top b len a fits).0 in_it in
            let e : (len - (p + 1)) + (32 - len) ≡ 31 - p = omega arith in
            let up = top_higher (len - (p + 1)) (32 - len) (ntohl b) (ntohl a) agree in
            elim d.there [
              | inl all ↦ absurd (omega (arith, all))
              | inr ne ↦ absurd (ne (sym (rw e at up)))
            ]
      ],
    )

-- For a pool whose start is not after its end, also one of a single address: the prefix is at most 32,
-- and each address between the two is in the subnet with this prefix round the start.
pub infer_prefix-holds :
    (a b ip : ℕ)
    → ntohl a ≤ ntohl ip
    → ntohl ip ≤ ntohl b
    → (infer_prefix_covering_pool a b ≤ 32)
      × (ipv4_in_subnet ip (some (infer_prefix_covering_pool a b)) a ≡ true)
infer_prefix-holds a b ip lo hi =
    let (bounded, covers, least) = infer_prefix-covers a b (omega (arith, lo, hi)) in
    (bounded, covers ip lo hi)

-- For a pool whose start is not after its end: the subnet round its start with a longer prefix than
-- the inferred one, up to 32, does not hold its end.
pub infer_prefix-tight :
    (a b len : ℕ)
    → ntohl a ≤ ntohl b
    → infer_prefix_covering_pool a b < len
    → len ≤ 32
    → ipv4_in_subnet b (some len) a ≡ false
infer_prefix-tight a b len order more fits =
    let (bounded, covers, least) = infer_prefix-covers a b order in least len more fits

is_some_of : ℕ → Option ℕ → Bool
is_some_of k none = false
is_some_of k (some l) = k == l

is_some_of-eq : (k : ℕ) (o : Option ℕ) → is_some_of k o ≡ true → o ≡ some k
unfolding is_some_of
is_some_of-eq k o h = ground (arith, h)

-- The mask that is set for a prefix of 1 to 32 is read back as this prefix.
mask_prefix_len-prefix_mask : (k : ℕ) → 0 < k → k ≤ 32 → mask_prefix_len (prefix_mask k) ≡ some k
unfolding mask_prefix_len leading_ones is_some_of
mask_prefix_len-prefix_mask k h lt = is_some_of-eq k _ (
    ground (
      arith,
      checked 33 (λ l. if l == 0 then true else is_some_of l (mask_prefix_len (prefix_mask l))) k
          refl (omega arith),
    ))
