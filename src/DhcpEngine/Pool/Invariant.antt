-- ===== src/DhcpEngine/Pool/Invariant.antt =====
-- No two slots of the pool have the same address, and no device has two leases.
use high_performance_gaming.Common.{
  ℕ, zero, suc, ◌+◌, ◌-◌, ◌%◌, ◌≤◌, ◌<◌, ◌≡◌, ◌⊎◌, inl, inr, arith, refl, min, Bool, true, false,
  Option, none, some, ltb, ◌==◌, Bool-cases, sym, ◌∙◌, ap,
}
use high_performance_gaming.Common.Array.{update}
use high_performance_gaming.Net.Bytes.{ntohl, ntohl-lt, ntohl-ntohl, u32_mod}
use high_performance_gaming.DhcpEngine.Pool.{
  DhcpEngine, DhcpLease, max_pool_size, pool_advance, clear_leases, init_pool, first_slot, is_own,
  is_free, assign, find_or_assign_lease, pool_ok, end_before_start,
}

pub record IsValid (e : DhcpEngine) : Type 0 where
  pub count_ok : e.pool_count ≤ max_pool_size
  pub one_address :
      (i j : ℕ) → i < e.pool_count → j < e.pool_count → (e.leases i).ip ≡ (e.leases j).ip → i ≡ j
  pub one_lease :
      (i j : ℕ)
      → i < e.pool_count
      → j < e.pool_count
      → (e.leases i).active ≡ true
      → (e.leases j).active ≡ true
      → (e.leases i).mac ≡ (e.leases j).mac
      → i ≡ j

-- What a search over the pool comes to.
pub data Searched (test : ℕ → Bool) (n i : ℕ) : Option ℕ → Type 0 where
  found : (k : ℕ) → i ≤ k → k < i + n → test k ≡ true → Searched test n i (some k)
  absent : ((k : ℕ) → i ≤ k → k < i + n → test k ≡ false) → Searched test n i none

pub first_slot-Searched : (test : ℕ → Bool) (n i : ℕ) → Searched test n i (first_slot test n i)
unfolding first_slot
first_slot-Searched test zero i = absent (λ k h h'. absurd (omega arith))
first_slot-Searched test (suc n) i = elim (Bool-cases (test i)) [
  | inl e ↦ rw e (found i (omega arith) (omega arith) e)
  | inr e ↦ rw e (go e (first_slot test n (i + 1)) (first_slot-Searched test n (i + 1)))
]
  where
    go : test i ≡ false → (r : Option ℕ) → Searched test n (i + 1) r → Searched test (suc n) i r
    go e _ (found k h h' t) = found k (omega arith) (omega arith) t
    go e _ (absent a) = absent (λ k h h'. ground (arith, e, a k))

-- The leases that the loop has gone over have their addresses and are not active.
clear_leases_lem :
    (n i start_ip : ℕ) (leases : ℕ → DhcpLease) (k : ℕ)
    → let l = clear_leases n i start_ip leases k in
      ((k < i) × (l ≡ leases k))
      ⊎ ((i + n ≤ k) × (l ≡ leases k))
      ⊎ ((i ≤ k) × (k < i + n) × (l.ip ≡ pool_advance start_ip k) × (l.active ≡ false))
unfolding clear_leases
clear_leases_lem zero i start_ip leases k = ground arith
clear_leases_lem (suc n) i start_ip leases k = ground (
  arith,
  clear_leases_lem n (i + 1) start_ip
      (update leases i (record (leases i) { ip = pool_advance start_ip i; active = false })) k,
)

-- Addresses of the pool are different as long as it does not go round all 32 bits.
pool_advance-inj :
    (base i j : ℕ) → i < u32_mod → j < u32_mod → pool_advance base i ≡ pool_advance base j → i ≡ j
unfolding pool_advance
pool_advance-inj base i j hi hj h =
    let a = (ntohl base + i) % u32_mod in
    let b = (ntohl base + j) % u32_mod in
    let e : a ≡ b = sym (ntohl-ntohl a (omega arith)) ∙ ap ntohl h ∙ ntohl-ntohl b (omega arith) in
    omega (arith, e, ntohl-lt base)

init_pool-advanced :
    (e : DhcpEngine) (start_ip end_ip : ℕ)
    → let (result, e') = init_pool e start_ip end_ip in
      ((ntohl end_ip < ntohl start_ip) × (result ≡ end_before_start) × (e' ≡ e))
      ⊎ ((ntohl start_ip ≤ ntohl end_ip)
          × (result ≡ pool_ok)
          × (e'.pool_count ≡ min ((ntohl end_ip - ntohl start_ip) + 1) max_pool_size)
          × ((i : ℕ)
              → i < e'.pool_count
              → ((e'.leases i).ip ≡ pool_advance start_ip i) × ((e'.leases i).active ≡ false)))
unfolding init_pool
init_pool-advanced e start_ip end_ip = elim (Bool-cases (ltb (ntohl end_ip) (ntohl start_ip))) [
  | inl b ↦ rw b (inl (ground arith, refl, refl))
  | inr b ↦
      let count = min ((ntohl end_ip - ntohl start_ip) + 1) max_pool_size in
      let e1 : ((ntohl end_ip - ntohl start_ip) + 1 == 0) ≡ false = ground arith in
      let e2 : (count == 0) ≡ false = ground arith in
      rw (b, e1, e2)
        (inr (
          ground arith,
          refl,
          refl,
          λ i h. ground (arith, clear_leases_lem count 0 start_ip e.leases i),
        ))
]

pool_advance_lem :
    (base i : ℕ) → ntohl base + i < u32_mod → ntohl (pool_advance base i) ≡ ntohl base + i
unfolding pool_advance
pool_advance_lem base i h = ntohl-ntohl _ (omega arith) ∙ omega arith

-- A new pool is refused exactly when its end lies before its start, and then nothing changes; else
-- it has a lease for each address, 253 at most: the `i`-th address, in the order of its bytes, is `i` more
-- than the start, and no lease is active.
pub init_pool-leases :
    (e : DhcpEngine) (start_ip end_ip : ℕ)
    → let (result, e') = init_pool e start_ip end_ip in
      ((ntohl end_ip < ntohl start_ip) × (result ≡ end_before_start) × (e' ≡ e))
      ⊎ ((ntohl start_ip ≤ ntohl end_ip)
          × (result ≡ pool_ok)
          × (e'.pool_count ≡ min ((ntohl end_ip - ntohl start_ip) + 1) max_pool_size)
          × ((i : ℕ)
              → i < e'.pool_count
              → (ntohl (e'.leases i).ip ≡ ntohl start_ip + i) × ((e'.leases i).active ≡ false)))
init_pool-leases e start_ip end_ip = elim (init_pool-advanced e start_ip end_ip) [
  | inl before ↦ inl before
  | inr (fits, done, count, new) ↦ inr (
    fits,
    done,
    count,
    λ i h.
        let (at, free) = new i h in
        (
          ap ntohl at
              ∙ pool_advance_lem start_ip i (omega (arith, fits, count, h, ntohl-lt end_ip)),
          free,
        ),
  )
]

pub init_pool-IsValid :
    (e : DhcpEngine) (start_ip end_ip : ℕ) → IsValid e → IsValid (init_pool e start_ip end_ip).1
init_pool-IsValid e start_ip end_ip v = elim (init_pool-advanced e start_ip end_ip) [
  | inl (before, refused, same) ↦ rw same v
  | inr (fits, done, count, new) ↦ record {
    count_ok = omega (arith, count);
    one_address = λ i j hi hj h.
        pool_advance-inj start_ip i j (omega (arith, count)) (omega (arith, count))
          (sym (new i hi).0 ∙ h ∙ (new j hj).0);
    one_lease = λ i j hi hj ai aj h. absurd (ground (arith, new i hi));
  }
]

-- A free slot is given to a device that has no lease.
assign-IsValid :
    (e : DhcpEngine) (mac now k : ℕ)
    → ((i : ℕ) → 0 ≤ i → i < 0 + e.pool_count → is_own e mac i ≡ false)
    → IsValid e
    → IsValid (assign e mac now k)
unfolding assign
assign-IsValid e mac now k none_own v = record {
  count_ok = v.count_ok;
  one_address = λ i j hi hj h. ground (arith, v.one_address i j);
  one_lease = λ i j hi hj ai aj h.
      ground (arith, v.one_lease i j, none_own i (omega arith), none_own j (omega arith));
}

-- What `find_or_assign_lease` comes to: the lease that the device has, the first free one, or none.
pub data Leased (e : DhcpEngine) (mac now : ℕ) : ℕ × DhcpEngine → Type 0 where
  kept : (k : ℕ) → k < e.pool_count → is_own e mac k ≡ true → Leased e mac now ((e.leases k).ip, e)
  granted :
      (k : ℕ)
      → k < e.pool_count
      → is_free e now k ≡ true
      → ((i : ℕ) → 0 ≤ i → i < 0 + e.pool_count → is_own e mac i ≡ false)
      → Leased e mac now ((e.leases k).ip, assign e mac now k)
  exhausted :
      ((i : ℕ) → 0 ≤ i → i < 0 + e.pool_count → is_own e mac i ≡ false)
      → ((i : ℕ) → 0 ≤ i → i < 0 + e.pool_count → is_free e now i ≡ false)
      → Leased e mac now (0, e)

pub find_or_assign_lease-Leased :
    (e : DhcpEngine) (mac now : ℕ) → Leased e mac now (find_or_assign_lease e mac now)
unfolding find_or_assign_lease
find_or_assign_lease-Leased e mac now =
    own (first_slot (is_own e mac) e.pool_count 0)
      (first_slot-Searched (is_own e mac) e.pool_count 0)
      (first_slot (is_free e now) e.pool_count 0)
      (first_slot-Searched (is_free e now) e.pool_count 0)
  where
    own :
        (r : Option ℕ)
        → Searched (is_own e mac) e.pool_count 0 r
        → (f : Option ℕ) → Searched (is_free e now) e.pool_count 0 f
        → Leased e mac now (elim r [
          | some i ↦ ((e.leases i).ip, e)
          | none ↦ elim f [ some i ↦ ((e.leases i).ip, assign e mac now i) | none ↦ (0, e) ]
        ])
    own _ (found k h h' t) f sf = kept k (omega arith) t
    own _ (absent a) _ (found k h h' t) = granted k (omega arith) t a
    own _ (absent a) _ (absent b) = exhausted a b

-- From a valid pool, whatever device asks, the pool stays valid: no two leases for one device, and
-- no address in two slots.
pub find_or_assign_lease-IsValid :
    (e : DhcpEngine) (mac now : ℕ) → IsValid e → IsValid (find_or_assign_lease e mac now).1
find_or_assign_lease-IsValid e mac now v =
    go (find_or_assign_lease e mac now) (find_or_assign_lease-Leased e mac now)
  where
    go : (r : ℕ × DhcpEngine) → Leased e mac now r → IsValid r.1
    go _ (kept k h own) = v
    go _ (granted k h free none_own) = assign-IsValid e mac now k none_own v
    go _ (exhausted a b) = v
