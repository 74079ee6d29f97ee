-- ===== src/DhcpEngine/Pool/Grant.antt =====
-- What a device gets from the pool, and what the others keep.
use high_performance_gaming.Common.{
  ℕ, ◌+◌, ◌<◌, ◌≤◌, ◌≡◌, ◌≢◌, ◌⊎◌, inl, inr, arith, refl, ap, true, false, Option, none, some,
}
use high_performance_gaming.DhcpEngine.Pool.{
  DhcpEngine, first_slot, is_own, is_free, assign, find_or_assign_lease, has_ip, renew,
  commit_lease,
}
use high_performance_gaming.DhcpEngine.Pool.Invariant.{
  IsValid, Leased, kept, granted, exhausted, find_or_assign_lease-Leased, Searched, found, absent,
  first_slot-Searched,
}

-- The device has an active lease for this address.
pub record Holds (e : DhcpEngine) (mac ip : ℕ) : Type 0 where
  pub slot : ℕ
  pub in_pool : slot < e.pool_count
  pub is_active : (e.leases slot).active ≡ true
  pub of_device : (e.leases slot).mac ≡ mac
  pub of_address : (e.leases slot).ip ≡ ip

own-Holds :
    (e : DhcpEngine) (mac k : ℕ)
    → k < e.pool_count
    → is_own e mac k ≡ true
    → Holds e mac (e.leases k).ip
own-Holds e mac k h own = record {
  slot = k;
  in_pool = h;
  is_active = ground (arith, own);
  of_device = ground (arith, own);
  of_address = refl;
}

assign-Holds :
    (e : DhcpEngine) (mac now k : ℕ)
    → k < e.pool_count
    → Holds (assign e mac now k) mac (e.leases k).ip
unfolding assign
assign-Holds e mac now k h = record {
  slot = k;
  in_pool = h;
  is_active = ground arith;
  of_device = ground arith;
  of_address = ground arith;
}

-- A lease that runs: it is active, and its end is not before now.
pub record IsLive (e : DhcpEngine) (now i : ℕ) : Type 0 where
  pub is_active : (e.leases i).active ≡ true
  pub in_time : now ≤ (e.leases i).lease_expiry

-- Whatever device asks: it holds a lease for the address that it gets, or it gets 0, nothing
-- changes, and every lease of the pool is active and ends now or later.
pub find_or_assign_lease-Holds :
    (e : DhcpEngine) (mac now : ℕ)
    → let (ip, e') = find_or_assign_lease e mac now in
      Holds e' mac ip ⊎ ((ip ≡ 0) × (e' ≡ e) × ((i : ℕ) → i < e.pool_count → IsLive e now i))
find_or_assign_lease-Holds e mac now =
    go (find_or_assign_lease e mac now) (find_or_assign_lease-Leased e mac now)
  where
    live : (i : ℕ) → is_free e now i ≡ false → IsLive e now i
    live i h = record { is_active = ground (arith, h); in_time = ground (arith, h) }

    go :
        (r : ℕ × DhcpEngine)
        → Leased e mac now r
        → Holds r.1 mac r.0
          ⊎ ((r.0 ≡ 0) × (r.1 ≡ e) × ((i : ℕ) → i < e.pool_count → IsLive e now i))
    go _ (kept k h own) = inl (own-Holds e mac k h own)
    go _ (granted k h free none_own) = inl (assign-Holds e mac now k h)
    go _ (exhausted a b) = inr (refl, refl, λ i h. live i (b i (omega arith) (omega arith)))

-- A lease that is active and ends now or later is left as it is, whatever device asks.
pub find_or_assign_lease-keeps :
    (e : DhcpEngine) (mac now i : ℕ)
    → (e.leases i).active ≡ true
    → now ≤ (e.leases i).lease_expiry
    → (find_or_assign_lease e mac now).1.leases i ≡ e.leases i
unfolding assign
find_or_assign_lease-keeps e mac now i active in_time =
    go (find_or_assign_lease e mac now) (find_or_assign_lease-Leased e mac now)
  where
    go : (r : ℕ × DhcpEngine) → Leased e mac now r → r.1.leases i ≡ e.leases i
    go _ (kept k h own) = refl
    go _ (granted k h free none_own) = ground (arith, active, in_time, free)
    go _ (exhausted a b) = refl

-- A device that holds a lease in a valid pool is given its address again, at any time, also when
-- the lease has expired, and nothing changes.
pub find_or_assign_lease_again :
    (e : DhcpEngine) (mac ip now : ℕ)
    → IsValid e
    → Holds e mac ip
    → find_or_assign_lease e mac now ≡ (ip, e)
find_or_assign_lease_again e mac ip now v hold =
    go (find_or_assign_lease e mac now) (find_or_assign_lease-Leased e mac now)
  where
    go : (r : ℕ × DhcpEngine) → Leased e mac now r → r ≡ (ip, e)
    go _ (kept k h own) =
        let same : k ≡ hold.slot =
          v.one_lease k hold.slot h hold.in_pool (ground (arith, own)) hold.is_active
            (ground (arith, own, hold.of_device)) in
        rw (same, hold.of_address) refl
    go _ (granted k h free none_own) = absurd (ground (arith, none_own hold.slot, hold))
    go _ (exhausted a b) = absurd (ground (arith, a hold.slot, hold))

commit_lease-renew :
    (e : DhcpEngine) (mac ip now : ℕ)
    → IsValid e
    → (h : Holds e mac ip) → commit_lease e ip now ≡ renew e now h.slot
unfolding commit_lease
commit_lease-renew e mac ip now v h =
    go (first_slot (has_ip e ip) e.pool_count 0) (first_slot-Searched (has_ip e ip) e.pool_count 0)
  where
    go :
        (r : Option ℕ)
        → Searched (has_ip e ip) e.pool_count 0 r
        → elim r [ some i ↦ renew e now i | none ↦ e ] ≡ renew e now h.slot
    go _ (found k _ hk t) =
        ap (renew e now)
          (v.one_address k h.slot (omega arith) h.in_pool (ground (arith, t, h.of_address)))
    go _ (absent a) = absurd (ground (arith, a h.slot, h.of_address, h.in_pool))

renew-Holds :
    (e : DhcpEngine) (mac ip now : ℕ)
    → (h : Holds e mac ip)
    → let e' = renew e now h.slot in
      Holds e' mac ip
      × ((e'.leases h.slot).lease_expiry ≡ now + e.lease_duration)
      × ((i : ℕ) → i ≢ h.slot → e'.leases i ≡ e.leases i)
unfolding renew
renew-Holds e mac ip now h = (
  record {
    slot = h.slot;
    in_pool = h.in_pool;
    is_active = ground arith;
    of_device = ground (arith, h.of_device);
    of_address = ground (arith, h.of_address);
  },
  ground arith,
  λ i ne. ground (arith, ne),
)

renew-IsValid :
    (e : DhcpEngine) (mac ip now : ℕ)
    → IsValid e
    → (h : Holds e mac ip) → IsValid (renew e now h.slot)
unfolding renew
renew-IsValid e mac ip now v h = record {
  count_ok = v.count_ok;
  one_address = λ i j hi hj same. ground (arith, v.one_address i j);
  one_lease = λ i j hi hj ai aj same.
      ground (
        arith,
        v.one_lease i j,
        v.one_lease h.slot j,
        v.one_lease i h.slot,
        h.is_active,
        h.in_pool,
      );
}

-- In a valid pool, for an address that a device holds: `commit_lease` makes the lease run for the
-- lease duration from now on and changes no other, the device still holds it, and the pool is valid.
pub commit_lease-Holds :
    (e : DhcpEngine) (mac ip now : ℕ)
    → IsValid e
    → (h : Holds e mac ip)
    → let e' = commit_lease e ip now in
      IsValid e'
      × Holds e' mac ip
      × ((e'.leases h.slot).lease_expiry ≡ now + e.lease_duration)
      × ((i : ℕ) → i ≢ h.slot → e'.leases i ≡ e.leases i)
commit_lease-Holds e mac ip now v h =
    let r = renew-Holds e mac ip now h in
    rw (commit_lease-renew e mac ip now v h) (renew-IsValid e mac ip now v h, r.0, r.1, r.2)
