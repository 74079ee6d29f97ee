-- ===== src/Control/Counts.antt =====
-- A number for each of some threads, added up.
use high_performance_gaming.Common.{
  ℕ, zero, suc, ◌+◌, ◌<◌, ◌≤◌, ◌≡◌, inl, inr, refl, arith, ◌==◌, ==_iff, Bool-cases,
}
use high_performance_gaming.Common.Array.{update, update_self, update_ne}
use high_performance_gaming.Control.{At}

module _ (number : At → ℕ) where
  abbrev pub total : ℕ → (ℕ → At) → ℕ
  total zero f = 0
  total (suc n) f = number (f n) + total n f

  total-update_out : (n i : ℕ) (f : ℕ → At) (a : At) → n ≤ i → total n (update f i a) ≡ total n f
  total-update_out zero i f a h = refl
  total-update_out (suc n) i f a h =
      rw (update_ne f i n a (λ e. omega (arith, e, h)), total-update_out n i f a (omega arith)) refl

  -- One thread moves.
  pub total-update :
      (n i : ℕ) (f : ℕ → At) (a : At)
      → i < n
      → total n (update f i a) + number (f i) ≡ total n f + number a
  total-update zero i f a h = absurd (omega (arith, h))
  total-update (suc n) i f a h = elim (Bool-cases (i == n)) [
    | inl same ↦
        let e = (==_iff i n).0 same in
        rw e (rw (update_self f n a, total-update_out n n f a (omega arith)) (omega arith))
    | inr other ↦
        let ne : i < n = ground (arith, h, other) in
        rw (update_ne f i n a (λ e. omega (arith, e, ne))) (omega (arith, total-update n i f a ne))
  ]
