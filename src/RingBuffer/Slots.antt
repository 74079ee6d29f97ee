-- ===== src/RingBuffer/Slots.antt =====
-- The occupied slots of a ring of `room` slots, from the oldest on.
use high_performance_gaming.Common.{
  ℕ, zero, suc, ◌+◌, ◌-◌, ◌%◌, ◌≤◌, ◌<◌, ◌≡◌, ◌≢◌, ◌⊎◌, inl, inr, arith, List, [], ◌∷◌, ◌++◌, refl,
  ap, ap₂, sym, ◌∙◌,
}
use high_performance_gaming.Common.Array.{update, length, update_self, update_ne}
use native.Mathlib.Nat.{mod-add-mod, mod-eq_of_lt, mod-eq-sub-mod}
use native.Mathlib.Decide.{dec_lt}

-- Two places of one round of the ring are different.
mod_ne : (room h k n : ℕ) → h < room → k + suc n < room → (h + (k + suc n)) % room ≢ (h + k) % room
mod_ne room h k n hh hk = grind arith

-- A number less than twice round the ring.
pub mod_cases :
    (x room : ℕ)
    → x < room + room
    → ((x < room) × (x % room ≡ x)) ⊎ ((room ≤ x) × (x % room + room ≡ x))
mod_cases x room h = elim (dec_lt x room) [
  | yes p ↦ inl (p, mod-eq_of_lt p)
  | no p ↦ inr (
    omega arith,
    omega (
      arith,
      mod-eq-sub-mod {n = x} {m = room} (omega arith),
      mod-eq_of_lt {n = x - room} {m = room} (omega arith),
    ),
  )
]

module _ {ℓ} {A : Type ℓ} where
  -- The `n` slots from the `k`-th behind `h` on.
  unfoldable pub slots : (ℕ → A) → ℕ → ℕ → ℕ → ℕ → List A
  slots buf room h k zero = []
  slots buf room h k (suc n) = buf ((h + k) % room) ∷ slots buf room h (k + 1) n

  pub length-slots : (buf : ℕ → A) (room h k n : ℕ) → length (slots buf room h k n) ≡ n
  unfolding slots
  length-slots buf room h k zero = refl
  length-slots buf room h k (suc n) = ap suc (length-slots buf room h (k + 1) n)

  -- A write to a place that the slots do not reach leaves them.
  slots-update_ne :
      (buf : ℕ → A) (room h k n m i : ℕ) (x : A)
      → h < room
      → n ≤ m
      → k + m < room
      → i ≡ (h + (k + m)) % room
      → slots (update buf i x) room h k n ≡ slots buf room h k n
  unfolding slots
  slots-update_ne buf room h k zero m i x hh hn hm e = refl
  slots-update_ne buf room h k (suc n) zero i x hh hn hm e = absurd (omega arith)
  slots-update_ne buf room h k (suc n) (suc m) i x hh hn hm e =
      ap₂ ◌∷◌ (update_ne buf i _ x (λ q. mod_ne room h k m hh hm (sym e ∙ q))) (
        slots-update_ne buf room h (k + 1) n m i x hh (omega arith) (omega arith)
          (e ∙ ap (λ (j : ℕ). (h + j) % room) (omega arith)))

  slots-snoc :
      (buf : ℕ → A) (room h k n : ℕ)
      → slots buf room h k (suc n) ≡ slots buf room h k n ++ (buf ((h + (k + n)) % room) ∷ [])
  unfolding slots
  slots-snoc buf room h k zero = ap (λ (j : ℕ). buf ((h + j) % room) ∷ []) (omega arith)
  slots-snoc buf room h k (suc n) =
      ap (λ xs. buf ((h + k) % room) ∷ xs)
        (slots-snoc buf room h (k + 1) n
          ∙ ap (λ (j : ℕ). slots buf room h (k + 1) n ++ (buf ((h + j) % room) ∷ [])) (omega arith))

  -- A write just behind the occupied slots adds its value at the end.
  pub slots-push :
      (buf : ℕ → A) (room h n i : ℕ) (x : A)
      → h < room
      → n < room
      → (h + n) % room ≡ i
      → slots (update buf i x) room h 0 (suc n) ≡ slots buf room h 0 n ++ (x ∷ [])
  slots-push buf room h n i x hh hn place =
      let e : (h + (0 + n)) % room ≡ i = ap (λ (j : ℕ). (h + j) % room) (omega arith) ∙ place in
      slots-snoc (update buf i x) room h 0 n
      ∙ ap₂ (λ xs y. xs ++ (y ∷ []))
          (slots-update_ne buf room h 0 n n i x hh (omega arith) (omega arith) (sym e))
          (rw e (update_self buf i x))

  slots-shift :
      (buf : ℕ → A) (room h k n : ℕ)
      → slots buf room ((h + 1) % room) k n ≡ slots buf room h (k + 1) n
  unfolding slots
  slots-shift buf room h k zero = refl
  slots-shift buf room h k (suc n) =
      ap₂ (λ (j : ℕ) xs. buf j ∷ xs) (rw mod-add-mod (ap (λ (j : ℕ). j % room) (omega arith)))
        (slots-shift buf room h (k + 1) n)

  -- The oldest slot and the others, as the ring stands once its head has moved on.
  pub slots-pop :
      (buf : ℕ → A) (room h n : ℕ)
      → h < room
      → slots buf room h 0 (suc n) ≡ buf h ∷ slots buf room ((h + 1) % room) 0 n
  unfolding slots
  slots-pop buf room h n hh =
      ap₂ (λ (j : ℕ) xs. buf j ∷ xs) (grind arith) (sym (slots-shift buf room h 0 n))
