-- ===== src/Scheduler/Float.antt =====
-- The `double` arithmetic that the token bucket rests on, with the laws of IEEE 754 that the proofs
-- use; they hold for NaN as well.
use high_performance_gaming.Common.{ℕ, ◌≡◌, Bool, true, false}

pub record Float : Type 1 where
  pub Num : Type 0
  -- A `uint32_t` as a double, and the constants -1.0, 0.1, 15000.0 and 1e6 / 8.0.
  pub of_u32 : ℕ → Num
  pub minus_one : Num
  pub tenth : Num
  pub floor_capacity : Num
  pub add : Num → Num → Num
  pub sub : Num → Num → Num
  pub mul : Num → Num → Num
  -- `limit.value * 1e6 / 8.0`
  pub bytes_per_second : Num → Num
  -- `<` and `>=`
  pub lt : Num → Num → Bool
  pub ge : Num → Num → Bool
  pub lt_irrefl : (x : Num) → lt x x ≡ false
  pub lt_asymm : (x y : Num) → lt x y ≡ true → lt y x ≡ false
  pub sub_le : (x y : Num) (n : ℕ) → lt x y ≡ false → lt x (sub y (of_u32 n)) ≡ false
  pub minus_one_negative : ge minus_one (of_u32 0) ≡ false
