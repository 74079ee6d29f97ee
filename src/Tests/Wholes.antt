-- ===== src/Tests/Wholes.antt =====
-- Whole numbers in place of doubles.
use high_performance_gaming.Common.{ℕ, ◌+◌, ◌-◌, ◌*◌, ◌≡◌, Bool, true, false, not, ltb, arith, refl}
use high_performance_gaming.Scheduler.Float.{Float}

-- Whole numbers, with truncated subtraction, meet the laws; -1.0 is any number that `>=` rejects.
pub data Whole : Type 0 where
  below : Whole
  whole : ℕ → Whole

abbrev pub whole_lt : Whole → Whole → Bool
whole_lt below below = false
whole_lt below (whole n) = true
whole_lt (whole m) below = false
whole_lt (whole m) (whole n) = ltb m n

abbrev pub whole_lift : (ℕ → ℕ → ℕ) → Whole → Whole → Whole
whole_lift f below y = below
whole_lift f (whole m) below = below
whole_lift f (whole m) (whole n) = whole (f m n)

abbrev pub whole_ge : Whole → Whole → Bool
whole_ge x y = not (whole_lt x y)

pub whole_lt_irrefl : (x : Whole) → whole_lt x x ≡ false
whole_lt_irrefl below = refl
whole_lt_irrefl (whole n) = ground arith

pub whole_lt_asymm : (x y : Whole) → whole_lt x y ≡ true → whole_lt y x ≡ false
whole_lt_asymm below below h = refl
whole_lt_asymm below (whole n) h = refl
whole_lt_asymm (whole m) below h = absurd (cc h)
whole_lt_asymm (whole m) (whole n) h = ground arith

pub whole_sub_le :
    (x y : Whole) (n : ℕ) → whole_lt x y ≡ false → whole_lt x (whole_lift (◌-◌) y (whole n)) ≡ false
whole_sub_le below below n h = refl
whole_sub_le below (whole m) n h = absurd (cc h)
whole_sub_le (whole k) below n h = refl
whole_sub_le (whole k) (whole m) n h = ground arith

-- `tenth` is 0: a capacity is the floor of 15000 bytes.
abbrev pub wholes : Float
wholes = record {
  Num = Whole;
  of_u32 = whole;
  minus_one = below;
  tenth = whole 0;
  floor_capacity = whole 15000;
  add = whole_lift (◌+◌);
  sub = whole_lift (◌-◌);
  mul = whole_lift (◌*◌);
  bytes_per_second = whole_lift (◌*◌) (whole 125000);
  lt = whole_lt;
  ge = whole_ge;
  lt_irrefl = whole_lt_irrefl;
  lt_asymm = whole_lt_asymm;
  sub_le = whole_sub_le;
  minus_one_negative = refl;
}
