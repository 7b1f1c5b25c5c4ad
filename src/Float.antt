-- ===== src/Float.antt =====
-- The `float` of the sources: an IEEE 754 binary32 value that is read by its sign bit and its
-- other 31 bits, the magnitude. Magnitudes are ordered as the values that they stand for, and
-- 0x7f80_0000 is infinity. Both zeros are equal, and NaN is below, above and equal to nothing.
pub mod Order
pub mod Value
use mbp_t05_child_lock.Base.{ℕ, Bool, true, false, not, ◌&&◌, ltb, leb, ◌==◌}

pub data Float : Type 0 where
  nan : Float
  positive : ℕ → Float
  negative : ℕ → Float

-- `x <= y`
unfoldable pub le : Float → Float → Bool
le nan y = false
le (positive a) nan = false
le (positive a) (positive b) = leb a b
le (positive a) (negative b) = a == 0 && b == 0
le (negative a) nan = false
le (negative a) (positive b) = true
le (negative a) (negative b) = leb b a

-- `x < y`
unfoldable pub lt : Float → Float → Bool
lt nan y = false
lt (positive a) nan = false
lt (positive a) (positive b) = ltb a b
lt (positive a) (negative b) = false
lt (negative a) nan = false
lt (negative a) (positive b) = not (a == 0 && b == 0)
lt (negative a) (negative b) = ltb b a

-- `x >= y` and `x > y`
abbrev pub ge : Float → Float → Bool
ge x y = le y x

abbrev pub gt : Float → Float → Bool
gt x y = lt y x

-- NaN is what is not equal to itself.
abbrev pub is_number : Float → Bool
is_number nan = false
is_number (positive a) = true
is_number (negative a) = true
