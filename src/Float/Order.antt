-- ===== src/Float/Order.antt =====
-- The order of the floats away from NaN, and what comparisons with NaN give.
use mbp_t05_child_lock.Base.{◌≡◌, refl, true, false, not, arith}
use mbp_t05_child_lock.Float.{Float, nan, positive, negative, le, lt, is_number}

pub lt-eq-not-le : (x y : Float) → is_number x ≡ true → is_number y ≡ true → lt x y ≡ not (le y x)
unfolding le lt
lt-eq-not-le x y p q = ground arith

-- Of two numbers, one is over the other just when it is not at most the other.
pub le_of_not_lt :
    (x y : Float) → is_number x ≡ true → is_number y ≡ true → lt y x ≡ false → le x y ≡ true
unfolding le lt
le_of_not_lt x y p q h = ground arith

pub not_le_of_lt : (x y : Float) → lt y x ≡ true → le x y ≡ false
unfolding le lt
not_le_of_lt x y h = ground arith

pub le_trans : (x y z : Float) → le x y ≡ true → le y z ≡ true → le x z ≡ true
unfolding le
le_trans x y z p q = ground arith

pub number_of_le : (x y : Float) → le x y ≡ true → is_number x ≡ true
unfolding le
number_of_le x y p = ground arith

pub le-nan : (x : Float) → le x nan ≡ false
unfolding le
le-nan nan = refl
le-nan (positive a) = refl
le-nan (negative a) = refl

pub lt-nan : (x : Float) → lt x nan ≡ false
unfolding lt
lt-nan nan = refl
lt-nan (positive a) = refl
lt-nan (negative a) = refl
