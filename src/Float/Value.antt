-- ===== src/Float/Value.antt =====
-- The numbers that magnitudes stand for, counted in units of 2 ^ -149, the least positive float, and
-- that magnitudes are ordered as these numbers. Below infinity these are all numbers of the format.
use mbp_t05_child_lock.Base.{
  ℕ, zero, suc, ◌+◌, ◌*◌, ◌/◌, ◌%◌, ◌≤◌, ◌<◌, ◌≡◌, ◌⊎◌, inl, inr, leb, arith,
}
use mbp_t05_child_lock.Float.{positive, negative, le}

unfoldable pub pow2 : ℕ → ℕ
pow2 zero = 1
pow2 (suc k) = 2 * pow2 k

-- The number with this exponent and this fraction. Where the exponent is not 0, the fraction has one
-- more bit, which is not stored.
scaled : ℕ → ℕ → ℕ
scaled zero fraction = fraction
scaled (suc e) fraction = (8388608 + fraction) * pow2 e

-- The upper 8 bits are the exponent, the lower 23 the fraction.
unfoldable pub value : ℕ → ℕ
unfolding scaled pow2
value m = scaled (m / 8388608) (m % 8388608)

pow2_pos : (k : ℕ) → 1 ≤ pow2 k
unfolding pow2
pow2_pos zero = omega arith
pow2_pos (suc k) = omega (arith, pow2_pos k)

pow2_mono : (a b : ℕ) → a ≤ b → pow2 a ≤ pow2 b
unfolding pow2
pow2_mono zero b h = pow2_pos b
pow2_mono (suc a) zero h = absurd (omega arith)
pow2_mono (suc a) (suc b) h = omega (arith, pow2_mono a b (omega arith))

scaled_fraction : (e f f' : ℕ) → f < f' → scaled e f < scaled e f'
unfolding scaled
scaled_fraction zero f f' h = h
scaled_fraction (suc e) f f' h = grind (arith, pow2_pos e)

times_le : (a b p q : ℕ) → a ≤ b → p ≤ q → a * p ≤ b * q
times_le a b p q h k = grind arith

scaled_exponent : (e f e' f' : ℕ) → e < e' → f < 8388608 → scaled e f < scaled e' f'
unfolding scaled pow2
scaled_exponent e f zero f' h k = absurd (omega arith)
scaled_exponent zero f (suc e') f' h k =
    omega (arith, times_le 8388608 (8388608 + f') 1 (pow2 e') (omega arith) (pow2_pos e'))
scaled_exponent (suc e) f (suc e') f' h k = omega (
  arith,
  scaled_fraction (suc e) f 8388608 k,
  pow2_mono (suc e) e' (omega arith),
  times_le 8388608 (8388608 + f') (pow2 e') (pow2 e') (omega arith) (omega arith),
)

upper_or_lower :
    (a b : ℕ)
    → a < b
    → (a / 8388608 < b / 8388608) ⊎ ((a / 8388608 ≡ b / 8388608) × (a % 8388608 < b % 8388608))
upper_or_lower a b h = ground arith

value_lt : (a b : ℕ) → a < b → value a < value b
unfolding value
value_lt a b h = elim (upper_or_lower a b h) [
  | inl upper ↦
      scaled_exponent (a / 8388608) (a % 8388608) (b / 8388608) (b % 8388608) upper (omega arith)
  | inr (same, lower) ↦ rw same (scaled_fraction (b / 8388608) (a % 8388608) (b % 8388608) lower)
]

-- The comparison of the code is that of the numbers.
pub le-value : (a b : ℕ) → le (positive a) (positive b) ≡ leb (value a) (value b)
unfolding le
le-value a b = ground (arith, value_lt a b, value_lt b a)

pub le-value_negative : (a b : ℕ) → le (negative a) (negative b) ≡ leb (value b) (value a)
unfolding le
le-value_negative a b = ground (arith, value_lt a b, value_lt b a)
