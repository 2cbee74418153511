-- ===== src/Overflow/Unsigned.antt =====
-- The uint64 operations of math/overflow.go saturate.
use native.Mathlib.Nat.{mod-eq_of_lt, mul-zero}
use wasm_vm_v.Prelude.{ℕ, zero, suc, ◌+◌, ◌-◌, ◌*◌, ◌/◌, ◌%◌, ◌^◌, ◌<◌, min, ◌≡◌, arith}
use wasm_vm_v.Overflow.{max_uint64, add_uint64, sub_uint64, mul_uint64}

-- The sum of two uint64 values, cut off at the largest one.
pub add_uint64_lem : (a b : ℕ) → a < 2 ^ 64 → b < 2 ^ 64 → add_uint64 a b ≡ min (a + b) max_uint64
unfolding add_uint64
add_uint64_lem a b ha hb = ground arith

-- The difference of two uint64 values, cut off at 0.
pub sub_uint64_lem : (a b : ℕ) → sub_uint64 a b ≡ a - b
unfolding sub_uint64
sub_uint64_lem a b = ground arith

-- A sum that fits is not cut off.
pub add_uint64_exact : (a b : ℕ) → a + b < 2 ^ 64 → add_uint64 a b ≡ a + b
add_uint64_exact a b lt = omega (arith, add_uint64_lem a b)

pub add_uint64-lt : (a b : ℕ) → add_uint64 a b < 2 ^ 64
unfolding add_uint64
add_uint64-lt a b = ground arith

-- Dividing the wrapped product by a factor gives the other factor only if nothing was cut off.
quotient-eq :
    (a b : ℕ) → a < 2 ^ 64 → b < 2 ^ 64 → 0 < b → a ≡ ((a * b) % 2 ^ 64) / b → a * b < 2 ^ 64
quotient-eq a b ha hb p h = grind arith

quotient_of_lt : (a b : ℕ) → 0 < b → a * b < 2 ^ 64 → ((a * b) % 2 ^ 64) / b ≡ a
quotient_of_lt a b p h = rw (mod-eq_of_lt h) (grind arith)

-- The product of two uint64 values, cut off at the largest one.
pub mul_uint64_lem : (a b : ℕ) → a < 2 ^ 64 → b < 2 ^ 64 → mul_uint64 a b ≡ min (a * b) max_uint64
unfolding mul_uint64
mul_uint64_lem a b ha hb = ground (arith, quotient-eq a b, quotient_of_lt a b)

-- A product that fits is not cut off, whatever the factors.
pub mul_uint64_exact : (a b : ℕ) → a * b < 2 ^ 64 → mul_uint64 a b ≡ a * b
unfolding mul_uint64
mul_uint64_exact a zero lt = ground (arith, mul-zero a)
mul_uint64_exact a (suc b) lt = ground (arith, quotient_of_lt a (suc b), mod-eq_of_lt lt)
