-- ===== src/Overflow/Signed.antt =====
-- The signed operations of math/overflow.go detect every overflow.
use wasm_vm_v.Prelude.{ℕ, ◌-◌, ◌^◌, ◌≡◌, Bool, ◌&&◌, arith, if◌then◌else◌}
use wasm_vm_v.Prelude.Int.{ℤ, pos, negsuc, ◌+ℤ◌, ◌-ℤ◌, ◌≤ℤ◌, leb_ℤ}
use wasm_vm_v.Overflow.{add_int64, add_int32, sub_int}

-- The values of a signed type with `2 * h` values.
abbrev pub InRange : ℕ → ℤ → Type 0
InRange h x = (negsuc (h - 1) ≤ℤ x) × (x ≤ℤ pos (h - 1))

abbrev pub in_range : ℕ → ℤ → Bool
in_range h x = leb_ℤ (negsuc (h - 1)) x && leb_ℤ x (pos (h - 1))

-- The sum of two int32 values, or the largest int32 where the sum is none, on either side.
pub add_int32_lem :
    (a b : ℤ)
    → InRange (2 ^ 31) a
    → InRange (2 ^ 31) b
    → add_int32 a b ≡ (if in_range (2 ^ 31) (a +ℤ b) then a +ℤ b else pos (2 ^ 31 - 1))
unfolding add_int32 ◌+ℤ◌
add_int32_lem (pos a) (pos b) ha hb = ground arith
add_int32_lem (pos a) (negsuc b) ha hb = ground arith
add_int32_lem (negsuc a) (pos b) ha hb = ground arith
add_int32_lem (negsuc a) (negsuc b) ha hb = ground arith

-- The sum of two int64 values, or the largest int64 where the sum is none, on either side.
pub add_int64_lem :
    (a b : ℤ)
    → InRange (2 ^ 63) a
    → InRange (2 ^ 63) b
    → add_int64 a b ≡ (if in_range (2 ^ 63) (a +ℤ b) then a +ℤ b else pos (2 ^ 63 - 1))
unfolding add_int64 ◌+ℤ◌
add_int64_lem (pos a) (pos b) ha hb = ground arith
add_int64_lem (pos a) (negsuc b) ha hb = ground arith
add_int64_lem (negsuc a) (pos b) ha hb = ground arith
add_int64_lem (negsuc a) (negsuc b) ha hb = ground arith

-- The difference of two ints, or the smallest int where the difference is none, on either side.
pub sub_int_lem :
    (a b : ℤ)
    → InRange (2 ^ 63) a
    → InRange (2 ^ 63) b
    → sub_int a b ≡ (if in_range (2 ^ 63) (a -ℤ b) then a -ℤ b else negsuc (2 ^ 63 - 1))
unfolding sub_int ◌-ℤ◌
sub_int_lem (pos a) (pos b) ha hb = ground arith
sub_int_lem (pos a) (negsuc b) ha hb = ground arith
sub_int_lem (negsuc a) (pos b) ha hb = ground arith
sub_int_lem (negsuc a) (negsuc b) ha hb = ground arith
