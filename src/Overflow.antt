-- ===== src/Overflow.antt =====
-- The overflow-checked arithmetic of math/overflow.go. A uint64 is a number below 2 ^ 64, an int64,
-- an int32 or an int (of 64 bits) an integer in its range; Go's wrap-around is written out. The log
-- lines are left out.
pub mod Unsigned
pub mod Signed
use wasm_vm_v.Prelude.{
  ℕ, ◌+◌, ◌-◌, ◌*◌, ◌/◌, ◌%◌, ◌^◌, Bool, true, false, ◌&&◌, ◌||◌, ltb, leb, ◌==◌, if◌then◌else◌,
}
use wasm_vm_v.Prelude.Int.{ℤ, pos, negsuc, ◌+ℤ◌, ◌-ℤ◌, ltb_ℤ}

abbrev pub max_uint64 : ℕ
max_uint64 = 2 ^ 64 - 1

abbrev pub max_int64 : ℕ
max_int64 = 2 ^ 63 - 1

pub data Error : Type 0 where
  err_addition_overflow err_multiplication_overflow : Error

-- Go's `(value, err)`: the value that is returned next to an error can be read too.
pub record Checked (A : Type 0) : Type 0 where
  pub value : A
  pub failed : Bool

unfoldable pub add_uint64_with_err : ℕ → ℕ → Checked ℕ
add_uint64_with_err a b =
    let s = (a + b) % 2 ^ 64 in
    if leb a s && leb b s
    then record { value = s; failed = false }
    else record { value = s; failed = true }

unfoldable pub add_uint64 : ℕ → ℕ → ℕ
unfolding add_uint64_with_err
add_uint64 a b = let r = add_uint64_with_err a b in if r.failed then max_uint64 else r.value

unfoldable pub sub_uint64 : ℕ → ℕ → ℕ
sub_uint64 a b = if ltb a b then 0 else a - b

unfoldable pub mul_uint64_with_err : ℕ → ℕ → Checked ℕ
mul_uint64_with_err a b =
    let res = (a * b) % 2 ^ 64 in
    if (a == 0) || (b == 0) || (a == res / b)
    then record { value = res; failed = false }
    else record { value = 0; failed = true }

unfoldable pub mul_uint64 : ℕ → ℕ → ℕ
unfolding mul_uint64_with_err
mul_uint64 a b = let r = mul_uint64_with_err a b in if r.failed then max_uint64 else r.value

-- The low `w` bits of an integer: what `uint32(x)` and `uint64(x)` keep.
abbrev pub to_bits : ℕ → ℤ → ℕ
to_bits m (pos n) = n % m
to_bits m (negsuc n) = m - 1 - n % m

-- The integer in two's complement that a bit pattern below `m` stands for.
abbrev pub from_bits : ℕ → ℕ → ℤ
from_bits m b = if ltb b (m / 2) then pos b else negsuc (m - 1 - b)

-- The result of signed arithmetic at a width of `m = 2 ^ w` values.
abbrev pub wrap : ℕ → ℤ → ℤ
wrap m x = from_bits m (to_bits m x)

abbrev pub same : Bool → Bool → Bool
same true b = b
same false true = false
same false false = true

unfoldable pub add_int64 : ℤ → ℤ → ℤ
unfolding ◌+ℤ◌
add_int64 a b =
    let res = wrap (2 ^ 64) (a +ℤ b) in
    if same (ltb_ℤ a res) (ltb_ℤ (pos 0) b) then res else pos (2 ^ 63 - 1)

unfoldable pub add_int32_with_error : ℤ → ℤ → Checked ℤ
unfolding ◌+ℤ◌
add_int32_with_error a b =
    let res = wrap (2 ^ 32) (a +ℤ b) in
    if same (ltb_ℤ a res) (ltb_ℤ (pos 0) b)
    then record { value = res; failed = false }
    else record { value = pos 0; failed = true }

unfoldable pub add_int32 : ℤ → ℤ → ℤ
unfolding add_int32_with_error
add_int32 a b = let r = add_int32_with_error a b in if r.failed then pos (2 ^ 31 - 1) else r.value

unfoldable pub sub_int : ℤ → ℤ → ℤ
unfolding ◌-ℤ◌
sub_int a b =
    let res = wrap (2 ^ 64) (a -ℤ b) in
    if same (ltb_ℤ res a) (ltb_ℤ (pos 0) b) then res else negsuc (2 ^ 63 - 1)
