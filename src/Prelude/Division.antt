-- ===== src/Prelude/Division.antt =====
-- The integer arithmetic of Go's math/big that the contracts use: sign, truncated and Euclidean
-- division, and the length in bits.
use Prim.Native.Nat.{ℕ, zero, suc, ◌+◌, ◌/◌, ◌%◌, ◌<◌}
use native.Mathlib.Nat.{div-add-mod', mod-lt}
use native.Mathlib.Omega.{arith}
use mathlib.Core.Path.{◌≡◌}
use mathlib.Core.Logic.{◌≢◌}
use mathlib.Core.Bool.{Bool, true, false}
use wasm_vm_v.Prelude.Tests.{ltb, ◌==◌, if◌then◌else◌}
use wasm_vm_v.Prelude.Int.{ℤ, pos, negsuc, pos_part, neg_part, sub_ℕ, ◌+ℤ◌, ◌-ℤ◌, ◌*ℤ◌}

-- |a|.
abbrev pub abs : ℤ → ℕ
abs a = pos_part a + neg_part a

abbrev pub neg : ℤ → ℤ
neg a = sub_ℕ (neg_part a) (pos_part a)

abbrev pub is_negative : ℤ → Bool
is_negative (pos n) = false
is_negative (negsuc n) = true

abbrev pub is_zero : ℤ → Bool
is_zero (pos n) = n == 0
is_zero (negsuc n) = false

-- `Sign`: -1, 0 or 1.
abbrev pub sign : ℤ → ℤ
sign (pos zero) = pos 0
sign (pos (suc n)) = pos 1
sign (negsuc n) = negsuc 0

-- `Cmp`.
abbrev pub cmp : ℤ → ℤ → ℤ
cmp a b =
    if ltb (pos_part a + neg_part b) (pos_part b + neg_part a)
    then negsuc 0
    else (if ltb (pos_part b + neg_part a) (pos_part a + neg_part b) then pos 1 else pos 0)

-- `Quo` rounds towards 0 and `Rem` has the sign of the dividend.
unfoldable pub quo : ℤ → ℤ → ℤ
quo (pos n) (pos m) = pos (n / m)
quo (pos n) (negsuc m) = neg (pos (n / suc m))
quo (negsuc n) (pos m) = neg (pos (suc n / m))
quo (negsuc n) (negsuc m) = pos (suc n / suc m)

unfoldable pub rem : ℤ → ℤ → ℤ
rem (pos n) b = pos (n % abs b)
rem (negsuc n) b = neg (pos (suc n % abs b))

-- `Div` and `Mod`: the quotient that leaves a remainder from 0 below |b|.
unfoldable pub div : ℤ → ℤ → ℤ
div a b =
    if is_negative (rem a b)
    then (if is_negative b then quo a b +ℤ pos 1 else quo a b -ℤ pos 1)
    else quo a b

unfoldable pub mod_ℤ : ℤ → ℤ → ℤ
mod_ℤ a b = if is_negative (rem a b) then rem a b +ℤ pos (abs b) else rem a b

-- `BitLen` of |a|, on fuel.
unfoldable pub digits : ℕ → ℕ → ℕ
digits zero n = 0
digits (suc fuel) n = let rest = digits fuel (n / 2) in if n == 0 then 0 else suc rest

unfoldable pub bit_len : ℤ → ℕ
unfolding digits
bit_len a = digits (abs a) (abs a)

-- The truncated remainder is not of the sign opposite to that of the dividend.
pub rem_sign : (a b : ℤ) → (if is_negative a then pos_part (rem a b) else neg_part (rem a b)) ≡ 0
unfolding rem
rem_sign (pos n) b = ground arith
rem_sign (negsuc n) b = ground arith

pub quo-rem : (a b : ℤ) → b ≢ pos 0 → quo a b *ℤ b +ℤ rem a b ≡ a
unfolding quo rem ◌+ℤ◌ ◌*ℤ◌
quo-rem (pos n) (pos m) ne = ground (arith, div-add-mod' n m)
quo-rem (pos n) (negsuc m) ne = ground (arith, div-add-mod' n (suc m))
quo-rem (negsuc n) (pos m) ne = ground (arith, div-add-mod' (suc n) m)
quo-rem (negsuc n) (negsuc m) ne = ground (arith, div-add-mod' (suc n) (suc m))

pub rem-lt : (a b : ℤ) → b ≢ pos 0 → abs (rem a b) < abs b
unfolding rem
rem-lt (pos n) (pos zero) ne = ground arith
rem-lt (pos n) (pos (suc m)) ne = ground (arith, mod-lt n {m = suc m} (omega arith))
rem-lt (pos n) (negsuc m) ne = ground (arith, mod-lt n {m = suc m} (omega arith))
rem-lt (negsuc n) (pos zero) ne = ground arith
rem-lt (negsuc n) (pos (suc m)) ne = ground (arith, mod-lt (suc n) {m = suc m} (omega arith))
rem-lt (negsuc n) (negsuc m) ne = ground (arith, mod-lt (suc n) {m = suc m} (omega arith))

pub mod-range : (a b : ℤ) → b ≢ pos 0 → (neg_part (mod_ℤ a b) ≡ 0) × (pos_part (mod_ℤ a b) < abs b)
unfolding mod_ℤ ◌+ℤ◌
mod-range a b ne = ground (arith, rem-lt a b)

mul_suc : (q b : ℤ) → (q +ℤ pos 1) *ℤ b ≡ q *ℤ b +ℤ b
unfolding ◌+ℤ◌ ◌*ℤ◌
mul_suc (pos n) (pos m) = let e : pos n +ℤ pos 1 ≡ pos (suc n) = ground arith in rw e (ground arith)
mul_suc (pos n) (negsuc m) =
    let e : pos n +ℤ pos 1 ≡ pos (suc n) = ground arith in rw e (ground arith)
mul_suc (negsuc zero) (pos m) = ground arith
mul_suc (negsuc zero) (negsuc m) = ground arith
mul_suc (negsuc (suc n)) (pos m) =
    let e : negsuc (suc n) +ℤ pos 1 ≡ negsuc n = ground arith in rw e (ground arith)
mul_suc (negsuc (suc n)) (negsuc m) =
    let e : negsuc (suc n) +ℤ pos 1 ≡ negsuc n = ground arith in rw e (ground arith)

mul_pred : (q b : ℤ) → (q -ℤ pos 1) *ℤ b ≡ q *ℤ b -ℤ b
unfolding ◌-ℤ◌ ◌*ℤ◌
mul_pred (pos zero) (pos m) = ground arith
mul_pred (pos zero) (negsuc m) = ground arith
mul_pred (pos (suc n)) (pos m) =
    let e : pos (suc n) -ℤ pos 1 ≡ pos n = ground arith in rw e (ground arith)
mul_pred (pos (suc n)) (negsuc m) =
    let e : pos (suc n) -ℤ pos 1 ≡ pos n = ground arith in rw e (ground arith)
mul_pred (negsuc n) (pos m) =
    let e : negsuc n -ℤ pos 1 ≡ negsuc (suc n) = ground arith in rw e (ground arith)
mul_pred (negsuc n) (negsuc m) =
    let e : negsuc n -ℤ pos 1 ≡ negsuc (suc n) = ground arith in rw e (ground arith)

regroup_negative : (p r b : ℤ) → is_negative b ≡ true → p +ℤ b +ℤ (r +ℤ pos (abs b)) ≡ p +ℤ r
unfolding ◌+ℤ◌
regroup_negative p r b neg_b = ground arith

regroup_positive : (p r b : ℤ) → is_negative b ≡ false → p -ℤ b +ℤ (r +ℤ pos (abs b)) ≡ p +ℤ r
unfolding ◌+ℤ◌ ◌-ℤ◌
regroup_positive p r b pos_b = ground arith

-- The Euclidean quotient and remainder give the dividend back, like the truncated ones.
pub div-mod : (a b : ℤ) → b ≢ pos 0 → div a b *ℤ b +ℤ mod_ℤ a b ≡ a
unfolding div mod_ℤ
div-mod a b ne = ground (
  arith,
  quo-rem a b,
  mul_suc (quo a b) b,
  mul_pred (quo a b) b,
  regroup_negative (quo a b *ℤ b) (rem a b) b,
  regroup_positive (quo a b *ℤ b) (rem a b) b,
)
