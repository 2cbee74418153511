-- ===== src/VmHooks/Arithmetic.antt =====
-- The big integer operations compute what their names say, on the values of the handles; a handle
-- other than the destination keeps its value.
use wasm_vm_v.Prelude.{nat_eq, ℕ, ◌^◌, ◌<◌, ◌≡◌, ◌≢◌, false, arith, if◌then◌else◌, ◌==◌}
use wasm_vm_v.Prelude.Map.{insert}
use wasm_vm_v.Prelude.Int.{ℤ, pos, pos_part, neg_part, ◌+ℤ◌, ◌-ℤ◌, ◌*ℤ◌}
use wasm_vm_v.Prelude.Division.{
  abs, is_zero, quo, rem, div, mod_ℤ, quo-rem, rem-lt, rem_sign, is_negative, div-mod, mod-range,
}
use wasm_vm_v.Host.{Host}
use wasm_vm_v.Metering.Points.{use_gas}
use wasm_vm_v.Overflow.Signed.{InRange}
use wasm_vm_v.BigInt.{get_one}
use wasm_vm_v.BigInt.Handles.{value_of, value_of-put_entry, get_one_lem}
use wasm_vm_v.VmHooks.BigIntOps.{
  api_cost, load_three, divide, big_int_add, big_int_sub, big_int_mul, big_int_t_div, big_int_t_mod,
  big_int_e_div, big_int_e_mod, big_int_set_int64, big_int_is_int64, big_int_get_int64,
}
use wasm_vm_v.VmHooks.Faults.{load_three_lem}

-- Adding, subtracting and multiplying write the sum, the difference and the product of the values of
-- the two operands to the destination, which may be one of the operands, and leave the other values.
pub big_int_arithmetic :
    (d x y j : ℕ) (h : Host)
    → let a = value_of x h.big_int in
      let b = value_of y h.big_int in
      let old = value_of j h.big_int in
      (value_of j (big_int_add d x y h).big_int ≡ (if d == j then a +ℤ b else old))
      × (value_of j (big_int_sub d x y h).big_int ≡ (if d == j then a -ℤ b else old))
      × (value_of j (big_int_mul d x y h).big_int ≡ (if d == j then a *ℤ b else old))
unfolding big_int_add big_int_sub big_int_mul
big_int_arithmetic d x y j h =
    let s = load_three (api_cost h).big_int_sub d x y h in
    let m = load_three (api_cost h).big_int_mul d x y h in
    ground (
      arith,
      load_three_lem (api_cost h).big_int_sub d x y j h,
      load_three_lem (api_cost h).big_int_mul d x y j h,
      value_of-put_entry d j (s.1 +ℤ s.2) s.0.big_int,
      value_of-put_entry d j (s.1 -ℤ s.2) s.0.big_int,
      value_of-put_entry d j (m.1 *ℤ m.2) m.0.big_int,
    )

divide_lem :
    (f : ℤ → ℤ → ℤ) (gas d x y j : ℕ) (h : Host)
    → value_of y h.big_int ≢ pos 0
    → value_of j (divide f gas d x y h).big_int
      ≡ (if d == j then f (value_of x h.big_int) (value_of y h.big_int) else value_of j h.big_int)
unfolding divide
divide_lem f gas d x y j h ne =
    let (h1, a, b) = load_three gas d x y h in
    let m = load_three_lem gas d x y j h in
    let is : is_zero b ≡ false = ground (arith, m) in
    ground (arith, m, is, value_of-put_entry d j (f a b) h1.big_int)

-- Dividing and then taking the remainder, both truncated, of the same two handles, where the divisor
-- is not 0: quotient times divisor plus remainder is the dividend, and the remainder is smaller than
-- the divisor in absolute value and has not the sign opposite to that of the dividend. The quotient
-- is not written over an operand, nor the remainder over the quotient.
pub big_int_t_mod-big_int_t_div :
    (q r x y : ℕ) (h : Host)
    → value_of y h.big_int ≢ pos 0
    → q ≢ x
    → q ≢ y
    → r ≢ q
    → let c = (big_int_t_mod r x y (big_int_t_div q x y h)).big_int in
      (value_of q c *ℤ value_of y h.big_int +ℤ value_of r c ≡ value_of x h.big_int)
      × (abs (value_of r c) < abs (value_of y h.big_int))
      × ((if is_negative (value_of x h.big_int)
            then pos_part (value_of r c)
            else neg_part (value_of r c))
          ≡ 0)
unfolding big_int_t_div big_int_t_mod
big_int_t_mod-big_int_t_div q r x y h ne qx qy rq =
    let a = value_of x h.big_int in
    let b = value_of y h.big_int in
    let h1 = divide quo (api_cost h).big_int_t_div q x y h in
    let gas = (api_cost h1).big_int_sub in
    let on_x : value_of x h1.big_int ≡ a =
      ground (arith, divide_lem quo (api_cost h).big_int_t_div q x y x h ne) in
    let on_y : value_of y h1.big_int ≡ b =
      ground (arith, divide_lem quo (api_cost h).big_int_t_div q x y y h ne) in
    let on_q : value_of q h1.big_int ≡ quo a b =
      ground (arith, divide_lem quo (api_cost h).big_int_t_div q x y q h ne) in
    let ne1 : value_of y h1.big_int ≢ pos 0 = ground (arith, on_y) in
    let rem_q : value_of q (divide rem gas r x y h1).big_int ≡ quo a b =
      ground (arith, on_q, divide_lem rem gas r x y q h1 ne1) in
    let rem_r : value_of r (divide rem gas r x y h1).big_int ≡ rem a b =
      ground (arith, on_x, on_y, divide_lem rem gas r x y r h1 ne1) in
    ground (arith, rem_q, rem_r, quo-rem a b ne, rem-lt a b ne, rem_sign a b)

-- Euclidean division and remainder of the same two handles, where the divisor is not 0: quotient
-- times divisor plus remainder is the dividend, and the remainder is not negative and smaller than
-- the absolute value of the divisor. The quotient is not written over an operand, nor the remainder
-- over the quotient.
pub big_int_e_mod-big_int_e_div :
    (q r x y : ℕ) (h : Host)
    → value_of y h.big_int ≢ pos 0
    → q ≢ x
    → q ≢ y
    → r ≢ q
    → let c = (big_int_e_mod r x y (big_int_e_div q x y h)).big_int in
      (value_of q c *ℤ value_of y h.big_int +ℤ value_of r c ≡ value_of x h.big_int)
      × (neg_part (value_of r c) ≡ 0)
      × (pos_part (value_of r c) < abs (value_of y h.big_int))
unfolding big_int_e_div big_int_e_mod
big_int_e_mod-big_int_e_div q r x y h ne qx qy rq =
    let a = value_of x h.big_int in
    let b = value_of y h.big_int in
    let h1 = divide div (api_cost h).big_int_sub q x y h in
    let gas = (api_cost h1).big_int_sub in
    let on_x : value_of x h1.big_int ≡ a =
      ground (arith, divide_lem div (api_cost h).big_int_sub q x y x h ne) in
    let on_y : value_of y h1.big_int ≡ b =
      ground (arith, divide_lem div (api_cost h).big_int_sub q x y y h ne) in
    let on_q : value_of q h1.big_int ≡ div a b =
      ground (arith, divide_lem div (api_cost h).big_int_sub q x y q h ne) in
    let ne1 : value_of y h1.big_int ≢ pos 0 = ground (arith, on_y) in
    let mod_q : value_of q (divide mod_ℤ gas r x y h1).big_int ≡ div a b =
      ground (arith, on_q, divide_lem mod_ℤ gas r x y q h1 ne1) in
    let mod_r : value_of r (divide mod_ℤ gas r x y h1).big_int ≡ mod_ℤ a b =
      ground (arith, on_x, on_y, divide_lem mod_ℤ gas r x y r h1 ne1) in
    ground (arith, mod_q, mod_r, div-mod a b ne, mod-range a b ne)

-- An int64 that was written to a handle is recognised as one there and read back unchanged.
pub big_int_get_int64-big_int_set_int64 :
    (d : ℕ) (v : ℤ) (h : Host)
    → InRange (2 ^ 63) v
    → let h1 = big_int_set_int64 d v h in
      ((big_int_is_int64 d h1).1 ≡ pos 1) × ((big_int_get_int64 d h1).1 ≡ v)
unfolding big_int_set_int64 big_int_is_int64 big_int_get_int64 use_gas
big_int_get_int64-big_int_set_int64 d v h fits =
    let c = (get_one d h.big_int).0 in
    let c' = record c { values = insert d v c.values } in
    ground (arith, value_of-put_entry d d v c, get_one_lem d d c')
