-- ===== src/VmHooks/Shifts.antt =====
-- Shifting big integers: to the left and back gives the value again.
use native.Mathlib.Nat.{mul-div_cancel, one-le-pow}
use wasm_vm_v.Prelude.{nat_eq, ℕ, ◌*◌, ◌/◌, ◌^◌, ◌≡◌, [], ◌∷◌, arith, if◌then◌else◌, ◌==◌}
use wasm_vm_v.Prelude.Int.{pos, pos_part}
use wasm_vm_v.Host.{Host}
use wasm_vm_v.Metering.Points.{use_gas}
use wasm_vm_v.BigInt.{get_two}
use wasm_vm_v.BigInt.Handles.{value_of, value_of-put_entry, get_two_lem}
use wasm_vm_v.VmHooks.BigIntOps.{
  api_cost, shift, big_int_shl, big_int_shr, use_extra_gas_for_operations, with_big_int, set_value,
}
use wasm_vm_v.VmHooks.Faults.{OnlyPoints-use_gas, OnlyPoints-extra}

shift_lem :
    (f : ℕ → ℕ → ℕ) (d x bits j n : ℕ) (h : Host)
    → value_of x h.big_int ≡ pos n
    → value_of j (shift f d x (pos bits) h).big_int
      ≡ (if d == j then pos (f n bits) else value_of j h.big_int)
unfolding shift
shift_lem f d x bits j n h e =
    let gas = (api_cost h).big_int_sub in
    let h1 = use_gas gas h in
    let (c, dest, a) = get_two d x h1.big_int in
    let h2 = use_extra_gas_for_operations (a ∷ []) (with_big_int c h1) in
    let result = pos (f (pos_part a) bits) in
    let p = (OnlyPoints-use_gas gas h).same in
    let m = get_two_lem d x j h1.big_int in
    let is : a ≡ pos n = ground (arith, p, m) in
    let q = (OnlyPoints-extra (a ∷ []) (with_big_int c h1)).same in
    let r = (OnlyPoints-extra (result ∷ []) (set_value d result h2)).same in
    ground (arith, is, p, m, q, r, value_of-put_entry d j result h2.big_int)

-- Shifting the value of a handle, if it is not negative, to the left and then the result to the
-- right by the same number of bits gives that value again, under whatever handles the results are
-- kept.
pub big_int_shr-big_int_shl :
    (d r x bits n : ℕ) (h : Host)
    → value_of x h.big_int ≡ pos n
    → value_of r (big_int_shr r d (pos bits) (big_int_shl d x (pos bits) h)).big_int ≡ pos n
unfolding big_int_shl big_int_shr
big_int_shr-big_int_shl d r x bits n h e =
    let left = shift (λ n bits. n * 2 ^ bits) d x (pos bits) h in
    let on_d : value_of d left.big_int ≡ pos (n * 2 ^ bits) =
      ground (arith, shift_lem (λ n bits. n * 2 ^ bits) d x bits d n h e) in
    let back : n * 2 ^ bits / 2 ^ bits ≡ n = mul-div_cancel n (one-le-pow bits 2 (omega arith)) in
    ground (arith, back, shift_lem (λ n bits. n / 2 ^ bits) r d bits r (n * 2 ^ bits) left on_d)
