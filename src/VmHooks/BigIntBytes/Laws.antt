-- ===== src/VmHooks/BigIntBytes/Laws.antt =====
-- Numbers survive the way through bytes.
use wasm_vm_v.Prelude.{
  nat_eq, ℕ, zero, suc, ◌+◌, ◌*◌, ◌/◌, ◌%◌, ◌^◌, ◌≤◌, ◌<◌, ◌≡◌, refl, some, List, [], ◌∷◌, ◌++◌,
  Bytes, length, arith, ◌==◌, if◌then◌else◌,
}
use wasm_vm_v.Prelude.Int.{ℤ, pos}
use wasm_vm_v.Prelude.Division.{abs}
use wasm_vm_v.Overflow.{mul_uint64}
use wasm_vm_v.Output.{finish}
use wasm_vm_v.Host.{Host, base_cost}
use wasm_vm_v.Metering.Points.{use_gas}
use wasm_vm_v.BigInt.{get_one}
use wasm_vm_v.BigInt.Handles.{value_of, value_of-put_entry, get_one_lem}
use wasm_vm_v.VmHooks.BigIntOps.{api_cost, with_big_int, set_value}
use wasm_vm_v.VmHooks.Faults.{OnlyPoints-use_gas}
use wasm_vm_v.VmHooks.BigIntBytes.{
  add_bytes, from_bytes, base_256, to_bytes, argument_at, big_int_get_unsigned_argument,
  big_int_finish_unsigned,
}

add_bytes-append : (n b : ℕ) (bs : Bytes) → add_bytes n (bs ++ b ∷ []) ≡ add_bytes n bs * 256 + b
unfolding add_bytes
add_bytes-append n b [] = refl
add_bytes-append n b (c ∷ bs) = add_bytes-append (n * 256 + c) b bs

from_bytes-base_256 : (fuel n : ℕ) → n ≤ fuel → from_bytes (base_256 fuel n) ≡ n
unfolding base_256 add_bytes
from_bytes-base_256 zero n enough = omega arith
from_bytes-base_256 (suc fuel) n enough = ground (
  arith,
  add_bytes-append 0 (n % 256) (base_256 fuel (n / 256)),
  from_bytes-base_256 fuel (n / 256),
)

-- Reading the bytes of a number gives its absolute value.
pub from_bytes-to_bytes : (a : ℤ) → from_bytes (to_bytes a) ≡ abs a
unfolding to_bytes
from_bytes-to_bytes a = from_bytes-base_256 (abs a) (abs a) (omega arith)

-- Finishing with a handle appends one item to the return data, whose bytes are the absolute value of
-- the handle in big-endian order; no value of a handle changes.
pub big_int_finish_unsigned_lem :
    (x j : ℕ) (h : Host)
    → let h' = big_int_finish_unsigned x h in
      (out : Bytes) × (h'.output.output_state.return_data
        ≡ h.output.output_state.return_data ++ out ∷ [])
      × (from_bytes out ≡ abs (value_of x h.big_int))
      × (value_of j h'.big_int ≡ value_of j h.big_int)
unfolding big_int_finish_unsigned finish
big_int_finish_unsigned_lem x j h =
    let h1 = use_gas (api_cost h).big_int_finish_unsigned h in
    let (c, v) = get_one x h1.big_int in
    let h2 = with_big_int c h1 in
    let h3 = record h2 { output = finish (to_bytes v) h2.output } in
    let p = (OnlyPoints-use_gas (api_cost h).big_int_finish_unsigned h).same in
    let q =
      (OnlyPoints-use_gas (mul_uint64 (base_cost h3).persist_per_byte (length (to_bytes v)))
        h3).same in
    let m = get_one_lem x j h1.big_int in
    (
      to_bytes v,
      ground (arith, p, q),
      ground (arith, p, m, from_bytes-to_bytes v),
      ground (arith, p, q, m),
    )

argument_at-lt :
    (n : ℕ) (args : List Bytes) (arg : Bytes) → argument_at n args ≡ some arg → n < length args
unfolding argument_at
argument_at-lt n [] arg e = ground arith
argument_at-lt zero (a ∷ args) arg e = ground arith
argument_at-lt (suc n) (a ∷ args) arg e = ground (arith, argument_at-lt n args arg)

-- Getting an argument that the call has, with fewer than 2 ^ 31 arguments, writes the number that
-- its bytes stand for in big-endian order to the destination and changes no other handle.
pub big_int_get_unsigned_argument_lem :
    (n d j : ℕ) (h : Host) (arg : Bytes)
    → argument_at n h.runtime.vm_input.arguments ≡ some arg
    → length h.runtime.vm_input.arguments < 2 ^ 31
    → (h' : Host) × (big_int_get_unsigned_argument (pos n) d h ≡ some h')
      × (value_of j h'.big_int ≡ (if d == j then pos (from_bytes arg) else value_of j h.big_int))
unfolding big_int_get_unsigned_argument
big_int_get_unsigned_argument_lem n d j h arg here few =
    let h1 = use_gas (api_cost h).big_int_get_unsigned_argument h in
    let (c, old) = get_one d h1.big_int in
    let p = (OnlyPoints-use_gas (api_cost h).big_int_get_unsigned_argument h).same in
    let same : h1.runtime.vm_input.arguments ≡ h.runtime.vm_input.arguments = ground (arith, p) in
    let lt = argument_at-lt n h.runtime.vm_input.arguments arg here in
    (
      set_value d (pos (from_bytes arg)) (with_big_int c h1),
      ground (arith, same, lt, here, few),
      ground
          (arith, p, get_one_lem d j h1.big_int, value_of-put_entry d j (pos (from_bytes arg)) c),
    )
