-- ===== src/VmHooks/BigIntBytes.antt =====
-- The operations of vmhost/vmhooks/bigIntOps.go that turn big integers into bytes and back: `Bytes`
-- and `SetBytes` of math/big are big-endian and leave the sign out.
pub mod Laws
use wasm_vm_v.Prelude.{
  nat_eq, ℕ, zero, suc, ◌+◌, ◌*◌, ◌/◌, ◌%◌, ◌^◌, Option, none, some, List, [], ◌∷◌, ◌++◌, Bytes,
  length, ◌==◌, if◌then◌else◌,
}
use wasm_vm_v.Prelude.Int.{ℤ, pos, negsuc, leb_ℤ}
use wasm_vm_v.Prelude.Division.{abs}
use wasm_vm_v.Overflow.{wrap, mul_uint64}
use wasm_vm_v.Output.{finish}
use wasm_vm_v.Host.{Host, base_cost}
use wasm_vm_v.Metering.Points.{use_gas}
use wasm_vm_v.BigInt.{get_one}
use wasm_vm_v.VmHooks.BigIntOps.{api_cost, with_big_int, set_value}

unfoldable pub add_bytes : ℕ → Bytes → ℕ
add_bytes n [] = n
add_bytes n (b ∷ bs) = add_bytes (n * 256 + b) bs

-- `SetBytes`.
abbrev pub from_bytes : Bytes → ℕ
from_bytes bs = add_bytes 0 bs

-- `Bytes`, without leading zeros; the number is enough fuel for its digits.
unfoldable pub base_256 : ℕ → ℕ → Bytes
base_256 zero n = []
base_256 (suc fuel) n =
    let rest = base_256 fuel (n / 256) in if n == 0 then [] else rest ++ n % 256 ∷ []

unfoldable pub to_bytes : ℤ → Bytes
unfolding base_256
to_bytes a = base_256 (abs a) (abs a)

-- `args[id]`: a negative index or one beyond the end is a panic.
unfoldable pub argument_at : ℕ → List Bytes → Option Bytes
argument_at n [] = none
argument_at zero (arg ∷ args) = some arg
argument_at (suc n) (arg ∷ args) = argument_at n args

abbrev pub argument : ℤ → List Bytes → Option Bytes
argument (pos n) args = argument_at n args
argument (negsuc n) args = none

-- `none` is a panic.
unfoldable pub big_int_get_unsigned_argument : ℤ → ℕ → Host → Option Host
big_int_get_unsigned_argument id destination h =
    let h1 = use_gas (api_cost h).big_int_get_unsigned_argument h in
    let args = h1.runtime.vm_input.arguments in
    if leb_ℤ (wrap (2 ^ 32) (pos (length args))) id then some h1 else elim (argument id args) [
      | none ↦ none
      | some arg ↦
          let (c, old) = get_one destination h1.big_int in
          some (set_value destination (pos (from_bytes arg)) (with_big_int c h1))
    ]

unfoldable pub big_int_unsigned_byte_length : ℕ → Host → Host × ℤ
big_int_unsigned_byte_length reference h =
    let h1 = use_gas (api_cost h).big_int_unsigned_byte_length h in
    let (c, v) = get_one reference h1.big_int in
    (with_big_int c h1, wrap (2 ^ 32) (pos (length (to_bytes v))))

unfoldable pub big_int_finish_unsigned : ℕ → Host → Host
big_int_finish_unsigned reference h =
    let h1 = use_gas (api_cost h).big_int_finish_unsigned h in
    let (c, v) = get_one reference h1.big_int in
    let h2 = with_big_int c h1 in
    let h3 = record h2 { output = finish (to_bytes v) h2.output } in
    use_gas (mul_uint64 (base_cost h3).persist_per_byte (length (to_bytes v))) h3
