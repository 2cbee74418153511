-- ===== src/VmHooks/BigIntOps.antt =====
-- The arithmetic on big integers of vmhost/vmhooks/bigIntOps.go. A handle is the bit pattern of an
-- int32, an int64 or an int32 that is not a handle is its value.
use Prim.Native.Nat.{bit_and, bit_or, bit_xor}
use wasm_vm_v.Prelude.{
  nat_eq, ℕ, ◌*◌, ◌/◌, ◌^◌, Bool, true, ◌||◌, Option, none, some, List, [], ◌∷◌, ltb, if◌then◌else◌,
}
use wasm_vm_v.Prelude.Map.{insert}
use wasm_vm_v.Prelude.Int.{ℤ, pos, negsuc, ◌+ℤ◌, ◌-ℤ◌, ◌*ℤ◌, pos_part}
use wasm_vm_v.Prelude.Division.{
  abs, neg, sign, cmp, is_negative, is_zero, quo, rem, div, mod_ℤ, bit_len,
}
use wasm_vm_v.Errors.{VmError, div_zero, bitwise_negative, shift_negative}
use wasm_vm_v.Overflow.{mul_uint64, wrap}
use wasm_vm_v.Host.{Host, BigIntContext, BigIntApiCost, base_cost}
use wasm_vm_v.Metering.Points.{use_gas}
use wasm_vm_v.BigInt.{put, get_one, get_two, get_three}
use wasm_vm_v.Fault.{with_fault}

abbrev pub api_cost : Host → BigIntApiCost
api_cost h = h.metering.gas_schedule.big_int_api_cost

abbrev pub with_big_int : BigIntContext → Host → Host
with_big_int c h = record h { big_int = c }

-- The write through the `*big.Int` of a handle.
abbrev pub set_value : ℕ → ℤ → Host → Host
set_value handle v h =
    with_big_int (record h.big_int { values = insert handle v h.big_int.values }) h

abbrev pub max_big_int_byte_len_for_normal_cost : ℕ
max_big_int_byte_len_for_normal_cost = 32

unfoldable pub use_extra_gas_for_operations : List ℤ → Host → Host
use_extra_gas_for_operations [] h = h
use_extra_gas_for_operations (v ∷ values) h =
    let byte_len = bit_len v / 8 in
    use_extra_gas_for_operations values (
      if ltb max_big_int_byte_len_for_normal_cost byte_len
      then use_gas (mul_uint64 byte_len (base_cost h).data_copy_per_byte) h
      else h)

-- `WithFault(err, context, runtime.BigIntAPIErrorShouldFailExecution())`, which is true.
abbrev pub big_int_fault : VmError → Host → Host
big_int_fault err h = (with_fault (some err) true h).0

-- `none` where Put would not end.
unfoldable pub big_int_new : ℤ → Host → Option (Host × ℕ)
big_int_new small_value h =
    let h1 = use_gas (api_cost h).big_int_new h in
    elim (put small_value h1.big_int) [
      | none ↦ none
      | some (c, handle) ↦ some (with_big_int c h1, handle)
    ]

-- `IsInt64`.
abbrev pub fits_int64 : ℤ → Bool
fits_int64 (pos n) = ltb n (2 ^ 63)
fits_int64 (negsuc n) = ltb n (2 ^ 63)

unfoldable pub big_int_is_int64 : ℕ → Host → Host × ℤ
big_int_is_int64 handle h =
    let h1 = use_gas (api_cost h).big_int_is_int64 h in
    let (c, v) = get_one handle h1.big_int in
    (with_big_int c h1, if fits_int64 v then pos 1 else pos 0)

-- `Int64` takes the low 64 bits.
unfoldable pub big_int_get_int64 : ℕ → Host → Host × ℤ
big_int_get_int64 handle h =
    let h1 = use_gas (api_cost h).big_int_get_int64 h in
    let (c, v) = get_one handle h1.big_int in (with_big_int c h1, wrap (2 ^ 64) v)

unfoldable pub big_int_set_int64 : ℕ → ℤ → Host → Host
big_int_set_int64 destination v h =
    let h1 = use_gas (api_cost h).big_int_sub h in
    let (c, dest) = get_one destination h1.big_int in set_value destination v (with_big_int c h1)

unfoldable pub big_int_get_call_value : ℕ → Host → Host
big_int_get_call_value destination h =
    let h1 = use_gas (api_cost h).big_int_get_call_value h in
    let (c, dest) = get_one destination h1.big_int in
    set_value destination h1.runtime.vm_input.call_value (with_big_int c h1)

-- The three operands of a binary operation, and the gas for the long ones among them and the old
-- value of the destination.
unfoldable pub load_three : ℕ → ℕ → ℕ → ℕ → Host → Host × ℤ × ℤ
load_three gas destination op1 op2 h =
    let h1 = use_gas gas h in
    let (c, dest, a, b) = get_three destination op1 op2 h1.big_int in
    (use_extra_gas_for_operations (dest ∷ a ∷ b ∷ []) (with_big_int c h1), a, b)

unfoldable pub big_int_add : ℕ → ℕ → ℕ → Host → Host
big_int_add destination op1 op2 h =
    let (h1, a, b) = load_three (api_cost h).big_int_sub destination op1 op2 h in
    set_value destination (a +ℤ b) h1

unfoldable pub big_int_sub : ℕ → ℕ → ℕ → Host → Host
big_int_sub destination op1 op2 h =
    let (h1, a, b) = load_three (api_cost h).big_int_sub destination op1 op2 h in
    set_value destination (a -ℤ b) h1

unfoldable pub big_int_mul : ℕ → ℕ → ℕ → Host → Host
big_int_mul destination op1 op2 h =
    let (h1, a, b) = load_three (api_cost h).big_int_mul destination op1 op2 h in
    set_value destination (a *ℤ b) h1

-- The guard and the write of the four divisions.
unfoldable pub divide : (ℤ → ℤ → ℤ) → ℕ → ℕ → ℕ → ℕ → Host → Host
divide f gas destination op1 op2 h =
    let (h1, a, b) = load_three gas destination op1 op2 h in
    if is_zero b then big_int_fault div_zero h1 else set_value destination (f a b) h1

unfoldable pub big_int_t_div : ℕ → ℕ → ℕ → Host → Host
big_int_t_div destination op1 op2 h = divide quo (api_cost h).big_int_t_div destination op1 op2 h

unfoldable pub big_int_t_mod : ℕ → ℕ → ℕ → Host → Host
big_int_t_mod destination op1 op2 h = divide rem (api_cost h).big_int_sub destination op1 op2 h

unfoldable pub big_int_e_div : ℕ → ℕ → ℕ → Host → Host
big_int_e_div destination op1 op2 h = divide div (api_cost h).big_int_sub destination op1 op2 h

unfoldable pub big_int_e_mod : ℕ → ℕ → ℕ → Host → Host
big_int_e_mod destination op1 op2 h = divide mod_ℤ (api_cost h).big_int_sub destination op1 op2 h

unfoldable pub load_two : ℕ → ℕ → Host → Host × ℤ
load_two destination op h =
    let h1 = use_gas (api_cost h).big_int_sub h in
    let (c, dest, a) = get_two destination op h1.big_int in
    (use_extra_gas_for_operations (dest ∷ a ∷ []) (with_big_int c h1), a)

unfoldable pub big_int_abs : ℕ → ℕ → Host → Host
big_int_abs destination op h =
    let (h1, a) = load_two destination op h in set_value destination (pos (abs a)) h1

unfoldable pub big_int_neg : ℕ → ℕ → Host → Host
big_int_neg destination op h =
    let (h1, a) = load_two destination op h in set_value destination (neg a) h1

unfoldable pub big_int_not : ℕ → ℕ → Host → Host
big_int_not destination op h =
    let (h1, a) = load_two destination op h in
    if is_negative a
    then big_int_fault bitwise_negative h1
    else set_value destination (neg a -ℤ pos 1) h1

unfoldable pub big_int_sign : ℕ → Host → Host × ℤ
big_int_sign op h =
    let h1 = use_gas (api_cost h).big_int_sign h in
    let (c, a) = get_one op h1.big_int in
    (use_extra_gas_for_operations (a ∷ []) (with_big_int c h1), sign a)

unfoldable pub big_int_cmp : ℕ → ℕ → Host → Host × ℤ
big_int_cmp op1 op2 h =
    let h1 = use_gas (api_cost h).big_int_cmp h in
    let (c, a, b) = get_two op1 op2 h1.big_int in
    (use_extra_gas_for_operations (a ∷ b ∷ []) (with_big_int c h1), cmp a b)

-- And, Or and Xor: the old value of the destination costs nothing here.
unfoldable pub bitwise : (ℕ → ℕ → ℕ) → ℕ → ℕ → ℕ → Host → Host
bitwise f destination op1 op2 h =
    let h1 = use_gas (api_cost h).big_int_sub h in
    let (c, dest, a, b) = get_three destination op1 op2 h1.big_int in
    let h2 = use_extra_gas_for_operations (a ∷ b ∷ []) (with_big_int c h1) in
    if is_negative a || is_negative b
    then big_int_fault bitwise_negative h2
    else set_value destination (pos (f (pos_part a) (pos_part b))) h2

unfoldable pub big_int_and : ℕ → ℕ → ℕ → Host → Host
big_int_and destination op1 op2 h = bitwise bit_and destination op1 op2 h

unfoldable pub big_int_or : ℕ → ℕ → ℕ → Host → Host
big_int_or destination op1 op2 h = bitwise bit_or destination op1 op2 h

unfoldable pub big_int_xor : ℕ → ℕ → ℕ → Host → Host
big_int_xor destination op1 op2 h = bitwise bit_xor destination op1 op2 h

-- The shifts; the gas for a long result is taken after the write.
unfoldable pub shift : (ℕ → ℕ → ℕ) → ℕ → ℕ → ℤ → Host → Host
shift f destination op bits h =
    let h1 = use_gas (api_cost h).big_int_sub h in
    let (c, dest, a) = get_two destination op h1.big_int in
    let h2 = use_extra_gas_for_operations (a ∷ []) (with_big_int c h1) in
    let result = pos (f (pos_part a) (pos_part bits)) in
    if is_negative a || is_negative bits
    then big_int_fault shift_negative h2
    else use_extra_gas_for_operations (result ∷ []) (set_value destination result h2)

unfoldable pub big_int_shr : ℕ → ℕ → ℤ → Host → Host
big_int_shr destination op bits h = shift (λ n bits. n / 2 ^ bits) destination op bits h

unfoldable pub big_int_shl : ℕ → ℕ → ℤ → Host → Host
big_int_shl destination op bits h = shift (λ n bits. n * 2 ^ bits) destination op bits h
