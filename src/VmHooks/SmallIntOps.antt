-- ===== src/VmHooks/SmallIntOps.antt =====
-- The operations of vmhost/vmhooks/smallIntOps.go on 64-bit integers: arguments, results and values
-- of the storage. The two's complement of the package twos is a parameter of the signed operations.
use wasm_vm_v.Prelude.{◌^◌, ltb, none, some, Bytes, if◌then◌else◌}
use wasm_vm_v.Prelude.Int.{ℤ, pos}
use wasm_vm_v.Errors.{VmError, arg_index_out_of_range, arg_out_of_range, storage_value_out_of_range}
use wasm_vm_v.Overflow.{from_bits, to_bits}
use wasm_vm_v.Output as O
use wasm_vm_v.Host.{Host}
use wasm_vm_v.Hook.{BlockchainHook}
use wasm_vm_v.Metering.Points.{use_gas}
use wasm_vm_v.Storage.{set_storage, get_storage}
use wasm_vm_v.VmHooks.BigIntBytes.{to_bytes, from_bytes}
use wasm_vm_v.VmHooks.BigIntOps.{fits_int64}
use wasm_vm_v.VmHooks.BaseOps.{
  ops_cost, minus_one, argument_of, with_loaded, finish_with, status_number,
}

-- ToBytes and SetBytes of twos.
pub record Twos : Type 0 where
  pub to_bytes : ℤ → Bytes
  pub set_bytes : Bytes → ℤ

-- An error fails the execution, and the result is 0.
abbrev pub fail_with : VmError → Host → Host × ℤ
fail_with err h = finish_with (some err) (pos 0) (pos 0) h

-- `int64(value.Uint64())`, if `value.IsUint64()`.
abbrev pub unsigned_result : VmError → Bytes → Host → Host × ℤ
unsigned_result err bytes h =
    let value = from_bytes bytes in
    if ltb value (2 ^ 64) then (h, from_bits (2 ^ 64) value) else fail_with err h

-- `big.NewInt(0).SetUint64(uint64(value)).Bytes()`.
abbrev pub unsigned_bytes : ℤ → Bytes
unsigned_bytes value = to_bytes (pos (to_bits (2 ^ 64) value))

abbrev pub with_argument : (Bytes → Host → Host × ℤ) → ℤ → Host → Host × ℤ
with_argument rest id h =
    let h' = use_gas (ops_cost h).int64_get_argument h in
    elim (argument_of id h') [
      | none ↦ fail_with arg_index_out_of_range h'
      | some bytes ↦ rest bytes h'
    ]

unfoldable pub small_int_get_unsigned_argument : ℤ → Host → Host × ℤ
small_int_get_unsigned_argument id h = with_argument (unsigned_result arg_out_of_range) id h

abbrev pub finish_bytes : Bytes → Host → Host
finish_bytes bytes h =
    let h' = use_gas (ops_cost h).int64_finish h in record h' { output = O.finish bytes h'.output }

unfoldable pub small_int_finish_unsigned : ℤ → Host → Host
small_int_finish_unsigned value h = finish_bytes (unsigned_bytes value) h

module _ (hook : BlockchainHook) where
  abbrev pub store_number : ℤ → ℤ → Bytes → Host → Host × ℤ
  store_number key_offset key_length bytes h =
      with_loaded minus_one key_offset key_length
        (λ key h1.
          let (h2, status, err) = set_storage hook key bytes h1 in
          finish_with err minus_one (status_number status) h2)
        (use_gas (ops_cost h).int64_storage_store h)

  abbrev pub load_number : (Bytes → Host → Host × ℤ) → ℤ → ℤ → Host → Host × ℤ
  load_number result key_offset key_length h =
      with_loaded (pos 0) key_offset key_length
        (λ key h1. let (h2, bytes) = get_storage hook key h1 in result bytes h2)
        (use_gas (ops_cost h).int64_storage_load h)

  unfoldable pub small_int_storage_store_unsigned : ℤ → ℤ → ℤ → Host → Host × ℤ
  small_int_storage_store_unsigned key_offset key_length value h =
      store_number key_offset key_length (unsigned_bytes value) h

  unfoldable pub small_int_storage_load_unsigned : ℤ → ℤ → Host → Host × ℤ
  small_int_storage_load_unsigned key_offset key_length h =
      load_number (unsigned_result storage_value_out_of_range) key_offset key_length h

  unfoldable pub int64storage_store : ℤ → ℤ → ℤ → Host → Host × ℤ
  unfolding small_int_storage_store_unsigned
  int64storage_store key_offset key_length value h =
      small_int_storage_store_unsigned key_offset key_length value h

  unfoldable pub int64storage_load : ℤ → ℤ → Host → Host × ℤ
  unfolding small_int_storage_load_unsigned
  int64storage_load key_offset key_length h =
      small_int_storage_load_unsigned key_offset key_length h

module _ (twos : Twos) where
  -- `value.Int64()`, if `value.IsInt64()`.
  abbrev pub signed_result : VmError → Bytes → Host → Host × ℤ
  signed_result err bytes h =
      let value = twos.set_bytes bytes in if fits_int64 value then (h, value) else fail_with err h

  unfoldable pub small_int_get_signed_argument : ℤ → Host → Host × ℤ
  small_int_get_signed_argument id h = with_argument (signed_result arg_out_of_range) id h

  unfoldable pub int64get_argument : ℤ → Host → Host × ℤ
  unfolding small_int_get_signed_argument
  int64get_argument id h = small_int_get_signed_argument id h

  unfoldable pub small_int_finish_signed : ℤ → Host → Host
  small_int_finish_signed value h = finish_bytes (twos.to_bytes value) h

  unfoldable pub int64finish : ℤ → Host → Host
  unfolding small_int_finish_signed
  int64finish value h = small_int_finish_signed value h

  module _ (hook : BlockchainHook) where
    unfoldable pub small_int_storage_store_signed : ℤ → ℤ → ℤ → Host → Host × ℤ
    small_int_storage_store_signed key_offset key_length value h =
        store_number hook key_offset key_length (twos.to_bytes value) h

    unfoldable pub small_int_storage_load_signed : ℤ → ℤ → Host → Host × ℤ
    small_int_storage_load_signed key_offset key_length h =
        load_number hook (signed_result storage_value_out_of_range) key_offset key_length h
