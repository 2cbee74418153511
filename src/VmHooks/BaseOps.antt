-- ===== src/VmHooks/BaseOps.antt =====
-- The operations of vmhost/vmhooks/baseOps.go on the storage, the arguments and the call, which copy
-- bytes between the memory of the instance and the contexts. Offsets, lengths and results are int32.
use Prim.Native.String.{len}
use wasm_vm_v.Prelude.{
  ℕ, ◌^◌, Bool, true, ◌||◌, inl, inr, Option, none, some, [], ◌∷◌, ◌++◌, Bytes, length, leb, ◌-◌,
  if◌then◌else◌,
}
use wasm_vm_v.Prelude.Int.{ℤ, pos, negsuc, leb_ℤ, ltb_ℤ}
use wasm_vm_v.Errors.{VmError}
use wasm_vm_v.Overflow.{wrap, to_bits, mul_uint64, add_uint64}
use wasm_vm_v.Output as O
use wasm_vm_v.Output.Types.{direct_call}
use wasm_vm_v.Host.{Host, BaseOpsApiCost, base_cost}
use wasm_vm_v.Hook.{BlockchainHook}
use wasm_vm_v.Engine.{Engine, is_builtin_function_name}
use wasm_vm_v.Fault.{with_fault}
use wasm_vm_v.Metering.Points.{use_gas, gas_left}
use wasm_vm_v.Storage.{
  StorageStatus, storage_unchanged, storage_modified, storage_added, storage_deleted,
  protected_storage_prefix, address_len, set_storage, get_storage, get_storage_unmetered,
  set_protected_storage,
}
use wasm_vm_v.Transfer.{transfer}
use wasm_vm_v.Runtime.Memory.{mem_load, mem_store, zeros}
use wasm_vm_v.Runtime.Text.{text_bytes}
use wasm_vm_v.VmHooks.BigIntBytes.{to_bytes, from_bytes, argument}

abbrev pub ops_cost : Host → BaseOpsApiCost
ops_cost h = h.metering.gas_schedule.base_ops_api_cost

abbrev pub minus_one : ℤ
minus_one = negsuc 0

-- `int32(len(data))`.
abbrev pub int32_length : Bytes → ℤ
int32_length bytes = wrap (2 ^ 32) (pos (length bytes))

abbrev pub status_number : StorageStatus → ℤ
status_number storage_unchanged = pos 0
status_number storage_modified = pos 1
status_number storage_added = pos 2
status_number storage_deleted = pos 3

-- A read of the memory, and what follows it. A bad one fails the execution.
abbrev pub with_loaded : ℤ → ℤ → ℤ → (Bytes → Host → Host × ℤ) → Host → Host × ℤ
with_loaded fault offset size rest h = elim (mem_load offset size h.runtime.instance) [
  | inl e ↦ ((with_fault (some e) true h).0, fault)
  | inr bytes ↦ rest bytes h
]

-- An error fails the execution.
abbrev pub finish_with : Option VmError → ℤ → ℤ → Host → Host × ℤ
finish_with none fault result h = (h, result)
finish_with (some e) fault result h = ((with_fault (some e) true h).0, fault)

-- "ARWEN@TIMELOCK".
abbrev pub time_lock_key_prefix : Bytes
time_lock_key_prefix =
    protected_storage_prefix ++ b'T' ∷ b'I' ∷ b'M' ∷ b'E' ∷ b'L' ∷ b'O' ∷ b'C' ∷ b'K' ∷ []

unfoldable pub custom_storage_key : Bytes → Bytes → Bytes
custom_storage_key key_type associated_key = associated_key ++ key_type

unfoldable pub pad_bytes_left : ℕ → Bytes → Bytes
pad_bytes_left size [] = []
pad_bytes_left size bytes =
    if leb size (length bytes) then bytes else zeros (size - length bytes) ++ bytes

unfoldable pub get_gas_left : Host → Host × ℤ
get_gas_left h =
    let h' = use_gas (ops_cost h).get_gas_left h in (h', wrap (2 ^ 64) (pos (gas_left h')))

unfoldable pub get_num_arguments : Host → Host × ℤ
get_num_arguments h =
    let h' = use_gas (ops_cost h).get_num_arguments h in
    (h', wrap (2 ^ 32) (pos (length h'.runtime.vm_input.arguments)))

-- The argument, if the identifier is that of one.
abbrev pub argument_of : ℤ → Host → Option Bytes
argument_of id h =
    let arguments = h.runtime.vm_input.arguments in
    if ltb_ℤ id (pos 0) || leb_ℤ (wrap (2 ^ 32) (pos (length arguments))) id
    then none
    else argument id arguments

unfoldable pub get_argument_length : ℤ → Host → Host × ℤ
get_argument_length id h =
    let h' = use_gas (ops_cost h).get_argument h in
    elim (argument_of id h') [ none ↦ (h', minus_one) | some bytes ↦ (h', int32_length bytes) ]

module _ (hook : BlockchainHook) where
  unfoldable pub storage_load_length : ℤ → ℤ → Host → Host × ℤ
  storage_load_length key_offset key_length h =
      with_loaded minus_one key_offset key_length
        (λ key h1. let (h2, value) = get_storage_unmetered hook key h1 in (h2, int32_length value))
        (use_gas (ops_cost h).storage_load h)

  unfoldable pub storage_store : ℤ → ℤ → ℤ → ℤ → Host → Host × ℤ
  storage_store key_offset key_length data_offset data_length h =
      with_loaded minus_one key_offset key_length
        (λ key. with_loaded minus_one data_offset data_length (λ value h1.
          let (h2, status, err) = set_storage hook key value h1 in
          finish_with err minus_one (status_number status) h2))
        (use_gas (ops_cost h).storage_store h)

  unfoldable pub set_storage_lock : ℤ → ℤ → ℤ → Host → Host × ℤ
  set_storage_lock key_offset key_length lock_timestamp h =
      with_loaded minus_one key_offset key_length
        (λ key h1.
          let (h2, status, err) =
            set_protected_storage hook (custom_storage_key time_lock_key_prefix key)
              (to_bytes lock_timestamp) h1 in
          finish_with err minus_one (status_number status) h2)
        (use_gas (ops_cost h).int64_storage_store h)

  unfoldable pub clear_storage_lock : ℤ → ℤ → Host → Host × ℤ
  unfolding set_storage_lock
  clear_storage_lock key_offset key_length h = set_storage_lock key_offset key_length (pos 0) h

  -- `Int64()` keeps the low 64 bits.
  unfoldable pub get_storage_lock : ℤ → ℤ → Host → Host × ℤ
  get_storage_lock key_offset key_length h =
      with_loaded minus_one key_offset key_length
        (λ key h1.
          let (h2, value) = get_storage hook (custom_storage_key time_lock_key_prefix key) h1 in
          (h2, wrap (2 ^ 64) (pos (from_bytes value))))
        (use_gas (ops_cost h).storage_load h)

module _ (engine : Engine) where
  -- A write to the memory, and the result if it succeeds.
  abbrev pub store_bytes : ℤ → ℤ → ℤ → Bytes → Host → Host × ℤ
  store_bytes fault result offset bytes h =
      let (instance, err) = mem_store engine offset bytes h.runtime.instance in
      finish_with err fault result (record h { runtime = record h.runtime { instance = instance } })

  -- The two operations without a result return 0 here.
  unfoldable pub get_sc_address : ℤ → Host → Host × ℤ
  get_sc_address offset h =
      let h' = use_gas (ops_cost h).get_sc_address h in
      store_bytes (pos 0) (pos 0) offset h'.runtime.sc_address h'

  unfoldable pub get_caller : ℤ → Host → Host × ℤ
  get_caller offset h =
      let h' = use_gas (ops_cost h).get_caller h in
      store_bytes (pos 0) (pos 0) offset h'.runtime.vm_input.caller_addr h'

  unfoldable pub call_value : ℤ → Host → Host × ℤ
  call_value offset h =
      let h' = use_gas (ops_cost h).get_call_value h in
      let value = pad_bytes_left 32 (to_bytes h'.runtime.vm_input.call_value) in
      store_bytes minus_one (int32_length value) offset value h'

  unfoldable pub get_function : ℤ → Host → Host × ℤ
  get_function offset h =
      let h' = use_gas (ops_cost h).get_function h in
      store_bytes minus_one (wrap (2 ^ 32) (pos (len h'.runtime.call_function))) offset
        (text_bytes h'.runtime.call_function) h'

  unfoldable pub get_argument : ℤ → ℤ → Host → Host × ℤ
  get_argument id offset h =
      let h' = use_gas (ops_cost h).get_argument h in
      elim (argument_of id h') [
        | none ↦ (h', minus_one)
        | some bytes ↦ store_bytes minus_one (int32_length bytes) offset bytes h'
      ]

  module _ (hook : BlockchainHook) where
    unfoldable pub storage_load : ℤ → ℤ → ℤ → Host → Host × ℤ
    storage_load key_offset key_length data_offset h =
        with_loaded minus_one key_offset key_length
          (λ key h1.
            let (h2, value) = get_storage hook key h1 in
            store_bytes minus_one (int32_length value) data_offset value h2)
          (use_gas (ops_cost h).storage_load h)

    -- A text that is no call data names the function with the empty name.
    abbrev pub is_built_in_call : Bytes → Bool
    is_built_in_call text = elim (engine.parse_data text) [
      | inl e ↦ is_builtin_function_name engine ""
      | inr (function, arguments) ↦ is_builtin_function_name engine function
    ]

    unfoldable pub transfer_value : ℤ → ℤ → ℤ → ℤ → Host → Host × ℤ
    transfer_value dest_offset value_offset data_offset size h =
        with_loaded (pos 1) dest_offset (pos address_len)
          (λ dest. with_loaded (pos 1) value_offset (pos 32) (λ value h1.
            with_loaded (pos 1) data_offset size
              (λ text h2.
                let (h3, err) =
                  transfer hook dest h2.runtime.sc_address 0 0 (pos (from_bytes value)) text
                    direct_call h2 in
                if is_built_in_call text then (h2, pos 1) else finish_with err (pos 1) (pos 0) h3)
              (use_gas (mul_uint64 (base_cost h1).persist_per_byte (to_bits (2 ^ 64) size)) h1)))
          (use_gas (ops_cost h).transfer_value h)

-- returnData.
unfoldable pub return_data : ℤ → ℤ → Host → Host × ℤ
return_data pointer size h =
    let gas = mul_uint64 (base_cost h).persist_per_byte (to_bits (2 ^ 64) size) in
    with_loaded (pos 0) pointer size
      (λ bytes h1. (record h1 { output = O.finish bytes h1.output }, pos 0))
      (use_gas (add_uint64 (ops_cost h).finish gas) h)
