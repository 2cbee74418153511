-- ===== src/VmHooks/CallData.antt =====
-- The operations of vmhost/vmhooks/baseOps.go on the payment of the call, the data that calls have
-- returned, and the accounts of the node.
use wasm_vm_v.Prelude.{
  ◌^◌, true, Option, none, some, List, [], ◌∷◌, is_empty, length, if◌then◌else◌,
}
use wasm_vm_v.Prelude.Int.{ℤ, pos, leb_ℤ, ltb_ℤ}
use wasm_vm_v.Errors.{non_payable_function_egld, non_payable_function_esdt}
use wasm_vm_v.Overflow.{wrap}
use wasm_vm_v.Host.{Host, EsdtTransfer}
use wasm_vm_v.Hook.{BlockchainHook}
use wasm_vm_v.Engine.{Engine}
use wasm_vm_v.Fault.{with_fault}
use wasm_vm_v.Metering.Points.{use_gas}
use wasm_vm_v.Blockchain.{get_balance_big_int}
use wasm_vm_v.Storage.{address_len}
use wasm_vm_v.VmHooks.BigIntBytes.{to_bytes, argument}
use wasm_vm_v.VmHooks.BaseOps.{
  ops_cost, minus_one, int32_length, with_loaded, store_bytes, pad_bytes_left,
}

abbrev pub first_transfer : List EsdtTransfer → EsdtTransfer
first_transfer [] = record {
  esdt_value = pos 0;
  esdt_token_name = [];
  esdt_token_type = 0;
  esdt_token_nonce = 0;
}
first_transfer (transfer ∷ transfers) = transfer

unfoldable pub get_first_esdt_transfer_if_exist : Host → EsdtTransfer
get_first_esdt_transfer_if_exist h = first_transfer h.runtime.vm_input.esdt_transfers

-- Fails the execution of a call that pays.
unfoldable pub check_no_payment : Host → Host
check_no_payment h =
    let h' = use_gas (ops_cost h).get_call_value h in
    if ltb_ℤ (pos 0) h'.runtime.vm_input.call_value
    then (with_fault (some non_payable_function_egld) true h').0
    else (if is_empty h'.runtime.vm_input.esdt_transfers
        then h'
        else (with_fault (some non_payable_function_esdt) true h').0)

unfoldable pub get_esdt_token_nonce : Host → Host × ℤ
get_esdt_token_nonce h =
    let h' = use_gas (ops_cost h).get_call_value h in
    (h', wrap (2 ^ 64) (pos (get_first_esdt_transfer_if_exist h').esdt_token_nonce))

unfoldable pub get_esdt_token_type : Host → Host × ℤ
get_esdt_token_type h =
    let h' = use_gas (ops_cost h).get_call_value h in
    (h', wrap (2 ^ 32) (pos (get_first_esdt_transfer_if_exist h').esdt_token_type))

unfoldable pub get_num_return_data : Host → Host × ℤ
get_num_return_data h =
    let h' = use_gas (ops_cost h).get_num_return_data h in
    (h', wrap (2 ^ 32) (pos (length h'.output.output_state.return_data)))

-- `none` is a panic: a negative identifier passes the guard.
unfoldable pub get_return_data_size : ℤ → Host → Option (Host × ℤ)
get_return_data_size id h =
    let h' = use_gas (ops_cost h).get_return_data_size h in
    let results = h'.output.output_state.return_data in
    if leb_ℤ (wrap (2 ^ 32) (pos (length results))) id
    then some (h', pos 0)
    else elim (argument id results) [ none ↦ none | some bytes ↦ some (h', int32_length bytes) ]

module _ (hook : BlockchainHook) where
  -- The two questions that the node answers about an address in the memory.
  unfoldable pub is_smart_contract : ℤ → Host → Host × ℤ
  is_smart_contract offset h =
      with_loaded (pos 0) offset (pos address_len)
        (λ addr h1. (h1, (if hook.is_smart_contract addr then pos 1 else pos 0)))
        (use_gas (ops_cost h).is_smart_contract h)

  unfoldable pub get_shard_of_address : ℤ → Host → Host × ℤ
  get_shard_of_address offset h =
      with_loaded (pos 0) offset (pos address_len)
        (λ addr h1. (h1, wrap (2 ^ 32) (pos (hook.get_shard_of_address addr))))
        (use_gas (ops_cost h).get_shard_of_address h)

module _ (engine : Engine) where
  unfoldable pub get_esdt_token_name : ℤ → Host → Host × ℤ
  get_esdt_token_name offset h =
      let h' = use_gas (ops_cost h).get_call_value h in
      let name = (get_first_esdt_transfer_if_exist h').esdt_token_name in
      store_bytes engine minus_one (int32_length name) offset name h'

  unfoldable pub get_esdt_value : ℤ → Host → Host × ℤ
  get_esdt_value offset h =
      let h' = use_gas (ops_cost h).get_call_value h in
      let paid = (get_first_esdt_transfer_if_exist h').esdt_value in
      let value = if ltb_ℤ (pos 0) paid then pad_bytes_left 32 (to_bytes paid) else [] in
      store_bytes engine minus_one (int32_length value) offset value h'

  unfoldable pub get_return_data : ℤ → ℤ → Host → Option (Host × ℤ)
  get_return_data id offset h =
      let h' = use_gas (ops_cost h).get_return_data h in
      let results = h'.output.output_state.return_data in
      if leb_ℤ (wrap (2 ^ 32) (pos (length results))) id
      then some (h', pos 0)
      else elim (argument id results) [
        | none ↦ none
        | some bytes ↦ some (store_bytes engine (pos 0) (int32_length bytes) offset bytes h')
      ]

  -- It returns no value; the 0 stands for that.
  unfoldable pub get_external_balance : BlockchainHook → ℤ → ℤ → Host → Host × ℤ
  get_external_balance hook address_offset result_offset h =
      with_loaded (pos 0) address_offset (pos address_len)
        (λ addr h1.
          let (h2, balance) = get_balance_big_int hook addr h1 in
          store_bytes engine (pos 0) (pos 0) result_offset (to_bytes balance) h2)
        (use_gas (ops_cost h).get_external_balance h)
