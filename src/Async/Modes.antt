-- ===== src/Async/Modes.antt =====
-- How an asynchronous call is executed, and the calls and call-backs that leave the shard.
use wasm_vm_v.Prelude.{
  Bool, false, ◌&&◌, ◌⊎◌, inl, inr, none, some, ◌∷◌, Bytes, bytes_equal, is_empty, not,
  if◌then◌else◌,
}
use wasm_vm_v.Prelude.Int.{pos}
use wasm_vm_v.Errors.{VmError}
use wasm_vm_v.Output.Types.{asynchronous_call, asynchronous_call_back}
use wasm_vm_v.Host.{Host, AsyncCallInfo}
use wasm_vm_v.Hook.{BlockchainHook}
use wasm_vm_v.Engine.{Engine, is_builtin_function_name}
use wasm_vm_v.Blockchain.{get_code}
use wasm_vm_v.Fault.{fail_execution}
use wasm_vm_v.Metering.Points.{use_gas, gas_left}
use wasm_vm_v.Runtime.Hex.{encode_arguments}
use wasm_vm_v.Runtime.Text.{text_bytes}
use wasm_vm_v.Transfer.{transfer, is_asynchronous_call}
use wasm_vm_v.VmHooks.BigIntBytes.{from_bytes}
use wasm_vm_v.Execution.{Result}
use wasm_vm_v.Execution.Builtin.{are_in_same_shard}
use wasm_vm_v.Async.{
  AsyncCallExecutionMode, Codec, sync_call, async_builtin_func_intra_shard,
  async_builtin_func_cross_shard, esdt_transfer_on_call_back, async_unknown,
}
use wasm_vm_v.Async.Input.{is_esdt_transfer_on_return_data_from_function_and_args}

abbrev pub use_all_gas : Host → Host
use_all_gas h = use_gas (gas_left h) h

-- An error takes all the gas and fails the execution.
abbrev pub fail_or : Result → (Host → Host) → Result
fail_or (h, none) rest = (rest h, none)
fail_or (h, some err) rest = (fail_execution (some err) (use_all_gas h), some err)

module _ (hook : BlockchainHook) where
  unfoldable pub can_execute_synchronously : Bytes → Host → Host × Bool
  can_execute_synchronously destination h =
      let (h', code, err) = get_code hook destination h in
      (h', elim err [ none ↦ not (is_empty code) | some e ↦ false ])

  unfoldable pub send_async_call_to_destination : AsyncCallInfo → Host → Result
  send_async_call_to_destination call h =
      fail_or
        (transfer hook call.destination h.runtime.sc_address call.gas_limit call.gas_locked
          (pos (from_bytes call.value_bytes)) call.content asynchronous_call h)
        use_all_gas

  -- The transfer takes the gas that is left with it.
  abbrev pub send_callback : Bytes → Bytes → Host → Result
  send_callback destination returned h =
      transfer hook destination h.runtime.sc_address (gas_left h) 0 h.runtime.vm_input.call_value
        returned asynchronous_call_back h

  unfoldable pub send_callback_to_current_caller : Codec → Host → Result
  send_callback_to_current_caller codec h =
      let out = h.output.output_state in
      fail_or
        (send_callback h.runtime.vm_input.caller_addr
          (encode_arguments (text_bytes (codec.return_code_text out.return_code) ∷ out.return_data))
          h)
        use_all_gas

  unfoldable pub send_storage_callback_to_destination : Bytes → Bytes → Host → Result
  send_storage_callback_to_destination caller returned h =
      fail_or (send_callback caller returned h) (λ h'. h')

  module _ (engine : Engine) where
    -- A transfer of tokens back to the contract whose asynchronous call is running.
    abbrev pub is_transfer_on_call_back : Bool → AsyncCallInfo → Host → Bool
    is_transfer_on_call_back is_transfer call h =
        is_transfer
        && is_asynchronous_call h.runtime.vm_input.call_type
        && bytes_equal h.runtime.vm_input.caller_addr call.destination

    unfoldable pub determine_async_call_execution_mode :
        AsyncCallInfo → Host → Host × (VmError ⊎ AsyncCallExecutionMode)
    determine_async_call_execution_mode call h =
        let (h', runs_here) = can_execute_synchronously call.destination h in
        elim (engine.parse_data call.content) [
          | inl err ↦ (h, inl err)
          | inr (function, arguments) ↦
              let is_transfer =
                is_esdt_transfer_on_return_data_from_function_and_args engine function arguments in
              if is_builtin_function_name engine function
              then (
                h,
                inr (
                    if are_in_same_shard engine hook h.runtime.sc_address call.destination
                    then (if is_transfer_on_call_back is_transfer call h
                        then esdt_transfer_on_call_back
                        else async_builtin_func_intra_shard)
                    else async_builtin_func_cross_shard),
              )
              else (h', inr (if runs_here then sync_call else async_unknown))
        ]
