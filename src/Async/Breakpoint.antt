-- ===== src/Async/Breakpoint.antt =====
-- handleAsyncCallBreakpoint: the asynchronous call that has stopped a contract. `none` is a panic of
-- Go on a nil pointer.
use wasm_vm_v.Prelude.{◌⊎◌, inl, inr, Option, none, some}
use wasm_vm_v.Errors.{VmError}
use wasm_vm_v.Output.{set_return_message}
use wasm_vm_v.Output as O
use wasm_vm_v.Output.Types.{VmOutput}
use wasm_vm_v.Host.{Host, ContractCallInput, AsyncCallInfo, breakpoint_none}
use wasm_vm_v.Hook.{BlockchainHook}
use wasm_vm_v.Engine.{Engine}
use wasm_vm_v.Fault.{set_runtime_breakpoint_value}
use wasm_vm_v.FinalOutput.{create_vm_output_in_case_of_error}
use wasm_vm_v.Metering.Points.{restore_gas}
use wasm_vm_v.Runtime.Instances.{callback_function_name}
use wasm_vm_v.Runtime.Text.{text_bytes}
use wasm_vm_v.Execution.{Result}
use wasm_vm_v.Async.{
  AsyncCallExecutionMode, Codec, Executed, sync_call, async_builtin_func_intra_shard,
  async_builtin_func_cross_shard, esdt_transfer_on_call_back, async_unknown,
}
use wasm_vm_v.Async.Input.{
  create_destination_contract_call_input, create_callback_contract_call_input,
}
use wasm_vm_v.Async.Modes.{determine_async_call_execution_mode, send_async_call_to_destination}

-- The output of a call-back that has failed.
abbrev pub failed_output : Option VmOutput → VmError → Host → Host × VmOutput
failed_output none err h = create_vm_output_in_case_of_error err h
failed_output (some out) err h = (h, out)

-- It returns no error.
unfoldable pub process_callback_vm_output : Codec → Option VmOutput → Option VmError → Host → Host
process_callback_vm_output codec out none h = h
process_callback_vm_output codec out (some err) h =
    let h1 = record h {
      runtime = record h.runtime {
        active = record h.runtime.active {
          vm_input = record h.runtime.vm_input { gas_provided = 0 };
        };
      };
    } in
    let (h2, failed) = failed_output out err h1 in
    record h2 {
      output = O.finish h2.runtime.vm_input.current_tx_hash (
          O.finish (text_bytes (codec.return_code_text failed.return_code))
            (set_return_message failed.return_message h2.output));
    }

module _ (hook : BlockchainHook) (engine : Engine) (codec : Codec)
    (execute_on_dest_context : ContractCallInput → Host → Executed) where
  unfoldable pub execute_sync_destination_call :
      AsyncCallInfo → Host → Host × Option VmOutput × Option VmError
  execute_sync_destination_call call h =
      elim (create_destination_contract_call_input engine call h) [
        | inl err ↦ (h, none, some err)
        | inr input ↦ let (h', out, info, err) = execute_on_dest_context input h in (h', out, err)
      ]

  -- The locked gas is restored before the call-back starts.
  unfoldable pub execute_sync_callback_call :
      AsyncCallInfo → VmOutput → Option VmError → Host → Host × Option VmOutput × Option VmError
  execute_sync_callback_call call out err h =
      elim (create_callback_contract_call_input engine codec call out call.destination
        callback_function_name err h) [
          | inl failed ↦ (h, none, some failed)
          | inr input ↦
              let (h', out', info, err') =
                execute_on_dest_context input (restore_gas call.gas_locked h) in
              (h', out', err')
        ]

  -- The call-back, after what the call has returned.
  unfoldable pub call_back_after :
      AsyncCallInfo → Host × Option VmOutput × Option VmError → Option Result
  call_back_after call (h, none, err) = none
  call_back_after call (h, some out, err) =
      let (h', out', err') = execute_sync_callback_call call out err h in
      some (process_callback_vm_output codec out' err' h', none)

  unfoldable pub call_and_call_back : AsyncCallInfo → Host → Option Result
  call_and_call_back call h = call_back_after call (execute_sync_destination_call call h)

  unfoldable pub run_in_mode : AsyncCallExecutionMode → AsyncCallInfo → Host → Option Result
  run_in_mode sync_call call h = call_and_call_back call h
  run_in_mode async_builtin_func_intra_shard call h = call_and_call_back call h
  run_in_mode async_builtin_func_cross_shard call h =
      let (h', out, err) = execute_sync_destination_call call h in some (h', err)
  run_in_mode esdt_transfer_on_call_back call h = some (
    restore_gas call.gas_locked (record h { output = O.prepend_finish call.content h.output }),
    none,
  )
  run_in_mode async_unknown call h = some (send_async_call_to_destination hook call h)

  unfoldable pub run_determined :
      AsyncCallInfo → Host × (VmError ⊎ AsyncCallExecutionMode) → Option Result
  run_determined call (h, inl err) = some (h, some err)
  run_determined call (h, inr mode) = run_in_mode mode call h

  unfoldable pub handle_call : Option AsyncCallInfo → Host → Option Result
  handle_call none h = none
  handle_call (some call) h =
      run_determined call (determine_async_call_execution_mode hook engine call h)

  unfoldable pub handle_async_call_breakpoint : Host → Option Result
  unfolding handle_call
  handle_async_call_breakpoint h =
      handle_call h.runtime.async_call_info (set_runtime_breakpoint_value breakpoint_none h)
