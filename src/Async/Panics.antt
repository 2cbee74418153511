-- ===== src/Async/Panics.antt =====
-- The nil pointers of handleAsyncCallBreakpoint in vmhost/hostCore/asyncCall.go.
use wasm_vm_v.Prelude.{◌≡◌, refl, ◌⊎◌, inl, inr, Option, none, some, arith, Sum-cases, Option-cases}
use wasm_vm_v.Errors.{VmError}
use wasm_vm_v.Output.Types.{VmOutput}
use wasm_vm_v.Host.{Host, ContractCallInput, AsyncCallInfo, AsyncContextInfo, breakpoint_none}
use wasm_vm_v.Hook.{BlockchainHook}
use wasm_vm_v.Engine.{Engine}
use wasm_vm_v.Fault.{set_runtime_breakpoint_value}
use wasm_vm_v.Execution.{Result}
use wasm_vm_v.Execution.Indirect.{
  call_and_settle, call_builtin_and_settle, builtin_failure, execute_on_dest_context,
}
use wasm_vm_v.Async.{
  AsyncCallExecutionMode, Codec, Executed, sync_call, async_builtin_func_intra_shard,
  async_builtin_func_cross_shard, esdt_transfer_on_call_back, async_unknown,
}
use wasm_vm_v.Async.Input.{create_destination_contract_call_input}
use wasm_vm_v.Async.Modes.{determine_async_call_execution_mode}
use wasm_vm_v.Async.Breakpoint.{
  execute_sync_destination_call, call_back_after, call_and_call_back, run_in_mode, run_determined,
  handle_call, handle_async_call_breakpoint,
}

-- ExecuteOnDestContext returns an output always.
pub execute_on_dest_context_output :
    (hook : BlockchainHook) (engine : Engine) (on_async_call : Host → Result)
    (process_async_info : AsyncContextInfo → Host → Result) (call : ContractCallInput) (h : Host)
    → (out : VmOutput) × ((execute_on_dest_context hook engine on_async_call process_async_info call
          h).1
        ≡ some out)
unfolding execute_on_dest_context call_and_settle call_builtin_and_settle builtin_failure
execute_on_dest_context_output hook engine on_async_call process_async_info call h =
    elim (Option-cases
      (execute_on_dest_context hook engine on_async_call process_async_info call h).1) [
        | inl missing ↦ absurd (ground (arith, missing))
        | inr found ↦ found
      ]

-- A run of Go that does not panic.
abbrev pub Returns : Option Result → Type 0
Returns x = (r : Result) × (x ≡ some r)

module _ (hook : BlockchainHook) (engine : Engine) (codec : Codec)
    (execute_on_dest_context : ContractCallInput → Host → Executed)
    (outputs : (call : ContractCallInput) (h : Host)
      → (out : VmOutput) × ((execute_on_dest_context call h).1 ≡ some out)) where
  call_back_after-Returns :
      (call : AsyncCallInfo) (ended : Host × Option VmOutput × Option VmError) (out : VmOutput)
      → ended.1 ≡ some out
      → Returns (call_back_after hook engine codec execute_on_dest_context call ended)
  unfolding call_back_after
  call_back_after-Returns call (h, none, err) out given = absurd (ground (arith, given))
  call_back_after-Returns call (h, some found, err) out given = (_, refl)

  call_and_call_back-Returns :
      (call : AsyncCallInfo) (h : Host) (input : ContractCallInput)
      → create_destination_contract_call_input engine call h ≡ inr input
      → Returns (call_and_call_back hook engine codec execute_on_dest_context call h)
  unfolding call_and_call_back execute_sync_destination_call
  call_and_call_back-Returns call h input parsed =
      let (out, given) = outputs input h in
      call_back_after-Returns call
        (execute_sync_destination_call hook engine codec execute_on_dest_context call h) out
        (ground (arith, parsed, given))

  run_in_mode-Returns :
      (mode : AsyncCallExecutionMode) (call : AsyncCallInfo) (h : Host) (input : ContractCallInput)
      → create_destination_contract_call_input engine call h ≡ inr input
      → Returns (run_in_mode hook engine codec execute_on_dest_context mode call h)
  unfolding run_in_mode
  run_in_mode-Returns sync_call call h input parsed = call_and_call_back-Returns call h input parsed
  run_in_mode-Returns async_builtin_func_intra_shard call h input parsed =
      call_and_call_back-Returns call h input parsed
  run_in_mode-Returns async_builtin_func_cross_shard call h input parsed = (_, refl)
  run_in_mode-Returns esdt_transfer_on_call_back call h input parsed = (_, refl)
  run_in_mode-Returns async_unknown call h input parsed = (_, refl)

  -- A mode is determined only if the data of the call can be read.
  parsed_input :
      (call : AsyncCallInfo) (h h1 : Host) (mode : AsyncCallExecutionMode)
      → (determine_async_call_execution_mode hook engine call h).1 ≡ inr mode
      → (input : ContractCallInput) × (create_destination_contract_call_input engine call h1
          ≡ inr input)
  unfolding determine_async_call_execution_mode create_destination_contract_call_input
  parsed_input call h h1 mode found =
      elim (Sum-cases (create_destination_contract_call_input engine call h1)) [
        | inl (e, bad) ↦ absurd (ground (arith, bad, found))
        | inr parsed ↦ parsed
      ]

  run_determined-Returns :
      (call : AsyncCallInfo) (found : Host × (VmError ⊎ AsyncCallExecutionMode))
      → ((mode : AsyncCallExecutionMode)
          → found.1 ≡ inr mode
          → (input : ContractCallInput) × (create_destination_contract_call_input engine call
                found.0
              ≡ inr input))
      → Returns (run_determined hook engine codec execute_on_dest_context call found)
  unfolding run_determined
  run_determined-Returns call (h, inl err) input = (_, refl)
  run_determined-Returns call (h, inr mode) input =
      run_in_mode-Returns mode call h (input mode refl).0 (input mode refl).1

  handle_call-Returns :
      (asked : Option AsyncCallInfo) (call : AsyncCallInfo) (h : Host)
      → asked ≡ some call
      → Returns (handle_call hook engine codec execute_on_dest_context asked h)
  unfolding handle_call
  handle_call-Returns none call h present = absurd (ground (arith, present))
  handle_call-Returns (some asked) call h present =
      let found = determine_async_call_execution_mode hook engine asked h in
      run_determined-Returns asked found (λ mode is_mode. parsed_input asked h found.0 mode is_mode)

  -- Where the contract has asked for an asynchronous call and ExecuteOnDestContext returns an output
  -- always, the handling of the call does not panic: it returns, with an error or without one.
  pub handle_async_call_breakpoint-Returns :
      (h : Host) (call : AsyncCallInfo)
      → h.runtime.async_call_info ≡ some call
      → Returns (handle_async_call_breakpoint hook engine codec execute_on_dest_context h)
  unfolding handle_async_call_breakpoint
  handle_async_call_breakpoint-Returns h call asked =
      handle_call-Returns h.runtime.async_call_info call
        (set_runtime_breakpoint_value breakpoint_none h) asked
