-- ===== src/Async/Stacks.antt =====
-- The functions of vmhost/hostCore/asyncCall.go and the stacks of the contexts.
pub mod Stored
pub mod Processed
use wasm_vm_v.Prelude.{
  ℕ, ◌≡◌, refl, ap, ◌∙◌, ◌⊎◌, inl, inr, Option, none, some, List, [], ◌∷◌, Bytes, arith, true,
  false, Option-cases, Sum-cases, Bool-cases, ltb, ◌&&◌, not,
}
use wasm_vm_v.Prelude.Int.{ℤ}
use wasm_vm_v.Errors.{VmError}
use wasm_vm_v.Output.Types.{VmOutput, CallType}
use wasm_vm_v.Output.{
  set_return_message, finish, prepend_finish, get_output_account, set_return_code,
}
use wasm_vm_v.Host.{Host, ContractCallInput, AsyncCallInfo, AsyncContextInfo, breakpoint_none}
use wasm_vm_v.Hook.{BlockchainHook}
use wasm_vm_v.Engine.{Engine}
use wasm_vm_v.Blockchain.{get_code}
use wasm_vm_v.Fault.{fail_execution, set_runtime_breakpoint_value, add_error}
use wasm_vm_v.Metering.Points.{use_gas, restore_gas}
use wasm_vm_v.Transfer.{transfer, transfer_value_only, is_asynchronous_call_back}
use wasm_vm_v.Runtime.Instances.{callback_function_name}
use wasm_vm_v.Execution.{Result}
use wasm_vm_v.Execution.Frame.{
  Balanced, Balanced-refl, Balanced-trans, use_gas-Balanced, transfer_value_only-Steady,
  get_output_account_stack, create_vm_output_in_case_of_error-Steady,
}
use wasm_vm_v.Async.{
  AsyncCallExecutionMode, Codec, Executed, sync_call, async_builtin_func_intra_shard,
  async_builtin_func_cross_shard, esdt_transfer_on_call_back, async_unknown,
}
use wasm_vm_v.Async.Input.{
  create_destination_contract_call_input, create_callback_contract_call_input,
}
use wasm_vm_v.Async.Modes.{
  can_execute_synchronously, determine_async_call_execution_mode, send_async_call_to_destination,
  fail_or, use_all_gas, send_callback,
}
use wasm_vm_v.Async.Breakpoint.{
  process_callback_vm_output, failed_output, execute_sync_destination_call,
  execute_sync_callback_call, call_back_after, call_and_call_back, run_in_mode, run_determined,
  handle_call, handle_async_call_breakpoint,
}

pub can_execute_synchronously-Balanced :
    (hook : BlockchainHook) (addr : Bytes) (h : Host)
    → Balanced h (can_execute_synchronously hook addr h).0
unfolding can_execute_synchronously get_code get_output_account
can_execute_synchronously-Balanced hook addr h = ground arith

pub restore_gas-Balanced : (gas : ℕ) (h : Host) → Balanced h (restore_gas gas h)
unfolding restore_gas
restore_gas-Balanced gas h = ground arith

breakpoint-Balanced : (h : Host) → Balanced h (set_runtime_breakpoint_value breakpoint_none h)
unfolding set_runtime_breakpoint_value
breakpoint-Balanced h = ground arith

fail_execution-Balanced : (err : Option VmError) (h : Host) → Balanced h (fail_execution err h)
unfolding fail_execution set_runtime_breakpoint_value add_error set_return_code set_return_message
fail_execution-Balanced err h = ground arith

pub transfer-Balanced :
    (hook : BlockchainHook) (dest sender : Bytes) (limit locked : ℕ) (value : ℤ) (input : Bytes)
    (call_type : CallType) (h : Host)
    → Balanced h (transfer hook dest sender limit locked value input call_type h).0
unfolding transfer
transfer-Balanced hook dest sender limit locked value input call_type h =
    let check = ltb 0 limit && not (is_asynchronous_call_back call_type) in
    let h1 = (transfer_value_only hook dest sender value check h).0 in
    ground (
      arith,
      (transfer_value_only-Steady hook dest sender value check h).balanced,
      get_output_account_stack dest h1,
    )

pub fail_or-Balanced :
    {h : Host} (r : Result) (rest : Host → Host)
    → Balanced h r.0
    → ((h1 : Host) → Balanced h1 (rest h1))
    → Balanced h (fail_or r rest).0
fail_or-Balanced (h1, none) rest b q = Balanced-trans b (q h1)
fail_or-Balanced (h1, some e) rest b q =
    Balanced-trans b
      (Balanced-trans (use_gas-Balanced _ h1) (fail_execution-Balanced (some e) (use_all_gas h1)))

pub send_async_call_to_destination-Balanced :
    (hook : BlockchainHook) (call : AsyncCallInfo) (h : Host)
    → Balanced h (send_async_call_to_destination hook call h).0
unfolding send_async_call_to_destination
send_async_call_to_destination-Balanced hook call h =
    fail_or-Balanced _ use_all_gas (transfer-Balanced hook _ _ _ _ _ _ _ h)
      (λ h1. use_gas-Balanced _ h1)

determine-Balanced :
    (hook : BlockchainHook) (engine : Engine) (call : AsyncCallInfo) (h : Host)
    → Balanced h (determine_async_call_execution_mode hook engine call h).0
unfolding determine_async_call_execution_mode
determine-Balanced hook engine call h =
    ground (arith, Balanced-refl h, can_execute_synchronously-Balanced hook call.destination h)

failed_output-Balanced :
    (out : Option VmOutput) (err : VmError) (h : Host) → Balanced h (failed_output out err h).0
failed_output-Balanced none err h = (create_vm_output_in_case_of_error-Steady err h).balanced
failed_output-Balanced (some out) err h = Balanced-refl h

pub process_callback_vm_output-Balanced :
    (codec : Codec) (out : Option VmOutput) (err : Option VmError) (h : Host)
    → Balanced h (process_callback_vm_output codec out err h)
unfolding process_callback_vm_output set_return_message finish
process_callback_vm_output-Balanced codec out none h = Balanced-refl h
process_callback_vm_output-Balanced codec out (some e) h =
    let h1 = record h {
      runtime = record h.runtime {
        active = record h.runtime.active {
          vm_input = record h.runtime.vm_input { gas_provided = 0 };
        };
      };
    } in
    let b = failed_output-Balanced out e h1 in
    ground (arith, b.kept.frame, b.kept.protected, b.instances)

some-Balanced : (h : Host) (x r : Result) → some x ≡ some r → Balanced h x.0 → Balanced h r.0
some-Balanced h x r same b = ground (arith, same, b)

-- ExecuteOnDestContext leaves the stacks as it finds them.
module _ (hook : BlockchainHook) (engine : Engine) (codec : Codec)
    (execute_on_dest_context : ContractCallInput → Host → Executed)
    (calls : (call : ContractCallInput) (h : Host)
      → Balanced h (execute_on_dest_context call h).0) where
  execute_sync_destination_call-Balanced :
      (call : AsyncCallInfo) (h : Host)
      → Balanced h
          (execute_sync_destination_call hook engine codec execute_on_dest_context call h).0
  unfolding execute_sync_destination_call
  execute_sync_destination_call-Balanced call h =
      elim (Sum-cases (create_destination_contract_call_input engine call h)) [
        | inl (e, bad) ↦ ground (arith, bad, Balanced-refl h)
        | inr (input, good) ↦ ground (arith, good, calls input h)
      ]

  execute_sync_callback_call-Balanced :
      (call : AsyncCallInfo) (out : VmOutput) (err : Option VmError) (h : Host)
      → Balanced h
          (execute_sync_callback_call hook engine codec execute_on_dest_context call out err h).0
  unfolding execute_sync_callback_call
  execute_sync_callback_call-Balanced call out err h =
      let input =
        create_callback_contract_call_input engine codec call out call.destination
          callback_function_name err h in
      elim (Sum-cases input) [
        | inl (e, bad) ↦ ground (arith, bad, Balanced-refl h)
        | inr (next, good) ↦ ground (
          arith,
          good,
          Balanced-trans (restore_gas-Balanced call.gas_locked h)
              (calls next (restore_gas call.gas_locked h)),
        )
      ]

  call_back_after-Balanced :
      (call : AsyncCallInfo) (h h1 : Host) (out : Option VmOutput) (err : Option VmError)
      (r : Result)
      → Balanced h h1
      → call_back_after hook engine codec execute_on_dest_context call (h1, out, err) ≡ some r
      → Balanced h r.0
  unfolding call_back_after
  call_back_after-Balanced call h h1 none err r b done = ground (arith, done)
  call_back_after-Balanced call h h1 (some out) err r b done =
      let (h2, out', err') =
        execute_sync_callback_call hook engine codec execute_on_dest_context call out err h1 in
      some-Balanced h (process_callback_vm_output codec out' err' h2, none) r done
        (Balanced-trans b (
          Balanced-trans (execute_sync_callback_call-Balanced call out err h1)
            (process_callback_vm_output-Balanced codec out' err' h2)))

  call_and_call_back-Balanced :
      (call : AsyncCallInfo) (h : Host) (r : Result)
      → call_and_call_back hook engine codec execute_on_dest_context call h ≡ some r
      → Balanced h r.0
  unfolding call_and_call_back
  call_and_call_back-Balanced call h r done =
      let (h1, out, err) =
        execute_sync_destination_call hook engine codec execute_on_dest_context call h in
      call_back_after-Balanced call h h1 out err r (execute_sync_destination_call-Balanced call h)
        done

  run_in_mode-Balanced :
      (mode : AsyncCallExecutionMode) (call : AsyncCallInfo) (h : Host) (r : Result)
      → run_in_mode hook engine codec execute_on_dest_context mode call h ≡ some r
      → Balanced h r.0
  unfolding run_in_mode prepend_finish
  run_in_mode-Balanced sync_call call h r done = call_and_call_back-Balanced call h r done
  run_in_mode-Balanced async_builtin_func_intra_shard call h r done =
      call_and_call_back-Balanced call h r done
  run_in_mode-Balanced async_builtin_func_cross_shard call h r done =
      ground (arith, done, execute_sync_destination_call-Balanced call h)
  run_in_mode-Balanced esdt_transfer_on_call_back call h r done =
      let h1 = record h { output = prepend_finish call.content h.output } in
      let p : Balanced h h1 = ground arith in
      ground (arith, done, Balanced-trans p (restore_gas-Balanced call.gas_locked h1))
  run_in_mode-Balanced async_unknown call h r done =
      ground (arith, done, send_async_call_to_destination-Balanced hook call h)

  run_determined-Balanced :
      (call : AsyncCallInfo) (h h1 : Host) (mode : VmError ⊎ AsyncCallExecutionMode) (r : Result)
      → Balanced h h1
      → run_determined hook engine codec execute_on_dest_context call (h1, mode) ≡ some r
      → Balanced h r.0
  unfolding run_determined
  run_determined-Balanced call h h1 (inl err) r b done = some-Balanced h (h1, some err) r done b
  run_determined-Balanced call h h1 (inr m) r b done =
      Balanced-trans b (run_in_mode-Balanced m call h1 r done)

  handle_call-Balanced :
      (call : Option AsyncCallInfo) (h : Host) (r : Result)
      → handle_call hook engine codec execute_on_dest_context call h ≡ some r
      → Balanced h r.0
  unfolding handle_call
  handle_call-Balanced none h r done = ground (arith, done)
  handle_call-Balanced (some call) h r done =
      let (h1, mode) = determine_async_call_execution_mode hook engine call h in
      run_determined-Balanced call h h1 mode r (determine-Balanced hook engine call h) done

  -- Where ExecuteOnDestContext leaves the stacks of the contexts and the settings as it finds them,
  -- so does the handling of an asynchronous call that does not panic, in each of its modes and
  -- whether it fails or not.
  pub handle_async_call_breakpoint-Balanced :
      (h : Host) (r : Result)
      → handle_async_call_breakpoint hook engine codec execute_on_dest_context h ≡ some r
      → Balanced h r.0
  unfolding handle_async_call_breakpoint
  handle_async_call_breakpoint-Balanced h r done = Balanced-trans (breakpoint-Balanced h) (
      handle_call-Balanced h.runtime.async_call_info
        (set_runtime_breakpoint_value breakpoint_none h) r done)
