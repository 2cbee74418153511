-- ===== src/Execution/Nested.antt =====
-- Calls of a contract by a contract: executeOnDestContextNoBuiltinFunction, ExecuteOnSameContext
-- and their two endings in vmhost/hostCore/execution.go. What they also return of the asynchronous
-- calls of the callee, for the host to continue with, is left out.
use wasm_vm_v.Prelude.{false, ◌||◌, not, Option, none, some, [], ◌∷◌, if◌then◌else◌}
use wasm_vm_v.Prelude.Division.{is_zero}
use wasm_vm_v.Errors.{VmError, execution_failed, builtin_call_on_same_context_disallowed}
use wasm_vm_v.Output.{censor_vm_output}
use wasm_vm_v.Output as O
use wasm_vm_v.Output.Types.{VmOutput}
use wasm_vm_v.BigInt as B
use wasm_vm_v.Storage.{set_address}
use wasm_vm_v.Storage as S
use wasm_vm_v.Metering.State as M
use wasm_vm_v.Blockchain.State as K
use wasm_vm_v.Runtime as R
use wasm_vm_v.Host.{Host, ContractCallInput, AsyncContextInfo}
use wasm_vm_v.Hook.{BlockchainHook}
use wasm_vm_v.Engine.{Engine, is_builtin_function_name}
use wasm_vm_v.Fault.{add_error}
use wasm_vm_v.FinalOutput.{get_vm_output, create_vm_output_in_case_of_error}
use wasm_vm_v.Metering.Points.{restore_gas}
use wasm_vm_v.Transfer.{transfer_value_only, is_asynchronous_call_back}
use wasm_vm_v.Execution.{Result, and_then, is_ok, copy_tx_hashes_from_context}
use wasm_vm_v.Execution.Call.{execute}

-- The contexts are pushed and made new for the call; the input is that which they leave behind.
unfoldable pub enter_dest_context : ContractCallInput → Host → Host × ContractCallInput
enter_dest_context call h =
    let call' = copy_tx_hashes_from_context h.flags.esdt_functions_enabled h.runtime call in
    let (m, input) = M.init_state_from_contract_call_input call'.input (M.push_state h.metering) in
    (
      record h {
        big_int = B.init_state (B.push_state h.big_int);
        output = censor_vm_output (O.push_state h.output);
        runtime = R.init_state_from_contract_call_input call' (R.push_state h.runtime);
        metering = m;
        storage = set_address call.recipient_addr (S.push_state h.storage);
      },
      record call' { input = input },
    )

-- Without the storage context, whose address stays that of the caller, and with the blockchain
-- context.
unfoldable pub enter_same_context :
    BlockchainHook → ContractCallInput → Host → Host × ContractCallInput
enter_same_context hook call h =
    let call' = copy_tx_hashes_from_context h.flags.esdt_functions_enabled h.runtime call in
    let (m, input) = M.init_state_from_contract_call_input call'.input (M.push_state h.metering) in
    (
      record h {
        big_int = B.push_state h.big_int;
        output = O.push_state h.output;
        runtime = R.init_state_from_contract_call_input call' (R.push_state h.runtime);
        metering = m;
        blockchain = K.push_state hook h.blockchain;
      },
      record call' { input = input },
    )

-- The contexts of the caller are popped, and the gas that remains is restored to its instance.
unfoldable pub close_dest_context : VmOutput → Host → Host
close_dest_context out h =
    let success = is_ok out.return_code in
    restore_gas out.gas_remaining (record h {
      big_int = B.pop_set_active_state h.big_int;
      storage = S.pop_set_active_state h.storage;
      metering =
          if success
          then M.pop_merge_active_state h.metering
          else M.pop_set_active_state h.metering;
      output =
          if success then O.pop_merge_active_state h.output else O.pop_set_active_state h.output;
      runtime = R.pop_set_active_state h.runtime;
    })

-- The output of the call: that of its contexts, or one for the error.
unfoldable pub call_output : Option VmError → Host → Host × VmOutput
call_output none h = get_vm_output h
call_output (some err) h = create_vm_output_in_case_of_error err h

unfoldable pub finish_execute_on_dest_context : Option VmError → Host → Host × VmOutput
finish_execute_on_dest_context err h =
    let (h', out) = call_output err h in (close_dest_context out h', out)

unfoldable pub finish_execute_on_same_context : Option VmError → Host → Host
finish_execute_on_same_context err h =
    let undone = record h {
      big_int = B.pop_set_active_state h.big_int;
      metering = M.pop_set_active_state h.metering;
      output = O.pop_set_active_state h.output;
      runtime = R.pop_set_active_state h.runtime;
      blockchain = K.pop_set_active_state h.blockchain;
    } in
    let (h1, out) = get_vm_output h in
    let kept = record h1 {
      metering = M.pop_merge_active_state h1.metering;
      output = O.pop_discard h1.output;
      big_int = B.pop_discard h1.big_int;
      blockchain = K.pop_discard h1.blockchain;
      runtime = R.pop_set_active_state h1.runtime;
    } in
    elim err [
      | some e ↦ undone
      | none ↦
          if is_ok h.output.output_state.return_code
          then restore_gas out.gas_remaining kept
          else undone
    ]

unfoldable pub transfer_to_callee : BlockchainHook → ContractCallInput → Host → Result
transfer_to_callee hook call h =
    if not (is_asynchronous_call_back call.call_type) || is_zero call.call_value
    then transfer_value_only hook call.recipient_addr call.caller_addr call.call_value false h
    else (h, none)

-- `host.handleAsyncCallBreakpoint` is `on_async_call`, `host.processAsyncInfo` is
-- `process_async_info`.
module _ (hook : BlockchainHook) (engine : Engine) (on_async_call : Host → Result) where
  unfoldable pub run_on_same_context : ContractCallInput → Host → Result
  run_on_same_context call h =
      and_then
        (transfer_value_only hook call.recipient_addr call.caller_addr call.call_value false h)
        (execute hook engine on_async_call call)

  unfoldable pub execute_on_same_context : ContractCallInput → Host → Result
  execute_on_same_context call h =
      let (h1, call') = enter_same_context hook call h in
      let (h2, err) = run_on_same_context call' h1 in
      if is_builtin_function_name engine call.function
      then (h, some builtin_call_on_same_context_disallowed)
      else (finish_execute_on_same_context err (add_error err (call.function ∷ []) h2), err)

  module _ (process_async_info : AsyncContextInfo → Host → Result) where
    unfoldable pub run_on_dest_context : ContractCallInput → Host → Result
    run_on_dest_context call h = and_then (transfer_to_callee hook call h) (λ h1.
        and_then (execute hook engine on_async_call call h1)
          (λ h2. process_async_info h2.runtime.async_context_info h2))

    unfoldable pub execute_on_dest_context_no_builtin_function :
        ContractCallInput → Host → Host × VmOutput × Option VmError
    execute_on_dest_context_no_builtin_function call h =
        let (h1, call') = enter_dest_context call h in
        let (h2, err) = run_on_dest_context call' h1 in
        let (h3, out) = finish_execute_on_dest_context err h2 in
        (
          h3,
          out,
          elim err [
            | some e ↦ some e
            | none ↦ if is_ok out.return_code then none else some execution_failed
          ],
        )
