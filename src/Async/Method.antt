-- ===== src/Async/Method.antt =====
-- The call of a contract that the node starts: callSCMethod and doRunSmartContractCall of
-- vmhost/hostCore/execution.go. `none` is a panic of Go, which ends the run.
use wasm_vm_v.Prelude.{
  Bool, true, false, ◌&&◌, inl, inr, Option, none, some, is_empty, if◌then◌else◌,
}
use wasm_vm_v.Errors.{
  not_enough_gas, contract_not_found, contract_invalid, nil_callback_function, errors_is,
}
use wasm_vm_v.Output.Types.{
  CallType, VmOutput, direct_call, asynchronous_call, asynchronous_call_back,
  esdt_transfer_and_execute,
}
use wasm_vm_v.Host.{Host, ContractCallInput}
use wasm_vm_v.Hook.{BlockchainHook}
use wasm_vm_v.Engine.{Engine}
use wasm_vm_v.FinalOutput.{get_vm_output, create_vm_output_in_case_of_error}
use wasm_vm_v.Metering.Points.{deduct_initial_gas_for_execution}
use wasm_vm_v.Runtime as R
use wasm_vm_v.Runtime.Instances.{get_sc_code, start_wasmer_instance}
use wasm_vm_v.Transfer.{is_asynchronous_call_back}
use wasm_vm_v.Execution.{
  Result, and_then, or_error, verify_allowed_function_call, check_final_gas_after_exit,
  check_gas_for_get_code,
}
use wasm_vm_v.Execution.Call.{handle_breakpoint_if_any}
use wasm_vm_v.Execution.Direct.{init_contexts, enter_run, clean, end_run}
use wasm_vm_v.Async.{Codec, Executed}
use wasm_vm_v.Async.Modes.{send_callback_to_current_caller}
use wasm_vm_v.Async.Process.{process_async_info}
use wasm_vm_v.Async.Callback.{Function, get_function_by_call_type, process_callback_stack}

-- `handleAsyncCallBreakpoint` is `on_async_call` here.
module _ (hook : BlockchainHook) (engine : Engine) (codec : Codec) (on_async_call : Host → Result)
    (execute_on_dest_context : ContractCallInput → Host → Executed) where
  -- The asynchronous calls of a function that has returned; its caller is called back if none is
  -- pending.
  unfoldable pub process_own_calls : Bool → Host → Option Result
  process_own_calls call_back h =
      elim (process_async_info hook engine codec execute_on_dest_context
        h.runtime.async_context_info h) [
          | none ↦ none
          | some (h', info, result) ↦ elim result [
            | inl e ↦ some (h', some e)
            | inr pending ↦ some (
                if call_back && is_empty pending.async_context_map
                then send_callback_to_current_caller hook codec h'
                else (h', none))
          ]
        ]

  unfoldable pub after_call : CallType → Host → Option Result
  after_call asynchronous_call h = process_own_calls true h
  after_call asynchronous_call_back h = process_callback_stack hook engine codec h
  after_call direct_call h = process_own_calls false h
  after_call esdt_transfer_and_execute h = process_own_calls false h

  -- The function, its breakpoint, and the check of its gas.
  unfoldable pub run_function : Function → Host → Result
  run_function f h =
      and_then (handle_breakpoint_if_any hook engine on_async_call (f h))
        (λ h'. (h', check_final_gas_after_exit h'))

  unfoldable pub run_method : CallType → Function → Host → Option Result
  run_method call_type f h =
      let (h', err) = run_function f h in
      elim err [ some e ↦ some (h', some e) | none ↦ after_call call_type h' ]

  unfoldable pub call_sc_method : Host → Option Result
  call_sc_method h =
      let call_type = h.runtime.vm_input.call_type in
      let (h1, function) = get_function_by_call_type hook engine codec call_type h in
      elim (verify_allowed_function_call h) [
        | some err ↦ some (h, some err)
        | none ↦ elim function [
          | inl err ↦
              if is_asynchronous_call_back call_type && errors_is err nil_callback_function
              then process_callback_stack hook engine codec h1
              else some (h1, some err)
          | inr found ↦ elim found [ none ↦ none | some f ↦ run_method call_type f h1 ]
        ]
      ]

  -- The code of the contract, its initial gas, and its instance.
  unfoldable pub prepare_call : ContractCallInput → Host → Result
  prepare_call call h = elim (check_gas_for_get_code call h) [
    | some e ↦ (h, some not_enough_gas)
    | none ↦
        let (h1, code) = get_sc_code hook h in
        elim code [
          | inl e ↦ (h1, some contract_not_found)
          | inr contract ↦
              and_then (or_error not_enough_gas (deduct_initial_gas_for_execution contract h1))
                (λ h2. or_error contract_invalid (
                  start_wasmer_instance engine hook contract h2.metering.gas_for_execution false
                    h2))
        ]
  ]

  -- The output of the run, or one for its error.
  unfoldable pub finish_call : Result → Host × VmOutput
  finish_call (h, some e) = create_vm_output_in_case_of_error e h
  finish_call (h, none) = let (h', out) = get_vm_output h in (clean h', out)

  unfoldable pub do_run_smart_contract_call : ContractCallInput → Host → Option (Host × VmOutput)
  do_run_smart_contract_call call h =
      let h1 = init_contexts h in
      let h2 =
        enter_run hook engine on_async_call call.recipient_addr call.input
          (record h1 { runtime = R.init_state_from_contract_call_input call h1.runtime }) in
      let (h3, err) = prepare_call call h2 in
      elim err [
        | some e ↦ some (end_run (finish_call (h3, some e)))
        | none ↦ elim (call_sc_method h3) [
          | none ↦ none
          | some result ↦ some (end_run (finish_call result))
        ]
      ]
