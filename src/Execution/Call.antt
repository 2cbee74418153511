-- ===== src/Execution/Call.antt =====
-- The execution of a contract's function inside a nested call: execute, executeUpgrade and what they
-- call in vmhost/hostCore/execution.go, and vmhost/hostCore/breakpoints.go.
use wasm_vm_v.Prelude.{
  ◌&&◌, true, false, not, inl, inr, Option, none, some, [], Bytes, bytes_equal, same_text,
  if◌then◌else◌,
}
use wasm_vm_v.Errors.{
  VmError, execution_failed, signal_error, not_enough_gas, nil_contract,
  unhandled_runtime_breakpoint, upgrade_not_allowed, init_func_called_in_run,
  invalid_upgrade_arguments, contract_invalid, nil_callback_function, out_of_gas, errors_is,
}
use wasm_vm_v.Output.{CodeDeployInput, set_return_code, deploy_code}
use wasm_vm_v.Host.{
  Host, Breakpoint, ContractCallInput, breakpoint_none, breakpoint_execution_failed,
  breakpoint_async_call, breakpoint_signal_error, breakpoint_out_of_gas,
}
use wasm_vm_v.Hook.{BlockchainHook, found, missing, failed}
use wasm_vm_v.Engine.{Engine}
use wasm_vm_v.Fault.{add_error}
use wasm_vm_v.Metering.Points.{
  use_gas, deduct_initial_gas_for_execution, deduct_initial_gas_for_direct_deployment,
}
use wasm_vm_v.Runtime.{must_verify_next_contract_code, extract_code_upgrade_from_args}
use wasm_vm_v.Runtime.Instances.{
  start_wasmer_instance, get_sc_code, get_function_to_call, get_init_function,
  upgrade_function_name,
}
use wasm_vm_v.Execution.{
  Result, and_then, or_error, check_return_code, check_final_gas_after_exit,
  is_init_function_being_called,
}

-- The deployment of a contract, as the upgrade and the creation of one describe it.
abbrev pub deploy_input : Bytes → Bytes → ContractCallInput → CodeDeployInput
deploy_input code metadata call = record {
  contract_code = code;
  contract_code_metadata = metadata;
  contract_address = call.recipient_addr;
  code_deployer_address = some call.caller_addr;
}

-- The initial gas of a deployment, and the return code if it is not there.
unfoldable pub deduct_for_deployment : Bytes → Host → Result
deduct_for_deployment code h =
    let (h', err) = deduct_initial_gas_for_direct_deployment code h in
    elim err [
      | none ↦ (h', none)
      | some e ↦ (record h' { output = set_return_code out_of_gas h'.output }, some e)
    ]

unfoldable pub check_upgrade_permission : BlockchainHook → ContractCallInput → Option VmError
check_upgrade_permission hook call = elim (hook.get_user_account call.recipient_addr) [
  | failed err ↦ some err
  | missing ↦ some nil_contract
  | found contract ↦
      if hook.is_upgradeable contract.code_metadata
        && bytes_equal call.caller_addr contract.owner_address
      then none
      else some upgrade_not_allowed
]

-- `host.handleAsyncCallBreakpoint` is `on_async_call`.
module _ (hook : BlockchainHook) (engine : Engine) (on_async_call : Host → Result) where
  unfoldable pub handle_breakpoint : Breakpoint → Host → Result
  handle_breakpoint breakpoint_async_call h = on_async_call h
  handle_breakpoint breakpoint_execution_failed h = (h, some execution_failed)
  handle_breakpoint breakpoint_signal_error h = (h, some signal_error)
  handle_breakpoint breakpoint_out_of_gas h = (h, some not_enough_gas)
  handle_breakpoint breakpoint_none h = (h, some unhandled_runtime_breakpoint)

  -- The error that is left of the one that a function has returned.
  unfoldable pub handle_breakpoint_if_any : Result → Result
  handle_breakpoint_if_any (h, none) = (h, none)
  handle_breakpoint_if_any (h, some execution_err) = elim h.runtime.breakpoint [
    | breakpoint_none ↦ (h, some execution_failed)
    | value ↦ let (h', err) = handle_breakpoint value h in (add_error err [] h', err)
  ]

  unfoldable pub call_sc_method_indirect : Host → Result
  call_sc_method_indirect h = elim (get_function_to_call engine h) [
    | inl err ↦ (h, if errors_is err nil_callback_function then none else some err)
    | inr function ↦ handle_breakpoint_if_any (function h)
  ]

  unfoldable pub call_init_function : Host → Result
  call_init_function h = elim (get_init_function engine h) [
    | none ↦ (h, none)
    | some init ↦
        and_then (handle_breakpoint_if_any (init h)) (λ h'. (h', check_final_gas_after_exit h'))
  ]

  -- A new instance of code that has to be verified, and its init function.
  unfoldable pub run_new_code : Bytes → Host → Result
  run_new_code code h = and_then (deduct_for_deployment code h) (λ h1.
      let h2 = record h1 { runtime = must_verify_next_contract_code h1.runtime } in
      and_then
        (or_error contract_invalid
          (start_wasmer_instance engine hook code h2.metering.gas_for_execution true h2))
        call_init_function)

  unfoldable pub deploy_upgrade : ContractCallInput → Bytes → Bytes → Host → Result
  deploy_upgrade call code metadata h = and_then (run_new_code code h) (λ h'.
      check_return_code
        (record h' { output = deploy_code (deploy_input code metadata call) h'.output }))

  unfoldable pub execute_upgrade : ContractCallInput → Host → Result
  execute_upgrade call h = elim (check_upgrade_permission hook call) [
    | some err ↦ (h, some err)
    | none ↦
        let (r, arguments) = extract_code_upgrade_from_args h.runtime in
        let h1 = record h { runtime = r } in
        elim arguments [
          | inl err ↦ (h1, some invalid_upgrade_arguments)
          | inr (code, metadata) ↦ deploy_upgrade call code metadata h1
        ]
  ]

  -- A new instance of the code that the contract has, and the function that is called.
  unfoldable pub run_contract : Bytes → Host → Result
  run_contract contract h = and_then (deduct_initial_gas_for_execution contract h) (λ h1.
      and_then (start_wasmer_instance engine hook contract h1.metering.gas_for_execution false h1)
        (λ h2. and_then (call_sc_method_indirect h2) check_return_code))

  unfoldable pub execute : ContractCallInput → Host → Result
  execute call h =
      let charged = use_gas call.gas_provided h in
      let (h1, code) = get_sc_code hook charged in
      if is_init_function_being_called h && not call.allow_init_function
      then (h, some init_func_called_in_run)
      else (if same_text call.function upgrade_function_name
          then execute_upgrade call charged
          else elim code [ inl err ↦ (h1, some err) | inr contract ↦ run_contract contract h1 ])
