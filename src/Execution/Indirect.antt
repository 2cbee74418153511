-- ===== src/Execution/Indirect.antt =====
-- The calls that the API offers to contracts: ExecuteOnDestContext with built-in functions and
-- snapshots, and CreateNewContract, of vmhost/hostCore/execution.go.
use wasm_vm_v.Prelude.{
  true, ◌⊎◌, inl, inr, Option, none, some, [], ◌∷◌, Bytes, bytes_eq, if◌then◌else◌,
}
use wasm_vm_v.Errors.{
  VmError, invalid_account, invalid_call_on_read_only_mode, deployment_over_existing_account,
}
use wasm_vm_v.Output.{deploy_code, delete_output_account}
use wasm_vm_v.Output.Types.{VmOutput}
use wasm_vm_v.Host.{Host, ContractCallInput, ContractCreateInput, AsyncContextInfo}
use wasm_vm_v.Hook.{BlockchainHook, found, missing, failed}
use wasm_vm_v.Engine.{Engine, is_builtin_function_name}
use wasm_vm_v.Fault.{add_error}
use wasm_vm_v.FinalOutput.{create_vm_output_in_case_of_error}
use wasm_vm_v.Metering.Points.{deduct_initial_gas_for_indirect_deployment}
use wasm_vm_v.Blockchain.{new_address, account_exists, increase_nonce}
use wasm_vm_v.Blockchain.State.{push_state, pop_set_active_state, pop_discard}
use wasm_vm_v.Runtime.{must_verify_next_contract_code}
use wasm_vm_v.Runtime.Instances.{init_function_name}
use wasm_vm_v.Execution.{Result}
use wasm_vm_v.Execution.Nested.{execute_on_dest_context_no_builtin_function}
use wasm_vm_v.Execution.Builtin.{handle_builtin_function_call}

-- The node goes back to the snapshot after an error, and the snapshot is dropped after a success.
unfoldable pub settle : Option VmError → Host → Host
settle none h = record h { blockchain = pop_discard h.blockchain }
settle (some err) h = record h { blockchain = pop_set_active_state h.blockchain }

module _ (hook : BlockchainHook) (engine : Engine) (on_async_call : Host → Result)
    (process_async_info : AsyncContextInfo → Host → Result) where
  -- The execution of a contract, and what becomes of the snapshot.
  unfoldable pub call_and_settle :
      ContractCallInput → Host → Host × Option VmOutput × Option VmError
  call_and_settle call h =
      let (h', out, err) =
        execute_on_dest_context_no_builtin_function hook engine on_async_call process_async_info
          call h in
      (settle err h', some out, err)

  -- A built-in function that has failed.
  unfoldable pub builtin_failure :
      ContractCallInput → VmError → Host → Host × Option VmOutput × Option VmError
  builtin_failure call err h =
      let reverted = settle (some err) h in
      let (h', out) =
        create_vm_output_in_case_of_error err
          (add_error (some err) (call.function ∷ []) reverted) in
      (h', some out, some err)

  -- A built-in function, and the call of a contract that it may lead to.
  unfoldable pub call_builtin_and_settle :
      ContractCallInput → Host → Host × Option VmOutput × Option VmError
  call_builtin_and_settle call h =
      let (h', result) = handle_builtin_function_call engine hook call h in
      elim result [
        | inl err ↦ builtin_failure call err h'
        | inr (next, out) ↦ elim next [
          | none ↦ (settle none h', some out, none)
          | some next_call ↦ call_and_settle next_call h'
        ]
      ]

  unfoldable pub execute_on_dest_context :
      ContractCallInput → Host → Host × Option VmOutput × Option VmError
  execute_on_dest_context call h =
      let h1 = record h { blockchain = push_state hook h.blockchain } in
      if is_builtin_function_name engine call.function
      then call_builtin_and_settle call h1
      else call_and_settle call h1

  -- The call of the init function of a new contract.
  abbrev pub init_call_input : Bytes → ContractCreateInput → ContractCallInput
  init_call_input addr create = record {
    input = create.input;
    recipient_addr = addr;
    function = init_function_name;
    allow_init_function = true;
  }

  -- The code is put into the output before its init function runs, and is taken out again if that
  -- fails.
  unfoldable pub deploy_and_init : ContractCreateInput → Bytes → Host → Host × (VmError ⊎ Bytes)
  deploy_and_init create addr h =
      let deployed = record h {
        output =
            deploy_code
              (record {
                contract_code = create.contract_code;
                contract_code_metadata = create.contract_code_metadata;
                contract_address = addr;
                code_deployer_address = some create.caller_addr;
              })
              h.output;
        runtime = must_verify_next_contract_code h.runtime;
      } in
      let (h', _, err) = execute_on_dest_context (init_call_input addr create) deployed in
      elim err [
        | some e ↦ (record h' { output = delete_output_account addr h'.output }, inl e)
        | none ↦ (increase_nonce hook create.caller_addr h', inr addr)
      ]

  -- The address of the new contract. A nil address without an error does not come from the node.
  unfoldable pub deploy_at_new_address : ContractCreateInput → Host → Host × (VmError ⊎ Bytes)
  deploy_at_new_address create h =
      let (h', answer) = new_address hook create.caller_addr h in
      elim answer [
        | failed err ↦ (h', inl err)
        | missing ↦ (h', inl invalid_account)
        | found addr ↦
            if account_exists hook addr
            then (h', inl deployment_over_existing_account)
            else deploy_and_init create addr h'
      ]

  unfoldable pub create_new_contract : ContractCreateInput → Host → Host × (VmError ⊎ Bytes)
  create_new_contract create h =
      let (h', err) = deduct_initial_gas_for_indirect_deployment create.contract_code h in
      elim err [
        | some e ↦ (h', inl e)
        | none ↦
            if h'.runtime.read_only
            then (h', inl invalid_call_on_read_only_mode)
            else deploy_at_new_address create h'
      ]
