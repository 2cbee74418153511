-- ===== src/Execution/Direct.antt =====
-- Executions that the node starts: InitState of vmhost/hostCore/host.go, and the creation and the
-- upgrade of a contract in vmhost/hostCore/execution.go.
use wasm_vm_v.Prelude.{◌⊎◌, inl, inr, none, some, [], Bytes}
use wasm_vm_v.Errors.{VmError, invalid_upgrade_arguments}
use wasm_vm_v.Output as O
use wasm_vm_v.Output.{CodeDeployInput, deploy_code, add_tx_value_to_account}
use wasm_vm_v.Output.Types.{VmOutput}
use wasm_vm_v.BigInt as B
use wasm_vm_v.Storage as S
use wasm_vm_v.Storage.{set_address}
use wasm_vm_v.Metering.State as M
use wasm_vm_v.Runtime as R
use wasm_vm_v.Runtime.{
  set_vm_input, clean_wasmer_instance, must_verify_next_contract_code,
  extract_code_upgrade_from_args,
}
use wasm_vm_v.Host.{Host, ContractCallInput, ContractCreateInput, VmInput}
use wasm_vm_v.Hook.{BlockchainHook, found, missing, failed}
use wasm_vm_v.Engine.{Engine}
use wasm_vm_v.FinalOutput.{get_vm_output, create_vm_output_in_case_of_error}
use wasm_vm_v.Blockchain.{new_address}
use wasm_vm_v.Execution.{Result}
use wasm_vm_v.Execution.Call.{deploy_input, run_new_code}

-- The stacks of five contexts, but for that of the blockchain context.
unfoldable pub clear_context_state_stack : Host → Host
clear_context_state_stack h = record h {
  big_int = B.clear_state_stack h.big_int;
  output = O.clear_state_stack h.output;
  metering = M.clear_state_stack h.metering;
  runtime = R.clear_state_stack h.runtime;
  storage = S.clear_state_stack h.storage;
}

-- InitState of the storage context does nothing.
unfoldable pub init_contexts : Host → Host
unfolding clear_context_state_stack
init_contexts h =
    let h' = clear_context_state_stack h in
    record h' {
      big_int = B.init_state h'.big_int;
      output = O.init_state h'.output;
      metering = M.init_state h'.metering;
      runtime = R.init_state h'.runtime;
    }

-- `host.Clean()`.
unfoldable pub clean : Host → Host
clean h = record h { runtime = clean_wasmer_instance h.runtime }

-- The output of a run that has ended, and the host cleaned.
unfoldable pub end_run : Host × VmOutput → Host × VmOutput
end_run (h, out) = (clean h, out)

module _ (hook : BlockchainHook) (engine : Engine) (on_async_call : Host → Result) where
  unfoldable pub perform_code_deployment : CodeDeployInput → Host → Host × (VmError ⊎ VmOutput)
  perform_code_deployment input h =
      let (h1, err) = run_new_code hook engine on_async_call input.contract_code h in
      elim err [
        | some e ↦ (h1, inl e)
        | none ↦
            let (h2, out) = get_vm_output (record h1 { output = deploy_code input h1.output }) in
            (clean h2, inr out)
      ]

  -- The output of the deployment, or one for its error.
  unfoldable pub deploy_or_fail : CodeDeployInput → Host → Host × VmOutput
  deploy_or_fail input h =
      let (h', result) = perform_code_deployment input h in
      elim result [ inr out ↦ (h', out) | inl e ↦ create_vm_output_in_case_of_error e h' ]

  -- The contexts of a run, once the runtime context has its input.
  unfoldable pub enter_run : Bytes → VmInput → Host → Host
  enter_run addr input h = record h {
    metering = (M.init_state_from_contract_call_input input h.metering).0;
    output = add_tx_value_to_account addr input.call_value h.output;
    storage = set_address h.runtime.sc_address h.storage;
  }

  unfoldable pub run_create : ContractCreateInput → Bytes → Host → Host × VmOutput
  run_create create addr h =
      let r = set_vm_input create.input h.runtime in
      let entered =
        enter_run addr create.input
          (record h { runtime = record r { active = record r.active { sc_address = addr } } }) in
      deploy_or_fail
        (record {
          contract_code = create.contract_code;
          contract_code_metadata = create.contract_code_metadata;
          contract_address = addr;
          code_deployer_address = some create.caller_addr;
        })
        entered

  unfoldable pub do_run_smart_contract_create : ContractCreateInput → Host → Host × VmOutput
  do_run_smart_contract_create create h =
      let (h1, answer) = new_address hook create.caller_addr (init_contexts h) in
      elim answer [
        | failed e ↦ end_run (create_vm_output_in_case_of_error e h1)
        | missing ↦ end_run (run_create create [] h1)
        | found addr ↦ end_run (run_create create addr h1)
      ]

  unfoldable pub do_run_smart_contract_upgrade : ContractCallInput → Host → Host × VmOutput
  do_run_smart_contract_upgrade call h =
      let h1 = init_contexts h in
      let h2 =
        enter_run call.recipient_addr call.input
          (record h1 { runtime = R.init_state_from_contract_call_input call h1.runtime }) in
      let (r, arguments) = extract_code_upgrade_from_args h2.runtime in
      let h3 = record h2 { runtime = r } in
      elim arguments [
        | inl e ↦ end_run (create_vm_output_in_case_of_error invalid_upgrade_arguments h3)
        | inr (code, metadata) ↦ end_run (deploy_or_fail (deploy_input code metadata call) h3)
      ]
