-- ===== src/Execution/Returns.antt =====
-- What the execution of a call leaves to its caller: the stacks, and the caller's instance with the
-- gas of the call charged to it.
use Prim.Native.String.{String}
use wasm_vm_v.Prelude.{
  Bool, ap, subst, ◌≡◌, refl, ◌∙◌, inl, inr, false, ◌&&◌, not, none, some, List, ◌∷◌, Bytes, arith,
  if◌then◌else◌, ℕ, Bool-cases, Option-cases, Sum-cases,
}
use wasm_vm_v.Errors.{init_func_called_in_run, invalid_upgrade_arguments}
use wasm_vm_v.Host.{
  Host, Instance, InstancePointer, same_instance, AsyncContextInfo, ContractCallInput,
}
use wasm_vm_v.Hook.{BlockchainHook}
use wasm_vm_v.Engine.{Engine}
use wasm_vm_v.Metering.Points.{use_gas}
use wasm_vm_v.Output.{CodeDeployInput, deploy_code}
use wasm_vm_v.Transfer.{transfer_value_only}
use wasm_vm_v.Runtime.{extract_code_upgrade_from_args}
use wasm_vm_v.Runtime.Instances.{get_sc_code}
use wasm_vm_v.Execution.{
  Result, and_then, check_return_code, is_init_function_being_called, is_init_name,
}
use wasm_vm_v.Execution.Call.{
  deploy_input, check_upgrade_permission, run_new_code, deploy_upgrade, execute_upgrade,
  run_contract, execute,
}
use wasm_vm_v.Execution.Nested.{transfer_to_callee, run_on_dest_context, run_on_same_context}
use wasm_vm_v.Execution.Frame.{
  frame_of, Kept-refl, Kept-trans, Balanced, Steady, Steady-refl, use_gas-Balanced,
  get_sc_code-Steady, deploy_code_stack, transfer_value_only-Steady,
}
use wasm_vm_v.Execution.Runs.{run_new_code-Ends, run_contract-Ends}
use wasm_vm_v.Execution.Away.{At, At-Steady, Ends, failed-Ends, Ends-after, Ends-and_then}

-- The init function of a contract is called without leave.
abbrev pub is_refused : ContractCallInput → Host → Bool
is_refused call h = is_init_function_being_called h && not call.allow_init_function

-- The caller's instance after the gas of the call was charged, if it was.
abbrev pub charged_instance : ContractCallInput → Host → Instance
charged_instance call h =
    if is_refused call h then h.runtime.instance else (use_gas call.gas_provided h).runtime.instance

extract-Steady :
    (h : Host) → Steady h (record h { runtime = (extract_code_upgrade_from_args h.runtime).0 })
unfolding extract_code_upgrade_from_args
extract-Steady h = ground arith

deploy_code-Balanced :
    (input : CodeDeployInput) (h : Host)
    → Balanced h (check_return_code (record h { output = deploy_code input h.output })).0
unfolding check_return_code
deploy_code-Balanced input h = record {
  kept = record {
    frame =
        ap (λ outputs. record (frame_of h) { outputs = outputs })
          (deploy_code_stack input h.output);
    protected = λ p. p;
  };
  instances = refl;
}

pub same_refusal :
    (call : ContractCallInput) {h h' : Host} → Steady h h' → is_refused call h' ≡ is_refused call h
unfolding is_init_function_being_called
same_refusal call p = ap (λ name. is_init_name name && not call.allow_init_function) p.function

same_charge :
    (call : ContractCallInput) {h h' : Host}
    → Steady h h'
    → charged_instance call h' ≡ charged_instance call h
unfolding use_gas
same_charge call {h} {h'} p = ground (arith, same_refusal call p, p.instance)

-- The caller's instance when the call returns: nothing is charged where the transfer of the value
-- has failed.
abbrev pub paid_instance : ContractCallInput → Result → Host → Instance
paid_instance call (h1, none) h = charged_instance call h
paid_instance call (h1, some e) h = h.runtime.instance

pub transfer_to_callee-Steady :
    (hook : BlockchainHook) (call : ContractCallInput) (h : Host)
    → Steady h (transfer_to_callee hook call h).0
unfolding transfer_to_callee
transfer_to_callee-Steady hook call h = ground (
  arith,
  Steady-refl h,
  transfer_value_only-Steady hook call.recipient_addr call.caller_addr call.call_value false h,
)

-- A transfer, and then an execution that charges the call.
paid-Ends :
    (call : ContractCallInput) (s : List InstancePointer) (h : Host) (r : Result)
    (run : Host → Result)
    → h.runtime.instance_stack ≡ same_instance ∷ s
    → Steady h r.0
    → ((h1 : Host)
        → h1.runtime.instance_stack ≡ same_instance ∷ s
        → Ends (charged_instance call h1) s h1 (run h1))
    → Ends (paid_instance call r h) s h (and_then r run)
paid-Ends call s h (h1, some e) run pushed p q =
    failed-Ends h.runtime.instance s h h1 e p.balanced.kept
      (At-Steady (record { current = refl; pushed = pushed }) p)
paid-Ends call s h (h1, none) run pushed p q =
    subst (λ c. Ends c s h (run h1)) (same_charge call p)
      (Ends-after (charged_instance call h1) s h h1 (run h1) p.balanced.kept
        (q h1 (p.balanced.instances ∙ pushed)))

-- The contract's functions and the handling of asynchronous calls leave the stacks as they find
-- them.
module _ (hook : BlockchainHook) (engine : Engine) (on_async_call : Host → Result)
    (functions : (exports : ℕ) (name : String) (h : Host)
      → Balanced h (engine.function exports name h).0)
    (async : (h : Host) → Balanced h (on_async_call h).0) where
  deploy_upgrade-Ends :
      (call : ContractCallInput) (code metadata : Bytes) (c : Instance) (s : List InstancePointer)
      (h : Host)
      → At c s h
      → Ends c s h (deploy_upgrade hook engine on_async_call call code metadata h)
  unfolding deploy_upgrade
  deploy_upgrade-Ends call code metadata c s h a =
      Ends-and_then c s h (run_new_code hook engine on_async_call code h) _
        (run_new_code-Ends hook engine on_async_call functions async code c s h a)
        (deploy_code-Balanced (deploy_input code metadata call))

  execute_upgrade-Ends :
      (call : ContractCallInput) (c : Instance) (s : List InstancePointer) (h : Host)
      → At c s h
      → Ends c s h (execute_upgrade hook engine on_async_call call h)
  unfolding execute_upgrade
  execute_upgrade-Ends call c s h a =
      let h1 = record h { runtime = (extract_code_upgrade_from_args h.runtime).0 } in
      let p : Steady h h1 = extract-Steady h in
      let a1 : At c s h1 = At-Steady a p in
      elim (Option-cases (check_upgrade_permission hook call)) [
        | inr (e, refused) ↦ ground (arith, refused, failed-Ends c s h h e (Kept-refl h) a)
        | inl allowed ↦ elim (Sum-cases (extract_code_upgrade_from_args h.runtime).1) [
          | inl (e, bad) ↦ ground (
            arith,
            allowed,
            bad,
            failed-Ends c s h h1 invalid_upgrade_arguments p.balanced.kept a1,
          )
          | inr ((code, metadata), good) ↦ ground (
            arith,
            allowed,
            good,
            Ends-after c s h h1 (deploy_upgrade hook engine on_async_call call code metadata h1)
                p.balanced.kept (deploy_upgrade-Ends call code metadata c s h1 a1),
          )
        ]
      ]

  pub execute-Ends :
      (call : ContractCallInput) (s : List InstancePointer) (h : Host)
      → h.runtime.instance_stack ≡ same_instance ∷ s
      → Ends (charged_instance call h) s h (execute hook engine on_async_call call h)
  unfolding execute
  execute-Ends call s h pushed =
      let charged = use_gas call.gas_provided h in
      let c = charged.runtime.instance in
      let p = use_gas-Balanced call.gas_provided h in
      let a : At c s charged = record { current = refl; pushed = p.instances ∙ pushed } in
      let q = get_sc_code-Steady hook charged in
      let h1 = (get_sc_code hook charged).0 in
      let a1 : At c s h1 = At-Steady a q in
      let upgrade =
        Ends-after c s h charged (execute_upgrade hook engine on_async_call call charged) p.kept
          (execute_upgrade-Ends call c s charged a) in
      elim (Bool-cases (is_refused call h)) [
        | inl refused ↦ ground (
          arith,
          refused,
          failed-Ends h.runtime.instance s h h init_func_called_in_run (Kept-refl h)
              (record { current = refl; pushed = pushed }),
        )
        | inr allowed ↦ elim (Sum-cases (get_sc_code hook charged).1) [
          | inl (e, no_code) ↦ ground (
            arith,
            allowed,
            no_code,
            upgrade,
            failed-Ends c s h h1 e (Kept-trans p.kept q.balanced.kept) a1,
          )
          | inr (code, has_code) ↦ ground (
            arith,
            allowed,
            has_code,
            upgrade,
            Ends-after c s h h1 (run_contract hook engine on_async_call code h1)
                (Kept-trans p.kept q.balanced.kept)
                (run_contract-Ends hook engine on_async_call functions async code c s h1 a1),
          )
        ]
      ]

  pub run_on_same_context-Ends :
      (call : ContractCallInput) (s : List InstancePointer) (h : Host)
      → h.runtime.instance_stack ≡ same_instance ∷ s
      → Ends
          (paid_instance call
            (transfer_value_only hook call.recipient_addr call.caller_addr call.call_value false h)
            h)
          s
          h
          (run_on_same_context hook engine on_async_call call h)
  unfolding run_on_same_context
  run_on_same_context-Ends call s h pushed =
      let r =
        transfer_value_only hook call.recipient_addr call.caller_addr call.call_value false h in
      let p =
        transfer_value_only-Steady hook call.recipient_addr call.caller_addr call.call_value false
          h in
      paid-Ends call s h r (execute hook engine on_async_call call) pushed p (execute-Ends call s)

  module _ (process_async_info : AsyncContextInfo → Host → Result)
      (process : (info : AsyncContextInfo) (h : Host)
        → Balanced h (process_async_info info h).0) where
    pub run_on_dest_context-Ends :
        (call : ContractCallInput) (s : List InstancePointer) (h : Host)
        → h.runtime.instance_stack ≡ same_instance ∷ s
        → Ends
            (paid_instance call (transfer_to_callee hook call h) h)
            s
            h
            (run_on_dest_context hook engine on_async_call process_async_info call h)
    unfolding run_on_dest_context
    run_on_dest_context-Ends call s h pushed =
        paid-Ends call s h (transfer_to_callee hook call h) _ pushed
          (transfer_to_callee-Steady hook call h)
          (λ h1 pushed1.
            Ends-and_then (charged_instance call h1) s h1
              (execute hook engine on_async_call call h1) _ (execute-Ends call s h1 pushed1)
              (λ h2. process h2.runtime.async_context_info h2))
