-- ===== src/Execution/Runs.antt =====
-- The functions that run on the callee's instance leave the stacks of the contexts as they find
-- them.
use wasm_vm_v.Prelude.{
  refl, inl, inr, true, false, none, some, List, [], Bytes, arith, ℕ, Option-cases,
}
use Prim.Native.String.{String}
use wasm_vm_v.Errors.{contract_invalid}
use wasm_vm_v.Host.{
  Host, Instance, InstancePointer, Breakpoint, breakpoint_none, breakpoint_execution_failed,
  breakpoint_async_call, breakpoint_signal_error, breakpoint_out_of_gas,
}
use wasm_vm_v.Hook.{BlockchainHook}
use wasm_vm_v.Engine.{Engine}
use wasm_vm_v.Fault.{add_error}
use wasm_vm_v.Metering.Points.{deduct_initial_gas_for_execution}
use wasm_vm_v.Runtime.{must_verify_next_contract_code}
use wasm_vm_v.Runtime.Instances.{
  start_wasmer_instance, exported, get_function_to_call, get_init_function, init_function_name,
}
use wasm_vm_v.Execution.{Result, or_error, check_return_code, check_final_gas_after_exit}
use wasm_vm_v.Execution.Call.{
  deduct_for_deployment, handle_breakpoint, handle_breakpoint_if_any, call_sc_method_indirect,
  call_init_function, run_new_code, run_contract,
}
use wasm_vm_v.Execution.Frame.{
  Balanced, Balanced-refl, Balanced-trans, and_then-Balanced, deduct_for_deployment-Steady,
  deduct_initial_gas_for_execution-Steady,
}
use wasm_vm_v.Execution.Away.{
  At, Ends, Away-Ends, Ends-after, and_then-Ends, and_then-Away, or_error-Away,
  start_wasmer_instance-Away, add_error-Balanced,
}

-- The contract's functions and the handling of asynchronous calls leave the stacks as they find
-- them.
module _ (hook : BlockchainHook) (engine : Engine) (on_async_call : Host → Result)
    (functions : (exports : ℕ) (name : String) (h : Host)
      → Balanced h (engine.function exports name h).0)
    (async : (h : Host) → Balanced h (on_async_call h).0) where
  handle_breakpoint-Balanced :
      (value : Breakpoint) (h : Host)
      → Balanced h (handle_breakpoint hook engine on_async_call value h).0
  unfolding handle_breakpoint
  handle_breakpoint-Balanced breakpoint_async_call h = async h
  handle_breakpoint-Balanced breakpoint_execution_failed h = Balanced-refl h
  handle_breakpoint-Balanced breakpoint_signal_error h = Balanced-refl h
  handle_breakpoint-Balanced breakpoint_out_of_gas h = Balanced-refl h
  handle_breakpoint-Balanced breakpoint_none h = Balanced-refl h

  handled-Balanced :
      (value : Breakpoint) (h : Host)
      → let (h', err) = handle_breakpoint hook engine on_async_call value h in
        Balanced h (add_error err [] h')
  handled-Balanced value h =
      let (h', err) = handle_breakpoint hook engine on_async_call value h in
      Balanced-trans (handle_breakpoint-Balanced value h) (add_error-Balanced err [] h')

  handle_breakpoint_if_any-Balanced :
      (h : Host) (r : Result)
      → Balanced h r.0
      → Balanced h (handle_breakpoint_if_any hook engine on_async_call r).0
  unfolding handle_breakpoint_if_any
  handle_breakpoint_if_any-Balanced h (h', none) p = p
  handle_breakpoint_if_any-Balanced h (h', some e) p =
      Balanced-trans p (ground (arith, Balanced-refl h', handled-Balanced h'.runtime.breakpoint h'))

  call_sc_method_indirect-Balanced :
      (h : Host) → Balanced h (call_sc_method_indirect hook engine on_async_call h).0
  unfolding call_sc_method_indirect get_function_to_call exported
  call_sc_method_indirect-Balanced h =
      let name = h.runtime.call_function in
      elim (Option-cases h.runtime.exports) [
        | inl nil ↦ ground (arith, nil, Balanced-refl h)
        | inr (m, e) ↦ ground (
          arith,
          e,
          Balanced-refl h,
          handle_breakpoint_if_any-Balanced h (engine.function m name h) (functions m name h),
        )
      ]

  call_init_function-Balanced :
      (h : Host) → Balanced h (call_init_function hook engine on_async_call h).0
  unfolding call_init_function get_init_function exported
  call_init_function-Balanced h = elim (Option-cases h.runtime.exports) [
    | inl nil ↦ ground (arith, nil, Balanced-refl h)
    | inr (m, e) ↦ ground (
      arith,
      e,
      Balanced-refl h,
      and_then-Balanced
          (handle_breakpoint_if_any hook engine on_async_call
            (engine.function m init_function_name h))
          (λ h'. (h', check_final_gas_after_exit h'))
          (handle_breakpoint_if_any-Balanced h (engine.function m init_function_name h)
            (functions m init_function_name h))
          (λ h'. Balanced-refl h'),
    )
  ]

  pub run_new_code-Ends :
      (code : Bytes) (c : Instance) (s : List InstancePointer) (h : Host)
      → At c s h
      → Ends c s h (run_new_code hook engine on_async_call code h)
  unfolding run_new_code must_verify_next_contract_code
  run_new_code-Ends code c s h a =
      and_then-Ends (deduct_for_deployment code h) _ a (deduct_for_deployment-Steady code h)
        (λ h1 a1.
          let h2 = record h1 { runtime = must_verify_next_contract_code h1.runtime } in
          let a2 : At c s h2 = record { current = a1.current; pushed = a1.pushed } in
          let limit = h2.metering.gas_for_execution in
          let started = start_wasmer_instance engine hook code limit true h2 in
          Ends-after c s h1 h2 _ (record { frame = refl; protected = λ p. p })
            (Away-Ends c s h2 _ (
              and_then-Away (or_error contract_invalid started) _
                (or_error-Away contract_invalid started
                  (start_wasmer_instance-Away engine hook code limit true c s h2 a2))
                call_init_function-Balanced)))

  pub run_contract-Ends :
      (code : Bytes) (c : Instance) (s : List InstancePointer) (h : Host)
      → At c s h
      → Ends c s h (run_contract hook engine on_async_call code h)
  unfolding run_contract check_return_code
  run_contract-Ends code c s h a =
      and_then-Ends (deduct_initial_gas_for_execution code h) _ a
        (deduct_initial_gas_for_execution-Steady code h)
        (λ h1 a1.
          let limit = h1.metering.gas_for_execution in
          Away-Ends c s h1 _ (
            and_then-Away (start_wasmer_instance engine hook code limit false h1) _
              (start_wasmer_instance-Away engine hook code limit false c s h1 a1)
              (λ h2.
                and_then-Balanced (call_sc_method_indirect hook engine on_async_call h2) _
                  (call_sc_method_indirect-Balanced h2) (λ h3. Balanced-refl h3))))
