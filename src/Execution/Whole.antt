-- ===== src/Execution/Whole.antt =====
-- ExecuteOnDestContext of vmhost/hostCore/execution.go, with its snapshot and its built-in
-- functions, and the stacks of the contexts.
use Prim.Native.String.{String}
use wasm_vm_v.Prelude.{
  ◌≡◌, Option, none, some, [], ◌∷◌, arith, ℕ, inl, inr, Option-cases, Bool-cases, Sum-cases,
}
use wasm_vm_v.Errors.{VmError}
use wasm_vm_v.Output.{OutputContext, add_to_active_state}
use wasm_vm_v.Output.Types.{VmOutput}
use wasm_vm_v.Host.{Host, ContractCallInput, AsyncContextInfo}
use wasm_vm_v.Hook.{BlockchainHook}
use wasm_vm_v.Engine.{Engine, is_builtin_function_name}
use wasm_vm_v.Fault.{add_error}
use wasm_vm_v.Blockchain.State as K
use wasm_vm_v.Metering.Points.{use_gas, track_gas_used_by_builtin_function}
use wasm_vm_v.Execution.{Result}
use wasm_vm_v.Execution.Frame.{
  Balanced, Balanced-refl, Balanced-trans, create_vm_output_in_case_of_error-Steady,
}
use wasm_vm_v.Execution.Away.{add_error-Balanced}
use wasm_vm_v.Execution.Calls.{execute_on_dest_context-Balanced}
use wasm_vm_v.Execution.Builtin.{handle_builtin_function_call, call_builtin_function}
use wasm_vm_v.Execution.Indirect.{
  settle, call_and_settle, call_builtin_and_settle, builtin_failure, execute_on_dest_context,
}

abbrev snapshot_taken : BlockchainHook → Host → Host
snapshot_taken hook h = record h { blockchain = K.push_state hook h.blockchain }

settle-Balanced :
    (hook : BlockchainHook) (h h' : Host) (err : Option VmError)
    → Balanced (snapshot_taken hook h) h'
    → Balanced h (settle err h')
unfolding settle K.push_state K.pop_discard K.pop_set_active_state
settle-Balanced hook h h' none b = ground (arith, b.kept.frame, b.instances, b.kept.protected)
settle-Balanced hook h h' (some e) b = ground (arith, b.kept.frame, b.instances, b.kept.protected)

add_to_active_state_stack :
    (out : VmOutput) (c : OutputContext) → (add_to_active_state out c).0.state_stack ≡ c.state_stack
unfolding add_to_active_state
add_to_active_state_stack out c = ground arith

call_builtin-Balanced :
    (engine : Engine) (hook : BlockchainHook) (call : ContractCallInput) (h : Host)
    → Balanced h (call_builtin_function engine hook call h).0
unfolding call_builtin_function use_gas track_gas_used_by_builtin_function
call_builtin-Balanced engine hook call h = ground arith

handle_builtin-Balanced :
    (engine : Engine) (hook : BlockchainHook) (call : ContractCallInput) (h : Host)
    → Balanced h (handle_builtin_function_call engine hook call h).0
unfolding handle_builtin_function_call
handle_builtin-Balanced engine hook call h =
    let (h1, result) = call_builtin_function engine hook call h in
    let b = call_builtin-Balanced engine hook call h in
    elim (Sum-cases result) [
      | inl (e, bad) ↦ ground (arith, bad, b)
      | inr ((next, out), good) ↦ ground (arith, good, b, add_to_active_state_stack out h1.output)
    ]

module _ (hook : BlockchainHook) (engine : Engine) (on_async_call : Host → Result)
    (process_async_info : AsyncContextInfo → Host → Result)
    (functions : (exports : ℕ) (name : String) (h : Host)
      → Balanced h (engine.function exports name h).0)
    (async : (h : Host) → Balanced h (on_async_call h).0)
    (process : (info : AsyncContextInfo) (h : Host)
      → Balanced h (process_async_info info h).0) where
  call_and_settle-Balanced :
      (call : ContractCallInput) (h h1 : Host)
      → Balanced (snapshot_taken hook h) h1
      → Balanced h (call_and_settle hook engine on_async_call process_async_info call h1).0
  unfolding call_and_settle
  call_and_settle-Balanced call h h1 b = settle-Balanced hook h _ _ (
      Balanced-trans b (
        execute_on_dest_context-Balanced hook engine on_async_call process_async_info functions
          async process call h1))

  builtin_failure-Balanced :
      (call : ContractCallInput) (err : VmError) (h h1 : Host)
      → Balanced (snapshot_taken hook h) h1
      → Balanced h (builtin_failure hook engine on_async_call process_async_info call err h1).0
  unfolding builtin_failure
  builtin_failure-Balanced call err h h1 b =
      let settled = settle (some err) h1 in
      let failed = add_error (some err) (call.function ∷ []) settled in
      Balanced-trans (settle-Balanced hook h h1 (some err) b) (
        Balanced-trans (add_error-Balanced (some err) (call.function ∷ []) settled)
          (create_vm_output_in_case_of_error-Steady err failed).balanced)

  call_builtin_and_settle-Balanced :
      (call : ContractCallInput) (h h1 : Host)
      → Balanced (snapshot_taken hook h) h1
      → Balanced h (call_builtin_and_settle hook engine on_async_call process_async_info call h1).0
  unfolding call_builtin_and_settle
  call_builtin_and_settle-Balanced call h h1 b =
      let h2 = (handle_builtin_function_call engine hook call h1).0 in
      let b2 = Balanced-trans b (handle_builtin-Balanced engine hook call h1) in
      elim (Sum-cases (handle_builtin_function_call engine hook call h1).1) [
        | inl (err, bad) ↦ ground (arith, bad, builtin_failure-Balanced call err h h2 b2)
        | inr ((next, out), good) ↦ elim (Option-cases next) [
          | inl last ↦ ground (arith, good, last, settle-Balanced hook h h2 none b2)
          | inr (next_call, another) ↦
              ground (arith, good, another, call_and_settle-Balanced next_call h h2 b2)
        ]
      ]

  -- ExecuteOnDestContext, of a contract or of a built-in function, leaves the stacks of all
  -- contexts and the settings as it finds them, whether it fails or not, where the contracts'
  -- functions and the two handlers of asynchronous calls do so.
  pub execute_on_dest_context_whole-Balanced :
      (call : ContractCallInput) (h : Host)
      → Balanced h (execute_on_dest_context hook engine on_async_call process_async_info call h).0
  unfolding execute_on_dest_context
  execute_on_dest_context_whole-Balanced call h =
      let h1 = snapshot_taken hook h in
      elim (Bool-cases (is_builtin_function_name engine call.function)) [
        | inl builtin ↦
            ground (arith, builtin, call_builtin_and_settle-Balanced call h h1 (Balanced-refl h1))
        | inr contract ↦
            ground (arith, contract, call_and_settle-Balanced call h h1 (Balanced-refl h1))
      ]
