-- ===== src/Execution/Snapshots.antt =====
-- What the calls that the API offers leave to the node: a snapshot is taken for each call, and after
-- an error the last thing that the node is asked is to go back to it.
use wasm_vm_v.Prelude.{
  ◌≡◌, ◌⊎◌, refl, ap, ◌∙◌, Option, none, some, List, [], ◌∷◌, arith, ℕ, inl, inr, Option-cases,
  Bool-cases, Sum-cases,
}
use Prim.Native.String.{String}
use wasm_vm_v.Errors.{VmError}
use wasm_vm_v.Host.{
  Host, ContractCallInput, AsyncContextInfo, BlockchainContext, HookCall, revert_to_snapshot,
}
use wasm_vm_v.Hook.{BlockchainHook}
use wasm_vm_v.Engine.{Engine, is_builtin_function_name}
use wasm_vm_v.Fault.{add_error}
use wasm_vm_v.Blockchain.State as K
use wasm_vm_v.FinalOutput.{create_vm_output_in_case_of_error}
use wasm_vm_v.Execution.{Result}
use wasm_vm_v.Execution.Frame.{Balanced}
use wasm_vm_v.Execution.Calls.{execute_on_dest_context_snapshots}
use wasm_vm_v.Execution.Builtin.{handle_builtin_function_call, call_builtin_function}
use wasm_vm_v.Metering.Points.{use_gas, track_gas_used_by_builtin_function}
use wasm_vm_v.Metering.Account.{update_gas_state_on_failure}
use wasm_vm_v.Execution.Indirect.{
  settle, call_and_settle, call_builtin_and_settle, builtin_failure, execute_on_dest_context,
}

-- The snapshot is off the stack, and after an error the node was asked to go back to it last.
pub record Settled (hook : BlockchainHook) (h : Host) (err : Option VmError) (h' : Host)
    : Type 0 where
  pub snapshots : h'.blockchain.state_stack ≡ h.blockchain.state_stack
  pub reverted :
      (err ≡ none)
      ⊎ ((calls : List HookCall) × (h'.blockchain.calls
            ≡ revert_to_snapshot (hook.get_snapshot h.blockchain.calls) ∷ calls))

settle-Settled :
    (hook : BlockchainHook) (h h' : Host) (err : Option VmError)
    → h'.blockchain.state_stack ≡ hook.get_snapshot h.blockchain.calls ∷ h.blockchain.state_stack
    → Settled hook h err (settle err h')
unfolding settle K.pop_discard K.pop_set_active_state
settle-Settled hook h h' none e = record { snapshots = ground (arith, e); reverted = inl refl }
settle-Settled hook h h' (some x) e = record {
  snapshots = ground (arith, e);
  reverted = inr (h'.blockchain.calls, ground (arith, e));
}

handle_builtin-snapshots :
    (engine : Engine) (hook : BlockchainHook) (call : ContractCallInput) (h : Host)
    → (handle_builtin_function_call engine hook call h).0.blockchain.state_stack
      ≡ h.blockchain.state_stack
unfolding handle_builtin_function_call call_builtin_function use_gas
    track_gas_used_by_builtin_function
handle_builtin-snapshots engine hook call h = ground arith

failure-blockchain :
    (err : VmError) (info : List String) (h : Host)
    → (create_vm_output_in_case_of_error err (add_error (some err) info h)).0.blockchain
      ≡ h.blockchain
unfolding create_vm_output_in_case_of_error add_error update_gas_state_on_failure
failure-blockchain err info h = refl

Settled-blockchain :
    (hook : BlockchainHook) (h h1 h2 : Host) (err : Option VmError)
    → h2.blockchain ≡ h1.blockchain
    → Settled hook h err h1
    → Settled hook h err h2
Settled-blockchain hook h h1 h2 err e s = record {
  snapshots = ap (λ (b : BlockchainContext). b.state_stack) e ∙ s.snapshots;
  reverted = elim s.reverted [
    | inl fine ↦ inl fine
    | inr (calls, r) ↦ inr (calls, ap (λ (b : BlockchainContext). b.calls) e ∙ r)
  ];
}

module _ (hook : BlockchainHook) (engine : Engine) (on_async_call : Host → Result)
    (process_async_info : AsyncContextInfo → Host → Result)
    (functions : (exports : ℕ) (name : String) (h : Host)
      → Balanced h (engine.function exports name h).0)
    (async : (h : Host) → Balanced h (on_async_call h).0)
    (process : (info : AsyncContextInfo) (h : Host)
      → Balanced h (process_async_info info h).0) where
  call_and_settle-Settled :
      (call : ContractCallInput) (h h1 : Host)
      → h1.blockchain.state_stack ≡ hook.get_snapshot h.blockchain.calls ∷ h.blockchain.state_stack
      → let r = call_and_settle hook engine on_async_call process_async_info call h1 in
        Settled hook h r.2 r.0
  unfolding call_and_settle
  call_and_settle-Settled call h h1 e = settle-Settled hook h _ _ (
      execute_on_dest_context_snapshots hook engine on_async_call process_async_info functions async
        process call h1
      ∙ e)

  builtin_failure-Settled :
      (call : ContractCallInput) (err : VmError) (h h1 : Host)
      → h1.blockchain.state_stack ≡ hook.get_snapshot h.blockchain.calls ∷ h.blockchain.state_stack
      → let r = builtin_failure hook engine on_async_call process_async_info call err h1 in
        Settled hook h r.2 r.0
  unfolding builtin_failure
  builtin_failure-Settled call err h h1 e =
      Settled-blockchain hook h (settle (some err) h1) _ (some err)
        (failure-blockchain err (call.function ∷ []) (settle (some err) h1))
        (settle-Settled hook h h1 (some err) e)

  call_builtin_and_settle-Settled :
      (call : ContractCallInput) (h h1 : Host)
      → h1.blockchain.state_stack ≡ hook.get_snapshot h.blockchain.calls ∷ h.blockchain.state_stack
      → let r = call_builtin_and_settle hook engine on_async_call process_async_info call h1 in
        Settled hook h r.2 r.0
  unfolding call_builtin_and_settle
  call_builtin_and_settle-Settled call h h1 e =
      let h2 = (handle_builtin_function_call engine hook call h1).0 in
      let e2 = handle_builtin-snapshots engine hook call h1 ∙ e in
      elim (Sum-cases (handle_builtin_function_call engine hook call h1).1) [
        | inl (err, bad) ↦ ground (arith, bad, builtin_failure-Settled call err h h2 e2)
        | inr ((next, out), good) ↦ elim (Option-cases next) [
          | inl last ↦ ground (arith, good, last, settle-Settled hook h h2 none e2)
          | inr (next_call, another) ↦
              ground (arith, good, another, call_and_settle-Settled next_call h h2 e2)
        ]
      ]

  -- The snapshot that ExecuteOnDestContext takes is off the stack when it returns, and if it
  -- returns an error, of a built-in function or of a contract, then the last call that the node has
  -- had asks it to go back to that snapshot.
  pub execute_on_dest_context-Settled :
      (call : ContractCallInput) (h : Host)
      → let (h', out, err) =
          execute_on_dest_context hook engine on_async_call process_async_info call h in
        Settled hook h err h'
  unfolding execute_on_dest_context K.push_state
  execute_on_dest_context-Settled call h =
      let h1 = record h { blockchain = K.push_state hook h.blockchain } in
      elim (Bool-cases (is_builtin_function_name engine call.function)) [
        | inl builtin ↦ ground (arith, builtin, call_builtin_and_settle-Settled call h h1 refl)
        | inr contract ↦ ground (arith, contract, call_and_settle-Settled call h h1 refl)
      ]
