-- ===== src/Execution/SameContext.antt =====
-- Calls of a contract by a contract in the context of the caller: a failure restores the contexts,
-- has the node go back to its snapshot, and gives back none of the gas that was charged.
use Prim.Native.String.{String}
use wasm_vm_v.Prelude.{
  ◌≡◌, ◌≢◌, refl, ap, ◌∙◌, Option, none, some, List, [], ◌∷◌, arith, ℕ, false, inl, inr,
  Option-cases,
}
use wasm_vm_v.Errors.{VmError}
use wasm_vm_v.Output as O
use wasm_vm_v.Output.Laws.{OutputIsValid}
use wasm_vm_v.Output.Stack.{pop_set_active_state-push_state}
use wasm_vm_v.BigInt as B
use wasm_vm_v.Metering.State as M
use wasm_vm_v.Runtime as R
use wasm_vm_v.Blockchain.State as K
use wasm_vm_v.Transfer.{transfer_value_only}
use wasm_vm_v.Host.{
  Host, Instance, same_instance, ContractCallInput, BlockchainContext, HookCall, revert_to_snapshot,
}
use wasm_vm_v.Hook.{BlockchainHook}
use wasm_vm_v.Engine.{Engine, is_builtin_function_name}
use wasm_vm_v.Fault.{add_error}
use wasm_vm_v.Execution.{Result}
use wasm_vm_v.Execution.Nested.{
  enter_same_context, run_on_same_context, execute_on_same_context, finish_execute_on_same_context,
}
use wasm_vm_v.Execution.Frame.{Frame, frame_of, IsProtected, Kept, Balanced}
use wasm_vm_v.Execution.Away.{Ends-Back, add_error-Balanced}
use wasm_vm_v.Execution.Returns.{paid_instance, run_on_same_context-Ends}
use wasm_vm_v.Execution.Restore.{
  saved_state, big_int_restored, metering_restored, runtime_restored, pop_set_active_state_max,
}

-- The contexts of the caller are as before the call, its instance is `c`, and the last thing that
-- the node was asked is to go back to a snapshot.
pub record Undone (c : Instance) (snapshot : ℕ) (h h' : Host) : Type 0 where
  pub big_int : h'.big_int ≡ h.big_int
  pub metering : h'.metering ≡ h.metering
  pub output : h'.output ≡ record h.output { code_updates = h'.output.code_updates }
  pub active : h'.runtime.active ≡ saved_state h.runtime.active
  pub instance : h'.runtime.instance ≡ c
  pub kept : Kept h h'
  pub instances : h'.runtime.instance_stack ≡ h.runtime.instance_stack
  pub calls : List HookCall
  pub reverted : h'.blockchain.calls ≡ revert_to_snapshot snapshot ∷ calls

-- The frame of a call in the context of the caller.
abbrev pub same_frame : BlockchainHook → Host → Frame
same_frame hook h = record (frame_of h) {
  big_ints = (B.push_state h.big_int).state_stack;
  outputs = (O.push_state h.output).state_stack;
  gas = h.metering.active ∷ h.metering.state_stack;
  states = saved_state h.runtime.active ∷ h.runtime.state_stack;
  snapshots = hook.get_snapshot h.blockchain.calls ∷ h.blockchain.state_stack;
}

enter_same_context_frame :
    (hook : BlockchainHook) (call : ContractCallInput) (h : Host)
    → let h1 = (enter_same_context hook call h).0 in
      (frame_of h1 ≡ same_frame hook h)
      × (IsProtected h → IsProtected h1)
      × (h1.runtime.instance_stack ≡ same_instance ∷ h.runtime.instance_stack)
unfolding enter_same_context M.init_state_from_contract_call_input M.push_state R.push_state
    R.init_state_from_contract_call_input O.push_state B.push_state K.push_state
enter_same_context_frame hook call h = (refl, λ p. p, refl)

blockchain_reverted :
    (b d : BlockchainContext) (snapshot : ℕ)
    → d.state_stack ≡ snapshot ∷ b.state_stack
    → ((K.pop_set_active_state d).calls ≡ revert_to_snapshot snapshot ∷ d.calls)
      × ((K.pop_set_active_state d).state_stack ≡ b.state_stack)
unfolding K.pop_set_active_state
blockchain_reverted b d snapshot h = ground arith

undo_same : Host → Host
undo_same h = record h {
  big_int = B.pop_set_active_state h.big_int;
  metering = M.pop_set_active_state h.metering;
  output = O.pop_set_active_state h.output;
  runtime = R.pop_set_active_state h.runtime;
  blockchain = K.pop_set_active_state h.blockchain;
}

undo_same-Undone :
    (hook : BlockchainHook) (c : Instance) (h h2 : Host)
    → OutputIsValid h.output.output_state
    → frame_of h2 ≡ same_frame hook h
    → (IsProtected h → IsProtected h2)
    → (R.pop_instance h2.runtime).instance ≡ c
    → (R.pop_instance h2.runtime).instance_stack ≡ h.runtime.instance_stack
    → Undone c (hook.get_snapshot h.blockchain.calls) h (undo_same h2)
unfolding undo_same
undo_same-Undone hook c h h2 valid f protected popped stack =
    let snapshot = hook.get_snapshot h.blockchain.calls in
    let r = runtime_restored h.runtime h2.runtime (ap Frame.states f) in
    let b = big_int_restored h.big_int h2.big_int (ap Frame.big_ints f) in
    let m =
      metering_restored h.metering h2.metering (ap Frame.gas f) (ap Frame.gas_schedule f)
        (ap Frame.block_gas_limit f) in
    let o = pop_set_active_state-push_state h.output h2.output valid (ap Frame.outputs f) in
    let k = blockchain_reverted h.blockchain h2.blockchain snapshot (ap Frame.snapshots f) in
    record {
      big_int = b;
      metering = m;
      output = ground (arith, o);
      active = r.0;
      instance = r.2 ∙ popped;
      kept = record {
        protected = protected;
        frame = ground (
          arith,
          b,
          m,
          o,
          r.1,
          k.1,
          ap Frame.addresses f,
          ap Frame.protected_key_prefix f,
          ap Frame.flags f,
          ap Frame.max_wasmer_instances f,
          pop_set_active_state_max h2.runtime,
        );
      };
      instances = r.3 ∙ stack;
      calls = h2.blockchain.calls;
      reverted = k.0;
    }

add_error_instance :
    (err : Option VmError) (info : List String) (h : Host)
    → (add_error err info h).runtime.instance ≡ h.runtime.instance
unfolding add_error
add_error_instance none info h = refl
add_error_instance (some e) info h = refl

popped-add_error :
    (err : Option VmError) (info : List String) (h : Host)
    → let h' = add_error err info h in
      ((R.pop_instance h'.runtime).instance ≡ (R.pop_instance h.runtime).instance)
      × ((R.pop_instance h'.runtime).instance_stack ≡ (R.pop_instance h.runtime).instance_stack)
unfolding R.pop_instance
popped-add_error err info h =
    ground (arith, add_error_instance err info h, (add_error-Balanced err info h).instances)

-- The caller's instance when the call returns.
abbrev pub same_caller_instance : BlockchainHook → ContractCallInput → Host → Instance
same_caller_instance hook call h =
    let (h1, call') = enter_same_context hook call h in
    paid_instance call'
      (transfer_value_only hook call'.recipient_addr call'.caller_addr call'.call_value false h1) h1

module _ (hook : BlockchainHook) (engine : Engine) (on_async_call : Host → Result)
    (functions : (exports : ℕ) (name : String) (h : Host)
      → Balanced h (engine.function exports name h).0)
    (async : (h : Host) → Balanced h (on_async_call h).0) where
  -- A call in the context of the caller, of a function that is not built in, that returns an error
  -- restores the contexts of the caller and has the node go back to the snapshot that was taken. The
  -- gas of the call is charged to the caller's instance, unless the transfer of the value fails or
  -- the call is refused because it names the init function, and none of it is given back.
  pub execute_on_same_context_failed :
      (call : ContractCallInput) (h : Host)
      → OutputIsValid h.output.output_state
      → is_builtin_function_name engine call.function ≡ false
      → (execute_on_same_context hook engine on_async_call call h).1 ≢ none
      → Undone
          (same_caller_instance hook call h)
          (hook.get_snapshot h.blockchain.calls)
          h
          (execute_on_same_context hook engine on_async_call call h).0
  unfolding execute_on_same_context finish_execute_on_same_context undo_same
  execute_on_same_context_failed call h valid not_builtin bad =
      let (h1, call') = enter_same_context hook call h in
      let (h2, err) = run_on_same_context hook engine on_async_call call' h1 in
      let h3 = add_error err (call.function ∷ []) h2 in
      let (frame, on, pushed) = enter_same_context_frame hook call h in
      let c = same_caller_instance hook call h in
      let b =
        Ends-Back c h.runtime.instance_stack h1 (h2, err)
          (run_on_same_context-Ends hook engine on_async_call functions async call'
            h.runtime.instance_stack h1 pushed) in
      let p = popped-add_error err (call.function ∷ []) h2 in
      let e = add_error-Balanced err (call.function ∷ []) h2 in
      let undone =
        undo_same-Undone hook c h h3 valid (e.kept.frame ∙ b.kept.frame ∙ frame)
          (λ p. e.kept.protected (b.kept.protected (on p))) (p.0 ∙ b.popped) (p.1 ∙ b.stack) in
      elim (Option-cases err) [
        | inl e ↦ ground (arith, e, bad, not_builtin)
        | inr (x, e) ↦ ground (arith, e, bad, not_builtin, undone)
      ]
