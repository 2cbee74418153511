-- ===== src/Execution/Calls.antt =====
-- Calls of a contract by a contract, from beginning to end: what a failure and a success leave to
-- the caller, where the contract's functions and the handling of asynchronous calls leave the
-- stacks as they find them, as these calls themselves do.
use Prim.Native.String.{String}
use wasm_vm_v.Prelude.{◌≡◌, ◌≢◌, ap, ◌∙◌, none, some, arith, ℕ, true, false, inl, inr, Option-cases}
use wasm_vm_v.Errors.{VmError, ReturnCode, ok}
use wasm_vm_v.Output as O
use wasm_vm_v.Metering.State as M
use wasm_vm_v.Output.Laws.{OutputIsValid}
use wasm_vm_v.Host.{Host, Instance, AsyncContextInfo, ContractCallInput}
use wasm_vm_v.Hook.{BlockchainHook}
use wasm_vm_v.Engine.{Engine}
use wasm_vm_v.FinalOutput.{create_vm_output_in_case_of_error, get_vm_output}
use wasm_vm_v.FinalOutput.Outcome.{resolve_return_code-ok, get_vm_output_ok}
use wasm_vm_v.Execution.{Result, is_ok}
use wasm_vm_v.Execution.Nested.{
  enter_dest_context, transfer_to_callee, run_on_dest_context, close_dest_context, call_output,
  finish_execute_on_dest_context, execute_on_dest_context_no_builtin_function,
}
use wasm_vm_v.Metering.Points.{restore_gas}
use wasm_vm_v.Execution.Frame.{Frame, Balanced}
use wasm_vm_v.Execution.Away.{Ends-Back}
use wasm_vm_v.Execution.Returns.{paid_instance, run_on_dest_context-Ends}
use wasm_vm_v.Execution.Success.{Returned, close_dest_context_ok, close_dest_context_merges}
use wasm_vm_v.Execution.Restore.{
  Restored, Called, Called-Steady, call_output-Steady, close_dest_context_failed,
  close_dest_context-Balanced, refunded, enter_dest_context_frame,
}

-- The caller's instance when the call returns: the gas of the call is charged to it, unless the
-- transfer of the value fails or the call is refused because it names the init function.
abbrev pub caller_instance : BlockchainHook → ContractCallInput → Host → Instance
caller_instance hook call h =
    let (h1, call') = enter_dest_context call h in
    paid_instance call' (transfer_to_callee hook call' h1) h1

pub not_ok : (code : ReturnCode) → code ≢ ok → is_ok code ≡ false
not_ok code h = ground arith

-- An error gives an output that is no success.
error_not_ok : (e : VmError) (h : Host) → is_ok (call_output (some e) h).1.return_code ≡ false
unfolding call_output create_vm_output_in_case_of_error
error_not_ok e h = not_ok _ (resolve_return_code-ok e)

module _ (hook : BlockchainHook) (engine : Engine) (on_async_call : Host → Result)
    (process_async_info : AsyncContextInfo → Host → Result)
    (functions : (exports : ℕ) (name : String) (h : Host)
      → Balanced h (engine.function exports name h).0)
    (async : (h : Host) → Balanced h (on_async_call h).0)
    (process : (info : AsyncContextInfo) (h : Host)
      → Balanced h (process_async_info info h).0) where
  abbrev run : ContractCallInput → Host → Result
  run call h =
      let (h1, call') = enter_dest_context call h in
      run_on_dest_context hook engine on_async_call process_async_info call' h1

  run-Called :
      (call : ContractCallInput) (h : Host) → Called (caller_instance hook call h) h (run call h).0
  run-Called call h =
      let (h1, call') = enter_dest_context call h in
      let (frame, same, on, pushed) = enter_dest_context_frame call h in
      let c = caller_instance hook call h in
      let b = Ends-Back c h.runtime.instance_stack h1 (run call h) (
        run_on_dest_context-Ends hook engine on_async_call functions async process_async_info
          process call' h.runtime.instance_stack h1 pushed) in
      record {
        frame = b.kept.frame ∙ frame;
        protected = λ p. b.kept.protected (on p);
        popped = b.popped;
        stack = b.stack;
      }

  -- The host before the contexts of the caller are popped.
  output-Called :
      (call : ContractCallInput) (h : Host)
      → let (h2, err) = run call h in Called (caller_instance hook call h) h (call_output err h2).0
  output-Called call h =
      let (h2, err) = run call h in
      Called-Steady h2 (call_output err h2).0 (run-Called call h) (call_output-Steady err h2)

  failed_not_ok :
      (call : ContractCallInput) (h : Host)
      → (execute_on_dest_context_no_builtin_function hook engine on_async_call process_async_info
          call h).2
        ≢ none
      → let (h2, err) = run call h in is_ok (call_output err h2).1.return_code ≡ false
  unfolding execute_on_dest_context_no_builtin_function finish_execute_on_dest_context
  failed_not_ok call h bad =
      let (h2, err) = run call h in
      elim (Option-cases err) [
        | inl e ↦ ground (arith, e, bad)
        | inr (x, e) ↦ ground (arith, e, error_not_ok x h2)
      ]

  -- A call that fails restores the contexts of its caller, with the protection of the storage on if
  -- it was on. Its instance is the one that has called: the gas of the call is charged to it, unless
  -- the transfer of the value fails or the call is refused because it names the init function, and it
  -- gets back what the output says remains.
  pub execute_on_dest_context_failed :
      (call : ContractCallInput) (h : Host)
      → OutputIsValid h.output.output_state
      → (execute_on_dest_context_no_builtin_function hook engine on_async_call process_async_info
          call h).2
        ≢ none
      → let (h', out, err) =
          execute_on_dest_context_no_builtin_function hook engine on_async_call process_async_info
            call h in
        Restored h h'
        × (h'.runtime.instance ≡ refunded out.gas_remaining (caller_instance hook call h) h)
  unfolding execute_on_dest_context_no_builtin_function finish_execute_on_dest_context
  execute_on_dest_context_failed call h valid bad =
      let (h2, err) = run call h in
      let (h3, out) = call_output err h2 in
      close_dest_context_failed h h3 (caller_instance hook call h) out valid (output-Called call h)
        (failed_not_ok call h bad)

  failed-Balanced :
      (call : ContractCallInput) (h : Host)
      → (execute_on_dest_context_no_builtin_function hook engine on_async_call process_async_info
          call h).2
        ≢ none
      → Balanced h
          (execute_on_dest_context_no_builtin_function hook engine on_async_call process_async_info
            call h).0
  unfolding execute_on_dest_context_no_builtin_function finish_execute_on_dest_context
  failed-Balanced call h bad =
      let (h2, err) = run call h in
      let (h3, out) = call_output err h2 in
      close_dest_context-Balanced h h3 (caller_instance hook call h) out (output-Called call h)
        (failed_not_ok call h bad)

  succeeded_ok :
      (call : ContractCallInput) (h : Host)
      → (execute_on_dest_context_no_builtin_function hook engine on_async_call process_async_info
          call h).2
        ≡ none
      → let (h2, err) = run call h in
        (err ≡ none) × (is_ok (call_output err h2).1.return_code ≡ true)
  unfolding execute_on_dest_context_no_builtin_function finish_execute_on_dest_context
  succeeded_ok call h good = ground arith

  -- A call that succeeds gives its caller the big integers, the storage address, the running call,
  -- the gas limits and every stack back, the protection of the storage on if it was on, and the
  -- caller's instance pays the gas of the call, less what the output says remains of it. The output
  -- that is returned is the one that the run of the callee has left, and this output and the gas
  -- figures of its accounts are merged into those of the caller.
  pub execute_on_dest_context_succeeded :
      (call : ContractCallInput) (h : Host)
      → (execute_on_dest_context_no_builtin_function hook engine on_async_call process_async_info
          call h).2
        ≡ none
      → let (h', out, err) =
          execute_on_dest_context_no_builtin_function hook engine on_async_call process_async_info
            call h in
        let (h1, call') = enter_dest_context call h in
        let left =
          (get_vm_output
            (run_on_dest_context hook engine on_async_call process_async_info call' h1).0).0 in
        Returned h h'
        × (h'.runtime.instance ≡ refunded out.gas_remaining (caller_instance hook call h) h)
        × (out ≡ left.output.output_state)
        × (h'.output ≡ O.pop_merge_active_state left.output)
        × (h'.metering ≡ M.pop_merge_active_state left.metering)
  unfolding execute_on_dest_context_no_builtin_function finish_execute_on_dest_context call_output
  execute_on_dest_context_succeeded call h good =
      let (h2, err) = run call h in
      let (h3, out) = call_output err h2 in
      let (no_error, fine) = succeeded_ok call h good in
      let closed =
        close_dest_context_ok h h3 (caller_instance hook call h) out (output-Called call h) fine in
      let merged = close_dest_context_merges h3 out fine in
      (
        closed.0,
        closed.1,
        ground (arith, no_error, fine, get_vm_output_ok h2),
        ground (arith, no_error, merged),
        ground (arith, no_error, merged),
      )

  -- Whether it succeeds or fails, a call leaves the stacks of the contexts and the settings as it
  -- finds them, and the protection of the storage on if it was on.
  pub execute_on_dest_context-Balanced :
      (call : ContractCallInput) (h : Host)
      → Balanced h
          (execute_on_dest_context_no_builtin_function hook engine on_async_call process_async_info
            call h).0
  execute_on_dest_context-Balanced call h =
      let r =
        execute_on_dest_context_no_builtin_function hook engine on_async_call process_async_info
          call h in
      elim (Option-cases r.2) [
        | inl good ↦
            let b = (execute_on_dest_context_succeeded call h good).0 in
            record { kept = b.kept; instances = b.instances }
        | inr (e, bad) ↦ failed-Balanced call h (ground (arith, bad))
      ]

  -- The snapshots stay, whatever the output is.
  pub execute_on_dest_context_snapshots :
      (call : ContractCallInput) (h : Host)
      → (execute_on_dest_context_no_builtin_function hook engine on_async_call process_async_info
          call h).0.blockchain.state_stack
        ≡ h.blockchain.state_stack
  unfolding execute_on_dest_context_no_builtin_function finish_execute_on_dest_context
      close_dest_context restore_gas
  execute_on_dest_context_snapshots call h =
      let (h2, err) = run call h in
      let kept = ap Frame.snapshots (output-Called call h).frame in ground (arith, kept)
