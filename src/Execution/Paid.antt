-- ===== src/Execution/Paid.antt =====
-- The gas that a successful call of a contract by a contract costs its caller.
use Prim.Native.String.{String}
use wasm_vm_v.Prelude.{◌≡◌, ◌≢◌, none, arith, ℕ, ◌+◌, ◌≤◌, ◌<◌, ◌^◌, true}
use wasm_vm_v.Overflow.{max_int64}
use wasm_vm_v.Host.{Host, AsyncContextInfo, ContractCallInput}
use wasm_vm_v.Hook.{BlockchainHook}
use wasm_vm_v.Engine.{Engine}
use wasm_vm_v.Metering.Points.{use_gas}
use wasm_vm_v.Execution.{Result}
use wasm_vm_v.Execution.Call.{execute}
use wasm_vm_v.Execution.Nested.{
  enter_dest_context, transfer_to_callee, run_on_dest_context,
  execute_on_dest_context_no_builtin_function,
}
use wasm_vm_v.Execution.Frame.{Balanced}
use wasm_vm_v.Execution.Returns.{is_refused, paid_instance, same_refusal, transfer_to_callee-Steady}
use wasm_vm_v.Execution.Restore.{enter_dest_context_frame}
use wasm_vm_v.Execution.Success.{refunded-use_gas}
use wasm_vm_v.Execution.Calls.{caller_instance, execute_on_dest_context_succeeded}

module _ (hook : BlockchainHook) (engine : Engine) (on_async_call : Host → Result)
    (process_async_info : AsyncContextInfo → Host → Result) where
  execute_refused :
      (call : ContractCallInput) (h : Host)
      → is_refused call h ≡ true
      → (execute hook engine on_async_call call h).1 ≢ none
  unfolding execute
  execute_refused call h refused = ground (arith, refused)

  run_charged :
      (call : ContractCallInput) (h : Host)
      → (run_on_dest_context hook engine on_async_call process_async_info call h).1 ≡ none
      → paid_instance call (transfer_to_callee hook call h) h
        ≡ (use_gas call.gas_provided h).runtime.instance
  unfolding run_on_dest_context
  run_charged call h good =
      let h1 = (transfer_to_callee hook call h).0 in
      ground (
        arith,
        good,
        same_refusal call (transfer_to_callee-Steady hook call h),
        execute_refused call h1,
      )

  -- The contract's functions and the handling of asynchronous calls leave the stacks as they find
  -- them.
  module _
      (functions : (exports : ℕ) (name : String) (h : Host)
        → Balanced h (engine.function exports name h).0)
      (async : (h : Host) → Balanced h (on_async_call h).0)
      (process : (info : AsyncContextInfo) (h : Host)
        → Balanced h (process_async_info info h).0) where
    caller_charged :
        (call : ContractCallInput) (h : Host)
        → (execute_on_dest_context_no_builtin_function hook engine on_async_call process_async_info
            call h).2
          ≡ none
        → caller_instance hook call h
          ≡ (use_gas (enter_dest_context call h).1.gas_provided h).runtime.instance
    unfolding execute_on_dest_context_no_builtin_function use_gas
    caller_charged call h good =
        let (h1, call') = enter_dest_context call h in
        ground (arith, good, (enter_dest_context_frame call h).1, run_charged call' h1)

    -- For a call that succeeds, where the gas points stay below their cap and what remains is no
    -- more than what was charged, the caller's gas points grow by the gas of the call less the gas
    -- that the output says remains of it.
    pub execute_on_dest_context_gas :
        (call : ContractCallInput) (h : Host)
        → (execute_on_dest_context_no_builtin_function hook engine on_async_call process_async_info
            call h).2
          ≡ none
        → (enter_dest_context call h).1.gas_provided < 2 ^ 64
        → h.runtime.points_used + (enter_dest_context call h).1.gas_provided ≤ max_int64
        → (execute_on_dest_context_no_builtin_function hook engine on_async_call process_async_info
            call h).1.gas_remaining
          ≤ h.runtime.points_used + (enter_dest_context call h).1.gas_provided
        → let (h', out, err) =
            execute_on_dest_context_no_builtin_function hook engine on_async_call process_async_info
              call h in
          h'.runtime.points_used + out.gas_remaining
          ≡ h.runtime.points_used + (enter_dest_context call h).1.gas_provided
    execute_on_dest_context_gas call h good small fits enough =
        let (h', out, err) =
          execute_on_dest_context_no_builtin_function hook engine on_async_call process_async_info
            call h in
        let gas = (enter_dest_context call h).1.gas_provided in
        ground (
          arith,
          (execute_on_dest_context_succeeded hook engine on_async_call process_async_info functions
              async process call h good).1,
          caller_charged call h good,
          refunded-use_gas gas out.gas_remaining h small fits enough,
        )
