-- ===== src/Async/Request.antt =====
-- How a contract asks for asynchronous calls: ExecuteAsyncCall, AddAsyncContextCall and
-- GetAsyncContext of vmhost/contexts/runtime.go.
use wasm_vm_v.Prelude.{
  ℕ, ◌||◌, not, ◌⊎◌, inl, inr, none, some, [], ◌∷◌, ◌++◌, Bytes, bytes_eq, if◌then◌else◌,
}
use wasm_vm_v.Prelude.Map.{lookup, insert}
use wasm_vm_v.Errors.{VmError, async_context_does_not_exist}
use wasm_vm_v.Host.{Host, Runtime, AsyncContext, AsyncGeneratedCall, breakpoint_async_call}
use wasm_vm_v.Engine.{Engine}
use wasm_vm_v.Fault.{set_runtime_breakpoint_value}
use wasm_vm_v.Metering.Points.{
  gas_left, use_gas_for_async_step, compute_gas_locked_for_async, use_gas_bounded,
}
use wasm_vm_v.Runtime.{set_async_call_info}
use wasm_vm_v.Runtime.Instances.{has_callback_method}
use wasm_vm_v.Execution.{Result, and_then}

module _ (engine : Engine) where
  -- The gas for the call-back, if there is one or if gas is always locked.
  unfoldable pub gas_to_lock : Host → ℕ
  gas_to_lock h =
      if has_callback_method engine h || not h.flags.dynamic_gas_locking_enabled
      then compute_gas_locked_for_async h
      else 0

  -- No gas is taken where none is locked.
  unfoldable pub lock_gas : Host → Result
  lock_gas h =
      if has_callback_method engine h || not h.flags.dynamic_gas_locking_enabled
      then use_gas_bounded (gas_to_lock h) h
      else (h, none)

  unfoldable pub execute_async_call : Bytes → Bytes → Bytes → Host → Result
  execute_async_call addr content value h = and_then (use_gas_for_async_step h) (λ h1.
      and_then (lock_gas h1) (λ h2. (
        set_runtime_breakpoint_value breakpoint_async_call (record h2 {
          runtime =
              set_async_call_info
                (some (record {
                  destination = addr;
                  content = content;
                  gas_limit = gas_left h2;
                  gas_locked = gas_to_lock h1;
                  value_bytes = value;
                }))
                h2.runtime;
        }),
        none,
      )))

abbrev pub no_calls : AsyncContext
no_calls = record { callback = ""; async_calls = [] }

unfoldable pub add_async_context_call : Bytes → AsyncGeneratedCall → Runtime → Runtime
add_async_context_call identifier call r =
    let contexts = r.async_context_info.async_context_map in
    let context : AsyncContext = elim (lookup identifier contexts) [
      | none ↦ no_calls
      | some context ↦ context
    ] in
    record r {
      active = record r.active {
        async_context_info = record r.async_context_info {
          async_context_map =
              insert identifier (record context { async_calls = context.async_calls ++ call ∷ [] })
                contexts;
        };
      };
    }

unfoldable pub get_async_context : Bytes → Runtime → VmError ⊎ AsyncContext
get_async_context identifier r = elim (lookup identifier r.async_context_info.async_context_map) [
  | none ↦ inl async_context_does_not_exist
  | some context ↦ inr context
]
