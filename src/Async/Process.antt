-- ===== src/Async/Process.antt =====
-- processAsyncInfo: the calls of the asynchronous contexts of a contract that has returned. `none`
-- is a panic of Go on a nil pointer, which ends the run.
use wasm_vm_v.Prelude.{
  Bool, true, false, ◌⊎◌, inl, inr, Option, none, some, List, [], ◌∷◌, Bytes, is_empty,
  if◌then◌else◌,
}
use wasm_vm_v.Prelude.Map.{Map}
use wasm_vm_v.Errors.{VmError}
use wasm_vm_v.Output.Types.{VmOutput}
use wasm_vm_v.Host.{
  Host, ContractCallInput, AsyncContext, AsyncContextInfo, AsyncGeneratedCall, async_call_resolved,
  async_call_rejected,
}
use wasm_vm_v.Hook.{BlockchainHook}
use wasm_vm_v.Engine.{Engine}
use wasm_vm_v.Execution.{Result, is_ok, and_then}
use wasm_vm_v.Async.{Codec, Executed, as_call_info}
use wasm_vm_v.Async.Input.{
  create_destination_contract_call_input, create_callback_contract_call_input,
}
use wasm_vm_v.Async.Modes.{can_execute_synchronously, send_async_call_to_destination}
use wasm_vm_v.Async.Gas.{setup_async_calls_gas}
use wasm_vm_v.Async.Pending.{get_pending_async_calls, save_pending_async_calls}
use wasm_vm_v.Async.Breakpoint.{process_callback_vm_output}

-- What a step leaves: the host, the calls with their new states, and the error.
abbrev pub Processed : Type 0 → Type 0
Processed A = Option (Host × A × Option VmError)

-- A step of a loop that returns at the first error.
abbrev pub proceed : {A B : Type 0} → Processed A → (A → B) → (A → Host → Processed B) → Processed B
proceed none stop rest = none
proceed (some (h, x, some e)) stop rest = some (h, stop x, some e)
proceed (some (h, x, none)) stop rest = rest x h

abbrev pub add_first : {A : Type 0} → A → Processed (List A) → Processed (List A)
add_first x none = none
add_first x (some (h, xs, err)) = some (h, x ∷ xs, err)

module _ (hook : BlockchainHook) (engine : Engine) (codec : Codec)
    (execute_on_dest_context : ContractCallInput → Host → Executed) where
  unfoldable pub callback_async :
      AsyncGeneratedCall
      → VmOutput
      → Option VmError
      → Host
      → Host × AsyncGeneratedCall × Option VmError
  callback_async call out err h =
      let fine = is_ok out.return_code in
      let call' = record call {
        status = if fine then async_call_resolved else async_call_rejected;
      } in
      elim (create_callback_contract_call_input engine codec (as_call_info call') out
        call.destination (if fine then call.success_callback else call.error_callback) err h) [
          | inl failed ↦ (h, call', some failed)
          | inr input ↦
              let (h1, out', info, err') = execute_on_dest_context input h in
              (process_callback_vm_output codec out' err' h1, call', none)
        ]

  -- The error of the input is not looked at, and a callee that has failed leaves no information on
  -- its calls.
  unfoldable pub process_async_call : AsyncGeneratedCall → Host → Processed AsyncGeneratedCall
  process_async_call call h =
      elim (create_destination_contract_call_input engine (as_call_info call) h) [
        | inl err ↦ none
        | inr input ↦
            let (h1, out, info, err) = execute_on_dest_context input h in
            elim info [
              | none ↦ none
              | some calls ↦
                  if is_empty (get_pending_async_calls calls).async_context_map
                  then elim out [
                    | none ↦ none
                    | some called ↦ some (callback_async call called err h1)
                  ]
                  else some (h1, call, err)
            ]
      ]

  -- A call whose destination is of another shard is passed over.
  unfoldable pub process_one : AsyncGeneratedCall → Host × Bool → Processed AsyncGeneratedCall
  process_one call (h, true) = process_async_call call h
  process_one call (h, false) = some (h, call, none)

  unfoldable pub process_calls :
      List AsyncGeneratedCall → Host → Processed (List AsyncGeneratedCall)
  unfolding process_one
  process_calls [] h = some (h, [], none)
  process_calls (call ∷ calls) h =
      proceed (process_one call (can_execute_synchronously hook call.destination h))
        (λ call'. call' ∷ calls) (λ call' h'. add_first call' (process_calls calls h'))

  unfoldable pub process_contexts :
      Map Bytes AsyncContext → Host → Processed (Map Bytes AsyncContext)
  unfolding process_calls
  process_contexts [] h = some (h, [], none)
  process_contexts ((identifier, context) ∷ contexts) h =
      let done : List AsyncGeneratedCall → Bytes × AsyncContext =
        λ calls. (identifier, record context { async_calls = calls }) in
      proceed (process_calls context.async_calls h) (λ calls. done calls ∷ contexts)
        (λ calls h'. add_first (done calls) (process_contexts contexts h'))

  -- The calls that leave the shard.
  unfoldable pub send_one : AsyncGeneratedCall → Host × Bool → Result
  send_one call (h, true) = (h, none)
  send_one call (h, false) = send_async_call_to_destination hook (as_call_info call) h

  unfoldable pub send_calls : List AsyncGeneratedCall → Host → Result
  unfolding send_one
  send_calls [] h = (h, none)
  send_calls (call ∷ calls) h =
      and_then (send_one call (can_execute_synchronously hook call.destination h))
        (λ h'. send_calls calls h')

  unfoldable pub send_contexts : Map Bytes AsyncContext → Host → Result
  unfolding send_calls
  send_contexts [] h = (h, none)
  send_contexts ((identifier, context) ∷ contexts) h =
      and_then (send_calls context.async_calls h) (λ h'. send_contexts contexts h')

  -- The calls that are pending, once they are saved and sent.
  unfoldable pub leave_pending : AsyncContextInfo → Host → Host × (VmError ⊎ AsyncContextInfo)
  leave_pending pending h =
      let (h1, err) = save_pending_async_calls hook codec pending h in
      elim err [
        | some e ↦ (h1, inl e)
        | none ↦ elim (setup_async_calls_gas pending h1) [
          | inl e ↦ (h1, inl e)
          | inr limited ↦
              let (h2, err') = send_contexts limited.async_context_map h1 in
              (h2, elim err' [ some e ↦ inl e | none ↦ inr limited ])
        ]
      ]

  unfoldable pub finish_processing :
      AsyncContextInfo
      → Processed (Map Bytes AsyncContext)
      → Option (Host × AsyncContextInfo × (VmError ⊎ AsyncContextInfo))
  finish_processing limited none = none
  finish_processing limited (some (h, contexts, some e)) =
      some (h, record limited { async_context_map = contexts }, inl e)
  finish_processing limited (some (h, contexts, none)) =
      let processed = record limited { async_context_map = contexts } in
      let pending = get_pending_async_calls processed in
      let (h', result) = leave_pending pending h in
      if is_empty pending.async_context_map
      then some (h, processed, inr pending)
      else some (h', processed, result)

  unfoldable pub process_limited :
      AsyncContextInfo
      → Host
      → VmError ⊎ AsyncContextInfo
      → Option (Host × AsyncContextInfo × (VmError ⊎ AsyncContextInfo))
  process_limited info h (inl e) = some (h, info, inl e)
  process_limited info h (inr limited) =
      finish_processing limited (process_contexts limited.async_context_map h)

  -- The calls with their new states, and those that are pending. The limits that `leave_pending`
  -- gives to the calls are in the latter alone.
  unfoldable pub process_async_info :
      AsyncContextInfo → Host → Option (Host × AsyncContextInfo × (VmError ⊎ AsyncContextInfo))
  process_async_info info h =
      if is_empty info.async_context_map
      then some (h, info, inr info)
      else process_limited info h (setup_async_calls_gas info h)
