-- ===== src/Async/Stacks/Processed.antt =====
-- processAsyncInfo of vmhost/hostCore/asyncCall.go and the stacks of the contexts.
use wasm_vm_v.Prelude.{
  ◌≡◌, refl, ◌⊎◌, inl, inr, Bool, true, false, Option, none, some, List, [], ◌∷◌, Bytes, arith,
  is_empty, Option-cases, Sum-cases, Bool-cases, if◌then◌else◌,
}
use wasm_vm_v.Prelude.Map.{Map}
use wasm_vm_v.Errors.{VmError}
use wasm_vm_v.Output.Types.{VmOutput}
use wasm_vm_v.Host.{
  Host, ContractCallInput, AsyncContext, AsyncContextInfo, AsyncGeneratedCall, async_call_resolved,
  async_call_rejected,
}
use wasm_vm_v.Hook.{BlockchainHook}
use wasm_vm_v.Engine.{Engine}
use wasm_vm_v.Execution.{is_ok}
use wasm_vm_v.Execution.Frame.{Balanced, Balanced-refl, Balanced-trans, and_then-Balanced}
use wasm_vm_v.Async.{Codec, Executed, as_call_info}
use wasm_vm_v.Async.Input.{
  create_destination_contract_call_input, create_callback_contract_call_input,
}
use wasm_vm_v.Async.Gas.{setup_async_calls_gas}
use wasm_vm_v.Async.Pending.{get_pending_async_calls, save_pending_async_calls, async_storage_key}
use wasm_vm_v.Async.Process.{
  Processed, callback_async, process_async_call, process_calls, process_contexts, send_calls,
  process_one, send_one, proceed, add_first, finish_processing, process_limited, send_contexts,
  leave_pending, process_async_info,
}
use wasm_vm_v.Async.Stacks.{
  can_execute_synchronously-Balanced, process_callback_vm_output-Balanced,
  send_async_call_to_destination-Balanced,
}
use wasm_vm_v.Async.Stacks.Stored.{set_protected_storage-Balanced}

-- A step that returns leaves the stacks.
abbrev Balances : {A : Type 0} → Host → Processed A → Type 0
Balances {A} h x = (r : Host × A × Option VmError) → x ≡ some r → Balanced h r.0

Balances-after :
    {A : Type 0} {h h1 : Host} {x : Processed A} → Balanced h h1 → Balances h1 x → Balances h x
Balances-after b p r done = Balanced-trans b (p r done)

some-Balances :
    {A : Type 0} (h : Host) (x : Host × A × Option VmError) → Balanced h x.0 → Balances h (some x)
some-Balances h x b r done = ground (arith, done, b)

proceed-Balances :
    {A B : Type 0} {h : Host} (x : Processed A) (stop : A → B) (rest : A → Host → Processed B)
    → Balances h x
    → ((a : A) (h1 : Host) → Balances h1 (rest a h1))
    → Balances h (proceed x stop rest)
proceed-Balances none stop rest p q r done = absurd (ground (arith, done))
proceed-Balances (some (h1, a, some e)) stop rest p q r done =
    some-Balances _ (h1, stop a, some e) (p (h1, a, some e) refl) r done
proceed-Balances (some (h1, a, none)) stop rest p q r done =
    Balanced-trans (p (h1, a, none) refl) (q a h1 r done)

add_first-Balances :
    {A : Type 0} (h : Host) (a : A) (x : Processed (List A))
    → Balances h x
    → Balances h (add_first a x)
add_first-Balances h a none p r done = absurd (ground (arith, done))
add_first-Balances h a (some (h1, xs, err)) p r done =
    some-Balances h (h1, a ∷ xs, err) (p (h1, xs, err) refl) r done

save_pending_async_calls-Balanced :
    (hook : BlockchainHook) (codec : Codec) (info : AsyncContextInfo) (h : Host)
    → Balanced h (save_pending_async_calls hook codec info h).0
unfolding save_pending_async_calls
save_pending_async_calls-Balanced hook codec info h = elim (Sum-cases (codec.marshal info)) [
  | inl (e, bad) ↦ ground (arith, bad, Balanced-refl h)
  | inr (saved, good) ↦ ground (
    arith,
    good,
    Balanced-refl h,
    set_protected_storage-Balanced hook (async_storage_key h) saved h,
  )
]

-- ExecuteOnDestContext leaves the stacks as it finds them.
module _ (hook : BlockchainHook) (engine : Engine) (codec : Codec)
    (execute_on_dest_context : ContractCallInput → Host → Executed)
    (calls : (call : ContractCallInput) (h : Host)
      → Balanced h (execute_on_dest_context call h).0) where
  send_one-Balanced :
      (call : AsyncGeneratedCall) (asked : Host × Bool)
      → Balanced asked.0 (send_one hook engine codec execute_on_dest_context call asked).0
  unfolding send_one
  send_one-Balanced call (h, true) = Balanced-refl h
  send_one-Balanced call (h, false) =
      send_async_call_to_destination-Balanced hook (as_call_info call) h

  send_calls-Balanced :
      (cs : List AsyncGeneratedCall) (h : Host)
      → Balanced h (send_calls hook engine codec execute_on_dest_context cs h).0
  unfolding send_calls
  send_calls-Balanced [] h = Balanced-refl h
  send_calls-Balanced (call ∷ cs) h =
      and_then-Balanced _ _
        (Balanced-trans (can_execute_synchronously-Balanced hook call.destination h)
          (send_one-Balanced call _))
        (λ h1. send_calls-Balanced cs h1)

  send_contexts-Balanced :
      (contexts : Map Bytes AsyncContext) (h : Host)
      → Balanced h (send_contexts hook engine codec execute_on_dest_context contexts h).0
  unfolding send_contexts
  send_contexts-Balanced [] h = Balanced-refl h
  send_contexts-Balanced ((identifier, context) ∷ contexts) h =
      and_then-Balanced _ _ (send_calls-Balanced context.async_calls h)
        (λ h1. send_contexts-Balanced contexts h1)

  leave_pending-Balanced :
      (pending : AsyncContextInfo) (h : Host)
      → Balanced h (leave_pending hook engine codec execute_on_dest_context pending h).0
  unfolding leave_pending
  leave_pending-Balanced pending h =
      let h1 = (save_pending_async_calls hook codec pending h).0 in
      let b = save_pending_async_calls-Balanced hook codec pending h in
      elim (Sum-cases (setup_async_calls_gas pending h1)) [
        | inl (e, bad) ↦ ground (arith, bad, b)
        | inr (limited, good) ↦
            ground (
              arith,
              good,
              b,
              Balanced-trans b (send_contexts-Balanced limited.async_context_map h1),
            )
      ]

  callback_async-Balanced :
      (call : AsyncGeneratedCall) (out : VmOutput) (err : Option VmError) (h : Host)
      → Balanced h (callback_async hook engine codec execute_on_dest_context call out err h).0
  unfolding callback_async
  callback_async-Balanced call out err h =
      let fine = is_ok out.return_code in
      let call' = record call {
        status = if fine then async_call_resolved else async_call_rejected;
      } in
      elim (Sum-cases (
        create_callback_contract_call_input engine codec (as_call_info call') out call.destination
          (if fine then call.success_callback else call.error_callback) err h)) [
            | inl (e, bad) ↦ ground (arith, bad, Balanced-refl h)
            | inr (input, good) ↦
                let (h1, out', info, err') = execute_on_dest_context input h in
                ground (
                  arith,
                  good,
                  Balanced-trans (calls input h)
                      (process_callback_vm_output-Balanced codec out' err' h1),
                )
          ]

  process_async_call-Balances :
      (call : AsyncGeneratedCall) (h : Host)
      → Balances h (process_async_call hook engine codec execute_on_dest_context call h)
  unfolding process_async_call
  process_async_call-Balances call h r done =
      elim (Sum-cases (create_destination_contract_call_input engine (as_call_info call) h)) [
        | inl (e, bad) ↦ absurd (ground (arith, bad, done))
        | inr (input, good) ↦
            let (h1, out, info, err) = execute_on_dest_context input h in
            elim (Option-cases out) [
              | inl missing ↦ ground (arith, good, missing, done, calls input h)
              | inr (called, found) ↦ ground (
                arith,
                good,
                found,
                done,
                calls input h,
                Balanced-trans (calls input h) (callback_async-Balanced call called err h1),
              )
            ]
      ]

  process_one-Balances :
      (call : AsyncGeneratedCall) (asked : Host × Bool)
      → Balances asked.0 (process_one hook engine codec execute_on_dest_context call asked)
  unfolding process_one
  process_one-Balances call (h, true) = process_async_call-Balances call h
  process_one-Balances call (h, false) = some-Balances h (h, call, none) (Balanced-refl h)

  process_calls-Balances :
      (cs : List AsyncGeneratedCall) (h : Host)
      → Balances h (process_calls hook engine codec execute_on_dest_context cs h)
  unfolding process_calls
  process_calls-Balances [] h = some-Balances h (h, [], none) (Balanced-refl h)
  process_calls-Balances (call ∷ cs) h =
      proceed-Balances _ _ _
        (Balances-after (can_execute_synchronously-Balanced hook call.destination h)
          (process_one-Balances call _))
        (λ call' h1. add_first-Balances h1 call' _ (process_calls-Balances cs h1))

  process_contexts-Balances :
      (contexts : Map Bytes AsyncContext) (h : Host)
      → Balances h (process_contexts hook engine codec execute_on_dest_context contexts h)
  unfolding process_contexts
  process_contexts-Balances [] h = some-Balances h (h, [], none) (Balanced-refl h)
  process_contexts-Balances ((identifier, context) ∷ contexts) h =
      proceed-Balances _ _ _ (process_calls-Balances context.async_calls h)
        (λ cs h1. add_first-Balances h1 _ _ (process_contexts-Balances contexts h1))

  finish_processing-Balanced :
      (limited : AsyncContextInfo) (h : Host) (x : Processed (Map Bytes AsyncContext))
      (r : Host × AsyncContextInfo × (VmError ⊎ AsyncContextInfo))
      → Balances h x
      → finish_processing hook engine codec execute_on_dest_context limited x ≡ some r
      → Balanced h r.0
  unfolding finish_processing
  finish_processing-Balanced limited h none r b done = absurd (ground (arith, done))
  finish_processing-Balanced limited h (some (h1, contexts, some e)) r b done =
      ground (arith, done, b (h1, contexts, some e) refl)
  finish_processing-Balanced limited h (some (h1, contexts, none)) r b done =
      let processed = record limited { async_context_map = contexts } in
      let b1 = b (h1, contexts, none) refl in
      ground (
        arith,
        done,
        b1,
        Balanced-trans b1 (leave_pending-Balanced (get_pending_async_calls processed) h1),
      )

  process_limited-Balanced :
      (info : AsyncContextInfo) (h : Host) (limited : VmError ⊎ AsyncContextInfo)
      (r : Host × AsyncContextInfo × (VmError ⊎ AsyncContextInfo))
      → process_limited hook engine codec execute_on_dest_context info h limited ≡ some r
      → Balanced h r.0
  unfolding process_limited
  process_limited-Balanced info h (inl e) r done = ground (arith, done, Balanced-refl h)
  process_limited-Balanced info h (inr limited) r done =
      finish_processing-Balanced limited h _ r
        (process_contexts-Balances limited.async_context_map h) done

  -- Where ExecuteOnDestContext leaves the stacks of the contexts and the settings as it finds them,
  -- so does the processing of the asynchronous contexts of a contract that does not panic, whether
  -- it fails or not, with the calls, the call-backs, and the pending calls that it saves and sends.
  pub process_async_info-Balanced :
      (info : AsyncContextInfo) (h : Host)
      (r : Host × AsyncContextInfo × (VmError ⊎ AsyncContextInfo))
      → process_async_info hook engine codec execute_on_dest_context info h ≡ some r
      → Balanced h r.0
  unfolding process_async_info
  process_async_info-Balanced info h r done = elim (Bool-cases (is_empty info.async_context_map)) [
    | inl no_context ↦ ground (arith, no_context, done, Balanced-refl h)
    | inr contexts ↦
        process_limited-Balanced info h (setup_async_calls_gas info h) r
          (ground (arith, contexts, done))
  ]
