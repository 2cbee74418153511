-- ===== src/Async/Pending.antt =====
-- The calls that are still pending, and how they are kept in the storage of the contract.
pub mod Kept
use wasm_vm_v.Prelude.{
  Bool, true, false, not, ◌⊎◌, inl, inr, Option, none, some, List, [], ◌∷◌, ◌++◌, Bytes, is_empty,
  if◌then◌else◌,
}
use wasm_vm_v.Prelude.Map.{Map}
use wasm_vm_v.Errors.{VmError}
use wasm_vm_v.Host.{
  Host, AsyncCallStatus, AsyncContext, AsyncContextInfo, AsyncGeneratedCall, async_call_pending,
}
use wasm_vm_v.Hook.{BlockchainHook}
use wasm_vm_v.Storage.{set_protected_storage, get_storage_unmetered}
use wasm_vm_v.VmHooks.BaseOps.{custom_storage_key}
use wasm_vm_v.Execution.{Result}
use wasm_vm_v.Async.{Codec, async_data_prefix}
use wasm_vm_v.Async.Modes.{can_execute_synchronously}

abbrev pub is_pending : AsyncCallStatus → Bool
is_pending async_call_pending = true
is_pending _ = false

unfoldable pub pending_calls : List AsyncGeneratedCall → List AsyncGeneratedCall
pending_calls [] = []
pending_calls (call ∷ calls) =
    if is_pending call.status then call ∷ pending_calls calls else pending_calls calls

-- A context without a call is not entered into the new map.
abbrev pub put_context :
    Bytes → AsyncContext → List AsyncGeneratedCall → Map Bytes AsyncContext → Map Bytes AsyncContext
put_context identifier context [] contexts = contexts
put_context identifier context (call ∷ calls) contexts =
    (identifier, record { callback = context.callback; async_calls = call ∷ calls }) ∷ contexts

unfoldable pub pending_contexts : Map Bytes AsyncContext → Map Bytes AsyncContext
unfolding pending_calls
pending_contexts [] = []
pending_contexts ((identifier, context) ∷ contexts) =
    put_context identifier context (pending_calls context.async_calls) (pending_contexts contexts)

unfoldable pub get_pending_async_calls : AsyncContextInfo → AsyncContextInfo
unfolding pending_contexts
get_pending_async_calls info = record info {
  async_context_map = pending_contexts info.async_context_map;
}

abbrev pub no_info : AsyncContextInfo
no_info = record { async_caller_addr = []; return_data = []; async_context_map = [] }

abbrev pub async_storage_key : Host → Bytes
async_storage_key h = custom_storage_key async_data_prefix h.runtime.vm_input.original_tx_hash

module _ (hook : BlockchainHook) where
  -- The calls that have to leave the shard. Asking for the code of a destination may cache it.
  unfoldable pub cross_calls : List AsyncGeneratedCall → Host → Host × List AsyncGeneratedCall
  cross_calls [] h = (h, [])
  cross_calls (call ∷ calls) h =
      let (h1, runs_here) = can_execute_synchronously hook call.destination h in
      let (h2, rest) = cross_calls calls h1 in (h2, if runs_here then rest else call ∷ rest)

  unfoldable pub cross_contexts : Map Bytes AsyncContext → Host → Host × Map Bytes AsyncContext
  unfolding cross_calls
  cross_contexts [] h = (h, [])
  cross_contexts ((identifier, context) ∷ contexts) h =
      let (h1, calls) = cross_calls context.async_calls h in
      let (h2, rest) = cross_contexts contexts h1 in (h2, put_context identifier context calls rest)

  module _ (codec : Codec) where
    unfoldable pub save_pending_async_calls : AsyncContextInfo → Host → Result
    save_pending_async_calls info h =
        if is_empty info.async_context_map then (h, none) else elim (codec.marshal info) [
          | inl err ↦ (h, some err)
          | inr saved ↦
              let (h', status, err) = set_protected_storage hook (async_storage_key h) saved h in
              (h', err)
        ]

    unfoldable pub save_cross_shard_calls : AsyncContextInfo → Host → Result
    unfolding cross_contexts save_pending_async_calls
    save_cross_shard_calls info h =
        let (h', contexts) = cross_contexts info.async_context_map h in
        save_pending_async_calls (record info { async_context_map = contexts }) h'

    unfoldable pub get_current_async_info : Host → Host × (VmError ⊎ AsyncContextInfo)
    get_current_async_info h =
        let (h', saved) = get_storage_unmetered hook (async_storage_key h) h in
        (h', if is_empty saved then inr no_info else codec.unmarshal saved)
