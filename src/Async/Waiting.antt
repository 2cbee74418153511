-- ===== src/Async/Waiting.antt =====
-- The pending calls in the storage: savePendingAsyncCalls and getCurrentAsyncInfo of
-- vmhost/hostCore/asyncCall.go.
use wasm_vm_v.Prelude.{◌≡◌, ◌∙◌, ◌||◌, inr, Bytes, bytes_eq, arith, is_empty, false, has_prefix}
use wasm_vm_v.Host.{Host, AsyncContextInfo}
use wasm_vm_v.Hook.{BlockchainHook}
use wasm_vm_v.Storage.{get_storage_unmetered}
use wasm_vm_v.VmHooks.LockValues.{stored-set_protected_storage}
use wasm_vm_v.Storage.View.{stored, get_storage_from_address_unmetered_lem}
use wasm_vm_v.Async.{Codec}
use wasm_vm_v.Async.Pending.{async_storage_key, save_pending_async_calls, get_current_async_info}

get_current_async_info_lem :
    (hook : BlockchainHook) (codec : Codec) (info : AsyncContextInfo) (saved : Bytes) (h : Host)
    → is_empty saved ≡ false
    → codec.unmarshal saved ≡ inr info
    → stored hook h.storage.address (async_storage_key h) h ≡ saved
    → (get_current_async_info hook codec h).1 ≡ inr info
unfolding get_current_async_info get_storage_unmetered
get_current_async_info_lem hook codec info saved h some_bytes read is_stored =
    let addr = h.storage.address in
    let key = async_storage_key h in
    ground (arith, read, is_stored, get_storage_from_address_unmetered_lem hook addr key h addr key)

stored-save_pending_async_calls :
    (hook : BlockchainHook) (codec : Codec) (info : AsyncContextInfo) (saved : Bytes) (h : Host)
    → is_empty info.async_context_map ≡ false
    → codec.marshal info ≡ inr saved
    → (h.runtime.read_only || has_prefix (async_storage_key h) h.storage.protected_key_prefix)
      ≡ false
    → stored hook h.storage.address
        (async_storage_key h)
        (save_pending_async_calls hook codec info h).0
      ≡ saved
unfolding save_pending_async_calls
stored-save_pending_async_calls hook codec info saved h some_calls written free =
    rw (some_calls, written) (stored-set_protected_storage hook (async_storage_key h) saved h free)

-- What savePendingAsyncCalls saves, getCurrentAsyncInfo reads back, outside read-only mode and
-- where the key is not the node's, if the notation of the calls is not empty and is read back: in
-- any later state whose address and original transaction have these bytes stored still.
pub get_current_async_info-save_pending_async_calls :
    (hook : BlockchainHook) (codec : Codec) (info : AsyncContextInfo) (saved : Bytes)
    (h later : Host)
    → is_empty info.async_context_map ≡ false
    → codec.marshal info ≡ inr saved
    → codec.unmarshal saved ≡ inr info
    → is_empty saved ≡ false
    → (h.runtime.read_only || has_prefix (async_storage_key h) h.storage.protected_key_prefix)
      ≡ false
    → stored hook later.storage.address (async_storage_key later) later
      ≡ stored hook h.storage.address
          (async_storage_key h)
          (save_pending_async_calls hook codec info h).0
    → (get_current_async_info hook codec later).1 ≡ inr info
get_current_async_info-save_pending_async_calls hook codec info saved h later some_calls written
      read some_bytes free same =
    get_current_async_info_lem hook codec info saved later some_bytes read
      (same ∙ stored-save_pending_async_calls hook codec info saved h some_calls written free)
