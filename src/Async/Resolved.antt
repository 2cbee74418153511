-- ===== src/Async/Resolved.antt =====
-- The last pending call: what processCallbackStack of vmhost/hostCore/asyncCall.go leaves in the
-- storage, and the operations it ends with, which write none.
use wasm_vm_v.Prelude.{[], bytes_eq}
use wasm_vm_v.Host.{Host}
use wasm_vm_v.Hook.{BlockchainHook}
use wasm_vm_v.Engine.{Engine}
use wasm_vm_v.Storage.{get_storage_unmetered, set_protected_storage}
use wasm_vm_v.Async.Pending.{async_storage_key}

-- The host once the entry of the pending calls is deleted.
abbrev pub cleared : BlockchainHook → Host → Host
cleared hook h =
    let key = async_storage_key h in
    (set_protected_storage hook key [] (get_storage_unmetered hook key h).0).0
