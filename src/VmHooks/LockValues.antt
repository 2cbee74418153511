-- ===== src/VmHooks/LockValues.antt =====
-- The time locks as values: setStorageLock and getStorageLock of vmhost/vmhooks/baseOps.go.
use wasm_vm_v.Prelude.{
  ◌^◌, ◌≡◌, ◌∙◌, refl, ap, ◌||◌, false, Option, none, some, inr, Bytes, bytes_equal_iff, has_prefix,
  arith,
}
use wasm_vm_v.Prelude.Int.{ℤ, pos}
use wasm_vm_v.Prelude.Division.{abs}
use wasm_vm_v.Errors.{VmError}
use wasm_vm_v.Overflow.{wrap}
use wasm_vm_v.Host.{Host}
use wasm_vm_v.Hook.{BlockchainHook}
use wasm_vm_v.Fault.{with_fault, fail_execution, add_error, set_runtime_breakpoint_value}
use wasm_vm_v.Metering.Points.{use_gas}
use wasm_vm_v.Output.{set_return_code, set_return_message}
use wasm_vm_v.Runtime.Memory.{mem_load}
use wasm_vm_v.Storage.{get_storage, get_storage_unmetered, set_protected_storage, use_gas_for_key}
use wasm_vm_v.Storage.View.{stored, get_storage_from_address_unmetered_lem}
use wasm_vm_v.Storage.Writes.{set_protected_storage_lem, use_gas-Keeps, use_gas_for_key-Keeps}
use wasm_vm_v.VmHooks.BigIntBytes.{to_bytes, from_bytes}
use wasm_vm_v.VmHooks.BigIntBytes.Laws.{from_bytes-to_bytes}
use wasm_vm_v.VmHooks.BaseOps.{
  set_storage_lock, get_storage_lock, custom_storage_key, time_lock_key_prefix, ops_cost,
  finish_with, minus_one, status_number,
}
use wasm_vm_v.VmHooks.StoredBytes.{with_loaded-read, mem_load-use_gas}

abbrev pub lock_key : Bytes → Bytes
lock_key key = custom_storage_key time_lock_key_prefix key

module _ (hook : BlockchainHook) where
  -- Failing the execution changes no value.
  pub stored-finish_with :
      (err : Option VmError) (fault result : ℤ) (h : Host) (a k : Bytes)
      → stored hook a k (finish_with err fault result h).0 ≡ stored hook a k h
  unfolding with_fault fail_execution add_error set_runtime_breakpoint_value set_return_code
      set_return_message use_gas stored
  stored-finish_with none fault result h a k = refl
  stored-finish_with (some e) fault result h a k = refl

  pub get_storage_lem :
      (key : Bytes) (h : Host) → (get_storage hook key h).1 ≡ stored hook h.storage.address key h
  unfolding get_storage get_storage_unmetered
  get_storage_lem key h =
      let addr = h.storage.address in
      ground (
        arith,
        use_gas_for_key-Keeps hook addr key key h,
        get_storage_from_address_unmetered_lem hook addr key (use_gas_for_key key h) addr key,
      )

  pub stored-set_protected_storage :
      (key value : Bytes) (h : Host)
      → (h.runtime.read_only || has_prefix key h.storage.protected_key_prefix) ≡ false
      → stored hook h.storage.address key (set_protected_storage hook key value h).0 ≡ value
  stored-set_protected_storage key value h free = ground (
    arith,
    free,
    set_protected_storage_lem hook key value h h.storage.address key,
    bytes_equal_iff h.storage.address h.storage.address,
    bytes_equal_iff key key,
  )

  -- The bytes of a lock after setStorageLock.
  stored-set_storage_lock :
      (offset size timestamp : ℤ) (key : Bytes) (h : Host)
      → mem_load offset size h.runtime.instance ≡ inr key
      → (h.runtime.read_only || has_prefix (lock_key key) h.storage.protected_key_prefix) ≡ false
      → stored hook h.storage.address
          (lock_key key)
          (set_storage_lock hook offset size timestamp h).0
        ≡ to_bytes timestamp
  unfolding set_storage_lock use_gas
  stored-set_storage_lock offset size timestamp key h read free =
      let addr = h.storage.address in
      let c = use_gas (ops_cost h).int64_storage_store h in
      let tk = lock_key key in
      let lock : Bytes → Host → Host × ℤ = λ key h1.
        (let (h2, status, err) =
            set_protected_storage hook (lock_key key) (to_bytes timestamp) h1 in
          finish_with err minus_one (status_number status) h2) in
      ap (λ (r : Host × ℤ). stored hook addr tk r.0)
        (with_loaded-read minus_one offset size lock c key
          (mem_load-use_gas offset size _ h ∙ read))
      ∙ stored-finish_with (set_protected_storage hook tk (to_bytes timestamp) c).2 minus_one _ _
          addr tk
      ∙ stored-set_protected_storage tk (to_bytes timestamp) c free

  -- The value that getStorageLock returns.
  get_storage_lock_value :
      (offset size : ℤ) (key : Bytes) (h : Host)
      → mem_load offset size h.runtime.instance ≡ inr key
      → (get_storage_lock hook offset size h).1
        ≡ wrap (2 ^ 64) (pos (from_bytes (stored hook h.storage.address (lock_key key) h)))
  unfolding get_storage_lock use_gas
  get_storage_lock_value offset size key h read =
      let c = use_gas (ops_cost h).storage_load h in
      let load : Bytes → Host → Host × ℤ = λ key h1.
        (let (h2, value) = get_storage hook (lock_key key) h1 in
          (h2, wrap (2 ^ 64) (pos (from_bytes value)))) in
      ap (λ (r : Host × ℤ). r.1)
        (with_loaded-read minus_one offset size load c key
          (mem_load-use_gas offset size _ h ∙ read))
      ∙ ap (λ bytes. wrap (2 ^ 64) (pos (from_bytes bytes)))
          (get_storage_lem (lock_key key) c
            ∙ (use_gas-Keeps hook h.storage.address (lock_key key) (ops_cost h).storage_load
                h).value)

  -- After setStorageLock on a key, outside read-only mode and where the key of its lock is not the
  -- node's, getStorageLock on the same key returns the absolute value of the time that was set, as
  -- an int64, in any later state of the same address in which the bytes of the lock are as they
  -- were.
  pub get_storage_lock-set_storage_lock :
      (offset size timestamp : ℤ) (key : Bytes) (h : Host)
      → mem_load offset size h.runtime.instance ≡ inr key
      → (h.runtime.read_only || has_prefix (lock_key key) h.storage.protected_key_prefix) ≡ false
      → (offset' size' : ℤ) (later : Host) → mem_load offset' size' later.runtime.instance ≡ inr key
      → later.storage.address ≡ h.storage.address
      → stored hook h.storage.address (lock_key key) later
        ≡ stored hook h.storage.address
            (lock_key key)
            (set_storage_lock hook offset size timestamp h).0
      → (get_storage_lock hook offset' size' later).1 ≡ wrap (2 ^ 64) (pos (abs timestamp))
  get_storage_lock-set_storage_lock offset size timestamp key h read free offset' size' later reads
        same kept =
      get_storage_lock_value offset' size' key later reads
      ∙ ap (λ bytes. wrap (2 ^ 64) (pos (from_bytes bytes)))
          (ap (λ addr. stored hook addr (lock_key key) later) same
            ∙ kept
            ∙ stored-set_storage_lock offset size timestamp key h read free)
      ∙ ap (λ n. wrap (2 ^ 64) (pos n)) (from_bytes-to_bytes timestamp)
