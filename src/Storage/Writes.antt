-- ===== src/Storage/Writes.antt =====
-- SetStorage refines a write to the abstract storage: one key changes, the status says how, and the
-- keys that the node or the VM protects keep their values.
use wasm_vm_v.Prelude.{
  ℕ, ◌≡◌, refl, ◌∙◌, ◌⊎◌, ◌||◌, Bool, true, false, ◌&&◌, Option, none, some, Bytes, bytes_equal,
  bytes_equal_iff, has_prefix, is_empty, arith, if◌then◌else◌, Option-cases, inl, inr, [], ◌∷◌,
  length,
}
use wasm_vm_v.Prelude.Int.{ℤ}
use wasm_vm_v.Errors.{VmError}
use wasm_vm_v.Overflow.{mul_uint64}
use wasm_vm_v.Host.{Host, base_cost}
use wasm_vm_v.Hook.{BlockchainHook}
use wasm_vm_v.Metering.Points.{use_gas, free_gas}
use wasm_vm_v.Output.{set_refund}
use wasm_vm_v.Storage.{
  StorageStatus, storage_unchanged, storage_modified, storage_added, storage_deleted,
  use_gas_for_key, load_old_value, store_value, charge_write, charge_modified, charge_longer,
  charge_shorter, refuse_write, set_storage, set_protected_storage, with_protection,
  protected_storage_prefix,
}
use wasm_vm_v.Storage.View.{stored, load_old_value_lem, stored-store_value}

-- The status that a write of `value` over `old` reports.
abbrev pub status_of : Bytes → Bytes → StorageStatus
status_of old value =
    if bytes_equal old value
    then storage_unchanged
    else (if is_empty old
        then storage_added
        else (if is_empty value then storage_deleted else storage_modified))

module _ (hook : BlockchainHook) (a k : Bytes) where
  -- The second host has the same value under key `k` of address `a` and the same storage context.
  pub record Keeps (h h' : Host) : Type 0 where
    pub value : stored hook a k h' ≡ stored hook a k h
    pub context : h'.storage ≡ h.storage

  Keeps-refl : (h : Host) → Keeps h h
  Keeps-refl h = record { value = refl; context = refl }

  Keeps-trans : {h h' h'' : Host} → Keeps h h' → Keeps h' h'' → Keeps h h''
  Keeps-trans p q = record { value = q.value ∙ p.value; context = q.context ∙ p.context }

  Keeps-if :
      (b : Bool) {h h' h'' : Host} → Keeps h h' → Keeps h h'' → Keeps h (if b then h' else h'')
  Keeps-if true p q = p
  Keeps-if false p q = q

  -- A charge changes no value and no field of the storage context.
  pub use_gas-Keeps : (gas : ℕ) (h : Host) → Keeps h (use_gas gas h)
  unfolding use_gas stored
  use_gas-Keeps gas h = record { value = refl; context = refl }

  free_gas-Keeps : (gas : ℕ) (h : Host) → Keeps h (free_gas gas h)
  unfolding free_gas set_refund stored
  free_gas-Keeps gas h = record { value = refl; context = refl }

  pub use_gas_for_key-Keeps : (key : Bytes) (h : Host) → Keeps h (use_gas_for_key key h)
  unfolding use_gas_for_key
  use_gas_for_key-Keeps key h = Keeps-if _ (use_gas-Keeps _ h) (Keeps-refl h)

  charge_longer-Keeps : (old : Bytes) (extra : ℤ) (h : Host) → Keeps h (charge_longer old extra h)
  unfolding charge_longer
  charge_longer-Keeps old extra h = Keeps-if _ (use_gas-Keeps _ h) (Keeps-refl h)

  charge_shorter-Keeps :
      (value : Bytes) (extra : ℤ) (h : Host) → Keeps h (charge_shorter value extra h)
  unfolding charge_shorter
  charge_shorter-Keeps value extra h =
      Keeps-if _ (Keeps-trans (use_gas-Keeps _ h) (free_gas-Keeps _ _)) (Keeps-refl h)

  charge_modified-Keeps : (old value : Bytes) (h : Host) → Keeps h (charge_modified old value h)
  unfolding charge_modified
  charge_modified-Keeps old value h =
      Keeps-trans (charge_longer-Keeps old _ h) (charge_shorter-Keeps value _ _)

  charge_write-Keeps : (old value : Bytes) (h : Host) → Keeps h (charge_write old value h).0
  unfolding charge_write
  charge_write-Keeps [] value h = use_gas-Keeps _ h
  charge_write-Keeps (x ∷ old) [] h = free_gas-Keeps _ h
  charge_write-Keeps (x ∷ old) (y ∷ value) h = charge_modified-Keeps (x ∷ old) (y ∷ value) h

charge_write_status :
    (old value : Bytes) (h : Host)
    → bytes_equal old value ≡ false
    → (charge_write old value h).1 ≡ status_of old value
unfolding charge_write
charge_write_status old value h ne = ground arith

-- The keys that a write cannot change.
abbrev pub IsProtected : Bytes → Host → Type 0
IsProtected k h =
    (has_prefix k h.storage.protected_key_prefix ≡ true)
    ⊎ ((has_prefix k protected_storage_prefix ≡ true)
        × (h.storage.vm_storage_protection_enabled ≡ true))
    ⊎ (h.runtime.read_only ≡ true)

-- What the guards have found out where they let a write through.
allowed_write :
    (key : Bytes) (h : Host)
    → refuse_write key h ≡ none
    → (h.runtime.read_only ≡ false)
      × (has_prefix key h.storage.protected_key_prefix ≡ false)
      × ((has_prefix key protected_storage_prefix && h.storage.vm_storage_protection_enabled)
          ≡ false)
unfolding refuse_write
allowed_write key h allowed = ground arith

refused_unprotected :
    (key : Bytes) (h : Host) (r : StorageStatus × Option VmError)
    → refuse_write key (with_protection false h) ≡ some r
    → (h.runtime.read_only || has_prefix key h.storage.protected_key_prefix) ≡ true
unfolding refuse_write
refused_unprotected key h r refused = ground arith

module _ (hook : BlockchainHook) where
  -- A write that no guard refuses succeeds: the key of the current address has the value
  -- afterwards, every other key of every address keeps its own, and the status tells by the
  -- old and the new value whether the key was unchanged, added, deleted or modified.
  pub set_storage_lem :
      (key value : Bytes) (h : Host) (a k : Bytes)
      → refuse_write key h ≡ none
      → let (h', status, err) = set_storage hook key value h in
        (stored hook a k h' ≡ (
          if bytes_equal h.storage.address a && bytes_equal key k
          then value
          else stored hook a k h))
        × (status ≡ status_of (stored hook h.storage.address key h) value)
        × (err ≡ none)
        × (h'.storage ≡ h.storage)
  unfolding set_storage
  set_storage_lem key value h a k allowed =
      let addr = h.storage.address in
      let h1 = use_gas_for_key key h in
      let (h2, old) = load_old_value hook key h1 in
      let h3 = store_value key value h2 in
      ground (
        arith,
        allowed,
        bytes_equal_iff old value,
        bytes_equal_iff addr a,
        bytes_equal_iff key k,
        use_gas-Keeps hook a k (mul_uint64 (base_cost h2).data_copy_per_byte (length value)) h2,
        use_gas_for_key-Keeps hook a k key h,
        use_gas_for_key-Keeps hook addr key key h,
        load_old_value_lem hook key h1 a k,
        stored-store_value hook key value h2 a k,
        charge_write-Keeps hook a k old value h3,
        charge_write_status old value h3,
      )

  -- A refused write changes nothing at all.
  pub set_storage_refused :
      (key value : Bytes) (h : Host) (status : StorageStatus) (err : Option VmError)
      → refuse_write key h ≡ some (status, err)
      → set_storage hook key value h ≡ (h, status, err)
  unfolding set_storage
  set_storage_refused key value h status err refused = ground arith

  -- SetStorage changes no value at any address under a key that it protects: one with the node's
  -- prefix, one with the VM's prefix while the protection is on, and every key in read-only mode.
  pub set_storage_protects :
      (key value : Bytes) (h : Host) (a k : Bytes)
      → IsProtected k h
      → stored hook a k (set_storage hook key value h).0 ≡ stored hook a k h
  set_storage_protects key value h a k protected = elim (Option-cases (refuse_write key h)) [
    | inr (r, refused) ↦ ground (arith, set_storage_refused key value h r.0 r.1)
    | inl allowed ↦ ground (
      arith,
      bytes_equal_iff key k,
      allowed_write key h allowed,
      set_storage_lem key value h a k allowed,
    )
  ]

  with_protection_keeps :
      (on : Bool) (h : Host) (a k : Bytes)
      → stored hook a k (with_protection on h) ≡ stored hook a k h
  unfolding stored
  with_protection_keeps on h a k = refl

  -- SetProtectedStorage leaves the protection on, whatever the outcome, and the node's keys as they
  -- are; where the execution is not read-only and the key has not the node's prefix, the write goes
  -- through, also under the VM's own prefix.
  pub set_protected_storage_lem :
      (key value : Bytes) (h : Host) (a k : Bytes)
      → let (h', status, err) = set_protected_storage hook key value h in
        (h'.storage ≡ record h.storage { vm_storage_protection_enabled = true })
        × (stored hook a k h' ≡ (
            if h.runtime.read_only || has_prefix key h.storage.protected_key_prefix
            then stored hook a k h
            else (if bytes_equal h.storage.address a && bytes_equal key k
                then value
                else stored hook a k h)))
  unfolding set_protected_storage
  set_protected_storage_lem key value h a k =
      let open_host = with_protection false h in
      elim (Option-cases (refuse_write key open_host)) [
        | inr (r, refused) ↦ ground (
          arith,
          refused_unprotected key h r refused,
          set_storage_refused key value open_host r.0 r.1,
          with_protection_keeps true open_host a k,
          with_protection_keeps false h a k,
        )
        | inl allowed ↦ ground (
          arith,
          allowed_write key open_host allowed,
          set_storage_lem key value open_host a k allowed,
          with_protection_keeps true (set_storage hook key value open_host).0 a k,
          with_protection_keeps false h a k,
        )
      ]
