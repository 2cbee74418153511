-- ===== src/Storage.antt =====
-- The storage context of vmhost/contexts/storage.go. The values read and written in an execution are
-- cached in the storage updates of the output accounts; a value that is not there is asked of the
-- node. Byte strings are shorter than 2 ^ 63, as Go's are.
pub mod View
pub mod Writes
pub mod Charges
pub mod Reads
use wasm_vm_v.Prelude.{
  ℕ, ◌+◌, ◌-◌, ◌^◌, Bool, true, false, ◌&&◌, not, Option, none, some, List, [], ◌∷◌, Bytes,
  bytes_eq, bytes_equal, has_prefix, is_empty, length, ltb, if◌then◌else◌,
}
use wasm_vm_v.Prelude.Map.{lookup, insert}
use wasm_vm_v.Prelude.Int.{ℤ, pos, negsuc, ltb_ℤ, ◌-ℤ◌}
use wasm_vm_v.Errors.{VmError, store_reserved_key, cannot_write_protected_key}
use wasm_vm_v.Overflow.{add_uint64, mul_uint64, sub_int, to_bits}
use wasm_vm_v.Output.{get_output_account, set_account}
use wasm_vm_v.Output.Types.{StorageUpdate, OutputAccount}
use wasm_vm_v.Host.{Host, StorageContext, base_cost}
use wasm_vm_v.Hook.{BlockchainHook, found, missing, failed}
use wasm_vm_v.Metering.Points.{use_gas, free_gas}

pub data StorageStatus : Type 0 where
  storage_unchanged storage_modified storage_added storage_deleted : StorageStatus

abbrev pub address_len : ℕ
address_len = 32

-- "ARWEN@".
abbrev pub protected_storage_prefix : Bytes
protected_storage_prefix = b'A' ∷ b'R' ∷ b'W' ∷ b'E' ∷ b'N' ∷ b'@' ∷ []

unfoldable pub push_state : StorageContext → StorageContext
push_state s = record s { state_stack = s.address ∷ s.state_stack }

pop_set_active : List Bytes → StorageContext → StorageContext
pop_set_active [] s = s
pop_set_active (prev ∷ rest) s = record s { state_stack = rest; address = prev }

unfoldable pub pop_set_active_state : StorageContext → StorageContext
unfolding pop_set_active
pop_set_active_state s = pop_set_active s.state_stack s

pop_top : List Bytes → StorageContext → StorageContext
pop_top [] s = s
pop_top (prev ∷ rest) s = record s { state_stack = rest }

unfoldable pub pop_discard : StorageContext → StorageContext
unfolding pop_top
pop_discard s = pop_top s.state_stack s

unfoldable pub clear_state_stack : StorageContext → StorageContext
clear_state_stack s = record s { state_stack = [] }

unfoldable pub set_address : Bytes → StorageContext → StorageContext
set_address addr s = record s { address = addr }

unfoldable pub is_vm_protected_key : Bytes → Bool
unfolding has_prefix
is_vm_protected_key key = has_prefix key protected_storage_prefix

unfoldable pub is_protocol_protected_key : Bytes → Host → Bool
unfolding has_prefix
is_protocol_protected_key key h = has_prefix key h.storage.protected_key_prefix

-- `UseGas(MulUint64(cost, n))`.
abbrev pub use_gas_per_byte : ℕ → ℕ → Host → Host
use_gas_per_byte cost n h = use_gas (mul_uint64 cost n) h

-- The charge for a key that is longer than an address.
unfoldable pub use_gas_for_key : Bytes → Host → Host
use_gas_for_key key h =
    if ltb address_len (length key)
    then use_gas_per_byte (base_cost h).data_copy_per_byte (length key - address_len) h
    else h

abbrev pub storage_update : Bytes → Bytes → StorageUpdate
storage_update key value = record { offset = key; content = value }

-- `storageUpdates[key] = update`, where the updates are those of the account of `addr`.
abbrev pub put_update : Bytes → Bytes → Bytes → OutputAccount → Host → Host
put_update addr key value account h = record h {
  output =
      set_account addr
        (record account {
          storage_updates = insert key (storage_update key value) account.storage_updates;
        })
        h.output;
}

-- The guards of SetStorage: the result of an early return.
unfoldable pub refuse_write : Bytes → Host → Option (StorageStatus × Option VmError)
unfolding is_protocol_protected_key is_vm_protected_key
refuse_write key h =
    if h.runtime.read_only
    then some (storage_unchanged, none)
    else (if is_protocol_protected_key key h
        then some (storage_unchanged, some store_reserved_key)
        else (if is_vm_protected_key key && h.storage.vm_storage_protection_enabled
            then some (storage_unchanged, some cannot_write_protected_key)
            else none))

-- The write itself.
unfoldable pub store_value : Bytes → Bytes → Host → Host
unfolding get_output_account
store_value key value h =
    let (output, account, _) = get_output_account h.storage.address h.output in
    put_update h.storage.address key value account (record h { output = output })

-- The gas for a value that replaces another, where it is longer by `extra`.
unfoldable pub charge_longer : Bytes → ℤ → Host → Host
charge_longer old extra h =
    if ltb_ℤ (pos 0) extra
    then use_gas
        (add_uint64 (mul_uint64 (base_cost h).persist_per_byte (length old))
          (mul_uint64 (base_cost h).store_per_byte (to_bits (2 ^ 64) extra)))
        h
    else h

-- The gas and the refund where it is shorter.
unfoldable pub charge_shorter : Bytes → ℤ → Host → Host
unfolding ◌-ℤ◌
charge_shorter value extra h =
    if ltb_ℤ extra (pos 0)
    then free_gas (mul_uint64 (base_cost h).release_per_byte (to_bits (2 ^ 64) (pos 0 -ℤ extra)))
        (use_gas_per_byte (base_cost h).persist_per_byte (length value) h)
    else h

unfoldable pub charge_modified : Bytes → Bytes → Host → Host
charge_modified old value h =
    let extra = sub_int (pos (length value)) (pos (length old)) in
    charge_shorter value extra (charge_longer old extra h)

-- What follows a write that changed the value: the status and the charge.
unfoldable pub charge_write : Bytes → Bytes → Host → Host × StorageStatus
charge_write old value h =
    if is_empty old
    then (use_gas_per_byte (base_cost h).store_per_byte (length value) h, storage_added)
    else (if is_empty value
        then (free_gas (mul_uint64 (base_cost h).release_per_byte (length old)) h, storage_deleted)
        else (charge_modified old value h, storage_modified))

abbrev pub with_protection : Bool → Host → Host
with_protection on h = record h {
  storage = record h.storage { vm_storage_protection_enabled = on };
}

module _ (hook : BlockchainHook) where
  unfoldable pub get_storage_from_address_unmetered : Bytes → Bytes → Host → Host × Bytes
  unfolding get_output_account
  get_storage_from_address_unmetered addr key h =
      let (output, account, _) = get_output_account addr h.output in
      let h' = record h { output = output } in
      elim (lookup key account.storage_updates) [
        | some update ↦ (h', update.content)
        | none ↦
            let value = hook.get_storage_data addr key in
            (put_update addr key value account h', value)
      ]

  unfoldable pub get_storage_unmetered : Bytes → Host → Host × Bytes
  unfolding get_storage_from_address_unmetered
  get_storage_unmetered key h = get_storage_from_address_unmetered h.storage.address key h

  unfoldable pub get_storage : Bytes → Host → Host × Bytes
  unfolding use_gas_for_key get_storage_unmetered
  get_storage key h =
      let (h', value) = get_storage_unmetered key (use_gas_for_key key h) in
      (use_gas_per_byte (base_cost h').data_copy_per_byte (length value) h', value)

  -- Whether the contract may read the storage of the address: its own, or that of an account whose
  -- code is readable.
  unfoldable pub may_read : Bytes → Host → Bool
  may_read addr h =
      if bytes_equal addr h.storage.address then true else elim (hook.get_user_account addr) [
        | found account ↦ hook.is_readable account.code_metadata
        | missing ↦ false
        | failed err ↦ false
      ]

  unfoldable pub get_storage_from_address : Bytes → Bytes → Host → Host × Bytes
  unfolding use_gas_for_key may_read is_protocol_protected_key get_storage_from_address_unmetered
  get_storage_from_address addr key h =
      let h' = use_gas_for_key key h in
      if may_read addr h'
      then (let (h'', value) =
            if is_protocol_protected_key key h'
            then (h', hook.get_storage_data addr key)
            else get_storage_from_address_unmetered addr key h' in
          (use_gas_per_byte (base_cost h'').data_copy_per_byte (length value) h'', value))
      else (h', [])

  -- The old value, which is in the updates afterwards.
  unfoldable pub load_old_value : Bytes → Host → Host × Bytes
  unfolding get_output_account get_storage_unmetered
  load_old_value key h =
      let (output, account, _) = get_output_account h.storage.address h.output in
      let h' = record h { output = output } in
      elim (lookup key account.storage_updates) [
        | some update ↦ (h', update.content)
        | none ↦
            let (h'', old) = get_storage_unmetered key h' in
            let (output', account', _) = get_output_account h''.storage.address h''.output in
            (put_update h''.storage.address key old account' (record h'' { output = output' }), old)
      ]

  unfoldable pub set_storage : Bytes → Bytes → Host → Host × StorageStatus × Option VmError
  set_storage key value h = elim (refuse_write key h) [
    | some (status, err) ↦ (h, status, err)
    | none ↦
        let (h', old) = load_old_value key (use_gas_for_key key h) in
        if bytes_equal old value
        then (
          use_gas_per_byte (base_cost h').data_copy_per_byte (length value) h',
          storage_unchanged,
          none,
        )
        else (let (h'', status) = charge_write old value (store_value key value h') in
            (h'', status, none))
  ]

  unfoldable pub set_protected_storage :
      Bytes → Bytes → Host → Host × StorageStatus × Option VmError
  unfolding set_storage
  set_protected_storage key value h =
      let (h', status, err) = set_storage key value (with_protection false h) in
      (with_protection true h', status, err)
