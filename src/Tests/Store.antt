-- ===== src/Tests/Store.antt =====
-- Storage operations of a contract on the host of the fixtures, whose memory is 1, 2, 3, 4.
use wasm_vm_v.Prelude.{◌≡◌, refl, [], ◌∷◌, Bytes, bytes_equal, has_prefix}
use wasm_vm_v.Prelude.Int.{pos, negsuc}
use wasm_vm_v.Overflow.{add_int32}
use wasm_vm_v.Storage.{
  refuse_write, set_storage, set_protected_storage, load_old_value, use_gas_for_key, charge_write,
  store_value,
}
use wasm_vm_v.Metering.Points.{use_gas}
use wasm_vm_v.VmHooks.BigIntBytes.{to_bytes}
use wasm_vm_v.Storage.View.{stored}
use wasm_vm_v.Runtime.Memory.{mem_load}
use wasm_vm_v.VmHooks.BaseOps.{
  storage_store, set_storage_lock, get_storage_lock, custom_storage_key,
}
use wasm_vm_v.VmHooks.StoredBytes.{storage_store_lem}
use wasm_vm_v.VmHooks.LockValues.{get_storage_lock-set_storage_lock}
use wasm_vm_v.VmHooks.SmallIntOps.{
  small_int_storage_store_unsigned, small_int_storage_load_unsigned,
}
use wasm_vm_v.VmHooks.StoredNumbers.{
  small_int_storage_load_unsigned-small_int_storage_store_unsigned,
}
use wasm_vm_v.Tests.Fixtures.{host, hook, contract}

abbrev new_key : Bytes
new_key = 3 ∷ 4 ∷ []

-- The value is new.
storage_store_example :
    let (h', result) = storage_store hook (pos 2) (pos 2) (pos 0) (pos 3) host in
    (h' ≡ (set_storage hook new_key (1 ∷ 2 ∷ 3 ∷ []) (use_gas 4 host)).0)
    × (stored hook contract new_key h' ≡ 1 ∷ 2 ∷ 3 ∷ [])
    × (result ≡ pos 2)
    × (h'.storage ≡ host.storage)
unfolding add_int32 mem_load refuse_write stored bytes_equal has_prefix
storage_store_example =
    storage_store_lem hook (pos 2) (pos 2) (pos 0) (pos 3) new_key (1 ∷ 2 ∷ 3 ∷ []) host contract
      new_key refl refl refl

-- The lock of a key is read back.
get_storage_lock_example :
    let (later, result) = set_storage_lock hook (pos 2) (pos 2) (pos 500) host in
    (get_storage_lock hook (pos 2) (pos 2) later).1 ≡ pos 500
unfolding add_int32 mem_load has_prefix custom_storage_key set_storage_lock set_protected_storage
    set_storage refuse_write use_gas bytes_equal load_old_value use_gas_for_key to_bytes
    charge_write store_value
get_storage_lock_example =
    get_storage_lock-set_storage_lock hook (pos 2) (pos 2) (pos 500) new_key host refl refl (pos 2)
      (pos 2) (set_storage_lock hook (pos 2) (pos 2) (pos 500) host).0 refl refl refl

small_int_storage_example :
    let (later, result) = small_int_storage_store_unsigned hook (pos 2) (pos 2) (negsuc 6) host in
    (small_int_storage_load_unsigned hook (pos 2) (pos 2) later).1 ≡ negsuc 6
unfolding add_int32 mem_load has_prefix small_int_storage_store_unsigned set_storage refuse_write
    use_gas bytes_equal load_old_value use_gas_for_key to_bytes charge_write store_value
small_int_storage_example =
    small_int_storage_load_unsigned-small_int_storage_store_unsigned hook (pos 2) (pos 2) (negsuc 6)
      new_key host refl refl refl (pos 2) (pos 2)
      (small_int_storage_store_unsigned hook (pos 2) (pos 2) (negsuc 6) host).0 refl refl refl
