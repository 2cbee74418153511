-- ===== src/Storage/Reads.antt =====
-- GetStorage and GetStorageFromAddress against the abstract storage.
use wasm_vm_v.Prelude.{◌≡◌, [], Bytes, bytes_eq, arith, if◌then◌else◌, length}
use wasm_vm_v.Overflow.{mul_uint64}
use wasm_vm_v.Host.{Host, base_cost}
use wasm_vm_v.Hook.{BlockchainHook}
use wasm_vm_v.Storage.{
  get_storage_from_address_unmetered, get_storage_from_address, use_gas_for_key, may_read,
  is_protocol_protected_key,
}
use wasm_vm_v.Storage.View.{stored, get_storage_from_address_unmetered_lem}
use wasm_vm_v.Storage.Writes.{use_gas-Keeps, use_gas_for_key-Keeps}

may_read_same :
    (hook : BlockchainHook) (addr : Bytes) (h h' : Host)
    → h'.storage ≡ h.storage
    → may_read hook addr h' ≡ may_read hook addr h
unfolding may_read
may_read_same hook addr h h' same = ground (arith, same)

is_protocol_protected_key_same :
    (key : Bytes) (h h' : Host)
    → h'.storage ≡ h.storage
    → is_protocol_protected_key key h' ≡ is_protocol_protected_key key h
unfolding is_protocol_protected_key
is_protocol_protected_key_same key h h' same = ground (arith, same)

-- Reading from an address gives the value that the key has there for the execution, or what the node
-- answers if the key is the node's own; an address that the contract may not read gives nothing. No
-- value of any key changes.
pub get_storage_from_address_lem :
    (hook : BlockchainHook) (addr key : Bytes) (h : Host) (a k : Bytes)
    → let (h', value) = get_storage_from_address hook addr key h in
      (value ≡ (
        if may_read hook addr h
        then (if is_protocol_protected_key key h
            then hook.get_storage_data addr key
            else stored hook addr key h)
        else []))
      × (stored hook a k h' ≡ stored hook a k h)
      × (h'.storage ≡ h.storage)
unfolding get_storage_from_address
get_storage_from_address_lem hook addr key h a k =
    let h1 = use_gas_for_key key h in
    let (h2, value) = get_storage_from_address_unmetered hook addr key h1 in
    let on_a = use_gas_for_key-Keeps hook a k key h in
    let on_addr = use_gas_for_key-Keeps hook addr key key h in
    let answer = hook.get_storage_data addr key in
    ground (
      arith,
      on_a,
      on_addr,
      may_read_same hook addr h h1 on_a.context,
      is_protocol_protected_key_same key h h1 on_a.context,
      get_storage_from_address_unmetered_lem hook addr key h1 a k,
      use_gas-Keeps hook a k (mul_uint64 (base_cost h1).data_copy_per_byte (length answer)) h1,
      use_gas-Keeps hook a k (mul_uint64 (base_cost h2).data_copy_per_byte (length value)) h2,
    )
