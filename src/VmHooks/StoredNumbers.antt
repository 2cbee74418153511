-- ===== src/VmHooks/StoredNumbers.antt =====
-- The round trip of smallIntStorageStoreUnsigned and smallIntStorageLoadUnsigned of
-- vmhost/vmhooks/smallIntOps.go.
use wasm_vm_v.Prelude.{◌^◌, ◌≡◌, ◌∙◌, ap, true, none, inr, Bytes, bytes_equal_iff, arith}
use wasm_vm_v.Prelude.Int.{ℤ, pos, negsuc}
use wasm_vm_v.Overflow.{from_bits, to_bits}
use wasm_vm_v.Errors.{storage_value_out_of_range}
use wasm_vm_v.Host.{Host}
use wasm_vm_v.Hook.{BlockchainHook}
use wasm_vm_v.Metering.Points.{use_gas}
use wasm_vm_v.Runtime.Memory.{mem_load}
use wasm_vm_v.Storage.{get_storage, set_storage, refuse_write}
use wasm_vm_v.Storage.View.{stored}
use wasm_vm_v.Storage.Writes.{set_storage_lem, use_gas-Keeps}
use wasm_vm_v.VmHooks.BigIntOps.{fits_int64}
use wasm_vm_v.VmHooks.BigIntBytes.Laws.{from_bytes-to_bytes}
use wasm_vm_v.VmHooks.BaseOps.{ops_cost, finish_with, minus_one, status_number}
use wasm_vm_v.VmHooks.SmallIntOps.{
  small_int_storage_store_unsigned, small_int_storage_load_unsigned, store_number, load_number,
  unsigned_result, unsigned_bytes,
}
use wasm_vm_v.VmHooks.StoredBytes.{with_loaded-read, mem_load-use_gas, refuse_write-use_gas}
use wasm_vm_v.VmHooks.LockValues.{stored-finish_with, get_storage_lem}

-- An int64 is the one that its 64 bits stand for.
from_bits-to_bits :
    (value : ℤ) → fits_int64 value ≡ true → from_bits (2 ^ 64) (to_bits (2 ^ 64) value) ≡ value
from_bits-to_bits (pos n) fits = ground arith
from_bits-to_bits (negsuc n) fits = ground arith

unsigned_result-unsigned_bytes :
    (value : ℤ) (h : Host)
    → fits_int64 value ≡ true
    → (unsigned_result storage_value_out_of_range (unsigned_bytes value) h).1 ≡ value
unsigned_result-unsigned_bytes value h fits =
    ground (arith, from_bytes-to_bytes (pos (to_bits (2 ^ 64) value)), from_bits-to_bits value fits)

module _ (hook : BlockchainHook) where
  stored-set_storage :
      (key bytes : Bytes) (h : Host)
      → refuse_write key h ≡ none
      → stored hook h.storage.address key (set_storage hook key bytes h).0 ≡ bytes
  stored-set_storage key bytes h allowed = ground (
    arith,
    set_storage_lem hook key bytes h h.storage.address key allowed,
    bytes_equal_iff h.storage.address h.storage.address,
    bytes_equal_iff key key,
  )

  stored-store_number :
      (offset size : ℤ) (bytes key : Bytes) (h : Host)
      → mem_load offset size h.runtime.instance ≡ inr key
      → refuse_write key h ≡ none
      → stored hook h.storage.address key (store_number hook offset size bytes h).0 ≡ bytes
  unfolding use_gas
  stored-store_number offset size bytes key h read allowed =
      let addr = h.storage.address in
      let gas = (ops_cost h).int64_storage_store in
      let c = use_gas gas h in
      let write : Bytes → Host → Host × ℤ = λ key h1.
        (let (h2, status, err) = set_storage hook key bytes h1 in
          finish_with err minus_one (status_number status) h2) in
      ap (λ (r : Host × ℤ). stored hook addr key r.0)
        (with_loaded-read minus_one offset size write c key
          (mem_load-use_gas offset size gas h ∙ read))
      ∙ stored-finish_with hook (set_storage hook key bytes c).2 minus_one _ _ addr key
      ∙ stored-set_storage key bytes c (refuse_write-use_gas key gas h ∙ allowed)

  load_number_value :
      (offset size : ℤ) (key : Bytes) (h : Host) (result : Bytes → Host → Host × ℤ)
      → mem_load offset size h.runtime.instance ≡ inr key
      → let (h', bytes) = get_storage hook key (use_gas (ops_cost h).int64_storage_load h) in
        load_number hook result offset size h ≡ result bytes h'
  load_number_value offset size key h result read =
      with_loaded-read (pos 0) offset size
        (λ key h1. let (h2, bytes) = get_storage hook key h1 in result bytes h2)
        (use_gas (ops_cost h).int64_storage_load h) key (mem_load-use_gas offset size _ h ∙ read)

  -- After smallIntStorageStoreUnsigned of an int64 under a key that may be written,
  -- smallIntStorageLoadUnsigned of the same key returns the same int64, a negative one as well, in
  -- any later state of the same address in which the bytes under the key are as they were.
  pub small_int_storage_load_unsigned-small_int_storage_store_unsigned :
      (offset size value : ℤ) (key : Bytes) (h : Host)
      → fits_int64 value ≡ true
      → mem_load offset size h.runtime.instance ≡ inr key
      → refuse_write key h ≡ none
      → (offset' size' : ℤ) (later : Host) → mem_load offset' size' later.runtime.instance ≡ inr key
      → later.storage.address ≡ h.storage.address
      → stored hook h.storage.address key later
        ≡ stored hook h.storage.address key
            (small_int_storage_store_unsigned hook offset size value h).0
      → (small_int_storage_load_unsigned hook offset' size' later).1 ≡ value
  unfolding small_int_storage_store_unsigned small_int_storage_load_unsigned use_gas
  small_int_storage_load_unsigned-small_int_storage_store_unsigned offset size value key h fits read
        allowed offset' size' later reads same kept =
      let result = unsigned_result storage_value_out_of_range in
      let c = use_gas (ops_cost later).int64_storage_load later in
      let loaded : (get_storage hook key c).1 ≡ unsigned_bytes value =
        get_storage_lem hook key c
        ∙ (use_gas-Keeps hook later.storage.address key (ops_cost later).int64_storage_load
            later).value
        ∙ ap (λ addr. stored hook addr key later) same
        ∙ kept
        ∙ stored-store_number offset size (unsigned_bytes value) key h read allowed in
      ap (λ (r : Host × ℤ). r.1) (load_number_value offset' size' key later result reads)
      ∙ ap (λ bytes. (result bytes (get_storage hook key c).0).1) loaded
      ∙ unsigned_result-unsigned_bytes value (get_storage hook key c).0 fits
