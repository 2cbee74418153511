-- ===== src/VmHooks/StoredBytes.antt =====
-- What storageStore of vmhost/vmhooks/baseOps.go does to the storage.
use wasm_vm_v.Prelude.{
  ◌≡◌, ◌∙◌, refl, ℕ, zero, suc, ◌&&◌, Option, none, inr, Bytes, bytes_equal, arith, if◌then◌else◌,
}
use wasm_vm_v.Prelude.Int.{ℤ, pos, negsuc}
use wasm_vm_v.Errors.{VmError}
use wasm_vm_v.Host.{Host}
use wasm_vm_v.Hook.{BlockchainHook}
use wasm_vm_v.Metering.Points.{use_gas}
use wasm_vm_v.Runtime.Memory.{mem_load}
use wasm_vm_v.Storage.{refuse_write, set_storage}
use wasm_vm_v.Storage.View.{stored}
use wasm_vm_v.Storage.Writes.{set_storage_lem, status_of, use_gas-Keeps}
use wasm_vm_v.VmHooks.BaseOps.{
  storage_store, status_number, ops_cost, with_loaded, finish_with, minus_one,
}

-- A charge changes nothing that a read or a guard looks at.
pub mem_load-use_gas :
    (offset size : ℤ) (gas : ℕ) (h : Host)
    → mem_load offset size (use_gas gas h).runtime.instance
      ≡ mem_load offset size h.runtime.instance
unfolding mem_load use_gas
mem_load-use_gas offset (pos zero) gas h = refl
mem_load-use_gas offset (pos (suc n)) gas h = refl
mem_load-use_gas offset (negsuc n) gas h = refl

pub refuse_write-use_gas :
    (key : Bytes) (gas : ℕ) (h : Host) → refuse_write key (use_gas gas h) ≡ refuse_write key h
unfolding refuse_write use_gas
refuse_write-use_gas key gas h = refl

pub with_loaded-read :
    (fault offset size : ℤ) (rest : Bytes → Host → Host × ℤ) (h : Host) (bytes : Bytes)
    → mem_load offset size h.runtime.instance ≡ inr bytes
    → with_loaded fault offset size rest h ≡ rest bytes h
with_loaded-read fault offset size rest h bytes read = ground (arith, read)

finish_with-none :
    (err : Option VmError) (fault result : ℤ) (h : Host)
    → err ≡ none
    → finish_with err fault result h ≡ (h, result)
finish_with-none err fault result h ok = ground (arith, ok)

module _ (hook : BlockchainHook) where
  storage_store-writes :
      (key_offset key_length data_offset data_length : ℤ) (key value : Bytes) (h : Host)
      → mem_load key_offset key_length h.runtime.instance ≡ inr key
      → mem_load data_offset data_length h.runtime.instance ≡ inr value
      → refuse_write key h ≡ none
      → let (h', status, err) = set_storage hook key value (use_gas (ops_cost h).storage_store h) in
        storage_store hook key_offset key_length data_offset data_length h
        ≡ (h', status_number status)
  unfolding storage_store
  storage_store-writes key_offset key_length data_offset data_length key value h key_read value_read
        allowed =
      let gas = (ops_cost h).storage_store in
      let h1 = use_gas gas h in
      let write : Bytes → Bytes → Host → Host × ℤ = λ key value h.
        (let (h', status, err) = set_storage hook key value h in
          finish_with err minus_one (status_number status) h') in
      let (now, status, ok, storage) =
        set_storage_lem hook key value h1 key key (refuse_write-use_gas key gas h ∙ allowed) in
      with_loaded-read minus_one key_offset key_length
        (λ key. with_loaded minus_one data_offset data_length (write key)) h1 key
        (mem_load-use_gas key_offset key_length gas h ∙ key_read)
      ∙ with_loaded-read minus_one data_offset data_length (write key) h1 value
          (mem_load-use_gas data_offset data_length gas h ∙ value_read)
      ∙ finish_with-none _ minus_one _ _ ok

  -- storageStore takes its cost and writes the bytes that the memory holds: where both reads
  -- succeed and no guard refuses the write, it leaves the state that SetStorage leaves once the cost
  -- of storageStore is used. The key of the current address has the value afterwards, every other key
  -- of every address keeps its own, and the result tells by the old and the new value whether the key
  -- was unchanged, modified, added or deleted.
  pub storage_store_lem :
      (key_offset key_length data_offset data_length : ℤ) (key value : Bytes) (h : Host)
      (a k : Bytes)
      → mem_load key_offset key_length h.runtime.instance ≡ inr key
      → mem_load data_offset data_length h.runtime.instance ≡ inr value
      → refuse_write key h ≡ none
      → let (h', result) = storage_store hook key_offset key_length data_offset data_length h in
        (h' ≡ (set_storage hook key value (use_gas (ops_cost h).storage_store h)).0)
        × (stored hook a k h' ≡ (
            if bytes_equal h.storage.address a && bytes_equal key k
            then value
            else stored hook a k h))
        × (result ≡ status_number (status_of (stored hook h.storage.address key h) value))
        × (h'.storage ≡ h.storage)
  storage_store_lem key_offset key_length data_offset data_length key value h a k key_read
        value_read allowed =
      let gas = (ops_cost h).storage_store in
      let h1 = use_gas gas h in
      ground (
        arith,
        storage_store-writes key_offset key_length data_offset data_length key value h key_read
            value_read allowed,
        set_storage_lem hook key value h1 a k (refuse_write-use_gas key gas h ∙ allowed),
        use_gas-Keeps hook a k gas h,
        use_gas-Keeps hook h.storage.address key gas h,
      )
