-- ===== src/Async/Stacks/Stored.antt =====
-- SetStorage and SetProtectedStorage of vmhost/contexts/storage.go and the stacks of the contexts.
use wasm_vm_v.Prelude.{
  ℕ, ◌≡◌, refl, none, Bytes, arith, bytes_equal, Option-cases, true, false, Bool-cases, inl, inr,
  Bool, if◌then◌else◌, length,
}
use wasm_vm_v.Prelude.Int.{ℤ}
use wasm_vm_v.Overflow.{mul_uint64}
use wasm_vm_v.Output.{get_output_account, set_refund}
use wasm_vm_v.Host.{Host, base_cost}
use wasm_vm_v.Hook.{BlockchainHook}
use wasm_vm_v.Metering.Points.{free_gas}
use wasm_vm_v.Storage.{
  use_gas_for_key, charge_longer, charge_shorter, charge_modified, charge_write, store_value,
  get_storage_from_address_unmetered, get_storage_unmetered, load_old_value, set_storage,
  set_protected_storage, with_protection, refuse_write,
}
use wasm_vm_v.Execution.Frame.{
  Balanced, Balanced-refl, Balanced-trans, use_gas-Balanced, get_output_account_stack,
}

Balanced-if :
    (b : Bool) {h x y : Host} → Balanced h x → Balanced h y → Balanced h (if b then x else y)
Balanced-if true p q = p
Balanced-if false p q = q

free_gas-Balanced : (gas : ℕ) (h : Host) → Balanced h (free_gas gas h)
unfolding free_gas set_refund
free_gas-Balanced gas h = record {
  kept = record { frame = refl; protected = λ p. p };
  instances = refl;
}

use_gas_for_key-Balanced : (key : Bytes) (h : Host) → Balanced h (use_gas_for_key key h)
unfolding use_gas_for_key
use_gas_for_key-Balanced key h = Balanced-if _ (use_gas-Balanced _ h) (Balanced-refl h)

charge_longer-Balanced :
    (old : Bytes) (extra : ℤ) (h : Host) → Balanced h (charge_longer old extra h)
unfolding charge_longer
charge_longer-Balanced old extra h = Balanced-if _ (use_gas-Balanced _ h) (Balanced-refl h)

charge_shorter-Balanced :
    (value : Bytes) (extra : ℤ) (h : Host) → Balanced h (charge_shorter value extra h)
unfolding charge_shorter
charge_shorter-Balanced value extra h =
    Balanced-if _ (Balanced-trans (use_gas-Balanced _ h) (free_gas-Balanced _ _)) (Balanced-refl h)

charge_modified-Balanced : (old value : Bytes) (h : Host) → Balanced h (charge_modified old value h)
unfolding charge_modified
charge_modified-Balanced old value h =
    Balanced-trans (charge_longer-Balanced old _ h) (charge_shorter-Balanced value _ _)

charge_write-Balanced : (old value : Bytes) (h : Host) → Balanced h (charge_write old value h).0
unfolding charge_write
charge_write-Balanced old value h = ground (
  arith,
  use_gas-Balanced (mul_uint64 (base_cost h).store_per_byte (length value)) h,
  free_gas-Balanced (mul_uint64 (base_cost h).release_per_byte (length old)) h,
  charge_modified-Balanced old value h,
)

store_value-Balanced : (key value : Bytes) (h : Host) → Balanced h (store_value key value h)
unfolding store_value
store_value-Balanced key value h = ground (arith, get_output_account_stack h.storage.address h)

module _ (hook : BlockchainHook) where
  get_storage_from_address_unmetered-Balanced :
      (addr key : Bytes) (h : Host)
      → Balanced h (get_storage_from_address_unmetered hook addr key h).0
  unfolding get_storage_from_address_unmetered
  get_storage_from_address_unmetered-Balanced addr key h =
      ground (arith, get_output_account_stack addr h)

  load_old_value-Balanced : (key : Bytes) (h : Host) → Balanced h (load_old_value hook key h).0
  unfolding load_old_value get_storage_unmetered
  load_old_value-Balanced key h =
      let addr = h.storage.address in
      let h1 = record h { output = (get_output_account addr h.output).0 } in
      let h2 = (get_storage_from_address_unmetered hook addr key h1).0 in
      ground (
        arith,
        get_output_account_stack addr h,
        get_storage_from_address_unmetered-Balanced addr key h1,
        get_output_account_stack h2.storage.address h2,
      )

  written-Balanced :
      (key value : Bytes) (h : Host)
      → refuse_write key h ≡ none
      → Balanced h (set_storage hook key value h).0
  unfolding set_storage
  written-Balanced key value h allowed =
      let h1 = use_gas_for_key key h in
      let (h2, old) = load_old_value hook key h1 in
      let b = Balanced-trans (use_gas_for_key-Balanced key h) (load_old_value-Balanced key h1) in
      let h3 = store_value key value h2 in
      let c =
        Balanced-trans b (
          Balanced-trans (store_value-Balanced key value h2)
            (charge_write-Balanced old value h3)) in
      let copy = mul_uint64 (base_cost h2).data_copy_per_byte (length value) in
      elim (Bool-cases (bytes_equal old value)) [
        | inl same ↦ ground (arith, allowed, same, Balanced-trans b (use_gas-Balanced copy h2))
        | inr other ↦ ground (arith, allowed, other, c)
      ]

  set_storage-Balanced :
      (key value : Bytes) (h : Host) → Balanced h (set_storage hook key value h).0
  unfolding set_storage
  set_storage-Balanced key value h = elim (Option-cases (refuse_write key h)) [
    | inl allowed ↦ written-Balanced key value h allowed
    | inr (r, refused) ↦ ground (arith, refused, Balanced-refl h)
  ]

  pub set_protected_storage-Balanced :
      (key value : Bytes) (h : Host) → Balanced h (set_protected_storage hook key value h).0
  unfolding set_protected_storage
  set_protected_storage-Balanced key value h =
      let b = set_storage-Balanced key value (with_protection false h) in
      record {
        kept = record { frame = b.kept.frame; protected = λ on. refl };
        instances = b.instances;
      }
