-- ===== src/Tests/Charging.antt =====
-- The gas accounting and the storage charges on the host of the fixtures.
use wasm_vm_v.Prelude.{
  ◌+◌, ◌^◌, ◌≡◌, refl, none, [], ◌∷◌, bytes_eq, bytes_equal, has_prefix, arith, ◌%◌, inl, inr,
}
use wasm_vm_v.Prelude.Map.{get_or}
use wasm_vm_v.Overflow.{add_uint64}
use wasm_vm_v.Output.{get_refund}
use wasm_vm_v.Metering.State.{push_state, pop_merge_active_state}
use wasm_vm_v.Metering.Points.{gas_left, gas_spent_by_contract}
use wasm_vm_v.Metering.Account.{update_gas_state_on_success, all_present}
use wasm_vm_v.Metering.Conservation.{Finished, WithinGas, update_gas_state_on_success_lem}
use wasm_vm_v.Metering.Stack.{pop_merge_active_state_lem}
use wasm_vm_v.Storage.{
  storage_modified, set_storage, set_protected_storage, refuse_write, protected_storage_prefix,
}
use wasm_vm_v.Storage.{get_storage_from_address, may_read}
use wasm_vm_v.Storage.Reads.{get_storage_from_address_lem}
use wasm_vm_v.Storage.View.{stored}
use wasm_vm_v.Storage.Writes.{set_storage_lem, set_storage_protects, set_protected_storage_lem}
use wasm_vm_v.Storage.Charges.{Charged, set_storage_gas}
use wasm_vm_v.Tests.Fixtures.{host, hook, alice, contract, key, contract_account, metering}

host-Finished : Finished host contract_account
unfolding gas_spent_by_contract bytes_equal add_uint64
host-Finished = record { distinct = (refl, (refl, tt)); present = refl; within = omega arith }

host-WithinGas : WithinGas host
unfolding gas_left
host-WithinGas = record {
  provided = refl;
  bounded = omega arith;
  spent = omega arith;
  remaining = refl;
}

update_gas_state_on_success_example : (update_gas_state_on_success host).1 ≡ none
unfolding all_present bytes_equal
update_gas_state_on_success_example =
    update_gas_state_on_success_lem host contract_account host-Finished host-WithinGas refl

metering_merge_example :
    let r = pop_merge_active_state (push_state metering) in
    (r.state_stack ≡ [])
    × (r.initial_gas_provided ≡ 1000)
    × (r.initial_cost ≡ 100)
    × (r.gas_for_execution ≡ 900)
    × (get_or alice 0 r.gas_used_by_accounts ≡ (50 + 50) % 2 ^ 64)
unfolding push_state bytes_equal
metering_merge_example =
    pop_merge_active_state_lem metering (push_state metering) alice refl (refl, tt) (omega arith)

-- The cached value 7, 8 is replaced by a longer one.
set_storage_example :
    let (h', status, err) = set_storage hook key (1 ∷ 2 ∷ 3 ∷ []) host in
    (stored hook contract key h' ≡ 1 ∷ 2 ∷ 3 ∷ [])
    × (status ≡ storage_modified)
    × (err ≡ none)
    × (h'.storage ≡ host.storage)
unfolding refuse_write stored bytes_equal has_prefix
set_storage_example = set_storage_lem hook key (1 ∷ 2 ∷ 3 ∷ []) host contract key refl

-- Two bytes are kept and one is stored: 2 * 2 + 5.
set_storage_gas_example : Charged 9 0 host (set_storage hook key (1 ∷ 2 ∷ 3 ∷ []) host).0
unfolding refuse_write stored bytes_equal has_prefix get_refund
set_storage_gas_example =
    set_storage_gas hook key (1 ∷ 2 ∷ 3 ∷ []) host (omega arith) (omega arith) refl
      (omega arith, omega arith)

-- A key that begins with the VM's prefix.
set_storage_protects_example :
    stored hook contract protected_storage_prefix
      (set_storage hook protected_storage_prefix (1 ∷ []) host).0
    ≡ stored hook contract protected_storage_prefix host
unfolding has_prefix
set_storage_protects_example =
    set_storage_protects hook protected_storage_prefix (1 ∷ []) host contract
      protected_storage_prefix (inr (inl (refl, refl)))

set_protected_storage_example :
    let (h', status, err) = set_protected_storage hook protected_storage_prefix (1 ∷ []) host in
    (h'.storage ≡ host.storage) × (stored hook contract protected_storage_prefix h' ≡ 1 ∷ [])
unfolding has_prefix bytes_equal
set_protected_storage_example =
    set_protected_storage_lem hook protected_storage_prefix (1 ∷ []) host contract
      protected_storage_prefix

-- The account of Alice is not readable: its code metadata say so.
get_storage_from_address_example :
    let (h', value) = get_storage_from_address hook alice key host in
    (value ≡ []) × (stored hook contract key h' ≡ 7 ∷ 8 ∷ []) × (h'.storage ≡ host.storage)
unfolding stored bytes_equal may_read
get_storage_from_address_example = get_storage_from_address_lem hook alice key host contract key
