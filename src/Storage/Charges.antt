-- ===== src/Storage/Charges.antt =====
-- The gas and the refund of a storage write, in plain arithmetic.
use wasm_vm_v.Prelude.{
  ℕ, zero, suc, ◌+◌, ◌-◌, ◌*◌, ◌^◌, ◌≤◌, ◌<◌, ◌≡◌, ◌⊎◌, inl, inr, refl, false, none, Bytes,
  bytes_equal, is_empty, arith, if◌then◌else◌, [], ◌∷◌, length, ltb,
}
use wasm_vm_v.Prelude.Int.{pos, negsuc, sub_ℕ, ◌-ℤ◌}
use wasm_vm_v.Overflow.{max_int64, max_uint64, sub_int}
use wasm_vm_v.Overflow.Unsigned.{mul_uint64_exact, add_uint64_exact}
use wasm_vm_v.Output.{OutputContext, get_refund, set_refund}
use wasm_vm_v.Host.{Host, BaseOperationCost, base_cost}
use wasm_vm_v.Hook.{BlockchainHook}
use wasm_vm_v.Metering.Points.{use_gas, free_gas}
use wasm_vm_v.Metering.Gas.{use_gas_lem}
use wasm_vm_v.Storage.{
  use_gas_per_byte, use_gas_for_key, load_old_value, store_value, charge_write, charge_modified,
  charge_longer, charge_shorter, refuse_write, set_storage, address_len,
}
use wasm_vm_v.Storage.Writes.{use_gas_for_key-Keeps}
use wasm_vm_v.Storage.View.{stored, load_old_value_lem, stored-store_value}

-- The gas for the part of a key that is longer than an address.
abbrev pub key_gas : BaseOperationCost → Bytes → ℕ
key_gas cost key = cost.data_copy_per_byte * (length key - address_len)

-- The gas for writing `value` over `old`.
abbrev pub write_gas : BaseOperationCost → Bytes → Bytes → ℕ
write_gas cost old value =
    if bytes_equal old value
    then cost.data_copy_per_byte * length value
    else (if is_empty old
        then cost.store_per_byte * length value
        else (if is_empty value
            then 0
            else (if ltb (length old) (length value)
                then cost.persist_per_byte * length old
                  + cost.store_per_byte * (length value - length old)
                else (if ltb (length value) (length old)
                    then cost.persist_per_byte * length value
                    else 0))))

-- The refund for the bytes that are released.
abbrev pub write_refund : BaseOperationCost → Bytes → Bytes → ℕ
write_refund cost old value =
    if bytes_equal old value then 0 else cost.release_per_byte * (length old - length value)

-- The points and the refund of the second host are those of the first and the two charges.
pub record Charged (gas refund : ℕ) (h h' : Host) : Type 0 where
  pub points : h'.runtime.points_used ≡ h.runtime.points_used + gas
  pub refunds : get_refund h'.output ≡ get_refund h.output + refund
  pub costs : h'.metering ≡ h.metering

-- Enough room below the caps for the two charges.
abbrev pub HasRoom : ℕ → ℕ → Host → Type 0
HasRoom gas refund h =
    (h.runtime.points_used + gas ≤ max_int64) × (get_refund h.output + refund ≤ max_uint64)

use_gas-Charged : (gas : ℕ) (h : Host) → HasRoom gas 0 h → Charged gas 0 h (use_gas gas h)
use_gas-Charged gas h room = ground (arith, use_gas_lem gas h)

use_gas_per_byte-Charged :
    (cost n : ℕ) (h : Host)
    → HasRoom (cost * n) 0 h
    → Charged (cost * n) 0 h (use_gas_per_byte cost n h)
use_gas_per_byte-Charged cost n h room =
    rw (mul_uint64_exact cost n (omega arith)) (use_gas-Charged (cost * n) h room)

get_refund-set_refund :
    (r : ℕ) (c : OutputContext) → r ≤ max_uint64 → get_refund (set_refund r c) ≡ r
unfolding get_refund set_refund
get_refund-set_refund r c h = ground arith

free_gas-Charged :
    (refund : ℕ) (h : Host) → HasRoom 0 refund h → Charged 0 refund h (free_gas refund h)
unfolding free_gas
free_gas-Charged refund h room = ground (
  arith,
  add_uint64_exact (get_refund h.output) refund,
  get_refund-set_refund (get_refund h.output + refund) h.output,
)

use_gas_for_key-Charged :
    (key : Bytes) (h : Host)
    → HasRoom (key_gas (base_cost h) key) 0 h
    → Charged (key_gas (base_cost h) key) 0 h (use_gas_for_key key h)
unfolding use_gas_for_key
use_gas_for_key-Charged key h room = ground (
  arith,
  use_gas_per_byte-Charged (base_cost h).data_copy_per_byte (length key - address_len) h room,
)

-- The difference of two lengths.
sub_int_lengths : (n m : ℕ) → n < 2 ^ 63 → m < 2 ^ 63 → sub_int (pos n) (pos m) ≡ sub_ℕ n m
unfolding sub_int ◌-ℤ◌
sub_int_lengths n m hn hm = ground arith

compare_lengths : (n m : ℕ) → ((k : ℕ) × (m ≡ n + suc k)) ⊎ ((k : ℕ) × (n ≡ m + suc k)) ⊎ (n ≡ m)
compare_lengths zero zero = inr (inr refl)
compare_lengths zero (suc m) = inl (m, omega arith)
compare_lengths (suc n) zero = inr (inl (n, omega arith))
compare_lengths (suc n) (suc m) = elim (compare_lengths n m) [
  | inl (k, e) ↦ inl (k, omega arith)
  | inr (inl (k, e)) ↦ inr (inl (k, omega arith))
  | inr (inr e) ↦ inr (inr (omega arith))
]

charge_longer-Charged :
    (old : Bytes) (n : ℕ) (h : Host)
    → suc n < 2 ^ 63
    → HasRoom
        ((base_cost h).persist_per_byte * length old + (base_cost h).store_per_byte * suc n)
        0
        h
    → Charged
        ((base_cost h).persist_per_byte * length old + (base_cost h).store_per_byte * suc n)
        0
        h
        (charge_longer old (pos (suc n)) h)
unfolding charge_longer
charge_longer-Charged old n h small room =
    let kept = (base_cost h).persist_per_byte * length old in
    let added = (base_cost h).store_per_byte * suc n in
    ground (
      arith,
      mul_uint64_exact (base_cost h).persist_per_byte (length old),
      mul_uint64_exact (base_cost h).store_per_byte (suc n),
      add_uint64_exact kept added,
      use_gas-Charged (kept + added) h room,
    )

charge_shorter-Charged :
    (value : Bytes) (n : ℕ) (h : Host)
    → suc n < 2 ^ 63
    → HasRoom
        ((base_cost h).persist_per_byte * length value)
        ((base_cost h).release_per_byte * suc n)
        h
    → Charged
        ((base_cost h).persist_per_byte * length value)
        ((base_cost h).release_per_byte * suc n)
        h
        (charge_shorter value (negsuc n) h)
unfolding charge_shorter ◌-ℤ◌
charge_shorter-Charged value n h small room =
    let h' = use_gas_per_byte (base_cost h).persist_per_byte (length value) h in
    ground (
      arith,
      mul_uint64_exact (base_cost h).release_per_byte (suc n),
      use_gas_per_byte-Charged (base_cost h).persist_per_byte (length value) h,
      free_gas-Charged ((base_cost h).release_per_byte * suc n) h',
    )

charge_shorter_pos : (value : Bytes) (n : ℕ) (h : Host) → charge_shorter value (pos n) h ≡ h
unfolding charge_shorter
charge_shorter_pos value n h = ground arith

charge_longer_negsuc : (old : Bytes) (n : ℕ) (h : Host) → charge_longer old (negsuc n) h ≡ h
unfolding charge_longer
charge_longer_negsuc old n h = ground arith

charge_longer_zero : (old : Bytes) (h : Host) → charge_longer old (pos 0) h ≡ h
unfolding charge_longer
charge_longer_zero old h = ground arith

module _ (old value : Bytes) (h : Host) (lo : length old < 2 ^ 63)
    (lv : length value < 2 ^ 63) where
  charge_modified_longer :
      (k : ℕ)
      → length value ≡ length old + suc k
      → charge_modified old value h ≡ charge_longer old (pos (suc k)) h
  unfolding charge_modified
  charge_modified_longer k e =
      let d : sub_int (pos (length value)) (pos (length old)) ≡ pos (suc k) =
        ground (arith, sub_int_lengths (length value) (length old)) in
      rw d (charge_shorter_pos value (suc k) _)

  charge_modified_shorter :
      (k : ℕ)
      → length old ≡ length value + suc k
      → charge_modified old value h ≡ charge_shorter value (negsuc k) h
  unfolding charge_modified
  charge_modified_shorter k e =
      let d : sub_int (pos (length value)) (pos (length old)) ≡ negsuc k =
        ground (arith, sub_int_lengths (length value) (length old)) in
      rw (d, charge_longer_negsuc old k h) refl

  charge_modified_same : length old ≡ length value → charge_modified old value h ≡ h
  unfolding charge_modified
  charge_modified_same e =
      let d : sub_int (pos (length value)) (pos (length old)) ≡ pos 0 =
        ground (arith, sub_int_lengths (length value) (length old)) in
      rw (d, charge_longer_zero old h) (charge_shorter_pos value 0 h)

  charge_modified-Charged :
      bytes_equal old value ≡ false
      → is_empty old ≡ false
      → is_empty value ≡ false
      → HasRoom (write_gas (base_cost h) old value) (write_refund (base_cost h) old value) h
      → Charged
          (write_gas (base_cost h) old value)
          (write_refund (base_cost h) old value)
          h
          (charge_modified old value h)
  charge_modified-Charged ne eo ev room = elim (compare_lengths (length old) (length value)) [
    | inl (k, longer) ↦
        let e : length value - length old ≡ suc k = omega arith in
        rw (charge_modified_longer k longer)
          (ground (arith, ne, eo, ev, charge_longer-Charged old k h))
    | inr (inl (k, shorter)) ↦
        let e : length old - length value ≡ suc k = omega arith in
        rw (charge_modified_shorter k shorter)
          (ground (arith, ne, eo, ev, charge_shorter-Charged value k h))
    | inr (inr same) ↦ rw (charge_modified_same same) (ground (arith, ne, eo, ev))
  ]

-- What follows a write that changed the value costs what the specification says.
charge_write-Charged :
    (old value : Bytes) (h : Host)
    → length old < 2 ^ 63
    → length value < 2 ^ 63
    → bytes_equal old value ≡ false
    → HasRoom (write_gas (base_cost h) old value) (write_refund (base_cost h) old value) h
    → Charged
        (write_gas (base_cost h) old value)
        (write_refund (base_cost h) old value)
        h
        (charge_write old value h).0
unfolding charge_write
charge_write-Charged [] value h lo lv ne room =
    ground (arith, ne, use_gas_per_byte-Charged (base_cost h).store_per_byte (length value) h)
charge_write-Charged (x ∷ old) [] h lo lv ne room = ground (
  arith,
  ne,
  mul_uint64_exact (base_cost h).release_per_byte (length (x ∷ old)),
  free_gas-Charged ((base_cost h).release_per_byte * length (x ∷ old)) h,
)
charge_write-Charged (x ∷ old) (y ∷ value) h lo lv ne room =
    charge_modified-Charged (x ∷ old) (y ∷ value) h lo lv ne refl refl room

-- What an accepted SetStorage costs, and what it releases.
abbrev pub set_storage_charge : BlockchainHook → Bytes → Bytes → Host → ℕ
set_storage_charge hook key value h =
    key_gas (base_cost h) key + write_gas (base_cost h) (stored hook h.storage.address key h) value

abbrev pub set_storage_refund : BlockchainHook → Bytes → Bytes → Host → ℕ
set_storage_refund hook key value h =
    write_refund (base_cost h) (stored hook h.storage.address key h) value

-- A write that no guard refuses, with room below the caps and lengths below 2 ^ 63, takes gas for
-- the bytes of the key beyond an address and gas for the value: copying where the value is
-- unchanged, storing where there was none, keeping the old bytes and storing the rest where it is
-- longer, keeping the new bytes where it is shorter, and nothing where it is deleted or of the same
-- length. The refund grows by the bytes that are released. No other charge is made.
pub set_storage_gas :
    (hook : BlockchainHook) (key value : Bytes) (h : Host)
    → length (stored hook h.storage.address key h) < 2 ^ 63
    → length value < 2 ^ 63
    → refuse_write key h ≡ none
    → HasRoom (set_storage_charge hook key value h) (set_storage_refund hook key value h) h
    → Charged
        (set_storage_charge hook key value h)
        (set_storage_refund hook key value h)
        h
        (set_storage hook key value h).0
unfolding set_storage get_refund
set_storage_gas hook key value h lo lv allowed room =
    let addr = h.storage.address in
    let h1 = use_gas_for_key key h in
    let (h2, old) = load_old_value hook key h1 in
    let h3 = store_value key value h2 in
    ground (
      arith,
      allowed,
      use_gas_for_key-Charged key h,
      use_gas_for_key-Keeps hook addr key key h,
      load_old_value_lem hook key h1 addr key,
      stored-store_value hook key value h2 addr key,
      use_gas_per_byte-Charged (base_cost h).data_copy_per_byte (length value) h2,
      charge_write-Charged old value h3,
    )
