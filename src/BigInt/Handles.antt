-- ===== src/BigInt/Handles.antt =====
-- Handles of big integers: Put finds an unused one, reading a handle changes no value, and a pop
-- after a push gives the values back.

use wasm_vm_v.Prelude.{
  nat_eq, ℕ, zero, suc, ◌+◌, ◌%◌, ◌^◌, ◌≤◌, ◌<◌, ◌≡◌, ◌≢◌, refl, ap, none, some, [], ◌∷◌, length,
  arith, Option-cases, inl, inr, if◌then◌else◌, ◌==◌,
}
use wasm_vm_v.Prelude.Map.{
  Map, lookup, insert, erase, get_or, Distinct, lookup-insert, lookup-erase, insert-Distinct,
}
use wasm_vm_v.Prelude.Int.{ℤ, pos}
use wasm_vm_v.Host.{BigIntContext}
use wasm_vm_v.BigInt.{
  clone, push_state, pop_set_active_state, free_handle, put, get_one, get_two, get_three,
}

-- The value of a handle: one that was never written reads as 0.
unfoldable pub value_of : ℕ → BigIntContext → ℤ
value_of handle c = get_or handle (pos 0) c.values

length-erase :
    (k : ℕ) (v : ℤ) (m : Map ℕ ℤ) → lookup k m ≡ some v → length m ≡ suc (length (erase k m))
length-erase k v [] h = ground arith
length-erase k v ((j, w) ∷ m) h = ground (arith, length-erase k v m)

erase-Distinct : (k : ℕ) (m : Map ℕ ℤ) → Distinct m → Distinct (erase k m)
erase-Distinct k [] h = tt
erase-Distinct k ((j, w) ∷ m) h = ground (arith, lookup-erase k j m h.1, erase-Distinct k m h.1)

-- The search does not see the key of a handle that it has passed.
free_handle-erase :
    (fuel d k : ℕ) (m : Map ℕ ℤ)
    → Distinct m
    → k < 2 ^ 32
    → 1 ≤ d
    → d + fuel ≤ 2 ^ 32
    → free_handle fuel ((k + d) % 2 ^ 32) (erase k m) ≡ free_handle fuel ((k + d) % 2 ^ 32) m
unfolding free_handle
free_handle-erase zero d k m distinct lk ld lf = refl
free_handle-erase (suc fuel) d k m distinct lk ld lf =
    let next : ((k + d) % 2 ^ 32 + 1) % 2 ^ 32 ≡ (k + suc d) % 2 ^ 32 = omega arith in
    ground (
      arith,
      next,
      lookup-erase k ((k + d) % 2 ^ 32) m distinct,
      free_handle-erase fuel (suc d) k m distinct lk (omega arith) (omega arith),
    )

free_handle-lookup :
    (fuel k j : ℕ) (m : Map ℕ ℤ) → free_handle fuel k m ≡ some j → lookup j m ≡ none
unfolding free_handle
free_handle-lookup zero k j m h = ground arith
free_handle-lookup (suc fuel) k j m h =
    ground (arith, free_handle-lookup fuel ((k + 1) % 2 ^ 32) j m)

-- With more fuel than handles in use the search ends.
free_handle_total :
    (fuel k : ℕ) (m : Map ℕ ℤ)
    → Distinct m
    → length m < fuel
    → fuel ≤ 2 ^ 32
    → k < 2 ^ 32
    → free_handle fuel k m ≢ none
unfolding free_handle
free_handle_total zero k m distinct enough lf lk = omega arith
free_handle_total (suc fuel) k m distinct enough lf lk = elim (Option-cases (lookup k m)) [
  | inl free ↦ ground (arith, free)
  | inr (v, used) ↦ ground (
    arith,
    used,
    length-erase k v m used,
    free_handle-erase fuel 1 k m distinct lk (omega arith) (omega arith),
    free_handle_total fuel ((k + 1) % 2 ^ 32) (erase k m) (erase-Distinct k m distinct)
        (ground (arith, length-erase k v m used)) (omega arith) (omega arith),
  )
]

pub value_of-put_entry :
    (handle j : ℕ) (v : ℤ) (c : BigIntContext)
    → value_of j (record c { values = insert handle v c.values })
      ≡ (if handle == j then v else value_of j c)
unfolding value_of
value_of-put_entry handle j v c = ground (arith, lookup-insert handle j v c.values)

-- While fewer than 2 ^ 32 handles are in use Put ends: it returns a handle that was not in use and
-- holds the value afterwards, and every other handle has the value, or none, that it had.
pub put_lem :
    (v : ℤ) (c : BigIntContext) (j : ℕ)
    → Distinct c.values
    → length c.values < 2 ^ 32
    → (c' : BigIntContext) × (handle : ℕ) × (put v c ≡ some (c', handle))
      × (lookup handle c.values ≡ none)
      × (lookup j c'.values ≡ (if handle == j then some v else lookup j c.values))
      × Distinct c'.values
unfolding put
put_lem v c j distinct few =
    let fuel = suc (length c.values) in
    let start = length c.values % 2 ^ 32 in
    elim (Option-cases (free_handle fuel start c.values)) [
      | inl stuck ↦ ground (
        arith,
        stuck,
        free_handle_total fuel start c.values distinct (omega arith) (omega arith) (omega arith),
      )
      | inr (handle, free) ↦
          let c' = record c { values = insert handle v c.values } in
          (
            c',
            handle,
            ground (arith, free),
            free_handle-lookup fuel start handle c.values free,
            lookup-insert handle j v c.values,
            insert-Distinct handle v c.values distinct,
          )
    ]

-- Reading a handle gives its value and changes no value.
pub get_one_lem :
    (handle j : ℕ) (c : BigIntContext)
    → let (c', v) = get_one handle c in (v ≡ value_of handle c) × (value_of j c' ≡ value_of j c)
unfolding get_one value_of
get_one_lem handle j c = ground (arith, lookup-insert handle j (pos 0) c.values)

pub get_two_lem :
    (handle1 handle2 j : ℕ) (c : BigIntContext)
    → let (c', v1, v2) = get_two handle1 handle2 c in
      (v1 ≡ value_of handle1 c) × (v2 ≡ value_of handle2 c) × (value_of j c' ≡ value_of j c)
unfolding get_two
get_two_lem handle1 handle2 j c =
    let c1 = (get_one handle1 c).0 in
    ground (arith, get_one_lem handle1 j c, get_one_lem handle1 handle2 c, get_one_lem handle2 j c1)

pub get_three_lem :
    (handle1 handle2 handle3 j : ℕ) (c : BigIntContext)
    → let (c', v1, v2, v3) = get_three handle1 handle2 handle3 c in
      (v1 ≡ value_of handle1 c)
      × (v2 ≡ value_of handle2 c)
      × (v3 ≡ value_of handle3 c)
      × (value_of j c' ≡ value_of j c)
unfolding get_three
get_three_lem handle1 handle2 handle3 j c =
    let c1 = (get_one handle1 c).0 in
    let c2 = (get_one handle2 c1).0 in
    ground (
      arith,
      get_one_lem handle1 j c,
      get_one_lem handle1 handle2 c,
      get_one_lem handle1 handle3 c,
      get_one_lem handle2 j c1,
      get_one_lem handle2 handle3 c1,
      get_one_lem handle3 j c2,
    )

pub clone_same : (values : Map ℕ ℤ) → clone values ≡ values
unfolding clone
clone_same [] = refl
clone_same ((handle, v) ∷ values) = ap (λ rest. (handle, v) ∷ rest) (clone_same values)

-- The values that were pushed are the active ones after the pop, whatever was written meanwhile.
pub pop_set_active_state-written :
    (values : Map ℕ ℤ) (c : BigIntContext)
    → pop_set_active_state (record (push_state c) { values = values }) ≡ c
unfolding pop_set_active_state push_state
pop_set_active_state-written values c =
    ap (λ saved. record c { values = saved }) (clone_same c.values)
