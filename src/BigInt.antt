-- ===== src/BigInt.antt =====
-- The big integer context of vmhost/contexts/bigint.go. A handle is the bit pattern of an int32, so
-- the next handle is one more modulo 2 ^ 32. No two handles share a `*big.Int`: each is made by this
-- context, and the operations write through it in place.
pub mod Handles
use wasm_vm_v.Prelude.{
  nat_eq, ℕ, zero, suc, ◌+◌, ◌%◌, ◌^◌, Bool, true, false, Option, none, some, List, [], ◌∷◌, length,
}
use wasm_vm_v.Prelude.Map.{Map, lookup, insert, contains}
use wasm_vm_v.Prelude.Int.{ℤ, pos}
use wasm_vm_v.Host.{BigIntContext}

unfoldable pub new_big_int_context : BigIntContext
new_big_int_context = record { values = []; state_stack = [] }

unfoldable pub init_state : BigIntContext → BigIntContext
init_state c = record c { values = [] }

-- A copy of each big integer: in values, the map itself.
unfoldable pub clone : Map ℕ ℤ → Map ℕ ℤ
clone [] = []
clone ((handle, value) ∷ values) = (handle, value) ∷ clone values

unfoldable pub push_state : BigIntContext → BigIntContext
unfolding clone
push_state c = record c { state_stack = clone c.values ∷ c.state_stack }

pop_set_active : List (Map ℕ ℤ) → BigIntContext → BigIntContext
pop_set_active [] c = c
pop_set_active (prev ∷ rest) c = record c { values = prev; state_stack = rest }

unfoldable pub pop_set_active_state : BigIntContext → BigIntContext
unfolding pop_set_active
pop_set_active_state c = pop_set_active c.state_stack c

pop_top : List (Map ℕ ℤ) → BigIntContext → BigIntContext
pop_top [] c = c
pop_top (prev ∷ rest) c = record c { state_stack = rest }

unfoldable pub pop_discard : BigIntContext → BigIntContext
unfolding pop_top
pop_discard c = pop_top c.state_stack c

unfoldable pub clear_state_stack : BigIntContext → BigIntContext
clear_state_stack c = record c { state_stack = [] }

-- The loop of Put, on fuel.
unfoldable pub free_handle : ℕ → ℕ → Map ℕ ℤ → Option ℕ
free_handle zero handle values = none
free_handle (suc fuel) handle values = elim (lookup handle values) [
  | none ↦ some handle
  | some v ↦ free_handle fuel ((handle + 1) % 2 ^ 32) values
]

-- The fuel is one more than the number of handles in use.
unfoldable pub put : ℤ → BigIntContext → Option (BigIntContext × ℕ)
unfolding free_handle
put value c = elim (free_handle (suc (length c.values)) (length c.values % 2 ^ 32) c.values) [
  | none ↦ none
  | some handle ↦ some (record c { values = insert handle value c.values }, handle)
]

unfoldable pub get_one : ℕ → BigIntContext → BigIntContext × ℤ
get_one handle c = elim (lookup handle c.values) [
  | none ↦ (record c { values = insert handle (pos 0) c.values }, pos 0)
  | some v ↦ (c, v)
]

unfoldable pub get_two : ℕ → ℕ → BigIntContext → BigIntContext × ℤ × ℤ
unfolding get_one
get_two handle1 handle2 c =
    let (c1, v1) = get_one handle1 c in let (c2, v2) = get_one handle2 c1 in (c2, v1, v2)

unfoldable pub get_three : ℕ → ℕ → ℕ → BigIntContext → BigIntContext × ℤ × ℤ × ℤ
unfolding get_one
get_three handle1 handle2 handle3 c =
    let (c1, v1) = get_one handle1 c in
    let (c2, v2) = get_one handle2 c1 in let (c3, v3) = get_one handle3 c2 in (c3, v1, v2, v3)
