-- ===== src/Runtime/Memory.antt =====
-- Reads and writes of the memory of a Wasmer instance: MemLoad, MemLoadMultiple and MemStore of
-- vmhost/contexts/runtime.go. Offsets and lengths are int32, a memory has fewer than 2 ^ 32 bytes.
use wasm_vm_v.Prelude.{
  ℕ, zero, suc, ◌-◌, ◌%◌, ◌^◌, ◌||◌, ◌⊎◌, inl, inr, Option, none, some, List, [], ◌∷◌, ◌++◌, Bytes,
  length, drop, ltb, if◌then◌else◌,
}
use wasm_vm_v.Prelude.Int.{ℤ, pos, pos_part, ltb_ℤ, ◌+ℤ◌}
use wasm_vm_v.Errors.{
  VmError, mem_load_bad_bounds, mem_load_negative_length, bad_lower_bounds, bad_upper_bounds,
}
use wasm_vm_v.Overflow.{add_int32, to_bits, from_bits, wrap}
use wasm_vm_v.Host.{Instance}
use wasm_vm_v.Engine.{Engine}

-- `xs[:n]`.
abbrev pub take : ℕ → Bytes → Bytes
take zero xs = []
take (suc n) [] = []
take (suc n) (x ∷ xs) = x ∷ take n xs

-- `make([]byte, n)`.
abbrev pub zeros : ℕ → Bytes
zeros zero = []
zeros (suc n) = 0 ∷ zeros n

-- What `copy(dst, src)` makes of the destination.
abbrev pub copy : Bytes → Bytes → Bytes
copy [] src = []
copy (d ∷ dst) [] = d ∷ dst
copy (d ∷ dst) (s ∷ src) = s ∷ copy dst src

-- `xs[from:to]`.
abbrev pub slice : ℕ → ℕ → Bytes → Bytes
slice from to xs = take (to - from) (drop from xs)

-- The bytes that a read finds, once the bounds were checked.
abbrev pub memory_slice : ℕ → ℕ → Bytes → Bytes
memory_slice start requested_end memory =
    if ltb (length memory) requested_end
    then drop start memory
    else slice start requested_end memory

unfoldable pub mem_load : ℤ → ℤ → Instance → VmError ⊎ Bytes
mem_load offset (pos zero) instance = inr []
mem_load offset size instance =
    let memory_length = length instance.memory in
    let requested_end = to_bits (2 ^ 32) (add_int32 offset size) in
    if ltb_ℤ offset (pos 0) || ltb memory_length (to_bits (2 ^ 32) offset)
    then inl mem_load_bad_bounds
    else (if ltb_ℤ size (pos 0)
        then inl mem_load_negative_length
        else inr (
            copy (zeros (pos_part size))
              (memory_slice (pos_part offset) requested_end instance.memory)))

-- The offset of the next read wraps around, as an int32 does.
unfoldable pub mem_load_multiple : ℤ → List ℤ → Instance → VmError ⊎ List Bytes
unfolding mem_load
mem_load_multiple offset [] instance = inr []
mem_load_multiple offset (size ∷ sizes) instance =
    let rest = mem_load_multiple (wrap (2 ^ 32) (offset +ℤ size)) sizes instance in
    elim (mem_load offset size instance) [
      | inl e ↦ inl e
      | inr loaded ↦ elim rest [ inl e ↦ inl e | inr more ↦ inr (loaded ∷ more) ]
    ]

-- `copy(memoryView[offset:requestedEnd], data)`.
abbrev pub overwrite : ℕ → ℕ → Bytes → Bytes → Bytes
overwrite start requested_end written memory =
    take start memory
    ++ (copy (slice start requested_end memory) written ++ drop requested_end memory)

module _ (engine : Engine) where
  -- The memory with one more page, if the write needs it.
  abbrev pub grown_memory : ℕ → Bytes → VmError ⊎ Bytes
  grown_memory requested_end memory =
      if ltb (length memory) requested_end then engine.grow memory 1 else inr memory

  unfoldable pub mem_store : ℤ → Bytes → Instance → Instance × Option VmError
  mem_store offset [] instance = (instance, none)
  mem_store offset written instance =
      let size = from_bits (2 ^ 32) (length written % 2 ^ 32) in
      let requested_end = to_bits (2 ^ 32) (add_int32 offset size) in
      if ltb_ℤ offset (pos 0)
      then (instance, some bad_lower_bounds)
      else elim (grown_memory requested_end instance.memory) [
        | inl e ↦ (instance, some e)
        | inr memory ↦
            if ltb (length memory) requested_end
            then (record instance { memory = memory }, some bad_upper_bounds)
            else (
              record instance { memory = overwrite (pos_part offset) requested_end written memory },
              none,
            )
      ]
