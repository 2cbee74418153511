-- ===== src/Runtime/Bounds.antt =====
-- What reads and writes of an instance's memory find and change: a read within the memory gives its
-- bytes, one that leaves it is filled up with zeros, and a write is read back.
use wasm_vm_v.Prelude.{
  ℕ, zero, suc, ◌+◌, ◌-◌, ◌^◌, ◌≤◌, ◌<◌, min, ◌≡◌, refl, ap, ◌∙◌, ◌⊎◌, inl, inr, none, [], ◌∷◌,
  ◌++◌, Bytes, length, drop, arith, ltb, if◌then◌else◌, length-append, Sum-cases,
}
use wasm_vm_v.Prelude.Int.{pos, ◌+ℤ◌}
use wasm_vm_v.Errors.{mem_load_bad_bounds}
use wasm_vm_v.Overflow.Signed.{add_int32_lem}
use wasm_vm_v.Overflow.{add_int32, to_bits}
use wasm_vm_v.Host.{Instance}
use wasm_vm_v.Engine.{Engine}
use wasm_vm_v.Runtime.Memory.{
  take, zeros, copy, slice, mem_load, mem_store, overwrite, grown_memory,
}

-- The first bytes of a row that goes on with zeros for ever.
pub padded : ℕ → Bytes → Bytes
padded zero xs = []
padded (suc n) [] = 0 ∷ padded n []
padded (suc n) (x ∷ xs) = x ∷ padded n xs

length-drop : (n : ℕ) (xs : Bytes) → length (drop n xs) ≡ length xs - n
length-drop zero xs = omega arith
length-drop (suc n) [] = omega arith
length-drop (suc n) (x ∷ xs) = omega (arith, length-drop n xs)

zeros-padded : (n : ℕ) → zeros n ≡ padded n []
unfolding padded
zeros-padded zero = refl
zeros-padded (suc n) = ap (λ ys. 0 ∷ ys) (zeros-padded n)

copy-take :
    (n k : ℕ) (xs : Bytes) → (n ≤ k) ⊎ (length xs ≤ k) → copy (zeros n) (take k xs) ≡ padded n xs
unfolding padded
copy-take zero k xs h = refl
copy-take (suc n) zero [] h = ap (λ ys. 0 ∷ ys) (zeros-padded n)
copy-take (suc n) zero (x ∷ xs) h = ground arith
copy-take (suc n) (suc k) [] h = ap (λ ys. 0 ∷ ys) (zeros-padded n)
copy-take (suc n) (suc k) (x ∷ xs) h = ap (λ ys. x ∷ ys) (copy-take n k xs (omega arith))

copy-padded : (n : ℕ) (xs : Bytes) → copy (zeros n) xs ≡ padded n xs
unfolding padded
copy-padded zero xs = refl
copy-padded (suc n) [] = ap (λ ys. 0 ∷ ys) (zeros-padded n)
copy-padded (suc n) (x ∷ xs) = ap (λ ys. x ∷ ys) (copy-padded n xs)

-- The end of an access, cut off at the largest int32.
requested_end :
    (a b : ℕ)
    → a < 2 ^ 31
    → b < 2 ^ 31
    → to_bits (2 ^ 32) (add_int32 (pos a) (pos b)) ≡ min (a + b) (2 ^ 31 - 1)
unfolding ◌+ℤ◌
requested_end a b la lb = ground (arith, add_int32_lem (pos a) (pos b))

-- A read of some bytes at an offset that is no more than the length of the memory gives the bytes of
-- the memory from there on, filled up with zeros, and one further on is refused. (The memory and the
-- two int32 are smaller than 2 ^ 31.)
pub mem_load_lem :
    (offset size : ℕ) (i : Instance)
    → 0 < size
    → size < 2 ^ 31
    → offset < 2 ^ 31
    → length i.memory < 2 ^ 31
    → mem_load (pos offset) (pos size) i ≡ (
        if ltb (length i.memory) offset
        then inl mem_load_bad_bounds
        else inr (padded size (drop offset i.memory)))
unfolding mem_load
mem_load_lem offset zero i some_bytes small fits memory_fits = ground arith
mem_load_lem offset (suc n) i some_bytes small fits memory_fits =
    let rest = drop offset i.memory in
    let end = to_bits (2 ^ 32) (add_int32 (pos offset) (pos (suc n))) in
    ground (
      arith,
      requested_end offset (suc n) fits small,
      length-drop offset i.memory,
      copy-padded (suc n) rest,
      copy-take (suc n) (end - offset) rest,
    )

padded-append : (xs more : Bytes) → padded (length xs) (xs ++ more) ≡ xs
unfolding padded
padded-append [] more = refl
padded-append (x ∷ xs) more = ap (λ ys. x ∷ ys) (padded-append xs more)

length-take : (n : ℕ) (xs : Bytes) → n ≤ length xs → length (take n xs) ≡ n
length-take zero xs h = omega arith
length-take (suc n) [] h = omega arith
length-take (suc n) (x ∷ xs) h = omega (arith, length-take n xs)

copy_whole : (dst src : Bytes) → length dst ≡ length src → copy dst src ≡ src
copy_whole [] [] h = refl
copy_whole [] (s ∷ src) h = ground arith
copy_whole (d ∷ dst) [] h = ground arith
copy_whole (d ∷ dst) (s ∷ src) h = ap (λ ys. s ∷ ys) (copy_whole dst src (omega arith))

drop-take : (n : ℕ) (xs more : Bytes) → n ≤ length xs → drop n (take n xs ++ more) ≡ more
drop-take zero xs more h = refl
drop-take (suc n) [] more h = ground arith
drop-take (suc n) (x ∷ xs) more h = drop-take n xs more (omega arith)

-- The bytes that were written stand at their offset.
drop-overwrite :
    (offset : ℕ) (written memory : Bytes)
    → offset + length written ≤ length memory
    → drop offset (overwrite offset (offset + length written) written memory)
      ≡ written ++ drop (offset + length written) memory
drop-overwrite offset written memory h =
    let end = offset + length written in
    let same_length : length (slice offset end memory) ≡ length written = omega (
      arith,
      length-take (end - offset) (drop offset memory) (omega (arith, length-drop offset memory)),
    ) in
    drop-take offset memory (copy (slice offset end memory) written ++ drop end memory)
      (omega arith)
    ∙ ap (λ ys. ys ++ drop end memory) (copy_whole (slice offset end memory) written same_length)

length-overwrite :
    (offset : ℕ) (written memory : Bytes)
    → offset + length written ≤ length memory
    → offset ≤ length (overwrite offset (offset + length written) written memory)
length-overwrite offset written memory h = omega (
  arith,
  length-append (take offset memory) (
      copy (slice offset (offset + length written) memory) written
      ++ drop (offset + length written) memory),
  length-take offset memory (omega arith),
)

-- What a write that succeeds has written is read back from the same offset. (The access ends below
-- 2 ^ 31, and so does the memory after it.)
pub mem_load-mem_store :
    (engine : Engine) (offset : ℕ) (first : ℕ) (more : Bytes) (i : Instance)
    → offset + length (first ∷ more) < 2 ^ 31
    → (mem_store engine (pos offset) (first ∷ more) i).1 ≡ none
    → length (mem_store engine (pos offset) (first ∷ more) i).0.memory < 2 ^ 31
    → mem_load
        (pos offset)
        (pos (length (first ∷ more)))
        (mem_store engine (pos offset) (first ∷ more) i).0
      ≡ inr (first ∷ more)
unfolding mem_store
mem_load-mem_store engine offset first more i fits stored memory_fits =
    let written = first ∷ more in
    let i' = (mem_store engine (pos offset) written i).0 in
    let grown = grown_memory engine (offset + length written) i.memory in
    let loaded =
      mem_load_lem offset (length written) i' (omega arith) (omega arith) (omega arith)
        memory_fits in
    elim (Sum-cases grown) [
      | inl (e, bad) ↦
          ground
            (arith, bad, stored, requested_end offset (length written) (omega arith) (omega arith))
      | inr (memory, good) ↦ ground (
        arith,
        good,
        stored,
        loaded,
        requested_end offset (length written) (omega arith) (omega arith),
        drop-overwrite offset written memory,
        length-overwrite offset written memory,
        padded-append written (drop (offset + length written) memory),
      )
    ]
