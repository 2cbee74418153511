-- ===== src/Prelude/Lists.antt =====
-- Lists measured by native numbers, and byte strings.
use Prim.Native.Nat.{ℕ, zero, suc, ◌+◌}
use mathlib.Core.Path.{◌≡◌, refl}
use mathlib.Core.Logic.{◌↔◌}
use mathlib.Core.Bool.{Bool, true, false, ◌&&◌}
use mathlib.Core.List.{List, [], ◌∷◌, ◌++◌}
use native.Mathlib.Omega.{arith}
use wasm_vm_v.Prelude.Tests.{◌==◌, Eq}

module _ {ℓ} {A : Type ℓ} where
  abbrev pub length : List A → ℕ
  length [] = 0
  length (x ∷ xs) = suc (length xs)

  -- Go's `xs[n:]`.
  abbrev pub drop : ℕ → List A → List A
  drop zero xs = xs
  drop (suc n) [] = []
  drop (suc n) (x ∷ xs) = drop n xs

  abbrev pub is_empty : List A → Bool
  is_empty [] = true
  is_empty (x ∷ xs) = false

  pub length-append : (xs ys : List A) → length (xs ++ ys) ≡ length xs + length ys
  length-append [] ys = omega arith
  length-append (x ∷ xs) ys = omega (arith, length-append xs ys)

  pub drop-length-append : (xs ys : List A) → drop (length xs) (xs ++ ys) ≡ ys
  drop-length-append [] ys = refl
  drop-length-append (x ∷ xs) ys = drop-length-append xs ys

-- A `[]byte`, or a Go string that is used as a map key. A nil slice is the empty one.
abbrev pub Bytes : Type 0
Bytes = List ℕ

-- `bytes.Equal`.
unfoldable pub bytes_equal : Bytes → Bytes → Bool
bytes_equal [] [] = true
bytes_equal [] (y ∷ ys) = false
bytes_equal (x ∷ xs) [] = false
bytes_equal (x ∷ xs) (y ∷ ys) = (x == y) && bytes_equal xs ys

pub bytes_equal_iff : (xs ys : Bytes) → (bytes_equal xs ys ≡ true) ↔ (xs ≡ ys)
unfolding bytes_equal
bytes_equal_iff [] [] = ground arith
bytes_equal_iff [] (y ∷ ys) = ground arith
bytes_equal_iff (x ∷ xs) [] = ground arith
bytes_equal_iff (x ∷ xs) (y ∷ ys) = ground (arith, bytes_equal_iff xs ys)

instance abbrev pub bytes_eq : Eq Bytes
bytes_eq = record { beq = bytes_equal; beq_iff = bytes_equal_iff }

-- `bytes.HasPrefix xs p`.
unfoldable pub has_prefix : Bytes → Bytes → Bool
has_prefix xs [] = true
has_prefix [] (y ∷ ys) = false
has_prefix (x ∷ xs) (y ∷ ys) = (x == y) && has_prefix xs ys
