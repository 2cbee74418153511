-- ===== src/Prelude/Map.antt =====
-- A Go map as an association list. A new key goes to the end; an iteration visits the entries in
-- the order of the list.
use mathlib.Core.Path.{◌≡◌, refl}
use mathlib.Core.Logic.{◌≢◌}
use mathlib.Core.Bool.{Bool, true, false}
use mathlib.Core.Option.{Option, none, some}
use mathlib.Core.List.{List, [], ◌∷◌, ◌++◌}
use native.Mathlib.Omega.{arith}
use wasm_vm_v.Prelude.Tests.{if◌then◌else◌, Eq}

abbrev pub Map {ℓ κ} : Type ℓ → Type κ → Type (ℓ ⊔ κ)
Map K V = List (K × V)

module _ {ℓ κ} {K : Type ℓ} {V : Type κ} ⦃e : Eq K⦄ where
  abbrev pub lookup : K → Map K V → Option V
  lookup k [] = none
  lookup k ((j, v) ∷ m) = if e.beq j k then some v else lookup k m

  -- `m[k] = v`.
  abbrev pub insert : K → V → Map K V → Map K V
  insert k v [] = (k, v) ∷ []
  insert k v ((j, w) ∷ m) = if e.beq j k then (j, v) ∷ m else (j, w) ∷ insert k v m

  -- `delete(m, k)`.
  abbrev pub erase : K → Map K V → Map K V
  erase k [] = []
  erase k ((j, w) ∷ m) = if e.beq j k then m else (j, w) ∷ erase k m

  -- `m[k]` where a missing key reads as the zero value `d`.
  abbrev pub get_or : K → V → Map K V → V
  get_or k d m = elim (lookup k m) [ none ↦ d | some v ↦ v ]

  abbrev pub contains : K → Map K V → Bool
  contains k m = elim (lookup k m) [ none ↦ false | some v ↦ true ]

  -- No key is listed twice: what a Go map guarantees.
  abbrev pub Distinct : Map K V → Type κ
  Distinct [] = Unit
  Distinct ((j, w) ∷ m) = (lookup j m ≡ none) × Distinct m

pub beq_refl {ℓ} : {K : Type ℓ} ⦃e : Eq K⦄ (k : K) → e.beq k k ≡ true
beq_refl ⦃e⦄ k = (e.beq_iff k k).1 refl

module _ {ℓ κ} {K : Type ℓ} {V : Type κ} ⦃e : Eq K⦄ where
  pub lookup-insert :
      (k j : K) (v : V) (m : Map K V)
      → lookup j (insert k v m) ≡ (if e.beq k j then some v else lookup j m)
  lookup-insert k j v [] = refl
  lookup-insert k j v ((i, w) ∷ m) =
      ground (arith, e.beq_iff k j, e.beq_iff i k, e.beq_iff i j, lookup-insert k j v m)

  pub insert-Distinct : (k : K) (v : V) (m : Map K V) → Distinct m → Distinct (insert k v m)
  insert-Distinct k v [] h = (refl, tt)
  insert-Distinct k v ((j, w) ∷ m) h =
      ground (arith, e.beq_iff j k, e.beq_iff k j, lookup-insert k j v m, insert-Distinct k v m h.1)

  -- Writing a key that is absent appends it.
  pub insert_absent :
      (k : K) (v : V) (m : Map K V) → lookup k m ≡ none → insert k v m ≡ m ++ (k, v) ∷ []
  insert_absent k v [] h = refl
  insert_absent k v ((j, w) ∷ m) h = ground (arith, insert_absent k v m)

  -- The last of two writes to a key wins.
  pub insert-insert : (k : K) (v w : V) (m : Map K V) → insert k w (insert k v m) ≡ insert k w m
  insert-insert k v w [] = ground (arith, beq_refl k)
  insert-insert k v w ((j, u) ∷ m) = ground (arith, e.beq_iff j k, insert-insert k v w m)

  pub lookup-erase :
      (k j : K) (m : Map K V)
      → Distinct m
      → lookup j (erase k m) ≡ (if e.beq k j then none else lookup j m)
  lookup-erase k j [] h = ground arith
  lookup-erase k j ((i, w) ∷ m) h =
      ground (arith, e.beq_iff k j, e.beq_iff i k, e.beq_iff i j, lookup-erase k j m h.1)

module _ {ℓ κ} {K : Type ℓ} {V : Type κ} ⦃e : Eq K⦄ where
  -- No key of the second map is in the first.
  abbrev pub Fresh : Map K V → Map K V → Type κ
  Fresh left [] = Unit
  Fresh left ((k, v) ∷ m) = (lookup k left ≡ none) × Fresh left m

  pub lookup-append_absent :
      (j k : K) (v : V) (left : Map K V)
      → lookup j left ≡ none
      → k ≢ j
      → lookup j (left ++ (k, v) ∷ []) ≡ none
  lookup-append_absent j k v [] h ne = ground (arith, e.beq_iff k j)
  lookup-append_absent j k v ((i, w) ∷ left) h ne = ground (arith, lookup-append_absent j k v left)

  pub Fresh-append :
      (k : K) (v : V) (left m : Map K V)
      → Fresh left m
      → lookup k m ≡ none
      → Fresh (left ++ (k, v) ∷ []) m
  Fresh-append k v left [] f h = tt
  Fresh-append k v left ((j, w) ∷ m) f h = ground (
    arith,
    e.beq_iff j k,
    e.beq_iff k j,
    lookup-append_absent j k v left f.0,
    Fresh-append k v left m f.1,
  )
