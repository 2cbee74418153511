-- ===== src/Output/Laws.antt =====
-- What merging outputs does: a merge into an empty output is a copy, and the account of an address
-- depends on the two accounts of that address alone.
use mathlib.Core.List.{append-nil, append_assoc}
use wasm_vm_v.Prelude.{
  ◌≡◌, ◌≢◌, refl, ◌∙◌, inl, inr, sym, subst, subst₂, Bool-cases, bytes_equal, Option, none, some,
  [], ◌∷◌, ◌++◌, Bytes, bytes_eq, arith, bytes_equal_iff,
}
use wasm_vm_v.Prelude.Map.{
  Map, lookup, insert, Distinct, Fresh, Fresh-append, insert_absent, lookup-insert, insert-Distinct,
}
use wasm_vm_v.Output.Types.{StorageUpdate, OutputAccount, VmOutput, zero_account, new_vm_output}
use wasm_vm_v.Output.Merge.{
  merge_storage_updates, merge_output_accounts, merge_account_maps, merge_vm_outputs,
  or_zero_account,
}

-- An account of the current output: no pointer in it is nil that the code reads without a test.
pub record AccountIsValid (key : Bytes) (a : OutputAccount) : Type 0 where
  pub keyed : a.address ≡ key
  pub has_delta : a.balance_delta ≢ none
  pub distinct : Distinct a.storage_updates

abbrev pub AccountsAreValid : Map Bytes OutputAccount → Type 0
AccountsAreValid [] = Unit
AccountsAreValid ((k, a) ∷ m) = AccountIsValid k a × AccountsAreValid m

-- What holds of the current output and of every output on the stack.
pub record OutputIsValid (o : VmOutput) : Type 0 where
  pub accounts : AccountsAreValid o.output_accounts
  pub distinct : Distinct o.output_accounts
  pub has_refund : o.gas_refund ≢ none

merge_storage_updates-Fresh :
    (left m : Map Bytes StorageUpdate)
    → Fresh left m
    → Distinct m
    → merge_storage_updates left m ≡ left ++ m
unfolding merge_storage_updates
merge_storage_updates-Fresh left [] f d = rw append-nil
merge_storage_updates-Fresh left ((k, u) ∷ m) f d = rw (insert_absent k u left f.0) (
    merge_storage_updates-Fresh (left ++ (k, u) ∷ []) m (Fresh-append k u left m f.1 d.0) d.1
    ∙ append_assoc left ((k, u) ∷ []) m)

pub merge_storage_updates_empty :
    (m : Map Bytes StorageUpdate) → Distinct m → merge_storage_updates [] m ≡ m
merge_storage_updates_empty m d = merge_storage_updates-Fresh [] m (Fresh-nil m) d
  where
    Fresh-nil : (m : Map Bytes StorageUpdate) → Fresh [] m
    Fresh-nil [] = tt
    Fresh-nil (x ∷ m) = (refl, Fresh-nil m)

-- Merging into the zero account copies.
pub merge_output_accounts_zero :
    (key : Bytes) (a : OutputAccount)
    → AccountIsValid key a
    → merge_output_accounts zero_account a ≡ a
unfolding merge_output_accounts
merge_output_accounts_zero key a v =
    ground (arith, merge_storage_updates_empty a.storage_updates v.distinct, v.has_delta)

-- One round of the merge with an account that the left side lacks appends it.
merge_round_fresh :
    (left : Map Bytes OutputAccount) (k : Bytes) (a : OutputAccount)
    → lookup k left ≡ none
    → AccountIsValid k a
    → insert a.address (merge_output_accounts (or_zero_account (lookup a.address left)) a) left
      ≡ left ++ (k, a) ∷ []
merge_round_fresh left k a f v =
    ground (arith, v.keyed, merge_output_accounts_zero k a v, insert_absent k a left f)

merge_account_maps-Fresh :
    (left m : Map Bytes OutputAccount)
    → Fresh left m
    → Distinct m
    → AccountsAreValid m
    → merge_account_maps left m ≡ left ++ m
unfolding merge_account_maps
merge_account_maps-Fresh left [] f d v = rw append-nil
merge_account_maps-Fresh left ((k, a) ∷ m) f d v = rw (merge_round_fresh left k a f.0 v.0) (
    merge_account_maps-Fresh (left ++ (k, a) ∷ []) m (Fresh-append k a left m f.1 d.0) d.1 v.1
    ∙ append_assoc left ((k, a) ∷ []) m)

-- Merging into a new output copies.
pub merge_vm_outputs_new : (o : VmOutput) → OutputIsValid o → merge_vm_outputs new_vm_output o ≡ o
unfolding merge_vm_outputs
merge_vm_outputs_new o v = ground (
  arith,
  v.has_refund,
  merge_account_maps-Fresh [] o.output_accounts (Fresh-nil o.output_accounts) v.distinct v.accounts,
)
  where
    Fresh-nil : (m : Map Bytes OutputAccount) → Fresh [] m
    Fresh-nil [] = tt
    Fresh-nil (x ∷ m) = (refl, Fresh-nil m)

-- The account that the merge leaves under an address.
abbrev pub merged_account : Option OutputAccount → Option OutputAccount → Option OutputAccount
merged_account left none = left
merged_account none (some r) = some (merge_output_accounts zero_account r)
merged_account (some l) (some r) = some (merge_output_accounts l r)

-- Each account stands under its own address.
abbrev pub AccountsAreKeyed : Map Bytes OutputAccount → Type 0
AccountsAreKeyed [] = Unit
AccountsAreKeyed ((k, a) ∷ m) = (a.address ≡ k) × AccountsAreKeyed m

pub AccountsAreValid-keyed : (m : Map Bytes OutputAccount) → AccountsAreValid m → AccountsAreKeyed m
AccountsAreValid-keyed [] v = tt
AccountsAreValid-keyed ((k, a) ∷ m) v = (v.0.keyed, AccountsAreValid-keyed m v.1)

pub lookup-merge_account_maps :
    (addr : Bytes) (left right : Map Bytes OutputAccount)
    → Distinct right
    → AccountsAreKeyed right
    → lookup addr (merge_account_maps left right)
      ≡ merged_account (lookup addr left) (lookup addr right)
unfolding merge_account_maps
lookup-merge_account_maps addr left [] d v = refl
lookup-merge_account_maps addr left ((k, r) ∷ right) d v =
    let x = merge_output_accounts (or_zero_account (lookup r.address left)) r in
    ground (
      arith,
      v.0,
      bytes_equal_iff k addr,
      lookup-insert r.address addr x left,
      lookup-merge_account_maps addr (insert r.address x left) right d.1 v.1,
    )

merge_storage_updates-Distinct :
    (left right : Map Bytes StorageUpdate)
    → Distinct left
    → Distinct (merge_storage_updates left right)
unfolding merge_storage_updates
merge_storage_updates-Distinct left [] d = d
merge_storage_updates-Distinct left ((k, u) ∷ right) d =
    merge_storage_updates-Distinct (insert k u left) right (insert-Distinct k u left d)

pub merge_output_accounts-IsValid :
    (key : Bytes) (l r : OutputAccount)
    → AccountIsValid key l
    → AccountIsValid key r
    → AccountIsValid key (merge_output_accounts l r)
unfolding merge_output_accounts
merge_output_accounts-IsValid key l r vl vr = record {
  keyed = ground (arith, vl.keyed, vr.keyed);
  has_delta = ground (arith, vl.has_delta, vr.has_delta);
  distinct = merge_storage_updates-Distinct l.storage_updates r.storage_updates vl.distinct;
}

-- Valid accounts stay valid under a write, and a lookup finds a valid one.
pub insert-AccountsAreValid :
    (k : Bytes) (a : OutputAccount) (m : Map Bytes OutputAccount)
    → AccountIsValid k a
    → AccountsAreValid m
    → AccountsAreValid (insert k a m)
insert-AccountsAreValid k a [] va v = (va, tt)
insert-AccountsAreValid k a ((j, b) ∷ m) va v = elim (Bool-cases (bytes_equal j k)) [
  | inl same ↦ rw (same, (bytes_equal_iff j k).0 same) (va, v.1)
  | inr other ↦ rw other (v.0, insert-AccountsAreValid k a m va v.1)
]

pub lookup-AccountIsValid :
    (k : Bytes) (a : OutputAccount) (m : Map Bytes OutputAccount)
    → AccountsAreValid m
    → lookup k m ≡ some a
    → AccountIsValid k a
lookup-AccountIsValid k a [] v h = cc
lookup-AccountIsValid k a ((j, b) ∷ m) v h = elim (Bool-cases (bytes_equal j k)) [
  | inl same ↦
      let e : j ≡ k = (bytes_equal_iff j k).0 same in
      let f : b ≡ a = ground arith in subst₂ AccountIsValid e f v.0
  | inr other ↦ lookup-AccountIsValid k a m v.1 (rw other at h)
]

merge_onto-IsValid :
    (k : Bytes) (o : Option OutputAccount) (r : OutputAccount)
    → ((l : OutputAccount) → o ≡ some l → AccountIsValid k l)
    → AccountIsValid k r
    → AccountIsValid k (merge_output_accounts (or_zero_account o) r)
merge_onto-IsValid k none r vl vr =
    subst (AccountIsValid k) (sym (merge_output_accounts_zero k r vr)) vr
merge_onto-IsValid k (some l) r vl vr = merge_output_accounts-IsValid k l r (vl l refl) vr

merge_round-IsValid :
    (left : Map Bytes OutputAccount) (k : Bytes) (r : OutputAccount)
    → AccountsAreValid left
    → AccountIsValid k r
    → AccountIsValid r.address (merge_output_accounts (or_zero_account (lookup r.address left)) r)
merge_round-IsValid left k r v vr =
    merge_onto-IsValid r.address (lookup r.address left) r
      (λ l. lookup-AccountIsValid r.address l left v)
      (subst (λ j. AccountIsValid j r) (sym vr.keyed) vr)

pub merge_account_maps-IsValid :
    (left right : Map Bytes OutputAccount)
    → AccountsAreValid left
    → Distinct left
    → AccountsAreValid right
    → AccountsAreValid (merge_account_maps left right) × Distinct (merge_account_maps left right)
unfolding merge_account_maps
merge_account_maps-IsValid left [] vl dl vr = (vl, dl)
merge_account_maps-IsValid left ((k, r) ∷ right) vl dl vr =
    let x = merge_output_accounts (or_zero_account (lookup r.address left)) r in
    merge_account_maps-IsValid (insert r.address x left) right
      (insert-AccountsAreValid r.address x left (merge_round-IsValid left k r vl vr.0) vl)
      (insert-Distinct r.address x left dl) vr.1

-- The merge of two valid outputs is valid.
pub merge_vm_outputs-IsValid :
    (l r : VmOutput) → OutputIsValid l → OutputIsValid r → OutputIsValid (merge_vm_outputs l r)
unfolding merge_vm_outputs
merge_vm_outputs-IsValid l r vl vr =
    let (v, d) =
      merge_account_maps-IsValid l.output_accounts r.output_accounts vl.accounts vl.distinct
        vr.accounts in
    record { accounts = v; distinct = d; has_refund = ground arith }
