-- ===== src/Output/Combine.antt =====
-- AddToActiveState: the output of a built-in function joins the current output.
use wasm_vm_v.Prelude.{
  ◌≡◌, refl, Option, none, some, [], ◌∷◌, ◌++◌, Bytes, bytes_eq, arith, bytes_equal_iff,
  bytes_equal, if◌then◌else◌, length-append, Option-cases, inl, inr,
}
use wasm_vm_v.Prelude.Map.{Map, lookup, Distinct, lookup-insert}
use wasm_vm_v.Prelude.Int.{ℤ, pos, ◌+ℤ◌}
use wasm_vm_v.Output.{
  OutputContext, add_to_active_state, adjust_accounts, adjust_left_accounts, add_left_delta,
}
use wasm_vm_v.Output.Types.{VmOutput, OutputAccount}
use wasm_vm_v.Output.Merge.{merge_vm_outputs, merge_output_accounts}
use wasm_vm_v.Output.Laws.{AccountsAreKeyed, merged_account, lookup-merge_account_maps}

-- The left account of an address once the loop has appended the right transfers to it.
abbrev pub with_transfers : Option OutputAccount → Option OutputAccount → Option OutputAccount
with_transfers none right = none
with_transfers (some l) none = some l
with_transfers (some l) (some r) =
    some (record l { output_transfers = l.output_transfers ++ r.output_transfers })

-- The right account of an address once the loop has added the left balance change to it.
abbrev pub with_delta : Option OutputAccount → Option OutputAccount → Option OutputAccount
with_delta left none = none
with_delta none (some r) = some r
with_delta (some l) (some r) =
    some (record r { balance_delta = add_left_delta r.balance_delta l.balance_delta })

lookup-adjust_left_accounts :
    (addr : Bytes) (left : Map Bytes OutputAccount) (r : OutputAccount)
    → lookup addr (adjust_left_accounts left r) ≡ (
        if bytes_equal r.address addr
        then with_transfers (lookup addr left) (some r)
        else lookup addr left)
unfolding adjust_left_accounts
lookup-adjust_left_accounts addr left r = elim (Option-cases (lookup r.address left)) [
  | inl missing ↦ ground (arith, bytes_equal_iff r.address addr)
  | inr (l, found) ↦ ground (
    arith,
    bytes_equal_iff r.address addr,
    lookup-insert r.address addr
        (record l { output_transfers = l.output_transfers ++ r.output_transfers }) left,
  )
]

adjust_accounts-left :
    (addr : Bytes) (left right : Map Bytes OutputAccount)
    → Distinct right
    → AccountsAreKeyed right
    → lookup addr (adjust_accounts left right).0
      ≡ with_transfers (lookup addr left) (lookup addr right)
unfolding adjust_accounts
adjust_accounts-left addr left [] d v = ground arith
adjust_accounts-left addr left ((k, r) ∷ right) d v = ground (
  arith,
  v.0,
  bytes_equal_iff k addr,
  lookup-adjust_left_accounts addr left r,
  adjust_accounts-left addr (adjust_left_accounts left r) right d.1 v.1,
)

-- The keys of the right accounts stay, and so do their addresses.
adjust_accounts-absent :
    (addr : Bytes) (left right : Map Bytes OutputAccount)
    → lookup addr right ≡ none
    → lookup addr (adjust_accounts left right).1 ≡ none
unfolding adjust_accounts
adjust_accounts-absent addr left [] h = refl
adjust_accounts-absent addr left ((k, r) ∷ right) h =
    ground (arith, adjust_accounts-absent addr (adjust_left_accounts left r) right)

adjust_accounts-keyed :
    (left right : Map Bytes OutputAccount)
    → Distinct right
    → AccountsAreKeyed right
    → Distinct (adjust_accounts left right).1 × AccountsAreKeyed (adjust_accounts left right).1
unfolding adjust_accounts
adjust_accounts-keyed left [] d v = (tt, tt)
adjust_accounts-keyed left ((k, r) ∷ right) d v =
    let (d', v') = adjust_accounts-keyed (adjust_left_accounts left r) right d.1 v.1 in
    (
      (adjust_accounts-absent k (adjust_left_accounts left r) right d.0, d'),
      (ground (arith, v.0), v'),
    )

adjust_accounts-right :
    (addr : Bytes) (left right : Map Bytes OutputAccount)
    → Distinct right
    → AccountsAreKeyed right
    → lookup addr (adjust_accounts left right).1 ≡ with_delta (lookup addr left) (lookup addr right)
unfolding adjust_accounts
adjust_accounts-right addr left [] d v = ground arith
adjust_accounts-right addr left ((k, r) ∷ right) d v = ground (
  arith,
  v.0,
  bytes_equal_iff k addr,
  lookup-adjust_left_accounts addr left r,
  adjust_accounts-right addr (adjust_left_accounts left r) right d.1 v.1,
)

-- After a foreign output was added, the account of each address is the merge of the account of the
-- current output, with the foreign transfers behind its own, and of the foreign account, with the
-- balance change of the current output added to its own.
pub lookup-add_to_active_state :
    (addr : Bytes) (right : VmOutput) (c : OutputContext)
    → Distinct right.output_accounts
    → AccountsAreKeyed right.output_accounts
    → lookup addr (add_to_active_state right c).0.output_state.output_accounts
      ≡ merged_account
          (with_transfers
            (lookup addr c.output_state.output_accounts)
            (lookup addr right.output_accounts))
          (with_delta
            (lookup addr c.output_state.output_accounts)
            (lookup addr right.output_accounts))
unfolding add_to_active_state
lookup-add_to_active_state addr right c d v =
    let left = c.output_state.output_accounts in
    let (d', v') = adjust_accounts-keyed left right.output_accounts d v in
    ground (
      arith,
      lookup-merge_account_maps addr (adjust_accounts left right.output_accounts).0
          (adjust_accounts left right.output_accounts).1 d' v',
      adjust_accounts-left addr left right.output_accounts d v,
      adjust_accounts-right addr left right.output_accounts d v,
    )

-- The account that AddToActiveState leaves where both outputs have one.
abbrev joined : OutputAccount → OutputAccount → OutputAccount
joined l r =
    merge_output_accounts (record l { output_transfers = l.output_transfers ++ r.output_transfers })
      (record r { balance_delta = add_left_delta r.balance_delta l.balance_delta })

joined-transfers :
    (l r : OutputAccount) → (joined l r).output_transfers ≡ l.output_transfers ++ r.output_transfers
unfolding merge_output_accounts
joined-transfers l r = ground (arith, length-append {0} l.output_transfers r.output_transfers)

-- Where both outputs have an account, its transfers are those of the current output followed by the
-- foreign ones, its balance change is the sum of the two and its gas used is the foreign one. The
-- refund is the sum of the two refunds, or 0 where the foreign output has none.
pub add_to_active_state_sums :
    (addr : Bytes) (right : VmOutput) (c : OutputContext) {l r : OutputAccount} {x y z : ℤ}
    → Distinct right.output_accounts
    → AccountsAreKeyed right.output_accounts
    → lookup addr c.output_state.output_accounts ≡ some l
    → lookup addr right.output_accounts ≡ some r
    → l.balance_delta ≡ some x
    → r.balance_delta ≡ some y
    → c.output_state.gas_refund ≡ some z
    → let o = (add_to_active_state right c).0.output_state in
      (a : OutputAccount) × (lookup addr o.output_accounts ≡ some a)
      × (a.output_transfers ≡ l.output_transfers ++ r.output_transfers)
      × (a.balance_delta ≡ some (y +ℤ x))
      × (a.gas_used ≡ r.gas_used)
      × (o.gas_refund ≡ elim right.gas_refund [ none ↦ some (pos 0) | some w ↦ some (w +ℤ z) ])
unfolding add_to_active_state merge_vm_outputs merge_output_accounts
add_to_active_state_sums addr right c {l} {r} {x} {y} {z} d v hl hr hx hy hz = (
  joined l r,
  ground (arith, lookup-add_to_active_state addr right c d v),
  joined-transfers l r,
  ground (arith),
  refl,
  ground arith,
)
