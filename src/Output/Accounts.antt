-- ===== src/Output/Accounts.antt =====
-- The accounts of the current output stay well-formed under the reads and writes of the operations.
use wasm_vm_v.Prelude.{
  ◌≡◌, refl, some, Bytes, bytes_eq, bytes_equal_iff, arith, Option-cases, inl, inr,
}
use wasm_vm_v.Prelude.Map.{lookup, lookup-insert, insert-Distinct}
use wasm_vm_v.Output.{OutputContext, get_output_account, set_account}
use wasm_vm_v.Output.Types.{OutputAccount, new_vm_output_account}
use wasm_vm_v.Output.Laws.{
  AccountIsValid, OutputIsValid, insert-AccountsAreValid, lookup-AccountIsValid,
}

-- The account that is returned is the one that the context holds.
pub get_output_account-lookup :
    (addr : Bytes) (c : OutputContext)
    → lookup addr (get_output_account addr c).0.output_state.output_accounts
      ≡ some (get_output_account addr c).1
unfolding get_output_account
get_output_account-lookup addr c = ground (
  arith,
  bytes_equal_iff addr addr,
  lookup-insert addr addr (get_output_account addr c).1 c.output_state.output_accounts,
)

new_vm_output_account-IsValid : (addr : Bytes) → AccountIsValid addr (new_vm_output_account addr)
new_vm_output_account-IsValid addr = record {
  keyed = refl;
  has_delta = ground arith;
  distinct = tt;
}

pub set_account-IsValid :
    (addr : Bytes) (account : OutputAccount) (c : OutputContext)
    → AccountIsValid addr account
    → OutputIsValid c.output_state
    → OutputIsValid (set_account addr account c).output_state
set_account-IsValid addr account c va v = record {
  accounts = insert-AccountsAreValid addr account c.output_state.output_accounts va v.accounts;
  distinct = insert-Distinct addr account c.output_state.output_accounts v.distinct;
  has_refund = v.has_refund;
}

pub get_output_account-IsValid :
    (addr : Bytes) (c : OutputContext)
    → OutputIsValid c.output_state
    → OutputIsValid (get_output_account addr c).0.output_state
unfolding get_output_account
get_output_account-IsValid addr c v =
    elim (Option-cases (lookup addr c.output_state.output_accounts)) [
      | inl missing ↦
          rw (get_output_account, missing)
            (set_account-IsValid addr (new_vm_output_account addr) c
              (new_vm_output_account-IsValid addr) v)
      | inr (account, here) ↦ rw (get_output_account, here) v
    ]

pub get_output_account-AccountIsValid :
    (addr : Bytes) (c : OutputContext)
    → OutputIsValid c.output_state
    → AccountIsValid addr (get_output_account addr c).1
get_output_account-AccountIsValid addr c v =
    lookup-AccountIsValid addr (get_output_account addr c).1
      (get_output_account addr c).0.output_state.output_accounts
      (get_output_account-IsValid addr c v).accounts (get_output_account-lookup addr c)

-- Making one account loses none.
pub get_output_account_keeps :
    (addr a : Bytes) (account : OutputAccount) (c : OutputContext)
    → lookup a c.output_state.output_accounts ≡ some account
    → lookup a (get_output_account addr c).0.output_state.output_accounts ≡ some account
unfolding get_output_account
get_output_account_keeps addr a account c found = ground (
  arith,
  bytes_equal_iff addr a,
  lookup-insert addr a (new_vm_output_account addr) c.output_state.output_accounts,
)
