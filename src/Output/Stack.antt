-- ===== src/Output/Stack.antt =====
-- The state stack of the output context: what a nested call sees and leaves behind.
use mathlib.Core.List.{append-nil}
use wasm_vm_v.Prelude.{
  ◌≤◌, ltb, if◌then◌else◌, subst, sym, ◌≡◌, ◌≢◌, refl, none, List, [], ◌∷◌, ◌++◌, Bytes, bytes_eq,
  arith, length, drop, drop-length-append, length-append,
}
use wasm_vm_v.Prelude.Map.{lookup}
use wasm_vm_v.Output.{
  OutputContext, push_state, pop_set_active_state, pop_merge_active_state, pop_discard,
}
use wasm_vm_v.Output.Types.{OutputAccount, OutputTransfer}
use wasm_vm_v.Output.Merge.{merge_vm_outputs, merge_output_accounts}
use wasm_vm_v.Output.Laws.{
  AccountsAreValid-keyed, OutputIsValid, merged_account, merge_vm_outputs_new,
  merge_vm_outputs-IsValid, lookup-merge_account_maps,
}

append_missing :
    (xs more : List OutputTransfer)
    → (if ltb (length xs) (length (xs ++ more)) then xs ++ drop (length xs) (xs ++ more) else xs)
      ≡ xs ++ more
append_missing xs [] = ground (arith, append-nil xs)
append_missing xs (t ∷ more) =
    ground (arith, drop-length-append xs (t ∷ more), length-append {0} xs (t ∷ more))

-- PushState saves an exact copy of a valid output.
pub push_state_lem :
    (c : OutputContext)
    → OutputIsValid c.output_state
    → push_state c ≡ record c { state_stack = c.output_state ∷ c.state_stack }
unfolding push_state
push_state_lem c v = ground (arith, merge_vm_outputs_new c.output_state v)

-- Whatever a nested call does to the current output and to the code updates, if it leaves the stack
-- as it found it, then PopSetActiveState restores the output and the stack that PushState saved; the
-- code updates of the nested call stay.
pub pop_set_active_state-push_state :
    (c d : OutputContext)
    → OutputIsValid c.output_state
    → d.state_stack ≡ (push_state c).state_stack
    → pop_set_active_state d ≡ record c { code_updates = d.code_updates }
unfolding pop_set_active_state
pop_set_active_state-push_state c d v h = ground (arith, push_state_lem c v)

-- PopDiscard after PushState keeps the current output and drops the copy.
pub pop_discard-push_state :
    (c d : OutputContext)
    → d.state_stack ≡ (push_state c).state_stack
    → pop_discard d ≡ record d { state_stack = c.state_stack }
unfolding pop_discard push_state
pop_discard-push_state c d h = ground arith

-- What a merge leaves in the current output, where `d` is the context of the nested call and `c`
-- that of its caller.
pub record Merged (c d r : OutputContext) : Type 0 where
  pub stack : r.state_stack ≡ c.state_stack
  pub updates : r.code_updates ≡ d.code_updates
  pub return_data :
      r.output_state.return_data ≡ c.output_state.return_data ++ d.output_state.return_data
  pub logs : r.output_state.logs ≡ c.output_state.logs ++ d.output_state.logs
  pub return_code : r.output_state.return_code ≡ d.output_state.return_code
  pub return_message : r.output_state.return_message ≡ d.output_state.return_message
  pub refund : r.output_state.gas_refund ≡ d.output_state.gas_refund
  pub accounts :
      (addr : Bytes)
      → lookup addr r.output_state.output_accounts
        ≡ merged_account
            (lookup addr c.output_state.output_accounts)
            (lookup addr d.output_state.output_accounts)

pop_merge_active_state-eq :
    (c d : OutputContext)
    → OutputIsValid c.output_state
    → OutputIsValid d.output_state
    → d.state_stack ≡ (push_state c).state_stack
    → pop_merge_active_state d ≡ record d {
      state_stack = c.state_stack;
      output_state = merge_vm_outputs c.output_state d.output_state;
    }
unfolding pop_merge_active_state
pop_merge_active_state-eq c d vc vd h = ground (
  arith,
  push_state_lem c vc,
  merge_vm_outputs_new (merge_vm_outputs c.output_state d.output_state)
      (merge_vm_outputs-IsValid c.output_state d.output_state vc vd),
)

merge-Merged :
    (c d : OutputContext)
    → OutputIsValid d.output_state
    → Merged c d (record d {
      state_stack = c.state_stack;
      output_state = merge_vm_outputs c.output_state d.output_state;
    })
unfolding merge_vm_outputs
merge-Merged c d vd = record {
  stack = refl;
  updates = refl;
  return_data = refl;
  logs = refl;
  return_code = refl;
  return_message = refl;
  refund = ground (arith, vd.has_refund);
  accounts = λ addr.
      lookup-merge_account_maps addr c.output_state.output_accounts d.output_state.output_accounts
        vd.distinct (AccountsAreValid-keyed d.output_state.output_accounts vd.accounts);
}

-- PopMergeActiveState after a nested call, where both outputs are valid and the call left the stack
-- as it found it: the caller's return data and logs, then those of the call; the refund, the code
-- and the message of the call, and the code updates as they are; under each address the merged
-- account. The result is valid again.
pub pop_merge_active_state-push_state :
    (c d : OutputContext)
    → OutputIsValid c.output_state
    → OutputIsValid d.output_state
    → d.state_stack ≡ (push_state c).state_stack
    → Merged c d (pop_merge_active_state d) × OutputIsValid (pop_merge_active_state d).output_state
pop_merge_active_state-push_state c d vc vd h =
    subst (λ r. Merged c d r × OutputIsValid r.output_state)
      (sym (pop_merge_active_state-eq c d vc vd h))
      (merge-Merged c d vd, merge_vm_outputs-IsValid c.output_state d.output_state vc vd)

-- Where the call only appended to the transfers of an account and did not lower its nonce, the
-- merged account has the transfers, the nonce, the balance change and the gas used of the call.
pub merge_output_accounts_extends :
    (l r : OutputAccount) (more : List OutputTransfer)
    → r.output_transfers ≡ l.output_transfers ++ more
    → l.nonce ≤ r.nonce
    → r.balance_delta ≢ none
    → let m = merge_output_accounts l r in
      (m.output_transfers ≡ r.output_transfers)
      × (m.nonce ≡ r.nonce)
      × (m.balance_delta ≡ r.balance_delta)
      × (m.gas_used ≡ r.gas_used)
unfolding merge_output_accounts
merge_output_accounts_extends l r more h n d =
    (ground (arith, append_missing l.output_transfers more), ground arith, ground (arith, d), refl)
