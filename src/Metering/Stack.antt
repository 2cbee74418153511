-- ===== src/Metering/Stack.antt =====
-- The state stack of the metering context: a failed nested call leaves no trace, a successful one
-- adds its gas per account to the caller's.
use wasm_vm_v.Prelude.{ℕ, ◌+◌, ◌%◌, ◌^◌, ◌<◌, ◌≡◌, Bytes, bytes_eq, bytes_equal_iff, [], ◌∷◌, arith}
use wasm_vm_v.Prelude.Map.{Map, insert, get_or, Distinct, lookup-insert}
use wasm_vm_v.Host.{MeteringContext}
use wasm_vm_v.Metering.State.{
  push_state, pop_set_active_state, pop_merge_active_state, add_to_gas_used_by_accounts,
}

-- Whatever a nested call does to the active state, if it leaves the stack and the settings as it
-- found them, then PopSetActiveState restores the context of before PushState.
pub pop_set_active_state_lem :
    (m d : MeteringContext)
    → d.state_stack ≡ (push_state m).state_stack
    → pop_set_active_state d ≡ record d { active = m.active; state_stack = m.state_stack }
unfolding pop_set_active_state push_state
pop_set_active_state_lem m d h = ground arith

-- The gas of an address after the gas of a second map was added.
pub get_or-add_to_gas_used_by_accounts :
    (addr : Bytes) (used more : Map Bytes ℕ)
    → Distinct more
    → get_or addr 0 used < 2 ^ 64
    → get_or addr 0 (add_to_gas_used_by_accounts used more)
      ≡ (get_or addr 0 used + get_or addr 0 more) % 2 ^ 64
unfolding add_to_gas_used_by_accounts
get_or-add_to_gas_used_by_accounts addr used [] d lt = omega arith
get_or-add_to_gas_used_by_accounts addr used ((k, gas) ∷ more) d lt = ground (
  arith,
  bytes_equal_iff k addr,
  lookup-insert k addr ((get_or k 0 used + gas) % 2 ^ 64) used,
  get_or-add_to_gas_used_by_accounts addr (insert k ((get_or k 0 used + gas) % 2 ^ 64) used) more
      d.1,
)

-- After a nested call that PushState began, PopMergeActiveState gives the caller its gas figures
-- back, and to each address the sum, modulo 2 ^ 64, of the gas used in the call and of that used
-- before it.
pub pop_merge_active_state_lem :
    (m d : MeteringContext) (addr : Bytes)
    → d.state_stack ≡ (push_state m).state_stack
    → Distinct m.gas_used_by_accounts
    → get_or addr 0 d.gas_used_by_accounts < 2 ^ 64
    → let r = pop_merge_active_state d in
      (r.state_stack ≡ m.state_stack)
      × (r.initial_gas_provided ≡ m.initial_gas_provided)
      × (r.initial_cost ≡ m.initial_cost)
      × (r.gas_for_execution ≡ m.gas_for_execution)
      × (get_or addr 0 r.gas_used_by_accounts
          ≡ (get_or addr 0 d.gas_used_by_accounts + get_or addr 0 m.gas_used_by_accounts) % 2 ^ 64)
unfolding pop_merge_active_state push_state
pop_merge_active_state_lem m d addr h distinct lt = ground (
  arith,
  get_or-add_to_gas_used_by_accounts addr d.gas_used_by_accounts m.gas_used_by_accounts distinct lt,
)
