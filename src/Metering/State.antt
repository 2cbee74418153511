-- ===== src/Metering/State.antt =====
-- The state of the metering context and its stack: InitState, PushState and the three Pop methods of
-- vmhost/contexts/metering.go.
use wasm_vm_v.Prelude.{ℕ, ◌+◌, ◌%◌, ◌^◌, List, [], ◌∷◌, Bytes, bytes_eq}
use wasm_vm_v.Prelude.Map.{Map, insert, get_or}
use wasm_vm_v.Overflow.{add_uint64}
use wasm_vm_v.Output.Types.{CallType, asynchronous_call_back}
use wasm_vm_v.Host.{MeteringContext, MeteringState, VmInput}

unfoldable pub init_state : MeteringContext → MeteringContext
init_state m = record m {
  active = record {
    initial_gas_provided = 0;
    initial_cost = 0;
    gas_for_execution = 0;
    gas_used_by_accounts = [];
  };
}

unfoldable pub unlock_gas_if_async_callback : CallType → VmInput → VmInput
unlock_gas_if_async_callback asynchronous_call_back input = record input {
  gas_provided = add_uint64 input.gas_provided input.gas_locked;
  gas_locked = 0;
}
unlock_gas_if_async_callback _ input = input

-- The context, and the input as the call leaves it.
unfoldable pub init_state_from_contract_call_input :
    VmInput → MeteringContext → MeteringContext × VmInput
unfolding init_state unlock_gas_if_async_callback
init_state_from_contract_call_input input m =
    let input' = unlock_gas_if_async_callback input.call_type input in
    let m' = init_state m in
    (
      record m' {
        active = record m'.active {
          initial_gas_provided = input'.gas_provided;
          gas_for_execution = input'.gas_provided;
        };
      },
      input',
    )

unfoldable pub push_state : MeteringContext → MeteringContext
push_state m = record m { state_stack = m.active ∷ m.state_stack }

-- `map[address] += gas`, which wraps around.
unfoldable pub add_to_gas_used_by_accounts : Map Bytes ℕ → Map Bytes ℕ → Map Bytes ℕ
add_to_gas_used_by_accounts used [] = used
add_to_gas_used_by_accounts used ((addr, gas) ∷ more) =
    add_to_gas_used_by_accounts (insert addr ((get_or addr 0 used + gas) % 2 ^ 64) used) more

pop_set_active : List MeteringState → MeteringContext → MeteringContext
pop_set_active [] m = m
pop_set_active (prev ∷ rest) m = record m { state_stack = rest; active = prev }

unfoldable pub pop_set_active_state : MeteringContext → MeteringContext
unfolding pop_set_active
pop_set_active_state m = pop_set_active m.state_stack m

pop_top : List MeteringState → MeteringContext → MeteringContext
pop_top [] m = m
pop_top (prev ∷ rest) m = record m { state_stack = rest }

unfoldable pub pop_discard : MeteringContext → MeteringContext
unfolding pop_top
pop_discard m = pop_top m.state_stack m

pop_merge_active : List MeteringState → MeteringContext → MeteringContext
unfolding add_to_gas_used_by_accounts
pop_merge_active [] m = m
pop_merge_active (prev ∷ rest) m = record m {
  state_stack = rest;
  active = record prev {
    gas_used_by_accounts =
        add_to_gas_used_by_accounts m.gas_used_by_accounts prev.gas_used_by_accounts;
  };
}

unfoldable pub pop_merge_active_state : MeteringContext → MeteringContext
unfolding pop_merge_active
pop_merge_active_state m = pop_merge_active m.state_stack m

unfoldable pub clear_state_stack : MeteringContext → MeteringContext
clear_state_stack m = record m { state_stack = [] }
