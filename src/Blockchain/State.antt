-- ===== src/Blockchain/State.antt =====
-- The snapshots of vmhost/contexts/blockchain.go: the node keeps its own state, and the context asks
-- it to go back to a snapshot. An error of the node is logged only.
use wasm_vm_v.Prelude.{ℕ, List, [], ◌∷◌}
use wasm_vm_v.Host.{BlockchainContext, revert_to_snapshot}
use wasm_vm_v.Hook.{BlockchainHook}

unfoldable pub push_state : BlockchainHook → BlockchainContext → BlockchainContext
push_state hook b = record b { state_stack = hook.get_snapshot b.calls ∷ b.state_stack }

pop_set_active : List ℕ → BlockchainContext → BlockchainContext
pop_set_active [] b = b
pop_set_active (snapshot ∷ rest) b = record b {
  state_stack = rest;
  calls = revert_to_snapshot snapshot ∷ b.calls;
}

unfoldable pub pop_set_active_state : BlockchainContext → BlockchainContext
unfolding pop_set_active
pop_set_active_state b = pop_set_active b.state_stack b

pop_top : List ℕ → BlockchainContext → BlockchainContext
pop_top [] b = b
pop_top (snapshot ∷ rest) b = record b { state_stack = rest }

unfoldable pub pop_discard : BlockchainContext → BlockchainContext
unfolding pop_top
pop_discard b = pop_top b.state_stack b

unfoldable pub clear_state_stack : BlockchainContext → BlockchainContext
clear_state_stack b = record b { state_stack = [] }
