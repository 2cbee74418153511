-- ===== src/Tests/Context.antt =====
-- The output, the transfers and the answers of the node on the host of the fixtures.
use wasm_vm_v.Prelude.{true, ◌≡◌, ◌≢◌, ◌⊎◌, refl, none, some, [], bytes_eq, bytes_equal, arith}
use wasm_vm_v.Prelude.Int.{pos, ◌≤ℤ◌}
use wasm_vm_v.Errors.{ok}
use wasm_vm_v.Output.{push_state, pop_set_active_state, pop_merge_active_state}
use wasm_vm_v.Output.Laws.{OutputIsValid, AccountIsValid}
use wasm_vm_v.Output.Stack.{
  Merged, pop_set_active_state-push_state, pop_merge_active_state-push_state,
}
use wasm_vm_v.Metering.Points.{gas_left}
use wasm_vm_v.Blockchain.{get_balance_big_int}
use wasm_vm_v.Transfer.{transfer_value_only}
use wasm_vm_v.Transfer.Conservation.{Steady, transfer_value_only_lem}
use wasm_vm_v.FinalOutput.{get_vm_output}
use wasm_vm_v.FinalOutput.Outcome.{get_vm_output_lem, with_gas_remaining}
use wasm_vm_v.Metering.Account.{update_gas_state_on_success}
use wasm_vm_v.Errors.{VmError, resolve_return_code_from_error}
use wasm_vm_v.Tests.Fixtures.{host, hook, alice, contract, output, contract_account}

contract_account-IsValid : AccountIsValid contract contract_account
contract_account-IsValid = record { keyed = refl; has_delta = ground arith; distinct = (refl, tt) }

output-IsValid : OutputIsValid output.output_state
unfolding bytes_equal
output-IsValid = record {
  accounts = (
    contract_account-IsValid,
    (record { keyed = refl; has_delta = ground arith; distinct = tt }, tt),
  );
  distinct = (refl, (refl, tt));
  has_refund = ground arith;
}

pop_set_active_state_example : pop_set_active_state (push_state output) ≡ output
unfolding push_state
pop_set_active_state_example =
    pop_set_active_state-push_state output (push_state output) output-IsValid refl

pop_merge_active_state_example :
    let r =
      pop_merge_active_state (record output { state_stack = (push_state output).state_stack }) in
    Merged output (record output { state_stack = (push_state output).state_stack }) r
    × OutputIsValid r.output_state
pop_merge_active_state_example =
    pop_merge_active_state-push_state output
      (record output { state_stack = (push_state output).state_stack }) output-IsValid
      output-IsValid refl

transfer_value_only_example :
    let (h', err) = transfer_value_only hook alice contract (pos 60) true host in
    Steady host.output h'.output
    × ((err ≢ none) ⊎ ((pos 0 ≤ℤ pos 60) × (pos 60 ≤ℤ (get_balance_big_int hook contract host).1)))
transfer_value_only_example =
    transfer_value_only_lem hook alice contract (pos 60) true host output-IsValid

get_vm_output_example :
    let (h', out) = get_vm_output host in
    let (settled, err) = update_gas_state_on_success (with_gas_remaining host) in
    ((err ≡ none)
      × (h' ≡ settled)
      × (out ≡ settled.output.output_state)
      × (out.gas_remaining ≡ 700))
    ⊎ ((e : VmError) × (err ≡ some e)
        × (out.return_code ≡ resolve_return_code_from_error (some e))
        × (out.return_code ≢ ok)
        × (out.gas_remaining ≡ 0)
        × (out.gas_refund ≡ some (pos 0))
        × (out.return_data ≡ [])
        × (out.output_accounts ≡ [])
        × (out.logs ≡ []))
unfolding gas_left
get_vm_output_example = get_vm_output_lem host
