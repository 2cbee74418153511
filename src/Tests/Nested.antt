-- ===== src/Tests/Nested.antt =====
-- Nested calls of a contract whose functions use some gas, one of which fails.
use Prim.Native.String.{String}
use wasm_vm_v.Prelude.{
  ℕ, ◌+◌, ◌∷◌, [], true, false, Option, none, some, inl, inr, ◌≡◌, ◌≢◌, refl, same_text,
  if◌then◌else◌, Bytes, bytes_equal, arith,
}
use wasm_vm_v.Errors.{VmError, custom}
use wasm_vm_v.Output.Types.{VmOutput, new_vm_output, new_vm_output_account}
use wasm_vm_v.Host.{Host, Instance, ContractCallInput, AsyncContextInfo, breakpoint_none}
use wasm_vm_v.Engine.{Engine, is_builtin_function_name}
use wasm_vm_v.Metering.Points.{use_gas}
use wasm_vm_v.Execution.{Result}
use wasm_vm_v.Execution.Nested.{
  execute_on_dest_context_no_builtin_function, execute_on_same_context, run_on_dest_context,
  enter_dest_context, finish_execute_on_dest_context, call_output, close_dest_context,
  transfer_to_callee, run_on_same_context, enter_same_context, finish_execute_on_same_context,
}
use wasm_vm_v.Execution.Call.{
  execute, run_contract, call_sc_method_indirect, handle_breakpoint_if_any,
}
use wasm_vm_v.Execution.{
  check_return_code, is_init_function_being_called, copy_tx_hashes_from_context,
}
use wasm_vm_v.Runtime.Instances.{
  get_sc_code, start_wasmer_instance, exported, get_function_to_call,
  make_instance_from_compiled_code, make_instance_from_contract_byte_code, save_compiled,
}
use wasm_vm_v.FinalOutput.{
  create_vm_output_in_case_of_error, failure_message, get_vm_output, remove_non_updated_code,
  keep_updated_code,
}
use wasm_vm_v.Metering.Account.{
  update_gas_state_on_success, update_gas_state_on_failure, update_sc_gas_used,
  set_gas_used_to_output_accounts, check_gas, get_current_total_used_gas,
  get_gas_used_by_all_other_accounts, get_gas_transferred_by_account, add_gas_of_all,
  add_gas_of_others, add_transfers, set_gas_used, all_present,
}
use wasm_vm_v.Metering.Points.{
  deduct_initial_gas_for_execution, deduct_initial_gas, gas_left, gas_spent_by_contract,
}
use wasm_vm_v.Transfer.{transfer_value_only, has_sufficient_balance, must_refuse, move_value}
use wasm_vm_v.Blockchain.{get_code, get_code_hash, get_balance_big_int}
use wasm_vm_v.Output.{get_output_account}
use wasm_vm_v.Output.Merge.{merge_vm_outputs}
use wasm_vm_v.Output as O
use wasm_vm_v.BigInt as B
use wasm_vm_v.Storage as S
use wasm_vm_v.Metering.State as M
use wasm_vm_v.Overflow.{
  add_uint64, sub_uint64, mul_uint64, add_uint64_with_err, mul_uint64_with_err,
}
use wasm_vm_v.Runtime as R
use wasm_vm_v.Blockchain.State as K
use wasm_vm_v.Output.Laws.{OutputIsValid}
use wasm_vm_v.Errors.{resolve_return_code_from_error, error_message}
use wasm_vm_v.Fault.{add_error}
use wasm_vm_v.Execution.Restore.{Restored, refunded}
use wasm_vm_v.Execution.Success.{Returned}
use wasm_vm_v.Execution.Indirect.{execute_on_dest_context}
use wasm_vm_v.Execution.Snapshots.{Settled, execute_on_dest_context-Settled}
use wasm_vm_v.Execution.Calls.{
  caller_instance, execute_on_dest_context_failed, execute_on_dest_context_succeeded,
}
use wasm_vm_v.Execution.Whole.{execute_on_dest_context_whole-Balanced}
use wasm_vm_v.Execution.Paid.{execute_on_dest_context_gas}
use wasm_vm_v.Execution.SameContext.{Undone, same_caller_instance, execute_on_same_context_failed}
use wasm_vm_v.Runtime.{set_instance, keep_instance, push_state}
use wasm_vm_v.Prelude.Int.{◌-ℤ◌, ◌+ℤ◌}
use wasm_vm_v.Execution.Frame.{Balanced, Balanced-refl, use_gas-Balanced}
use wasm_vm_v.Tests.Fixtures.{hook, contract, alice, vm_input}
use wasm_vm_v.Tests.Fixtures as F

abbrev instance_of : Bytes → Instance
instance_of code = record {
  exports = some 0;
  points_used = 0;
  breakpoint = breakpoint_none;
  memory = [];
}

abbrev pub engine : Engine
engine = record {
  new_instance = λ code gas. inr (instance_of code);
  new_instance_from_compiled_code = λ code gas. inl (custom "no compiled code");
  has_function = λ m name. true;
  function = λ m name h.
      (use_gas 7 h, if same_text name "fail" then some (custom "unreachable") else none);
  has_memory = λ m. true;
  export_names = λ m. "pay" ∷ [];
  signature = λ m name. some (0, 0);
  is_function_imported = λ m name. false;
  cache = λ m. inr [];
  grow = λ memory pages. inr memory;
  sha256 = λ code. inr code;
  builtin_function = λ name. none;
  builtin_names = [];
  api_names = [];
  parse_data = λ bytes. inl (custom "no call data");
  esdt_transfer = "ESDTTransfer";
  esdt_nft_transfer = "ESDTNFTTransfer";
  non_fungible = 1;
}

abbrev pub no_async : Host → Result
no_async h = (h, none)

abbrev pub no_async_info : AsyncContextInfo → Host → Result
no_async_info info h = (h, none)

pub functions_lem : (m : ℕ) (name : String) (h : Host) → Balanced h (engine.function m name h).0
functions_lem m name h = use_gas-Balanced 7 h

-- A host whose output has the code of the contract and nothing else.
abbrev pub host : Host
host = record F.host {
  output = record {
    output_state = record new_vm_output {
      output_accounts = (contract, record (new_vm_output_account contract) { code = 0 ∷ [] }) ∷ [];
    };
    state_stack = [];
    code_updates = [];
  };
  metering = record F.metering {
    active = record {
      initial_gas_provided = 1000;
      initial_cost = 100;
      gas_for_execution = 900;
      gas_used_by_accounts = [];
    };
  };
}

abbrev call_of : String → ContractCallInput
call_of name = record {
  input = record vm_input { caller_addr = contract; gas_provided = 100 };
  recipient_addr = contract;
  function = name;
  allow_init_function = false;
}

abbrev dest : String → Host × VmOutput × Option VmError
dest name =
    execute_on_dest_context_no_builtin_function hook engine no_async no_async_info (call_of name)
      host

abbrev same : String → Host × Option VmError
same name = execute_on_same_context hook engine no_async (call_of name) host

-- The errors of the runs, and the gas that remains after the first.
summary : String → Option VmError × ℕ × Option VmError
unfolding execute_on_dest_context_no_builtin_function run_on_dest_context enter_dest_context
    finish_execute_on_dest_context call_output close_dest_context transfer_to_callee execute
    run_contract call_sc_method_indirect handle_breakpoint_if_any check_return_code
    is_init_function_being_called get_sc_code start_wasmer_instance exported get_function_to_call
    make_instance_from_compiled_code make_instance_from_contract_byte_code save_compiled
    get_vm_output remove_non_updated_code update_gas_state_on_success update_sc_gas_used
    set_gas_used_to_output_accounts check_gas deduct_initial_gas_for_execution deduct_initial_gas
    transfer_value_only has_sufficient_balance must_refuse move_value get_code get_code_hash
    get_balance_big_int get_output_account use_gas gas_left gas_spent_by_contract
    get_current_total_used_gas get_gas_used_by_all_other_accounts get_gas_transferred_by_account
    add_gas_of_all add_gas_of_others add_transfers set_gas_used all_present add_uint64 sub_uint64
    mul_uint64 add_uint64_with_err mul_uint64_with_err bytes_equal keep_updated_code
    copy_tx_hashes_from_context set_instance keep_instance push_state M.push_state B.push_state
    S.push_state O.push_state merge_vm_outputs ◌-ℤ◌ ◌+ℤ◌ M.init_state_from_contract_call_input
    O.censor_vm_output R.init_state_from_contract_call_input create_vm_output_in_case_of_error
    update_gas_state_on_failure add_error failure_message resolve_return_code_from_error
    error_message execute_on_same_context run_on_same_context enter_same_context
    finish_execute_on_same_context is_builtin_function_name K.push_state
summary name = ((dest name).2, (dest name).1.gas_remaining, (same name).1)

pays : (dest "pay").2 ≡ none
unfolding summary
pays = refl

pays_remaining : (dest "pay").1.gas_remaining ≡ 92
unfolding summary
pays_remaining = refl

fails : (dest "fail").2 ≢ none
unfolding summary
fails = ground arith

fails_same : (same "fail").1 ≢ none
unfolding summary
fails_same = ground arith

entered_gas : (enter_dest_context (call_of "pay") host).1.gas_provided ≡ 100
unfolding summary
entered_gas = refl

not_builtin : is_builtin_function_name engine "fail" ≡ false
unfolding is_builtin_function_name
not_builtin = refl

host_lem : OutputIsValid host.output.output_state
host_lem = record { has_refund = ground arith; distinct = ground arith; accounts = ground arith }

-- The call costs 8: its 1 byte of code, and 7 points.
execute_on_dest_context_gas_example :
    (dest "pay").0.runtime.points_used + (dest "pay").1.gas_remaining
    ≡ 200 + (enter_dest_context (call_of "pay") host).1.gas_provided
execute_on_dest_context_gas_example =
    execute_on_dest_context_gas hook engine no_async no_async_info functions_lem
      (λ h. Balanced-refl h) (λ info h. Balanced-refl h) (call_of "pay") host pays
      (omega (arith, entered_gas)) (omega (arith, entered_gas)) (omega (arith, pays_remaining))

execute_on_dest_context_failed_example :
    Restored host (dest "fail").0
    × ((dest "fail").0.runtime.instance
        ≡ refunded (dest "fail").1.gas_remaining (caller_instance hook (call_of "fail") host) host)
execute_on_dest_context_failed_example =
    execute_on_dest_context_failed hook engine no_async no_async_info functions_lem
      (λ h. Balanced-refl h) (λ info h. Balanced-refl h) (call_of "fail") host host_lem fails

execute_on_dest_context_succeeded_example :
    let (h', out, err) = dest "pay" in
    let (h1, call') = enter_dest_context (call_of "pay") host in
    let left =
      (get_vm_output (run_on_dest_context hook engine no_async no_async_info call' h1).0).0 in
    Returned host h'
    × (h'.runtime.instance
        ≡ refunded out.gas_remaining (caller_instance hook (call_of "pay") host) host)
    × (out ≡ left.output.output_state)
    × (h'.output ≡ O.pop_merge_active_state left.output)
    × (h'.metering ≡ M.pop_merge_active_state left.metering)
execute_on_dest_context_succeeded_example =
    execute_on_dest_context_succeeded hook engine no_async no_async_info functions_lem
      (λ h. Balanced-refl h) (λ info h. Balanced-refl h) (call_of "pay") host pays

execute_on_dest_context_whole-Balanced_example :
    Balanced host
      (execute_on_dest_context hook engine no_async no_async_info (call_of "fail") host).0
execute_on_dest_context_whole-Balanced_example =
    execute_on_dest_context_whole-Balanced hook engine no_async no_async_info functions_lem
      (λ h. Balanced-refl h) (λ info h. Balanced-refl h) (call_of "fail") host

-- The caller has paid 100, and the node goes back to its snapshot.
execute_on_same_context_failed_example :
    Undone (same_caller_instance hook (call_of "fail") host) 0 host (same "fail").0
execute_on_same_context_failed_example =
    execute_on_same_context_failed hook engine no_async functions_lem (λ h. Balanced-refl h)
      (call_of "fail") host host_lem not_builtin fails_same

execute_on_dest_context-Settled_example :
    let r = execute_on_dest_context hook engine no_async no_async_info (call_of "fail") host in
    Settled hook host r.2 r.0
execute_on_dest_context-Settled_example =
    execute_on_dest_context-Settled hook engine no_async no_async_info functions_lem
      (λ h. Balanced-refl h) (λ info h. Balanced-refl h) (call_of "fail") host
