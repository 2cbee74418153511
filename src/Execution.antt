-- ===== src/Execution.antt =====
-- How a contract is executed on behalf of another one: the nested calls of
-- vmhost/hostCore/execution.go and the breakpoints of vmhost/hostCore/breakpoints.go. The
-- asynchronous calls come back into these functions, so their handling is a parameter here.
pub mod Call
pub mod Frame
pub mod Away
pub mod Runs
pub mod Returns
pub mod Restore
pub mod Calls
pub mod Success
pub mod Paid
pub mod SameContext
pub mod Nested
pub mod Builtin
pub mod Indirect
pub mod Direct
pub mod Snapshots
pub mod Whole
use Prim.Native.String.{String}
use wasm_vm_v.Prelude.{
  ℕ, Bool, true, false, ◌&&◌, ◌||◌, not, ◌⊎◌, inl, inr, Option, none, some, List, [], ◌∷◌, Bytes,
  bytes_equal, is_empty, ltb, leb, same_text, if◌then◌else◌,
}
use wasm_vm_v.Errors.{
  VmError, ReturnCode, ok, execution_failed, signal_error, not_enough_gas, nil_contract,
  unhandled_runtime_breakpoint, upgrade_not_allowed, init_func_called_in_run,
  call_back_func_called_in_run, invalid_upgrade_arguments, contract_invalid, return_code_not_ok,
  nil_callback_function, out_of_gas, errors_is,
}
use wasm_vm_v.Output.{CodeDeployInput, set_return_code, deploy_code}
use wasm_vm_v.Output.Types.{CallType, VmOutput}
use wasm_vm_v.Transfer.{is_asynchronous_call_back}
use wasm_vm_v.Host.{
  Host, Runtime, Breakpoint, ContractCallInput, VmInput, AsyncContextInfo, breakpoint_none,
  breakpoint_execution_failed, breakpoint_async_call, breakpoint_signal_error,
  breakpoint_out_of_gas,
}
use wasm_vm_v.Hook.{BlockchainHook, Answer, found, missing, failed}
use wasm_vm_v.Engine.{Engine}
use wasm_vm_v.Fault.{add_error}
use wasm_vm_v.Metering.Points.{
  use_gas, deduct_initial_gas_for_execution, deduct_initial_gas_for_direct_deployment,
}
use wasm_vm_v.Runtime.{must_verify_next_contract_code, extract_code_upgrade_from_args}
use wasm_vm_v.Runtime.Instances.{
  start_wasmer_instance, get_sc_code, get_function_to_call, get_init_function, init_function_name,
  callback_function_name, upgrade_function_name,
}

-- `result, err`, with `none` for a nil error.
abbrev pub Result : Type 0
Result = Host × Option VmError

-- `if err != nil { return err }`, and then the rest.
abbrev pub and_then : Result → (Host → Result) → Result
and_then (h, none) rest = rest h
and_then (h, some err) rest = (h, some err)

-- `if err != nil { return other }`.
abbrev pub or_error : VmError → Result → Result
or_error other (h, none) = (h, none)
or_error other (h, some err) = (h, some other)

abbrev pub is_ok : ReturnCode → Bool
is_ok ok = true
is_ok _ = false

abbrev pub is_init_name : String → Bool
is_init_name name = same_text name init_function_name || same_text name "solidity.ctor"

unfoldable pub is_init_function_being_called : Host → Bool
is_init_function_being_called h = is_init_name h.runtime.call_function

-- `if output.ReturnCode() != vmcommon.Ok`.
unfoldable pub check_return_code : Host → Result
check_return_code h =
    (h, if is_ok h.output.output_state.return_code then none else some return_code_not_ok)

unfoldable pub verify_allowed_function_call : Host → Option VmError
verify_allowed_function_call h =
    let name = h.runtime.call_function in
    if is_init_name name
    then some init_func_called_in_run
    else (if same_text name callback_function_name
          && not (is_asynchronous_call_back h.runtime.vm_input.call_type)
        then some call_back_func_called_in_run
        else none)

unfoldable pub check_final_gas_after_exit : Host → Option VmError
check_final_gas_after_exit h =
    if h.flags.vm_v2_enabled && ltb h.metering.gas_for_execution h.runtime.points_used
    then some not_enough_gas
    else none

unfoldable pub check_gas_for_get_code : ContractCallInput → Host → Option VmError
check_gas_for_get_code call h =
    if h.flags.vm_v2_enabled
      && ltb call.gas_provided h.metering.gas_schedule.base_operation_cost.get_code
    then some not_enough_gas
    else none

-- The hashes that the running call has go into the input of the next one.
unfoldable pub copy_tx_hashes_from_context : Bool → Runtime → ContractCallInput → ContractCallInput
copy_tx_hashes_from_context false r call = call
copy_tx_hashes_from_context true r call =
    let keep : Bytes → Bytes → Bytes =
      λ current given. if is_empty current then given else current in
    record call {
      input = record call.input {
        original_tx_hash = keep r.vm_input.original_tx_hash call.original_tx_hash;
        current_tx_hash = keep r.vm_input.current_tx_hash call.current_tx_hash;
        prev_tx_hash = keep r.vm_input.prev_tx_hash call.prev_tx_hash;
      };
    }
