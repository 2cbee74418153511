-- ===== src/FinalOutput.antt =====
-- The output that an execution returns: GetVMOutput and CreateVMOutputInCaseOfError of
-- vmhost/contexts/output.go.
pub mod Outcome
use Prim.Native.String.{String, len}
use wasm_vm_v.Prelude.{
  ℕ, Bool, true, false, Option, none, some, List, [], ◌∷◌, Bytes, bytes_eq, ◌==◌, if◌then◌else◌,
}
use wasm_vm_v.Prelude.Map.{Map, contains}
use wasm_vm_v.Prelude.Int.{pos}
use wasm_vm_v.Errors.{
  VmError, signal_error, error_message, errors_is, resolve_return_code_from_error,
}
use wasm_vm_v.Output.Types.{OutputAccount, VmOutput}
use wasm_vm_v.Host.{Host}
use wasm_vm_v.Metering.Points.{gas_left}
use wasm_vm_v.Metering.Account.{update_gas_state_on_success, update_gas_state_on_failure}
use wasm_vm_v.Fault.{add_error}

-- The loop of removeNonUpdatedCode.
unfoldable pub keep_updated_code :
    Map Bytes (Unit {0}) → Map Bytes OutputAccount → Map Bytes OutputAccount
keep_updated_code updates [] = []
keep_updated_code updates ((addr, account) ∷ accounts) =
    let rest = keep_updated_code updates accounts in
    if contains addr updates
    then (addr, account) ∷ rest
    else (addr, record account { code = []; code_metadata = []; code_deployer_address = none })
      ∷ rest

unfoldable pub remove_non_updated_code : Host → Host
unfolding keep_updated_code
remove_non_updated_code h = record h {
  output = record h.output {
    output_state = record h.output.output_state {
      output_accounts =
          keep_updated_code h.output.code_updates h.output.output_state.output_accounts;
    };
  };
}

-- `len(message) > 0`.
abbrev is_empty_text : String → Bool
is_empty_text text = len text == 0

-- The message of a signalled error, or one that was set before, goes before that of the error.
unfoldable pub failure_message : VmError → String → String
failure_message err current =
    if errors_is err signal_error
    then current
    else (if is_empty_text current then error_message err else current)

unfoldable pub create_vm_output_in_case_of_error : VmError → Host → Host × VmOutput
unfolding failure_message
create_vm_output_in_case_of_error err h =
    let h1 = add_error (some err) (h.runtime.call_function ∷ []) h in
    (
      update_gas_state_on_failure h1,
      record {
        return_data = [];
        return_code = resolve_return_code_from_error (some err);
        return_message = failure_message err h1.output.output_state.return_message;
        gas_remaining = 0;
        gas_refund = some (pos 0);
        output_accounts = [];
        logs = [];
      },
    )

unfoldable pub get_vm_output : Host → Host × VmOutput
get_vm_output h =
    let h1 = remove_non_updated_code h in
    let h2 = record h1 {
      output = record h1.output {
        output_state = record h1.output.output_state { gas_remaining = gas_left h1 };
      };
    } in
    let (h3, err) = update_gas_state_on_success h2 in
    elim err [
      | none ↦ (h3, h3.output.output_state)
      | some e ↦ create_vm_output_in_case_of_error e h3
    ]
