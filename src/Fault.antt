-- ===== src/Fault.antt =====
-- How an error of an API call stops the execution: WithFaultAndHost of vmhost/helpers.go, and
-- FailExecution, SignalUserError and AddError of vmhost/contexts/runtime.go.
use Prim.Native.String.{String}
use wasm_vm_v.Prelude.{Bool, true, false, Option, none, some, List, [], ◌∷◌, ◌++◌, if◌then◌else◌}
use wasm_vm_v.Errors.{VmError, ReturnCode, custom, error_message, execution_failed, user_error}
use wasm_vm_v.Output.{set_return_code, set_return_message}
use wasm_vm_v.Host.{Host, Breakpoint, breakpoint_signal_error, breakpoint_execution_failed}
use wasm_vm_v.Metering.Points.{use_gas, gas_left}

-- The list of the wrapped errors grows at its end.
unfoldable pub add_error : Option VmError → List String → Host → Host
add_error none info h = h
add_error (some err) info h = record h {
  runtime = record h.runtime { errors = h.runtime.errors ++ (err, info) ∷ [] };
}

unfoldable pub set_runtime_breakpoint_value : Breakpoint → Host → Host
set_runtime_breakpoint_value value h = record h {
  runtime = record h.runtime { instance = record h.runtime.instance { breakpoint = value } };
}

abbrev pub return_with : ReturnCode → String → Host → Host
return_with code message h = record h {
  output = set_return_message message (set_return_code code h.output);
}

unfoldable pub fail_execution : Option VmError → Host → Host
fail_execution err h =
    let error : VmError = elim err [ none ↦ custom "execution failed" | some e ↦ e ] in
    set_runtime_breakpoint_value breakpoint_execution_failed
      (add_error (some error) [] (return_with execution_failed (error_message error) h))

unfoldable pub signal_user_error : String → Host → Host
signal_user_error message h =
    add_error (some (custom message)) []
      (set_runtime_breakpoint_value breakpoint_signal_error (return_with user_error message h))

-- The result tells whether there was an error.
unfoldable pub with_fault : Option VmError → Bool → Host → Host × Bool
with_fault none fail h = (h, false)
with_fault (some err) fail h =
    (if fail then fail_execution (some err) (use_gas (gas_left h) h) else h, true)
