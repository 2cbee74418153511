-- ===== src/Errors.antt =====
-- The errors of vmhost/errors.go that the modelled code raises or tests, with Go's wrapping.
use Prim.Native.String.{String}
use wasm_vm_v.Prelude.{ℕ, Bool, false, Option, none, some, ◌||◌, ◌==◌, if◌then◌else◌}

pub data VmError : Type 0 where
  signal_error not_enough_gas execution_failed : VmError
  bad_bounds bad_lower_bounds bad_upper_bounds negative_length : VmError
  failed_transfer transfer_insufficient_funds transfer_negative_value : VmError
  account_not_payable upgrade_failed invalid_upgrade_arguments : VmError
  invalid_function func_not_found function_nonvoid_signature : VmError
  contract_invalid contract_not_found memory_declaration_missing : VmError
  store_reserved_key cannot_write_protected_key : VmError
  arg_index_out_of_range arg_out_of_range storage_value_out_of_range : VmError
  non_payable_function_egld non_payable_function_esdt : VmError
  div_zero bitwise_negative shift_negative : VmError
  invalid_account gas_does_not_match : VmError
  return_code_not_ok invalid_call_on_read_only_mode unhandled_runtime_breakpoint : VmError
  init_func_called_in_run call_back_func_called_in_run invalid_function_name : VmError
  max_instances_reached async_context_does_not_exist nil_callback_function : VmError
  deployment_over_existing_account upgrade_not_allowed nil_contract : VmError
  builtin_call_on_same_context_disallowed call_back_func_not_expected : VmError
  addition_overflow : VmError
  -- `fmt.Errorf("mem load: %w", err)` of MemLoad.
  mem_load_bad_bounds mem_load_negative_length : VmError
  -- `errors.New` and `fmt.Errorf` with a text of their own, and errors of the blockchain hook.
  custom : String → VmError

-- The error inside `fmt.Errorf("%w ...", err)`.
abbrev pub unwrap : VmError → Option VmError
unwrap bad_lower_bounds = some bad_bounds
unwrap bad_upper_bounds = some bad_bounds
unwrap transfer_insufficient_funds = some failed_transfer
unwrap transfer_negative_value = some failed_transfer
unwrap invalid_upgrade_arguments = some upgrade_failed
unwrap func_not_found = some invalid_function
unwrap function_nonvoid_signature = some invalid_function
unwrap contract_not_found = some contract_invalid
unwrap memory_declaration_missing = some contract_invalid
unwrap init_func_called_in_run = some invalid_function
unwrap call_back_func_called_in_run = some invalid_function
unwrap invalid_function_name = some invalid_function
unwrap call_back_func_not_expected = some invalid_function
unwrap max_instances_reached = some execution_failed
unwrap mem_load_bad_bounds = some bad_bounds
unwrap mem_load_negative_length = some negative_length
unwrap _ = none

-- The text of `err.Error()`.
unfoldable pub error_message : VmError → String
error_message signal_error = "error signalled by smartcontract"
error_message not_enough_gas = "not enough gas"
error_message execution_failed = "execution failed"
error_message bad_bounds = "bad bounds"
error_message bad_lower_bounds = "bad bounds (lower)"
error_message bad_upper_bounds = "bad bounds (upper)"
error_message negative_length = "negative length"
error_message failed_transfer = "failed transfer"
error_message transfer_insufficient_funds = "failed transfer (insufficient funds)"
error_message transfer_negative_value = "failed transfer (negative value)"
error_message account_not_payable = "sending value to non payable contract"
error_message upgrade_failed = "upgrade failed"
error_message invalid_upgrade_arguments = "upgrade failed (invalid arguments)"
error_message invalid_function = "invalid function"
error_message func_not_found = "invalid function (not found)"
error_message function_nonvoid_signature = "invalid function (nonvoid signature)"
error_message contract_invalid = "invalid contract code"
error_message contract_not_found = "invalid contract code (not found)"
error_message memory_declaration_missing = "invalid contract code (missing memory declaration)"
error_message store_reserved_key = "cannot write to storage under reserved key"
error_message cannot_write_protected_key = "cannot write to protected key"
error_message arg_index_out_of_range = "argument index out of range"
error_message arg_out_of_range = "argument out of range"
error_message storage_value_out_of_range = "storage value out of range"
error_message non_payable_function_egld = "function does not accept EGLD payment"
error_message non_payable_function_esdt = "function does not accept ESDT payment"
error_message div_zero = "division by 0"
error_message bitwise_negative = "bitwise operations only allowed on positive integers"
error_message shift_negative =
    "bitwise shift operations only allowed on positive integers and by a positive amount"
error_message invalid_account = "account does not exist"
error_message gas_does_not_match = "input and output gas does not match"
error_message return_code_not_ok = "return code is not ok"
error_message invalid_call_on_read_only_mode = "operation not permitted in read only mode"
error_message unhandled_runtime_breakpoint = "unhandled runtime breakpoint"
error_message init_func_called_in_run = "invalid function (calling init() directly is forbidden)"
error_message call_back_func_called_in_run =
    "invalid function (calling callBack() directly is forbidden)"
error_message invalid_function_name = "invalid function (invalid name)"
error_message max_instances_reached = "execution failed (max instances reached)"
error_message async_context_does_not_exist = "async context does not exist"
error_message nil_callback_function = "nil callback function"
error_message deployment_over_existing_account = "cannot deploy over existing account"
error_message upgrade_not_allowed = "upgrade not allowed"
error_message nil_contract = "nil contract"
error_message builtin_call_on_same_context_disallowed =
    "calling built-in function on the same context is disallowed"
error_message call_back_func_not_expected = "invalid function (unexpected callback was received)"
error_message addition_overflow = "addition overflow"
error_message mem_load_bad_bounds = "mem load: bad bounds"
error_message mem_load_negative_length = "mem load: negative length"
error_message (custom text) = text

-- The return codes of a contract execution that the VM sets.
pub data ReturnCode : Type 0 where
  ok user_error function_not_found function_wrong_signature : ReturnCode
  out_of_gas contract_not_found contract_invalid upgrade_failed out_of_funds : ReturnCode
  execution_failed : ReturnCode

-- A code for each sentinel that the code tests for, and 0 for the other errors.
abbrev pub tag : VmError → ℕ
tag signal_error = 1
tag not_enough_gas = 2
tag invalid_function = 3
tag func_not_found = 4
tag function_nonvoid_signature = 5
tag contract_invalid = 6
tag contract_not_found = 7
tag upgrade_failed = 8
tag transfer_insufficient_funds = 9
tag nil_callback_function = 10
tag _ = 0

-- `errors.Is(err, target)` for the sentinels that the code tests for: the error or the one that it
-- wraps (no error of the list wraps twice).
abbrev pub errors_is : VmError → VmError → Bool
errors_is err target =
    (tag err == tag target)
    || elim (unwrap err) [ none ↦ false | some inner ↦ tag inner == tag target ]

-- resolveReturnCodeFromError of vmhost/contexts/output.go; the order of the tests matters, since a
-- wrapped error matches the error inside it too.
unfoldable pub resolve_return_code_from_error : Option VmError → ReturnCode
resolve_return_code_from_error none = ok
resolve_return_code_from_error (some err) =
    if errors_is err signal_error
    then user_error
    else (if errors_is err func_not_found
        then function_not_found
        else (if errors_is err function_nonvoid_signature
            then function_wrong_signature
            else (if errors_is err invalid_function
                then user_error
                else (if errors_is err not_enough_gas
                    then out_of_gas
                    else (if errors_is err contract_not_found
                        then contract_not_found
                        else (if errors_is err contract_invalid
                            then contract_invalid
                            else (if errors_is err upgrade_failed
                                then upgrade_failed
                                else (if errors_is err transfer_insufficient_funds
                                    then out_of_funds
                                    else execution_failed))))))))
