-- ===== src/Tests/Async.antt =====
-- Asynchronous calls of a contract on the host of the nested calls.

use wasm_vm_v.Prelude.{
  false, ℕ, ◌+◌, ◌∷◌, [], none, some, ◌⊎◌, inl, inr, ◌≡◌, ◌≤◌, ◌<◌, refl, Bytes, bytes_eq,
  bytes_equal, arith,
}
use wasm_vm_v.Errors.{VmError, not_enough_gas}
use wasm_vm_v.Output.Types.{new_vm_output, VmOutput}
use wasm_vm_v.Host.{
  Host, ContractCallInput, AsyncCallInfo, AsyncContextInfo, AsyncGeneratedCall, async_call_pending,
  breakpoint_async_call,
}
use wasm_vm_v.Engine.{Engine}
use wasm_vm_v.Overflow.{add_uint64, mul_uint64, add_uint64_with_err, mul_uint64_with_err}
use wasm_vm_v.Blockchain.{get_code, get_code_hash}
use wasm_vm_v.Output.{get_output_account}
use wasm_vm_v.Runtime.Instances.{has_callback_method, exported}
use wasm_vm_v.Async.Request.{execute_async_call, lock_gas, gas_to_lock}
use wasm_vm_v.Async.LockedGas.{
  IsWithinCaps, execute_async_call_lem, create_callback_contract_call_input_gas,
}
use wasm_vm_v.Async.Input.{callback_cost, callback_arguments, create_callback_contract_call_input}
use wasm_vm_v.Async.Modes.{can_execute_synchronously}
use wasm_vm_v.Async.Stacks.Processed.{process_async_info-Balanced}
use wasm_vm_v.Execution.Frame.{Balanced, Balanced-refl}
use wasm_vm_v.Execution.Indirect.{execute_on_dest_context}
use wasm_vm_v.Execution.Whole.{execute_on_dest_context_whole-Balanced}
use wasm_vm_v.Metering.Points.{
  gas_left, use_gas_for_async_step, use_gas, use_gas_bounded, compute_gas_locked_for_async,
}
use wasm_vm_v.Async.{Codec, Executed}
use wasm_vm_v.Async.Breakpoint.{handle_async_call_breakpoint}
use wasm_vm_v.Async.Process.{
  process_async_info, process_limited, finish_processing, process_contexts, process_one,
}
use wasm_vm_v.Async.Gas.{setup_async_calls_gas, calls_with_zero_gas, sum_needed}
use wasm_vm_v.Async.Pending.{no_info, get_pending_async_calls}
use wasm_vm_v.Async.Panics.{
  execute_on_dest_context_output, handle_async_call_breakpoint-Returns, Returns,
}
use wasm_vm_v.Async.Sent.{SentOrFailed, entry_of, handle_async_call_breakpoint_sent}
use wasm_vm_v.Engine.{is_builtin_function_name}
use wasm_vm_v.Fault.{set_runtime_breakpoint_value}
use wasm_vm_v.Execution.{Result}
use wasm_vm_v.Host.{breakpoint_none}
use wasm_vm_v.Tests.Fixtures.{hook, contract, alice}
use wasm_vm_v.Tests.Nested as N
use wasm_vm_v.Tests.Nested.{host}

-- Its data is a call of "pay".
abbrev pub engine : Engine
engine = record N.engine { parse_data = λ bytes. inr ("pay", []) }

abbrev call : AsyncCallInfo
call = record {
  destination = contract;
  content = b'p' ∷ [];
  gas_limit = 100;
  gas_locked = 51;
  value_bytes = [];
}

abbrev pub generated : Bytes → ℕ → AsyncGeneratedCall
generated destination gas = record {
  status = async_call_pending;
  destination = destination;
  content = b'p' ∷ [];
  gas_limit = 0;
  value_bytes = [];
  success_callback = "done";
  error_callback = "failed";
  provided_gas = gas;
}

abbrev pub info : AsyncContextInfo
info = record no_info {
  async_caller_addr = alice;
  async_context_map =
      (
        1 ∷ [],
        record { callback = "all"; async_calls = generated alice 300 ∷ generated contract 0 ∷ [] },
      )
      ∷ [];
}

abbrev pub codec : Codec
codec = record {
  marshal = λ i. inr (1 ∷ []);
  unmarshal = λ bytes. inr info;
  return_code_number = λ code. 0;
  return_code_text = λ code. "ok";
}

-- ExecuteOnDestContext itself, of callees without asynchronous calls.
abbrev exec : ContractCallInput → Host → Executed
exec input h =
    let (h', out, err) = execute_on_dest_context hook engine N.no_async N.no_async_info input h in
    (h', out, some no_info, err)

exec-Balanced : (input : ContractCallInput) (h : Host) → Balanced h (exec input h).0
exec-Balanced input h =
    execute_on_dest_context_whole-Balanced hook engine N.no_async N.no_async_info N.functions_lem
      (λ h'. Balanced-refl h') (λ i h'. Balanced-refl h') input h

exec_output :
    (input : ContractCallInput) (h : Host) → (out : VmOutput) × ((exec input h).1 ≡ some out)
exec_output input h = execute_on_dest_context_output hook engine N.no_async N.no_async_info input h

abbrev calling_host : Host
calling_host = record host {
  runtime = record host.runtime {
    active = record host.runtime.active { async_call_info = some call };
  };
}

handle_async_call_breakpoint-Returns_example :
    Returns (handle_async_call_breakpoint hook engine codec exec calling_host)
handle_async_call_breakpoint-Returns_example =
    handle_async_call_breakpoint-Returns hook engine codec exec exec_output calling_host call refl

-- The code of Alice is not in this shard.
abbrev sent_call : AsyncCallInfo
sent_call = record call { destination = alice; value_bytes = 7 ∷ [] }

abbrev sending_host : Host
sending_host = record host {
  runtime = record host.runtime {
    active = record host.runtime.active { async_call_info = some sent_call };
  };
}

not_builtin : is_builtin_function_name engine "pay" ≡ false
unfolding is_builtin_function_name
not_builtin = refl

elsewhere :
    (can_execute_synchronously hook alice
      (set_runtime_breakpoint_value breakpoint_none sending_host)).1
    ≡ false
unfolding can_execute_synchronously get_code get_output_account bytes_equal
    set_runtime_breakpoint_value
elsewhere = refl

handle_async_call_breakpoint_sent_example :
    (r : Result) × (handle_async_call_breakpoint hook engine codec exec sending_host ≡ some r)
    × (gas_left r.0 ≡ 0)
    × SentOrFailed (entry_of sent_call sending_host) alice r
handle_async_call_breakpoint_sent_example =
    handle_async_call_breakpoint_sent hook engine codec exec sent_call "pay" [] sending_host refl
      refl not_builtin elsewhere (omega arith, omega arith)

-- One call that leaves the shard.
abbrev one_call : AsyncContextInfo
one_call = record info {
  async_context_map =
      (1 ∷ [], record { callback = "all"; async_calls = generated alice 300 ∷ [] }) ∷ [];
}

processed :
    (r : Host × AsyncContextInfo × (VmError ⊎ AsyncContextInfo)) × (process_async_info hook engine
        codec exec one_call host
      ≡ some r)
unfolding process_async_info process_limited finish_processing process_contexts process_one
    can_execute_synchronously get_code get_code_hash get_output_account bytes_equal
    setup_async_calls_gas sum_needed calls_with_zero_gas gas_left add_uint64_with_err
    get_pending_async_calls
processed = (_, refl)

process_async_info-Balanced_example : Balanced host processed.0.0
process_async_info-Balanced_example =
    process_async_info-Balanced hook engine codec exec exec-Balanced one_call host processed.0
      processed.1

-- The step costs 10, and 10, 40 and 1 for the code of one byte are locked.
locks : (execute_async_call engine contract [] [] host).1 ≡ none
unfolding execute_async_call lock_gas use_gas_for_async_step use_gas_bounded gas_left use_gas
    has_callback_method exported gas_to_lock compute_gas_locked_for_async add_uint64 mul_uint64
    add_uint64_with_err mul_uint64_with_err
locks = refl

caps : IsWithinCaps engine host
unfolding gas_to_lock has_callback_method exported compute_gas_locked_for_async add_uint64
    mul_uint64 add_uint64_with_err mul_uint64_with_err
caps = record {
  step = ground arith;
  locked = ground arith;
  execution = ground arith;
  points = ground arith;
}

execute_async_call_example :
    (asked : AsyncCallInfo) × ((execute_async_call engine contract [] []
        host).0.runtime.async_call_info
      ≡ some asked)
    × (asked.destination ≡ contract)
    × (asked.gas_locked ≡ gas_to_lock engine host)
    × (10 + asked.gas_locked + asked.gas_limit ≡ gas_left host)
    × (0 < asked.gas_limit)
    × ((execute_async_call engine contract [] [] host).0.runtime.breakpoint ≡ breakpoint_async_call)
execute_async_call_example = execute_async_call_lem engine contract [] [] host caps locks

abbrev called_output : VmOutput
called_output = record new_vm_output { gas_remaining = 50; return_data = (7 ∷ []) ∷ [] }

create_callback_contract_call_input_example :
    let cost =
      callback_cost engine codec "back" (callback_arguments engine codec called_output none) host in
    let result =
      create_callback_contract_call_input engine codec call called_output contract "back" none
        host in
    ((result ≡ inl not_enough_gas) × (101 ≤ cost))
    ⊎ ((next : ContractCallInput) × (result ≡ inr next)
        × (next.gas_provided + cost ≡ 101)
        × (0 < next.gas_provided)
        × (next.gas_locked ≡ 0)
        × (next.recipient_addr ≡ contract))
create_callback_contract_call_input_example =
    create_callback_contract_call_input_gas engine codec call called_output contract "back" none
      host (omega arith)
