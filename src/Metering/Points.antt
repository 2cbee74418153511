-- ===== src/Metering/Points.antt =====
-- Gas points and initial costs of vmhost/contexts/metering.go. A result of type `Option VmError` is
-- Go's `error`, `none` for nil.
use wasm_vm_v.Prelude.{ℕ, ◌-◌, ◌^◌, Option, none, some, Bytes, length, ltb, leb, if◌then◌else◌}
use wasm_vm_v.Prelude.Int.{ℤ}
use wasm_vm_v.Errors.{VmError, not_enough_gas}
use wasm_vm_v.Overflow.{add_uint64, sub_uint64, mul_uint64, max_int64, to_bits}
use wasm_vm_v.Output.{get_refund, set_refund}
use wasm_vm_v.Host.{Host}

-- SetPointsUsed and GetPointsUsed of vmhost/contexts/runtime.go.
unfoldable pub set_points_used : ℕ → Host → Host
set_points_used points h = record h {
  runtime = record h.runtime {
    instance = record h.runtime.instance {
      points_used = if ltb max_int64 points then max_int64 else points;
    };
  };
}

unfoldable pub use_gas : ℕ → Host → Host
unfolding set_points_used
use_gas gas h = set_points_used (add_uint64 h.runtime.points_used gas) h

unfoldable pub restore_gas : ℕ → Host → Host
unfolding set_points_used
restore_gas gas h =
    if leb gas h.runtime.points_used
    then set_points_used (sub_uint64 h.runtime.points_used gas) h
    else h

unfoldable pub free_gas : ℕ → Host → Host
free_gas gas h = record h { output = set_refund (add_uint64 (get_refund h.output) gas) h.output }

unfoldable pub gas_left : Host → ℕ
gas_left h =
    if ltb h.metering.gas_for_execution h.runtime.points_used
    then 0
    else h.metering.gas_for_execution - h.runtime.points_used

unfoldable pub gas_spent_by_contract : Host → ℕ
gas_spent_by_contract h =
    add_uint64 (if h.flags.vm_v2_enabled then h.metering.initial_cost else 0) h.runtime.points_used

unfoldable pub gas_used_for_execution : Host → ℕ
unfolding gas_spent_by_contract
gas_used_for_execution h = sub_uint64 (gas_spent_by_contract h) h.metering.initial_cost

-- `value` is an int64, which Go converts to a uint64.
unfoldable pub bound_gas_limit : ℤ → Host → ℕ
unfolding gas_left
bound_gas_limit value h =
    let limit = to_bits (2 ^ 64) value in if ltb (gas_left h) limit then gas_left h else limit

unfoldable pub use_gas_bounded : ℕ → Host → Host × Option VmError
unfolding gas_left use_gas
use_gas_bounded gas h =
    if leb (gas_left h) gas then (h, some not_enough_gas) else (use_gas gas h, none)

unfoldable pub use_gas_for_async_step : Host → Host × Option VmError
unfolding use_gas_bounded
use_gas_for_async_step h =
    use_gas_bounded h.metering.gas_schedule.base_ops_api_cost.async_call_step h

unfoldable pub compute_gas_locked_for_async : Host → ℕ
compute_gas_locked_for_async h =
    let base = h.metering.gas_schedule.base_operation_cost in
    let api = h.metering.gas_schedule.base_ops_api_cost in
    let cost_per_byte =
      if h.flags.ahead_of_time_compile_enabled
      then base.aot_prepare_per_byte
      else base.compile_per_byte in
    let compilation_gas_lock =
      if h.flags.dynamic_gas_locking_enabled
      then mul_uint64 h.runtime.code_size cost_per_byte
      else 0 in
    add_uint64 compilation_gas_lock (add_uint64 api.async_call_step api.async_callback_gas_lock)

unfoldable pub deduct_initial_gas : Bytes → ℕ → ℕ → Host → Host × Option VmError
deduct_initial_gas code base_cost cost_per_byte h =
    let code_cost = mul_uint64 (length code) cost_per_byte in
    let initial_cost = add_uint64 base_cost code_cost in
    let provided = h.runtime.vm_input.gas_provided in
    if ltb provided initial_cost then (h, some not_enough_gas) else (
      record h {
        metering = record h.metering {
          active = record h.metering.active {
            initial_cost = initial_cost;
            gas_for_execution = provided - initial_cost;
          };
        };
      },
      none,
    )

unfoldable pub deduct_initial_gas_for_execution : Bytes → Host → Host × Option VmError
unfolding deduct_initial_gas
deduct_initial_gas_for_execution contract h =
    let base = h.metering.gas_schedule.base_operation_cost in
    if h.flags.ahead_of_time_compile_enabled
    then deduct_initial_gas contract base.get_code base.aot_prepare_per_byte h
    else deduct_initial_gas contract 0 base.compile_per_byte h

unfoldable pub deduct_initial_gas_for_direct_deployment : Bytes → Host → Host × Option VmError
unfolding deduct_initial_gas
deduct_initial_gas_for_direct_deployment code h =
    deduct_initial_gas code h.metering.gas_schedule.base_ops_api_cost.create_contract
      h.metering.gas_schedule.base_operation_cost.compile_per_byte h

unfoldable pub deduct_initial_gas_for_indirect_deployment : Bytes → Host → Host × Option VmError
unfolding deduct_initial_gas
deduct_initial_gas_for_indirect_deployment code h =
    deduct_initial_gas code 0 h.metering.gas_schedule.base_operation_cost.compile_per_byte h

-- `post_builtin_gas` is the gas that the input of a follow-up execution reserves, if there is one.
unfoldable pub track_gas_used_by_builtin_function : ℕ → ℕ → Option ℕ → Host → Host
unfolding use_gas
track_gas_used_by_builtin_function provided remaining post_builtin_gas h =
    let gas_used = sub_uint64 provided remaining in
    use_gas (elim post_builtin_gas [ none ↦ gas_used | some post ↦ sub_uint64 gas_used post ]) h
