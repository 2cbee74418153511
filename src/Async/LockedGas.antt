-- ===== src/Async/LockedGas.antt =====
-- The gas of an asynchronous call and of its call-back: ExecuteAsyncCall of
-- vmhost/contexts/runtime.go and createCallbackContractCallInput of vmhost/hostCore/asyncCall.go.
use Prim.Native.String.{String}
use wasm_vm_v.Prelude.{
  ℕ, ◌+◌, ◌^◌, ◌≤◌, ◌<◌, ◌≡◌, refl, ap, ◌⊎◌, inl, inr, Option, none, some, Bytes, arith, Sum-cases,
}
use wasm_vm_v.Errors.{VmError, not_enough_gas}
use wasm_vm_v.Overflow.{max_int64}
use wasm_vm_v.Output.Types.{VmOutput}
use wasm_vm_v.Host.{Host, ContractCallInput, AsyncCallInfo, breakpoint_async_call}
use wasm_vm_v.Engine.{Engine}
use wasm_vm_v.Fault.{set_runtime_breakpoint_value}
use wasm_vm_v.Metering.Gas.{PointsAreCapped, use_gas_bounded_lem}
use wasm_vm_v.Metering.Points.{
  compute_gas_locked_for_async, gas_left, use_gas_for_async_step, use_gas, use_gas_bounded,
}
use wasm_vm_v.Runtime.Instances.{exported, has_callback_method}
use wasm_vm_v.Runtime.{set_async_call_info}
use wasm_vm_v.Execution.{Result}
use wasm_vm_v.Async.{Codec}
use wasm_vm_v.Async.Request.{gas_to_lock, lock_gas, execute_async_call}
use wasm_vm_v.Async.Input.{callback_cost, callback_arguments, create_callback_contract_call_input}

-- The input of a call-back is refused exactly if the gas that the call has left, with the gas
-- locked for it, is not more than the cost of its data. Otherwise the cost is taken from that gas,
-- and the call-back has the rest, which is not 0, in the contract that made the call. (The two
-- amounts of gas fit into a uint64 together.)
pub create_callback_contract_call_input_gas :
    (engine : Engine) (codec : Codec) (call : AsyncCallInfo) (out : VmOutput) (initiator : Bytes)
    (callback : String) (err : Option VmError) (h : Host)
    → out.gas_remaining + call.gas_locked < 2 ^ 64
    → let gas = out.gas_remaining + call.gas_locked in
      let cost = callback_cost engine codec callback (callback_arguments engine codec out err) h in
      let result =
        create_callback_contract_call_input engine codec call out initiator callback err h in
      ((result ≡ inl not_enough_gas) × (gas ≤ cost))
      ⊎ ((next : ContractCallInput) × (result ≡ inr next)
          × (next.gas_provided + cost ≡ gas)
          × (0 < next.gas_provided)
          × (next.gas_locked ≡ 0)
          × (next.recipient_addr ≡ h.runtime.sc_address))
unfolding create_callback_contract_call_input
create_callback_contract_call_input_gas engine codec call out initiator callback err h fits =
    elim (Sum-cases
      (create_callback_contract_call_input engine codec call out initiator callback err h)) [
        | inl (e, refused) ↦ inl (ground (arith, refused), ground (arith, refused))
        | inr (next, made) ↦ inr (
          next,
          made,
          ground (arith, made),
          ground (arith, made),
          ground (arith, made),
          ground (arith, made),
        )
      ]

-- The amounts that ExecuteAsyncCall charges and locks are uint64, and the points used and the gas
-- for the execution are at most the cap on the points.
pub record IsWithinCaps (engine : Engine) (h : Host) : Type 0 where
  pub step : h.metering.gas_schedule.base_ops_api_cost.async_call_step < 2 ^ 64
  pub locked : gas_to_lock engine h < 2 ^ 64
  pub execution : h.metering.gas_for_execution ≤ max_int64
  pub points : PointsAreCapped h

gas_to_lock-use_gas :
    (engine : Engine) (gas : ℕ) (h : Host)
    → gas_to_lock engine (use_gas gas h) ≡ gas_to_lock engine h
unfolding gas_to_lock has_callback_method exported compute_gas_locked_for_async use_gas
gas_to_lock-use_gas engine gas h = refl

-- What a charge leaves that succeeds.
charged :
    (gas : ℕ) (h : Host)
    → gas < 2 ^ 64
    → h.metering.gas_for_execution ≤ max_int64
    → PointsAreCapped h
    → (use_gas_bounded gas h).1 ≡ none
    → (use_gas_bounded gas h ≡ (use_gas gas h, none))
      × (gas_left (use_gas gas h) + gas ≡ gas_left h)
      × (0 < gas_left (use_gas gas h))
      × ((use_gas gas h).metering ≡ h.metering)
      × PointsAreCapped (use_gas gas h)
unfolding use_gas_bounded use_gas
charged gas h small fits cap done = ground (arith, use_gas_bounded_lem gas h small fits cap)

lock_gas_lem :
    (engine : Engine) (h : Host)
    → gas_to_lock engine h < 2 ^ 64
    → h.metering.gas_for_execution ≤ max_int64
    → PointsAreCapped h
    → 0 < gas_left h
    → (lock_gas engine h).1 ≡ none
    → (gas_left (lock_gas engine h).0 + gas_to_lock engine h ≡ gas_left h)
      × (0 < gas_left (lock_gas engine h).0)
unfolding lock_gas gas_to_lock
lock_gas_lem engine h small fits cap some_left done =
    ground (arith, charged (compute_gas_locked_for_async h) h)

async_step_lem :
    (engine : Engine) (addr content value : Bytes) (h : Host)
    → IsWithinCaps engine h
    → (execute_async_call engine addr content value h).1 ≡ none
    → let cost = h.metering.gas_schedule.base_ops_api_cost.async_call_step in
      (use_gas_for_async_step h ≡ (use_gas cost h, none))
      × ((lock_gas engine (use_gas cost h)).1 ≡ none)
unfolding execute_async_call use_gas_for_async_step
async_step_lem engine addr content value h caps done =
    let cost = h.metering.gas_schedule.base_ops_api_cost.async_call_step in
    ground (arith, charged cost h caps.step caps.execution caps.points)

-- ExecuteAsyncCall that succeeds splits the gas left of the contract into three: the cost of the
-- step, the gas that it locks for the call-back, and the gas limit of the call, which is not 0; the
-- contract then stops at the breakpoint of an asynchronous call to the destination that it has
-- asked for.
pub execute_async_call_lem :
    (engine : Engine) (addr content value : Bytes) (h : Host)
    → IsWithinCaps engine h
    → (execute_async_call engine addr content value h).1 ≡ none
    → let h' = (execute_async_call engine addr content value h).0 in
      (call : AsyncCallInfo) × (h'.runtime.async_call_info ≡ some call)
      × (call.destination ≡ addr)
      × (call.gas_locked ≡ gas_to_lock engine h)
      × (h.metering.gas_schedule.base_ops_api_cost.async_call_step + call.gas_locked
            + call.gas_limit
          ≡ gas_left h)
      × (0 < call.gas_limit)
      × (h'.runtime.breakpoint ≡ breakpoint_async_call)
unfolding execute_async_call set_runtime_breakpoint_value set_async_call_info use_gas_for_async_step
execute_async_call_lem engine addr content value h caps done =
    let cost = h.metering.gas_schedule.base_ops_api_cost.async_call_step in
    let h1 = use_gas cost h in
    let (stepped, locked) = async_step_lem engine addr content value h caps done in
    let first =
      charged cost h caps.step caps.execution caps.points (ap (λ (r : Result). r.1) stepped) in
    let same = gas_to_lock-use_gas engine cost h in
    let second =
      lock_gas_lem engine h1 (ground (arith, same)) (ground (arith, first)) (ground (arith, first))
        (ground (arith, first)) locked in
    let made : (execute_async_call engine addr content value h).0.runtime.async_call_info
        ≡ some (record {
          destination = addr;
          content = content;
          gas_limit = gas_left (lock_gas engine h1).0;
          gas_locked = gas_to_lock engine h1;
          value_bytes = value;
        }) =
      ground (arith, stepped, locked) in
    (
      _,
      made,
      refl,
      same,
      ground (arith, first, second, same),
      ground (arith, second),
      ground (arith, stepped, locked),
    )
