-- ===== src/Async/Gas.antt =====
-- setupAsyncCallsGas: the gas of the calls of the asynchronous contexts. What it has written before
-- it fails is left out, since nothing reads it.
pub mod Shares
use wasm_vm_v.Prelude.{
  ℕ, ◌+◌, ◌-◌, ◌/◌, ◌⊎◌, inl, inr, List, [], ◌∷◌, ◌++◌, Bytes, ltb, leb, ◌==◌, if◌then◌else◌,
}
use wasm_vm_v.Prelude.Map.{Map}
use wasm_vm_v.Errors.{VmError, not_enough_gas, addition_overflow}
use wasm_vm_v.Overflow.{add_uint64_with_err}
use wasm_vm_v.Host.{Host, AsyncContext, AsyncContextInfo, AsyncGeneratedCall}
use wasm_vm_v.Metering.Points.{gas_left}

-- The calls in the order of the two loops.
abbrev pub all_calls : Map Bytes AsyncContext → List AsyncGeneratedCall
all_calls [] = []
all_calls ((identifier, context) ∷ contexts) = context.async_calls ++ all_calls contexts

abbrev pub map_calls :
    (AsyncGeneratedCall → AsyncGeneratedCall) → List AsyncGeneratedCall → List AsyncGeneratedCall
map_calls f [] = []
map_calls f (call ∷ calls) = f call ∷ map_calls f calls

abbrev pub map_contexts :
    (AsyncGeneratedCall → AsyncGeneratedCall) → Map Bytes AsyncContext → Map Bytes AsyncContext
map_contexts f [] = []
map_contexts f ((identifier, context) ∷ contexts) =
    (identifier, record context { async_calls = map_calls f context.async_calls })
    ∷ map_contexts f contexts

-- The gas that the calls ask for, on top of `needed`.
unfoldable pub sum_needed : ℕ → ℕ → List AsyncGeneratedCall → VmError ⊎ ℕ
sum_needed left needed [] = inr needed
sum_needed left needed (call ∷ calls) =
    let sum = add_uint64_with_err needed call.provided_gas in
    let rest = sum_needed left sum.value calls in
    if sum.failed
    then inl addition_overflow
    else (if ltb left sum.value then inl not_enough_gas else rest)

unfoldable pub calls_with_zero_gas : List AsyncGeneratedCall → ℕ
calls_with_zero_gas [] = 0
calls_with_zero_gas (call ∷ calls) =
    if call.provided_gas == 0 then 1 + calls_with_zero_gas calls else calls_with_zero_gas calls

-- What the call asks for, or its share of the rest.
abbrev pub with_limit : ℕ → AsyncGeneratedCall → AsyncGeneratedCall
with_limit share call = record call {
  gas_limit = if call.provided_gas == 0 then share else call.provided_gas;
}

abbrev pub with_limits : ℕ → AsyncContextInfo → AsyncContextInfo
with_limits share info = record info {
  async_context_map = map_contexts (with_limit share) info.async_context_map;
}

unfoldable pub setup_async_calls_gas : AsyncContextInfo → Host → VmError ⊎ AsyncContextInfo
setup_async_calls_gas info h =
    let calls = all_calls info.async_context_map in
    let left = gas_left h in
    let zeros = calls_with_zero_gas calls in
    elim (sum_needed left 0 calls) [
      | inl err ↦ inl err
      | inr needed ↦
          if zeros == 0
          then inr (with_limits 0 info)
          else (if leb left needed
              then inl not_enough_gas
              else inr (with_limits ((left - needed) / zeros) info))
    ]
