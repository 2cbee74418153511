-- ===== src/Async/Gas/Shares.antt =====
-- The gas limits that setupAsyncCallsGas of vmhost/hostCore/asyncCall.go hands out.
use wasm_vm_v.Prelude.{
  ℕ, ap, ◌+◌, ◌-◌, ◌*◌, ◌/◌, ◌^◌, ◌≤◌, ◌<◌, ◌≡◌, ◌∙◌, refl, ◌⊎◌, inl, inr, List, [], ◌∷◌, ◌++◌,
  Bytes, arith, Sum-cases, Bool-cases, ◌==◌, ◌≢◌, ◌↔◌, leb,
}
use wasm_vm_v.Prelude.Map.{Map}
use wasm_vm_v.Overflow.{add_uint64_with_err}
use wasm_vm_v.Host.{Host, AsyncContext, AsyncContextInfo, AsyncGeneratedCall}
use wasm_vm_v.Metering.Points.{gas_left}
use wasm_vm_v.Async.Gas.{
  all_calls, map_calls, map_contexts, sum_needed, calls_with_zero_gas, with_limit, with_limits,
  setup_async_calls_gas,
}

-- The gas that the calls ask for, and the gas that they have got.
unfoldable pub sum_provided : List AsyncGeneratedCall → ℕ
sum_provided [] = 0
sum_provided (call ∷ calls) = call.provided_gas + sum_provided calls

unfoldable pub sum_limits : List AsyncGeneratedCall → ℕ
sum_limits [] = 0
sum_limits (call ∷ calls) = call.gas_limit + sum_limits calls

-- The calls ask for uint64 amounts.
abbrev pub AreUint64 : List AsyncGeneratedCall → Type 0
AreUint64 [] = Unit
AreUint64 (call ∷ calls) = (call.provided_gas < 2 ^ 64) × AreUint64 calls

map_calls-append :
    (f : AsyncGeneratedCall → AsyncGeneratedCall) (xs ys : List AsyncGeneratedCall)
    → map_calls f (xs ++ ys) ≡ map_calls f xs ++ map_calls f ys
map_calls-append f [] ys = refl
map_calls-append f (x ∷ xs) ys = cc (map_calls-append f xs ys)

all_calls-map_contexts :
    (f : AsyncGeneratedCall → AsyncGeneratedCall) (contexts : Map Bytes AsyncContext)
    → all_calls (map_contexts f contexts) ≡ map_calls f (all_calls contexts)
all_calls-map_contexts f [] = refl
all_calls-map_contexts f ((identifier, context) ∷ contexts) =
    cc (
      all_calls-map_contexts f contexts,
      map_calls-append f context.async_calls (all_calls contexts),
    )

one_more : (z share : ℕ) → (1 + z) * share ≡ share + z * share
one_more z share = grind arith

sum_limits-with_limit :
    (share : ℕ) (calls : List AsyncGeneratedCall)
    → sum_limits (map_calls (with_limit share) calls)
      ≡ sum_provided calls + calls_with_zero_gas calls * share
unfolding sum_limits sum_provided calls_with_zero_gas
sum_limits-with_limit share [] = grind arith
sum_limits-with_limit share (call ∷ calls) =
    ground (arith, sum_limits-with_limit share calls, one_more (calls_with_zero_gas calls) share)

add_uint64_with_err_lem :
    (a b : ℕ)
    → a < 2 ^ 64
    → b < 2 ^ 64
    → ((add_uint64_with_err a b).failed ≡ leb (2 ^ 64) (a + b))
      × (a + b < 2 ^ 64 → (add_uint64_with_err a b).value ≡ a + b)
unfolding add_uint64_with_err
add_uint64_with_err_lem a b small_a small_b = (ground arith, ground arith)

-- The sum is within the gas that is left, and is found if it is.
sum_needed_sound :
    (left needed : ℕ) (calls : List AsyncGeneratedCall) (n : ℕ)
    → AreUint64 calls
    → left < 2 ^ 64
    → needed ≤ left
    → sum_needed left needed calls ≡ inr n
    → (n ≡ needed + sum_provided calls) × (n ≤ left)
unfolding sum_needed sum_provided
sum_needed_sound left needed [] n uint64 small within found = ground arith
sum_needed_sound left needed (call ∷ calls) n uint64 small within found =
    let sum = add_uint64_with_err needed call.provided_gas in
    ground (
      arith,
      add_uint64_with_err_lem needed call.provided_gas,
      sum_needed_sound left sum.value calls n uint64.1 small,
    )

sum_needed_complete :
    (left needed : ℕ) (calls : List AsyncGeneratedCall)
    → AreUint64 calls
    → left < 2 ^ 64
    → needed + sum_provided calls ≤ left
    → sum_needed left needed calls ≡ inr (needed + sum_provided calls)
unfolding sum_needed sum_provided
sum_needed_complete left needed [] uint64 small within = ground arith
sum_needed_complete left needed (call ∷ calls) uint64 small within =
    let sum = add_uint64_with_err needed call.provided_gas in
    ground (
      arith,
      add_uint64_with_err_lem needed call.provided_gas,
      sum_needed_complete left sum.value calls uint64.1 small,
    )

-- Equal shares leave less than one unit for each of them.
share_bounds : (gas n : ℕ) → n ≢ 0 → (n * (gas / n) ≤ gas) × (gas < n * (gas / n) + n)
share_bounds gas n some_share = grind arith

-- The share of the calls that ask for no gas.
found_share :
    (info info' : AsyncContextInfo) (h : Host)
    → AreUint64 (all_calls info.async_context_map)
    → gas_left h < 2 ^ 64
    → setup_async_calls_gas info h ≡ inr info'
    → let calls = all_calls info.async_context_map in
      (share : ℕ) × (info' ≡ with_limits share info)
      × (sum_provided calls ≤ gas_left h)
      × ((calls_with_zero_gas calls ≡ 0)
          ⊎ ((calls_with_zero_gas calls ≢ 0)
              × (sum_provided calls < gas_left h)
              × (share ≡ (gas_left h - sum_provided calls) / calls_with_zero_gas calls)))
unfolding setup_async_calls_gas
found_share info info' h uint64 small found =
    let calls = all_calls info.async_context_map in
    let zeros = calls_with_zero_gas calls in
    elim (Sum-cases (sum_needed (gas_left h) 0 calls)) [
      | inl (e, bad) ↦ absurd (ground (arith, bad))
      | inr (n, good) ↦
          let sum = sum_needed_sound (gas_left h) 0 calls n uint64 small (omega arith) good in
          elim (Bool-cases (zeros == 0)) [
            | inl no_zero ↦ (0, ground (arith, good), ground (arith, sum), inl (ground arith))
            | inr some_zero ↦ (
              (gas_left h - sum_provided calls) / zeros,
              ground (arith, good, sum),
              ground (arith, sum),
              inr (ground arith, ground (arith, good, sum), refl),
            )
          ]
    ]

-- Where setupAsyncCallsGas succeeds, no two calls share their gas: together they have got at most
-- the gas that is left. A call has what it asks for, or the common share if it asks for nothing,
-- and if there are such calls, then less gas than their number is not given to any call.
pub setup_async_calls_gas_lem :
    (info info' : AsyncContextInfo) (h : Host)
    → AreUint64 (all_calls info.async_context_map)
    → gas_left h < 2 ^ 64
    → setup_async_calls_gas info h ≡ inr info'
    → let zeros = calls_with_zero_gas (all_calls info.async_context_map) in
      let given = sum_limits (all_calls info'.async_context_map) in
      (given ≤ gas_left h)
      × ((share : ℕ) × (info' ≡ with_limits share info))
      × (zeros ≢ 0 → gas_left h < given + zeros)
setup_async_calls_gas_lem info info' h uint64 small found =
    let calls = all_calls info.async_context_map in
    let zeros = calls_with_zero_gas calls in
    let (share, limited, within, chosen) = found_share info info' h uint64 small found in
    let given : sum_limits (all_calls info'.async_context_map)
        ≡ sum_provided calls + zeros * share =
      ap (λ (i : AsyncContextInfo). sum_limits (all_calls i.async_context_map)) limited
      ∙ ap sum_limits (all_calls-map_contexts (with_limit share) info.async_context_map)
      ∙ sum_limits-with_limit share calls in
    elim chosen [
      | inl no_zero ↦ (
        ground (arith, given, ap (λ (z : ℕ). sum_provided calls + z * share) no_zero),
        (share, limited),
        ground arith,
      )
      | inr (some_zero, rest, quotient) ↦ (
        ground (arith, given, share_bounds (gas_left h - sum_provided calls) zeros some_zero),
        (share, limited),
        λ _. ground (arith, given, share_bounds (gas_left h - sum_provided calls) zeros some_zero),
      )
    ]

-- setupAsyncCallsGas succeeds exactly if the gas that is left covers what the calls ask for, with
-- something to share if there is a call that asks for nothing.
pub setup_async_calls_gas-succeeds :
    (info : AsyncContextInfo) (h : Host)
    → AreUint64 (all_calls info.async_context_map)
    → gas_left h < 2 ^ 64
    → let calls = all_calls info.async_context_map in
      ((info' : AsyncContextInfo) × (setup_async_calls_gas info h ≡ inr info')) ↔ (
        (sum_provided calls < gas_left h)
        ⊎ ((sum_provided calls ≡ gas_left h) × (calls_with_zero_gas calls ≡ 0)))
unfolding setup_async_calls_gas
setup_async_calls_gas-succeeds info h uint64 small =
    let calls = all_calls info.async_context_map in
    let zeros = calls_with_zero_gas calls in
    (
      λ (info', found).
          (let (share, limited, within, chosen) = found_share info info' h uint64 small found in
            ground (arith, chosen)),
      λ covered.
          (let good =
              sum_needed_complete (gas_left h) 0 calls uint64 small (ground (arith, covered)) in
            elim (Bool-cases (zeros == 0)) [
              | inl no_zero ↦ (with_limits 0 info, ground (arith, good))
              | inr some_zero ↦ (
                with_limits ((gas_left h - sum_provided calls) / zeros) info,
                ground (arith, good, covered),
              )
            ]),
    )
