-- ===== src/Tests/Pending.antt =====
-- The gas of asynchronous calls, and the calls that are pending.
use wasm_vm_v.Prelude.{
  ℕ, ◌+◌, ◌∷◌, [], false, ◌⊎◌, inr, ◌≡◌, ◌≢◌, ◌↔◌, ◌≤◌, ◌<◌, refl, Bytes, bytes_eq, bytes_equal,
  has_prefix, arith, ◌^◌, ◌||◌,
}
use wasm_vm_v.Prelude.Map.{Distinct, lookup}
use wasm_vm_v.Host.{Host, AsyncContextInfo, async_call_resolved}
use wasm_vm_v.Overflow.{add_uint64_with_err}
use wasm_vm_v.Output.Types.{new_vm_output_account}
use wasm_vm_v.Storage.{set_protected_storage, refuse_write, load_old_value}
use wasm_vm_v.VmHooks.BaseOps.{custom_storage_key}
use wasm_vm_v.Storage.View.{stored}
use wasm_vm_v.Async.Gas.Shares.{
  AreUint64, sum_limits, sum_provided, setup_async_calls_gas_lem, setup_async_calls_gas-succeeds,
}
use wasm_vm_v.Async.Pending.Kept.{PendingOf, pending_at, get_pending_async_calls_lem}
use wasm_vm_v.Async.Waiting.{get_current_async_info-save_pending_async_calls}
use wasm_vm_v.Metering.Points.{gas_left}
use wasm_vm_v.Async.Gas.{
  setup_async_calls_gas, all_calls, calls_with_zero_gas, with_limits, sum_needed,
}
use wasm_vm_v.Async.Pending.{
  get_pending_async_calls, async_storage_key, save_pending_async_calls, get_current_async_info,
}
use wasm_vm_v.Async.{Codec}
use wasm_vm_v.Tests.Fixtures.{hook, contract, alice}
use wasm_vm_v.Tests.Nested.{host}
use wasm_vm_v.Tests.Async.{generated, info, codec}

-- 300 for the first call, and the other 400 for the second.
limited : setup_async_calls_gas info host ≡ inr (with_limits 400 info)
unfolding setup_async_calls_gas sum_needed calls_with_zero_gas gas_left add_uint64_with_err
limited = refl

uint64_calls : AreUint64 (all_calls info.async_context_map)
uint64_calls = (omega arith, (omega arith, tt))

small_gas : gas_left host < 2 ^ 64
unfolding gas_left
small_gas = omega arith

setup_async_calls_gas_example :
    let zeros = calls_with_zero_gas (all_calls info.async_context_map) in
    let given = sum_limits (all_calls (with_limits 400 info).async_context_map) in
    (given ≤ gas_left host)
    × ((share : ℕ) × (with_limits 400 info ≡ with_limits share info))
    × (zeros ≢ 0 → gas_left host < given + zeros)
setup_async_calls_gas_example =
    setup_async_calls_gas_lem info (with_limits 400 info) host uint64_calls small_gas limited

setup_async_calls_gas-succeeds_example :
    let calls = all_calls info.async_context_map in
    ((info' : AsyncContextInfo) × (setup_async_calls_gas info host ≡ inr info')) ↔ (
      (sum_provided calls < gas_left host)
      ⊎ ((sum_provided calls ≡ gas_left host) × (calls_with_zero_gas calls ≡ 0)))
setup_async_calls_gas-succeeds_example =
    setup_async_calls_gas-succeeds info host uint64_calls small_gas

-- The second of its contexts has no call that is pending.
abbrev mixed : AsyncContextInfo
mixed = record info {
  async_context_map =
      (1 ∷ [], record { callback = "all"; async_calls = generated alice 300 ∷ [] })
      ∷ (
        2 ∷ [],
        record {
          callback = "all";
          async_calls = record (generated contract 0) { status = async_call_resolved } ∷ [];
        },
      )
      ∷ [];
}

contexts_lem : Distinct mixed.async_context_map
unfolding bytes_equal
contexts_lem = (refl, (refl, tt))

get_pending_async_calls_example :
    let pending = get_pending_async_calls mixed in
    PendingOf (all_calls mixed.async_context_map) (all_calls pending.async_context_map)
    × ((k : Bytes) → lookup k pending.async_context_map ≡ pending_at k mixed.async_context_map)
    × (get_pending_async_calls pending ≡ pending)
get_pending_async_calls_example = get_pending_async_calls_lem mixed contexts_lem

-- Alice calls back, and the contract waits for one more.
abbrev saved_bytes : Bytes
saved_bytes = 1 ∷ []

abbrev waiting_host : Host
waiting_host = (save_pending_async_calls hook codec info host).0

writable :
    (host.runtime.read_only
      || has_prefix (async_storage_key host) host.storage.protected_key_prefix)
    ≡ false
unfolding has_prefix custom_storage_key
writable = refl

get_current_async_info_example :
    (get_current_async_info hook codec
      (record waiting_host { storage = host.storage; runtime = host.runtime })).1
    ≡ inr info
unfolding save_pending_async_calls set_protected_storage refuse_write custom_storage_key bytes_equal
    load_old_value stored
get_current_async_info_example =
    get_current_async_info-save_pending_async_calls hook codec info saved_bytes host
      (record waiting_host { storage = host.storage; runtime = host.runtime }) refl refl refl refl
      writable refl

abbrev stored_host : Host
stored_host = record host {
  output = record host.output {
    output_state = record host.output.output_state {
      output_accounts =
          (
            contract,
            record (new_vm_output_account contract) {
              storage_updates =
                  (
                    async_storage_key host,
                    record { offset = async_storage_key host; content = saved_bytes },
                  )
                  ∷ [];
            },
          )
          ∷ [];
    };
  };
}

-- The contract waits for Alice alone, who is of another shard.
abbrev last_call : AsyncContextInfo
last_call = record info {
  async_context_map =
      (1 ∷ [], record { callback = "all"; async_calls = generated alice 300 ∷ [] }) ∷ [];
}

abbrev last_codec : Codec
last_codec = record codec { unmarshal = λ bytes. inr last_call }
