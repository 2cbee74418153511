-- ===== src/Async/Sent.antt =====
-- An asynchronous call that leaves the shard: handleAsyncCallBreakpoint and sendAsyncCallToDestination
-- of vmhost/hostCore/asyncCall.go.
use Prim.Native.String.{String}
use wasm_vm_v.Prelude.{
  ℕ, ◌≤◌, ◌≡◌, ◌∙◌, refl, ◌⊎◌, inl, inr, Bool, false, ◌&&◌, not, ltb, none, some, List, [], ◌∷◌,
  ◌++◌, Bytes, bytes_eq, bytes_equal_iff, arith, subst,
}
use wasm_vm_v.Prelude.Map.{lookup, lookup-insert}
use wasm_vm_v.Prelude.Int.{ℤ, pos}
use wasm_vm_v.Errors.{VmError}
use wasm_vm_v.Overflow.{max_int64}
use wasm_vm_v.Output.{get_output_account, set_return_code, set_return_message}
use wasm_vm_v.Output.Types.{OutputAccount, OutputTransfer, CallType, asynchronous_call}
use wasm_vm_v.Host.{
  Host, ContractCallInput, AsyncCallInfo, breakpoint_none, breakpoint_execution_failed,
}
use wasm_vm_v.Hook.{BlockchainHook}
use wasm_vm_v.Engine.{Engine, is_builtin_function_name}
use wasm_vm_v.Blockchain.{get_code, get_balance_big_int}
use wasm_vm_v.Fault.{fail_execution, add_error, set_runtime_breakpoint_value}
use wasm_vm_v.Metering.Points.{use_gas, gas_left}
use wasm_vm_v.Metering.Gas.{PointsAreCapped, use_gas_lem}
use wasm_vm_v.Transfer.{
  transfer, transfer_value_only, has_sufficient_balance, is_asynchronous_call_back,
}
use wasm_vm_v.VmHooks.BigIntBytes.{from_bytes}
use wasm_vm_v.Execution.{Result}
use wasm_vm_v.Async.{Codec, Executed, async_unknown}
use wasm_vm_v.Async.Modes.{
  use_all_gas, fail_or, can_execute_synchronously, send_async_call_to_destination,
  determine_async_call_execution_mode,
}
use wasm_vm_v.Async.Breakpoint.{
  run_in_mode, run_determined, handle_call, handle_async_call_breakpoint,
}

-- The gas points are within the caps.
abbrev pub IsCapped : Host → Type 0
IsCapped h = (h.metering.gas_for_execution ≤ max_int64) × PointsAreCapped h

gas_left-use_all_gas : (h : Host) → IsCapped h → gas_left (use_all_gas h) ≡ 0
unfolding gas_left
gas_left-use_all_gas h caps = ground (arith, caps, use_gas_lem (gas_left h) h)

failed_lem :
    (e : VmError) (h : Host)
    → (gas_left (fail_execution (some e) h) ≡ gas_left h)
      × ((fail_execution (some e) h).runtime.breakpoint ≡ breakpoint_execution_failed)
unfolding fail_execution add_error set_runtime_breakpoint_value set_return_code set_return_message
    gas_left
failed_lem e h = (refl, refl)

abbrev pub entry_of : AsyncCallInfo → Host → OutputTransfer
entry_of call h = record {
  value = pos (from_bytes call.value_bytes);
  gas_limit = call.gas_limit;
  gas_locked = call.gas_locked;
  content = call.content;
  call_type = asynchronous_call;
  sender_address = h.runtime.sc_address;
}

-- The last transfer of an account.
abbrev pub IsLastTransfer : OutputTransfer → Bytes → Host → Type 0
IsLastTransfer entry addr h =
    (account : OutputAccount) × (before : List OutputTransfer) × (lookup addr
        h.output.output_state.output_accounts
      ≡ some account)
    × (account.output_transfers ≡ before ++ entry ∷ [])

-- The outcome: the transfer is entered, or the execution has failed.
abbrev pub SentOrFailed : OutputTransfer → Bytes → Result → Type 0
SentOrFailed entry addr r =
    ((r.1 ≡ none) × IsLastTransfer entry addr r.0)
    ⊎ ((e : VmError) × (r.1 ≡ some e) × (r.0.runtime.breakpoint ≡ breakpoint_execution_failed))

module _ (hook : BlockchainHook) where
  get_balance_big_int_keeps :
      (addr : Bytes) (h : Host)
      → let h' = (get_balance_big_int hook addr h).0 in
        (h'.runtime ≡ h.runtime) × (h'.metering ≡ h.metering)
  unfolding get_balance_big_int
  get_balance_big_int_keeps addr h = (ground arith, ground arith)

  transfer_value_only_keeps :
      (dest sender : Bytes) (value : ℤ) (check : Bool) (h : Host)
      → let h' = (transfer_value_only hook dest sender value check h).0 in
        (h'.runtime ≡ h.runtime) × (h'.metering ≡ h.metering)
  unfolding transfer_value_only has_sufficient_balance
  transfer_value_only_keeps dest sender value check h = (
    ground (arith, get_balance_big_int_keeps sender h),
    ground (arith, get_balance_big_int_keeps sender h),
  )

  transfer_keeps :
      (dest sender : Bytes) (limit locked : ℕ) (value : ℤ) (input : Bytes) (call_type : CallType)
      (h : Host)
      → let h' = (transfer hook dest sender limit locked value input call_type h).0 in
        (h'.runtime ≡ h.runtime) × (h'.metering ≡ h.metering)
  unfolding transfer
  transfer_keeps dest sender limit locked value input call_type h =
      let check = ltb 0 limit && not (is_asynchronous_call_back call_type) in
      (
        ground (arith, transfer_value_only_keeps dest sender value check h),
        ground (arith, transfer_value_only_keeps dest sender value check h),
      )

  transfer_entered :
      (dest sender : Bytes) (limit locked : ℕ) (value : ℤ) (input : Bytes) (call_type : CallType)
      (h : Host)
      → (transfer hook dest sender limit locked value input call_type h).1 ≡ none
      → IsLastTransfer
          (record {
            value = value;
            gas_limit = limit;
            gas_locked = locked;
            content = input;
            call_type = call_type;
            sender_address = sender;
          })
          dest
          (transfer hook dest sender limit locked value input call_type h).0
  unfolding transfer
  transfer_entered dest sender limit locked value input call_type h fine =
      let check = ltb 0 limit && not (is_asynchronous_call_back call_type) in
      let h1 = (transfer_value_only hook dest sender value check h).0 in
      let (c, account, _) = get_output_account dest h1.output in
      let entry : OutputTransfer = record {
        value = value;
        gas_limit = limit;
        gas_locked = locked;
        content = input;
        call_type = call_type;
        sender_address = sender;
      } in
      let entered = record account { output_transfers = account.output_transfers ++ entry ∷ [] } in
      (
        entered,
        account.output_transfers,
        ground (
          arith,
          fine,
          bytes_equal_iff dest dest,
          lookup-insert dest dest entered c.output_state.output_accounts,
        ),
        refl,
      )

  fail_or_sent :
      (call : AsyncCallInfo) (h : Host) (r : Result)
      → IsCapped r.0
      → (r.1 ≡ none → IsLastTransfer (entry_of call h) call.destination r.0)
      → (gas_left (fail_or r use_all_gas).0 ≡ 0)
        × SentOrFailed (entry_of call h) call.destination (fail_or r use_all_gas)
  unfolding use_gas
  fail_or_sent call h (h1, none) caps entered =
      (gas_left-use_all_gas h1 caps, inl (refl, entered refl))
  fail_or_sent call h (h1, some e) caps entered =
      let (left, stopped) = failed_lem e (use_all_gas h1) in
      (left ∙ gas_left-use_all_gas h1 caps, inr (e, refl, stopped))

  pub send_async_call_to_destination_lem :
      (call : AsyncCallInfo) (h : Host)
      → IsCapped h
      → let r = send_async_call_to_destination hook call h in
        (gas_left r.0 ≡ 0) × SentOrFailed (entry_of call h) call.destination r
  unfolding send_async_call_to_destination
  send_async_call_to_destination_lem call h caps =
      let value = pos (from_bytes call.value_bytes) in
      let r =
        transfer hook call.destination h.runtime.sc_address call.gas_limit call.gas_locked value
          call.content asynchronous_call h in
      let keeps =
        transfer_keeps call.destination h.runtime.sc_address call.gas_limit call.gas_locked value
          call.content asynchronous_call h in
      fail_or_sent call h r (ground (arith, caps, keeps)) (
        transfer_entered call.destination h.runtime.sc_address call.gas_limit call.gas_locked value
          call.content asynchronous_call h)

  can_execute_synchronously_keeps :
      (addr : Bytes) (h : Host)
      → let h' = (can_execute_synchronously hook addr h).0 in
        (h'.runtime ≡ h.runtime) × (h'.metering ≡ h.metering)
  unfolding can_execute_synchronously get_code
  can_execute_synchronously_keeps addr h = (ground arith, ground arith)

  module _ (engine : Engine) (codec : Codec)
      (execute_on_dest_context : ContractCallInput → Host → Executed) where
    determined_unknown :
        (call : AsyncCallInfo) (function : String) (arguments : List Bytes) (h : Host)
        → engine.parse_data call.content ≡ inr (function, arguments)
        → is_builtin_function_name engine function ≡ false
        → (can_execute_synchronously hook call.destination h).1 ≡ false
        → determine_async_call_execution_mode hook engine call h
          ≡ ((can_execute_synchronously hook call.destination h).0, inr async_unknown)
    unfolding determine_async_call_execution_mode
    determined_unknown call function arguments h parsed not_builtin elsewhere =
        ground (arith, parsed, not_builtin, elsewhere)

    -- An asynchronous call of a function that is not built in, to a contract whose code is not in
    -- this shard, leaves no gas to the contract that has made it (where the gas points are within the
    -- caps). Either the handling returns no error, and the call is the last transfer entered for the
    -- destination, with the value, the data, the gas limit and the locked gas of the call; or it
    -- returns an error, and the execution has failed.
    pub handle_async_call_breakpoint_sent :
        (call : AsyncCallInfo) (function : String) (arguments : List Bytes) (h : Host)
        → h.runtime.async_call_info ≡ some call
        → engine.parse_data call.content ≡ inr (function, arguments)
        → is_builtin_function_name engine function ≡ false
        → (can_execute_synchronously hook call.destination
            (set_runtime_breakpoint_value breakpoint_none h)).1
          ≡ false
        → IsCapped h
        → (r : Result) × (handle_async_call_breakpoint hook engine codec execute_on_dest_context h
            ≡ some r)
          × (gas_left r.0 ≡ 0)
          × SentOrFailed (entry_of call h) call.destination r
    unfolding handle_async_call_breakpoint handle_call run_determined run_in_mode
        set_runtime_breakpoint_value
    handle_async_call_breakpoint_sent call function arguments h asked parsed not_builtin elsewhere
          caps =
        let h0 = set_runtime_breakpoint_value breakpoint_none h in
        let h1 = (can_execute_synchronously hook call.destination h0).0 in
        let keeps = can_execute_synchronously_keeps call.destination h0 in
        let r = send_async_call_to_destination hook call h1 in
        let sent = send_async_call_to_destination_lem call h1 (ground (arith, caps, keeps)) in
        let same : entry_of call h1 ≡ entry_of call h = ground (arith, keeps) in
        (
          r,
          ground (
            arith,
            asked,
            determined_unknown call function arguments h0 parsed not_builtin elsewhere,
          ),
          sent.0,
          subst (λ entry. SentOrFailed entry call.destination r) same sent.1,
        )
