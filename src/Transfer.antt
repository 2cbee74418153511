-- ===== src/Transfer.antt =====
-- Transfers of value between accounts: TransferValueOnly and Transfer of vmhost/contexts/output.go.
pub mod Balances
pub mod Conservation
use wasm_vm_v.Prelude.{
  ℕ, Bool, true, false, ◌&&◌, ◌||◌, not, Option, none, some, List, [], ◌∷◌, ◌++◌, Bytes, bytes_eq,
  ltb, if◌then◌else◌,
}
use wasm_vm_v.Prelude.Int.{ℤ, pos, ◌+ℤ◌, ◌-ℤ◌, ltb_ℤ, leb_ℤ}
use wasm_vm_v.Errors.{
  VmError, transfer_negative_value, transfer_insufficient_funds, account_not_payable,
}
use wasm_vm_v.Output.{OutputContext, get_output_account, set_account, add_delta}
use wasm_vm_v.Output.Types.{
  OutputAccount, OutputTransfer, CallType, asynchronous_call, asynchronous_call_back,
}
use wasm_vm_v.Host.{Host}
use wasm_vm_v.Hook.{BlockchainHook}
use wasm_vm_v.Blockchain.{get_balance_big_int}

abbrev pub is_asynchronous_call : CallType → Bool
is_asynchronous_call asynchronous_call = true
is_asynchronous_call _ = false

abbrev pub is_asynchronous_call_back : CallType → Bool
is_asynchronous_call_back asynchronous_call_back = true
is_asynchronous_call_back _ = false

-- `big.NewInt(0).Sub(delta, value)`.
abbrev pub sub_delta : Option ℤ → ℤ → Option ℤ
sub_delta none v = none
sub_delta (some d) v = some (d -ℤ v)

-- The two writes, one after the other: sender and destination may be the same account.
unfoldable pub move_value : Bytes → Bytes → ℤ → OutputContext → OutputContext
unfolding get_output_account
move_value destination sender value c =
    let (c1, sender_acc, _) = get_output_account sender c in
    let (c2, _, _) = get_output_account destination c1 in
    let c3 =
      set_account sender
        (record sender_acc { balance_delta = sub_delta sender_acc.balance_delta value }) c2 in
    let (c4, dest_acc, _) = get_output_account destination c3 in
    set_account destination
      (record dest_acc { balance_delta = add_delta dest_acc.balance_delta value }) c4

module _ (hook : BlockchainHook) where
  unfoldable pub has_sufficient_balance : Bytes → ℤ → Host → Host × Bool
  has_sufficient_balance addr value h =
      let (h', balance) = get_balance_big_int hook addr h in (h', leb_ℤ value balance)

  -- Whether a destination that does not accept value has to be refused.
  unfoldable pub must_refuse : Bool → Bool → ℤ → Host → Bool
  must_refuse check_payable payable value h =
      let is_async_call =
        h.flags.vm_v3_enabled && is_asynchronous_call h.runtime.vm_input.call_type in
      let check = check_payable || not h.flags.esdt_functions_enabled in
      check && not payable && ltb_ℤ (pos 0) value && not is_async_call

  unfoldable pub transfer_value_only : Bytes → Bytes → ℤ → Bool → Host → Host × Option VmError
  transfer_value_only destination sender value check_payable h =
      let (h1, sufficient) = has_sufficient_balance sender value h in
      let (payable, err) = hook.is_payable destination in
      if ltb_ℤ value (pos 0)
      then (h, some transfer_negative_value)
      else (if not sufficient then (h1, some transfer_insufficient_funds) else elim err [
        | some e ↦ (h1, some e)
        | none ↦
            if must_refuse check_payable payable value h1
            then (h1, some account_not_payable)
            else (record h1 { output = move_value destination sender value h1.output }, none)
      ])

  unfoldable pub transfer :
      Bytes → Bytes → ℕ → ℕ → ℤ → Bytes → CallType → Host → Host × Option VmError
  unfolding get_output_account
  transfer destination sender gas_limit gas_locked value input call_type h =
      let check_payable_if_not_callback =
        ltb 0 gas_limit && not (is_asynchronous_call_back call_type) in
      let (h1, err) =
        transfer_value_only destination sender value check_payable_if_not_callback h in
      elim err [
        | some e ↦ (h1, some e)
        | none ↦
            let (output, account, _) = get_output_account destination h1.output in
            let entry : OutputTransfer = record {
              value = value;
              gas_limit = gas_limit;
              gas_locked = gas_locked;
              content = input;
              call_type = call_type;
              sender_address = sender;
            } in
            (
              record h1 {
                output =
                    set_account destination
                      (record account { output_transfers = account.output_transfers ++ entry ∷ [] })
                      output;
              },
              none,
            )
      ]
