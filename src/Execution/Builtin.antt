-- ===== src/Execution/Builtin.antt =====
-- Calls of built-in functions, which the node executes: callBuiltinFunction and what it calls in
-- vmhost/hostCore/execution.go. A built-in function that transfers tokens to a contract may have the
-- contract called next.
use Prim.Native.String.{String}
use wasm_vm_v.Prelude.{
  ℕ, zero, suc, ◌%◌, ◌^◌, Bool, false, ◌&&◌, ◌||◌, not, ◌⊎◌, inl, inr, Option, none, some, List, [],
  ◌∷◌, ◌++◌, Bytes, bytes_eq, bytes_equal, length, ◌==◌, same_text, if◌then◌else◌,
}
use wasm_vm_v.Prelude.Map.{Map, lookup, insert}
use wasm_vm_v.Prelude.Int.{pos}
use wasm_vm_v.Errors.{VmError}
use wasm_vm_v.Output.{add_to_active_state}
use wasm_vm_v.Output.Types.{OutputAccount, OutputTransfer, VmOutput, zero_account}
use wasm_vm_v.VmHooks.BigIntBytes.{from_bytes}
use wasm_vm_v.Host.{Host, ContractCallInput, VmInput, EsdtTransfer, process_builtin_function}
use wasm_vm_v.Hook.{BlockchainHook}
use wasm_vm_v.Engine.{Engine}
use wasm_vm_v.Metering.Points.{use_gas, track_gas_used_by_builtin_function}
use wasm_vm_v.Runtime.Hex.{encode_arguments}
use wasm_vm_v.Runtime.Text.{text_bytes}
use wasm_vm_v.Execution.{is_ok}

-- `xs[n]`. Go panics where there is none: the built-in functions have checked their arguments.
abbrev pub element : ℕ → List Bytes → Bytes
element n [] = []
element zero (x ∷ xs) = x
element (suc n) (x ∷ xs) = element n xs

module _ (engine : Engine) where
  abbrev pub is_esdt_transfer : String → Bool
  is_esdt_transfer name =
      same_text name engine.esdt_transfer || same_text name engine.esdt_nft_transfer

  -- The transfer of tokens that the first call makes goes into the input of the second one.
  unfoldable pub fill_with_esdt_value : ContractCallInput → VmInput → VmInput
  fill_with_esdt_value full input =
      let transfer : EsdtTransfer =
        if same_text full.function engine.esdt_nft_transfer
        then record {
          esdt_token_name = element 0 full.arguments;
          esdt_value = pos (from_bytes (element 2 full.arguments));
          esdt_token_type = engine.non_fungible;
          esdt_token_nonce = from_bytes (element 1 full.arguments) % 2 ^ 64;
        }
        else record {
          esdt_token_name = element 0 full.arguments;
          esdt_value = pos (from_bytes (element 1 full.arguments));
          esdt_token_type = 0;
          esdt_token_nonce = 0;
        } in
      if is_esdt_transfer full.function
      then record input { esdt_transfers = transfer ∷ [] }
      else input

  module _ (hook : BlockchainHook) where
    unfoldable pub are_in_same_shard : Bytes → Bytes → Bool
    are_in_same_shard left right = hook.get_shard_of_address left == hook.get_shard_of_address right

    -- The receiver of the tokens.
    abbrev pub token_recipient : ContractCallInput → Bytes
    token_recipient call =
        if same_text call.function engine.esdt_nft_transfer
          && bytes_equal call.caller_addr call.recipient_addr
        then element 3 call.arguments
        else call.recipient_addr

    -- The input of the call that the transfer data describes.
    abbrev pub call_after_transfer :
        ContractCallInput → Bytes → OutputTransfer → VmError ⊎ Option ContractCallInput
    call_after_transfer call recipient transfer = elim (engine.parse_data transfer.content) [
      | inl err ↦ inl err
      | inr (function, arguments) ↦ inr (
          some (record {
            input = fill_with_esdt_value call (record {
              caller_addr = call.caller_addr;
              arguments = arguments;
              call_value = pos 0;
              call_type = call.call_type;
              gas_price = call.gas_price;
              gas_provided = transfer.gas_limit;
              gas_locked = transfer.gas_locked;
              esdt_transfers = [];
              return_call_after_error = false;
              original_tx_hash = call.original_tx_hash;
              current_tx_hash = call.current_tx_hash;
              prev_tx_hash = [];
            });
            recipient_addr = recipient;
            function = function;
            allow_init_function = false;
          }))
    ]

    -- `len(outputTransfers) != 1` ends it too.
    abbrev pub only_transfer : Option OutputAccount → Option OutputTransfer
    only_transfer none = none
    only_transfer (some account) = elim account.output_transfers [
      | [] ↦ none
      | transfer ∷ more ↦ elim more [ [] ↦ some transfer | _ ∷ _ ↦ none ]
    ]

    unfoldable pub is_sc_execution_after_built_in_func :
        ContractCallInput → VmOutput → VmError ⊎ Option ContractCallInput
    is_sc_execution_after_built_in_func call out =
        let recipient = token_recipient call in
        if is_ok out.return_code
          && are_in_same_shard call.caller_addr recipient
          && hook.is_smart_contract recipient
        then elim (only_transfer (lookup recipient out.output_accounts)) [
          | none ↦ inr none
          | some transfer ↦ call_after_transfer call recipient transfer
        ]
        else inr none

    unfoldable pub add_output_transfer_to_vm_output :
        ContractCallInput → Bytes → VmOutput → VmOutput
    add_output_transfer_to_vm_output call recipient out =
        let transfer : OutputTransfer = record {
          value = pos 0;
          gas_limit = 0;
          gas_locked = 0;
          content = text_bytes call.function ++ encode_arguments call.arguments;
          call_type = call.call_type;
          sender_address = call.caller_addr;
        } in
        let account : OutputAccount = elim (lookup recipient out.output_accounts) [
          | some account ↦ account
          | none ↦ record zero_account { address = recipient }
        ] in
        record out {
          output_accounts =
              insert recipient
                (record account { output_transfers = account.output_transfers ++ transfer ∷ [] })
                out.output_accounts;
        }

    unfoldable pub add_esdt_transfer_to_vm_output_sc_intra_shard_call :
        ContractCallInput → VmOutput → VmOutput
    add_esdt_transfer_to_vm_output_sc_intra_shard_call call out =
        let is_nft = same_text call.function engine.esdt_nft_transfer in
        if is_ok out.return_code
          && are_in_same_shard call.recipient_addr call.caller_addr
          && is_esdt_transfer call.function
          && not (is_nft && not (length call.arguments == 4))
        then add_output_transfer_to_vm_output call
            (if is_nft then element 3 call.arguments else call.recipient_addr) out
        else out

    abbrev without_transfers : Map Bytes OutputAccount → Map Bytes OutputAccount
    without_transfers [] = []
    without_transfers ((addr, account) ∷ accounts) =
        (addr, record account { output_transfers = [] }) ∷ without_transfers accounts

    abbrev pub remaining_transfers : Option ContractCallInput → VmOutput → VmOutput
    remaining_transfers none out = out
    remaining_transfers (some next) out = record out {
      output_accounts = without_transfers out.output_accounts;
    }

    -- The next call, if there is one, and the output.
    unfoldable pub call_builtin_function :
        ContractCallInput → Host → Host × (VmError ⊎ (Option ContractCallInput × VmOutput))
    call_builtin_function call h =
        let (out, err) = hook.process_built_in_function h.blockchain.calls call in
        let h1 = record h {
          blockchain = record h.blockchain {
            calls = process_builtin_function call ∷ h.blockchain.calls;
          };
        } in
        let failed = use_gas call.gas_provided h1 in
        elim err [
          | some e ↦ (failed, inl e)
          | none ↦ elim (is_sc_execution_after_built_in_func call out) [
            | inl e ↦ (failed, inl e)
            | inr next ↦
                let reserved : Option ℕ = elim next [
                  | none ↦ none
                  | some c ↦ some c.gas_provided
                ] in
                let out1 = remaining_transfers next out in
                (
                  track_gas_used_by_builtin_function call.gas_provided out1.gas_remaining reserved
                      h1,
                  inr (next, add_esdt_transfer_to_vm_output_sc_intra_shard_call call out1),
                )
          ]
        ]

    unfoldable pub handle_builtin_function_call :
        ContractCallInput → Host → Host × (VmError ⊎ (Option ContractCallInput × VmOutput))
    handle_builtin_function_call call h =
        let (h1, result) = call_builtin_function call h in
        elim result [
          | inl e ↦ (h1, inl e)
          | inr (next, out) ↦
              let (output, out') = add_to_active_state out h1.output in
              (record h1 { output = output }, inr (next, out'))
        ]
