-- ===== src/Async/Input.antt =====
-- The inputs of the call that an asynchronous call makes, and of its call-back.
use Prim.Native.String.{String, len}
use wasm_vm_v.Prelude.{
  ℕ, ◌+◌, ◌-◌, ◌%◌, ◌^◌, Bool, true, false, ◌&&◌, ◌||◌, ◌⊎◌, inl, inr, Option, none, some, List, [],
  ◌∷◌, Bytes, bytes_eq, length, leb, is_empty, ◌==◌, same_text, if◌then◌else◌,
}
use wasm_vm_v.Prelude.Map.{lookup}
use wasm_vm_v.Prelude.Int.{ℤ, pos}
use wasm_vm_v.Errors.{VmError, not_enough_gas}
use wasm_vm_v.Overflow.{add_uint64, mul_uint64}
use wasm_vm_v.Output.Types.{VmOutput, OutputTransfer, asynchronous_call, asynchronous_call_back}
use wasm_vm_v.Host.{Host, ContractCallInput, AsyncCallInfo, base_cost}
use wasm_vm_v.Engine.{Engine}
use wasm_vm_v.Metering.Points.{gas_left}
use wasm_vm_v.Runtime.Text.{text_bytes}
use wasm_vm_v.VmHooks.BigIntBytes.{from_bytes, to_bytes}
use wasm_vm_v.Execution.{is_ok}
use wasm_vm_v.Execution.Builtin.{element}
use wasm_vm_v.Async.{Codec}

-- `int(dataLength)`, which is read as a uint64 again.
abbrev pub add_lengths : ℕ → List Bytes → ℕ
add_lengths n [] = n
add_lengths n (argument ∷ arguments) = add_lengths (add_uint64 n (length argument)) arguments

unfoldable pub compute_data_length_from_arguments : String → List Bytes → ℕ
compute_data_length_from_arguments function arguments =
    add_lengths (add_uint64 (len function) (length arguments)) arguments

abbrev pub last_transfer : List OutputTransfer → Option OutputTransfer
last_transfer [] = none
last_transfer (transfer ∷ []) = some transfer
last_transfer (transfer ∷ next ∷ transfers) = last_transfer (next ∷ transfers)

-- The value that the callee has sent back at last, if it sent no data with it.
unfoldable pub compute_call_value_from_last_output_transfer : VmOutput → Host → ℤ
compute_call_value_from_last_output_transfer out h =
    if h.flags.vm_v3_enabled
    then (if is_empty out.return_data
        then elim (lookup h.runtime.sc_address out.output_accounts) [
          | none ↦ pos 0
          | some account ↦ elim (last_transfer account.output_transfers) [
            | none ↦ pos 0
            | some transfer ↦ if is_empty transfer.content then transfer.value else pos 0
          ]
        ]
        else pos 0)
    else pos 0

module _ (engine : Engine) where
  unfoldable pub create_destination_contract_call_input :
      AsyncCallInfo → Host → VmError ⊎ ContractCallInput
  create_destination_contract_call_input call h = elim (engine.parse_data call.content) [
    | inl err ↦ inl err
    | inr (function, arguments) ↦ inr (record {
      input = record {
        caller_addr = h.runtime.sc_address;
        arguments = arguments;
        call_value = pos (from_bytes call.value_bytes);
        call_type = asynchronous_call;
        gas_price = h.runtime.vm_input.gas_price;
        gas_provided = gas_left h;
        gas_locked = call.gas_locked;
        esdt_transfers = [];
        return_call_after_error = false;
        current_tx_hash = h.runtime.vm_input.current_tx_hash;
        original_tx_hash = h.runtime.vm_input.original_tx_hash;
        prev_tx_hash = [];
      };
      recipient_addr = call.destination;
      function = function;
      allow_init_function = false;
    })
  ]

  -- Whether a call is a transfer of tokens and of nothing else.
  unfoldable pub is_esdt_transfer_on_return_data_from_function_and_args : String → List Bytes → Bool
  is_esdt_transfer_on_return_data_from_function_and_args function arguments =
      (same_text function engine.esdt_transfer && length arguments == 2)
      || (same_text function engine.esdt_nft_transfer && length arguments == 4)

  -- The transfer of tokens in the first result, if it is one.
  unfoldable pub is_esdt_transfer_on_return_data_with_no_additional_data :
      List Bytes → Option (String × List Bytes)
  is_esdt_transfer_on_return_data_with_no_additional_data [] = none
  is_esdt_transfer_on_return_data_with_no_additional_data (result ∷ results) =
      elim (engine.parse_data result) [
        | inl err ↦ none
        | inr (function, arguments) ↦
            if is_esdt_transfer_on_return_data_from_function_and_args function arguments
            then some (function, arguments)
            else none
      ]

  module _ (codec : Codec) where
    abbrev pub code_bytes : VmOutput → Bytes
    code_bytes out = to_bytes (pos (codec.return_code_number out.return_code))

    abbrev pub succeeded : VmOutput → Option VmError → Bool
    succeeded out none = is_ok out.return_code
    succeeded out (some err) = false

    -- The return code, and the results or the message.
    abbrev pub callback_arguments : VmOutput → Option VmError → List Bytes
    callback_arguments out err =
        code_bytes out
        ∷ (if succeeded out err then out.return_data else text_bytes out.return_message ∷ [])

    abbrev pub tail_of : List Bytes → List Bytes
    tail_of [] = []
    tail_of (result ∷ results) = results

    -- The arguments of a call-back that goes with a transfer of tokens.
    abbrev pub esdt_callback_arguments : String → String → List Bytes → VmOutput → List Bytes
    esdt_callback_arguments callback function arguments out =
        let rest = text_bytes callback ∷ code_bytes out ∷ tail_of out.return_data in
        let nft =
          if same_text function engine.esdt_nft_transfer
          then element 2 arguments ∷ element 3 arguments ∷ rest
          else rest in
        element 0 arguments ∷ element 1 arguments ∷ nft

    -- The transfer of tokens that goes with the call-back.
    abbrev pub esdt_on_callback : VmOutput → Option VmError → Option (String × List Bytes)
    esdt_on_callback out err =
        if succeeded out err
        then is_esdt_transfer_on_return_data_with_no_additional_data out.return_data
        else none

    -- The gas that the call-back costs before it starts.
    abbrev pub callback_cost : String → List Bytes → Host → ℕ
    callback_cost callback arguments h =
        add_uint64 h.metering.gas_schedule.base_ops_api_cost.async_call_step (
          mul_uint64 (base_cost h).data_copy_per_byte
            (compute_data_length_from_arguments callback arguments))

    unfoldable pub create_callback_contract_call_input :
        AsyncCallInfo
        → VmOutput
        → Bytes
        → String
        → Option VmError
        → Host
        → VmError ⊎ ContractCallInput
    create_callback_contract_call_input call out initiator callback err h =
        let arguments = callback_arguments out err in
        let gas_limit = (out.gas_remaining + call.gas_locked) % 2 ^ 64 in
        let gas_to_use = callback_cost callback arguments h in
        let name : String = elim (esdt_on_callback out err) [
          | none ↦ callback
          | some (function, args) ↦ function
        ] in
        let given : List Bytes = elim (esdt_on_callback out err) [
          | none ↦ arguments
          | some (function, args) ↦ esdt_callback_arguments callback function args out
        ] in
        let next : ContractCallInput = record {
          input = record {
            caller_addr = initiator;
            arguments = given;
            call_value = compute_call_value_from_last_output_transfer out h;
            call_type = asynchronous_call_back;
            gas_price = h.runtime.vm_input.gas_price;
            gas_provided = gas_limit - gas_to_use;
            gas_locked = 0;
            esdt_transfers = [];
            return_call_after_error = if succeeded out err then false else true;
            current_tx_hash = h.runtime.vm_input.current_tx_hash;
            original_tx_hash = h.runtime.vm_input.original_tx_hash;
            prev_tx_hash = [];
          };
          recipient_addr = h.runtime.sc_address;
          function = name;
          allow_init_function = false;
        } in
        if leb gas_limit gas_to_use then inl not_enough_gas else inr next
