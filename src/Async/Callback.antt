-- ===== src/Async/Callback.antt =====
-- The call-backs that arrive as transactions: getFunctionByCallType and processCallbackStack. `none`
-- is a panic of Go on a nil pointer.
use Prim.Native.String.{String}
use wasm_vm_v.Prelude.{
  not, ◌⊎◌, inl, inr, Option, none, some, List, [], ◌∷◌, Bytes, bytes_eq, bytes_equal, is_empty,
  length, ◌==◌, if◌then◌else◌,
}
use wasm_vm_v.Prelude.Map.{Map, erase}
use wasm_vm_v.Errors.{VmError, nil_callback_function, call_back_func_not_expected}
use wasm_vm_v.Output.Types.{CallType}
use wasm_vm_v.Host.{Host, AsyncContext, AsyncContextInfo, AsyncGeneratedCall}
use wasm_vm_v.Hook.{BlockchainHook}
use wasm_vm_v.Engine.{Engine}
use wasm_vm_v.Runtime.Instances.{get_function_to_call}
use wasm_vm_v.Storage.{get_storage_unmetered, set_protected_storage}
use wasm_vm_v.Transfer.{is_asynchronous_call_back}
use wasm_vm_v.Execution.{Result}
use wasm_vm_v.Async.{Codec}
use wasm_vm_v.Async.Gas.{all_calls}
use wasm_vm_v.Async.Modes.{can_execute_synchronously, send_storage_callback_to_destination}
use wasm_vm_v.Async.Pending.{async_storage_key, get_current_async_info}

abbrev pub Function : Type 0
Function = Host → Result

-- The first call to an address.
unfoldable pub find_call : Bytes → List AsyncGeneratedCall → Option AsyncGeneratedCall
find_call addr [] = none
find_call addr (call ∷ calls) =
    if bytes_equal addr call.destination then some call else find_call addr calls

-- The first context with a call to an address. One with an empty identifier is passed over, since
-- the code takes that for none.
unfoldable pub find_context :
    Bytes → Map Bytes AsyncContext → Option (Bytes × List AsyncGeneratedCall)
unfolding find_call
find_context addr [] = none
find_context addr ((identifier, context) ∷ contexts) =
    let rest = find_context addr contexts in
    elim (find_call addr context.async_calls) [
      | none ↦ rest
      | some call ↦ if is_empty identifier then rest else some (identifier, context.async_calls)
    ]

unfoldable pub set_custom_call_function : String → Host → Host
set_custom_call_function name h = record h {
  runtime = record h.runtime { active = record h.runtime.active { call_function = name } };
}

-- A call less, and the context is deleted with its last one. The calls that are left are not stored,
-- so that only their number counts.
abbrev pub without_call :
    Bytes → List AsyncGeneratedCall → Map Bytes AsyncContext → Map Bytes AsyncContext
without_call identifier calls contexts =
    if length calls == 1 then erase identifier contexts else contexts

module _ (hook : BlockchainHook) (engine : Engine) (codec : Codec) where
  -- A nil function is returned with no error where the call-back that was asked for does not exist.
  unfoldable pub get_function_by_call_type : CallType → Host → Host × (VmError ⊎ Option Function)
  get_function_by_call_type call_type h =
      let (h1, current) = get_current_async_info hook codec h in
      if not (is_asynchronous_call_back call_type)
      then (h, elim (get_function_to_call engine h) [ inl err ↦ inl err | inr f ↦ inr (some f) ])
      else elim current [
        | inl err ↦ (h1, inl err)
        | inr info ↦
            elim (find_call h1.runtime.vm_input.caller_addr (all_calls info.async_context_map)) [
              | none ↦ (
                h1,
                elim (get_function_to_call engine h1) [
                  | inl err ↦ inl nil_callback_function
                  | inr f ↦ inr (some f)
                ],
              )
              | some call ↦
                  let h2 = set_custom_call_function call.success_callback h1 in
                  (
                    h2,
                    elim (get_function_to_call engine h2) [
                      | inl err ↦ inr none
                      | inr f ↦ inr (some f)
                    ],
                  )
            ]
      ]

  -- The call-back of the caller, once nothing is pending. In the same shard its input is made of a
  -- nil call, whose locked gas is asked for.
  unfoldable pub call_back_caller : AsyncContextInfo → Host → Option Result
  call_back_caller info h =
      let (h1, runs_here) = can_execute_synchronously hook info.async_caller_addr h in
      if runs_here
      then none
      else some
          (send_storage_callback_to_destination hook info.async_caller_addr info.return_data h1)

  unfoldable pub resolve_context : AsyncContextInfo → Bytes → Host → Option Result
  resolve_context info key h =
      elim (find_context h.runtime.vm_input.caller_addr info.async_context_map) [
        | none ↦ some (h, some call_back_func_not_expected)
        | some (identifier, calls) ↦
            if not (is_empty (without_call identifier calls info.async_context_map))
            then some (h, none)
            else (let (h1, status, err) = set_protected_storage hook key [] h in
                elim err [ some e ↦ some (h1, some e) | none ↦ call_back_caller info h1 ])
      ]

  unfoldable pub process_callback_stack : Host → Option Result
  process_callback_stack h =
      let key = async_storage_key h in
      let (h1, saved) = get_storage_unmetered hook key h in
      if is_empty saved then some (h1, none) else elim (codec.unmarshal saved) [
        | inl err ↦ some (h1, some err)
        | inr info ↦ resolve_context info key h1
      ]
