-- ===== src/Runtime/Instances.antt =====
-- Wasmer instances of vmhost/contexts/runtime.go: how the VM starts one, the functions it has, and
-- the validation of new code by vmhost/contexts/validator.go and reservedFunctions.go.
use Prim.Native.String.{String, len}
use wasm_vm_v.Prelude.{
  ℕ, Bool, true, false, ◌&&◌, ◌||◌, not, ◌⊎◌, inl, inr, Option, none, some, List, [], ◌∷◌, Bytes,
  is_empty, length, leb, ◌==◌, same_text, if◌then◌else◌,
}
use wasm_vm_v.Errors.{
  VmError, max_instances_reached, memory_declaration_missing, func_not_found,
  function_nonvoid_signature, invalid_function_name, contract_invalid, nil_callback_function,
}
use wasm_vm_v.Host.{Host, Runtime, save_compiled_code}
use wasm_vm_v.Hook.{BlockchainHook}
use wasm_vm_v.Blockchain.{get_code_hash, get_code}
use wasm_vm_v.Engine.{Engine}
use wasm_vm_v.Runtime.{set_instance, clean_wasmer_instance}
use wasm_vm_v.Runtime.Text.{is_ascii_string}

abbrev pub init_function_name : String
init_function_name = "init"

abbrev pub callback_function_name : String
callback_function_name = "callBack"

abbrev pub upgrade_function_name : String
upgrade_function_name = "upgradeContract"

abbrev max_length_of_function_name : ℕ
max_length_of_function_name = 256

unfoldable pub contains_name : String → List String → Bool
contains_name name [] = false
contains_name name (n ∷ names) = same_text n name || contains_name name names

abbrev on_runtime : (Runtime → Runtime) → Host → Host
on_runtime f h = record h { runtime = f h.runtime }

-- The code of the contract, whose size the runtime keeps.
unfoldable pub get_sc_code : BlockchainHook → Host → Host × (VmError ⊎ Bytes)
get_sc_code hook h =
    let (h', code, err) = get_code hook h.runtime.sc_address h in
    elim err [
      | some e ↦ (h', inl e)
      | none ↦ (on_runtime (λ r. record r { code_size = length code }) h', inr code)
    ]

module _ (engine : Engine) where
  unfoldable pub active_names : List String → List String
  active_names [] = []
  active_names (name ∷ names) =
      let rest = active_names names in
      elim (engine.builtin_function name) [
        | none ↦ rest
        | some active ↦ if active then name ∷ rest else rest
      ]

  -- The names that NewReservedFunctions collects.
  unfoldable pub is_reserved : String → Bool
  unfolding contains_name active_names
  is_reserved name =
      contains_name name (active_names engine.builtin_names)
      || contains_name name engine.api_names
      || same_text name upgrade_function_name

  unfoldable pub verify_valid_function_name : String → Option VmError
  unfolding is_ascii_string is_reserved
  verify_valid_function_name name =
      if len name == 0
        || leb max_length_of_function_name (len name)
        || not (is_ascii_string name)
        || is_reserved name
      then some invalid_function_name
      else none

  unfoldable pub verify_void_function : ℕ → String → Option VmError
  verify_void_function exports name = elim (engine.signature exports name) [
    | none ↦ some func_not_found
    | some (inputs, outputs) ↦
        if inputs == 0 && outputs == 0 then none else some function_nonvoid_signature
  ]

  -- The text of the error leaves out the name of the function.
  unfoldable pub verify_functions : ℕ → List String → Option VmError
  unfolding verify_valid_function_name verify_void_function
  verify_functions exports [] = none
  verify_functions exports (name ∷ names) =
      let rest = verify_functions exports names in
      elim (verify_valid_function_name name) [
        | some e ↦ some e
        | none ↦ elim (verify_void_function exports name) [ some e ↦ some e | none ↦ rest ]
      ]

  unfoldable pub verify_memory_declaration : ℕ → Option VmError
  verify_memory_declaration exports =
      if engine.has_memory exports then none else some memory_declaration_missing

  abbrev esdt_function_names : List String
  esdt_function_names =
      "transferESDTExecute" ∷ "transferESDTNFTExecute" ∷ "transferValueExecute" ∷ "getESDTBalance"
      ∷ "getESDTTokenData" ∷ "getESDTTokenType" ∷ "getESDTTokenNonce" ∷ "getCurrentESDTNFTNonce"
      ∷ "getESDTNFTNameLength" ∷ "getESDTNFTAttributeLength" ∷ "getESDTNFTURILength"
      ∷ "bigIntGetESDTExternalBalance" ∷ []

  unfoldable pub imports_one_of : ℕ → List String → Bool
  imports_one_of exports [] = false
  imports_one_of exports (name ∷ names) =
      engine.is_function_imported exports name || imports_one_of exports names

  unfoldable pub check_backward_compatibility : ℕ → Host → Option VmError
  unfolding imports_one_of
  check_backward_compatibility exports h =
      if not h.flags.esdt_functions_enabled && imports_one_of exports esdt_function_names
      then some contract_invalid
      else none

  -- The three checks, one after the other.
  unfoldable pub check_contract_code : ℕ → Host → Option VmError
  check_contract_code exports h = elim (verify_memory_declaration exports) [
    | some e ↦ some e
    | none ↦ elim (verify_functions exports (engine.export_names exports)) [
      | some e ↦ some e
      | none ↦ check_backward_compatibility exports h
    ]
  ]

  -- A contract without a module cannot be verified: Go panics on a nil instance.
  unfoldable pub verify_contract_code : Host → Host × Option VmError
  verify_contract_code h =
      let h' = record h { runtime = record h.runtime { verify_code = false } } in
      let err : Option VmError = elim h.runtime.exports [
        | none ↦ some memory_declaration_missing
        | some exports ↦ check_contract_code exports h
      ] in
      if h.runtime.verify_code then (h', err) else (h, none)

  -- An error of the cache is logged only.
  unfoldable pub save_compiled : Bytes → Host → Host
  save_compiled hash h = elim h.runtime.exports [
    | none ↦ h
    | some exports ↦ elim (engine.cache exports) [
      | inl e ↦ h
      | inr code ↦ record h {
        blockchain = record h.blockchain {
          calls = save_compiled_code hash code ∷ h.blockchain.calls;
        };
      }
    ]
  ]

  unfoldable pub make_instance_from_contract_byte_code :
      Bytes → Bytes → ℕ → Bool → Host → Host × Option VmError
  make_instance_from_contract_byte_code contract code_hash gas_limit new_code h =
      elim (engine.new_instance contract gas_limit) [
        | inl e ↦ (on_runtime clean_wasmer_instance h, some e)
        | inr instance ↦
            let h1 = on_runtime (set_instance instance) h in
            let hash : VmError ⊎ Bytes =
              if new_code || is_empty code_hash then engine.sha256 contract else inr code_hash in
            elim hash [
              | inl e ↦ (on_runtime clean_wasmer_instance h1, some e)
              | inr hash' ↦
                  let h2 = save_compiled hash' h1 in
                  let (h3, err) = verify_contract_code h2 in
                  if new_code
                  then elim err [
                    | some e ↦ (on_runtime clean_wasmer_instance h3, some e)
                    | none ↦ (h3, none)
                  ]
                  else (h2, none)
            ]
      ]

  module _ (hook : BlockchainHook) where
    -- The host with the new instance, if one was made.
    unfoldable pub make_instance_from_compiled_code : Bytes → ℕ → Bool → Host → Option Host
    make_instance_from_compiled_code code_hash gas_limit new_code h =
        if not h.flags.ahead_of_time_compile_enabled || new_code || is_empty code_hash
        then none
        else elim (hook.get_compiled_code h.blockchain.calls code_hash) [
          | none ↦ none
          | some compiled ↦ elim (engine.new_instance_from_compiled_code compiled gas_limit) [
            | inl e ↦ none
            | inr instance ↦
                some (on_runtime (λ r. record (set_instance instance r) { verify_code = false }) h)
          ]
        ]

    unfoldable pub start_wasmer_instance : Bytes → ℕ → Bool → Host → Host × Option VmError
    start_wasmer_instance contract gas_limit new_code h =
        let code_hash = get_code_hash hook h.runtime.sc_address in
        if leb h.runtime.max_wasmer_instances (length h.runtime.instance_stack)
        then (on_runtime clean_wasmer_instance h, some max_instances_reached)
        else elim (make_instance_from_compiled_code code_hash gas_limit new_code h) [
          | some h' ↦ (h', none)
          | none ↦ make_instance_from_contract_byte_code contract code_hash gas_limit new_code h
        ]

  -- The function of the current instance with a name.
  unfoldable pub exported : String → Host → Option (Host → Host × Option VmError)
  exported name h = elim h.runtime.exports [
    | none ↦ none
    | some exports ↦
        if engine.has_function exports name then some (engine.function exports name) else none
  ]

  unfoldable pub has_callback_method : Host → Bool
  has_callback_method h = elim (exported callback_function_name h) [ none ↦ false | some f ↦ true ]

  unfoldable pub get_function_to_call : Host → VmError ⊎ (Host → Host × Option VmError)
  get_function_to_call h = elim (exported h.runtime.call_function h) [
    | some f ↦ inr f
    | none ↦ inl (
        if same_text h.runtime.call_function callback_function_name
        then nil_callback_function
        else func_not_found)
  ]

  unfoldable pub get_init_function : Host → Option (Host → Host × Option VmError)
  get_init_function h = exported init_function_name h
