-- ===== src/Runtime/Verified.antt =====
-- What is known of an instance of new code that the VM has started, and how many instances there
-- are.
use Prim.Native.String.{String}
use wasm_vm_v.Prelude.{
  ◌≡◌, none, some, List, [], ◌∷◌, Bytes, arith, ℕ, true, inl, inr, Option-cases, Bool-cases,
  Sum-cases, length, leb, not,
}
use wasm_vm_v.Host.{Host}
use wasm_vm_v.Hook.{BlockchainHook}
use wasm_vm_v.Engine.{Engine}
use wasm_vm_v.Blockchain.{get_code_hash}
use wasm_vm_v.Runtime.{set_instance}
use wasm_vm_v.Runtime.Instances.{
  start_wasmer_instance, make_instance_from_compiled_code, make_instance_from_contract_byte_code,
  save_compiled, verify_contract_code, check_contract_code, verify_functions,
  verify_valid_function_name, verify_void_function, verify_memory_declaration,
}

-- Every exported function has a name that is allowed, and neither inputs nor outputs.
pub ExportsAreValid : Engine → ℕ → List String → Type 0
ExportsAreValid engine m [] = Unit
ExportsAreValid engine m (name ∷ names) =
    (verify_valid_function_name engine name ≡ none)
    × (engine.signature m name ≡ some (0, 0))
    × ExportsAreValid engine m names

verify_void_function_lem :
    (engine : Engine) (m : ℕ) (name : String)
    → verify_void_function engine m name ≡ none
    → engine.signature m name ≡ some (0, 0)
unfolding verify_void_function
verify_void_function_lem engine m name h = ground arith

verify_functions_lem :
    (engine : Engine) (m : ℕ) (names : List String)
    → verify_functions engine m names ≡ none
    → ExportsAreValid engine m names
unfolding verify_functions ExportsAreValid
verify_functions_lem engine m [] h = tt
verify_functions_lem engine m (name ∷ names) h =
    ground (arith, verify_void_function_lem engine m name, verify_functions_lem engine m names)

-- The code of an instance is verified: it has a memory and valid exports.
pub record Verified (engine : Engine) (h : Host) : Type 0 where
  pub exports : ℕ
  pub is_running : h.runtime.exports ≡ some exports
  pub memory : engine.has_memory exports ≡ true
  pub functions : ExportsAreValid engine exports (engine.export_names exports)

check_contract_code_lem :
    (engine : Engine) (m : ℕ) (h h' : Host)
    → h'.runtime.exports ≡ some m
    → check_contract_code engine m h ≡ none
    → Verified engine h'
unfolding check_contract_code verify_memory_declaration
check_contract_code_lem engine m h h' running fine = record {
  exports = m;
  is_running = running;
  memory = ground arith;
  functions = verify_functions_lem engine m (engine.export_names m) (ground arith);
}

verify_contract_code_lem :
    (engine : Engine) (h : Host)
    → h.runtime.verify_code ≡ true
    → (verify_contract_code engine h).1 ≡ none
    → Verified engine (verify_contract_code engine h).0
unfolding verify_contract_code
verify_contract_code_lem engine h must fine = elim (Option-cases h.runtime.exports) [
  | inl nil ↦ ground (arith, nil, must, fine)
  | inr (m, running) ↦
      check_contract_code_lem engine m h _ (ground (arith, running, must))
        (ground (arith, running, must, fine))
]

save_compiled-runtime :
    (engine : Engine) (hash : Bytes) (h : Host) → (save_compiled engine hash h).runtime ≡ h.runtime
unfolding save_compiled
save_compiled-runtime engine hash h = ground arith

make_new_instance-Verified :
    (engine : Engine) (code hash : Bytes) (gas : ℕ) (h : Host)
    → h.runtime.verify_code ≡ true
    → (make_instance_from_contract_byte_code engine code hash gas true h).1 ≡ none
    → Verified engine (make_instance_from_contract_byte_code engine code hash gas true h).0
unfolding make_instance_from_contract_byte_code set_instance
make_new_instance-Verified engine code hash gas h must fine =
    elim (Sum-cases (engine.new_instance code gas)) [
      | inl (e, bad) ↦ ground (arith, bad, fine)
      | inr (i, made) ↦
          let h1 = record h { runtime = set_instance i h.runtime } in
          elim (Sum-cases (engine.sha256 code)) [
            | inl (e, bad) ↦ ground (arith, made, bad, fine)
            | inr (hash', hashed) ↦
                let h2 = save_compiled engine hash' h1 in
                let must2 : h2.runtime.verify_code ≡ true =
                  ground (arith, save_compiled-runtime engine hash' h1, must) in
                ground (arith, made, hashed, fine, must2, verify_contract_code_lem engine h2)
          ]
    ]

-- New code that must be verified runs only if it was: an instance that StartWasmerInstance has
-- started has a memory, and every function that it exports has a name that is allowed, and neither
-- inputs nor outputs.
pub start_wasmer_instance-Verified :
    (engine : Engine) (hook : BlockchainHook) (code : Bytes) (gas : ℕ) (h : Host)
    → h.runtime.verify_code ≡ true
    → (start_wasmer_instance engine hook code gas true h).1 ≡ none
    → Verified engine (start_wasmer_instance engine hook code gas true h).0
unfolding start_wasmer_instance make_instance_from_compiled_code
start_wasmer_instance-Verified engine hook code gas h must fine =
    let hash = get_code_hash hook h.runtime.sc_address in
    let full = leb h.runtime.max_wasmer_instances (length h.runtime.instance_stack) in
    let compiled = not h.flags.ahead_of_time_compile_enabled in
    elim (Bool-cases full) [
      | inl no_room ↦ ground (arith, no_room, fine)
      | inr room ↦ elim (Bool-cases compiled) [
        | inl off ↦
            ground (arith, room, off, fine, make_new_instance-Verified engine code hash gas h must)
        | inr on ↦
            ground (arith, room, on, fine, make_new_instance-Verified engine code hash gas h must)
      ]
    ]
