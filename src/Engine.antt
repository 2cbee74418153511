-- ===== src/Engine.antt =====
-- What the Wasmer engine, the hash function, the parser of call arguments and the container of
-- built-in functions answer. They are not part of this repository, so they are parameters of the
-- operations that ask them. A contract's function is what its WASM code does to the host through
-- the API, and the error that Wasmer returns.
use Prim.Native.String.{String}
use wasm_vm_v.Prelude.{ℕ, Bool, false, ◌⊎◌, Option, none, some, List, Bytes}
use wasm_vm_v.Errors.{VmError}
use wasm_vm_v.Host.{Host, Instance}

pub record Engine : Type 0 where
  -- NewInstanceWithOptions and NewInstanceFromCompiledCodeWithOptions, with the gas limit.
  pub new_instance : Bytes → ℕ → VmError ⊎ Instance
  pub new_instance_from_compiled_code : Bytes → ℕ → VmError ⊎ Instance
  -- What the module of an instance has: its exported functions by name, whether it has a memory, the
  -- names of the exports, their numbers of inputs and outputs, and what it imports.
  pub has_function : ℕ → String → Bool
  pub function : ℕ → String → Host → Host × Option VmError
  pub has_memory : ℕ → Bool
  pub export_names : ℕ → List String
  pub signature : ℕ → String → Option (ℕ × ℕ)
  pub is_function_imported : ℕ → String → Bool
  -- The compiled code of an instance.
  pub cache : ℕ → VmError ⊎ Bytes
  -- The memory after it has grown by some pages.
  pub grow : Bytes → ℕ → VmError ⊎ Bytes
  pub sha256 : Bytes → VmError ⊎ Bytes
  -- Whether a built-in function is active, if there is one of the name, and the names of all.
  pub builtin_function : String → Option Bool
  pub builtin_names : List String
  -- The names of the functions that the VM offers to contracts.
  pub api_names : List String
  -- `ParseData` of the parser of call arguments: the function and its arguments.
  pub parse_data : Bytes → VmError ⊎ (String × List Bytes)
  -- Constants of mx-chain-core-go: BuiltInFunctionESDTTransfer, BuiltInFunctionESDTNFTTransfer and
  -- NonFungible.
  pub esdt_transfer : String
  pub esdt_nft_transfer : String
  pub non_fungible : ℕ

-- IsBuiltinFunctionName of vmhost/hostCore/execution.go.
unfoldable pub is_builtin_function_name : Engine → String → Bool
is_builtin_function_name engine name = elim (engine.builtin_function name) [
  | none ↦ false
  | some active ↦ active
]
