-- ===== src/Hook.antt =====
-- vmcommon.BlockchainHook: what the node answers to the VM. It is not part of this repository, so it
-- is a parameter of the operations that ask it.
use wasm_vm_v.Prelude.{ℕ, Bool, Bytes, Option, List}
use wasm_vm_v.Prelude.Int.{ℤ}
use wasm_vm_v.Errors.{VmError}
use wasm_vm_v.Output.Types.{VmOutput}
use wasm_vm_v.Host.{HookCall, ContractCallInput}

pub record UserAccount : Type 0 where
  pub balance : ℤ
  pub nonce : ℕ
  pub code_metadata : Bytes
  pub owner_address : Bytes
  pub code_hash : Bytes

-- `(value, err)` where the value may be a nil pointer.
pub data Answer (A : Type 0) : Type 0 where
  found : A → Answer A
  missing : Answer A
  failed : VmError → Answer A

pub record BlockchainHook : Type 0 where
  pub get_user_account : Bytes → Answer UserAccount
  -- The value that is returned next to an error is used as it is.
  pub get_storage_data : Bytes → Bytes → Bytes
  pub get_code : UserAccount → Bytes
  pub is_smart_contract : Bytes → Bool
  pub is_payable : Bytes → Bool × Option VmError
  pub new_address : Bytes → ℕ → Answer Bytes
  -- `vmcommon.CodeMetadataFromBytes(metadata).Readable`.
  pub is_readable : Bytes → Bool
  -- `vmcommon.CodeMetadataFromBytes(metadata).Upgradeable`.
  pub is_upgradeable : Bytes → Bool
  pub get_shard_of_address : Bytes → ℕ
  -- What the node answers after the calls that it has had, the last one first.
  pub get_snapshot : List HookCall → ℕ
  pub get_compiled_code : List HookCall → Bytes → Option Bytes
  pub process_built_in_function : List HookCall → ContractCallInput → VmOutput × Option VmError
