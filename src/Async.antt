-- ===== src/Async.antt =====
-- Asynchronous calls: vmhost/hostCore/asyncCall.go, and what vmhost/contexts/runtime.go and
-- vmhost/common.go keep for them. ExecuteOnDestContext is a parameter here, since it comes back into
-- these functions.
pub mod Request
pub mod Input
pub mod Modes
pub mod Gas
pub mod Pending
pub mod Breakpoint
pub mod Process
pub mod Callback
pub mod Method
pub mod Stacks
pub mod Waiting
pub mod Resolved
pub mod Sent
pub mod LockedGas
pub mod Panics
use Prim.Native.String.{String}
use wasm_vm_v.Prelude.{ℕ, ◌⊎◌, Option, Bytes, ◌++◌, ◌∷◌, []}
use wasm_vm_v.Errors.{VmError, ReturnCode}
use wasm_vm_v.Output.Types.{VmOutput}
use wasm_vm_v.Host.{Host, ContractCallInput, AsyncCallInfo, AsyncGeneratedCall, AsyncContextInfo}
use wasm_vm_v.Storage.{protected_storage_prefix}

pub data AsyncCallExecutionMode : Type 0 where
  sync_call async_builtin_func_intra_shard async_builtin_func_cross_shard : AsyncCallExecutionMode
  esdt_transfer_on_call_back async_unknown : AsyncCallExecutionMode

-- The JSON notation of encoding/json, and the numbers and names that vmcommon gives to return codes.
pub record Codec : Type 0 where
  pub marshal : AsyncContextInfo → VmError ⊎ Bytes
  pub unmarshal : Bytes → VmError ⊎ AsyncContextInfo
  pub return_code_number : ReturnCode → ℕ
  pub return_code_text : ReturnCode → String

-- The output is nil where there is none, and so is the information on the calls of the callee.
abbrev pub Executed : Type 0
Executed = Host × Option VmOutput × Option AsyncContextInfo × Option VmError

-- What GetDestination, GetData, GetGasLimit, GetGasLocked and GetValueBytes answer for a call of an
-- asynchronous context: no gas is locked for it.
abbrev pub as_call_info : AsyncGeneratedCall → AsyncCallInfo
as_call_info call = record {
  destination = call.destination;
  content = call.content;
  gas_limit = call.gas_limit;
  gas_locked = 0;
  value_bytes = call.value_bytes;
}

-- "ARWEN@ASYNC".
abbrev pub async_data_prefix : Bytes
async_data_prefix = protected_storage_prefix ++ b'A' ∷ b'S' ∷ b'Y' ∷ b'N' ∷ b'C' ∷ []
