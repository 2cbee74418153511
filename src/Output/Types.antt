-- ===== src/Output/Types.antt =====
-- The data of an execution's output: the fields of vmcommon's VMOutput, OutputAccount,
-- OutputTransfer, StorageUpdate and LogEntry that the VM reads or writes.
use Prim.Native.String.{String}
use wasm_vm_v.Prelude.{ℕ, Option, none, some, List, [], Bytes}
use wasm_vm_v.Prelude.Map.{Map}
use wasm_vm_v.Prelude.Int.{ℤ, pos}
use wasm_vm_v.Errors.{ReturnCode, ok}

-- vm.CallType.
pub data CallType : Type 0 where
  direct_call asynchronous_call asynchronous_call_back esdt_transfer_and_execute : CallType

pub record StorageUpdate : Type 0 where
  pub offset : Bytes
  pub content : Bytes

pub record OutputTransfer : Type 0 where
  pub value : ℤ
  pub gas_limit : ℕ
  pub gas_locked : ℕ
  pub content : Bytes
  pub call_type : CallType
  pub sender_address : Bytes

pub record LogEntry : Type 0 where
  pub identifier : Bytes
  pub address : Bytes
  pub topics : List Bytes
  pub content : List Bytes

-- `none` is a nil pointer or a nil slice where the code tells it from an empty one.
pub record OutputAccount : Type 0 where
  pub address : Bytes
  pub nonce : ℕ
  pub balance : Option ℤ
  pub balance_delta : Option ℤ
  pub storage_updates : Map Bytes StorageUpdate
  pub code : Bytes
  pub code_metadata : Bytes
  pub code_deployer_address : Option Bytes
  pub output_transfers : List OutputTransfer
  pub gas_used : ℕ

pub record VmOutput : Type 0 where
  pub return_data : List Bytes
  pub return_code : ReturnCode
  pub return_message : String
  pub gas_remaining : ℕ
  pub gas_refund : Option ℤ
  pub output_accounts : Map Bytes OutputAccount
  pub logs : List LogEntry

-- `&vmcommon.OutputAccount{}`.
abbrev pub zero_account : OutputAccount
zero_account = record {
  address = [];
  nonce = 0;
  balance = none;
  balance_delta = none;
  storage_updates = [];
  code = [];
  code_metadata = [];
  code_deployer_address = none;
  output_transfers = [];
  gas_used = 0;
}

-- `newVMOutput`.
abbrev pub new_vm_output : VmOutput
new_vm_output = record {
  return_data = [];
  return_code = ok;
  return_message = "";
  gas_remaining = 0;
  gas_refund = some (pos 0);
  output_accounts = [];
  logs = [];
}

-- `NewVMOutputAccount`.
abbrev pub new_vm_output_account : Bytes → OutputAccount
new_vm_output_account addr = record zero_account { address = addr; balance_delta = some (pos 0) }
