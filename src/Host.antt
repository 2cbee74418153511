-- ===== src/Host.antt =====
-- The VM host: the contexts that an execution works on, as one state. The contexts call each other
-- through the host, so an operation that touches several of them is a function on this record.
use Prim.Native.String.{String}
use wasm_vm_v.Prelude.{ℕ, Bool, Option, none, List, [], Bytes}
use wasm_vm_v.Prelude.Map.{Map}
use wasm_vm_v.Prelude.Int.{ℤ}
use wasm_vm_v.Errors.{VmError}
use wasm_vm_v.Output.Types.{CallType}
use wasm_vm_v.Output.{OutputContext}

-- The entries of config.GasCost that the modelled code reads.
pub record BaseOperationCost : Type 0 where
  pub store_per_byte : ℕ
  pub release_per_byte : ℕ
  pub data_copy_per_byte : ℕ
  pub persist_per_byte : ℕ
  pub compile_per_byte : ℕ
  pub aot_prepare_per_byte : ℕ
  pub get_code : ℕ

pub record BaseOpsApiCost : Type 0 where
  pub create_contract : ℕ
  pub async_call_step : ℕ
  pub async_callback_gas_lock : ℕ
  pub get_sc_address : ℕ
  pub get_caller : ℕ
  pub get_call_value : ℕ
  pub get_gas_left : ℕ
  pub get_argument : ℕ
  pub get_num_arguments : ℕ
  pub get_function : ℕ
  pub storage_store : ℕ
  pub storage_load : ℕ
  pub int64_get_argument : ℕ
  pub int64_storage_store : ℕ
  pub int64_storage_load : ℕ
  pub int64_finish : ℕ
  pub transfer_value : ℕ
  pub finish : ℕ
  pub is_smart_contract : ℕ
  pub get_shard_of_address : ℕ
  pub get_external_balance : ℕ
  pub get_num_return_data : ℕ
  pub get_return_data_size : ℕ
  pub get_return_data : ℕ

pub record BigIntApiCost : Type 0 where
  pub big_int_new : ℕ
  pub big_int_is_int64 : ℕ
  pub big_int_get_int64 : ℕ
  pub big_int_sub : ℕ
  pub big_int_mul : ℕ
  pub big_int_t_div : ℕ
  pub big_int_sign : ℕ
  pub big_int_cmp : ℕ
  pub big_int_get_call_value : ℕ
  pub big_int_get_unsigned_argument : ℕ
  pub big_int_unsigned_byte_length : ℕ
  pub big_int_finish_unsigned : ℕ

pub record GasCost : Type 0 where
  pub base_operation_cost : BaseOperationCost
  pub base_ops_api_cost : BaseOpsApiCost
  pub big_int_api_cost : BigIntApiCost

-- What PushState saves of a metering context.
pub record MeteringState : Type 0 where
  pub initial_gas_provided : ℕ
  pub initial_cost : ℕ
  pub gas_for_execution : ℕ
  pub gas_used_by_accounts : Map Bytes ℕ

pub record MeteringContext : Type 0 where
  pub active : MeteringState
  pub open active use *
  pub state_stack : List MeteringState
  pub gas_schedule : GasCost
  pub block_gas_limit : ℕ

pub record StorageContext : Type 0 where
  pub address : Bytes
  pub state_stack : List Bytes
  pub protected_key_prefix : Bytes
  pub vm_storage_protection_enabled : Bool

-- A handle is the bit pattern of an int32.
pub record BigIntContext : Type 0 where
  pub values : Map ℕ ℤ
  pub state_stack : List (Map ℕ ℤ)

pub data Breakpoint : Type 0 where
  breakpoint_none breakpoint_execution_failed breakpoint_async_call : Breakpoint
  breakpoint_signal_error breakpoint_out_of_gas : Breakpoint

pub record EsdtTransfer : Type 0 where
  pub esdt_value : ℤ
  pub esdt_token_name : Bytes
  pub esdt_token_type : ℕ
  pub esdt_token_nonce : ℕ

-- vmcommon.VMInput.
pub record VmInput : Type 0 where
  pub caller_addr : Bytes
  pub call_type : CallType
  pub gas_price : ℕ
  pub gas_provided : ℕ
  pub gas_locked : ℕ
  pub call_value : ℤ
  pub arguments : List Bytes
  pub esdt_transfers : List EsdtTransfer
  pub return_call_after_error : Bool
  pub original_tx_hash : Bytes
  pub current_tx_hash : Bytes
  pub prev_tx_hash : Bytes

-- vmcommon.ContractCallInput.
pub record ContractCallInput : Type 0 where
  pub input : VmInput
  pub open input use *
  pub recipient_addr : Bytes
  pub function : String
  pub allow_init_function : Bool

-- vmcommon.ContractCreateInput.
pub record ContractCreateInput : Type 0 where
  pub input : VmInput
  pub open input use *
  pub contract_code : Bytes
  pub contract_code_metadata : Bytes

pub record AsyncCallInfo : Type 0 where
  pub destination : Bytes
  pub content : Bytes
  pub gas_limit : ℕ
  pub gas_locked : ℕ
  pub value_bytes : Bytes

pub data AsyncCallStatus : Type 0 where
  async_call_pending async_call_resolved async_call_rejected : AsyncCallStatus

pub record AsyncGeneratedCall : Type 0 where
  pub status : AsyncCallStatus
  pub destination : Bytes
  pub content : Bytes
  pub gas_limit : ℕ
  pub value_bytes : Bytes
  pub success_callback : String
  pub error_callback : String
  pub provided_gas : ℕ

pub record AsyncContext : Type 0 where
  pub callback : String
  pub async_calls : List AsyncGeneratedCall

pub record AsyncContextInfo : Type 0 where
  pub async_caller_addr : Bytes
  pub return_data : Bytes
  pub async_context_map : Map Bytes AsyncContext

-- A Wasmer instance. `exports` names its module: what the functions are is asked of the engine.
-- A nil instance is one without a module, with no gas points and no memory.
pub record Instance : Type 0 where
  pub exports : Option ℕ
  pub points_used : ℕ
  pub breakpoint : Breakpoint
  pub memory : Bytes

abbrev pub nil_instance : Instance
nil_instance = record { exports = none; points_used = 0; breakpoint = breakpoint_none; memory = [] }

-- A pointer on the instance stack: to the same instance as the pointer above it, where above the top
-- there is the current instance, or to another one. What is written to an instance is so written for
-- every pointer to it: an instance that is not current is in one place only.
pub data InstancePointer : Type 0 where
  same_instance : InstancePointer
  other_instance : Instance → InstancePointer

-- What PushState saves of a runtime context, next to the instance.
pub record RuntimeState : Type 0 where
  pub vm_input : VmInput
  pub sc_address : Bytes
  pub call_function : String
  pub read_only : Bool
  pub async_call_info : Option AsyncCallInfo
  pub async_context_info : AsyncContextInfo

pub record Runtime : Type 0 where
  pub active : RuntimeState
  pub open active use *
  pub instance : Instance
  pub open instance use *
  pub state_stack : List RuntimeState
  pub instance_stack : List InstancePointer
  pub max_wasmer_instances : ℕ
  pub code_size : ℕ
  pub verify_code : Bool
  -- The wrapped errors, the last one at the end, each with its further information.
  pub errors : List (VmError × List String)

-- A call that asks the node to change its state, or to keep compiled code.
pub data HookCall : Type 0 where
  revert_to_snapshot : ℕ → HookCall
  save_compiled_code : Bytes → Bytes → HookCall
  process_builtin_function : ContractCallInput → HookCall

-- The snapshots that the blockchain context has pushed, and the calls so far, the last one first.
pub record BlockchainContext : Type 0 where
  pub state_stack : List ℕ
  pub calls : List HookCall

-- The activation flags that the host answers for.
pub record Flags : Type 0 where
  pub vm_v2_enabled : Bool
  pub vm_v3_enabled : Bool
  pub ahead_of_time_compile_enabled : Bool
  pub dynamic_gas_locking_enabled : Bool
  pub esdt_functions_enabled : Bool

pub record Host : Type 0 where
  pub metering : MeteringContext
  pub output : OutputContext
  pub storage : StorageContext
  pub big_int : BigIntContext
  pub runtime : Runtime
  pub blockchain : BlockchainContext
  pub flags : Flags

abbrev pub base_cost : Host → BaseOperationCost
base_cost h = h.metering.gas_schedule.base_operation_cost
