-- ===== src/Runtime.antt =====
-- The runtime context of vmhost/contexts/runtime.go: its state, the stacks of states and of
-- instances, and the current call. The operations on the Wasmer instance and on its memory are in
-- the children. Warm instances are not used.
pub mod Memory
pub mod Bounds
pub mod Hex
pub mod Text
pub mod Instances
pub mod Verified
use Prim.Native.String.{String}
use wasm_vm_v.Prelude.{
  ℕ, Bool, true, false, ◌||◌, ◌⊎◌, inl, inr, Option, none, some, List, [], ◌∷◌, Bytes, bytes_equal,
}
use wasm_vm_v.Prelude.Map.{}
use wasm_vm_v.Prelude.Int.{pos}
use wasm_vm_v.Errors.{VmError, invalid_upgrade_arguments}
use wasm_vm_v.Output.Types.{direct_call}
use wasm_vm_v.Host.{
  Runtime, RuntimeState, VmInput, ContractCallInput, Instance, InstancePointer, same_instance,
  other_instance, nil_instance, AsyncContextInfo, AsyncCallInfo,
}

-- SetVMInput copies the fields, but for the hash of the previous transaction.
unfoldable pub set_vm_input : VmInput → Runtime → Runtime
set_vm_input input r = record r {
  active = record r.active { vm_input = record input { prev_tx_hash = [] } };
}

-- `&vmcommon.VMInput{}`.
abbrev pub empty_vm_input : VmInput
empty_vm_input = record {
  caller_addr = [];
  call_type = direct_call;
  gas_price = 0;
  gas_provided = 0;
  gas_locked = 0;
  call_value = pos 0;
  arguments = [];
  esdt_transfers = [];
  return_call_after_error = false;
  original_tx_hash = [];
  current_tx_hash = [];
  prev_tx_hash = [];
}

abbrev pub empty_async_context_info : Bytes → AsyncContextInfo
empty_async_context_info caller = record {
  async_caller_addr = caller;
  return_data = [];
  async_context_map = [];
}

unfoldable pub init_state : Runtime → Runtime
init_state r = record r {
  active = record {
    vm_input = empty_vm_input;
    sc_address = [];
    call_function = "";
    read_only = false;
    async_call_info = none;
    async_context_info = empty_async_context_info [];
  };
  verify_code = false;
  errors = [];
}

unfoldable pub init_state_from_contract_call_input : ContractCallInput → Runtime → Runtime
unfolding set_vm_input
init_state_from_contract_call_input call r =
    let r' = set_vm_input call.input r in
    record r' {
      active = record r'.active {
        sc_address = call.recipient_addr;
        call_function = call.function;
        async_context_info = empty_async_context_info call.caller_addr;
      };
    }

-- The saved state holds a copy of the input, which SetVMInput makes.
unfoldable pub push_state : Runtime → Runtime
push_state r = record r {
  state_stack =
      record r.active { vm_input = record r.vm_input { prev_tx_hash = [] } } ∷ r.state_stack;
  instance_stack = same_instance ∷ r.instance_stack;
}

-- Another instance takes the place of the current one, which stays on the stack if it was pushed.
unfoldable pub keep_instance : Instance → List InstancePointer → List InstancePointer
keep_instance i [] = []
keep_instance i (same_instance ∷ stack) = other_instance i ∷ stack
keep_instance i (other_instance j ∷ stack) = other_instance j ∷ stack

unfoldable pub set_instance : Instance → Runtime → Runtime
unfolding keep_instance
set_instance i r = record r {
  instance = i;
  instance_stack = keep_instance r.instance r.instance_stack;
}

unfoldable pub clean_wasmer_instance : Runtime → Runtime
unfolding set_instance
clean_wasmer_instance r = set_instance nil_instance r

pop_instance_from : List InstancePointer → Runtime → Runtime
pop_instance_from [] r = r
pop_instance_from (same_instance ∷ stack) r = record r { instance_stack = stack }
pop_instance_from (other_instance i ∷ stack) r = record r { instance = i; instance_stack = stack }

unfoldable pub pop_instance : Runtime → Runtime
unfolding pop_instance_from
pop_instance r = pop_instance_from r.instance_stack r

pop_set_active : List RuntimeState → Runtime → Runtime
unfolding pop_instance
pop_set_active [] r = r
pop_set_active (prev ∷ rest) r = pop_instance (record r {
  state_stack = rest;
  active = record prev { vm_input = record prev.vm_input { prev_tx_hash = [] } };
})

unfoldable pub pop_set_active_state : Runtime → Runtime
unfolding pop_set_active
pop_set_active_state r = pop_set_active r.state_stack r

pop_top : List RuntimeState → Runtime → Runtime
unfolding pop_instance
pop_top [] r = r
pop_top (prev ∷ rest) r = pop_instance (record r { state_stack = rest })

unfoldable pub pop_discard : Runtime → Runtime
unfolding pop_top
pop_discard r = pop_top r.state_stack r

-- The instances stay on their stack.
unfoldable pub clear_state_stack : Runtime → Runtime
clear_state_stack r = record r { state_stack = [] }

unfoldable pub must_verify_next_contract_code : Runtime → Runtime
must_verify_next_contract_code r = record r { verify_code = true }

unfoldable pub set_async_call_info : Option AsyncCallInfo → Runtime → Runtime
set_async_call_info info r = record r { active = record r.active { async_call_info = info } }

unfoldable pub is_contract_on_the_stack : Bytes → List RuntimeState → Bool
is_contract_on_the_stack addr [] = false
is_contract_on_the_stack addr (state ∷ stack) =
    bytes_equal addr state.sc_address || is_contract_on_the_stack addr stack

take_upgrade_arguments : List Bytes → Runtime → Runtime × (VmError ⊎ (Bytes × Bytes))
take_upgrade_arguments [] r = (r, inl invalid_upgrade_arguments)
take_upgrade_arguments (code ∷ []) r = (r, inl invalid_upgrade_arguments)
take_upgrade_arguments (code ∷ metadata ∷ arguments) r = (
  record r { active = record r.active { vm_input = record r.vm_input { arguments = arguments } } },
  inr (code, metadata),
)

-- The code and its metadata, which are taken off the arguments.
unfoldable pub extract_code_upgrade_from_args : Runtime → Runtime × (VmError ⊎ (Bytes × Bytes))
unfolding take_upgrade_arguments
extract_code_upgrade_from_args r = take_upgrade_arguments r.vm_input.arguments r
