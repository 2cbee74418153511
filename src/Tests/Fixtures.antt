-- ===== src/Tests/Fixtures.antt =====
-- A host in the middle of an execution, and a node that answers to it.
use wasm_vm_v.Prelude.{true, false, none, some, [], ◌∷◌, Bytes, length}
use wasm_vm_v.Prelude.Int.{pos, negsuc}
use wasm_vm_v.Output.{OutputContext}
use wasm_vm_v.Output.Types.{
  OutputAccount, OutputTransfer, new_vm_output_account, new_vm_output, direct_call,
}
use wasm_vm_v.Host.{Host, GasCost, MeteringContext, VmInput, breakpoint_none}
use wasm_vm_v.Hook.{BlockchainHook, UserAccount, found, missing}

abbrev pub alice : Bytes
alice = 1 ∷ []

abbrev pub contract : Bytes
contract = 3 ∷ []

abbrev pub key : Bytes
key = 10 ∷ []

abbrev pub schedule : GasCost
schedule = record {
  base_operation_cost = record {
    store_per_byte = 5;
    release_per_byte = 3;
    data_copy_per_byte = 1;
    persist_per_byte = 2;
    compile_per_byte = 1;
    aot_prepare_per_byte = 1;
    get_code = 10;
  };
  base_ops_api_cost = record {
    create_contract = 20;
    async_call_step = 10;
    async_callback_gas_lock = 40;
    get_sc_address = 1;
    get_caller = 1;
    get_call_value = 1;
    get_gas_left = 1;
    get_argument = 1;
    get_num_arguments = 1;
    get_function = 1;
    storage_store = 4;
    storage_load = 2;
    int64_get_argument = 1;
    int64_storage_store = 4;
    int64_storage_load = 2;
    int64_finish = 1;
    transfer_value = 5;
    finish = 1;
    is_smart_contract = 1;
    get_shard_of_address = 1;
    get_external_balance = 1;
    get_num_return_data = 1;
    get_return_data_size = 1;
    get_return_data = 1;
  };
  big_int_api_cost = record {
    big_int_new = 1;
    big_int_is_int64 = 1;
    big_int_get_int64 = 1;
    big_int_sub = 1;
    big_int_mul = 2;
    big_int_t_div = 3;
    big_int_sign = 1;
    big_int_cmp = 1;
    big_int_get_call_value = 1;
    big_int_get_unsigned_argument = 1;
    big_int_unsigned_byte_length = 1;
    big_int_finish_unsigned = 1;
  };
}

abbrev pub payment : OutputTransfer
payment = record {
  value = pos 5;
  gas_limit = 30;
  gas_locked = 0;
  content = [];
  call_type = direct_call;
  sender_address = contract;
}

-- The contract has sent 5 to Alice and cached one value of its storage.
abbrev pub contract_account : OutputAccount
contract_account = record (new_vm_output_account contract) {
  balance_delta = some (negsuc 4);
  storage_updates = (key, record { offset = key; content = 7 ∷ 8 ∷ [] }) ∷ [];
  code = 0 ∷ [];
}

abbrev pub alice_account : OutputAccount
alice_account = record (new_vm_output_account alice) {
  balance_delta = some (pos 5);
  nonce = 4;
  output_transfers = payment ∷ [];
}

abbrev pub output : OutputContext
output = record {
  output_state = record new_vm_output {
    gas_remaining = 700;
    output_accounts = (contract, contract_account) ∷ (alice, alice_account) ∷ [];
  };
  state_stack = [];
  code_updates = [];
}

abbrev pub metering : MeteringContext
metering = record {
  active = record {
    initial_gas_provided = 1000;
    initial_cost = 100;
    gas_for_execution = 900;
    gas_used_by_accounts = (alice, 50) ∷ [];
  };
  state_stack = [];
  gas_schedule = schedule;
  block_gas_limit = 1500000;
}

abbrev pub vm_input : VmInput
vm_input = record {
  caller_addr = alice;
  call_type = direct_call;
  gas_price = 1;
  gas_provided = 1000;
  gas_locked = 0;
  call_value = pos 0;
  arguments = (1 ∷ 4 ∷ []) ∷ [];
  esdt_transfers = [];
  return_call_after_error = false;
  original_tx_hash = [];
  current_tx_hash = [];
  prev_tx_hash = [];
}

abbrev pub host : Host
host = record {
  metering = metering;
  output = output;
  storage = record {
    address = contract;
    state_stack = [];
    protected_key_prefix = b'E' ∷ [];
    vm_storage_protection_enabled = true;
  };
  big_int = record { values = (0, pos 17) ∷ (1, negsuc 4) ∷ (2, pos 0) ∷ []; state_stack = [] };
  runtime = record {
    active = record {
      vm_input = vm_input;
      sc_address = contract;
      call_function = "pay";
      read_only = false;
      async_call_info = none;
      async_context_info = record {
        async_caller_addr = alice;
        return_data = [];
        async_context_map = [];
      };
    };
    instance = record {
      exports = some 0;
      points_used = 200;
      breakpoint = breakpoint_none;
      memory = 1 ∷ 2 ∷ 3 ∷ 4 ∷ [];
    };
    state_stack = [];
    instance_stack = [];
    max_wasmer_instances = 10;
    code_size = 1;
    verify_code = false;
    errors = [];
  };
  blockchain = record { state_stack = []; calls = [] };
  flags = record {
    vm_v2_enabled = true;
    vm_v3_enabled = true;
    ahead_of_time_compile_enabled = false;
    dynamic_gas_locking_enabled = true;
    esdt_functions_enabled = true;
  };
}

abbrev pub user : UserAccount
user = record {
  balance = pos 100;
  nonce = 7;
  code_metadata = [];
  owner_address = alice;
  code_hash = [];
}

-- Every account exists, and every key that is not cached is empty.
abbrev pub hook : BlockchainHook
hook = record {
  get_user_account = λ addr. found user;
  get_storage_data = λ addr key. [];
  get_code = λ account. [];
  is_smart_contract = λ addr. true;
  is_payable = λ addr. (true, none);
  new_address = λ addr nonce. missing;
  is_readable = λ metadata. false;
  is_upgradeable = λ metadata. true;
  get_shard_of_address = λ addr. 0;
  get_snapshot = λ calls. length calls;
  get_compiled_code = λ calls hash. none;
  process_built_in_function = λ calls input. (new_vm_output, none);
}
