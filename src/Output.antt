-- ===== src/Output.antt =====
-- The output context of vmhost/contexts/output.go: the current output, the stack of outputs and the
-- accounts whose code was updated. The operations that need another context are in `Transfer` and
-- `Finish`. The top of the stack is the head of the list.
pub mod Types
pub mod Merge
pub mod Laws
pub mod Stack
pub mod Combine
pub mod Accounts
use Prim.Native.String.{String}
use wasm_vm_v.Prelude.{
  ℕ, ◌^◌, Bool, true, false, Option, none, some, List, [], ◌∷◌, ◌++◌, Bytes, bytes_eq,
  if◌then◌else◌,
}
use wasm_vm_v.Prelude.Map.{Map, lookup, insert, erase}
use wasm_vm_v.Prelude.Int.{ℤ, pos, ◌+ℤ◌}
use wasm_vm_v.Errors.{ReturnCode, ok}
use wasm_vm_v.Overflow.{to_bits, from_bits}
use Types.{
  CallType, StorageUpdate, OutputTransfer, LogEntry, OutputAccount, VmOutput, zero_account,
  new_vm_output, new_vm_output_account,
}
use Merge.{merge_vm_outputs}

pub record OutputContext : Type 0 where
  pub output_state : VmOutput
  pub state_stack : List VmOutput
  pub code_updates : Map Bytes (Unit {0})

unfoldable pub init_state : OutputContext → OutputContext
init_state c = record c { output_state = new_vm_output; code_updates = [] }

unfoldable pub new_output_context : OutputContext
unfolding init_state
new_output_context =
    init_state (record { output_state = new_vm_output; state_stack = []; code_updates = [] })

unfoldable pub push_state : OutputContext → OutputContext
unfolding merge_vm_outputs
push_state c = record c {
  state_stack = merge_vm_outputs new_vm_output c.output_state ∷ c.state_stack;
}

pop_set_active : List VmOutput → OutputContext → OutputContext
pop_set_active [] c = c
pop_set_active (prev ∷ rest) c = record c { state_stack = rest; output_state = prev }

unfoldable pub pop_set_active_state : OutputContext → OutputContext
unfolding pop_set_active
pop_set_active_state c = pop_set_active c.state_stack c

pop_merge_active : List VmOutput → OutputContext → OutputContext
unfolding merge_vm_outputs
pop_merge_active [] c = c
pop_merge_active (prev ∷ rest) c = record c {
  state_stack = rest;
  output_state = merge_vm_outputs new_vm_output (merge_vm_outputs prev c.output_state);
}

unfoldable pub pop_merge_active_state : OutputContext → OutputContext
unfolding pop_merge_active
pop_merge_active_state c = pop_merge_active c.state_stack c

pop_top : List VmOutput → OutputContext → OutputContext
pop_top [] c = c
pop_top (prev ∷ rest) c = record c { state_stack = rest }

unfoldable pub pop_discard : OutputContext → OutputContext
unfolding pop_top
pop_discard c = pop_top c.state_stack c

unfoldable pub clear_state_stack : OutputContext → OutputContext
clear_state_stack c = record c { state_stack = [] }

-- The storage cache of the accounts is kept.
unfoldable pub censor_vm_output : OutputContext → OutputContext
censor_vm_output c = record c {
  output_state = record c.output_state {
    return_data = [];
    return_code = ok;
    return_message = "";
    gas_remaining = 0;
    gas_refund = some (pos 0);
    logs = [];
  };
}

-- A write through the pointer to an account of the current output.
abbrev pub set_account : Bytes → OutputAccount → OutputContext → OutputContext
set_account addr account c = record c {
  output_state = record c.output_state {
    output_accounts = insert addr account c.output_state.output_accounts;
  };
}

-- The account, whether it is new, and the context with the account in it.
unfoldable pub get_output_account : Bytes → OutputContext → OutputContext × OutputAccount × Bool
get_output_account addr c = elim (lookup addr c.output_state.output_accounts) [
  | none ↦ (set_account addr (new_vm_output_account addr) c, new_vm_output_account addr, true)
  | some account ↦ (c, account, false)
]

unfoldable pub delete_output_account : Bytes → OutputContext → OutputContext
delete_output_account addr c = record c {
  output_state = record c.output_state {
    output_accounts = erase addr c.output_state.output_accounts;
  };
  code_updates = erase addr c.code_updates;
}

-- `uint64(refund.Int64())`. A nil refund is a panic in Go; the current output has none.
unfoldable pub get_refund : OutputContext → ℕ
get_refund c = elim c.output_state.gas_refund [ none ↦ 0 | some r ↦ to_bits (2 ^ 64) r ]

-- `big.NewInt(int64(refund))`.
unfoldable pub set_refund : ℕ → OutputContext → OutputContext
set_refund refund c = record c {
  output_state = record c.output_state { gas_refund = some (from_bits (2 ^ 64) refund) };
}

unfoldable pub set_return_code : ReturnCode → OutputContext → OutputContext
set_return_code code c = record c { output_state = record c.output_state { return_code = code } }

unfoldable pub set_return_message : String → OutputContext → OutputContext
set_return_message text c = record c {
  output_state = record c.output_state { return_message = text };
}

unfoldable pub clear_return_data : OutputContext → OutputContext
clear_return_data c = record c { output_state = record c.output_state { return_data = [] } }

unfoldable pub finish : Bytes → OutputContext → OutputContext
finish value c = record c {
  output_state = record c.output_state { return_data = c.output_state.return_data ++ value ∷ [] };
}

unfoldable pub prepend_finish : Bytes → OutputContext → OutputContext
prepend_finish value c = record c {
  output_state = record c.output_state { return_data = value ∷ c.output_state.return_data };
}

-- The identifier and the topics of a log entry: the first topic and the others.
topic_head : List Bytes → Bytes
topic_head [] = []
topic_head (t ∷ ts) = t

topic_tail : List Bytes → List Bytes
topic_tail [] = []
topic_tail (t ∷ ts) = ts

-- `read_only` is `host.Runtime().ReadOnly()`.
unfoldable pub write_log : Bool → Bytes → List Bytes → Bytes → OutputContext → OutputContext
unfolding topic_head topic_tail
write_log read_only addr topics value c = if read_only then c else (record c {
  output_state = record c.output_state {
    logs =
        c.output_state.logs
        ++ record {
          identifier = topic_head topics;
          address = addr;
          topics = topic_tail topics;
          content = value ∷ [];
        }
          ∷ [];
  };
})

-- `big.NewInt(0).Add(delta, value)`. A nil delta is a panic in Go; no account of the current output
-- has one.
abbrev pub add_delta : Option ℤ → ℤ → Option ℤ
add_delta none v = none
add_delta (some d) v = some (d +ℤ v)

unfoldable pub add_tx_value_to_account : Bytes → ℤ → OutputContext → OutputContext
unfolding get_output_account
add_tx_value_to_account addr value c =
    let (c', account, _) = get_output_account addr c in
    set_account addr (record account { balance_delta = add_delta account.balance_delta value }) c'

pub record CodeDeployInput : Type 0 where
  pub contract_code : Bytes
  pub contract_code_metadata : Bytes
  pub contract_address : Bytes
  pub code_deployer_address : Option Bytes

unfoldable pub deploy_code : CodeDeployInput → OutputContext → OutputContext
unfolding get_output_account
deploy_code input c =
    let (c', account, _) = get_output_account input.contract_address c in
    let updated = record account {
      code = input.contract_code;
      code_metadata = input.contract_code_metadata;
      code_deployer_address = input.code_deployer_address;
    } in
    let c'' = set_account input.contract_address updated c' in
    record c'' { code_updates = insert input.contract_address tt c''.code_updates }

-- AddToActiveState changes its argument before it merges it: the refund and the balance deltas of
-- the right output are added to those of the current one, and the right transfers go behind the
-- left ones. An account that the current output lacks is left for the merge.
abbrev pub add_left_delta : Option ℤ → Option ℤ → Option ℤ
add_left_delta none left = none
add_left_delta (some r) none = none
add_left_delta (some r) (some l) = some (r +ℤ l)

adjust_right_account : Map Bytes OutputAccount → OutputAccount → OutputAccount
adjust_right_account left right = elim (lookup right.address left) [
  | none ↦ right
  | some l ↦ record right { balance_delta = add_left_delta right.balance_delta l.balance_delta }
]

adjust_left_accounts : Map Bytes OutputAccount → OutputAccount → Map Bytes OutputAccount
adjust_left_accounts left right = elim (lookup right.address left) [
  | none ↦ left
  | some l ↦
      insert right.address
        (record l { output_transfers = l.output_transfers ++ right.output_transfers }) left
]

unfoldable pub adjust_accounts :
    Map Bytes OutputAccount
    → Map Bytes OutputAccount
    → Map Bytes OutputAccount × Map Bytes OutputAccount
unfolding adjust_right_account adjust_left_accounts
adjust_accounts left [] = (left, [])
adjust_accounts left ((k, right) ∷ rest) =
    let (left', rest') = adjust_accounts (adjust_left_accounts left right) rest in
    (left', (k, adjust_right_account left right) ∷ rest')

-- The context, and the right output as the call leaves it.
unfoldable pub add_to_active_state : VmOutput → OutputContext → OutputContext × VmOutput
unfolding adjust_accounts merge_vm_outputs
add_to_active_state right c =
    let (left_accounts, right_accounts) =
      adjust_accounts c.output_state.output_accounts right.output_accounts in
    let right' = record right {
      gas_refund = add_left_delta right.gas_refund c.output_state.gas_refund;
      output_accounts = right_accounts;
    } in
    let left' = record c.output_state { output_accounts = left_accounts } in
    (record c { output_state = merge_vm_outputs left' right' }, right')
