-- ===== src/Metering/Account.antt =====
-- The final gas accounting of vmhost/contexts/metering.go: UpdateGasStateOnSuccess and what it
-- calls. Its argument is always the current output (vmhost/contexts/output.go, GetVMOutput), which
-- the host holds.
use wasm_vm_v.Prelude.{
  ℕ, Option, none, some, List, [], ◌∷◌, Bytes, bytes_eq, bytes_equal, ◌==◌, if◌then◌else◌,
}
use wasm_vm_v.Prelude.Map.{Map, lookup, insert, get_or}
use wasm_vm_v.Errors.{VmError, gas_does_not_match, custom}
use wasm_vm_v.Overflow.{add_uint64, sub_uint64}
use wasm_vm_v.Output.{get_output_account, set_account}
use wasm_vm_v.Output.Types.{OutputAccount, OutputTransfer}
use wasm_vm_v.Host.{Host}
use wasm_vm_v.Metering.Points.{gas_spent_by_contract}

unfoldable pub add_transfers : ℕ → List OutputTransfer → ℕ
add_transfers gas [] = gas
add_transfers gas (t ∷ transfers) =
    add_transfers (add_uint64 (add_uint64 gas t.gas_limit) t.gas_locked) transfers

unfoldable pub get_gas_transferred_by_account : OutputAccount → ℕ
unfolding add_transfers
get_gas_transferred_by_account account = add_transfers 0 account.output_transfers

-- The loop of getGasUsedByAllOtherAccounts, over the accounts left.
unfoldable pub add_gas_of_others : Bytes → Map Bytes ℕ → ℕ → Map Bytes OutputAccount → ℕ
unfolding get_gas_transferred_by_account
add_gas_of_others current used gas [] = gas
add_gas_of_others current used gas ((addr, account) ∷ accounts) =
    let gas_used = if bytes_equal addr current then 0 else get_or addr 0 used in
    add_gas_of_others current used
      (add_uint64 (add_uint64 gas gas_used) (get_gas_transferred_by_account account)) accounts

unfoldable pub get_gas_used_by_all_other_accounts : Host → ℕ
unfolding add_gas_of_others
get_gas_used_by_all_other_accounts h =
    add_gas_of_others h.runtime.sc_address h.metering.gas_used_by_accounts 0
      h.output.output_state.output_accounts

unfoldable pub update_sc_gas_used : Host → Host
unfolding get_output_account get_gas_used_by_all_other_accounts
update_sc_gas_used h =
    let current = h.runtime.sc_address in
    let (output, account, _) = get_output_account current h.output in
    let h' = record h { output = output } in
    let gas_used =
      sub_uint64 (sub_uint64 (gas_spent_by_contract h') (get_gas_transferred_by_account account))
        (get_gas_used_by_all_other_accounts h') in
    record h' {
      metering = record h'.metering {
        active = record h'.metering.active {
          gas_used_by_accounts = insert current gas_used h'.metering.gas_used_by_accounts;
        };
      };
    }

-- `account.GasUsed = gasUsedByAccounts[address]` for every account.
unfoldable pub set_gas_used : Map Bytes ℕ → Map Bytes OutputAccount → Map Bytes OutputAccount
set_gas_used used [] = []
set_gas_used used ((addr, account) ∷ accounts) =
    (addr, record account { gas_used = get_or addr 0 used }) ∷ set_gas_used used accounts

unfoldable pub all_present : Map Bytes ℕ → Map Bytes OutputAccount → Option VmError
all_present [] accounts = none
all_present ((addr, _) ∷ used) accounts = elim (lookup addr accounts) [
  | none ↦ some (custom "expected OutputAccount has used gas but is missing")
  | some account ↦ all_present used accounts
]

unfoldable pub set_gas_used_to_output_accounts : Host → Host × Option VmError
unfolding set_gas_used all_present
set_gas_used_to_output_accounts h =
    let used = h.metering.gas_used_by_accounts in
    let accounts = set_gas_used used h.output.output_state.output_accounts in
    (
      record h {
        output = record h.output {
          output_state = record h.output.output_state { output_accounts = accounts };
        };
      },
      all_present used accounts,
    )

unfoldable pub add_gas_of_all : ℕ → Map Bytes OutputAccount → ℕ
unfolding get_gas_transferred_by_account
add_gas_of_all gas [] = gas
add_gas_of_all gas ((addr, account) ∷ accounts) =
    add_gas_of_all
      (add_uint64 (add_uint64 gas account.gas_used) (get_gas_transferred_by_account account))
      accounts

unfoldable pub get_current_total_used_gas : Host → ℕ
unfolding add_gas_of_all
get_current_total_used_gas h = add_gas_of_all 0 h.output.output_state.output_accounts

unfoldable pub check_gas : Host → Option VmError
unfolding get_current_total_used_gas
check_gas h =
    if h.flags.vm_v2_enabled
    then (let total =
          add_uint64 (get_current_total_used_gas h) h.output.output_state.gas_remaining in
        if total == h.metering.initial_gas_provided then none else some gas_does_not_match)
    else none

unfoldable pub update_gas_state_on_success : Host → Host × Option VmError
unfolding update_sc_gas_used set_gas_used_to_output_accounts check_gas
update_gas_state_on_success h =
    let (h', err) = set_gas_used_to_output_accounts (update_sc_gas_used h) in
    elim err [ some e ↦ (h', some e) | none ↦ (h', check_gas h') ]

unfoldable pub update_gas_state_on_failure : Host → Host
unfolding get_output_account
update_gas_state_on_failure h =
    let (output, account, _) = get_output_account h.runtime.sc_address h.output in
    let charged = record account {
      gas_used = add_uint64 account.gas_used h.metering.initial_gas_provided;
    } in
    record h { output = set_account h.runtime.sc_address charged output }
