-- ===== src/Metering/Conservation.antt =====
-- The gas that the final accounting distributes over the accounts is the gas that the contract
-- spent.
use wasm_vm_v.Prelude.{
  ℕ, ◌+◌, ◌-◌, ◌^◌, ◌<◌, ◌≤◌, ◌≡◌, none, some, true, Bytes, bytes_eq, arith, ◌==◌, if◌then◌else◌,
  Option, not, ◌&&◌, Bool-cases, inl, inr,
}
use wasm_vm_v.Prelude.Map.{Map, lookup, insert, Distinct}
use wasm_vm_v.Errors.{VmError, gas_does_not_match}
use wasm_vm_v.Overflow.Unsigned.{sub_uint64_lem, add_uint64-lt, add_uint64_exact}
use wasm_vm_v.Output.Types.{OutputAccount}
use wasm_vm_v.Host.{Host}
use wasm_vm_v.Metering.Points.{gas_spent_by_contract, gas_left}
use wasm_vm_v.Metering.Account.{
  update_sc_gas_used, set_gas_used, set_gas_used_to_output_accounts, get_current_total_used_gas,
  check_gas, update_gas_state_on_success, all_present,
}
use wasm_vm_v.Metering.Sums.{
  transfers_gas, gas_of_others, gas_of_all, get_gas_transferred_by_account_lem,
  add_gas_of_others_lem, add_gas_of_all_lem, gas_of_all-set_gas_used, all_present-insert,
}

-- A host whose contract has finished: it has an account of its own, each address is listed once, and
-- what was transferred and used by others is part of what the contract spent.
pub record Finished (h : Host) (current : OutputAccount) : Type 0 where
  pub distinct : Distinct h.output.output_state.output_accounts
  pub present : lookup h.runtime.sc_address h.output.output_state.output_accounts ≡ some current
  pub within :
      transfers_gas current.output_transfers
        + gas_of_others h.runtime.sc_address h.metering.gas_used_by_accounts
            h.output.output_state.output_accounts
      ≤ gas_spent_by_contract h

-- What UpdateGasStateOnSuccess enters for the contract itself: what it spent, less what others used
-- and all transfers, and less the transfers to its own account once more.
abbrev own_gas : Host → OutputAccount → ℕ
own_gas h current =
    gas_spent_by_contract h
    - transfers_gas current.output_transfers
    - gas_of_others h.runtime.sc_address h.metering.gas_used_by_accounts
        h.output.output_state.output_accounts

gas_spent-lt : (h : Host) → gas_spent_by_contract h < 2 ^ 64
unfolding gas_spent_by_contract
gas_spent-lt h =
    add_uint64-lt (if h.flags.vm_v2_enabled then h.metering.initial_cost else 0)
      h.runtime.points_used

update_sc_gas_used_lem :
    (h : Host) (current : OutputAccount)
    → Finished h current
    → update_sc_gas_used h ≡ record h {
      metering = record h.metering {
        active = record h.metering.active {
          gas_used_by_accounts =
              insert h.runtime.sc_address (own_gas h current) h.metering.gas_used_by_accounts;
        };
      };
    }
unfolding update_sc_gas_used
update_sc_gas_used_lem h current f = ground (
  arith,
  f.present,
  f.within,
  gas_spent-lt h,
  get_gas_transferred_by_account_lem current,
  add_gas_of_others_lem h.runtime.sc_address h.metering.gas_used_by_accounts 0
      h.output.output_state.output_accounts,
  sub_uint64_lem (gas_spent_by_contract h) (transfers_gas current.output_transfers),
  sub_uint64_lem (gas_spent_by_contract h - transfers_gas current.output_transfers) (
      gas_of_others h.runtime.sc_address h.metering.gas_used_by_accounts
        h.output.output_state.output_accounts),
)

-- The accounts after the contract's gas and the gas of the others were entered.
abbrev charged : Host → OutputAccount → Map Bytes OutputAccount
charged h current =
    set_gas_used (insert h.runtime.sc_address (own_gas h current) h.metering.gas_used_by_accounts)
      h.output.output_state.output_accounts

charged_sum :
    (h : Host) (current : OutputAccount)
    → Finished h current
    → gas_of_all (charged h current) + transfers_gas current.output_transfers
      ≡ gas_spent_by_contract h
charged_sum h current f = ground (
  arith,
  f.present,
  f.within,
  gas_of_all-set_gas_used h.runtime.sc_address (own_gas h current) h.metering.gas_used_by_accounts
      h.output.output_state.output_accounts f.distinct,
)

-- After a finished contract was charged, the gas used by all accounts and the gas of all transfers,
-- as the VM adds them up, make what the contract spent, less the gas of the transfers that the account
-- of the contract records, whoever sent them, which were subtracted twice.
pub total_used_gas :
    (h : Host) (current : OutputAccount)
    → Finished h current
    → get_current_total_used_gas (set_gas_used_to_output_accounts (update_sc_gas_used h)).0
        + transfers_gas current.output_transfers
      ≡ gas_spent_by_contract h
unfolding get_current_total_used_gas set_gas_used_to_output_accounts
total_used_gas h current f = ground (
  arith,
  update_sc_gas_used_lem h current f,
  charged_sum h current f,
  gas_spent-lt h,
  add_gas_of_all_lem 0 (charged h current),
)

-- The gas figures of an execution that DeductInitialGas began and that stayed within its gas.
pub record WithinGas (h : Host) : Type 0 where
  pub provided :
      h.metering.initial_cost + h.metering.gas_for_execution ≡ h.metering.initial_gas_provided
  pub bounded : h.metering.initial_gas_provided < 2 ^ 64
  pub spent : h.runtime.points_used ≤ h.metering.gas_for_execution
  pub remaining : h.output.output_state.gas_remaining ≡ gas_left h

spent_plus_left :
    (h : Host)
    → WithinGas h
    → h.flags.vm_v2_enabled ≡ true
    → gas_spent_by_contract h + h.output.output_state.gas_remaining
      ≡ h.metering.initial_gas_provided
unfolding gas_spent_by_contract gas_left
spent_plus_left h w enabled = ground (
  arith,
  enabled,
  w.provided,
  w.bounded,
  w.spent,
  w.remaining,
  add_uint64_exact h.metering.initial_cost h.runtime.points_used,
)

-- The host after the charge.
abbrev settled : Host → OutputAccount → Host
settled h current = record h {
  metering = record h.metering {
    active = record h.metering.active {
      gas_used_by_accounts =
          insert h.runtime.sc_address (own_gas h current) h.metering.gas_used_by_accounts;
    };
  };
  output = record h.output {
    output_state = record h.output.output_state { output_accounts = charged h current };
  };
}

settled_lem :
    (h : Host) (current : OutputAccount)
    → Finished h current
    → all_present h.metering.gas_used_by_accounts h.output.output_state.output_accounts ≡ none
    → set_gas_used_to_output_accounts (update_sc_gas_used h) ≡ (settled h current, none)
unfolding set_gas_used_to_output_accounts
settled_lem h current f p = ground (
  arith,
  f.present,
  update_sc_gas_used_lem h current f,
  all_present-insert h.runtime.sc_address (own_gas h current) h.metering.gas_used_by_accounts
      (insert h.runtime.sc_address (own_gas h current) h.metering.gas_used_by_accounts)
      h.output.output_state.output_accounts,
)

-- No error, or a mismatch where the VM checks the gas and the account of the contract records
-- transfers with gas.
abbrev pub mismatch_of : Host → OutputAccount → Option VmError
mismatch_of h current =
    if h.flags.vm_v2_enabled && not (transfers_gas current.output_transfers == 0)
    then some gas_does_not_match
    else none

check_gas-settled :
    (h : Host) (current : OutputAccount)
    → Finished h current
    → WithinGas h
    → check_gas (settled h current) ≡ mismatch_of h current
unfolding check_gas get_current_total_used_gas
check_gas-settled h current f w = elim (Bool-cases h.flags.vm_v2_enabled) [
  | inl enabled ↦ ground (
    arith,
    enabled,
    w.bounded,
    spent_plus_left h w enabled,
    charged_sum h current f,
    add_gas_of_all_lem 0 (charged h current),
    add_uint64_exact (gas_of_all (charged h current)) h.output.output_state.gas_remaining,
  )
  | inr disabled ↦ ground (arith, disabled)
]

-- The final accounting of an execution within its gas, where every address that used gas has an
-- account: it reports a mismatch of the gas exactly if VM version 2 is enabled and the account of the
-- contract itself records transfers with gas, whoever sent them, and it succeeds otherwise.
pub update_gas_state_on_success_lem :
    (h : Host) (current : OutputAccount)
    → Finished h current
    → WithinGas h
    → all_present h.metering.gas_used_by_accounts h.output.output_state.output_accounts ≡ none
    → (update_gas_state_on_success h).1 ≡ mismatch_of h current
unfolding update_gas_state_on_success
update_gas_state_on_success_lem h current f w p =
    ground (arith, settled_lem h current f p, check_gas-settled h current f w)
