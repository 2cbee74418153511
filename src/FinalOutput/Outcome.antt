-- ===== src/FinalOutput/Outcome.antt =====
-- The output that a caller of the VM gets: either the current one, or one that carries an error and
-- nothing else.
use wasm_vm_v.Prelude.{
  ◌≡◌, ◌≢◌, ◌⊎◌, refl, Bool, none, some, [], ◌∷◌, Bytes, bytes_eq, bytes_equal_iff, arith,
  if◌then◌else◌, Option-cases, inl, inr,
}
use wasm_vm_v.Prelude.Map.{Map, lookup, contains}
use wasm_vm_v.Prelude.Int.{pos}
use wasm_vm_v.Errors.{VmError, ok, resolve_return_code_from_error}
use wasm_vm_v.Output.{get_output_account}
use wasm_vm_v.Output.Types.{OutputAccount}
use wasm_vm_v.Host.{Host}
use wasm_vm_v.Metering.Points.{gas_left}
use wasm_vm_v.Metering.Account.{
  update_gas_state_on_success, update_sc_gas_used, set_gas_used_to_output_accounts,
}
use wasm_vm_v.FinalOutput.{
  keep_updated_code, remove_non_updated_code, create_vm_output_in_case_of_error, get_vm_output,
}

-- The account with its code, if the code was updated, or without.
abbrev pub with_updated_code : Bool → OutputAccount → OutputAccount
with_updated_code updated account =
    if updated
    then account
    else record account { code = []; code_metadata = []; code_deployer_address = none }

keep_updated_code_lem :
    (addr : Bytes) (updates : Map Bytes (Unit {0})) (accounts : Map Bytes OutputAccount)
    → lookup addr (keep_updated_code updates accounts) ≡ elim (lookup addr accounts) [
      | none ↦ none
      | some account ↦ some (with_updated_code (contains addr updates) account)
    ]
unfolding keep_updated_code
keep_updated_code_lem addr updates [] = refl
keep_updated_code_lem addr updates ((k, account) ∷ accounts) =
    ground (arith, bytes_equal_iff k addr, keep_updated_code_lem addr updates accounts)

-- Every account of the output keeps its place and everything but the code, which it keeps only where
-- the execution has deployed it.
pub remove_non_updated_code_lem :
    (addr : Bytes) (h : Host)
    → lookup addr (remove_non_updated_code h).output.output_state.output_accounts
      ≡ elim (lookup addr h.output.output_state.output_accounts) [
        | none ↦ none
        | some account ↦ some (with_updated_code (contains addr h.output.code_updates) account)
      ]
unfolding remove_non_updated_code
remove_non_updated_code_lem addr h =
    keep_updated_code_lem addr h.output.code_updates h.output.output_state.output_accounts

-- No error is reported as a success.
pub resolve_return_code-ok : (err : VmError) → resolve_return_code_from_error (some err) ≢ ok
unfolding resolve_return_code_from_error
resolve_return_code-ok err = ground arith

-- The final accounting does not change the gas that remains, nor does removing code.
update_gas_state_on_success-remaining :
    (h : Host)
    → (update_gas_state_on_success h).0.output.output_state.gas_remaining
      ≡ h.output.output_state.gas_remaining
unfolding update_gas_state_on_success update_sc_gas_used set_gas_used_to_output_accounts
    get_output_account
update_gas_state_on_success-remaining h = ground arith

same_gas : (h : Host) → gas_left (remove_non_updated_code h) ≡ gas_left h
unfolding gas_left remove_non_updated_code
same_gas h = refl

-- The output as GetVMOutput hands it to the final accounting: without the code that was not updated,
-- and with the gas that is left.
abbrev pub with_gas_remaining : Host → Host
with_gas_remaining h =
    let h1 = remove_non_updated_code h in
    record h1 {
      output = record h1.output {
        output_state = record h1.output.output_state { gas_remaining = gas_left h };
      };
    }

-- GetVMOutput returns the output that the final accounting leaves if the accounting succeeds, with
-- the gas that is left as the gas remaining. If it raises an error, then GetVMOutput returns an output
-- with the code of that error, which is no success, and with no gas, no refund, no data, no account
-- and no log in it.
pub get_vm_output_lem :
    (h : Host)
    → let (h', out) = get_vm_output h in
      let (settled, err) = update_gas_state_on_success (with_gas_remaining h) in
      ((err ≡ none)
        × (h' ≡ settled)
        × (out ≡ settled.output.output_state)
        × (out.gas_remaining ≡ gas_left h))
      ⊎ ((e : VmError) × (err ≡ some e)
          × (out.return_code ≡ resolve_return_code_from_error (some e))
          × (out.return_code ≢ ok)
          × (out.gas_remaining ≡ 0)
          × (out.gas_refund ≡ some (pos 0))
          × (out.return_data ≡ [])
          × (out.output_accounts ≡ [])
          × (out.logs ≡ []))
unfolding get_vm_output create_vm_output_in_case_of_error
get_vm_output_lem h =
    let h2 = with_gas_remaining h in
    let same : gas_left (remove_non_updated_code h) ≡ gas_left h = same_gas h in
    elim (Option-cases (update_gas_state_on_success h2).1) [
      | inl fine ↦ inl (
        fine,
        ground (arith, fine, same),
        ground (arith, fine, same),
        ground (arith, fine, same, update_gas_state_on_success-remaining h2),
      )
      | inr (e, raised) ↦ inr (
        e,
        raised,
        ground (arith, raised, same),
        ground (arith, raised, same, resolve_return_code-ok e),
        ground (arith, raised, same),
        ground (arith, raised, same),
        ground (arith, raised, same),
        ground (arith, raised, same),
        ground (arith, raised, same),
      )
    ]

-- An output that is a success is the current one.
pub get_vm_output_ok :
    (h : Host)
    → let (h', out) = get_vm_output h in out.return_code ≡ ok → out ≡ h'.output.output_state
get_vm_output_ok h success = ground (arith, get_vm_output_lem h)
