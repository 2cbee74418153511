-- ===== src/Output/Merge.antt =====
-- mergeVMOutputs, mergeOutputAccounts and mergeStorageUpdates of vmhost/contexts/output.go.
use wasm_vm_v.Prelude.{
  Option, none, some, [], ◌∷◌, ◌++◌, Bytes, bytes_eq, length, drop, is_empty, ltb, if◌then◌else◌,
}
use wasm_vm_v.Prelude.Map.{Map, insert, lookup}
use wasm_vm_v.Prelude.Int.{ℤ, pos}
use wasm_vm_v.Output.Types.{StorageUpdate, OutputAccount, VmOutput, zero_account}

-- `if new != nil { old = new }`.
abbrev pub or_keep {ℓ} : {A : Type ℓ} → Option A → Option A → Option A
or_keep (some a) old = some a
or_keep none old = old

abbrev pub or_zero : Option ℤ → Option ℤ
or_zero (some d) = some d
or_zero none = some (pos 0)

unfoldable pub merge_storage_updates :
    Map Bytes StorageUpdate → Map Bytes StorageUpdate → Map Bytes StorageUpdate
merge_storage_updates left [] = left
merge_storage_updates left ((key, update) ∷ right) =
    merge_storage_updates (insert key update left) right

unfoldable pub merge_output_accounts : OutputAccount → OutputAccount → OutputAccount
merge_output_accounts left right = record {
  address = if is_empty right.address then left.address else right.address;
  nonce = if ltb left.nonce right.nonce then right.nonce else left.nonce;
  balance = or_keep right.balance left.balance;
  balance_delta = or_keep right.balance_delta (or_zero left.balance_delta);
  storage_updates = merge_storage_updates left.storage_updates right.storage_updates;
  code = if is_empty right.code then left.code else right.code;
  code_metadata = if is_empty right.code_metadata then left.code_metadata else right.code_metadata;
  code_deployer_address = or_keep right.code_deployer_address left.code_deployer_address;
  output_transfers =
      if ltb (length left.output_transfers) (length right.output_transfers)
      then left.output_transfers ++ drop (length left.output_transfers) right.output_transfers
      else left.output_transfers;
  gas_used = right.gas_used;
}

-- `leftAccount, ok := m[address]; if !ok { leftAccount = &vmcommon.OutputAccount{} }`.
abbrev pub or_zero_account : Option OutputAccount → OutputAccount
or_zero_account none = zero_account
or_zero_account (some account) = account

-- The loop over the right accounts. A left account that is missing starts from the zero value.
unfoldable pub merge_account_maps :
    Map Bytes OutputAccount → Map Bytes OutputAccount → Map Bytes OutputAccount
merge_account_maps left [] = left
merge_account_maps left ((_, right_account) ∷ right) =
    merge_account_maps
      (insert right_account.address
        (merge_output_accounts (or_zero_account (lookup right_account.address left)) right_account)
        left)
      right

unfoldable pub merge_vm_outputs : VmOutput → VmOutput → VmOutput
merge_vm_outputs left right = record {
  return_data = left.return_data ++ right.return_data;
  return_code = right.return_code;
  return_message = right.return_message;
  gas_remaining = right.gas_remaining;
  gas_refund = or_zero right.gas_refund;
  output_accounts = merge_account_maps left.output_accounts right.output_accounts;
  logs = left.logs ++ right.logs;
}
