-- ===== src/Storage/View.antt =====
-- The abstract storage: the value that each key of each address has for the execution. Reading it
-- through the cache does not change it.
use wasm_vm_v.Prelude.{
  ◌≡◌, ◌&&◌, none, some, Bytes, bytes_eq, bytes_equal, bytes_equal_iff, arith, if◌then◌else◌,
}
use wasm_vm_v.Prelude.Map.{Map, lookup, insert, lookup-insert}
use wasm_vm_v.Output.{OutputContext, get_output_account}
use wasm_vm_v.Output.Types.{OutputAccount}
use wasm_vm_v.Output.Accounts.{get_output_account-lookup}
use wasm_vm_v.Host.{Host}
use wasm_vm_v.Hook.{BlockchainHook}
use wasm_vm_v.Storage.{
  get_storage_from_address_unmetered, load_old_value, store_value, storage_update, put_update,
}

module _ (hook : BlockchainHook) where
  -- The cached value, or what the node answers.
  abbrev pub value_in_account : Bytes → Bytes → OutputAccount → Bytes
  value_in_account addr key account = elim (lookup key account.storage_updates) [
    | none ↦ hook.get_storage_data addr key
    | some update ↦ update.content
  ]

  abbrev pub value_in : Bytes → Bytes → Map Bytes OutputAccount → Bytes
  value_in addr key accounts = elim (lookup addr accounts) [
    | none ↦ hook.get_storage_data addr key
    | some account ↦ value_in_account addr key account
  ]

  unfoldable pub stored : Bytes → Bytes → Host → Bytes
  stored addr key h = value_in addr key h.output.output_state.output_accounts

  -- Making the account of an address changes no value.
  pub value_in-get_output_account :
      (addr a key : Bytes) (c : OutputContext)
      → value_in a key (get_output_account addr c).0.output_state.output_accounts
        ≡ value_in a key c.output_state.output_accounts
  unfolding get_output_account
  value_in-get_output_account addr a key c = ground (
    arith,
    bytes_equal_iff addr a,
    lookup-insert addr a (get_output_account addr c).1 c.output_state.output_accounts,
  )

  -- A write of an update changes the value of its key alone.
  pub stored-put_update :
      (addr key value : Bytes) (account : OutputAccount) (h : Host) (a k : Bytes)
      → lookup addr h.output.output_state.output_accounts ≡ some account
      → stored a k (put_update addr key value account h)
        ≡ (if bytes_equal addr a && bytes_equal key k then value else stored a k h)
  unfolding stored
  stored-put_update addr key value account h a k found = ground (
    arith,
    bytes_equal_iff addr a,
    lookup-insert addr a
        (record account {
          storage_updates = insert key (storage_update key value) account.storage_updates;
        })
        h.output.output_state.output_accounts,
    lookup-insert key k (storage_update key value) account.storage_updates,
  )

  -- Reading returns the value, and no value, address or gas point changes.
  pub get_storage_from_address_unmetered_lem :
      (addr key : Bytes) (h : Host) (a k : Bytes)
      → let (h', value) = get_storage_from_address_unmetered hook addr key h in
        (value ≡ stored addr key h)
        × (stored a k h' ≡ stored a k h)
        × (h'.storage ≡ h.storage)
        × (h'.runtime ≡ h.runtime)
        × (h'.metering ≡ h.metering)
        × (h'.output.output_state.gas_refund ≡ h.output.output_state.gas_refund)
  unfolding get_storage_from_address_unmetered stored
  get_storage_from_address_unmetered_lem addr key h a k =
      let (output, account, _) = get_output_account addr h.output in
      let h' = record h { output = output } in
      ground (
        arith,
        bytes_equal_iff addr a,
        bytes_equal_iff key k,
        get_output_account-lookup addr h.output,
        value_in-get_output_account addr a k h.output,
        value_in-get_output_account addr addr key h.output,
        stored-put_update addr key (hook.get_storage_data addr key) account h' a k,
      )

  -- So does loading the old value before a write.
  pub load_old_value_lem :
      (key : Bytes) (h : Host) (a k : Bytes)
      → let (h', old) = load_old_value hook key h in
        (old ≡ stored h.storage.address key h)
        × (stored a k h' ≡ stored a k h)
        × (h'.storage ≡ h.storage)
        × (h'.runtime ≡ h.runtime)
        × (h'.metering ≡ h.metering)
        × (h'.output.output_state.gas_refund ≡ h.output.output_state.gas_refund)
  unfolding load_old_value stored
  load_old_value_lem key h a k =
      let addr = h.storage.address in
      let (output, account, _) = get_output_account addr h.output in
      let h' = record h { output = output } in
      let (h'', old) = get_storage_from_address_unmetered hook addr key h' in
      let (output', account', _) = get_output_account addr h''.output in
      ground (
        arith,
        bytes_equal_iff addr a,
        bytes_equal_iff key k,
        get_output_account-lookup addr h.output,
        get_output_account-lookup addr h''.output,
        value_in-get_output_account addr a k h.output,
        value_in-get_output_account addr addr key h.output,
        value_in-get_output_account addr a k h''.output,
        get_storage_from_address_unmetered_lem addr key h' a k,
        stored-put_update addr key old account' (record h'' { output = output' }) a k,
      )

  pub stored-store_value :
      (key value : Bytes) (h : Host) (a k : Bytes)
      → let h' = store_value key value h in
        (stored a k h'
          ≡ (if bytes_equal h.storage.address a && bytes_equal key k then value else stored a k h))
        × (h'.storage ≡ h.storage)
        × (h'.runtime ≡ h.runtime)
        × (h'.metering ≡ h.metering)
        × (h'.output.output_state.gas_refund ≡ h.output.output_state.gas_refund)
  unfolding store_value get_output_account stored
  stored-store_value key value h a k =
      let addr = h.storage.address in
      let (output, account, _) = get_output_account addr h.output in
      ground (
        arith,
        get_output_account-lookup addr h.output,
        value_in-get_output_account addr a k h.output,
        stored-put_update addr key value account (record h { output = output }) a k,
      )
