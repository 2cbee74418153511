-- ===== src/Blockchain.antt =====
-- The blockchain context of vmhost/contexts/blockchain.go: what it keeps in the output accounts of
-- the answers of the node.
pub mod Answers
pub mod State
use wasm_vm_v.Prelude.{
  ℕ, ◌+◌, ◌-◌, ◌%◌, ◌^◌, Bool, true, false, ◌&&◌, ◌||◌, not, Option, none, some, [], Bytes,
  bytes_eq, is_empty, length, ltb, leb, ◌==◌, if◌then◌else◌,
}
use wasm_vm_v.Prelude.Int.{ℤ, pos, ◌+ℤ◌}
use wasm_vm_v.Errors.{VmError, invalid_account, contract_not_found}
use wasm_vm_v.Overflow.{wrap}
use wasm_vm_v.Output.{get_output_account, set_account}
use wasm_vm_v.Output.Types.{OutputAccount}
use wasm_vm_v.Host.{Host}
use wasm_vm_v.Hook.{BlockchainHook, UserAccount, Answer, found, missing, failed}

-- The account of an address in the output, made if it is missing.
abbrev pub load_account : Bytes → Host → Host × OutputAccount × Bool
load_account addr h =
    let (output, account, is_new) = get_output_account addr h.output in
    (record h { output = output }, account, is_new)

abbrev pub save_account : Bytes → OutputAccount → Host → Host
save_account addr account h = record h { output = set_account addr account h.output }

-- The balance and its change. A nil change is a panic in Go; no account of the current output has
-- one.
abbrev pub plus_delta : ℤ → Option ℤ → ℤ
plus_delta balance none = balance
plus_delta balance (some d) = balance +ℤ d

module _ (hook : BlockchainHook) where
  unfoldable pub account_exists : Bytes → Bool
  account_exists addr = elim (hook.get_user_account addr) [
    | found account ↦ true
    | missing ↦ false
    | failed err ↦ false
  ]

  unfoldable pub get_balance_big_int : Bytes → Host → Host × ℤ
  unfolding get_output_account
  get_balance_big_int addr h =
      let (h', account, is_new) = load_account addr h in
      let fetched : Host × ℤ = elim (hook.get_user_account addr) [
        | found user ↦ (
          save_account addr (record account { balance = some user.balance }) h',
          if is_new then user.balance else plus_delta user.balance account.balance_delta,
        )
        | missing ↦ (h', pos 0)
        | failed err ↦ (h', pos 0)
      ] in
      if is_new then fetched else elim account.balance [
        | some balance ↦ (h', plus_delta balance account.balance_delta)
        | none ↦ fetched
      ]

  -- The nonce and the error.
  unfoldable pub get_nonce : Bytes → Host → Host × ℕ × Option VmError
  unfolding get_output_account
  get_nonce addr h =
      let (h', account, is_new) = load_account addr h in
      if is_new || (account.nonce == 0 && h.flags.vm_v3_enabled)
      then elim (hook.get_user_account addr) [
        | found user ↦
            (save_account addr (record account { nonce = user.nonce }) h', user.nonce, none)
        | missing ↦ (h', 0, none)
        | failed err ↦ (h', 0, some err)
      ]
      else (h', account.nonce, none)

  -- An error of GetNonce is dropped, and the nonce that comes with it is 0.
  unfoldable pub increase_nonce : Bytes → Host → Host
  unfolding get_nonce get_output_account
  increase_nonce addr h =
      let (h1, nonce, err) = get_nonce addr h in
      let (h2, account, is_new) = load_account addr h1 in
      save_account addr (record account { nonce = (nonce + 1) % 2 ^ 64 }) h2

  unfoldable pub new_address : Bytes → Host → Host × Answer Bytes
  unfolding get_nonce
  new_address creator h =
      let (h', nonce, err) = get_nonce creator h in
      elim err [
        | some e ↦ (h', failed e)
        | none ↦
            let is_indirect = hook.is_smart_contract creator && h'.flags.vm_v3_enabled in
            let used = if not is_indirect && ltb 0 nonce then nonce - 1 else nonce in
            (h', hook.new_address creator used)
      ]

  unfoldable pub get_code_hash : Bytes → Bytes
  get_code_hash addr = elim (hook.get_user_account addr) [
    | found user ↦ user.code_hash
    | missing ↦ []
    | failed err ↦ []
  ]

  unfoldable pub get_code : Bytes → Host → Host × Bytes × Option VmError
  unfolding get_output_account
  get_code addr h =
      let (h', account, is_new) = load_account addr h in
      if not is_new && ltb 0 (length account.code)
      then (h', account.code, none)
      else elim (hook.get_user_account addr) [
        | failed err ↦ (h', [], some err)
        | missing ↦ (h', [], some invalid_account)
        | found user ↦
            let code = hook.get_code user in
            if length code == 0
            then (h', [], some contract_not_found)
            else (save_account addr (record account { code = code }) h', code, none)
      ]

  -- `int32(len(code))`.
  unfoldable pub get_code_size : Bytes → ℤ × Option VmError
  get_code_size addr = elim (hook.get_user_account addr) [
    | found user ↦ (wrap (2 ^ 32) (pos (length (hook.get_code user))), none)
    | missing ↦ (pos 0, none)
    | failed err ↦ (pos 0, some err)
  ]

  unfoldable pub get_owner_address : Host → Bytes × Option VmError
  get_owner_address h = elim (hook.get_user_account h.runtime.sc_address) [
    | found user ↦ (user.owner_address, none)
    | missing ↦ ([], none)
    | failed err ↦ ([], some err)
  ]
