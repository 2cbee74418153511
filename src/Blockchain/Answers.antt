-- ===== src/Blockchain/Answers.antt =====
-- What is read through the blockchain context stays the same while it is cached, and nonces count.
use wasm_vm_v.Prelude.{
  suc, ◌+◌, ◌%◌, ◌^◌, ◌<◌, ◌≡◌, refl, true, false, none, some, Bytes, bytes_eq, bytes_equal_iff,
  arith,
}
use wasm_vm_v.Prelude.Map.{lookup, lookup-insert}
use wasm_vm_v.Prelude.Int.{pos, +ℤ_zero}
use wasm_vm_v.Output.{OutputContext, get_output_account, set_account}
use wasm_vm_v.Output.Types.{OutputAccount}
use wasm_vm_v.Output.Accounts.{get_output_account-lookup}
use wasm_vm_v.Host.{Host}
use wasm_vm_v.Hook.{BlockchainHook, UserAccount, Answer, found, missing, failed}
use wasm_vm_v.Blockchain.{get_balance_big_int, get_nonce, increase_nonce}

-- An account that is there is found as it is.
get_output_account_present :
    (addr : Bytes) (account : OutputAccount) (c : OutputContext)
    → lookup addr c.output_state.output_accounts ≡ some account
    → get_output_account addr c ≡ (c, account, false)
unfolding get_output_account
get_output_account_present addr account c here = ground (arith, here)

get_output_account-set_account :
    (addr : Bytes) (account : OutputAccount) (c : OutputContext)
    → get_output_account addr (set_account addr account c)
      ≡ (set_account addr account c, account, false)
get_output_account-set_account addr account c =
    get_output_account_present addr account (set_account addr account c) (
      ground (
        arith,
        bytes_equal_iff addr addr,
        lookup-insert addr addr account c.output_state.output_accounts,
      ))

get_output_account-get_output_account :
    (addr : Bytes) (c : OutputContext)
    → let (c', account, _) = get_output_account addr c in
      get_output_account addr c' ≡ (c', account, false)
get_output_account-get_output_account addr c =
    let (c', account, _) = get_output_account addr c in
    get_output_account_present addr account c' (get_output_account-lookup addr c)

new_account_delta :
    (addr : Bytes) (c : OutputContext)
    → (get_output_account addr c).2 ≡ true
    → (get_output_account addr c).1.balance_delta ≡ some (pos 0)
unfolding get_output_account
new_account_delta addr c new = ground arith

module _ (hook : BlockchainHook) (addr : Bytes) (h : Host) where
  -- After IncreaseNonce the nonce of the address reads as one more than it read before, without an
  -- error, as long as it stays below 2 ^ 64. (A nonce that could not be read counted as 0.)
  pub get_nonce-increase_nonce :
      suc (get_nonce hook addr h).1 < 2 ^ 64
      → let (_, nonce, err) = get_nonce hook addr (increase_nonce hook addr h) in
        (nonce ≡ suc (get_nonce hook addr h).1) × (err ≡ none)
  unfolding increase_nonce get_nonce
  get_nonce-increase_nonce small =
      let (h1, n, _) = get_nonce hook addr h in
      let (c', account, _) = get_output_account addr h1.output in
      ground (
        arith,
        get_output_account-set_account addr (record account { nonce = (n + 1) % 2 ^ 64 }) c',
      )

  again :
      (answer : Answer UserAccount)
      → hook.get_user_account addr ≡ answer
      → (get_balance_big_int hook addr (get_balance_big_int hook addr h).0).1
        ≡ (get_balance_big_int hook addr h).1
  unfolding get_balance_big_int
  again (found user) e =
      let (c', account, _) = get_output_account addr h.output in
      ground (
        arith,
        e,
        +ℤ_zero user.balance,
        new_account_delta addr h.output,
        get_output_account-get_output_account addr h.output,
        get_output_account-set_account addr (record account { balance = some user.balance }) c',
      )
  again missing e = ground (arith, e, get_output_account-get_output_account addr h.output)
  again (failed err) e = ground (arith, e, get_output_account-get_output_account addr h.output)

  -- A balance that is read twice in a row is the same.
  pub get_balance_big_int_again :
      (get_balance_big_int hook addr (get_balance_big_int hook addr h).0).1
      ≡ (get_balance_big_int hook addr h).1
  get_balance_big_int_again = again (hook.get_user_account addr) refl
