-- ===== src/Metering/Sums.antt =====
-- The sums that the loops of the final accounting compute, without their cut-off at 2 ^ 64.
use wasm_vm_v.Prelude.{
  ℕ, ◌+◌, ◌^◌, ◌<◌, ◌≡◌, ◌≢◌, refl, none, List, [], ◌∷◌, Bytes, bytes_eq, bytes_equal,
  bytes_equal_iff, arith, if◌then◌else◌,
}
use wasm_vm_v.Prelude.Map.{Map, lookup, insert, get_or, Distinct, lookup-insert}
use wasm_vm_v.Overflow.Unsigned.{add_uint64_lem, add_uint64_exact}
use wasm_vm_v.Output.Types.{OutputAccount, OutputTransfer}
use wasm_vm_v.Metering.Account.{
  add_transfers, get_gas_transferred_by_account, add_gas_of_others, add_gas_of_all, set_gas_used,
  all_present,
}

-- The gas that leaves with the transfers to an account.
abbrev pub transfers_gas : List OutputTransfer → ℕ
transfers_gas [] = 0
transfers_gas (t ∷ ts) = t.gas_limit + t.gas_locked + transfers_gas ts

-- The gas used by the accounts other than `current`, and the gas of all transfers.
abbrev pub gas_of_others : Bytes → Map Bytes ℕ → Map Bytes OutputAccount → ℕ
gas_of_others current used [] = 0
gas_of_others current used ((addr, account) ∷ accounts) =
    (if bytes_equal addr current then 0 else get_or addr 0 used)
    + transfers_gas account.output_transfers
    + gas_of_others current used accounts

-- The gas used by the accounts, and the gas of all transfers.
abbrev pub gas_of_all : Map Bytes OutputAccount → ℕ
gas_of_all [] = 0
gas_of_all ((addr, account) ∷ accounts) =
    account.gas_used + transfers_gas account.output_transfers + gas_of_all accounts

add_transfers_lem :
    (gas : ℕ) (ts : List OutputTransfer)
    → gas + transfers_gas ts < 2 ^ 64
    → add_transfers gas ts ≡ gas + transfers_gas ts
unfolding add_transfers
add_transfers_lem gas [] lt = omega arith
add_transfers_lem gas (t ∷ ts) lt = ground (
  arith,
  add_uint64_lem gas t.gas_limit,
  add_uint64_lem (gas + t.gas_limit) t.gas_locked,
  add_transfers_lem (gas + t.gas_limit + t.gas_locked) ts,
)

pub get_gas_transferred_by_account_lem :
    (account : OutputAccount)
    → transfers_gas account.output_transfers < 2 ^ 64
    → get_gas_transferred_by_account account ≡ transfers_gas account.output_transfers
unfolding get_gas_transferred_by_account
get_gas_transferred_by_account_lem account lt =
    omega (arith, add_transfers_lem 0 account.output_transfers)

pub add_gas_of_others_lem :
    (current : Bytes) (used : Map Bytes ℕ) (gas : ℕ) (accounts : Map Bytes OutputAccount)
    → gas + gas_of_others current used accounts < 2 ^ 64
    → add_gas_of_others current used gas accounts ≡ gas + gas_of_others current used accounts
unfolding add_gas_of_others
add_gas_of_others_lem current used gas [] lt = omega arith
add_gas_of_others_lem current used gas ((addr, account) ∷ accounts) lt =
    let mine : ℕ = if bytes_equal addr current then 0 else get_or addr 0 used in
    let moved : ℕ = transfers_gas account.output_transfers in
    rw
      (
        get_gas_transferred_by_account_lem account (omega arith),
        add_uint64_exact gas mine (omega arith),
        add_uint64_exact (gas + mine) moved (omega arith),
      )
      (omega (arith, add_gas_of_others_lem current used (gas + mine + moved) accounts))

pub add_gas_of_all_lem :
    (gas : ℕ) (accounts : Map Bytes OutputAccount)
    → gas + gas_of_all accounts < 2 ^ 64
    → add_gas_of_all gas accounts ≡ gas + gas_of_all accounts
unfolding add_gas_of_all
add_gas_of_all_lem gas [] lt = omega arith
add_gas_of_all_lem gas ((addr, account) ∷ accounts) lt =
    let moved : ℕ = transfers_gas account.output_transfers in
    rw
      (
        get_gas_transferred_by_account_lem account (omega arith),
        add_uint64_exact gas account.gas_used (omega arith),
        add_uint64_exact (gas + account.gas_used) moved (omega arith),
      )
      (omega (arith, add_gas_of_all_lem (gas + account.gas_used + moved) accounts))

-- With the gas of `current` written among the gas used by accounts that are others.
gas_of_all-set_absent :
    (current : Bytes) (gas : ℕ) (used : Map Bytes ℕ) (accounts : Map Bytes OutputAccount)
    → lookup current accounts ≡ none
    → gas_of_all (set_gas_used (insert current gas used) accounts)
      ≡ gas_of_others current used accounts
unfolding set_gas_used
gas_of_all-set_absent current gas used [] h = refl
gas_of_all-set_absent current gas used ((addr, account) ∷ accounts) h = ground (
  arith,
  bytes_equal_iff addr current,
  bytes_equal_iff current addr,
  lookup-insert current addr gas used,
  gas_of_all-set_absent current gas used accounts,
)

-- Once the gas of `current` is entered, the accounts add up to it and the gas of the others.
pub gas_of_all-set_gas_used :
    (current : Bytes) (gas : ℕ) (used : Map Bytes ℕ) (accounts : Map Bytes OutputAccount)
    → Distinct accounts
    → lookup current accounts ≢ none
    → gas_of_all (set_gas_used (insert current gas used) accounts)
      ≡ gas + gas_of_others current used accounts
unfolding set_gas_used
gas_of_all-set_gas_used current gas used [] d h = absurd (h refl)
gas_of_all-set_gas_used current gas used ((addr, account) ∷ accounts) d h = ground (
  arith,
  bytes_equal_iff addr current,
  bytes_equal_iff current addr,
  lookup-insert current addr gas used,
  gas_of_all-set_absent current gas used accounts,
  gas_of_all-set_gas_used current gas used accounts d.1,
)

lookup-set_gas_used :
    (addr : Bytes) (used : Map Bytes ℕ) (accounts : Map Bytes OutputAccount)
    → lookup addr accounts ≢ none
    → lookup addr (set_gas_used used accounts) ≢ none
unfolding set_gas_used
lookup-set_gas_used addr used [] h = h
lookup-set_gas_used addr used ((k, account) ∷ accounts) h =
    ground (arith, lookup-set_gas_used addr used accounts)

all_present-set_gas_used :
    (used all : Map Bytes ℕ) (accounts : Map Bytes OutputAccount)
    → all_present used accounts ≡ none
    → all_present used (set_gas_used all accounts) ≡ none
unfolding all_present
all_present-set_gas_used [] all accounts h = refl
all_present-set_gas_used ((k, g) ∷ used) all accounts h =
    ground (arith, lookup-set_gas_used k all accounts, all_present-set_gas_used used all accounts)

pub all_present-insert :
    (current : Bytes) (gas : ℕ) (used all : Map Bytes ℕ) (accounts : Map Bytes OutputAccount)
    → lookup current accounts ≢ none
    → all_present used accounts ≡ none
    → all_present (insert current gas used) (set_gas_used all accounts) ≡ none
unfolding all_present
all_present-insert current gas [] all accounts here h =
    ground (arith, lookup-set_gas_used current all accounts here)
all_present-insert current gas ((k, g) ∷ used) all accounts here h = ground (
  arith,
  lookup-set_gas_used k all accounts,
  all_present-set_gas_used used all accounts,
  all_present-insert current gas used all accounts here,
)
