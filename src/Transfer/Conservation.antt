-- ===== src/Transfer/Conservation.antt =====
-- TransferValueOnly and Transfer keep the sum of the balance changes on every path, and change no
-- balance on an error.
use wasm_vm_v.Prelude.{
  ℕ, ◌≡◌, ◌≢◌, ◌⊎◌, refl, ◌∙◌, sym, ap, subst, Bool, none, some, List, [], ◌∷◌, Bytes, bytes_eq,
  arith, Option-cases, Bool-cases, inl, inr, not, ◌++◌, ◌&&◌, ltb,
}
use wasm_vm_v.Prelude.Int.{ℤ, pos, ◌+ℤ◌, ◌≤ℤ◌, int_laws}
use wasm_vm_v.Output.{OutputContext, get_output_account, set_account}
use wasm_vm_v.Output.Laws.{AccountIsValid, OutputIsValid}
use wasm_vm_v.Output.Accounts.{
  get_output_account-lookup, get_output_account-IsValid, get_output_account-AccountIsValid,
  set_account-IsValid,
}
use wasm_vm_v.Output.Types.{OutputAccount, OutputTransfer, CallType}
use wasm_vm_v.Host.{Host}
use wasm_vm_v.Hook.{BlockchainHook, UserAccount, Answer, found, missing, failed}
use wasm_vm_v.Blockchain.{get_balance_big_int}
use wasm_vm_v.Transfer.{
  move_value, has_sufficient_balance, transfer_value_only, transfer, is_asynchronous_call_back,
}
use wasm_vm_v.Transfer.Balances.{
  change_of, sum_of, move_value_lem, sum_of-set_account, sum_of-get_output_account,
}

-- The accounts of the second context are well-formed and their changes have the same sum.
pub record Steady (c c' : OutputContext) : Type 0 where
  pub sum : sum_of c' ≡ sum_of c
  pub valid : OutputIsValid c'.output_state

Steady-trans : {c c' c'' : OutputContext} → Steady c c' → Steady c' c'' → Steady c c''
Steady-trans p q = record { sum = q.sum ∙ p.sum; valid = q.valid }

cancel_same : (s t a : ℤ) → t +ℤ a ≡ s +ℤ a → t ≡ s
cancel_same s t a e = grind int_laws

Steady-get_output_account :
    (addr : Bytes) (c : OutputContext)
    → OutputIsValid c.output_state
    → Steady c (get_output_account addr c).0
Steady-get_output_account addr c v = record {
  sum = sum_of-get_output_account addr c;
  valid = get_output_account-IsValid addr c v;
}

-- A write that keeps the balance change of the account.
Steady-set_account :
    (addr : Bytes) (new : OutputAccount) (c : OutputContext)
    → OutputIsValid c.output_state
    → AccountIsValid addr new
    → new.balance_delta ≡ (get_output_account addr c).1.balance_delta
    → Steady c (set_account addr new (get_output_account addr c).0)
Steady-set_account addr new c v vn same =
    let (c', old, _) = get_output_account addr c in
    let e : change_of (some new) ≡ change_of (some old) = ground (arith, same) in
    record {
      sum =
          cancel_same (sum_of c') (sum_of (set_account addr new c')) (change_of (some old)) (
            sum_of-set_account addr old new c' (get_output_account-lookup addr c)
            ∙ ap (λ x. sum_of c' +ℤ x) e)
          ∙ sum_of-get_output_account addr c;
      valid = set_account-IsValid addr new c' vn (get_output_account-IsValid addr c v);
    }

module _ (hook : BlockchainHook) where
  -- The output after GetBalanceBigInt: the account is made, and may have its balance filled in.
  get_balance_big_int_output :
      (addr : Bytes) (h : Host) (answer : Answer UserAccount)
      → hook.get_user_account addr ≡ answer
      → let (c', account, _) = get_output_account addr h.output in
        ((get_balance_big_int hook addr h).0.output ≡ c')
        ⊎ ((b : ℤ) × ((get_balance_big_int hook addr h).0.output
              ≡ set_account addr (record account { balance = some b }) c'))
  unfolding get_balance_big_int
  get_balance_big_int_output addr h (found user) e =
      let (c', account, is_new) = get_output_account addr h.output in
      elim (Bool-cases is_new) [
        | inl new ↦ inr (user.balance, ground (arith, e, new))
        | inr old ↦ elim (Option-cases account.balance) [
          | inl empty ↦ inr (user.balance, ground (arith, e, old, empty))
          | inr (b, full) ↦ inl (ground (arith, e, old, full))
        ]
      ]
  get_balance_big_int_output addr h missing e = inl (ground (arith, e))
  get_balance_big_int_output addr h (failed err) e = inl (ground (arith, e))

  Steady-get_balance_big_int :
      (addr : Bytes) (h : Host)
      → OutputIsValid h.output.output_state
      → Steady h.output (get_balance_big_int hook addr h).0.output
  Steady-get_balance_big_int addr h v =
      let (c', account, _) = get_output_account addr h.output in
      elim (get_balance_big_int_output addr h (hook.get_user_account addr) refl) [
        | inl same ↦ subst (Steady h.output) (sym same) (Steady-get_output_account addr h.output v)
        | inr (b, filled) ↦
            let va = get_output_account-AccountIsValid addr h.output v in
            subst (Steady h.output) (sym filled) (
              Steady-set_account addr (record account { balance = some b }) h.output v
                (record { keyed = va.keyed; has_delta = va.has_delta; distinct = va.distinct })
                refl)
      ]

  -- The three outputs that a transfer may leave behind.
  transfer_value_only_output :
      (destination sender : Bytes) (value : ℤ) (check : Bool) (h : Host)
      → let (h1, balance) = get_balance_big_int hook sender h in
        let (h', err) = transfer_value_only hook destination sender value check h in
        ((err ≢ none) × ((h'.output ≡ h.output) ⊎ (h'.output ≡ h1.output)))
        ⊎ ((err ≡ none)
            × (h'.output ≡ move_value destination sender value h1.output)
            × (pos 0 ≤ℤ value)
            × (value ≤ℤ balance))
  unfolding transfer_value_only has_sufficient_balance
  transfer_value_only_output destination sender value check h = ground arith

  -- TransferValueOnly keeps the sum of the balance changes of all accounts, whether it succeeds or
  -- not, and keeps the accounts well-formed. It succeeds only with a value that is not negative and
  -- that the balance of the sender covers.
  pub transfer_value_only_lem :
      (destination sender : Bytes) (value : ℤ) (check : Bool) (h : Host)
      → OutputIsValid h.output.output_state
      → let (h', err) = transfer_value_only hook destination sender value check h in
        Steady h.output h'.output
        × ((err ≢ none) ⊎ ((pos 0 ≤ℤ value) × (value ≤ℤ (get_balance_big_int hook sender h).1)))
  transfer_value_only_lem destination sender value check h v =
      let balance = Steady-get_balance_big_int sender h v in
      let h1 = (get_balance_big_int hook sender h).0 in
      elim (transfer_value_only_output destination sender value check h) [
        | inl (err, inl same) ↦
            (subst (Steady h.output) (sym same) (record { sum = refl; valid = v }), inl err)
        | inl (err, inr fetched) ↦ (subst (Steady h.output) (sym fetched) balance, inl err)
        | inr (ok, moved, positive, covered) ↦
            let m = move_value_lem destination sender value h1.output balance.valid in
            (
              subst (Steady h.output) (sym moved)
                  (Steady-trans balance (record { sum = m.0; valid = m.1 })),
              inr (positive, covered),
            )
      ]

  transfer_output :
      (destination sender : Bytes) (gas_limit gas_locked : ℕ) (value : ℤ) (input : Bytes)
      (call_type : CallType) (h : Host)
      → let check = ltb 0 gas_limit && not (is_asynchronous_call_back call_type) in
        let (h1, err) = transfer_value_only hook destination sender value check h in
        let (h', err') =
          transfer hook destination sender gas_limit gas_locked value input call_type h in
        let (c', account, _) = get_output_account destination h1.output in
        (err' ≡ err)
        × ((h'.output ≡ h1.output)
            ⊎ ((ts : List OutputTransfer) × (h'.output
                  ≡ set_account destination (record account { output_transfers = ts }) c')))
  unfolding transfer
  transfer_output destination sender gas_limit gas_locked value input call_type h =
      let check = ltb 0 gas_limit && not (is_asynchronous_call_back call_type) in
      let (h1, err) = transfer_value_only hook destination sender value check h in
      let (c', account, _) = get_output_account destination h1.output in
      let entry : OutputTransfer = record {
        value = value;
        gas_limit = gas_limit;
        gas_locked = gas_locked;
        content = input;
        call_type = call_type;
        sender_address = sender;
      } in
      elim (Option-cases err) [
        | inl ok ↦
            (ground (arith, ok), inr (account.output_transfers ++ entry ∷ [], ground (arith, ok)))
        | inr (e, stopped) ↦ (ground (arith, stopped), inl (ground (arith, stopped)))
      ]

  -- Transfer keeps the sum of the balance changes and the accounts well-formed too, and its error is
  -- that of TransferValueOnly, which checks the destination unless the call is a callback or has no
  -- gas.
  pub transfer_lem :
      (destination sender : Bytes) (gas_limit gas_locked : ℕ) (value : ℤ) (input : Bytes)
      (call_type : CallType) (h : Host)
      → OutputIsValid h.output.output_state
      → let check = ltb 0 gas_limit && not (is_asynchronous_call_back call_type) in
        let (h', err) =
          transfer hook destination sender gas_limit gas_locked value input call_type h in
        Steady h.output h'.output
        × (err ≡ (transfer_value_only hook destination sender value check h).1)
  transfer_lem destination sender gas_limit gas_locked value input call_type h v =
      let check = ltb 0 gas_limit && not (is_asynchronous_call_back call_type) in
      let h1 = (transfer_value_only hook destination sender value check h).0 in
      let first = (transfer_value_only_lem destination sender value check h v).0 in
      let (c', account, _) = get_output_account destination h1.output in
      let o = transfer_output destination sender gas_limit gas_locked value input call_type h in
      elim o.1 [
        | inl same ↦ (subst (Steady h.output) (sym same) first, o.0)
        | inr (ts, written) ↦
            let va = get_output_account-AccountIsValid destination h1.output first.valid in
            (
              subst (Steady h.output) (sym written) (
                  Steady-trans first (
                    Steady-set_account destination (record account { output_transfers = ts })
                      h1.output first.valid
                      (record {
                        keyed = va.keyed;
                        has_delta = va.has_delta;
                        distinct = va.distinct;
                      })
                      refl)),
              o.0,
            )
      ]
