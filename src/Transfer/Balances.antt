-- ===== src/Transfer/Balances.antt =====
-- Transfers create no value: the balance changes of all accounts keep their sum.
use wasm_vm_v.Prelude.{
  ◌≡◌, ◌≢◌, ◌∙◌, sym, ap, Option, none, some, [], ◌∷◌, Bytes, bytes_eq, bytes_equal, arith,
  Option-cases, Bool-cases, inl, inr,
}
use wasm_vm_v.Prelude.Map.{Map, lookup, insert}
use wasm_vm_v.Prelude.Int.{ℤ, pos, ◌+ℤ◌, ◌-ℤ◌, +ℤ_comm, +ℤ_zero, +ℤ_assoc, int_laws}
use wasm_vm_v.Output.{OutputContext, get_output_account, set_account, add_delta}
use wasm_vm_v.Output.Laws.{AccountIsValid, OutputIsValid}
use wasm_vm_v.Output.Accounts.{
  get_output_account-lookup, get_output_account-IsValid, get_output_account-AccountIsValid,
  get_output_account_keeps, set_account-IsValid,
}
use wasm_vm_v.Output.Types.{OutputAccount, new_vm_output_account}
use wasm_vm_v.Transfer.{move_value, sub_delta}

-- The balance change of an account, 0 where there is none.
abbrev pub change_of : Option OutputAccount → ℤ
change_of none = pos 0
change_of (some account) = elim account.balance_delta [ none ↦ pos 0 | some d ↦ d ]

unfoldable pub sum_of_changes : Map Bytes OutputAccount → ℤ
sum_of_changes [] = pos 0
sum_of_changes ((k, account) ∷ m) = change_of (some account) +ℤ sum_of_changes m

replace_first : (a b s : ℤ) → a +ℤ s +ℤ b ≡ b +ℤ s +ℤ a
unfolding ◌+ℤ◌
replace_first a b s = ground arith

replace_later : (o s t a b : ℤ) → s +ℤ b ≡ t +ℤ a → o +ℤ s +ℤ b ≡ o +ℤ t +ℤ a
replace_later o s t a b e = +ℤ_assoc o s b ∙ ap (λ x. o +ℤ x) e ∙ sym (+ℤ_assoc o t a)

-- Writing an account replaces its share of the sum.
sum_of_changes-insert :
    (k : Bytes) (account : OutputAccount) (m : Map Bytes OutputAccount)
    → sum_of_changes (insert k account m) +ℤ change_of (lookup k m)
      ≡ sum_of_changes m +ℤ change_of (some account)
unfolding sum_of_changes
sum_of_changes-insert k account [] =
    +ℤ_zero (change_of (some account) +ℤ pos 0) ∙ +ℤ_comm (change_of (some account)) (pos 0)
sum_of_changes-insert k account ((j, other) ∷ m) = elim (Bool-cases (bytes_equal j k)) [
  | inl here ↦
      rw here (replace_first (change_of (some account)) (change_of (some other)) (sum_of_changes m))
  | inr later ↦ rw later (
      replace_later (change_of (some other)) (sum_of_changes (insert k account m))
        (sum_of_changes m) (change_of (some account)) (change_of (lookup k m))
        (sum_of_changes-insert k account m))
]

abbrev pub sum_of : OutputContext → ℤ
sum_of c = sum_of_changes c.output_state.output_accounts

pub sum_of-set_account :
    (addr : Bytes) (old account : OutputAccount) (c : OutputContext)
    → lookup addr c.output_state.output_accounts ≡ some old
    → sum_of (set_account addr account c) +ℤ change_of (some old)
      ≡ sum_of c +ℤ change_of (some account)
sum_of-set_account addr old account c found =
    ground (arith, found, sum_of_changes-insert addr account c.output_state.output_accounts)

pub sum_of-get_output_account :
    (addr : Bytes) (c : OutputContext) → sum_of (get_output_account addr c).0 ≡ sum_of c
unfolding get_output_account
sum_of-get_output_account addr c =
    elim (Option-cases (lookup addr c.output_state.output_accounts)) [
      | inl missing ↦
          let new = new_vm_output_account addr in
          ground (
            arith,
            missing,
            sum_of_changes-insert addr new c.output_state.output_accounts,
            +ℤ_zero (sum_of_changes (insert addr new c.output_state.output_accounts)),
            +ℤ_zero (sum_of c),
          )
      | inr (account, here) ↦ ground (arith, here)
    ]

lose : (s t a v : ℤ) → t +ℤ a ≡ s +ℤ (a -ℤ v) → t +ℤ v ≡ s
lose s t a v e = grind int_laws

gain : (s t b v : ℤ) → t +ℤ b ≡ s +ℤ (b +ℤ v) → t ≡ s +ℤ v
gain s t b v e = grind int_laws

sum_of-sub :
    (addr : Bytes) (old : OutputAccount) (v : ℤ) (c : OutputContext)
    → AccountIsValid addr old
    → lookup addr c.output_state.output_accounts ≡ some old
    → sum_of (set_account addr (record old { balance_delta = sub_delta old.balance_delta v }) c)
        +ℤ v
      ≡ sum_of c
sum_of-sub addr old v c valid found =
    let new = record old { balance_delta = sub_delta old.balance_delta v } in
    elim (Option-cases old.balance_delta) [
      | inl nil ↦ ground (arith, nil, valid.has_delta)
      | inr (d, is) ↦
          lose (sum_of c) (sum_of (set_account addr new c)) d v
            (ground (arith, is, sum_of-set_account addr old new c found))
    ]

sum_of-add :
    (addr : Bytes) (old : OutputAccount) (v : ℤ) (c : OutputContext)
    → AccountIsValid addr old
    → lookup addr c.output_state.output_accounts ≡ some old
    → sum_of (set_account addr (record old { balance_delta = add_delta old.balance_delta v }) c)
      ≡ sum_of c +ℤ v
sum_of-add addr old v c valid found =
    let new = record old { balance_delta = add_delta old.balance_delta v } in
    elim (Option-cases old.balance_delta) [
      | inl nil ↦ ground (arith, nil, valid.has_delta)
      | inr (d, is) ↦
          gain (sum_of c) (sum_of (set_account addr new c)) d v
            (ground (arith, is, sum_of-set_account addr old new c found))
    ]

with_change-IsValid :
    (addr : Bytes) (account : OutputAccount) (d : Option ℤ)
    → AccountIsValid addr account
    → d ≢ none
    → AccountIsValid addr (record account { balance_delta = d })
with_change-IsValid addr account d v is = record {
  keyed = v.keyed;
  has_delta = is;
  distinct = v.distinct;
}

-- Moving value keeps the sum of the changes, whether or not sender and destination are the same, and
-- the accounts stay well-formed.
pub move_value_lem :
    (destination sender : Bytes) (value : ℤ) (c : OutputContext)
    → OutputIsValid c.output_state
    → (sum_of (move_value destination sender value c) ≡ sum_of c)
      × OutputIsValid (move_value destination sender value c).output_state
unfolding move_value
move_value_lem destination sender value c valid =
    let (c1, s, _) = get_output_account sender c in
    let (c2, _, _) = get_output_account destination c1 in
    let valid1 = get_output_account-IsValid sender c valid in
    let valid_s = get_output_account-AccountIsValid sender c valid in
    let valid2 = get_output_account-IsValid destination c1 valid1 in
    let s' = record s { balance_delta = sub_delta s.balance_delta value } in
    let valid_s' =
      with_change-IsValid sender s (sub_delta s.balance_delta value) valid_s
        (ground (arith, valid_s.has_delta)) in
    let c3 = set_account sender s' c2 in
    let valid3 = set_account-IsValid sender s' c2 valid_s' valid2 in
    let (c4, d, _) = get_output_account destination c3 in
    let valid4 = get_output_account-IsValid destination c3 valid3 in
    let valid_d = get_output_account-AccountIsValid destination c3 valid3 in
    let d' = record d { balance_delta = add_delta d.balance_delta value } in
    let valid_d' =
      with_change-IsValid destination d (add_delta d.balance_delta value) valid_d
        (ground (arith, valid_d.has_delta)) in
    let here =
      get_output_account_keeps destination sender s c1 (get_output_account-lookup sender c) in
    (
      sum_of-add destination d value c4 valid_d (get_output_account-lookup destination c3)
          ∙ ap (λ x. x +ℤ value) (sum_of-get_output_account destination c3)
          ∙ sum_of-sub sender s value c2 valid_s here
          ∙ sum_of-get_output_account destination c1
          ∙ sum_of-get_output_account sender c,
      set_account-IsValid destination d' c4 valid_d' valid4,
    )
