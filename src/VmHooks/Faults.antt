-- ===== src/VmHooks/Faults.antt =====
-- The faults of the big integer operations.
use wasm_vm_v.Prelude.{
  ℕ, ◌≤◌, ◌≡◌, refl, Bool, true, false, List, [], ◌∷◌, ◌++◌, arith, if◌then◌else◌,
}
use wasm_vm_v.Prelude.Int.{ℤ, pos}
use wasm_vm_v.Prelude.Division.{is_zero, quo, rem, div, mod_ℤ}
use wasm_vm_v.Errors.{VmError, error_message, execution_failed, div_zero}
use wasm_vm_v.Overflow.{max_int64}
use wasm_vm_v.Output.{set_return_code, set_return_message}
use wasm_vm_v.Host.{Host, breakpoint_execution_failed}
use wasm_vm_v.Metering.Points.{use_gas, gas_left}
use wasm_vm_v.Metering.Gas.{PointsAreCapped, use_gas_lem}
use wasm_vm_v.BigInt.{get_three}
use wasm_vm_v.BigInt.Handles.{value_of, get_three_lem}
use wasm_vm_v.Fault.{with_fault, fail_execution, add_error, set_runtime_breakpoint_value}
use wasm_vm_v.VmHooks.BigIntOps.{
  use_extra_gas_for_operations, load_three, divide, with_big_int, big_int_fault, api_cost,
  big_int_t_div, big_int_t_mod, big_int_e_div, big_int_e_mod,
}

-- The second host differs from the first in its gas points alone, which are within the cap where
-- they were.
pub record OnlyPoints (h h' : Host) : Type 0 where
  pub same : h' ≡ record h {
    runtime = record h.runtime {
      instance = record h.runtime.instance { points_used = h'.runtime.points_used };
    };
  }
  pub capped : PointsAreCapped h → PointsAreCapped h'

OnlyPoints-refl : (h : Host) → OnlyPoints h h
OnlyPoints-refl h = record { same = refl; capped = λ cap. cap }

pub OnlyPoints-use_gas : (gas : ℕ) (h : Host) → OnlyPoints h (use_gas gas h)
unfolding use_gas
OnlyPoints-use_gas gas h = record { same = refl; capped = λ cap. ground arith }

OnlyPoints-trans : {h h' h'' : Host} → OnlyPoints h h' → OnlyPoints h' h'' → OnlyPoints h h''
OnlyPoints-trans {h} {h'} {h''} p q = record {
  same = ground (arith, p.same, q.same);
  capped = λ cap. q.capped (p.capped cap);
}

OnlyPoints-if :
    (b : Bool) {h h' h'' : Host}
    → OnlyPoints h h'
    → OnlyPoints h h''
    → OnlyPoints h (if b then h' else h'')
OnlyPoints-if true p q = p
OnlyPoints-if false p q = q

pub OnlyPoints-extra :
    (values : List ℤ) (h : Host) → OnlyPoints h (use_extra_gas_for_operations values h)
unfolding use_extra_gas_for_operations
OnlyPoints-extra [] h = OnlyPoints-refl h
OnlyPoints-extra (v ∷ values) h =
    OnlyPoints-trans (OnlyPoints-if _ (OnlyPoints-use_gas _ h) (OnlyPoints-refl h))
      (OnlyPoints-extra values _)

-- What a fault leaves behind: no gas, the failed execution as breakpoint and return code, and the
-- text and a record of the error. The values, the storage and the accounts are as they were.
pub record Failed (err : VmError) (h h' : Host) : Type 0 where
  pub no_gas : gas_left h' ≡ 0
  pub breakpoint : h'.runtime.breakpoint ≡ breakpoint_execution_failed
  pub errors : h'.runtime.errors ≡ h.runtime.errors ++ (err, []) ∷ []
  pub output :
      h'.output ≡ set_return_message (error_message err) (set_return_code execution_failed h.output)
  pub storage : h'.storage ≡ h.storage

big_int_fault-Failed :
    (err : VmError) (h : Host)
    → h.metering.gas_for_execution ≤ max_int64
    → PointsAreCapped h
    → Failed err h (big_int_fault err h) × ((big_int_fault err h).big_int ≡ h.big_int)
unfolding with_fault fail_execution add_error set_runtime_breakpoint_value set_return_message
    set_return_code gas_left
big_int_fault-Failed err h fits cap = ground (arith, use_gas_lem (gas_left h) h)

-- What the loading of three operands keeps.
pub record Loaded (h h' : Host) : Type 0 where
  pub metering : h'.metering ≡ h.metering
  pub output : h'.output ≡ h.output
  pub storage : h'.storage ≡ h.storage
  pub errors : h'.runtime.errors ≡ h.runtime.errors
  pub capped : PointsAreCapped h → PointsAreCapped h'

pub load_three-Loaded : (gas d x y : ℕ) (h : Host) → Loaded h (load_three gas d x y h).0
unfolding load_three
load_three-Loaded gas d x y h =
    let h1 = use_gas gas h in
    let (c, dest, a, b) = get_three d x y h1.big_int in
    let p = OnlyPoints-use_gas gas h in
    let q = OnlyPoints-extra (dest ∷ a ∷ b ∷ []) (with_big_int c h1) in
    record {
      metering = ground (arith, p.same, q.same);
      output = ground (arith, p.same, q.same);
      storage = ground (arith, p.same, q.same);
      errors = ground (arith, p.same, q.same);
      capped = λ cap. q.capped (p.capped cap);
    }

-- The operands are the values of their handles, and no value changes.
pub load_three_lem :
    (gas d x y j : ℕ) (h : Host)
    → let (h', a, b) = load_three gas d x y h in
      (a ≡ value_of x h.big_int)
      × (b ≡ value_of y h.big_int)
      × (value_of j h'.big_int ≡ value_of j h.big_int)
unfolding load_three
load_three_lem gas d x y j h =
    let h1 = use_gas gas h in
    let (c, dest, a, b) = get_three d x y h1.big_int in
    ground (
      arith,
      (OnlyPoints-use_gas gas h).same,
      (OnlyPoints-extra (dest ∷ a ∷ b ∷ []) (with_big_int c h1)).same,
      get_three_lem d x y j h1.big_int,
    )

divide_by_zero :
    (f : ℤ → ℤ → ℤ) (gas d x y j : ℕ) (h : Host)
    → h.metering.gas_for_execution ≤ max_int64
    → PointsAreCapped h
    → value_of y h.big_int ≡ pos 0
    → Failed div_zero h (divide f gas d x y h)
      × (value_of j (divide f gas d x y h).big_int ≡ value_of j h.big_int)
unfolding divide
divide_by_zero f gas d x y j h fits cap zero_divisor =
    let (h1, a, b) = load_three gas d x y h in
    let l = load_three-Loaded gas d x y h in
    let m = load_three_lem gas d x y j h in
    let failed = big_int_fault-Failed div_zero h1 (ground (arith, l.metering)) (l.capped cap) in
    let is : is_zero b ≡ true = ground (arith, m) in ground (arith, l, m, is, failed)

-- Dividing by a handle whose value is 0 fails the execution in each of the four divisions: no gas is
-- left, the breakpoint and the return code say so, the error is recorded, and the values of all
-- handles stay, that of the destination too. (The gas for the execution and the points used are
-- taken to be at most the cap.)
pub big_int_division_by_zero :
    (d x y j : ℕ) (h : Host)
    → h.metering.gas_for_execution ≤ max_int64
    → PointsAreCapped h
    → value_of y h.big_int ≡ pos 0
    → Failed div_zero h (big_int_t_div d x y h)
      × Failed div_zero h (big_int_t_mod d x y h)
      × Failed div_zero h (big_int_e_div d x y h)
      × Failed div_zero h (big_int_e_mod d x y h)
      × (value_of j (big_int_t_div d x y h).big_int ≡ value_of j h.big_int)
      × (value_of j (big_int_t_mod d x y h).big_int ≡ value_of j h.big_int)
      × (value_of j (big_int_e_div d x y h).big_int ≡ value_of j h.big_int)
      × (value_of j (big_int_e_mod d x y h).big_int ≡ value_of j h.big_int)
unfolding big_int_t_div big_int_t_mod big_int_e_div big_int_e_mod
big_int_division_by_zero d x y j h fits cap zero_divisor =
    let t_div = divide_by_zero quo (api_cost h).big_int_t_div d x y j h fits cap zero_divisor in
    let t_mod = divide_by_zero rem (api_cost h).big_int_sub d x y j h fits cap zero_divisor in
    let e_div = divide_by_zero div (api_cost h).big_int_sub d x y j h fits cap zero_divisor in
    let e_mod = divide_by_zero mod_ℤ (api_cost h).big_int_sub d x y j h fits cap zero_divisor in
    (t_div.0, t_mod.0, e_div.0, e_mod.0, t_div.1, t_mod.1, e_div.1, e_mod.1)
