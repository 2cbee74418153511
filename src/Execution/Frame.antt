-- ===== src/Execution/Frame.antt =====
-- What the code that runs inside a nested call leaves as it is: the stacks of the contexts and the
-- settings of the host.
use wasm_vm_v.Prelude.{
  ℕ, Bool, true, false, not, ◌≡◌, refl, ap, ◌∙◌, Option, none, some, List, Bytes, bytes_eq, arith,
  if◌then◌else◌,
}
use wasm_vm_v.Prelude.Map.{Map}
use wasm_vm_v.Prelude.Int.{ℤ, pos, ltb_ℤ}
use wasm_vm_v.Errors.{VmError, out_of_gas}
use wasm_vm_v.Output as O
use wasm_vm_v.Output.{get_output_account, set_return_code, deploy_code}
use wasm_vm_v.Output.Types.{VmOutput}
use wasm_vm_v.Host.{Host, GasCost, MeteringState, RuntimeState, Flags}
use wasm_vm_v.Hook.{BlockchainHook}
use wasm_vm_v.Fault.{add_error}
use wasm_vm_v.Blockchain.{get_balance_big_int, get_code}
use wasm_vm_v.Metering.Points.{
  use_gas, deduct_initial_gas, deduct_initial_gas_for_execution,
  deduct_initial_gas_for_direct_deployment,
}
use wasm_vm_v.Metering.Account.{
  update_gas_state_on_success, update_gas_state_on_failure, update_sc_gas_used,
  set_gas_used_to_output_accounts,
}
use wasm_vm_v.FinalOutput.{
  get_vm_output, create_vm_output_in_case_of_error, remove_non_updated_code,
}
use wasm_vm_v.Transfer.{transfer_value_only, move_value, has_sufficient_balance, must_refuse}
use wasm_vm_v.Runtime.Instances.{get_sc_code}
use wasm_vm_v.Execution.{Result, and_then}
use wasm_vm_v.Execution.Call.{deduct_for_deployment}

pub record Frame : Type 0 where
  pub big_ints : List (Map ℕ ℤ)
  pub outputs : List VmOutput
  pub gas : List MeteringState
  pub addresses : List Bytes
  pub states : List RuntimeState
  pub snapshots : List ℕ
  pub gas_schedule : GasCost
  pub block_gas_limit : ℕ
  pub protected_key_prefix : Bytes
  pub max_wasmer_instances : ℕ
  pub flags : Flags

abbrev pub frame_of : Host → Frame
frame_of h = record {
  big_ints = h.big_int.state_stack;
  outputs = h.output.state_stack;
  gas = h.metering.state_stack;
  addresses = h.storage.state_stack;
  states = h.runtime.state_stack;
  snapshots = h.blockchain.state_stack;
  gas_schedule = h.metering.gas_schedule;
  block_gas_limit = h.metering.block_gas_limit;
  protected_key_prefix = h.storage.protected_key_prefix;
  max_wasmer_instances = h.runtime.max_wasmer_instances;
  flags = h.flags;
}

abbrev pub IsProtected : Host → Type 0
IsProtected h = h.storage.vm_storage_protection_enabled ≡ true

-- The code kept the frame, and the protection of the storage if it was on.
pub record Kept (h h' : Host) : Type 0 where
  pub frame : frame_of h' ≡ frame_of h
  pub protected : IsProtected h → IsProtected h'

pub Kept-refl : (h : Host) → Kept h h
Kept-refl h = record { frame = refl; protected = λ p. p }

pub Kept-trans : {h h' h'' : Host} → Kept h h' → Kept h' h'' → Kept h h''
Kept-trans p q = record {
  frame = q.frame ∙ p.frame;
  protected = λ on. q.protected (p.protected on);
}

-- It kept the instance stack too.
pub record Balanced (h h' : Host) : Type 0 where
  pub kept : Kept h h'
  pub instances : h'.runtime.instance_stack ≡ h.runtime.instance_stack

pub Balanced-refl : (h : Host) → Balanced h h
Balanced-refl h = record { kept = Kept-refl h; instances = refl }

pub Balanced-trans : {h h' h'' : Host} → Balanced h h' → Balanced h' h'' → Balanced h h''
Balanced-trans p q = record {
  kept = Kept-trans p.kept q.kept;
  instances = q.instances ∙ p.instances;
}

pub and_then-Balanced :
    {h : Host} (r : Result) (rest : Host → Result)
    → Balanced h r.0
    → ((h1 : Host) → Balanced h1 (rest h1).0)
    → Balanced h (and_then r rest).0
and_then-Balanced (h1, none) rest p q = Balanced-trans p (q h1)
and_then-Balanced (h1, some e) rest p q = p

-- The code kept the current instance and the called function too.
pub record Steady (h h' : Host) : Type 0 where
  pub balanced : Balanced h h'
  pub instance : h'.runtime.instance ≡ h.runtime.instance
  pub function : h'.runtime.call_function ≡ h.runtime.call_function

pub Steady-refl : (h : Host) → Steady h h
Steady-refl h = record { balanced = Balanced-refl h; instance = refl; function = refl }

pub Steady-trans : {h h' h'' : Host} → Steady h h' → Steady h' h'' → Steady h h''
Steady-trans p q = record {
  balanced = Balanced-trans p.balanced q.balanced;
  instance = q.instance ∙ p.instance;
  function = q.function ∙ p.function;
}

Steady-if :
    (b : Bool) (h : Host) (r r' : Result)
    → Steady h r.0
    → Steady h r'.0
    → Steady h (if b then r else r').0
Steady-if true h r r' p q = p
Steady-if false h r r' p q = q

Steady-unless :
    (err : Option VmError) (h h1 : Host) (r : Result)
    → Steady h h1
    → Steady h r.0
    → Steady h (elim err as (λ e. Result) [ some e ↦ (h1, some e) | none ↦ r ]).0
Steady-unless none h h1 r p q = q
Steady-unless (some e) h h1 r p q = p

pub get_output_account_stack :
    (addr : Bytes) (h : Host)
    → (get_output_account addr h.output).0.state_stack ≡ h.output.state_stack
unfolding get_output_account
get_output_account_stack addr h = ground arith

pub use_gas-Balanced : (gas : ℕ) (h : Host) → Balanced h (use_gas gas h)
unfolding use_gas
use_gas-Balanced gas h = record {
  kept = record { frame = refl; protected = λ p. p };
  instances = refl;
}

pub deploy_code_stack :
    (input : O.CodeDeployInput) (c : O.OutputContext)
    → (deploy_code input c).state_stack ≡ c.state_stack
unfolding deploy_code get_output_account
deploy_code_stack input c = ground arith

deduct_initial_gas-Steady :
    (code : Bytes) (base per_byte : ℕ) (h : Host)
    → Steady h (deduct_initial_gas code base per_byte h).0
unfolding deduct_initial_gas
deduct_initial_gas-Steady code base per_byte h = ground arith

out_of_gas-Steady :
    (h h' : Host) (err : Option VmError)
    → Steady h h'
    → Steady h
        (elim err as (λ e. Result) [
          | none ↦ (h', none)
          | some e ↦ (record h' { output = set_return_code out_of_gas h'.output }, some e)
        ]).0
unfolding set_return_code
out_of_gas-Steady h h' none p = p
out_of_gas-Steady h h' (some e) p = Steady-trans p (record {
  balanced = record { kept = record { frame = refl; protected = λ p. p }; instances = refl };
  instance = refl;
  function = refl;
})

pub deduct_for_deployment-Steady :
    (code : Bytes) (h : Host) → Steady h (deduct_for_deployment code h).0
unfolding deduct_for_deployment deduct_initial_gas_for_direct_deployment
deduct_for_deployment-Steady code h = out_of_gas-Steady h _ _ (deduct_initial_gas-Steady code _ _ h)

pub deduct_initial_gas_for_execution-Steady :
    (code : Bytes) (h : Host) → Steady h (deduct_initial_gas_for_execution code h).0
unfolding deduct_initial_gas_for_execution
deduct_initial_gas_for_execution-Steady code h =
    let base = h.metering.gas_schedule.base_operation_cost in
    Steady-if h.flags.ahead_of_time_compile_enabled h _ _
      (deduct_initial_gas-Steady code base.get_code base.aot_prepare_per_byte h)
      (deduct_initial_gas-Steady code 0 base.compile_per_byte h)

pub get_sc_code-Steady : (hook : BlockchainHook) (h : Host) → Steady h (get_sc_code hook h).0
unfolding get_sc_code get_code get_output_account
get_sc_code-Steady hook h = ground arith

has_sufficient_balance-Steady :
    (hook : BlockchainHook) (addr : Bytes) (value : ℤ) (h : Host)
    → Steady h (has_sufficient_balance hook addr value h).0
unfolding has_sufficient_balance get_balance_big_int get_output_account
has_sufficient_balance-Steady hook addr value h = ground arith

move_value_stack :
    (dest sender : Bytes) (value : ℤ) (c : O.OutputContext)
    → (move_value dest sender value c).state_stack ≡ c.state_stack
unfolding move_value get_output_account
move_value_stack dest sender value c = ground arith

move_value-Steady :
    (dest sender : Bytes) (value : ℤ) (h : Host)
    → Steady h (record h { output = move_value dest sender value h.output })
move_value-Steady dest sender value h = record {
  balanced = record {
    kept = record {
      frame =
          ap (λ outputs. record (frame_of h) { outputs = outputs })
            (move_value_stack dest sender value h.output);
      protected = λ p. p;
    };
    instances = refl;
  };
  instance = refl;
  function = refl;
}

pub transfer_value_only-Steady :
    (hook : BlockchainHook) (dest sender : Bytes) (value : ℤ) (check : Bool) (h : Host)
    → Steady h (transfer_value_only hook dest sender value check h).0
unfolding transfer_value_only
transfer_value_only-Steady hook dest sender value check h =
    let h1 = (has_sufficient_balance hook sender value h).0 in
    let p = has_sufficient_balance-Steady hook sender value h in
    let q = Steady-trans p (move_value-Steady dest sender value h1) in
    Steady-if (ltb_ℤ value (pos 0)) h _ _ (Steady-refl h) (
      Steady-if (not (has_sufficient_balance hook sender value h).1) h _ _ p (
        Steady-unless (hook.is_payable dest).1 h h1 _ p
          (Steady-if (must_refuse hook check (hook.is_payable dest).0 value h1) h _ _ p q)))

pub get_vm_output-Steady : (h : Host) → Steady h (get_vm_output h).0
unfolding get_vm_output update_gas_state_on_success update_sc_gas_used
    set_gas_used_to_output_accounts get_output_account create_vm_output_in_case_of_error
    update_gas_state_on_failure add_error remove_non_updated_code
get_vm_output-Steady h = ground arith

pub create_vm_output_in_case_of_error-Steady :
    (err : VmError) (h : Host) → Steady h (create_vm_output_in_case_of_error err h).0
unfolding get_output_account create_vm_output_in_case_of_error update_gas_state_on_failure add_error
create_vm_output_in_case_of_error-Steady err h = ground arith
