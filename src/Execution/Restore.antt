-- ===== src/Execution/Restore.antt =====
-- Failed calls of a contract by a contract: the contexts of the caller are restored as if the call
-- did not happen, but for its gas.

use wasm_vm_v.Prelude.{◌≡◌, refl, ap, ◌∙◌, Option, none, some, [], ◌∷◌, arith, ℕ, false}
use wasm_vm_v.Errors.{VmError}
use wasm_vm_v.Output as O
use wasm_vm_v.Output.{censor_vm_output}
use wasm_vm_v.Output.Types.{VmOutput}
use wasm_vm_v.Output.Laws.{OutputIsValid}
use wasm_vm_v.Output.Stack.{pop_set_active_state-push_state}
use wasm_vm_v.BigInt as B
use wasm_vm_v.BigInt.Handles.{clone_same}
use wasm_vm_v.Storage as S
use wasm_vm_v.Metering.State as M
use wasm_vm_v.Metering.Points.{restore_gas}
use wasm_vm_v.Runtime as R
use wasm_vm_v.Host.{
  Host, Instance, same_instance, ContractCallInput, BigIntContext, StorageContext, MeteringContext,
  RuntimeState, Runtime,
}
use wasm_vm_v.Execution.{is_ok}
use wasm_vm_v.Execution.Nested.{enter_dest_context, close_dest_context, call_output}
use wasm_vm_v.Execution.Frame.{
  Frame, frame_of, IsProtected, Balanced, Balanced-trans, Steady, get_vm_output-Steady,
  create_vm_output_in_case_of_error-Steady,
}

-- What PushState and PopSetActiveState keep of the state of the runtime context: SetVMInput drops
-- the hash of the previous transaction.
abbrev pub saved_state : RuntimeState → RuntimeState
saved_state a = record a { vm_input = record a.vm_input { prev_tx_hash = [] } }

-- The contexts of the caller are as before the call. The code updates of the callee stay, and so do
-- the errors and the size of its code. The protection of the storage is on if it was on.
pub record Restored (h h' : Host) : Type 0 where
  pub big_int : h'.big_int ≡ h.big_int
  pub storage : h'.storage ≡ record h.storage {
    vm_storage_protection_enabled = h'.storage.vm_storage_protection_enabled;
  }
  pub protected : IsProtected h → IsProtected h'
  pub metering : h'.metering ≡ h.metering
  pub output : h'.output ≡ record h.output { code_updates = h'.output.code_updates }
  pub active : h'.runtime.active ≡ saved_state h.runtime.active
  pub states : h'.runtime.state_stack ≡ h.runtime.state_stack
  pub instances : h'.runtime.instance_stack ≡ h.runtime.instance_stack
  pub snapshots : h'.blockchain.state_stack ≡ h.blockchain.state_stack
  pub limit : h'.runtime.max_wasmer_instances ≡ h.runtime.max_wasmer_instances
  pub flags : h'.flags ≡ h.flags

pub big_int_restored :
    (c d : BigIntContext)
    → d.state_stack ≡ (B.push_state c).state_stack
    → B.pop_set_active_state d ≡ c
unfolding B.pop_set_active_state B.push_state
big_int_restored c d h = ground (arith, clone_same c.values)

pub storage_restored :
    (c d : StorageContext)
    → d.state_stack ≡ c.address ∷ c.state_stack
    → d.protected_key_prefix ≡ c.protected_key_prefix
    → let r = S.pop_set_active_state d in
      (r ≡ record c { vm_storage_protection_enabled = r.vm_storage_protection_enabled })
      × (r.vm_storage_protection_enabled ≡ d.vm_storage_protection_enabled)
unfolding S.pop_set_active_state
storage_restored c d h p = (ground arith, ground arith)

pub metering_restored :
    (c d : MeteringContext)
    → d.state_stack ≡ c.active ∷ c.state_stack
    → d.gas_schedule ≡ c.gas_schedule
    → d.block_gas_limit ≡ c.block_gas_limit
    → M.pop_set_active_state d ≡ c
unfolding M.pop_set_active_state
metering_restored c d h p q = ground arith

pub runtime_restored :
    (c d : Runtime)
    → d.state_stack ≡ saved_state c.active ∷ c.state_stack
    → ((R.pop_set_active_state d).active ≡ saved_state c.active)
      × ((R.pop_set_active_state d).state_stack ≡ c.state_stack)
      × ((R.pop_set_active_state d).instance ≡ (R.pop_instance d).instance)
      × ((R.pop_set_active_state d).instance_stack ≡ (R.pop_instance d).instance_stack)
unfolding R.pop_set_active_state R.pop_instance
runtime_restored c d h = ground arith

pub pop_set_active_state_max :
    (r : Runtime) → (R.pop_set_active_state r).max_wasmer_instances ≡ r.max_wasmer_instances
unfolding R.pop_set_active_state R.pop_instance
pop_set_active_state_max r = ground arith

-- The frame of a call.
abbrev pub call_frame : Host → Frame
call_frame h = record (frame_of h) {
  big_ints = (B.push_state h.big_int).state_stack;
  outputs = (O.push_state h.output).state_stack;
  gas = h.metering.active ∷ h.metering.state_stack;
  addresses = h.storage.address ∷ h.storage.state_stack;
  states = saved_state h.runtime.active ∷ h.runtime.state_stack;
}

pub enter_dest_context_frame :
    (call : ContractCallInput) (h : Host)
    → let h1 = (enter_dest_context call h).0 in
      (frame_of h1 ≡ call_frame h)
      × (h1.runtime.instance ≡ h.runtime.instance)
      × (IsProtected h → IsProtected h1)
      × (h1.runtime.instance_stack ≡ same_instance ∷ h.runtime.instance_stack)
unfolding enter_dest_context censor_vm_output M.init_state_from_contract_call_input M.push_state
    B.init_state S.push_state S.set_address R.push_state R.init_state_from_contract_call_input
    O.push_state B.push_state
enter_dest_context_frame call h = (refl, refl, λ p. p, refl)

-- The host at the end of a call: a pop gives the caller's instance back.
pub record Called (c : Instance) (h h2 : Host) : Type 0 where
  pub frame : frame_of h2 ≡ call_frame h
  pub protected : IsProtected h → IsProtected h2
  pub popped : (R.pop_instance h2.runtime).instance ≡ c
  pub stack : (R.pop_instance h2.runtime).instance_stack ≡ h.runtime.instance_stack

pub Called-Steady :
    {c : Instance} {h : Host} (h2 h3 : Host) → Called c h h2 → Steady h2 h3 → Called c h h3
unfolding R.pop_instance
Called-Steady h2 h3 b p = record {
  frame = p.balanced.kept.frame ∙ b.frame;
  protected = λ on. p.balanced.kept.protected (b.protected on);
  popped = ground (arith, b.popped, p.instance, p.balanced.instances);
  stack = ground (arith, b.stack, p.balanced.instances);
}

-- What both endings do after a failure.
abbrev pub undo : Host → Host
undo h = record h {
  big_int = B.pop_set_active_state h.big_int;
  storage = S.pop_set_active_state h.storage;
  metering = M.pop_set_active_state h.metering;
  output = O.pop_set_active_state h.output;
  runtime = R.pop_set_active_state h.runtime;
}

-- An instance after gas was restored to it.
abbrev pub refunded : ℕ → Instance → Host → Instance
refunded gas c h =
    (restore_gas gas (record h { runtime = record h.runtime { instance = c } })).runtime.instance

pub refunded_same :
    (gas : ℕ) (c : Instance) (h h' : Host)
    → h'.runtime.instance ≡ c
    → (restore_gas gas h').runtime.instance ≡ refunded gas c h
unfolding restore_gas
refunded_same gas c h h' e = ground (arith, e)

undo-Restored :
    (h h2 : Host)
    → OutputIsValid h.output.output_state
    → frame_of h2 ≡ call_frame h
    → (IsProtected h → IsProtected h2)
    → (R.pop_instance h2.runtime).instance_stack ≡ h.runtime.instance_stack
    → Restored h (undo h2)
undo-Restored h h2 valid f protected stack =
    let s =
      storage_restored h.storage h2.storage (ap Frame.addresses f)
        (ap Frame.protected_key_prefix f) in
    let r = runtime_restored h.runtime h2.runtime (ap Frame.states f) in
    record {
      big_int = big_int_restored h.big_int h2.big_int (ap Frame.big_ints f);
      storage = s.0;
      protected = λ on. s.1 ∙ protected on;
      metering =
          metering_restored h.metering h2.metering (ap Frame.gas f) (ap Frame.gas_schedule f)
            (ap Frame.block_gas_limit f);
      output =
          ground
            (arith, pop_set_active_state-push_state h.output h2.output valid (ap Frame.outputs f));
      active = r.0;
      states = r.1;
      instances = r.3 ∙ stack;
      snapshots = ap Frame.snapshots f;
      limit = pop_set_active_state_max h2.runtime ∙ ap Frame.max_wasmer_instances f;
      flags = ap Frame.flags f;
    }

output_popped :
    (c d : O.OutputContext)
    → d.state_stack ≡ (O.push_state c).state_stack
    → (O.pop_set_active_state d).state_stack ≡ c.state_stack
unfolding O.pop_set_active_state O.push_state
output_popped c d h = ground arith

-- The stacks are restored also where the output of the caller is not well-formed.
undo-Balanced :
    (h h2 : Host)
    → frame_of h2 ≡ call_frame h
    → (IsProtected h → IsProtected h2)
    → (R.pop_instance h2.runtime).instance_stack ≡ h.runtime.instance_stack
    → Balanced h (undo h2)
undo-Balanced h h2 f protected stack =
    let r = runtime_restored h.runtime h2.runtime (ap Frame.states f) in
    let s =
      storage_restored h.storage h2.storage (ap Frame.addresses f)
        (ap Frame.protected_key_prefix f) in
    let b = big_int_restored h.big_int h2.big_int (ap Frame.big_ints f) in
    let m =
      metering_restored h.metering h2.metering (ap Frame.gas f) (ap Frame.gas_schedule f)
        (ap Frame.block_gas_limit f) in
    let o = output_popped h.output h2.output (ap Frame.outputs f) in
    record {
      kept = record {
        protected = λ on. s.1 ∙ protected on;
        frame = ground (
          arith,
          b,
          s.0,
          m,
          o,
          r.1,
          ap Frame.snapshots f,
          ap Frame.max_wasmer_instances f,
          ap Frame.flags f,
          pop_set_active_state_max h2.runtime,
        );
      };
      instances = r.3 ∙ stack;
    }

restore_gas-Balanced : (gas : ℕ) (h : Host) → Balanced h (restore_gas gas h)
unfolding restore_gas
restore_gas-Balanced gas h = ground arith

pub close_dest_context-Balanced :
    (h h2 : Host) (c : Instance) (out : VmOutput)
    → Called c h h2
    → is_ok out.return_code ≡ false
    → Balanced h (close_dest_context out h2)
unfolding close_dest_context
close_dest_context-Balanced h h2 c out called bad = ground (
  arith,
  bad,
  Balanced-trans (undo-Balanced h h2 called.frame called.protected called.stack)
      (restore_gas-Balanced out.gas_remaining (undo h2)),
)

restore_gas-Restored : (gas : ℕ) (h h' : Host) → Restored h h' → Restored h (restore_gas gas h')
unfolding restore_gas
restore_gas-Restored gas h h' r = record {
  big_int = ground (arith, r.big_int);
  storage = ground (arith, r.storage);
  protected = λ on. ground (arith, r.protected on);
  metering = ground (arith, r.metering);
  output = ground (arith, r.output);
  active = ground (arith, r.active);
  states = ground (arith, r.states);
  instances = ground (arith, r.instances);
  snapshots = ground (arith, r.snapshots);
  limit = ground (arith, r.limit);
  flags = ground (arith, r.flags);
}

pub call_output-Steady : (err : Option VmError) (h : Host) → Steady h (call_output err h).0
unfolding call_output
call_output-Steady none h = get_vm_output-Steady h
call_output-Steady (some e) h = create_vm_output_in_case_of_error-Steady e h

pub close_dest_context_failed :
    (h h2 : Host) (c : Instance) (out : VmOutput)
    → OutputIsValid h.output.output_state
    → Called c h h2
    → is_ok out.return_code ≡ false
    → Restored h (close_dest_context out h2)
      × ((close_dest_context out h2).runtime.instance ≡ refunded out.gas_remaining c h)
unfolding close_dest_context
close_dest_context_failed h h2 c out valid called bad =
    let r = runtime_restored h.runtime h2.runtime (ap Frame.states called.frame) in
    (
      ground (
        arith,
        bad,
        restore_gas-Restored out.gas_remaining h (undo h2)
            (undo-Restored h h2 valid called.frame called.protected called.stack),
      ),
      ground (arith, bad, refunded_same out.gas_remaining c h (undo h2) (r.2 ∙ called.popped)),
    )
