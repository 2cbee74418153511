-- ===== src/Execution/Success.antt =====
-- What a call of a contract by a contract leaves to its caller when it succeeds.
use wasm_vm_v.Prelude.{◌≡◌, ap, ◌∙◌, ◌∷◌, arith, ℕ, ◌+◌, ◌≤◌, ◌<◌, ◌^◌, true}
use wasm_vm_v.Output as O
use wasm_vm_v.Output.{OutputContext}
use wasm_vm_v.Output.Types.{VmOutput}
use wasm_vm_v.Overflow.{max_int64}
use wasm_vm_v.Overflow.Unsigned.{sub_uint64_lem}
use wasm_vm_v.BigInt as B
use wasm_vm_v.Storage as S
use wasm_vm_v.Metering.State as M
use wasm_vm_v.Runtime as R
use wasm_vm_v.Metering.Points.{restore_gas, use_gas}
use wasm_vm_v.Metering.Gas.{use_gas_lem}
use wasm_vm_v.Host.{Host, Instance, MeteringContext}
use wasm_vm_v.Execution.{is_ok}
use wasm_vm_v.Execution.Nested.{close_dest_context}
use wasm_vm_v.Execution.Frame.{Frame, Kept}
use wasm_vm_v.Execution.Restore.{
  Called, saved_state, refunded, refunded_same, big_int_restored, storage_restored,
  runtime_restored, pop_set_active_state_max,
}

-- The caller has its big integers, its storage address, its call and its gas limits back, and every
-- stack is as it was. The output and the gas figures of the accounts are merged with those of the
-- call.
pub record Returned (h h' : Host) : Type 0 where
  pub big_int : h'.big_int ≡ h.big_int
  pub storage : h'.storage ≡ record h.storage {
    vm_storage_protection_enabled = h'.storage.vm_storage_protection_enabled;
  }
  pub initial_gas_provided : h'.metering.initial_gas_provided ≡ h.metering.initial_gas_provided
  pub initial_cost : h'.metering.initial_cost ≡ h.metering.initial_cost
  pub gas_for_execution : h'.metering.gas_for_execution ≡ h.metering.gas_for_execution
  pub active : h'.runtime.active ≡ saved_state h.runtime.active
  pub kept : Kept h h'
  pub instances : h'.runtime.instance_stack ≡ h.runtime.instance_stack

-- What both endings of a success do, before gas is restored.
merge : Host → Host
merge h = record h {
  big_int = B.pop_set_active_state h.big_int;
  storage = S.pop_set_active_state h.storage;
  metering = M.pop_merge_active_state h.metering;
  output = O.pop_merge_active_state h.output;
  runtime = R.pop_set_active_state h.runtime;
}

metering_merged :
    (c d : MeteringContext)
    → d.state_stack ≡ c.active ∷ c.state_stack
    → let r = M.pop_merge_active_state d in
      (r.state_stack ≡ c.state_stack)
      × (r.initial_gas_provided ≡ c.initial_gas_provided)
      × (r.initial_cost ≡ c.initial_cost)
      × (r.gas_for_execution ≡ c.gas_for_execution)
      × (r.gas_schedule ≡ d.gas_schedule)
      × (r.block_gas_limit ≡ d.block_gas_limit)
unfolding M.pop_merge_active_state
metering_merged c d h = ground arith

output_merged :
    (c d : OutputContext)
    → d.state_stack ≡ (O.push_state c).state_stack
    → (O.pop_merge_active_state d).state_stack ≡ c.state_stack
unfolding O.pop_merge_active_state O.push_state
output_merged c d h = ground arith

merge-Returned : (h h2 : Host) (c : Instance) → Called c h h2 → Returned h (merge h2)
unfolding merge
merge-Returned h h2 c called =
    let f = called.frame in
    let r = runtime_restored h.runtime h2.runtime (ap Frame.states f) in
    let b = big_int_restored h.big_int h2.big_int (ap Frame.big_ints f) in
    let s =
      storage_restored h.storage h2.storage (ap Frame.addresses f)
        (ap Frame.protected_key_prefix f) in
    let m = metering_merged h.metering h2.metering (ap Frame.gas f) in
    let o = output_merged h.output h2.output (ap Frame.outputs f) in
    record {
      big_int = b;
      storage = s.0;
      initial_gas_provided = m.1;
      initial_cost = m.2;
      gas_for_execution = m.3;
      active = r.0;
      kept = record {
        protected = λ on. s.1 ∙ called.protected on;
        frame = ground (
          arith,
          b,
          s,
          m,
          o,
          r.1,
          ap Frame.snapshots f,
          ap Frame.gas_schedule f,
          ap Frame.block_gas_limit f,
          ap Frame.max_wasmer_instances f,
          ap Frame.flags f,
          pop_set_active_state_max h2.runtime,
        );
      };
      instances = r.3 ∙ called.stack;
    }

restore_gas-Returned : (gas : ℕ) (h h' : Host) → Returned h h' → Returned h (restore_gas gas h')
unfolding restore_gas
restore_gas-Returned gas h h' r = record {
  big_int = ground (arith, r.big_int);
  storage = ground (arith, r.storage);
  initial_gas_provided = ground (arith, r.initial_gas_provided);
  initial_cost = ground (arith, r.initial_cost);
  gas_for_execution = ground (arith, r.gas_for_execution);
  active = ground (arith, r.active);
  kept = record {
    frame = ground (arith, r.kept.frame);
    protected = λ on. ground (arith, r.kept.protected on);
  };
  instances = ground (arith, r.instances);
}

pub close_dest_context_ok :
    (h h2 : Host) (c : Instance) (out : VmOutput)
    → Called c h h2
    → is_ok out.return_code ≡ true
    → Returned h (close_dest_context out h2)
      × ((close_dest_context out h2).runtime.instance ≡ refunded out.gas_remaining c h)
unfolding close_dest_context merge
close_dest_context_ok h h2 c out called good =
    let r = runtime_restored h.runtime h2.runtime (ap Frame.states called.frame) in
    (
      ground (
        arith,
        good,
        restore_gas-Returned out.gas_remaining h (merge h2) (merge-Returned h h2 c called),
      ),
      ground (arith, good, refunded_same out.gas_remaining c h (merge h2) (r.2 ∙ called.popped)),
    )

-- The output and the gas figures are merged into those of the caller.
pub close_dest_context_merges :
    (h2 : Host) (out : VmOutput)
    → is_ok out.return_code ≡ true
    → ((close_dest_context out h2).output ≡ O.pop_merge_active_state h2.output)
      × ((close_dest_context out h2).metering ≡ M.pop_merge_active_state h2.metering)
unfolding close_dest_context restore_gas
close_dest_context_merges h2 out good = (ground (arith, good), ground (arith, good))

-- What is charged and not given back.
pub refunded-use_gas :
    (gas remaining : ℕ) (h : Host)
    → gas < 2 ^ 64
    → h.runtime.points_used + gas ≤ max_int64
    → remaining ≤ h.runtime.points_used + gas
    → (refunded remaining (use_gas gas h).runtime.instance h).points_used + remaining
      ≡ h.runtime.points_used + gas
unfolding restore_gas
refunded-use_gas gas remaining h small fits enough = ground (
  arith,
  use_gas_lem gas h small (omega arith),
  sub_uint64_lem (h.runtime.points_used + gas) remaining,
)
