-- ===== src/Execution/Away.antt =====
-- Where the instance of the caller is while the callee runs, and what the execution of the callee
-- leaves to the caller.
use wasm_vm_v.Prelude.{◌≡◌, refl, ◌∙◌, Bool, Option, none, some, List, ◌∷◌, Bytes, arith, ℕ}
use Prim.Native.String.{String}
use wasm_vm_v.Errors.{VmError}
use wasm_vm_v.Host.{Host, Instance, InstancePointer, same_instance, other_instance}
use wasm_vm_v.Hook.{BlockchainHook}
use wasm_vm_v.Engine.{Engine}
use wasm_vm_v.Blockchain.{get_code_hash}
use wasm_vm_v.Fault.{add_error}
use wasm_vm_v.Runtime.{pop_instance, set_instance, clean_wasmer_instance}
use wasm_vm_v.Runtime.Instances.{
  start_wasmer_instance, make_instance_from_compiled_code, make_instance_from_contract_byte_code,
  save_compiled, verify_contract_code,
}
use wasm_vm_v.Execution.{Result, and_then, or_error}
use wasm_vm_v.Execution.Frame.{Kept, Kept-trans, Balanced, Balanced-refl, Steady}

-- The caller's instance is still the current one, and was pushed.
pub record At (c : Instance) (s : List InstancePointer) (h : Host) : Type 0 where
  pub current : h.runtime.instance ≡ c
  pub pushed : h.runtime.instance_stack ≡ same_instance ∷ s

pub At-Steady :
    {c : Instance} {s : List InstancePointer} {h h' : Host} → At c s h → Steady h h' → At c s h'
At-Steady a p = record {
  current = p.instance ∙ a.current;
  pushed = p.balanced.instances ∙ a.pushed;
}

-- Another instance runs, and that of the caller is the last one that was pushed.
pub record Away (c : Instance) (s : List InstancePointer) (h h' : Host) : Type 0 where
  pub kept : Kept h h'
  pub pushed : h'.runtime.instance_stack ≡ other_instance c ∷ s

-- A pop of the instance stack gives the caller's instance back.
pub record Back (c : Instance) (s : List InstancePointer) (h h' : Host) : Type 0 where
  pub kept : Kept h h'
  pub popped : (pop_instance h'.runtime).instance ≡ c
  pub stack : (pop_instance h'.runtime).instance_stack ≡ s

pub At-Back :
    (c : Instance) (s : List InstancePointer) (h h' : Host) → Kept h h' → At c s h' → Back c s h h'
unfolding pop_instance
At-Back c s h h' f a = ground (arith, f, a.current, a.pushed)

Away-Back : {c : Instance} {s : List InstancePointer} (h h' : Host) → Away c s h h' → Back c s h h'
unfolding pop_instance
Away-Back h h' a = ground (arith, a.kept, a.pushed)

Away-Balanced :
    {c : Instance} {s : List InstancePointer} {h h' h'' : Host}
    → Away c s h h'
    → Balanced h' h''
    → Away c s h h''
Away-Balanced a p = record { kept = Kept-trans a.kept p.kept; pushed = p.instances ∙ a.pushed }

make_instance_from_contract_byte_code-Away :
    (engine : Engine) (code hash : Bytes) (gas : ℕ) (new_code : Bool) (c : Instance)
    (s : List InstancePointer) (h : Host)
    → At c s h
    → Away c s h (make_instance_from_contract_byte_code engine code hash gas new_code h).0
unfolding make_instance_from_contract_byte_code set_instance clean_wasmer_instance save_compiled
    verify_contract_code
make_instance_from_contract_byte_code-Away engine code hash gas new_code c s h a =
    ground (arith, a.current, a.pushed)

pub start_wasmer_instance-Away :
    (engine : Engine) (hook : BlockchainHook) (code : Bytes) (gas : ℕ) (new_code : Bool)
    (c : Instance) (s : List InstancePointer) (h : Host)
    → At c s h
    → Away c s h (start_wasmer_instance engine hook code gas new_code h).0
unfolding start_wasmer_instance make_instance_from_compiled_code set_instance clean_wasmer_instance
start_wasmer_instance-Away engine hook code gas new_code c s h a = ground (
  arith,
  a.current,
  a.pushed,
  make_instance_from_contract_byte_code-Away engine code (get_code_hash hook h.runtime.sc_address)
      gas new_code c s h a,
)

-- The end of an execution: a pop gives the caller's instance back, and after a success it is the
-- last one that was pushed.
pub Ends : Instance → List InstancePointer → Host → Result → Type 0
Ends c s h (h', none) = Away c s h h'
Ends c s h (h', some e) = Back c s h h'

pub Away-Ends :
    (c : Instance) (s : List InstancePointer) (h : Host) (r : Result)
    → Away c s h r.0
    → Ends c s h r
unfolding Ends
Away-Ends c s h (h', none) a = a
Away-Ends c s h (h', some e) a = Away-Back h h' a

pub Ends-Back :
    (c : Instance) (s : List InstancePointer) (h : Host) (r : Result)
    → Ends c s h r
    → Back c s h r.0
unfolding Ends
Ends-Back c s h (h', none) a = Away-Back h h' a
Ends-Back c s h (h', some e) b = b

pub failed-Ends :
    (c : Instance) (s : List InstancePointer) (h h' : Host) (e : VmError)
    → Kept h h'
    → At c s h'
    → Ends c s h (h', some e)
unfolding Ends
failed-Ends c s h h' e f a = At-Back c s h h' f a

pub Ends-after :
    (c : Instance) (s : List InstancePointer) (h h1 : Host) (r : Result)
    → Kept h h1
    → Ends c s h1 r
    → Ends c s h r
unfolding Ends
Ends-after c s h h1 (h', none) f a = record { kept = Kept-trans f a.kept; pushed = a.pushed }
Ends-after c s h h1 (h', some e) f b = record {
  kept = Kept-trans f b.kept;
  popped = b.popped;
  stack = b.stack;
}

pub and_then-Ends :
    {c : Instance} {s : List InstancePointer} {h : Host} (r : Result) (rest : Host → Result)
    → At c s h
    → Steady h r.0
    → ((h1 : Host) → At c s h1 → Ends c s h1 (rest h1))
    → Ends c s h (and_then r rest)
unfolding Ends
and_then-Ends {c} {s} {h} (h1, none) rest a p q =
    Ends-after c s h h1 (rest h1) p.balanced.kept (q h1 (At-Steady a p))
and_then-Ends {c} {s} {h} (h1, some e) rest a p q = At-Back c s h h1 p.balanced.kept (At-Steady a p)

pub Ends-and_then :
    (c : Instance) (s : List InstancePointer) (h : Host) (r : Result) (rest : Host → Result)
    → Ends c s h r
    → ((h1 : Host) → Balanced h1 (rest h1).0)
    → Ends c s h (and_then r rest)
unfolding Ends
Ends-and_then c s h (h1, none) rest a q = Away-Ends c s h (rest h1) (Away-Balanced a (q h1))
Ends-and_then c s h (h1, some e) rest b q = b

pub and_then-Away :
    {c : Instance} {s : List InstancePointer} {h : Host} (r : Result) (rest : Host → Result)
    → Away c s h r.0
    → ((h1 : Host) → Balanced h1 (rest h1).0)
    → Away c s h (and_then r rest).0
and_then-Away (h1, none) rest a q = Away-Balanced a (q h1)
and_then-Away (h1, some e) rest a q = a

pub or_error-Away :
    {c : Instance} {s : List InstancePointer} {h : Host} (other : VmError) (r : Result)
    → Away c s h r.0
    → Away c s h (or_error other r).0
or_error-Away other (h1, none) a = a
or_error-Away other (h1, some e) a = a

pub add_error-Balanced :
    (err : Option VmError) (info : List String) (h : Host) → Balanced h (add_error err info h)
unfolding add_error
add_error-Balanced none info h = Balanced-refl h
add_error-Balanced (some e) info h = record {
  kept = record { frame = refl; protected = λ p. p };
  instances = refl;
}
