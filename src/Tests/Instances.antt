-- ===== src/Tests/Instances.antt =====
-- The memory of an instance, the verification of new code, and the gas of a call-back.

use wasm_vm_v.Prelude.{◌∷◌, [], true, none, some, inr, ◌≡◌, refl, length, arith}
use wasm_vm_v.Prelude.Int.{pos}
use wasm_vm_v.Overflow.{add_int32}
use wasm_vm_v.Host.{Host, Instance, breakpoint_none}
use wasm_vm_v.Runtime.Memory.{mem_load, mem_store}
use wasm_vm_v.Runtime.Bounds.{padded, mem_load_lem, mem_load-mem_store}
use wasm_vm_v.Runtime.Instances.{
  start_wasmer_instance, make_instance_from_compiled_code, make_instance_from_contract_byte_code,
  verify_contract_code, save_compiled, check_contract_code, verify_memory_declaration,
  verify_functions, check_backward_compatibility,
}
use wasm_vm_v.Runtime.{set_instance}
use wasm_vm_v.Runtime.Verified.{Verified, start_wasmer_instance-Verified}
use wasm_vm_v.Tests.Fixtures.{hook}
use wasm_vm_v.Tests.Nested.{engine, host}

abbrev instance_4 : Instance
instance_4 = record {
  exports = some 0;
  points_used = 0;
  breakpoint = breakpoint_none;
  memory = 1 ∷ 2 ∷ 3 ∷ 4 ∷ [];
}

-- The last two bytes and a zero.
mem_load_example : mem_load (pos 2) (pos 3) instance_4 ≡ inr (padded 3 (3 ∷ 4 ∷ []))
mem_load_example =
    mem_load_lem 2 3 instance_4 (omega arith) (omega arith) (omega arith) (omega arith)

stored : (mem_store engine (pos 1) (8 ∷ 9 ∷ []) instance_4).1 ≡ none
unfolding mem_store add_int32
stored = refl

stored_length : length (mem_store engine (pos 1) (8 ∷ 9 ∷ []) instance_4).0.memory ≡ 4
unfolding mem_store add_int32
stored_length = refl

mem_load-mem_store_example :
    mem_load (pos 1) (pos 2) (mem_store engine (pos 1) (8 ∷ 9 ∷ []) instance_4).0 ≡ inr (8 ∷ 9 ∷ [])
mem_load-mem_store_example =
    mem_load-mem_store engine 1 8 (9 ∷ []) instance_4 (omega arith) stored
      (omega (arith, stored_length))

abbrev new_host : Host
new_host = record host { runtime = record host.runtime { verify_code = true } }

started : (start_wasmer_instance engine hook (5 ∷ []) 100 true new_host).1 ≡ none
unfolding start_wasmer_instance make_instance_from_compiled_code
    make_instance_from_contract_byte_code verify_contract_code save_compiled set_instance
    check_contract_code verify_memory_declaration verify_functions check_backward_compatibility
started = refl

start_wasmer_instance-Verified_example :
    Verified engine (start_wasmer_instance engine hook (5 ∷ []) 100 true new_host).0
start_wasmer_instance-Verified_example =
    start_wasmer_instance-Verified engine hook (5 ∷ []) 100 new_host refl started
