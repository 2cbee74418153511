-- ===== src/Tests/Big.antt =====
-- Big integers on the host of the fixtures: 17, -5 and 0 under the handles 0, 1 and 2.
use wasm_vm_v.Prelude.{nat_eq, ℕ, ◌<◌, ◌≡◌, refl, none, some, arith, ◌==◌, if◌then◌else◌}
use wasm_vm_v.Prelude.Map.{lookup, Distinct}
use wasm_vm_v.Prelude.Int.{pos, negsuc, pos_part, neg_part, ◌+ℤ◌, ◌*ℤ◌}
use wasm_vm_v.Prelude.Division.{abs}
use wasm_vm_v.Errors.{div_zero}
use wasm_vm_v.Host.{BigIntContext}
use wasm_vm_v.BigInt.{put}
use wasm_vm_v.BigInt.Handles.{value_of, put_lem}
use wasm_vm_v.VmHooks.BigIntOps.{big_int_t_div, big_int_t_mod, big_int_e_div, big_int_e_mod}
use wasm_vm_v.VmHooks.Faults.{Failed, big_int_division_by_zero}
use wasm_vm_v.VmHooks.Arithmetic.{big_int_t_mod-big_int_t_div, big_int_e_mod-big_int_e_div}
use wasm_vm_v.Tests.Fixtures.{host}

put_example :
    (c' : BigIntContext) × (handle : ℕ) × (put (pos 9) host.big_int ≡ some (c', handle))
    × (lookup handle host.big_int.values ≡ none)
    × (lookup 0 c'.values ≡ (if handle == 0 then some (pos 9) else some (pos 17)))
    × Distinct c'.values
put_example = put_lem (pos 9) host.big_int 0 (refl, (refl, (refl, tt))) (omega arith)

t_div_example :
    let c = (big_int_t_mod 4 0 1 (big_int_t_div 3 0 1 host)).big_int in
    (value_of 3 c *ℤ negsuc 4 +ℤ value_of 4 c ≡ pos 17)
    × (abs (value_of 4 c) < 5)
    × (neg_part (value_of 4 c) ≡ 0)
unfolding value_of
t_div_example =
    big_int_t_mod-big_int_t_div 3 4 0 1 host (ground arith) (omega arith) (omega arith)
      (omega arith)

e_div_example :
    let c = (big_int_e_mod 4 0 1 (big_int_e_div 3 0 1 host)).big_int in
    (value_of 3 c *ℤ negsuc 4 +ℤ value_of 4 c ≡ pos 17)
    × (neg_part (value_of 4 c) ≡ 0)
    × (pos_part (value_of 4 c) < 5)
unfolding value_of
e_div_example =
    big_int_e_mod-big_int_e_div 3 4 0 1 host (ground arith) (omega arith) (omega arith)
      (omega arith)

division_by_zero_example :
    Failed div_zero host (big_int_t_div 3 0 2 host)
    × Failed div_zero host (big_int_t_mod 3 0 2 host)
    × Failed div_zero host (big_int_e_div 3 0 2 host)
    × Failed div_zero host (big_int_e_mod 3 0 2 host)
    × (value_of 0 (big_int_t_div 3 0 2 host).big_int ≡ pos 17)
    × (value_of 0 (big_int_t_mod 3 0 2 host).big_int ≡ pos 17)
    × (value_of 0 (big_int_e_div 3 0 2 host).big_int ≡ pos 17)
    × (value_of 0 (big_int_e_mod 3 0 2 host).big_int ≡ pos 17)
unfolding value_of
division_by_zero_example = big_int_division_by_zero 3 0 2 0 host (omega arith) (omega arith) refl
