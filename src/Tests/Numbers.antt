-- ===== src/Tests/Numbers.antt =====
-- Saturating arithmetic at its bounds.
use wasm_vm_v.Prelude.{◌-◌, ◌^◌, ◌≡◌, arith}
use wasm_vm_v.Prelude.Int.{pos, negsuc, ◌+ℤ◌}
use wasm_vm_v.Overflow.{add_int32}
use wasm_vm_v.Overflow.Signed.{add_int32_lem}

-- The largest value also where the sum is too small.
add_int32_example : add_int32 (negsuc (2 ^ 31 - 1)) (negsuc 0) ≡ pos (2 ^ 31 - 1)
unfolding ◌+ℤ◌
add_int32_example =
    add_int32_lem (negsuc (2 ^ 31 - 1)) (negsuc 0) (omega arith, omega arith)
      (omega arith, omega arith)
