-- ===== src/Metering/Gas.antt =====
-- What the gas operations charge: no charge is lost below the cap on the gas points, and a refused
-- charge changes nothing.
use wasm_vm_v.Prelude.{ℕ, ◌+◌, ◌*◌, ◌^◌, ◌≤◌, ◌<◌, min, ◌≡◌, ◌⊎◌, none, some, Bytes, length, arith}
use wasm_vm_v.Errors.{not_enough_gas}
use wasm_vm_v.Overflow.{max_int64, max_uint64}
use wasm_vm_v.Overflow.Unsigned.{add_uint64_lem, sub_uint64_lem, mul_uint64_lem}
use wasm_vm_v.Host.{Host}
use wasm_vm_v.Metering.Points.{use_gas, restore_gas, gas_left, use_gas_bounded, deduct_initial_gas}

-- The gas points of a state that the VM can reach: SetPointsUsed cuts them off at the largest int64.
abbrev pub PointsAreCapped : Host → Type 0
PointsAreCapped h = h.runtime.points_used ≤ max_int64

-- UseGas adds the gas to the points used and cuts the sum off at the largest int64; nothing else
-- changes.
pub use_gas_lem :
    (gas : ℕ) (h : Host)
    → gas < 2 ^ 64
    → PointsAreCapped h
    → use_gas gas h ≡ record h {
      runtime = record h.runtime {
        instance = record h.runtime.instance {
          points_used = min (h.runtime.points_used + gas) max_int64;
        };
      };
    }
unfolding use_gas
use_gas_lem gas h lt cap = ground (arith, add_uint64_lem h.runtime.points_used gas)

-- RestoreGas takes back what UseGas charged, as long as the points stay below the cap.
pub restore_gas-use_gas :
    (gas : ℕ) (h : Host)
    → gas < 2 ^ 64
    → h.runtime.points_used + gas ≤ max_int64
    → restore_gas gas (use_gas gas h) ≡ h
unfolding restore_gas
restore_gas-use_gas gas h lt cap =
    ground
      (arith, use_gas_lem gas h lt (omega arith), sub_uint64_lem (h.runtime.points_used + gas) gas)

-- A bounded charge either takes exactly its gas from the gas left and leaves some, or is refused
-- because it is at least the gas left, and then changes nothing. (The gas is a uint64, and the
-- points used and the gas for the execution are taken to be at most the cap on the points.)
pub use_gas_bounded_lem :
    (gas : ℕ) (h : Host)
    → gas < 2 ^ 64
    → h.metering.gas_for_execution ≤ max_int64
    → PointsAreCapped h
    → let (h', err) = use_gas_bounded gas h in
      ((err ≡ none) × (gas_left h' + gas ≡ gas_left h) × (0 < gas_left h'))
      ⊎ ((err ≡ some not_enough_gas) × (gas_left h ≤ gas) × (h' ≡ h))
unfolding use_gas_bounded
use_gas_bounded_lem gas h lt fits cap = ground (arith, use_gas_lem gas h lt cap)

-- The initial cost is the base cost and the cost of the code, cut off at the largest uint64. It is
-- deducted if the gas provided covers it, and then cost and gas for execution add up to the gas
-- provided; otherwise nothing changes.
pub deduct_initial_gas_lem :
    (code : Bytes) (base per_byte : ℕ) (h : Host)
    → base < 2 ^ 64
    → per_byte < 2 ^ 64
    → length code < 2 ^ 64
    → let (h', err) = deduct_initial_gas code base per_byte h in
      let cost = min (base + min (length code * per_byte) max_uint64) max_uint64 in
      ((err ≡ none)
        × (h'.metering.initial_cost ≡ cost)
        × (h'.metering.initial_cost + h'.metering.gas_for_execution
            ≡ h.runtime.vm_input.gas_provided)
        × (h'.runtime ≡ h.runtime))
      ⊎ ((err ≡ some not_enough_gas) × (h.runtime.vm_input.gas_provided < cost) × (h' ≡ h))
unfolding deduct_initial_gas
deduct_initial_gas_lem code base per_byte h lb lp lc = ground (
  arith,
  mul_uint64_lem (length code) per_byte,
  add_uint64_lem base (min (length code * per_byte) max_uint64),
)
