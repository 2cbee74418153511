-- ===== src/VmHooks.antt =====
-- The functions that the VM exports to the contracts: vmhost/vmhooks.
pub mod BaseOps
pub mod StoredBytes
pub mod LockValues
pub mod CallData
pub mod SmallIntOps
pub mod StoredNumbers
pub mod BigIntOps
pub mod Arithmetic
pub mod Faults
pub mod Shifts
pub mod BigIntBytes
