-- ===== src/Metering.antt =====
-- The metering context of vmhost/contexts/metering.go: its state and stack, the gas points of the
-- running contract, and the final accounting of gas per account; then what is proved of them.
pub mod State
pub mod Points
pub mod Account
pub mod Gas
pub mod Stack
pub mod Sums
pub mod Conservation
