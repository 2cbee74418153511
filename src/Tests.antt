-- ===== src/Tests.antt =====
-- Runs of the modelled code on small inputs.
mod Fixtures
mod Context
mod Nested
mod Instances
mod Charging
mod Numbers
mod Store
mod Big
mod Async
mod Pending
