-- ===== src/Examples.antt =====
-- Runs of the models on small inputs.
mod Paths
mod Ring
mod Identity
mod Owners
mod Access
mod Stops
mod Programs
mod Writes
mod Registry
mod Consoles
mod Walks
mod Transfers
