-- ===== src/Tests.antt =====
-- Runs of the model on a small process, and instances of the theorems.
mod Toy
mod Tracee
mod Session
mod Memory
mod Calls
mod Lines
mod Table
mod Hash
mod Dumps
mod Store
mod Files
mod Maps
