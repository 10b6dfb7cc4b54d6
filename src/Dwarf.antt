-- ===== src/Dwarf.antt =====
-- The line tables of DWARF: src/infos/my_dwarf.c and src/infos/dwarf_state_machine.c. The mapped
-- file is the list of its bytes, and a `uint8_t *` is the list of the bytes from there on.
-- Allocations succeed.
pub mod Result
pub mod Leb128
pub mod Machine
pub mod Progress
pub mod Special
pub mod Tables
pub mod Sources
pub mod Nearest
pub mod Closest
pub mod Lines
