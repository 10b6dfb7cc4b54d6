-- ===== src/Tests/Memory.antt =====
-- Breakpoints on code.
use my_dbg.Base.{false, ℕ, Option, true, ◌+◌, ◌≡◌, refl, some, ◌∷◌, [], high_bytes}
use my_dbg.Debugger.{Dbg, ok}
use my_dbg.Breakpoints.{
  temp_flag, place_breakpoint, toggle_breakpoint, get_breakpoint, get_loop, is_at,
}
use my_dbg.Breakpoints.Memory.{Holds, new_bp, toggle-place}
use my_dbg.Breakpoints.Lookup.{Finds, get_breakpoint-Finds}
use my_dbg.Tests.Toy.{Toy, toy, toy_ptrace, toy-HasMemory, start, code_word, plain_flags}

readable : Holds toy start 0x1000 code_word
unfolding toy_ptrace
readable = refl

-- A temporary breakpoint: the second toggle does nothing.
toggle-place_example :
    (placed removed again : Dbg Toy) × (place_breakpoint ⦃k = toy⦄ 0x1000 temp_flag start
      ≡ ok 1 placed)
    × (toggle_breakpoint ⦃k = toy⦄ 0 placed ≡ ok tt removed)
    × (toggle_breakpoint ⦃k = toy⦄ 0 removed ≡ ok tt again)
    × Holds toy placed 0x1000 (high_bytes code_word + 0xcc)
    × Holds toy removed 0x1000 code_word
    × (removed.breakpoints ≡ record (new_bp 1 temp_flag 0x1000 code_word) { enabled = false } ∷ [])
    × (again ≡ removed)
toggle-place_example =
    toggle-place ⦃k = toy⦄ toy-HasMemory start 0x1000 code_word temp_flag refl readable

-- A deleted breakpoint at the address, then one that is set
abbrev two_breakpoints : Dbg Toy
two_breakpoints = record start {
  breakpoints =
      record (new_bp 1 plain_flags 0x1000 code_word) { deleted = true }
      ∷ new_bp 2 plain_flags 0x1000 code_word
      ∷ [];
}

get_breakpoint-Finds_example :
    (r : Option ℕ) × (get_breakpoint 0x1000 two_breakpoints ≡ ok r two_breakpoints)
    × Finds 0x1000 two_breakpoints.breakpoints r
get_breakpoint-Finds_example = get_breakpoint-Finds 0x1000 two_breakpoints

get_breakpoint_run : get_breakpoint 0x1000 two_breakpoints ≡ ok (some 1) two_breakpoints
unfolding get_breakpoint get_loop is_at
get_breakpoint_run = refl
