-- ===== src/Tests/Lines.antt =====
-- The line tables.
use my_dbg.Base.{some, ℕ, ◌≡◌, ◌≢◌, refl, true, List, [], ◌∷◌, arith}
use my_dbg.Dwarf.Result.{ok, stuck, next_byte}
use my_dbg.Dwarf.Leb128.{read_leb128, leb_loop, read_leb128-encode}
use my_dbg.Dwarf.Machine.{
  Sm, Lhdr, max_ops, widen, reset_machine, run_machine, run_loop, instruction, program_size,
  extended_instruction, special_instruction, clone_state, advance_addr_and_op_index,
}
use my_dbg.Dwarf.Progress.{run_machine-≢stuck}
use my_dbg.Dwarf.Special.{special_row, clear_row, special_instruction-encode}
use my_dbg.Dwarf.Nearest.{get_line_address_internal, get_nearest_state, state_addr}
use my_dbg.Base.{codes, ◌++◌}
use my_dbg.Dwarf.Tables.{store_files}
use my_dbg.Dwarf.Tables.Files.{FileBytes, encode_files, all_read, store_files-encode_files}
use my_dbg.Dwarf.Lines.{get_nearest_state-get_line_address_internal}
use my_dbg.Dwarf.Closest.{Closest, get_nearest_state-Closest}

-- 256 is read as 384.
read_leb128-encode_example : read_leb128 (0x80 ∷ 0x02 ∷ 7 ∷ []) ≡ ok (384, 7 ∷ [])
read_leb128-encode_example = read_leb128-encode 256 (7 ∷ []) (omega arith)

-- A header of version 2, and a program of one special opcode, which adds 1 to the address and 1 to
-- the line, and the end of the sequence
abbrev hdr : Lhdr
hdr = record {
  unit_length = 15;
  version = 2;
  header_length = 5;
  minimum_instruction_length = 1;
  maximum_operations = 1;
  default_is_stmt = 1;
  line_base = 251;
  line_range = 14;
  opcode_base = 13;
}

abbrev unit : List ℕ
unit = 0 ∷ 0 ∷ 0 ∷ 0 ∷ 0 ∷ 0 ∷ 0 ∷ 0 ∷ 0 ∷ 0 ∷ 0 ∷ 0 ∷ 0 ∷ 0 ∷ 0 ∷ 33 ∷ 0 ∷ 1 ∷ 1 ∷ []

abbrev sm : Sm
sm = reset_machine hdr

run_machine-≢stuck_example : run_machine hdr sm unit ≢ stuck
run_machine-≢stuck_example = run_machine-≢stuck hdr sm unit

abbrev row : Sm
row = record sm { line = 2; address = 1 }

run_machine_run : run_machine hdr sm unit ≡ ok (row ∷ record row { end_sequence = true } ∷ [])
unfolding reset_machine run_machine run_loop instruction program_size extended_instruction
    special_instruction clone_state advance_addr_and_op_index max_ops widen next_byte read_leb128
    leb_loop
run_machine_run = refl

-- Three operations in an instruction, of which two are done
abbrev bundles : Lhdr
bundles = record hdr { version = 4; maximum_operations = 3 }

abbrev within : Sm
within = record sm { op_index = 2 }

special_instruction-encode_example :
    special_instruction bundles within [] 33
    ≡ ok (clear_row (special_row bundles within 6 1), special_row bundles within 6 1 ∷ [])
unfolding reset_machine max_ops
special_instruction-encode_example =
    special_instruction-encode bundles within [] 6 1 (omega arith) (omega arith) (omega arith)
      (omega arith)

get_nearest_state-Closest_example :
    Closest 0 2 (omega arith) (row ∷ []) (get_nearest_state (row ∷ []) 2 0)
unfolding reset_machine state_addr
get_nearest_state-Closest_example =
    get_nearest_state-Closest 0 2 (omega arith) (row ∷ []) (omega arith, tt)

get_nearest_state-get_line_address_internal_example :
    (x : Sm) × (get_nearest_state (row ∷ []) 1 0 ≡ some x) × (state_addr 0 x ≡ 1) × (x.line ≡ 2)
unfolding reset_machine state_addr get_line_address_internal
get_nearest_state-get_line_address_internal_example =
    get_nearest_state-get_line_address_internal 0 1 2 (omega arith) (row ∷ []) (omega arith, tt)
      ((λ e. refl), tt) refl

-- A table of one file, "a.c" in the first directory, with a time of modification of five bytes
abbrev one_file : List FileBytes
one_file =
    record {
      path = codes "a.c";
      index = 1 ∷ [];
      time = 0x80 ∷ 0xe2 ∷ 0xcf ∷ 0xaa ∷ 6 ∷ [];
      size = 0 ∷ [];
    }
    ∷ []

store_files-encode_files_example :
    store_files (encode_files one_file ++ 7 ∷ []) ≡ ok (all_read one_file)
store_files-encode_files_example = store_files-encode_files one_file (7 ∷ []) (
  record {
    not_empty = omega arith;
    no_null = (refl, (refl, (refl, tt)));
    index = (omega arith, refl);
    time = (
      omega arith,
      omega arith,
      refl,
      (
        omega arith,
        omega arith,
        refl,
        (omega arith, omega arith, refl, (omega arith, omega arith, refl, (omega arith, refl))),
      ),
    );
    size = (omega arith, refl);
  },
  tt,
)
