-- ===== src/Dwarf/Tables.antt =====
-- The header of a line table, its directories and its files: `dwarf_lines_config`, `store_files`,
-- `init_machine` and `dwarf_lines` of src/infos/my_dwarf.c.
pub mod Files
use my_dbg.Base.{
  ℕ, zero, suc, ◌+◌, ◌-◌, Bool, true, false, List, [], ◌∷◌, ◌++◌, Text, ◌==◌, ltb, length, drop,
  if◌then◌else◌,
}
use my_dbg.Dwarf.Result.{Dw, ok, fault, stuck, ◌>>=◌, next_byte, read_le}
use my_dbg.Dwarf.Leb128.{read_leb128}
use my_dbg.Dwarf.Machine.{Lhdr, Sm, reset_machine, run_machine}

-- `struct my_dw_file`
pub record MyDwFile : Type 0 where
  pub path : Text
  pub index : ℕ
  pub last_modification : ℕ
  pub file_size : ℕ

-- `struct my_dw_lconf`
pub record MyDwLconf : Type 0 where
  pub lhdr : Lhdr
  pub include_directories : List Text
  pub files : List MyDwFile

-- `struct my_dw_lines`
pub record MyDwLines : Type 0 where
  pub lconf : MyDwLconf
  pub states : List Sm

-- A string, and what follows its terminator
unfoldable pub take_string : List ℕ → Dw (Text × List ℕ)
take_string [] = fault
take_string (c ∷ bs) =
    let rest = take_string bs in
    if c == 0 then ok ([], bs) else (rest >>= λ (s, more). ok (c ∷ s, more))

-- The loop of `store_files`. A round takes a byte at least, so that their number is fuel enough.
unfoldable pub files_loop : (fuel : ℕ) → List ℕ → Dw (List MyDwFile)
unfolding take_string read_leb128
files_loop zero bs = stuck
files_loop (suc fuel) [] = fault
files_loop (suc fuel) (c ∷ bs) =
    if c == 0
    then ok []
    else (take_string (c ∷ bs) >>= λ (path, t1). read_leb128 t1 >>= λ (index, t2).
        read_leb128 t2 >>= λ (last_modification, t3). read_leb128 t3 >>= λ (file_size, t4).
        files_loop fuel t4 >>= λ files. ok (
          record {
            path = path;
            index = index;
            last_modification = last_modification;
            file_size = file_size;
          }
          ∷ files))

unfoldable pub store_files : List ℕ → Dw (List MyDwFile)
unfolding files_loop
store_files bs = files_loop (length bs + 1) bs

-- The loop over the directories, and what follows their end
unfoldable pub directories_loop : (fuel : ℕ) → List ℕ → Dw (List Text × List ℕ)
unfolding take_string
directories_loop zero bs = stuck
directories_loop (suc fuel) [] = fault
directories_loop (suc fuel) (c ∷ bs) =
    if c == 0
    then ok ([], bs)
    else (take_string (c ∷ bs) >>= λ (dir, t).
        directories_loop fuel t >>= λ (dirs, rest). ok (dir ∷ dirs, rest))

-- The byte of `maximum_operations_per_instruction`, which is there from version 4 on
unfoldable pub read_max_ops : (version : ℕ) → List ℕ → Dw (ℕ × List ℕ)
unfolding next_byte
read_max_ops version bs = if ltb version 4 then ok (1, bs) else next_byte bs

-- The header, and the bytes from its last field, `opcode_base`, on
unfoldable pub read_header : List ℕ → Dw (Lhdr × List ℕ)
unfolding read_le next_byte read_max_ops
read_header bs = read_le 4 bs >>= λ (unit_length, t1). read_le 2 t1 >>= λ (version, t2).
    read_le 4 t2 >>= λ (header_length, t3). next_byte t3 >>= λ (minimum_instruction_length, t4).
    read_max_ops version t4 >>= λ (maximum_operations, t5).
    next_byte t5 >>= λ (default_is_stmt, t6). next_byte t6 >>= λ (line_base, t7).
    next_byte t7 >>= λ (line_range, t8). next_byte t8 >>= λ (opcode_base, t9). ok (
      record {
        unit_length = unit_length;
        version = version;
        header_length = header_length;
        minimum_instruction_length = minimum_instruction_length;
        maximum_operations = maximum_operations;
        default_is_stmt = default_is_stmt;
        line_base = line_base;
        line_range = line_range;
        opcode_base = opcode_base;
      },
      t8,
    )

-- `standard_opcode_lengths + opcode_base - 1` is `opcode_base` bytes behind the field of that name.
unfoldable pub dwarf_lines_config : List ℕ → Dw MyDwLconf
unfolding read_header directories_loop store_files
dwarf_lines_config unit = read_header unit >>= λ (hdr, t).
    directories_loop (length unit + 1) (drop hdr.opcode_base t) >>= λ (dirs, rest).
    store_files rest >>= λ files.
    ok (record { lhdr = hdr; include_directories = dirs; files = files })

unfoldable pub dwarf_lines : List ℕ → Dw MyDwLines
unfolding dwarf_lines_config reset_machine run_machine
dwarf_lines unit = dwarf_lines_config unit >>= λ lconf.
    run_machine lconf.lhdr (reset_machine lconf.lhdr) unit >>= λ states.
    ok (record { lconf = lconf; states = states })
