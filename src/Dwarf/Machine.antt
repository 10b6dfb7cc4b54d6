-- ===== src/Dwarf/Machine.antt =====
-- src/infos/dwarf_state_machine.c: the line number program.
use my_dbg.Base.{
  ℕ, zero, suc, ◌+◌, ◌-◌, ◌*◌, ◌/◌, ◌%◌, ◌^◌, Bool, true, false, not, List, [], ◌∷◌, ◌++◌, ◌==◌,
  ltb, length, drop, if◌then◌else◌,
}
use my_dbg.Dwarf.Result.{Dw, ok, invalid, fault, stuck, ◌>>=◌, next_byte, read_le}
use my_dbg.Dwarf.Leb128.{read_leb128}

-- `struct my_dw_sm`
pub record Sm : Type 0 where
  pub address : ℕ
  pub op_index : ℕ
  pub file : ℕ
  pub line : ℕ
  pub column : ℕ
  pub is_stmt : Bool
  pub basic_block : Bool
  pub end_sequence : Bool
  pub prologue_end : Bool
  pub epilogue_begin : Bool
  pub isa : ℕ
  pub discriminator : ℕ

-- `struct my_dw_lhdr` with the fields of `my_dw_lhdr2` or `my_dw_lhdr4`, as `VAL` reads them;
-- `line_base` is the bit pattern of an `int8_t`.
pub record Lhdr : Type 0 where
  pub unit_length : ℕ
  pub version : ℕ
  pub header_length : ℕ
  pub minimum_instruction_length : ℕ
  pub maximum_operations : ℕ
  pub default_is_stmt : ℕ
  pub line_base : ℕ
  pub line_range : ℕ
  pub opcode_base : ℕ

-- `VAL(maximum_operations_per_instruction)`
unfoldable pub max_ops : Lhdr → ℕ
max_ops hdr = if ltb hdr.version 4 then 1 else hdr.maximum_operations

-- An `int8_t` as an `unsigned`
unfoldable pub widen : ℕ → ℕ
widen b = if ltb b 128 then b else b + 2 ^ 32 - 256

-- The machine after `reset_machine`
unfoldable pub reset_machine : Lhdr → Sm
reset_machine hdr = record {
  address = 0;
  op_index = 0;
  file = 1;
  line = 1;
  column = 0;
  is_stmt = not (hdr.default_is_stmt == 0);
  basic_block = false;
  end_sequence = false;
  prologue_end = false;
  epilogue_begin = false;
  isa = 0;
  discriminator = 0;
}

-- The machine, the rows so far (`states`), and what `ptr` points to
abbrev pub Run : Type 0
Run = Sm × List Sm × List ℕ

unfoldable pub clone_state : Sm → List Sm → List Sm
clone_state sm states = states ++ sm ∷ []

unfoldable pub advance_addr_and_op_index : Lhdr → Sm → ℕ → Dw Sm
unfolding max_ops
advance_addr_and_op_index hdr sm op_adv =
    let n = (sm.op_index + op_adv) % 2 ^ 64 in
    if max_ops hdr == 0
    then fault
    else ok (record sm {
      address = (sm.address + hdr.minimum_instruction_length * (n / max_ops hdr) % 2 ^ 64) % 2 ^ 64;
      op_index = n % max_ops hdr;
    })

-- A read of an operand that becomes an `unsigned` field
abbrev pub operand : List ℕ → (ℕ → Sm) → List Sm → Dw Run
operand ptr use_it states = do (v, ptr) ← read_leb128 ptr; ok (use_it (v % 2 ^ 32), states, ptr)

unfoldable pub extended_instruction : Lhdr → Sm → List Sm → List ℕ → Dw Run
unfolding clone_state next_byte read_le reset_machine
extended_instruction hdr sm states ptr = do
  (_, ptr) ← next_byte ptr
  (_, ptr) ← read_leb128 ptr
  (opcode, ptr) ← next_byte ptr
  if opcode == 0x01
      then ok (reset_machine hdr, clone_state (record sm { end_sequence = true }) states, ptr)
      else if opcode == 0x02
      then (do
        (address, ptr) ← read_le 8 ptr
        ok (record sm { address = address; op_index = 0 }, states, ptr))
      else if opcode == 0x04
      then operand ptr (λ v. record sm { discriminator = v }) states
      else invalid

unfoldable pub standard_instruction : Lhdr → Sm → List Sm → List ℕ → Dw Run
unfolding clone_state next_byte read_le advance_addr_and_op_index
standard_instruction hdr sm states ptr = do
  (opcode, ptr) ← next_byte ptr
  if opcode == 0x01
      then ok (
        record sm {
          discriminator = 0;
          basic_block = false;
          prologue_end = false;
          epilogue_begin = false;
        },
        clone_state sm states,
        ptr,
      )
      else if opcode == 0x02
      then (do
        (op_adv, ptr) ← read_leb128 ptr
        sm' ← advance_addr_and_op_index hdr sm op_adv
        ok (sm', states, ptr))
      else if opcode == 0x03
      then operand ptr (λ v. record sm { line = (sm.line + v) % 2 ^ 32 }) states
      else if opcode == 0x04
      then operand ptr (λ v. record sm { file = v }) states
      else if opcode == 0x05
      then operand ptr (λ v. record sm { column = v }) states
      else if opcode == 0x06
      then ok (record sm { is_stmt = not sm.is_stmt }, states, ptr)
      else if opcode == 0x07
      then ok (record sm { basic_block = true }, states, ptr)
      else if opcode == 0x08
      then (if hdr.line_range == 0 then fault else (do
        sm' ← advance_addr_and_op_index hdr sm ((255 - hdr.opcode_base) / hdr.line_range)
        ok (sm', states, ptr)))
      else if opcode == 0x09
      then (do
        (adv, ptr) ← read_le 2 ptr
        ok (record sm { address = (sm.address + adv) % 2 ^ 64; op_index = 0 }, states, ptr))
      else if opcode == 0x0a
      then ok (record sm { prologue_end = true }, states, ptr)
      else if opcode == 0x0b
      then ok (record sm { epilogue_begin = true }, states, ptr)
      else if opcode == 0x0c
      then operand ptr (λ v. record sm { isa = v }) states
      else invalid

-- `opcode - VAL(opcode_base)` is not negative where the instruction is called.
unfoldable pub special_instruction : Lhdr → Sm → List Sm → (opcode : ℕ) → Dw (Sm × List Sm)
unfolding clone_state advance_addr_and_op_index widen
special_instruction hdr sm states opcode =
    let adj_opcode = (opcode + 256 - hdr.opcode_base) % 256 in
    if hdr.line_range == 0 then fault else (do
      sm' ←
          advance_addr_and_op_index hdr
            (record sm {
              line = (sm.line + widen hdr.line_base + adj_opcode % hdr.line_range) % 2 ^ 32;
            })
            (adj_opcode / hdr.line_range)
      ok (
        record sm' {
          basic_block = false;
          prologue_end = false;
          epilogue_begin = false;
          discriminator = 0;
        },
        clone_state sm' states,
      ))

-- The body of the loop of `run_machine`
unfoldable pub instruction : Lhdr → Sm → List Sm → List ℕ → Dw Run
unfolding extended_instruction standard_instruction special_instruction
instruction hdr sm states [] = fault
instruction hdr sm states (opcode ∷ ptr) =
    if opcode == 0
    then extended_instruction hdr sm states (opcode ∷ ptr)
    else if ltb opcode hdr.opcode_base
    then standard_instruction hdr sm states (opcode ∷ ptr)
    else (do (sm', states') ← special_instruction hdr sm states opcode; ok (sm', states', ptr))

-- `for (size_t i = 0; i < size;)`: `left` is `size - i`, and 0 once the loop has passed its end.
unfoldable pub run_loop : (fuel : ℕ) → Lhdr → (left : ℕ) → Run → Dw (List Sm)
unfolding instruction
run_loop fuel hdr zero (sm, states, ptr) = ok states
run_loop zero hdr (suc left) (sm, states, ptr) = stuck
run_loop (suc fuel) hdr (suc left) (sm, states, ptr) = do
  (sm', states', ptr') ← instruction hdr sm states ptr
  run_loop fuel hdr (suc left - (length ptr - length ptr')) (sm', states', ptr')

-- `ptr` starts behind the header, and `size` is computed in 32 bits.
unfoldable pub program_size : Lhdr → ℕ
program_size hdr = (hdr.unit_length + 2 ^ 33 - hdr.header_length - 6) % 2 ^ 32

unfoldable pub run_machine : Lhdr → Sm → (unit : List ℕ) → Dw (List Sm)
unfolding run_loop program_size
run_machine hdr sm unit =
    let size = program_size hdr in
    run_loop size hdr size (sm, [], drop (6 + 4 + hdr.header_length) unit)
