-- ===== src/Dwarf/Special.antt =====
-- `special_instruction` of src/infos/dwarf_state_machine.c against the encoding of DWARF 4,
-- section 6.2.5.1.
use my_dbg.Base.{
  ℕ, ◌+◌, ◌-◌, ◌*◌, ◌/◌, ◌%◌, ◌^◌, ◌<◌, ◌≡◌, refl, false, List, [], ◌∷◌, ◌++◌, ◌==◌, arith,
}
use my_dbg.Dwarf.Result.{ok}
use my_dbg.Dwarf.Machine.{
  Sm, Lhdr, max_ops, widen, clone_state, advance_addr_and_op_index, special_instruction,
}

digits-mod : (r d a : ℕ) → d < r → (d + r * a) % r ≡ d
digits-mod r d a h = grind arith

digits-div : (r d a : ℕ) → d < r → (d + r * a) / r ≡ a
digits-div r d a h = grind arith

-- The row that a special opcode for an advance of the line by `line_base + d` and of the address by
-- `adv` instructions appends
abbrev pub special_row : Lhdr → Sm → (d adv : ℕ) → Sm
special_row hdr sm d adv = record sm {
  line = (sm.line + widen hdr.line_base + d) % 2 ^ 32;
  address =
      (sm.address + hdr.minimum_instruction_length * ((sm.op_index + adv) / max_ops hdr)) % 2 ^ 64;
  op_index = (sm.op_index + adv) % max_ops hdr;
}

abbrev pub clear_row : Sm → Sm
clear_row sm = record sm {
  basic_block = false;
  prologue_end = false;
  epilogue_begin = false;
  discriminator = 0;
}

mod-add : (x m : ℕ) → (x + m % 2 ^ 64) % 2 ^ 64 ≡ (x + m) % 2 ^ 64
mod-add x m = omega arith

advance_lem :
    (hdr : Lhdr) (sm : Sm) (adv : ℕ)
    → 0 < max_ops hdr
    → sm.op_index < 2 ^ 32
    → adv < 256
    → advance_addr_and_op_index hdr sm adv
      ≡ ok (record sm {
        address =
            (sm.address + hdr.minimum_instruction_length * ((sm.op_index + adv) / max_ops hdr))
            % 2 ^ 64;
        op_index = (sm.op_index + adv) % max_ops hdr;
      })
unfolding advance_addr_and_op_index
advance_lem hdr sm adv some_ops index small =
    let n : (sm.op_index + adv) % 2 ^ 64 ≡ sm.op_index + adv = omega (arith, index, small) in
    let nonzero : (max_ops hdr == 0) ≡ false = ground arith in
    rw (
      n,
      nonzero,
      mod-add sm.address (hdr.minimum_instruction_length * ((sm.op_index + adv) / max_ops hdr)),
    )

-- With an instruction of at least one operation and an operation index below 2 ^ 32, the special
-- opcode that section 6.2.5.1 gives to an advance of the line by `line_base + d`, for a `d` below `line_range`, and of the operation by `adv`
-- does that, if it fits in a byte: it appends the row with the new line and with the address and the
-- operation index moved on by the operations, and clears the flags and the discriminator of the
-- machine after it.
pub special_instruction-encode :
    (hdr : Lhdr) (sm : Sm) (states : List Sm) (d adv : ℕ)
    → 0 < max_ops hdr
    → sm.op_index < 2 ^ 32
    → d < hdr.line_range
    → d + hdr.line_range * adv + hdr.opcode_base < 256
    → special_instruction hdr sm states (d + hdr.line_range * adv + hdr.opcode_base)
      ≡ ok (clear_row (special_row hdr sm d adv), states ++ special_row hdr sm d adv ∷ [])
unfolding special_instruction clone_state
special_instruction-encode hdr sm states d adv some_ops index lt byte =
    let adj : (d + hdr.line_range * adv + hdr.opcode_base + 256 - hdr.opcode_base) % 256
        ≡ d + hdr.line_range * adv =
      grind arith in
    let nonzero : (hdr.line_range == 0) ≡ false = ground arith in
    let small : adv < 256 = grind arith in
    rw (adj, nonzero, digits-mod hdr.line_range d adv lt, digits-div hdr.line_range d adv lt)
      (rw
        (advance_lem hdr (record sm { line = (sm.line + widen hdr.line_base + d) % 2 ^ 32 }) adv
          some_ops index small)
        refl)
