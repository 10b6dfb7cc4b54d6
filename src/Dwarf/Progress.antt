-- ===== src/Dwarf/Progress.antt =====
-- `run_machine` of src/infos/dwarf_state_machine.c: every instruction takes bytes.
use Prim.Native.Nat.{bit_or}
use mathlib.Core.Path.{subst}
use my_dbg.Base.{
  ℕ, zero, suc, ◌+◌, ◌-◌, ◌*◌, ◌/◌, ◌%◌, ◌^◌, ◌≤◌, ◌<◌, ◌≢◌, Bool, true, false, List, [], ◌∷◌,
  length, ◌==◌, ltb, ◌&&◌, if◌then◌else◌, arith,
}
use my_dbg.Dwarf.Result.{Dw, ok, invalid, fault, stuck, ◌>>=◌, next_byte, read_le}
use my_dbg.Dwarf.Leb128.{leb_loop, read_leb128}
use my_dbg.Dwarf.Machine.{
  Sm, Lhdr, Run, max_ops, operand, advance_addr_and_op_index, extended_instruction,
  standard_instruction, special_instruction, instruction, run_loop, program_size, run_machine,
}

-- Not `stuck`, and `Q` of what the function returns
abbrev Ends : {A : Type 0} → (A → Type 0) → Dw A → Type 0
Ends Q (ok a) = Q a
Ends Q invalid = Unit
Ends Q fault = Unit
Ends Q stuck = ⊥

bind :
    {A B : Type 0} (Q : A → Type 0) (R : B → Type 0) (x : Dw A) (f : A → Dw B)
    → Ends Q x
    → ((a : A) → Q a → Ends R (f a))
    → Ends R (x >>= f)
bind Q R (ok a) f h next = next a h
bind Q R invalid f h next = tt
bind Q R fault f h next = tt
bind Q R stuck f h next = h

branch :
    {A : Type 0} (Q : A → Type 0) (b : Bool) (x y : Dw A)
    → Ends Q x
    → Ends Q y
    → Ends Q (if b then x else y)
branch Q true x y hx hy = hx
branch Q false x y hx hy = hy

Ends-≢stuck : {A : Type 0} (Q : A → Type 0) (x : Dw A) → Ends Q x → x ≢ stuck
Ends-≢stuck Q x h e = subst (Ends Q) e h

mono : {A : Type 0} (Q R : A → Type 0) (x : Dw A) → Ends Q x → ((a : A) → Q a → R a) → Ends R x
mono Q R (ok a) h le = le a h
mono Q R invalid h le = tt
mono Q R fault h le = tt
mono Q R stuck h le = h

-- A read that leaves fewer than `n` bytes
abbrev Leaves : ℕ → ℕ × List ℕ → Type 0
Leaves n r = length r.1 < n

abbrev Left : ℕ → Run → Type 0
Left n (sm, states, ptr) = length ptr < n

leb_loop-Ends :
    (result shift : ℕ) (bs : List ℕ) → Ends (Leaves (length bs)) (leb_loop result shift bs)
unfolding leb_loop
leb_loop-Ends result shift [] = tt
leb_loop-Ends result shift (byte ∷ bs) =
    let rest = leb_loop-Ends (bit_or result (byte * 2 ^ shift)) (shift + 7) bs in
    branch (Leaves (suc (length bs))) (ltb shift 32 && ltb (byte * 2 ^ shift) (2 ^ 31)) _ _
      (branch (Leaves (suc (length bs))) (byte / 128 == 0) _ _ (omega arith)
        (mono (Leaves (length bs)) (Leaves (suc (length bs))) _ rest (λ a h. omega (arith, h))))
      tt

read_leb128-Ends : (bs : List ℕ) → Ends (Leaves (length bs)) (read_leb128 bs)
unfolding read_leb128
read_leb128-Ends bs = leb_loop-Ends 0 0 bs

read_le-Ends : (n : ℕ) (bs : List ℕ) → Ends (Leaves (suc (length bs))) (read_le n bs)
unfolding read_le
read_le-Ends zero bs = omega arith
read_le-Ends (suc n) [] = tt
read_le-Ends (suc n) (b ∷ bs) =
    bind (Leaves (suc (length bs))) (Leaves (suc (suc (length bs)))) (read_le n bs) _
      (read_le-Ends n bs) λ a h. omega (arith, h)

advance-Ends :
    (hdr : Lhdr) (sm : Sm) (n : ℕ) → Ends (λ _. Unit) (advance_addr_and_op_index hdr sm n)
unfolding advance_addr_and_op_index
advance-Ends hdr sm n = branch (λ _. Unit) (max_ops hdr == 0) _ _ tt tt

module _ (n : ℕ) (ptr : List ℕ) (le : length ptr ≤ n) where
  operand-Ends : (use_it : ℕ → Sm) (states : List Sm) → Ends (Left n) (operand ptr use_it states)
  operand-Ends use_it states =
      bind (Leaves (length ptr)) (Left n) (read_leb128 ptr) _ (read_leb128-Ends ptr)
        λ a h. omega (arith, h, le)

  jump-Ends :
      (hdr : Lhdr) (sm : Sm) (by : ℕ) (states : List Sm)
      → length ptr < n
      → Ends (Left n) (advance_addr_and_op_index hdr sm by >>= λ sm'. ok (sm', states, ptr))
  jump-Ends hdr sm by states lt =
      bind (λ _. Unit) (Left n) (advance_addr_and_op_index hdr sm by) _ (advance-Ends hdr sm by)
        λ a h. lt

next_byte-Ends : (bs : List ℕ) → Ends (Leaves (length bs)) (next_byte bs)
unfolding next_byte
next_byte-Ends [] = tt
next_byte-Ends (b ∷ bs) = omega arith

extended-Ends :
    (hdr : Lhdr) (sm : Sm) (states : List Sm) (ptr : List ℕ)
    → Ends (Left (length ptr)) (extended_instruction hdr sm states ptr)
unfolding extended_instruction
extended-Ends hdr sm states ptr =
    let Q = Left (length ptr) in
    bind (Leaves (length ptr)) Q (next_byte ptr) _ (next_byte-Ends ptr) λ (_, p₁) h₁.
      bind (Leaves (length p₁)) Q (read_leb128 p₁) _ (read_leb128-Ends p₁) λ (_, p₂) h₂.
        bind (Leaves (length p₂)) Q (next_byte p₂) _ (next_byte-Ends p₂) λ (opcode, p₃) h₃.
          branch Q (opcode == 0x01) _ _ (omega (arith, h₁, h₂, h₃)) (
            branch Q (opcode == 0x02) _ _
              (bind (Leaves (suc (length p₃))) Q (read_le 8 p₃) _ (read_le-Ends 8 p₃)
                λ a h. omega (arith, h₁, h₂, h₃, h))
              (branch Q (opcode == 0x04) _ _
                (operand-Ends (length ptr) p₃ (omega (arith, h₁, h₂, h₃))
                  (λ v. record sm { discriminator = v }) states)
                tt))

standard-Ends :
    (hdr : Lhdr) (sm : Sm) (states : List Sm) (ptr : List ℕ)
    → Ends (Left (length ptr)) (standard_instruction hdr sm states ptr)
unfolding standard_instruction
standard-Ends hdr sm states ptr =
    let Q = Left (length ptr) in
    bind (Leaves (length ptr)) Q (next_byte ptr) _ (next_byte-Ends ptr) λ (opcode, p) h.
      let takes = operand-Ends (length ptr) p (omega (arith, h)) in
      branch Q (opcode == 0x01) _ _ h (
        branch Q (opcode == 0x02) _ _
          (bind (Leaves (length p)) Q (read_leb128 p) _ (read_leb128-Ends p) λ (by, p') h'.
            jump-Ends (length ptr) p' (omega (arith, h, h')) hdr sm by states
              (omega (arith, h, h')))
          (branch Q (opcode == 0x03) _ _
            (takes (λ v. record sm { line = (sm.line + v) % 2 ^ 32 }) states)
            (branch Q (opcode == 0x04) _ _ (takes (λ v. record sm { file = v }) states) (
              branch Q (opcode == 0x05) _ _ (takes (λ v. record sm { column = v }) states) (
                branch Q (opcode == 0x06) _ _ h (
                  branch Q (opcode == 0x07) _ _ h (
                    branch Q (opcode == 0x08) _ _
                      (branch Q (hdr.line_range == 0) _ _ tt
                        (jump-Ends (length ptr) p (omega (arith, h)) hdr sm _ states h))
                      (branch Q (opcode == 0x09) _ _
                        (bind (Leaves (suc (length p))) Q (read_le 2 p) _ (read_le-Ends 2 p)
                          λ a h'. omega (arith, h, h'))
                        (branch Q (opcode == 0x0a) _ _ h (
                          branch Q (opcode == 0x0b) _ _ h (
                            branch Q (opcode == 0x0c) _ _
                              (takes (λ v. record sm { isa = v }) states) tt)))))))))))

special-Ends :
    (hdr : Lhdr) (sm : Sm) (states : List Sm) (opcode : ℕ)
    → Ends (λ _. Unit) (special_instruction hdr sm states opcode)
unfolding special_instruction
special-Ends hdr sm states opcode =
    branch (λ _. Unit) (hdr.line_range == 0) _ _ tt
      (bind (λ _. Unit) (λ _. Unit) _ _ (advance-Ends hdr _ _) λ a h. tt)

instruction-Ends :
    (hdr : Lhdr) (sm : Sm) (states : List Sm) (ptr : List ℕ)
    → Ends (Left (length ptr)) (instruction hdr sm states ptr)
unfolding instruction
instruction-Ends hdr sm states [] = tt
instruction-Ends hdr sm states (opcode ∷ ptr) =
    let Q = Left (suc (length ptr)) in
    branch Q (opcode == 0) _ _ (extended-Ends hdr sm states (opcode ∷ ptr)) (
      branch Q (ltb opcode hdr.opcode_base) _ _ (standard-Ends hdr sm states (opcode ∷ ptr))
        (bind (λ _. Unit) Q _ _ (special-Ends hdr sm states opcode) λ a h. omega arith))

run_loop-Ends :
    (fuel : ℕ) (hdr : Lhdr) (left : ℕ) (run : Run)
    → left ≤ fuel
    → Ends (λ _. Unit) (run_loop fuel hdr left run)
unfolding run_loop
run_loop-Ends fuel hdr zero (sm, states, ptr) le = tt
run_loop-Ends zero hdr (suc left) (sm, states, ptr) le = absurd (omega (arith, le))
run_loop-Ends (suc fuel) hdr (suc left) (sm, states, ptr) le =
    bind (Left (length ptr)) (λ _. Unit) (instruction hdr sm states ptr) _
      (instruction-Ends hdr sm states ptr)
      λ (sm', states', ptr') h.
        run_loop-Ends fuel hdr (suc left - (length ptr - length ptr')) (sm', states', ptr')
          (omega (arith, le, h))

-- `run_machine` ends on every header, machine and unit: the rounds that the model gives its loop,
-- one for each byte of the program, are enough, since every instruction that returns has taken a
-- byte.
pub run_machine-≢stuck : (hdr : Lhdr) (sm : Sm) (unit : List ℕ) → run_machine hdr sm unit ≢ stuck
unfolding run_machine
run_machine-≢stuck hdr sm unit =
    Ends-≢stuck (λ _. Unit) _
      (run_loop-Ends (program_size hdr) hdr (program_size hdr) _ (omega arith))
