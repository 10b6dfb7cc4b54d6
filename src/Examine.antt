-- ===== src/Examine.antt =====
-- src/commands/cmd_examine.c and `in_array` of src/utils/array_utils.c. A `char` is its byte; the
-- bytes from 128 on are negative there, so that they are neither special nor printable.
pub mod Dumps
pub mod Bounds
use my_dbg.Base.{
  ℕ, zero, suc, ◌+◌, ◌*◌, ◌/◌, ◌%◌, ◌^◌, Bool, true, false, not, ◌&&◌, ◌||◌, List, [], ◌∷◌, ◌++◌,
  Option, none, some, Text, codes, ltb, leb, ◌==◌, if◌then◌else◌, length, get_elem?, take,
}
use my_dbg.Debugger.{MyException, Kernel, Dbg, Line, M, fault, pure, print, ◌>>=◌, ◌>>◌}
use my_dbg.Printing.{print_hhx, print_11d}
use my_dbg.Format.{read_address, read_size}
use my_dbg.Memory.{Memory, read_memory}
use my_dbg.Capstone.{Capstone, CsInsn}

unfoldable pub in_array : (value : ℕ) → (values : List ℕ) → Bool
in_array value [] = false
in_array value (v ∷ values) = value == v || in_array value values

-- The rest of the output behind a piece of it, where the reads so far were in bounds
abbrev pub behind : Text → Option Text → Option Text
behind piece none = none
behind piece (some rest) = some (piece ++ rest)

-- The separators of the hexadecimal dump in front of byte `i`
unfoldable pub separator : (i : ℕ) → Text
separator i =
    (if not (i == 0) && i % 16 == 0 then 10 ∷ [] else [])
    ++ (if not (i == 0) && i % 2 == 0 && not (i % 16 == 0) then b' ' ∷ [] else [])

-- `none` is a read behind the end of the buffer; `left` counts the bytes to come.
unfoldable pub hexa_loop : (left i : ℕ) → List ℕ → Option Text
unfolding separator
hexa_loop zero i mem = some (10 ∷ [])
hexa_loop (suc left) i mem = elim (get_elem? mem i) [
  | none ↦ none
  | some b ↦ behind (separator i ++ print_hhx b) (hexa_loop left (i + 1) mem)
]

unfoldable pub examine_hexa : List ℕ → (size : ℕ) → Option Text
unfolding hexa_loop
examine_hexa mem size = hexa_loop size 0 mem

-- The `int` of four bytes, the lowest one first
abbrev pub join : (a b c d : Option ℕ) → Option ℕ
join (some a) (some b) (some c) (some d) = some (a + 2 ^ 8 * b + 2 ^ 16 * c + 2 ^ 24 * d)
join _ _ _ _ = none

-- `mem_int[i]`
unfoldable pub int_at : List ℕ → ℕ → Option ℕ
int_at mem i =
    join (get_elem? mem (4 * i)) (get_elem? mem (4 * i + 1)) (get_elem? mem (4 * i + 2))
      (get_elem? mem (4 * i + 3))

unfoldable pub decimal_loop : (left i : ℕ) → List ℕ → Option Text
unfolding int_at
decimal_loop zero i mem = some (10 ∷ [])
decimal_loop (suc left) i mem = elim (int_at mem i) [
  | none ↦ none
  | some w ↦
      behind ((if not (i == 0) && i % 2 == 0 then 10 ∷ [] else []) ++ print_11d w)
        (decimal_loop left (i + 1) mem)
]

unfoldable pub examine_decimal : List ℕ → (size : ℕ) → Option Text
unfolding decimal_loop
examine_decimal mem size = decimal_loop (size / 4 + (if size % 4 == 0 then 0 else 1)) 0 mem

abbrev pub special_chars : List ℕ
special_chars = 7 ∷ 8 ∷ 12 ∷ 10 ∷ 13 ∷ 12 ∷ 9 ∷ 11 ∷ b'\\' ∷ b'\'' ∷ b'"' ∷ b'?' ∷ []

unfoldable pub is_special_char : ℕ → Bool
unfolding in_array
is_special_char c = in_array c special_chars

unfoldable pub get_special_char : ℕ → ℕ
get_special_char c =
    if c == 7
    then b'a'
    else if c == 8
    then b'b'
    else if c == 12
    then b'f'
    else if c == 10
    then b'n'
    else if c == 13
    then b'r'
    else if c == 9
    then b't'
    else if c == 11
    then b'v'
    else c

-- `isprint`
abbrev pub is_print : ℕ → Bool
is_print c = leb 32 c && leb c 126

unfoldable pub print_char : ℕ → Text
unfolding is_special_char get_special_char
print_char c =
    if is_special_char c
    then b'\\' ∷ get_special_char c ∷ []
    else if not (is_print c)
    then b'\\' ∷ b'x' ∷ print_hhx c
    else c ∷ []

unfoldable pub string_loop : (left i : ℕ) → List ℕ → Option Text
unfolding print_char
string_loop zero i mem = some (b'"' ∷ 10 ∷ [])
string_loop (suc left) i mem = elim (get_elem? mem i) [
  | none ↦ none
  | some c ↦ behind (print_char c) (string_loop left (i + 1) mem)
]

unfoldable pub examine_string : List ℕ → (size : ℕ) → Option Text
unfolding string_loop
examine_string mem size = behind (b'"' ∷ []) (string_loop size 0 mem)

module _ {P : Type 0} where
  -- The output of a dump, which has undefined behaviour where it reads behind the buffer
  unfoldable pub write : Option Text → M P (Unit {0})
  write none = λ s. fault
  write (some t) = print (Line.written t)

  unfoldable pub print_insns : (addr : ℕ) → List CsInsn → M P (Unit {0})
  print_insns addr [] = pure tt
  print_insns addr (insn ∷ insns) = do
    print (Line.instruction ((addr + insn.address) % 2 ^ 64) insn.mnemonic insn.op_str)
    print_insns addr insns

  unfoldable pub print_disassembled : (addr : ℕ) → List CsInsn → M P (Unit {0})
  unfolding print_insns
  print_disassembled addr [] = print (Line.text "Dissasemble failed")
  print_disassembled addr (insn ∷ insns) = print_insns addr (insn ∷ insns)

  -- The disassembler is given `size` bytes of the buffer.
  unfoldable pub examine_instructions : Capstone → (addr : ℕ) → List ℕ → (size : ℕ) → M P (Unit {0})
  unfolding print_disassembled
  examine_instructions cs addr buf size =
      if not cs.opens then pure tt else print_disassembled addr (cs.disasm (take size buf) 0)

  unfoldable pub dump : Capstone → (format addr : ℕ) → List ℕ → (size : ℕ) → M P (Unit {0})
  unfolding write examine_hexa examine_decimal examine_string examine_instructions
  dump cs format addr buf size =
      if format == b'x'
      then write (examine_hexa buf size)
      else if format == b'd'
      then write (examine_decimal buf size)
      else if format == b's'
      then write (examine_string buf size)
      else if format == b'i'
      then examine_instructions cs addr buf size
      else pure tt

module _ {P : Type 0} ⦃mem : Memory P⦄ where
  unfoldable pub examine_memory : Capstone → (format addr size : ℕ) → M P (Unit {0})
  unfolding dump
  examine_memory cs format addr size = read_memory addr size >>= λ buf. dump cs format addr buf size

module _ {P : Type 0} ⦃k : Kernel P⦄ ⦃mem : Memory P⦄ where
  unfoldable pub examine_range : Capstone → (format addr size : ℕ) → M P (Unit {0})
  unfolding examine_memory
  examine_range cs format addr size =
      if size == 0
      then print (Line.text "Nothing to examine (null size)")
      else examine_memory cs format addr size

  unfoldable pub cmd_examine : Capstone → List Text → M P (Unit {0})
  unfolding examine_range in_array
  cmd_examine cs (name ∷ (format ∷ []) ∷ size ∷ addr ∷ more) =
      if in_array format (b'x' ∷ b'd' ∷ b'i' ∷ b's' ∷ [])
      then (do n ← read_size size; a ← read_address addr; examine_range cs format a n)
      else print (Line.text "Invalid format argument\nValid formats: x, d, i and s")
  cmd_examine cs (name ∷ format ∷ size ∷ addr ∷ more) =
      print (Line.text "Invalid format argument\nValid formats: x, d, i and s")
  cmd_examine cs _ = print (Line.text "Missing arguments")
