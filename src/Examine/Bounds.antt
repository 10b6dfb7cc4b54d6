-- ===== src/Examine/Bounds.antt =====
-- The dumps read inside the buffer that `read_memory` returns.
use my_dbg.Base.{
  take, ℕ, zero, suc, ◌+◌, ◌-◌, ◌*◌, ◌/◌, ◌%◌, ◌^◌, ◌≤◌, ◌<◌, ◌≡◌, ◌≢◌, refl, List, [], ◌∷◌, ◌++◌,
  Option, none, some, Text, arith, ◌==◌, if◌then◌else◌, length, length-append, get_elem?,
  Bool-cases, inl, inr,
}
use my_dbg.Debugger.{Dbg, fault}
use my_dbg.Debugger.Exceptions.{throw}
use my_dbg.Memory.{Memory, zeros, buffer_size}
use my_dbg.Memory.Strings.{length-zeros, read_memory-cases}
use my_dbg.Capstone.{Capstone, CsInsn}
use my_dbg.Examine.{
  behind, hexa_loop, examine_hexa, int_at, decimal_loop, examine_decimal, string_loop,
  examine_string, write, dump, examine_memory, examine_instructions, print_insns,
  print_disassembled,
}

-- A dump that has read no byte outside its buffer
data InBounds : Option Text → Type 0 where
  in_bounds : (t : Text) → InBounds (some t)

InBounds-behind : (piece : Text) (o : Option Text) → InBounds o → InBounds (behind piece o)
InBounds-behind piece (some t) h = in_bounds _
InBounds-behind piece none h = elim h [ ]

get_elem?-lt : (xs : List ℕ) (i : ℕ) → i < length xs → (x : ℕ) × (get_elem? xs i ≡ some x)
get_elem?-lt [] i h = absurd (omega arith)
get_elem?-lt (x ∷ xs) zero h = (x, refl)
get_elem?-lt (x ∷ xs) (suc i) h = get_elem?-lt xs i (omega arith)

hexa_loop-InBounds :
    (left i : ℕ) (mem : List ℕ) → i + left ≤ length mem → InBounds (hexa_loop left i mem)
unfolding hexa_loop
hexa_loop-InBounds zero i mem h = in_bounds _
hexa_loop-InBounds (suc left) i mem h =
    let (b, e) = get_elem?-lt mem i (omega arith) in
    rw (e, hexa_loop) (InBounds-behind _ _ (hexa_loop-InBounds left (i + 1) mem (omega arith)))

string_loop-InBounds :
    (left i : ℕ) (mem : List ℕ) → i + left ≤ length mem → InBounds (string_loop left i mem)
unfolding string_loop
string_loop-InBounds zero i mem h = in_bounds _
string_loop-InBounds (suc left) i mem h =
    let (b, e) = get_elem?-lt mem i (omega arith) in
    rw (e, string_loop) (InBounds-behind _ _ (string_loop-InBounds left (i + 1) mem (omega arith)))

decimal_loop-InBounds :
    (left i : ℕ) (mem : List ℕ) → 4 * (i + left) ≤ length mem → InBounds (decimal_loop left i mem)
unfolding decimal_loop int_at
decimal_loop-InBounds zero i mem h = in_bounds _
decimal_loop-InBounds (suc left) i mem h =
    let (a, ea) = get_elem?-lt mem (4 * i) (omega arith) in
    let (b, eb) = get_elem?-lt mem (4 * i + 1) (omega arith) in
    let (c, ec) = get_elem?-lt mem (4 * i + 2) (omega arith) in
    let (d, ed) = get_elem?-lt mem (4 * i + 3) (omega arith) in
    rw (ea, eb, ec, ed, int_at, decimal_loop)
      (InBounds-behind _ _ (decimal_loop-InBounds left (i + 1) mem (omega arith)))

buffer_size_le : (size : ℕ) → size < 2 ^ 63 → size ≤ buffer_size size
unfolding buffer_size
buffer_size_le size small = ground arith

buffer_size_ints :
    (size : ℕ)
    → size < 2 ^ 63
    → 4 * (size / 4 + (if size % 4 == 0 then 0 else 1)) ≤ buffer_size size
unfolding buffer_size
buffer_size_ints size small = ground arith

module _ {P : Type 0} where
  write-≢fault : (o : Option Text) (s : Dbg P) → InBounds o → write o s ≢ fault
  unfolding write
  write-≢fault (some t) s h e = cc
  write-≢fault none s h e = elim h [ ]

  print_insns-≢fault :
      (addr : ℕ) (insns : List CsInsn) (s : Dbg P) → print_insns addr insns s ≢ fault
  unfolding print_insns
  print_insns-≢fault addr [] s e = cc
  print_insns-≢fault addr (insn ∷ insns) s e = print_insns-≢fault addr insns _ e

  print_disassembled-≢fault :
      (addr : ℕ) (insns : List CsInsn) (s : Dbg P) → print_disassembled addr insns s ≢ fault
  unfolding print_disassembled
  print_disassembled-≢fault addr [] s e = cc
  print_disassembled-≢fault addr (insn ∷ insns) s e = print_insns-≢fault addr (insn ∷ insns) s e

  examine_instructions-≢fault :
      (cs : Capstone) (addr : ℕ) (buf : List ℕ) (size : ℕ) (s : Dbg P)
      → examine_instructions cs addr buf size s ≢ fault
  unfolding examine_instructions
  examine_instructions-≢fault cs addr buf size s = elim (Bool-cases cs.opens) [
    | inr closed ↦ rw closed (λ e. cc)
    | inl opened ↦ rw opened (print_disassembled-≢fault addr (cs.disasm (take size buf) 0) s)
  ]

  dump-≢fault :
      (cs : Capstone) (format addr : ℕ) (buf : List ℕ) (size : ℕ) (s : Dbg P)
      → size < 2 ^ 63
      → length buf ≡ buffer_size size
      → dump cs format addr buf size s ≢ fault
  unfolding dump examine_hexa examine_decimal examine_string
  dump-≢fault cs format addr buf size s small len =
      let fits : 0 + size ≤ length buf = omega (arith, len, buffer_size_le size small) in
      let ints : 4 * (0 + (size / 4 + (if size % 4 == 0 then 0 else 1))) ≤ length buf =
        omega (arith, len, buffer_size_ints size small) in
      elim (Bool-cases (format == b'x')) [
        | inl x ↦ rw x (write-≢fault _ s (hexa_loop-InBounds size 0 buf fits))
        | inr not_x ↦ rw not_x (elim (Bool-cases (format == b'd')) [
          | inl d ↦ rw d (write-≢fault _ s (decimal_loop-InBounds _ 0 buf ints))
          | inr not_d ↦ rw not_d (elim (Bool-cases (format == b's')) [
            | inl str ↦ rw str (
                write-≢fault _ s (
                  InBounds-behind (b'"' ∷ []) (string_loop size 0 buf)
                    (string_loop-InBounds size 0 buf fits)))
            | inr not_str ↦ rw not_str (elim (Bool-cases (format == b'i')) [
              | inl i ↦ rw i (examine_instructions-≢fault cs addr buf size s)
              | inr not_i ↦ rw not_i (λ e. cc)
            ])
          ])
        ])
      ]

  -- Below 2 ^ 63 bytes `examine_memory` reads no byte outside the buffer that `read_memory`
  -- returned, whatever the format and the memory are.
  pub examine_memory-≢fault :
      ⦃mem : Memory P⦄ (cs : Capstone) (format addr size : ℕ) (s : Dbg P)
      → size < 2 ^ 63
      → examine_memory cs format addr size s ≢ fault
  unfolding examine_memory throw
  examine_memory-≢fault cs format addr size s small = elim (read_memory-cases s addr size) [
    | inl failed ↦ rw failed (elim (Bool-cases (s.envs == 0)) [
      | inl bare ↦ rw (bare, throw) (λ e. cc)
      | inr inside ↦ rw (inside, throw) (λ e. cc)
    ])
    | inr (bytes, read, len, returned) ↦
        let full : length (bytes ++ zeros (buffer_size size - size)) ≡ buffer_size size = omega (
          arith,
          len,
          buffer_size_le size small,
          length-zeros (buffer_size size - size),
          length-append bytes (zeros (buffer_size size - size)),
        ) in
        rw returned (dump-≢fault cs format addr _ size s small full)
  ]
