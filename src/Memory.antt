-- ===== src/Memory.antt =====
-- src/memory.c: the tracee's memory through /proc/<pid>/mem.
pub mod Strings
use my_dbg.Base.{
  ℕ, zero, suc, ◌+◌, ◌*◌, ◌/◌, ◌%◌, ◌-◌, ◌^◌, Bool, true, false, List, [], ◌∷◌, ◌++◌, Option, none,
  some, Text, ◌==◌, not, if◌then◌else◌, length,
}
use my_dbg.Debugger.{
  MyException, Dbg, Line, M, Res, ok, fault, out_of_fuel, pure, print, get, ◌>>=◌, ◌>>◌,
}
use my_dbg.Debugger.Exceptions.{throw}

-- What the program asks of the operating system and of the allocator: whether /proc/<pid>/mem can
-- be opened, whether a block of so many bytes can be had, and the bytes that `pread` gives, `none`
-- where it returns -1.
pub record Memory (P : Type 0) : Type 0 where
  pub opens : (pid : ℕ) → P → Bool
  pub allocates : (size : ℕ) → P → Bool
  pub pread : (pid addr size : ℕ) → P → Option (List ℕ)

abbrev pub zeros : ℕ → List ℕ
zeros zero = []
zeros (suc n) = 0 ∷ zeros n

-- The size of the buffer: the next multiple of the size of a word
unfoldable pub buffer_size : ℕ → ℕ
buffer_size size = (size / 8 + (if size % 8 == 0 then 0 else 1)) * 8 % 2 ^ 64

module _ {P : Type 0} ⦃mem : Memory P⦄ where
  unfoldable pub read_whole : (size : ℕ) → Option (List ℕ) → M P (List ℕ)
  unfolding buffer_size throw
  read_whole size none = throw MyException.memory_exception
  read_whole size (some bytes) =
      if length bytes == size
      then pure (bytes ++ zeros (buffer_size size - size))
      else throw MyException.memory_exception

  unfoldable pub read_memory : (addr size : ℕ) → M P (List ℕ)
  unfolding buffer_size throw read_whole
  read_memory addr size s =
      if not (mem.opens s.pid s.process)
      then throw MyException.memory_exception s
      else if not (mem.allocates (buffer_size size) s.process)
      then throw MyException.memory_exception s
      else read_whole size (mem.pread s.pid addr size s.process) s

  -- `add_char`, where `tmp_realloc` finds no memory
  unfoldable pub add_char : Text → ℕ → M P Text
  unfolding throw
  add_char buf c s =
      if mem.allocates (length buf + 1) s.process
      then ok (buf ++ c ∷ []) s
      else throw MyException.memory_exception s

  -- The loop of `read_mem_string`. Where `pread` fails behind the first character, the characters
  -- are freed, and the terminator goes to the end of a new block that holds none of them.
  unfoldable pub string_loop : (fuel addr : ℕ) → Text → M P Text
  unfolding add_char
  string_loop zero addr buf s = out_of_fuel
  string_loop (suc fuel) addr buf s = elim (mem.pread s.pid (addr + length buf) 1 s.process) [
    | none ↦ if length buf == 0 then (add_char buf 0 >>= λ _. pure buf) s else fault
    | some [] ↦ (add_char buf 0 >>= λ _. pure buf) s
    | some (c ∷ _) ↦
        if c == 0
        then (add_char buf 0 >>= λ _. pure buf) s
        else (add_char buf c >>= λ more. string_loop fuel addr more) s
  ]

  -- The characters in front of the terminator; `none` is NULL.
  unfoldable pub read_mem_string : (fuel addr : ℕ) → M P (Option Text)
  unfolding string_loop
  read_mem_string fuel addr s =
      if not (mem.opens s.pid s.process)
      then (do print (Line.text "open"); pure none) s
      else (string_loop fuel addr [] >>= λ str. pure (some str)) s
