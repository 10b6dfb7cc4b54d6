-- ===== src/Session/Reads.antt =====
-- The tracee's registers and memory, and the numbers of the commands.
use my_dbg.Base.{
  ℕ, zero, suc, ◌+◌, not, List, [], ◌∷◌, ◌++◌, Option, none, some, Text, ◌==◌, length, drop,
}
use my_dbg.Debugger.{Kernel, MyException, Line}
use my_dbg.Debugger.Ends.{keeps}
use my_dbg.Memory.{
  Memory, buffer_size, read_whole, read_memory, add_char, string_loop, read_mem_string,
}
use my_dbg.Registers.{Reg, get_register, get_register_from_name, find_reg, all_regs}
use my_dbg.Control.Steps.{Within-get_register}
use my_dbg.Debugger.Exceptions.{ex_depth}
use my_dbg.Format.{invalid, read_address, read_size}
use my_dbg.Session.Rules.{
  IsSafe, safe, at, Survives-same, from, then_next, branch, choose, if_at, option_at, list_at,
  IsSafe-pure, IsSafe-fault, IsSafe-out_of_fuel, IsSafe-throw, IsSafe-get, IsSafe-print,
  IsSafe-Runs,
}

pub ruleset safe_rules = (
  then_next, branch, choose, IsSafe-pure, IsSafe-fault, IsSafe-out_of_fuel, IsSafe-throw,
  IsSafe-get, IsSafe-print,
)

module _ {P : Type 0} ⦃mem : Memory P⦄ where
  pub IsSafe-read_whole : (size : ℕ) (o : Option (List ℕ)) → IsSafe (read_whole {P = P} size o)
  unfolding read_whole
  IsSafe-read_whole size none = IsSafe-throw MyException.memory_exception
  IsSafe-read_whole size (some bytes) = search (safe_rules)

  pub IsSafe-read_memory : (addr size : ℕ) → IsSafe (read_memory {P = P} addr size)
  unfolding read_memory
  IsSafe-read_memory addr size = safe λ s.
      let failed = from (IsSafe-throw MyException.memory_exception) s in
      if_at (not (mem.opens s.pid s.process)) failed (
        if_at (not (mem.allocates (buffer_size size) s.process)) failed
          (from (IsSafe-read_whole size (mem.pread s.pid addr size s.process)) s))

  IsSafe-add_char : (buf : Text) (c : ℕ) → IsSafe (add_char {P = P} buf c)
  unfolding add_char
  IsSafe-add_char buf c = safe λ s.
      if_at (mem.allocates (length buf + 1) s.process) (from (IsSafe-pure (buf ++ c ∷ [])) s)
        (from (IsSafe-throw MyException.memory_exception) s)

  IsSafe-string_loop : (fuel addr : ℕ) (buf : Text) → IsSafe (string_loop {P = P} fuel addr buf)
  unfolding string_loop
  IsSafe-string_loop zero addr buf = IsSafe-out_of_fuel
  IsSafe-string_loop (suc fuel) addr buf =
      let done = then_next (IsSafe-add_char buf 0) (λ _. IsSafe-pure buf) in
      safe λ s.
        option_at (mem.pread s.pid (addr + length buf) 1 s.process)
          (if_at (length buf == 0) (from done s) (from IsSafe-fault s))
          (λ bytes. list_at bytes (from done s) (λ c more. if_at (c == 0) (from done s) (
            from (then_next (IsSafe-add_char buf c) (λ buf'. IsSafe-string_loop fuel addr buf'))
              s)))

  pub IsSafe-read_mem_string : (fuel addr : ℕ) → IsSafe (read_mem_string {P = P} fuel addr)
  unfolding read_mem_string
  IsSafe-read_mem_string fuel addr = safe λ s.
      if_at (not (mem.opens s.pid s.process))
        (from (then_next (IsSafe-print (Line.text "open")) (λ _. IsSafe-pure none)) s)
        (from (then_next (IsSafe-string_loop fuel addr []) (λ str. IsSafe-pure (some str))) s)

module _ {P : Type 0} ⦃k : Kernel P⦄ where
  IsSafe-depth : IsSafe (ex_depth {P = P})
  unfolding ex_depth
  IsSafe-depth = safe λ s. at (Survives-same s)

  pub IsSafe-get_register : (r : Reg) → IsSafe (get_register {P = P} r)
  IsSafe-get_register r = IsSafe-Runs (keeps (Within-get_register r))

  pub IsSafe-get_register_from_name : (name : Text) → IsSafe (get_register_from_name {P = P} name)
  unfolding get_register_from_name
  IsSafe-get_register_from_name name =
      choose (find_reg name all_regs) (search (safe_rules)) (λ r. IsSafe-get_register r)

  IsSafe-invalid : (message : Line) → IsSafe (invalid {P = P} message)
  unfolding invalid
  IsSafe-invalid message = then_next IsSafe-depth λ depth.
      then_next (branch _ (IsSafe-print message) (IsSafe-pure tt))
        (λ _. IsSafe-throw MyException.exception)

  pub IsSafe-read_address : (str : Text) → IsSafe (read_address {P = P} str)
  unfolding read_address
  IsSafe-read_address str =
      branch _ (IsSafe-get_register_from_name (drop 1 str))
        (choose _ (IsSafe-invalid _) (λ addr. IsSafe-pure addr))

  pub IsSafe-read_size : (str : Text) → IsSafe (read_size {P = P} str)
  unfolding read_size
  IsSafe-read_size str =
      branch _ (IsSafe-read_address str) (choose _ (IsSafe-invalid _) (λ size. IsSafe-pure size))
