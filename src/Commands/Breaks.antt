-- ===== src/Commands/Breaks.antt =====
-- The commands on breakpoints: src/commands/cmd_break.c, cmd_tbreak.c, cmd_breaks.c,
-- cmd_break_list.c and cmd_break_del.c. `argc` is the length of `argv`.
pub mod Delete
use my_dbg.Base.{
  ℕ, ◌+◌, ◌-◌, Bool, true, false, ◌&&◌, ◌||◌, List, [], ◌∷◌, Option, none, some, Text, ◌==◌, ltb,
  leb, if◌then◌else◌, length, get_elem?, set, minus_one, to_int,
}
use my_dbg.Debugger.{
  MyException, ex_code, Kernel, Bp, Dbg, Line, ok, fault, M, pure, get, modify, print, ◌>>=◌, ◌>>◌,
}
use my_dbg.Debugger.Exceptions.{throw, try_catch, catch_only}
use my_dbg.Format.{read_address, read_size}
use my_dbg.Breakpoints.{no_flags, temp_flag, place_breakpoint, load_bp, store_bp}
use my_dbg.Syscalls.{add_syscall_break, syscall_name, syscall_num}

-- `argv[i]`
abbrev pub arg : {P : Type 0} → ℕ → List Text → M P Text
arg i argv s = elim (get_elem? argv i) [ none ↦ fault | some a ↦ ok a s ]

module _ {P : Type 0} where
  -- `g_syscalls[i] = -1`: a write outside the array, or through NULL, is a fault.
  unfoldable pub clear_syscall : ℕ → M P (Unit {0})
  clear_syscall i s =
      if ltb i (length s.syscalls)
      then ok tt (record s { syscalls = set s.syscalls i minus_one })
      else fault

  -- `cmd_break_del` behind the reading of its argument
  unfoldable pub delete_breakpoint : ℕ → M P (Unit {0})
  unfolding clear_syscall load_bp store_bp
  delete_breakpoint nb = do
    s ← get
    if nb == 0 || ltb (length s.breakpoints) nb
        then print (Line.text "Invalid ID specified")
        else do
          bp ← load_bp (nb - 1)
          if bp.deleted then print (Line.breakpoint_already_deleted nb) else do
            store_bp (nb - 1) (record bp { deleted = true })
            clear_syscall bp.word
            print (Line.breakpoint_deleted nb)

module _ {P : Type 0} ⦃k : Kernel P⦄ where
  unfoldable pub cmd_break : ℕ → List Text → M P (Unit {0})
  cmd_break argc argv = if leb argc 1 then print (Line.text "No address specified") else do
    str ← arg 1 argv
    addr ← read_address str
    nb ← place_breakpoint addr no_flags
    print (Line.breakpoint_placed_at nb addr)

  unfoldable pub cmd_tbreak : ℕ → List Text → M P (Unit {0})
  cmd_tbreak argc argv = if leb argc 1 then print (Line.text "No address specified") else do
    str ← arg 1 argv
    addr ← read_address str
    nb ← place_breakpoint addr temp_flag
    print (Line.breakpoint_placed_at nb addr)

  unfoldable pub cmd_break_del : ℕ → List Text → M P (Unit {0})
  unfolding delete_breakpoint
  cmd_break_del argc argv =
      if leb argc 1
      then print (Line.text "No ID specified")
      else do str ← arg 1 argv; nb ← read_size str; delete_breakpoint nb

  -- `syscall` and `my_ex`: the number, or none after the message
  unfoldable pub read_syscall : Text → M P (Option ℕ)
  read_syscall str =
      try_catch (do size ← read_size str; pure (some (to_int size)))
        (catch_only MyException.exception
          (try_catch (do n ← syscall_num str; pure (some n))
            (catch_only MyException.syscall_exception
              (print (Line.unknown_syscall_name str) >> pure none) (some 0)))
          (some 0))

  unfoldable pub print_placed : ℕ → M P (Unit {0})
  print_placed syscall =
      try_catch
        (do name ← syscall_name syscall; print (Line.breakpoint_placed_on (some name) syscall))
        (catch_only MyException.syscall_exception (print (Line.breakpoint_placed_on none syscall))
          tt)

  unfoldable pub cmd_breaks : ℕ → List Text → M P (Unit {0})
  unfolding read_syscall print_placed
  cmd_breaks argc argv = if leb argc 1 then print (Line.text "No syscall specified") else do
    str ← arg 1 argv
    syscall ← read_syscall str
    elim syscall [
      | none ↦ throw MyException.syscall_exception
      | some n ↦ add_syscall_break n >> print_placed n
    ]

  -- One row of `cmd_break_list`; the name of a system call is looked up under its own `try`.
  unfoldable pub print_row : Bp → M P (Unit {0})
  print_row bp =
      let row = Line.breakpoint_row bp.id bp.flags.syscall bp.flags.temp bp.enabled in
      if bp.flags.internal || bp.deleted
      then pure tt
      else if bp.flags.syscall
      then (try_catch
          (do name ← syscall_name (to_int bp.addr); print (row (to_int bp.addr) (some name)))
          (catch_only MyException.syscall_exception (print (row (to_int bp.addr) none)) tt))
      else print (row bp.addr none)

  unfoldable pub list_loop : List Bp → M P (Unit {0})
  unfolding print_row
  list_loop [] = pure tt
  list_loop (bp ∷ bps) = print_row bp >> list_loop bps

  unfoldable pub cmd_break_list : ℕ → List Text → M P (Unit {0})
  unfolding list_loop
  cmd_break_list argc argv = do
    print (Line.text "ID     Type       Temporary Enabled What")
    s ← get
    list_loop s.breakpoints
