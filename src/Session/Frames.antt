-- ===== src/Session/Frames.antt =====
-- The mappings and the frames of the tracee.
use my_dbg.Base.{
  ℕ, zero, suc, ◌+◌, ◌-◌, ◌%◌, ◌^◌, Bool, true, false, List, [], ◌∷◌, Option, arith, Text,
}
use my_dbg.Debugger.{MyException, Line, Dbg, Res, print, ◌>>◌}
use my_dbg.Debugger.Exceptions.{throw, new_env}
use my_dbg.Memory.{Memory}
use my_dbg.Capstone.{Capstone}
use my_dbg.MemMappings.{
  Maps, MyMemMapping, Reading, complete, stopped, overrun, add_mem_mappings, finish_reading,
  get_mem_mappings_file, close_maps, get_mem_mappings, print_mappings, cmd_info_memory,
}
use my_dbg.Unwind.{
  Unwind, UnwError, Unwound, went, error, print_error, print_frame, get_binary_file,
  check_libunwind, frame_loop, walk, print_backtrace, caller_ip, get_finish_address,
}
use my_dbg.Session.Rules.{
  IsSafe, safe, from, SafeFrom, at, Lasts, lasts, then_next, branch, if_at, option_at, IsSafe-pure,
  IsSafe-throw, IsSafe-print, reopen,
}
use my_dbg.Session.Prints.{IsSafe-get_instruction}

module _ {P : Type 0} where
  Lasts-finish_reading :
      (s : Dbg P) (r : Reading) → Lasts s (finish_reading r (record s { envs = s.envs + 1 }))
  unfolding finish_reading
  Lasts-finish_reading s (complete mappings) = lasts (reopen (IsSafe-pure mappings)) s
  Lasts-finish_reading s (stopped e zero) = lasts (reopen (IsSafe-throw e)) s
  Lasts-finish_reading s (stopped e (suc n)) = ground arith
  Lasts-finish_reading s overrun = tt

  IsSafe-get_mem_mappings_file :
      (lines : List Text) (breaks : Bool) → IsSafe (get_mem_mappings_file {P = P} lines breaks)
  unfolding get_mem_mappings_file new_env
  IsSafe-get_mem_mappings_file lines breaks =
      safe λ s. at (Lasts-finish_reading s (add_mem_mappings lines breaks []))

  IsSafe-print_mappings : (mappings : List MyMemMapping) → IsSafe (print_mappings {P = P} mappings)
  unfolding print_mappings
  IsSafe-print_mappings [] = IsSafe-pure tt
  IsSafe-print_mappings (m ∷ mappings) =
      then_next
        (IsSafe-print
          (Line.mapping_row m.start m.end ((m.end + 2 ^ 64 - m.start) % 2 ^ 64) m.offset m.objfile))
        λ _. IsSafe-print_mappings mappings

  IsSafe-failing :
      {A : Type 0} (l : Line) → IsSafe {P = P} {A = A} (print l >> throw MyException.io_exception)
  IsSafe-failing l = then_next (IsSafe-print l) λ _. IsSafe-throw MyException.io_exception

module _ {P : Type 0} ⦃maps : Maps P⦄ where
  IsSafe-get_mem_mappings : IsSafe (get_mem_mappings {P = P})
  unfolding get_mem_mappings close_maps
  IsSafe-get_mem_mappings = safe λ s.
      option_at (maps.lines s.pid s.process) (from (IsSafe-failing (Line.text "fopen")) s) λ lines.
        from
          (then_next (IsSafe-get_mem_mappings_file lines (maps.breaks s.pid s.process)) λ mappings.
            safe λ t.
              if_at (maps.closes t.pid t.process) (from (IsSafe-pure mappings) t)
                (from (IsSafe-failing (Line.text "fclose")) t))
          s

  pub IsSafe-cmd_info_memory : IsSafe (cmd_info_memory {P = P})
  unfolding cmd_info_memory
  IsSafe-cmd_info_memory = then_next IsSafe-get_mem_mappings λ mappings.
      then_next (IsSafe-print (Line.text "Start Addr, End Addr, Size, Offset, Objfile"))
        λ _. IsSafe-print_mappings mappings

module _ {P : Type 0} where
  IsSafe-print_error : (e : UnwError) → IsSafe (print_error {P = P} e)
  unfolding print_error
  IsSafe-print_error UnwError.unw_einval = IsSafe-print _
  IsSafe-print_error UnwError.unw_eunspec = IsSafe-print _
  IsSafe-print_error UnwError.unw_ebadreg = IsSafe-print _
  IsSafe-print_error UnwError.unw_enoinfo = IsSafe-print _
  IsSafe-print_error UnwError.unw_ebadversion = IsSafe-print _
  IsSafe-print_error UnwError.unw_einvalidip = IsSafe-print _
  IsSafe-print_error UnwError.unw_ebadframe = IsSafe-print _
  IsSafe-print_error UnwError.unw_estopunwind = IsSafe-print _
  IsSafe-print_error UnwError.unw_other = IsSafe-pure tt

  IsSafe-print_frame :
      (count ip : ℕ) (n : ℕ × Text) (path : Option Text)
      → IsSafe (print_frame {P = P} count ip n path)
  unfolding print_frame
  IsSafe-print_frame count ip (ret, buf) path = branch _ (IsSafe-print _) (IsSafe-print _)

  -- An answer of libunwind, or its error
  unwound_at :
      {A B : Type 0} {s : Dbg P} (u : Unwound B) {x : UnwError → Res P A} {f : B → Res P A}
      → ((e : UnwError) → SafeFrom s (x e))
      → ((b : B) → SafeFrom s (f b))
      → SafeFrom s (elim u [ error e ↦ x e | went b ↦ f b ])
  unwound_at (error e) h g = h e
  unwound_at (went b) h g = g b

module _ {P C : Type 0} (unw : Unwind P C) where
  IsSafe-check_libunwind : IsSafe (check_libunwind unw)
  unfolding check_libunwind
  IsSafe-check_libunwind =
      branch unw.has_space (IsSafe-pure true) (then_next (IsSafe-print _) λ _. IsSafe-pure false)

  IsSafe-frame_loop :
      (left count : ℕ) (mappings : List MyMemMapping) (cursor : C)
      → IsSafe (frame_loop unw left count mappings cursor)
  unfolding frame_loop
  IsSafe-frame_loop zero count mappings cursor = safe λ s. from (IsSafe-pure tt) s
  IsSafe-frame_loop (suc left) count mappings cursor = safe λ s.
      unwound_at (unw.get_ip cursor s.process) (λ e. from (IsSafe-print_error e) s)
        λ ip.
          from
            (then_next
              (IsSafe-print_frame count ip (unw.proc_name cursor s.process)
                (get_binary_file unw mappings ip s))
              λ _. safe λ t.
                unwound_at (unw.step cursor t.process) (λ e. from (IsSafe-print_error e) t)
                  λ next.
                    option_at next (from (IsSafe-pure tt) t)
                      λ cursor'. from (IsSafe-frame_loop left (count + 1) mappings cursor') t)
            s

  pub IsSafe-print_backtrace : ⦃maps : Maps P⦄ → IsSafe (print_backtrace unw)
  unfolding print_backtrace walk
  IsSafe-print_backtrace = then_next IsSafe-check_libunwind λ usable.
      branch usable
        (then_next IsSafe-get_mem_mappings λ mappings. safe λ s.
          unwound_at (unw.init_remote s.pid s.process) (λ e. from (IsSafe-print_error e) s)
            λ cursor. from (IsSafe-frame_loop 64 0 mappings cursor) s)
        (IsSafe-pure tt)

  IsSafe-fail :
      (e : UnwError) → IsSafe {P = P} (print_error e >> throw {A = ℕ} MyException.unwind_exception)
  IsSafe-fail e = then_next (IsSafe-print_error e) λ _. IsSafe-throw MyException.unwind_exception

  IsSafe-caller_ip : IsSafe (caller_ip unw)
  unfolding caller_ip
  IsSafe-caller_ip = safe λ s.
      unwound_at (unw.init_remote s.pid s.process) (λ e. from (IsSafe-fail e) s)
        λ cursor.
          unwound_at (unw.step cursor s.process) (λ e. from (IsSafe-fail e) s)
            λ next.
              option_at next
                (from
                  (then_next (IsSafe-print (Line.text "No caller found"))
                    λ _. IsSafe-throw MyException.unwind_exception)
                  s)
                λ caller.
                  unwound_at (unw.get_ip caller s.process) (λ e. from (IsSafe-fail e) s)
                    λ ip. from (IsSafe-pure ip) s

  pub IsSafe-get_finish_address :
      ⦃mem : Memory P⦄ → (cs : Capstone) → IsSafe (get_finish_address unw cs)
  unfolding get_finish_address
  IsSafe-get_finish_address cs = then_next IsSafe-check_libunwind λ usable.
      branch usable
        (then_next IsSafe-caller_ip λ ip.
          then_next (IsSafe-get_instruction cs ip)
            λ instr. IsSafe-pure ((ip + instr.size) % 2 ^ 64))
        (IsSafe-throw MyException.unwind_exception)
