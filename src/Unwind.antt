-- ===== src/Unwind.antt =====
-- src/wrappers/libunwind_wrapper.c. The library is the parameter `Unwind`; what it allocates and frees
-- is not part of the state.
pub mod Depth
use my_dbg.Base.{
  ℕ, zero, suc, ◌+◌, ◌%◌, ◌^◌, Bool, true, false, not, ◌&&◌, ◌||◌, List, [], ◌∷◌, Option, none,
  some, String, Text, ◌==◌, if◌then◌else◌,
}
use my_dbg.Debugger.{MyException, Dbg, Line, M, exited, pure, print, ◌>>=◌, ◌>>◌}
use my_dbg.Debugger.Exceptions.{throw}
use my_dbg.Memory.{Memory}
use my_dbg.Capstone.{Capstone, MyInstr, get_instruction}
use my_dbg.MemMappings.{Maps, MyMemMapping, get_mem_mappings, find_mem_mappings}

-- The errors of the library
pub data UnwError : Type 0 where
  unw_einval unw_eunspec unw_ebadreg unw_enoinfo unw_ebadversion unw_einvalidip : UnwError
  unw_ebadframe unw_estopunwind unw_other : UnwError

pub data Unwound (A : Type 0) : Type 0 where
  went : A → Unwound A
  error : UnwError → Unwound A

-- The value of UNW_ENOMEM in the header of libunwind
abbrev pub unw_enomem : ℕ
unw_enomem = 2

-- What the program calls of libunwind, and the inodes that `stat` gives. `C` is the type of cursors;
-- `proc_name` is the `int` that `unw_get_proc_name` returns, which is negative on an error, and the
-- text in the buffer. `step` gives `none` at the last frame, and `creates_info` tells whether `_UPT_create` has memory.
pub record Unwind (P C : Type 0) : Type 0 where
  pub has_space : Bool
  pub creates_info : (pid : ℕ) → P → Bool
  pub init_remote : (pid : ℕ) → P → Unwound C
  pub step : C → P → Unwound (Option C)
  pub get_ip : C → P → Unwound ℕ
  pub proc_name : C → P → ℕ × Text
  pub inode : (path : Text) → P → Option ℕ
  pub exe_inode : (pid : ℕ) → P → Option ℕ

module _ {P : Type 0} where
  unfoldable pub print_error : UnwError → M P (Unit {0})
  print_error unw_einval = print (
      Line.text
        "unw_init_remote() was called in a version of libunwind which supports local unwinding only")
  print_error unw_eunspec = print (Line.text "An unspecified error occurred.")
  print_error unw_ebadreg =
      print (Line.text "A register needed by unw_init_remote() wasn't accessible.")
  print_error unw_enoinfo =
      print (
        Line.text
          "Libunwind was unable to locate the unwind-info needed to complete the operation.")
  print_error unw_ebadversion = print (
      Line.text
        "The unwind-info needed to complete the operation has a version or a format that is not understood by libunwind.")
  print_error unw_einvalidip = print (
      Line.text
        "The  instruction-pointer  (``program-counter'')  of  the  next  stack frame is invalid  (e.g., not properly aligned).")
  print_error unw_ebadframe = print (Line.text "The next stack frame is invalid.")
  print_error unw_estopunwind =
      print (Line.text "Returned if a call to find_proc_info() returned -UNW_ESTOPUNWIND.")
  print_error unw_other = pure tt

  unfoldable pub print_frame : (count ip : ℕ) → ℕ × Text → Option Text → M P (Unit {0})
  print_frame count ip (ret, buf) path =
      if ret == 0 || ret == unw_enomem
      then print (Line.frame count ip (some buf) (ret == unw_enomem) path)
      else print (Line.frame count ip none false path)

module _ {P C : Type 0} (unw : Unwind P C) where
  -- `path` and the file of the mapping are not the same file.
  abbrev pub other_file : Option ℕ → Option ℕ → Bool
  other_file (some a) (some b) = not (a == b)
  other_file _ _ = false

  abbrev pub is_path : Text → Bool
  is_path [] = false
  is_path (c ∷ cs) = c == b'/'

  -- The file that an address belongs to, unless it is the program itself
  unfoldable pub get_binary_file : List MyMemMapping → (addr : ℕ) → Dbg P → Option Text
  get_binary_file mappings addr s = elim (find_mem_mappings mappings addr) [
    | none ↦ none
    | some m ↦
        if is_path m.objfile
          && other_file (unw.inode m.objfile s.process) (unw.exe_inode s.pid s.process)
        then some m.objfile
        else none
  ]

  -- The address space is there or not for the whole run.
  unfoldable pub init_libunwind : M P (Unit {0})
  init_libunwind s =
      if not unw.has_space
      then print (Line.text "libunwind address-space creation failed") s
      else if unw.creates_info s.pid s.process
      then pure tt s
      else exited s

  unfoldable pub check_libunwind : M P Bool
  check_libunwind =
      if unw.has_space
      then pure true
      else (print (Line.text "libunwind instantiation failed: impossible to gather a backtrace")
          >> pure false)

  -- From frame `count` on, `left` more at most. An error ends the trace.
  unfoldable pub frame_loop : (left count : ℕ) → List MyMemMapping → C → M P (Unit {0})
  unfolding print_error print_frame get_binary_file
  frame_loop zero count mappings cursor s = pure tt s
  frame_loop (suc left) count mappings cursor s = elim (unw.get_ip cursor s.process) [
    | error e ↦ print_error e s
    | went ip ↦
        (print_frame count ip (unw.proc_name cursor s.process) (get_binary_file mappings ip s)
            >>= λ _ t. elim (unw.step cursor t.process) [
              | error e ↦ print_error e t
              | went next ↦ elim next [
                | none ↦ pure tt t
                | some cursor' ↦ frame_loop left (count + 1) mappings cursor' t
              ]
            ])
          s
  ]

  -- MY_MAX_BT_DEPTH is 64.
  unfoldable pub walk : List MyMemMapping → M P (Unit {0})
  unfolding frame_loop print_error
  walk mappings s = elim (unw.init_remote s.pid s.process) [
    | error e ↦ print_error e s
    | went cursor ↦ frame_loop 64 0 mappings cursor s
  ]

  unfoldable pub print_backtrace : ⦃maps : Maps P⦄ → M P (Unit {0})
  unfolding walk check_libunwind
  print_backtrace = check_libunwind >>= λ usable.
      if usable then (get_mem_mappings >>= λ mappings. walk mappings) else pure tt

  abbrev pub fail : UnwError → M P ℕ
  fail e = print_error e >> throw MyException.unwind_exception

  -- The instruction pointer of the caller
  unfoldable pub caller_ip : M P ℕ
  unfolding print_error throw
  caller_ip s = elim (unw.init_remote s.pid s.process) [
    | error e ↦ fail e s
    | went cursor ↦ elim (unw.step cursor s.process) [
      | error e ↦ fail e s
      | went next ↦ elim next [
        | none ↦ (print (Line.text "No caller found") >> throw MyException.unwind_exception) s
        | some caller ↦ elim (unw.get_ip caller s.process) [
          | error e ↦ fail e s
          | went ip ↦ pure ip s
        ]
      ]
    ]
  ]

  -- The address behind the instruction that the caller goes on with
  unfoldable pub get_finish_address : ⦃mem : Memory P⦄ → Capstone → M P ℕ
  unfolding caller_ip check_libunwind throw
  get_finish_address cs = check_libunwind >>= λ usable.
      if usable
      then (caller_ip >>= λ ip.
          get_instruction cs ip >>= λ instr. pure ((ip + instr.size) % 2 ^ 64))
      else throw MyException.unwind_exception
