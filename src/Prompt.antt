-- ===== src/Prompt.antt =====
-- src/my-dbg.c, src/prompt.c and `setup_binary` of src/binary.c: the start of the debugger and its main
-- loop. The lines that `readline` returns are a list, and `history_tokenize` is an argument.
pub mod Quit
use my_dbg.Base.{
  ℕ, ◌+◌, Bool, true, false, not, ◌||◌, List, [], ◌∷◌, Option, none, some, Text, codes, ◌==◌,
  if◌then◌else◌, str_eq,
}
use my_dbg.Debugger.{
  Request, Reply, done, failed, Kernel, Dbg, Line, ok, exited, M, pure, print, modify, ◌>>=◌, ◌>>◌,
}
use my_dbg.Control.{if_stopped, stop_sig}
use my_dbg.Commands.{Cmd, run_command}
use my_dbg.Commands.Attach.{g_options}

-- `fork` in the debugger, which then is the parent: the process of the program and its number
pub record Launch (P : Type 0) : Type 0 where
  pub fork : (argv : List Text) → P → Reply (ℕ × P)

abbrev sigtrap : ℕ
sigtrap = 5

-- PTRACE_SETOPTIONS
abbrev pub set_options : Request
set_options = Request.other 0x4200

module _ {P : Type 0} ⦃k : Kernel P⦄ where
  unfoldable pub set_tracee_options : M P (Unit {0})
  set_tracee_options s = elim (k.ptrace set_options s.pid 0 g_options s.process) [
    | done r ↦ ok tt (record s { process = r.1 })
    | failed e ↦ exited s
  ]

  unfoldable pub first_stop : M P (Unit {0})
  unfolding set_tracee_options
  first_stop s = elim (k.wait s.pid s.process) [
    | done r ↦
        if not (if_stopped r.0) || not (stop_sig r.0 == sigtrap)
        then exited (record s { process = r.1 })
        else set_tracee_options (record s { process = r.1 })
    | failed e ↦ exited s
  ]

  -- Every error ends the debugger.
  unfoldable pub setup_binary : Launch P → (argv : List Text) → M P (Unit {0})
  unfolding first_stop
  setup_binary l argv s = elim (l.fork argv s.process) [
    | done r ↦ first_stop (record s { process = r.1; pid = r.0 })
    | failed e ↦ exited s
  ]

module _ {P : Type 0} (cmds : List (Cmd P)) (history_tokenize : Text → List Text) where
  unfoldable pub run_tokens : List Text → M P (Unit {0})
  unfolding run_command
  run_tokens [] = pure tt
  run_tokens (name ∷ args) = run_command cmds name (name ∷ args)

  -- The list of lines ends where `prompt` returns NULL.
  unfoldable pub main_loop : List Text → M P (Unit {0})
  unfolding run_tokens
  main_loop [] s = ok tt s
  main_loop (str ∷ inputs) s =
      if s.quit then ok tt s else (run_tokens (history_tokenize str) >>= λ _. main_loop inputs) s

  unfoldable pub main :
      ⦃k : Kernel P⦄
      → Launch P
      → (setup_modules : M P (Unit {0})) → (argv inputs : List Text) → M P (Unit {0})
  unfolding main_loop setup_binary
  main l setup_modules [] inputs = main_loop inputs
  main l setup_modules (program ∷ []) inputs = main_loop inputs
  main l setup_modules (program ∷ arg ∷ args) inputs =
      if str_eq arg (codes "-h")
      then print (Line.text "Usage: %s [program] [arguments ...]")
      else (do setup_binary l (arg ∷ args); setup_modules; main_loop inputs)
