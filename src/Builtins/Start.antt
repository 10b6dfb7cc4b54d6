-- ===== src/Builtins/Start.antt =====
-- `main` of src/my-dbg.c with the commands of the program.
use mathlib.Core.List.{Permᴰ}
use my_dbg.Base.{
  ℕ, refl, if◌then◌else◌, ◌==◌, ◌||◌, Bool, true, false, not, List, [], ◌∷◌, Text, codes, str_eq,
}
use my_dbg.Debugger.{Kernel, Reply, done, failed, Dbg, Line, Res, exited, M}
use my_dbg.Memory.{Memory}
use my_dbg.Capstone.{Capstone}
use my_dbg.MemMappings.{Maps}
use my_dbg.Unwind.{Unwind, init_libunwind}
use my_dbg.Elf.Tracee.{Files}
use my_dbg.Dwarf.Sources.{Sources}
use my_dbg.Commands.{Cmd}
use my_dbg.Commands.Attach.{g_options}
use my_dbg.Control.{if_stopped, stop_sig}
use my_dbg.Prompt.{Launch, set_options, set_tracee_options, first_stop, setup_binary, main}
use my_dbg.Builtins.{Bounds, setup_modules, commands}
use my_dbg.Builtins.Loop.{Settles-back, Settles-and_then, main_loop-Settles}
use my_dbg.Session.{Survives-refl}
use my_dbg.Session.Places.{quiet}
use my_dbg.Session.Rules.{Settles, Survives-same, IsSafe-print, lasts}

module _ {P A : Type 0} (s : Dbg P) where
  -- By what the operating system answers
  reply-Settles :
      {B : Type 0} (r : Reply B) (f : B → Res P A) (g : ℕ → Res P A)
      → ((b : B) → Settles s (f b))
      → ((e : ℕ) → Settles s (g e))
      → Settles s (elim r [ done b ↦ f b | failed e ↦ g e ])
  reply-Settles (done b) f g here there = here b
  reply-Settles (failed e) f g here there = there e

  test-Settles :
      (b : Bool) (x y : Res P A) → Settles s x → Settles s y → Settles s (if b then x else y)
  test-Settles true x y here there = here
  test-Settles false x y here there = there

  branch-Settles :
      (b : Bool) (m n : M P A)
      → Settles s (m s)
      → Settles s (n s)
      → Settles s ((if b then m else n) s)
  branch-Settles true m n here there = here
  branch-Settles false m n here there = there

module _ {P : Type 0} ⦃k : Kernel P⦄ where
  set_tracee_options-Settles : (s : Dbg P) → Settles s (set_tracee_options s)
  unfolding set_tracee_options
  set_tracee_options-Settles s =
      reply-Settles s (k.ptrace set_options s.pid 0 g_options s.process) _ _
        (λ r. (refl, quiet s _ refl refl refl)) (λ e. Survives-refl s)

  first_stop-Settles : (s : Dbg P) → Settles s (first_stop s)
  unfolding first_stop
  first_stop-Settles s = reply-Settles s (k.wait s.pid s.process) _ _ stopped (λ e. Survives-refl s)
    where
      stopped :
          (r : ℕ × P)
          → Settles s (
              if not (if_stopped r.0) || not (stop_sig r.0 == 5)
              then exited (record s { process = r.1 })
              else set_tracee_options (record s { process = r.1 }))
      stopped (status, p) =
          let t : Dbg P = record s { process = p } in
          test-Settles s (not (if_stopped status) || not (stop_sig status == 5)) _ _
            (quiet s t refl refl refl)
            (Settles-back s t _ refl (quiet s t refl refl refl) (set_tracee_options-Settles t))

  setup_binary-Settles :
      (l : Launch P) (argv : List Text) (s : Dbg P) → Settles s (setup_binary l argv s)
  unfolding setup_binary
  setup_binary-Settles l argv s =
      reply-Settles s (l.fork argv s.process) _ _ started (λ e. Survives-refl s)
    where
      started : (r : ℕ × P) → Settles s (first_stop (record s { process = r.1; pid = r.0 }))
      started (pid, p) =
          let t : Dbg P = record s { process = p; pid = pid } in
          Settles-back s t _ refl (quiet s t refl refl refl) (first_stop-Settles t)

module _ {P C : Type 0} ⦃k : Kernel P⦄ ⦃mem : Memory P⦄ ⦃files : Files P⦄ ⦃maps : Maps P⦄
    ⦃src : Sources P⦄ (unw : Unwind P C) (cs : Capstone) (bounds : Bounds) where
  setup_modules-Settles : (s : Dbg P) → Settles s (setup_modules unw cs bounds s)
  unfolding setup_modules init_libunwind
  setup_modules-Settles s =
      test-Settles s (not unw.has_space) _ _
        (lasts (IsSafe-print (Line.text "libunwind address-space creation failed")) s)
        (test-Settles s (unw.creates_info s.pid s.process) _ _ (Survives-same s) (Survives-refl s))

  -- With the commands of the program in any order, and whatever the program is called with and whatever
  -- lines are typed, `main` throws nothing. Where it returns, there are as many jump buffers as before;
  -- whether it returns or the debugger exits, `g_quit` was not reset, each breakpoint of the start is
  -- still there at its index with its number, flags, address and word, a deleted one is still deleted,
  -- the ones behind them are numbered by their places, and output was only appended.
  pub main-Settles :
      (listed table : List (Cmd P)) (history_tokenize : Text → List Text) (l : Launch P)
      (argv inputs : List Text) (s : Dbg P)
      → Permᴰ (commands unw cs bounds listed) table
      → Settles s (main table history_tokenize l (setup_modules unw cs bounds) argv inputs s)
  unfolding main
  main-Settles listed table history_tokenize l [] inputs s d =
      main_loop-Settles unw cs bounds listed table history_tokenize inputs s d
  main-Settles listed table history_tokenize l (program ∷ []) inputs s d =
      main_loop-Settles unw cs bounds listed table history_tokenize inputs s d
  main-Settles listed table history_tokenize l (program ∷ arg ∷ args) inputs s d =
      branch-Settles s (str_eq arg (codes "-h")) _ _
        (lasts (IsSafe-print (Line.text "Usage: %s [program] [arguments ...]")) s)
        (Settles-and_then s _ _ (setup_binary-Settles l (arg ∷ args) s) λ _ t.
          Settles-and_then t _ _ (setup_modules-Settles t)
            λ _ u. main_loop-Settles unw cs bounds listed table history_tokenize inputs u d)
