-- ===== src/Builtins/Loop.antt =====
-- The main loop with the commands of the program.
use mathlib.Core.List.{Permᴰ}
use mathlib.Core.List.Permᴰ.{nil, cons, swap, trans}
use mathlib.Core.Path.{subst}
use my_dbg.Base.{
  ◌≡◌, sym, ◌∙◌, ◌&&◌, not, ◌==◌, List, [], ◌∷◌, Option, none, some, Text, All, Bool-cases, inl,
  inr,
}
use my_dbg.Debugger.{
  MyException, Kernel, Dbg, Line, Res, ok, thrown, exited, fault, out_of_fuel, M, and_then,
}
use my_dbg.Memory.{Memory}
use my_dbg.Capstone.{Capstone}
use my_dbg.MemMappings.{Maps}
use my_dbg.Unwind.{Unwind}
use my_dbg.Elf.Tracee.{Files}
use my_dbg.Dwarf.Sources.{Sources}
use my_dbg.Commands.{
  Cmd, Matched, ambiguous, matched, esrch, pick, exact_loop, prefix_loop, get_command, ptrace_error,
  report, run_found, run_command,
}
use my_dbg.Commands.Run.{OfOption, OfMatched, exact_loop-All, prefix_loop-All}
use my_dbg.Prompt.{run_tokens, main_loop}
use my_dbg.Prompt.Quit.{main_loop_end, main_loop-quit_set, main_loop_step}
use my_dbg.Builtins.{Bounds, commands}
use my_dbg.Builtins.Safe.{RunsSafe, IsSafe-commands}
use my_dbg.Session.{Survives, Survives-refl, Survives-trans}
use my_dbg.Session.Rules.{
  IsSafe, safe, at, lasts, Settles, Survives-same, then_next, branch, IsSafe-pure, IsSafe-get,
  IsSafe-print, try_catch-Settles,
}

module _ {P : Type 0} where
  IsSafe-exit : {A : Type 0} → IsSafe {P = P} {A = A} exited
  IsSafe-exit = safe λ s. at (Survives-refl s)

  IsSafe-report : (cmd : Cmd P) (e : MyException) → IsSafe (report cmd e)
  unfolding report ptrace_error
  IsSafe-report cmd MyException.ptrace_exception =
      then_next IsSafe-get
        λ s. branch (s.errno == esrch && not (s.pid == 0)) IsSafe-exit (IsSafe-print _)
  IsSafe-report cmd MyException.exception = IsSafe-print _
  IsSafe-report cmd MyException.syscall_exception = IsSafe-pure tt
  IsSafe-report cmd _ = IsSafe-print _

  pub Settles-back :
      {A : Type 0} (s t : Dbg P) (r : Res P A)
      → t.envs ≡ s.envs
      → Survives s t
      → Settles t r
      → Settles s r
  Settles-back s t (ok a u) e h (f, l) = (f ∙ e, Survives-trans s t u h l)
  Settles-back s t (thrown x u) e h l = absurd l
  Settles-back s t (exited u) e h l = Survives-trans s t u h l
  Settles-back s t fault e h l = tt
  Settles-back s t out_of_fuel e h l = tt

  pub Settles-and_then :
      {A B : Type 0} (s : Dbg P) (r : Res P A) (f : A → M P B)
      → Settles s r
      → ((a : A) (t : Dbg P) → Settles t (f a t))
      → Settles s (and_then r f)
  Settles-and_then s (ok a t) f (e, h) next = Settles-back s t (f a t) e h (next a t)
  Settles-and_then s (thrown x t) f h next = absurd h
  Settles-and_then s (exited t) f h next = h
  Settles-and_then s fault f h next = tt
  Settles-and_then s out_of_fuel f h next = tt

  run_found-Settles :
      (found : Option (Cmd P)) (args : List Text) (s : Dbg P)
      → OfOption RunsSafe found
      → Settles s (run_found found args s)
  unfolding run_found
  run_found-Settles none args s h = Survives-same s
  run_found-Settles (some cmd) args s h = elim (Bool-cases (s.pid == 0 && cmd.program_required)) [
    | inl e ↦ rw e (lasts (IsSafe-print _) s)
    | inr e ↦ rw e (try_catch-Settles (h.runs args) (IsSafe-report cmd) s)
  ]

  pick-Settles :
      (e : Option (Cmd P)) (m : Matched P) (name : Text) (args : List Text) (s : Dbg P)
      → OfOption RunsSafe e
      → OfMatched RunsSafe m
      → Settles s (and_then (pick e m name s) λ found. run_found found args)
  unfolding pick run_found
  pick-Settles (some cmd) m name args s he hm = run_found-Settles (some cmd) args s he
  pick-Settles none ambiguous name args s he hm =
      lasts (IsSafe-print (Line.ambiguous_command name)) s
  pick-Settles none (matched (some cmd)) name args s he hm = run_found-Settles (some cmd) args s hm
  pick-Settles none (matched none) name args s he hm =
      lasts (IsSafe-print (Line.command_not_found name)) s

  run_command-Settles :
      (cmds : List (Cmd P)) (name : Text) (args : List Text) (s : Dbg P)
      → All RunsSafe cmds
      → Settles s (run_command cmds name args s)
  unfolding run_command get_command
  run_command-Settles cmds name args s h =
      pick-Settles (exact_loop name cmds) (prefix_loop name none cmds) name args s
        (exact_loop-All RunsSafe name cmds h) (prefix_loop-All RunsSafe name none cmds tt h)

  run_tokens-Settles :
      (cmds : List (Cmd P)) (history_tokenize : Text → List Text) (tokens : List Text) (s : Dbg P)
      → All RunsSafe cmds
      → Settles s (run_tokens cmds history_tokenize tokens s)
  unfolding run_tokens
  run_tokens-Settles cmds history_tokenize [] s h = Survives-same s
  run_tokens-Settles cmds history_tokenize (name ∷ args) s h =
      run_command-Settles cmds name (name ∷ args) s h

  -- Whatever is typed
  main_loop-safe :
      (cmds : List (Cmd P)) (history_tokenize : Text → List Text) (inputs : List Text) (s : Dbg P)
      → All RunsSafe cmds
      → Settles s (main_loop cmds history_tokenize inputs s)
  main_loop-safe cmds history_tokenize [] s h =
      subst (Settles s) (sym (main_loop_end cmds history_tokenize s)) (Survives-same s)
  main_loop-safe cmds history_tokenize (str ∷ inputs) s h = elim (Bool-cases s.quit) [
    | inl quit ↦
        subst (Settles s) (sym (main_loop-quit_set cmds history_tokenize (str ∷ inputs) s quit))
          (Survives-same s)
    | inr going ↦
        subst (Settles s) (sym (main_loop_step cmds history_tokenize str inputs s going)) (
          Settles-and_then s _ _
            (run_tokens-Settles cmds history_tokenize (history_tokenize str) s h)
            (λ _ t. main_loop-safe cmds history_tokenize inputs t h))
  ]

  All-perm : {as' bs : List (Cmd P)} → Permᴰ as' bs → All RunsSafe as' → All RunsSafe bs
  All-perm nil h = h
  All-perm (cons e d) (h, hs) = (subst RunsSafe e h, All-perm d hs)
  All-perm (swap e f) (a, (b, h)) = (subst RunsSafe f b, (subst RunsSafe e a, h))
  All-perm (trans d e) h = All-perm e (All-perm d h)

module _ {P C : Type 0} ⦃k : Kernel P⦄ ⦃mem : Memory P⦄ ⦃files : Files P⦄ ⦃maps : Maps P⦄
    ⦃src : Sources P⦄ (unw : Unwind P C) (cs : Capstone) (bounds : Bounds) where
  -- With the commands of the program in any order, and whatever lines are typed, the main loop throws
  -- nothing. Where it ends, no jump buffer is left behind; however it ends, `g_quit` was not reset, each
  -- breakpoint of the start is still there at its index with its number, flags, address and word, a
  -- deleted one is still deleted, the new ones are numbered by their places, and output was only
  -- appended.
  pub main_loop-Settles :
      (listed table : List (Cmd P)) (history_tokenize : Text → List Text) (inputs : List Text)
      (s : Dbg P)
      → Permᴰ (commands unw cs bounds listed) table
      → Settles s (main_loop table history_tokenize inputs s)
  main_loop-Settles listed table history_tokenize inputs s d =
      main_loop-safe table history_tokenize inputs s
        (All-perm d (IsSafe-commands unw cs bounds listed))
