-- ===== src/Commands/Run.antt =====
-- `run_command` ends every exception of a command.
use my_dbg.Base.{
  ℕ, ◌+◌, ◌≡◌, refl, false, List, [], ◌∷◌, Option, none, some, Text, arith, length, All,
  starts_with, ◌==◌, ◌&&◌, Bool-cases, inl, inr,
}
use my_dbg.Debugger.{
  MyException, Dbg, Res, ok, thrown, exited, fault, out_of_fuel, M, pure, ◌>>◌, and_then,
}
use mathlib.Core.Path.{subst}
use my_dbg.Debugger.Exceptions.{delete_env, try_catch, dispatch}
use my_dbg.Debugger.Exceptions.Tries.{enter}
use my_dbg.Commands.{
  Cmd, Matched, ambiguous, matched, is_called, pick, exact_loop, prefix_loop, get_command, report,
  run_found, run_command,
}

module _ {P A : Type 0} where
  -- After a return or an exception the list of jump buffers has length `d`.
  abbrev pub Depth : ℕ → Res P A → Type 0
  Depth d (ok a t) = t.envs ≡ d
  Depth d (thrown e t) = t.envs ≡ d
  Depth d (exited t) = Unit
  Depth d fault = Unit
  Depth d out_of_fuel = Unit

  -- The same, and there is no exception.
  abbrev pub Caught : ℕ → Res P A → Type 0
  Caught d (ok a t) = t.envs ≡ d
  Caught d (thrown e t) = ⊥
  Caught d (exited t) = Unit
  Caught d fault = Unit
  Caught d out_of_fuel = Unit

  -- An operation that takes off the jump buffers that it adds
  abbrev pub IsBalanced : M P A → Type 0
  IsBalanced m = (s : Dbg P) → Depth s.envs (m s)

  -- A handler that throws nothing
  abbrev pub IsQuiet : (MyException → M P A) → Type 0
  IsQuiet h = (e : MyException) (s : Dbg P) → Caught s.envs (h e s)

  dispatch-ends :
      (h : MyException → M P A) (d : ℕ) (r : Res P A)
      → IsQuiet h
      → Depth d r
      → Caught d (dispatch 2 h r)
  unfolding dispatch
  dispatch-ends h d (ok a t) q e = e
  dispatch-ends h d (thrown x t) q e = again (h x t) (subst (λ (n : ℕ). Caught n (h x t)) e (q x t))
    where
      again : (r : Res P A) → Caught d r → Caught d (dispatch 1 h r)
      again (ok a u) c = c
      again (thrown y u) c = absurd c
      again (exited u) c = tt
      again fault c = tt
      again out_of_fuel c = tt
  dispatch-ends h d (exited t) q e = tt
  dispatch-ends h d fault q e = tt
  dispatch-ends h d out_of_fuel q e = tt

  close_env :
      (d : ℕ) (r : Res P A) → Caught (d + 1) r → Caught d (and_then r λ a. delete_env >> pure a)
  unfolding delete_env
  close_env d (ok a t) e = let more : (t.envs == 0) ≡ false = ground arith in rw more (omega arith)
  close_env d (thrown x t) e = absurd e
  close_env d (exited t) e = tt
  close_env d fault e = tt
  close_env d out_of_fuel e = tt

  -- A `try` whose body leaves no jump buffer behind and whose handlers throw nothing ends every
  -- exception: it throws nothing, and where it returns the list of jump buffers is as long as before.
  pub try_catch-Caught :
      (body : M P A) (h : MyException → M P A) (s : Dbg P)
      → IsBalanced body
      → IsQuiet h
      → Caught s.envs (try_catch body h s)
  unfolding try_catch
  try_catch-Caught body h s b q =
      close_env s.envs (dispatch 2 h (body (enter s)))
        (dispatch-ends h (s.envs + 1) (body (enter s)) q (b (enter s)))

module _ {P : Type 0} where
  report-IsQuiet : (cmd : Cmd P) → IsQuiet (report cmd)
  unfolding report
  report-IsQuiet cmd MyException.ptrace_exception s = ground arith
  report-IsQuiet cmd MyException.exception s = refl
  report-IsQuiet cmd _ s = refl

  -- What is found is a command of the table.
  abbrev pub OfOption : (Cmd P → Type 0) → Option (Cmd P) → Type 0
  OfOption Q none = Unit
  OfOption Q (some c) = Q c

  abbrev pub OfMatched : (Cmd P → Type 0) → Matched P → Type 0
  OfMatched Q ambiguous = Unit
  OfMatched Q (matched found) = OfOption Q found

  pub exact_loop-All :
      (Q : Cmd P → Type 0) (name : Text) (cmds : List (Cmd P))
      → All Q cmds
      → OfOption Q (exact_loop name cmds)
  unfolding exact_loop
  exact_loop-All Q name [] h = tt
  exact_loop-All Q name (c ∷ cs) (hc, hs) = elim (Bool-cases (is_called name c)) [
    | inl e ↦ rw e hc
    | inr e ↦ rw e (exact_loop-All Q name cs hs)
  ]

  pub prefix_loop-All :
      (Q : Cmd P → Type 0) (name : Text) (found : Option (Cmd P)) (cmds : List (Cmd P))
      → OfOption Q found
      → All Q cmds
      → OfMatched Q (prefix_loop name found cmds)
  unfolding prefix_loop
  prefix_loop-All Q name found [] f h = f
  prefix_loop-All Q name none (c ∷ cs) f (hc, hs) = elim (Bool-cases (starts_with c.name name)) [
    | inl e ↦ rw e (prefix_loop-All Q name (some c) cs hc hs)
    | inr e ↦ rw e (prefix_loop-All Q name none cs tt hs)
  ]
  prefix_loop-All Q name (some x) (c ∷ cs) f (hc, hs) =
      elim (Bool-cases (starts_with c.name name)) [
        | inl e ↦ rw e tt
        | inr e ↦ rw e (prefix_loop-All Q name (some x) cs f hs)
      ]

module _ {P : Type 0} (args : List Text) where
  -- The command takes off the jump buffers that it adds.
  abbrev pub RunsBalanced : Cmd P → Type 0
  RunsBalanced cmd = IsBalanced (cmd.function (length args) args)

  run_found-Caught :
      (found : Option (Cmd P)) (s : Dbg P)
      → OfOption RunsBalanced found
      → Caught s.envs (run_found found args s)
  unfolding run_found
  run_found-Caught none s b = refl
  run_found-Caught (some cmd) s b = elim (Bool-cases (s.pid == 0 && cmd.program_required)) [
    | inl h ↦ rw h refl
    | inr h ↦
        rw h
          (try_catch-Caught (cmd.function (length args) args) (report cmd) s b (report-IsQuiet cmd))
  ]

  pick-then :
      (e : Option (Cmd P)) (m : Matched P) (name : Text) (s : Dbg P)
      → OfOption RunsBalanced e
      → OfMatched RunsBalanced m
      → Caught s.envs (and_then (pick e m name s) λ found. run_found found args)
  unfolding pick
  pick-then (some cmd) m name s he hm = run_found-Caught (some cmd) s he
  pick-then none ambiguous name s he hm = run_found-Caught none _ tt
  pick-then none (matched (some cmd)) name s he hm = run_found-Caught (some cmd) s hm
  pick-then none (matched none) name s he hm = run_found-Caught none _ tt

  -- Whatever the commands of the table throw, and for any name, `run_command` throws nothing: the
  -- main loop goes on, or the debugger exits. Where it returns, no jump buffer is left behind.
  pub run_command-Caught :
      (cmds : List (Cmd P)) (name : Text) (s : Dbg P)
      → All RunsBalanced cmds
      → Caught s.envs (run_command cmds name args s)
  unfolding run_command get_command
  run_command-Caught cmds name s b =
      pick-then (exact_loop name cmds) (prefix_loop name none cmds) name s
        (exact_loop-All RunsBalanced name cmds b) (prefix_loop-All RunsBalanced name none cmds tt b)
