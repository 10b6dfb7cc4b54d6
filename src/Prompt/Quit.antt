-- ===== src/Prompt/Quit.antt =====
-- How the main loop ends.
use my_dbg.Base.{
  ap, ◌∙◌, ℕ, ◌≡◌, refl, sym, true, false, List, [], ◌∷◌, ◌++◌, Text, All, Bool-cases, inl, inr,
  if◌then◌else◌,
}
use my_dbg.Debugger.{Dbg, Res, ok, thrown, exited, fault, out_of_fuel, M, pure, and_then}
use mathlib.Core.Path.{subst}
use my_dbg.Commands.{Cmd}
use my_dbg.Commands.Run.{Caught, RunsBalanced, run_command-Caught}
use my_dbg.Prompt.{run_tokens, main_loop}

module _ {P : Type 0} where
  ok_state : {s t : Dbg P} → pure {A = Unit {0}} tt s ≡ pure tt t → s ≡ t
  ok_state e = cc

  -- A continuation that does what another one does
  and_then_lem :
      (r : Res P (Unit {0})) (f g : M P (Unit {0})) (t : Dbg P)
      → ((u : Dbg P) → f u ≡ ok tt t → g u ≡ ok tt t)
      → and_then r (λ _. f) ≡ ok tt t
      → and_then r (λ _. g) ≡ ok tt t
  and_then_lem (ok a u) f g t h e = h u e
  and_then_lem (thrown x u) f g t h e = cc
  and_then_lem (exited u) f g t h e = cc
  and_then_lem fault f g t h e = cc
  and_then_lem out_of_fuel f g t h e = cc

  -- A continuation throws nothing either.
  Caught-and_then :
      (d : ℕ) (r : Res P (Unit {0})) (f : M P (Unit {0}))
      → Caught d r
      → ((u : Dbg P) → Caught u.envs (f u))
      → Caught d (and_then r (λ _. f))
  Caught-and_then d (ok a u) f c h = subst (λ (n : ℕ). Caught n (f u)) c (h u)
  Caught-and_then d (thrown x u) f c h = absurd c
  Caught-and_then d (exited u) f c h = tt
  Caught-and_then d fault f c h = tt
  Caught-and_then d out_of_fuel f c h = tt

module _ {P : Type 0} (cmds : List (Cmd P)) (history_tokenize : Text → List Text) where
  pub main_loop_end : (s : Dbg P) → main_loop cmds history_tokenize [] s ≡ ok tt s
  unfolding main_loop
  main_loop_end s = refl

  -- Once the flag is set, no line is run.
  pub main_loop-quit_set :
      (inputs : List Text) (t : Dbg P)
      → t.quit ≡ true
      → main_loop cmds history_tokenize inputs t ≡ ok tt t
  unfolding main_loop
  main_loop-quit_set [] t q = refl
  main_loop-quit_set (str ∷ inputs) t q = rw (q, main_loop) refl

  pub main_loop_step :
      (str : Text) (inputs : List Text) (s : Dbg P)
      → s.quit ≡ false
      → main_loop cmds history_tokenize (str ∷ inputs) s
        ≡ and_then
            (run_tokens cmds history_tokenize (history_tokenize str) s)
            (λ _. main_loop cmds history_tokenize inputs)
  unfolding main_loop
  main_loop_step str inputs s going =
      ap
        (λ b.
          if b
          then ok tt s
          else and_then (run_tokens cmds history_tokenize (history_tokenize str) s)
              (λ _. main_loop cmds history_tokenize inputs))
        going

  -- Where some lines leave `g_quit` set, the main loop ends with them: whatever lines follow, none of
  -- them is run.
  pub main_loop-quit :
      (before after : List Text) (s t : Dbg P)
      → main_loop cmds history_tokenize before s ≡ ok tt t
      → t.quit ≡ true
      → main_loop cmds history_tokenize (before ++ after) s ≡ ok tt t
  main_loop-quit [] after s t e q =
      subst (λ (u : Dbg P). main_loop cmds history_tokenize after u ≡ ok tt t)
        (sym (ok_state (sym (main_loop_end s) ∙ e))) (main_loop-quit_set after t q)
  main_loop-quit (str ∷ before) after s t e q = elim (Bool-cases s.quit) [
    | inl quit ↦
        main_loop-quit_set (str ∷ (before ++ after)) s quit
        ∙ (sym (main_loop-quit_set (str ∷ before) s quit) ∙ e)
    | inr going ↦
        main_loop_step str (before ++ after) s going
        ∙ and_then_lem (run_tokens cmds history_tokenize (history_tokenize str) s)
            (main_loop cmds history_tokenize before)
            (main_loop cmds history_tokenize (before ++ after)) t
            (λ u f. main_loop-quit before after u t f q)
            (sym (main_loop_step str before s going) ∙ e)
  ]

  run_tokens-Caught :
      (tokens : List Text) (s : Dbg P)
      → ((args : List Text) → All (RunsBalanced args) cmds)
      → Caught s.envs (run_tokens cmds history_tokenize tokens s)
  unfolding run_tokens
  run_tokens-Caught [] s b = refl
  run_tokens-Caught (name ∷ args) s b =
      run_command-Caught (name ∷ args) cmds name s (b (name ∷ args))

  -- If the commands take off the jump buffers that they add, whatever they are called with, the main
  -- loop throws nothing on any lines, and where it ends no jump buffer is left behind.
  pub main_loop-Caught :
      (inputs : List Text) (s : Dbg P)
      → ((args : List Text) → All (RunsBalanced args) cmds)
      → Caught s.envs (main_loop cmds history_tokenize inputs s)
  main_loop-Caught [] s b = subst (Caught s.envs) (sym (main_loop_end s)) refl
  main_loop-Caught (str ∷ inputs) s b = elim (Bool-cases s.quit) [
    | inl quit ↦ subst (Caught s.envs) (sym (main_loop-quit_set (str ∷ inputs) s quit)) refl
    | inr going ↦ subst (Caught s.envs) (sym (main_loop_step str inputs s going)) (
        Caught-and_then s.envs _ _ (run_tokens-Caught (history_tokenize str) s b)
          (λ u. main_loop-Caught inputs u b))
  ]
