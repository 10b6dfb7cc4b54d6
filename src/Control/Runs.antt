-- ===== src/Control/Runs.antt =====
-- What running the tracee may change in the debugger, and the operations on breakpoints, registers
-- and the tracee that change no more.
use my_dbg.Base.{
  ℕ, zero, suc, ◌≡◌, refl, sym, ap, ◌∙◌, Bool, true, false, not, ◌&&◌, List, [], ◌∷◌, ◌++◌, some,
  map, arith, get_elem?, set, Bool-cases, Option-cases, inl, inr, ◌==◌,
}
use mathlib.Core.List.{append-nil, append_assoc}
use my_dbg.Debugger.{MyException, Bp, Dbg, Line, M, pure, modify, print, and_then}
use my_dbg.Debugger.Ends.{Ends, Within, IsPreorder}
use my_dbg.Debugger.Exceptions.{throw}
use my_dbg.Breakpoints.{get_breakpoint, load_bp}
use my_dbg.Syscalls.{in_syscalls}

-- A breakpoint but for its `enabled`
abbrev pub sealed : Bp → Bp
sealed bp = record bp { enabled = true }

-- The process, the system calls that are watched and the depth of jump buffers stay; breakpoints
-- are neither added nor removed, and only their `enabled` may change; output is only
-- appended, and `g_quit` is not reset.
pub record Runs {P : Type 0} (s t : Dbg P) : Type 0 where
  pub pid : t.pid ≡ s.pid
  pub syscalls : t.syscalls ≡ s.syscalls
  pub envs : t.envs ≡ s.envs
  pub table : map sealed t.breakpoints ≡ map sealed s.breakpoints
  pub printed : (new : List Line) × (t.out ≡ s.out ++ new)
  pub quit : (s.quit && not t.quit) ≡ false

-- What is set stays set, and from one state on to the next.
stays_refl : (a : Bool) → (a && not a) ≡ false
stays_refl a = ground arith

pub stays : (a b c : Bool) → (a && not b) ≡ false → (b && not c) ≡ false → (a && not c) ≡ false
stays a b c p q = ground arith

pub map-sealed-set :
    (bps : List Bp) (i : ℕ) (bp : Bp) (b : Bool)
    → get_elem? bps i ≡ some bp
    → map sealed (set bps i (record bp { enabled = b })) ≡ map sealed bps
map-sealed-set [] i bp b e = refl
map-sealed-set (x ∷ xs) zero bp b e = ground arith
map-sealed-set (x ∷ xs) (suc i) bp b e = ap (◌∷◌ (sealed x)) (map-sealed-set xs i bp b e)

module _ {P : Type 0} where
  pub Runs-preorder : IsPreorder (Runs {P = P})
  Runs-preorder = record {
    same = λ s. record {
      pid = refl;
      syscalls = refl;
      envs = refl;
      table = refl;
      printed = ([], sym (append-nil s.out));
      quit = stays_refl s.quit;
    };
    chain = λ s t u a b. record {
      pid = b.pid ∙ a.pid;
      syscalls = b.syscalls ∙ a.syscalls;
      envs = b.envs ∙ a.envs;
      table = b.table ∙ a.table;
      printed = (
        a.printed.0 ++ b.printed.0,
        b.printed.1
            ∙ ap (λ o. o ++ b.printed.0) a.printed.1
            ∙ append_assoc s.out a.printed.0 b.printed.0,
      );
      quit = stays s.quit t.quit u.quit a.quit b.quit;
    };
  }

  -- A change of the other fields
  pub Runs-quiet :
      (s t : Dbg P)
      → t.pid ≡ s.pid
      → t.syscalls ≡ s.syscalls
      → t.envs ≡ s.envs
      → t.breakpoints ≡ s.breakpoints
      → t.out ≡ s.out
      → t.quit ≡ s.quit
      → Runs s t
  Runs-quiet s t a b c d e q = record {
    pid = a;
    syscalls = b;
    envs = c;
    table = ap (map sealed) d;
    printed = ([], e ∙ sym (append-nil s.out));
    quit = rw q (stays_refl s.quit);
  }

  pub Within-pure : {A : Type 0} (a : A) → Within Runs (pure {P = P} a)
  Within-pure a s = Runs-preorder.same s

  pub Within-throw : (A : Type 0) (e : MyException) → Within Runs (throw {P = P} {A = A} e)
  unfolding throw
  Within-throw A e s = elim (Bool-cases (s.envs == 0)) [
    | inl h ↦ rw h (Runs-preorder.same s)
    | inr h ↦ rw h (Runs-preorder.same s)
  ]

  -- The same after a change that `Runs` allows, and before whatever would follow
  pub throw_after :
      (A B : Type 0) (e : MyException) (s t : Dbg P) (f : A → M P B)
      → Runs s t
      → Ends (λ (_ : B) u. Runs s u) (Runs s) (and_then (throw e t) f)
  unfolding throw
  throw_after A B e s t f r = elim (Bool-cases (t.envs == 0)) [ inl h ↦ rw h r | inr h ↦ rw h r ]

  pub throw_last :
      (A : Type 0) (e : MyException) (s t : Dbg P)
      → Runs s t
      → Ends (λ (_ : A) u. Runs s u) (Runs s) (throw e t)
  unfolding throw
  throw_last A e s t r = elim (Bool-cases (t.envs == 0)) [ inl h ↦ rw h r | inr h ↦ rw h r ]

  pub Within-print : (l : Line) → Within Runs (print {P = P} l)
  Within-print l s = record {
    pid = refl;
    syscalls = refl;
    envs = refl;
    table = refl;
    printed = (l ∷ [], refl);
    quit = stays_refl s.quit;
  }

  -- A `modify` of the fields that `Runs` does not speak of
  pub Within-quiet :
      (f : Dbg P → Dbg P) → ((s : Dbg P) → Runs s (f s)) → Within Runs (modify {P = P} f)
  Within-quiet f h s = h s

  pub Within-load_bp : (i : ℕ) → Within Runs (load_bp {P = P} i)
  unfolding load_bp
  Within-load_bp i s = elim (Option-cases (get_elem? s.breakpoints i)) [
    | inl e ↦ rw (e, load_bp) tt
    | inr (bp, e) ↦ rw (e, load_bp) (Runs-preorder.same s)
  ]

  pub Within-get_breakpoint : (addr : ℕ) → Within Runs (get_breakpoint {P = P} addr)
  unfolding get_breakpoint
  Within-get_breakpoint addr s = Runs-preorder.same s

  pub Within-in_syscalls : (n : ℕ) → Within Runs (in_syscalls {P = P} n)
  unfolding in_syscalls
  Within-in_syscalls n s = Runs-preorder.same s
