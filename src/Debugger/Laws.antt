-- ===== src/Debugger/Laws.antt =====
-- What the development relies on of the operating system: the behaviour that ptrace(2) documents.
use my_dbg.Base.{ℕ, ◌^◌, ◌≤◌, ◌<◌, ◌≡◌, Bool, true}
use my_dbg.Debugger.State.{Regs, Request, Kernel, done}

-- PTRACE_PEEKDATA reads a word and changes nothing, PTRACE_POKEDATA writes the word that later
-- reads at its address find, and a word that can be read can be written.
pub record HasMemory {P : Type 0} (k : Kernel P) : Type 0 where
  pub peek_same :
      (pid a x w : ℕ) (p q : P)
      → k.ptrace Request.peek_data pid a x p ≡ done (w, q)
      → (q ≡ p) × (w < 2 ^ 64)
  pub poke_done :
      (pid a w x : ℕ) (p q : P)
      → k.ptrace Request.peek_data pid a 0 p ≡ done (x, q)
      → (r : ℕ) × (t : P) × (k.ptrace Request.poke_data pid a w p ≡ done (r, t))
  pub peek-poke :
      (pid a w r : ℕ) (p q : P)
      → w < 2 ^ 64
      → k.ptrace Request.poke_data pid a w p ≡ done (r, q)
      → k.ptrace Request.peek_data pid a 0 q ≡ done (w, q)

-- The tracee makes finitely many system calls: `left` counts the stops at a system call that may
-- still come. A wait that reports one takes it off the count, and no request of the debugger adds
-- to it.
pub record StopsIn {P : Type 0} (k : Kernel P) (at_syscall : ℕ → Bool) (left : P → ℕ) : Type 0 where
  pub wait_left : (pid status : ℕ) (p q : P) → k.wait pid p ≡ done (status, q) → left q ≤ left p
  pub wait_takes :
      (pid status : ℕ) (p q : P)
      → k.wait pid p ≡ done (status, q)
      → at_syscall status ≡ true
      → left q < left p
  pub ptrace_left :
      (r : Request) (pid a w x : ℕ) (p q : P) → k.ptrace r pid a w p ≡ done (x, q) → left q ≤ left p
  pub set_left : (pid : ℕ) (r : Regs) (p q : P) → k.set_regs pid r p ≡ done q → left q ≤ left p
