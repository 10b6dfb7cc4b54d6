-- ===== src/Tests/Toy.antt =====
-- A process with a memory of words that do not overlap, registers, and the statuses still to come.
use mathlib.Core.Path.{subst}
use my_dbg.Base.{
  ap, sym, ==_refl, ℕ, ◌+◌, ◌%◌, ◌^◌, ◌≤◌, ◌≡◌, refl, true, false, List, [], ◌∷◌, Text, arith, ◌==◌,
  if◌then◌else◌, str_eq, codes,
}
use my_dbg.Debugger.{Regs, Request, Reply, done, failed, Kernel, Dbg, Flags}
use my_dbg.Debugger.Laws.{HasMemory, StopsIn}
use my_dbg.Control.Fuel.{at_syscall}

pub record Toy : Type 0 where
  pub memory : ℕ → ℕ
  pub regs : Regs
  pub stops : List ℕ

unfoldable pub toy_ptrace : Request → (pid addr word : ℕ) → Toy → Reply (ℕ × Toy)
toy_ptrace Request.peek_data pid addr word p = done (p.memory addr % 2 ^ 64, p)
toy_ptrace Request.poke_data pid addr word p =
    done (0, record p { memory = λ a. if a == addr then word else p.memory a })
toy_ptrace _ pid addr word p = done (0, p)

abbrev gives : ℕ → Toy → Reply (ℕ × Toy)
gives w p = done (w, p)

unfoldable pub next_stop : List ℕ → Toy → Reply (ℕ × Toy)
next_stop [] p = failed 10
next_stop (status ∷ rest) p = gives status (record p { stops = rest })

-- The number of a name is 0 for `read` and else 1.
unfoldable pub toy_number : Text → ℕ
toy_number name = if str_eq name (codes "read") then 0 else 1

abbrev pub toy : Kernel Toy
toy = record {
  ptrace = toy_ptrace;
  get_regs = λ pid p. done p.regs;
  set_regs = λ pid r p. done (record p { regs = r });
  wait = λ pid p. next_stop p.stops p;
  number = toy_number;
}

-- The stops at system calls to come
unfoldable pub calls_left : List ℕ → ℕ
calls_left [] = 0
calls_left (status ∷ rest) = (if at_syscall status then 1 else 0) + calls_left rest

done_inj : {A : Type 0} {a b : A} → done a ≡ done b → a ≡ b
done_inj e = cc

-- What a reply that is known says of the value and of the process
value : {w v : ℕ} {p q : Toy} → gives w p ≡ gives v q → w ≡ v
value e = ap (λ (r : ℕ × Toy). r.0) (done_inj e)

process_of : {w v : ℕ} {p q : Toy} → gives w p ≡ gives v q → p ≡ q
process_of e = ap (λ (r : ℕ × Toy). r.1) (done_inj e)

pub toy-HasMemory : HasMemory toy
unfolding toy_ptrace
toy-HasMemory = record {
  peek_same = λ pid a x w p q e.
      let v : p.memory a % 2 ^ 64 ≡ w = value e in (sym (process_of e), omega (arith, v));
  poke_done = λ pid a w x p q e. (0, _, refl);
  peek-poke = λ pid a w r p q h e.
      let same : (a == a) ≡ true = ==_refl a in
      let word : w % 2 ^ 64 ≡ w = omega (arith, h) in
      subst (λ (t : Toy). toy_ptrace Request.peek_data pid a 0 t ≡ done (w, t)) (process_of e)
        (rw (same, word));
}

wait_lem :
    (stops : List ℕ) (p q : Toy) (status : ℕ)
    → next_stop stops p ≡ gives status q
    → calls_left stops ≡ (if at_syscall status then 1 else 0) + calls_left q.stops
unfolding next_stop calls_left
wait_lem [] p q status e = cc
wait_lem (x ∷ xs) p q status e =
    let at_x : x ≡ status = value e in
    let rest = ap (λ (t : Toy). calls_left t.stops) (process_of e) in rw (at_x, rest)

ptrace_lem :
    (r : Request) (pid a w x : ℕ) (p q : Toy)
    → toy_ptrace r pid a w p ≡ done (x, q)
    → calls_left q.stops ≤ calls_left p.stops
unfolding toy_ptrace
ptrace_lem Request.peek_data pid a w x p q e =
    let same = ap (λ (t : Toy). calls_left t.stops) (process_of e) in omega (arith, same)
ptrace_lem Request.poke_data pid a w x p q e =
    let same = ap (λ (t : Toy). calls_left t.stops) (process_of e) in omega (arith, same)
ptrace_lem _ pid a w x p q e =
    let same = ap (λ (t : Toy). calls_left t.stops) (process_of e) in omega (arith, same)

pub toy-StopsIn : StopsIn toy at_syscall (λ p. calls_left p.stops)
toy-StopsIn = record {
  wait_left = λ pid status p q e. omega (arith, wait_lem p.stops p q status e);
  wait_takes = λ pid status p q e h.
      let more : calls_left p.stops ≡ 1 + calls_left q.stops =
        rw h at (wait_lem p.stops p q status e) in
      omega (arith, more);
  ptrace_left = ptrace_lem;
  set_left = λ pid r p q e.
      let same : calls_left q.stops ≡ calls_left p.stops =
        ap (λ (t : Toy). calls_left t.stops) (sym (done_inj e)) in
      omega (arith, same);
}

abbrev pub zero_regs : Regs
zero_regs = record {
  rip = 0x1001;
  rsp = 0;
  rbp = 0;
  eflags = 0;
  orig_rax = 0;
  rax = 0;
  rbx = 0;
  rcx = 0;
  rdx = 0;
  rdi = 0;
  rsi = 0;
  r8 = 0;
  r9 = 0;
  r10 = 0;
  r11 = 0;
  r12 = 0;
  r13 = 0;
  r14 = 0;
  r15 = 0;
  cs = 0;
  ds = 0;
  es = 0;
  fs = 0;
  gs = 0;
  ss = 0;
  fs_base = 0;
  gs_base = 0;
}

abbrev pub code_word : ℕ
code_word = 0x1122_3344_5566_7788

-- A tracee with the same code word everywhere that will report two stops at a system call and then
-- exits with status 0
abbrev pub process : Toy
process = record { memory = λ a. code_word; regs = zero_regs; stops = 0x857f ∷ 0x857f ∷ 0 ∷ [] }

abbrev pub start : Dbg Toy
start = record {
  process = process;
  pid = 42;
  quit = false;
  breakpoints = [];
  syscalls = [];
  signum = 0;
  syscall_entry = false;
  envs = 1;
  errno = 0;
  out = [];
}

abbrev pub plain_flags : Flags
plain_flags = record { temp = false; internal = false; syscall = false }
