-- ===== src/Registers/Access.antt =====
-- Reading and writing registers.
use my_dbg.Base.{ℕ, ◌≡◌, refl, ◌≢◌, some, ◌∙◌, str_eq}
use my_dbg.Debugger.{MyException, Regs, Kernel, done, failed, Dbg, Res, ok}
use my_dbg.Debugger.Exceptions.{throw}
use my_dbg.Debugger.Tracee.{my_ptrace_getregs, my_ptrace_setregs}
use my_dbg.Registers.{
  Reg, reg_rip, reg_rsp, reg_rbp, reg_eflags, reg_orig_rax, reg_rax, reg_rbx, reg_rcx, reg_rdx,
  reg_rdi, reg_rsi, reg_r8, reg_r9, reg_r10, reg_r11, reg_r12, reg_r13, reg_r14, reg_r15, reg_cs,
  reg_ds, reg_es, reg_fs, reg_gs, reg_ss, reg_fs_base, reg_gs_base, get_register_internal,
  set_register_internal, reg_name, all_regs, find_reg, get_register, set_register,
  get_register_from_name,
}

get_internal-set_self :
    (regs : Regs) (r : Reg) (v : ℕ) → get_register_internal (set_register_internal regs r v) r ≡ v
unfolding get_register_internal set_register_internal
get_internal-set_self regs reg_rip v = refl
get_internal-set_self regs _ v = refl

get_internal-set_ne :
    (regs : Regs) (r q : Reg) (v : ℕ)
    → r ≢ q
    → get_register_internal (set_register_internal regs r v) q ≡ get_register_internal regs q
unfolding get_register_internal set_register_internal
get_internal-set_ne regs reg_rip reg_rip v h = absurd (h refl)
get_internal-set_ne regs reg_rsp reg_rsp v h = absurd (h refl)
get_internal-set_ne regs reg_rbp reg_rbp v h = absurd (h refl)
get_internal-set_ne regs reg_eflags reg_eflags v h = absurd (h refl)
get_internal-set_ne regs reg_orig_rax reg_orig_rax v h = absurd (h refl)
get_internal-set_ne regs reg_rax reg_rax v h = absurd (h refl)
get_internal-set_ne regs reg_rbx reg_rbx v h = absurd (h refl)
get_internal-set_ne regs reg_rcx reg_rcx v h = absurd (h refl)
get_internal-set_ne regs reg_rdx reg_rdx v h = absurd (h refl)
get_internal-set_ne regs reg_rdi reg_rdi v h = absurd (h refl)
get_internal-set_ne regs reg_rsi reg_rsi v h = absurd (h refl)
get_internal-set_ne regs reg_r8 reg_r8 v h = absurd (h refl)
get_internal-set_ne regs reg_r9 reg_r9 v h = absurd (h refl)
get_internal-set_ne regs reg_r10 reg_r10 v h = absurd (h refl)
get_internal-set_ne regs reg_r11 reg_r11 v h = absurd (h refl)
get_internal-set_ne regs reg_r12 reg_r12 v h = absurd (h refl)
get_internal-set_ne regs reg_r13 reg_r13 v h = absurd (h refl)
get_internal-set_ne regs reg_r14 reg_r14 v h = absurd (h refl)
get_internal-set_ne regs reg_r15 reg_r15 v h = absurd (h refl)
get_internal-set_ne regs reg_cs reg_cs v h = absurd (h refl)
get_internal-set_ne regs reg_ds reg_ds v h = absurd (h refl)
get_internal-set_ne regs reg_es reg_es v h = absurd (h refl)
get_internal-set_ne regs reg_fs reg_fs v h = absurd (h refl)
get_internal-set_ne regs reg_gs reg_gs v h = absurd (h refl)
get_internal-set_ne regs reg_ss reg_ss v h = absurd (h refl)
get_internal-set_ne regs reg_fs_base reg_fs_base v h = absurd (h refl)
get_internal-set_ne regs reg_gs_base reg_gs_base v h = absurd (h refl)
get_internal-set_ne regs _ _ v h = refl

find_reg-reg_name : (r : Reg) → find_reg (reg_name r) all_regs ≡ some r
unfolding find_reg reg_name str_eq
find_reg-reg_name reg_rip = refl
find_reg-reg_name _ = refl

module _ {P : Type 0} ⦃k : Kernel P⦄ where
  -- Every register can be named in an address: its name reads the register itself.
  pub get_register_from_name-reg_name :
      (r : Reg) (s : Dbg P) → get_register_from_name (reg_name r) s ≡ get_register r s
  unfolding get_register_from_name
  get_register_from_name-reg_name r s = rw (find_reg-reg_name r, get_register_from_name)

  pub get_register-ok :
      (r : Reg) (regs : Regs) (s : Dbg P)
      → k.get_regs s.pid s.process ≡ done regs
      → get_register r s ≡ ok (get_register_internal regs r) s
  unfolding get_register my_ptrace_getregs
  get_register-ok r regs s e = rw (e, my_ptrace_getregs)

  -- What `set_register` does where the registers are `regs`: they are handed to PTRACE_SETREGS with one
  -- of them changed. The kernel takes them or not.
  abbrev pub handed : Regs → Dbg P → Res P (Unit {0})
  handed regs s = elim (k.set_regs s.pid regs s.process) [
    | done p ↦ ok tt (record s { process = p })
    | failed e ↦ throw MyException.ptrace_exception (record s { errno = e })
  ]

  -- Where the registers can be read, `set_register` hands them to PTRACE_SETREGS with the new value in
  -- the register and each other one, which its name reads, as it was. It returns with the process
  -- that PTRACE_SETREGS leaves, and throws if that refuses.
  pub set_register-get_register :
      (r q : Reg) (v : ℕ) (regs : Regs) (s : Dbg P)
      → r ≢ q
      → k.get_regs s.pid s.process ≡ done regs
      → (new : Regs) × (set_register r v s ≡ handed new s)
        × (get_register_internal new r ≡ v)
        × (get_register_from_name (reg_name q) s ≡ ok (get_register_internal new q) s)
  unfolding set_register my_ptrace_getregs my_ptrace_setregs
  set_register-get_register r q v regs s ne e = (
    set_register_internal regs r v,
    rw (e, my_ptrace_getregs) refl,
    get_internal-set_self regs r v,
    get_register_from_name-reg_name q s
        ∙ get_register-ok q regs s e
        ∙ rw (get_internal-set_ne regs r q v ne) refl,
  )
