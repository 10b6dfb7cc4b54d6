-- ===== src/Commands/Attach/Outcome.antt =====
-- How `attach_process` of src/commands/cmd_attach.c ends.
use my_dbg.Base.{
  ℕ, ◌<◌, ◌≡◌, refl, not, ◌||◌, Bool, true, false, none, some, ◌==◌, Bool-cases, inl, inr, arith,
}
use my_dbg.Debugger.{
  MyException, Request, Kernel, Reply-cases, done, failed, Dbg, Res, ok, thrown, M,
}
use my_dbg.Debugger.Exceptions.Tries.{enter, throw-thrown, try_returns, try_caught}
use my_dbg.Debugger.Tracee.{my_ptrace, my_wait}
use my_dbg.Control.{if_stopped, stop_sig}
use my_dbg.Commands.Attach.{
  sigstop, exit_kill, g_options, keep_exception, finish_attach, seize, attach_process,
}

-- The status is not that of a stop by SIGSTOP.
abbrev pub is_other : ℕ → Bool
is_other status = not (if_stopped status) || not (stop_sig status == sigstop)

-- What the calls answer, in their order, and how `attach_process` then ends: the next call is made on
-- the process that the call before it leaves, and an exception leaves no process attached.
pub data Outcome {P : Type 0} (k : Kernel P) (setup_modules : M P (Unit {0})) (pid : ℕ) (s : Dbg P)
    : Res P (Unit {0}) → Type 0 where
  attached :
      (w status x : ℕ) (p q r : P)
      → k.ptrace Request.attach pid 0 0 s.process ≡ done (w, p)
      → k.wait pid p ≡ done (status, q)
      → is_other status ≡ false
      → k.ptrace exit_kill pid 0 g_options q ≡ done (x, r)
      → Outcome k setup_modules pid s (setup_modules (record s { pid = pid; process = r }))
  not_attached :
      (e : ℕ)
      → k.ptrace Request.attach pid 0 0 s.process ≡ failed e
      → Outcome k setup_modules pid s
          (thrown MyException.ptrace_exception (record s { pid = 0; errno = e }))
  not_waited :
      (w e : ℕ) (p : P)
      → k.ptrace Request.attach pid 0 0 s.process ≡ done (w, p)
      → k.wait pid p ≡ failed e
      → Outcome k setup_modules pid s
          (thrown MyException.wait_exception (record s { pid = 0; process = p; errno = e }))
  other_status :
      (w status : ℕ) (p q : P)
      → k.ptrace Request.attach pid 0 0 s.process ≡ done (w, p)
      → k.wait pid p ≡ done (status, q)
      → is_other status ≡ true
      → Outcome k setup_modules pid s
          (thrown MyException.wait_exception (record s { pid = 0; process = q }))
  no_options :
      (w status e : ℕ) (p q : P)
      → k.ptrace Request.attach pid 0 0 s.process ≡ done (w, p)
      → k.wait pid p ≡ done (status, q)
      → is_other status ≡ false
      → k.ptrace exit_kill pid 0 g_options q ≡ failed e
      → Outcome k setup_modules pid s
          (thrown MyException.ptrace_exception (record s { pid = 0; process = q; errno = e }))

module _ {P : Type 0} ⦃k : Kernel P⦄ (setup_modules : M P (Unit {0})) (pid : ℕ) (s : Dbg P) where
  abbrev called : Dbg P
  called = record s { pid = pid }

  goes_on :
      (t : Dbg P)
      → seize (enter called) ≡ ok none (enter t)
      → attach_process setup_modules pid s ≡ setup_modules t
  unfolding attach_process finish_attach
  goes_on t e = rw (try_returns seize keep_exception called t none e) refl

  -- The exception is thrown again behind the `try`, with no process.
  gives_up :
      (x : MyException) (t : Dbg P)
      → 0 < t.envs
      → keep_exception x (enter t) ≡ ok (some x) (enter t)
      → seize (enter called) ≡ thrown x (enter t)
      → attach_process setup_modules pid s ≡ thrown x (record t { pid = 0 })
  unfolding attach_process finish_attach
  gives_up x t pos keep e =
      rw (try_caught seize keep_exception called t (some x) x (enter t) e keep)
        (throw-thrown {A = Unit {0}} x (record t { pid = 0 }) pos)

  seize-not_attached :
      (e : ℕ)
      → k.ptrace Request.attach pid 0 0 s.process ≡ failed e
      → seize (enter called)
        ≡ thrown MyException.ptrace_exception (enter (record called { errno = e }))
  unfolding seize my_ptrace my_wait
  seize-not_attached e refused =
      rw (refused, my_ptrace)
        (rw (
          throw-thrown {A = ℕ} MyException.ptrace_exception (enter (record called { errno = e }))
            (omega arith)))

  seize-not_waited :
      (w e : ℕ) (p : P)
      → k.ptrace Request.attach pid 0 0 s.process ≡ done (w, p)
      → k.wait pid p ≡ failed e
      → seize (enter called)
        ≡ thrown MyException.wait_exception (enter (record called { process = p; errno = e }))
  unfolding seize my_ptrace my_wait
  seize-not_waited w e p taken refused =
      rw (taken, my_ptrace)
        (rw (refused, my_wait)
          (rw (
            throw-thrown {A = ℕ} MyException.wait_exception
              (enter (record called { process = p; errno = e })) (omega arith))))

  module _ (w status : ℕ) (p q : P)
      (taken : k.ptrace Request.attach pid 0 0 s.process ≡ done (w, p))
      (waited : k.wait pid p ≡ done (status, q)) where
    seize-other_status :
        is_other status ≡ true
        → seize (enter called)
          ≡ thrown MyException.wait_exception (enter (record called { process = q }))
    unfolding seize my_ptrace my_wait
    seize-other_status other =
        rw (taken, my_ptrace)
          (rw (waited, my_wait)
            (rw other (
              throw-thrown MyException.wait_exception (enter (record called { process = q }))
                (omega arith))))

    seize-no_options :
        (e : ℕ)
        → is_other status ≡ false
        → k.ptrace exit_kill pid 0 g_options q ≡ failed e
        → seize (enter called)
          ≡ thrown MyException.ptrace_exception (enter (record called { process = q; errno = e }))
    unfolding seize my_ptrace my_wait
    seize-no_options e stop refused =
        rw (taken, my_ptrace)
          (rw (waited, my_wait)
            (rw stop (
              rw (refused, my_ptrace)
                (rw (
                  throw-thrown {A = ℕ} MyException.ptrace_exception
                    (enter (record called { process = q; errno = e })) (omega arith))))))

    seize-attached :
        (x : ℕ) (r : P)
        → is_other status ≡ false
        → k.ptrace exit_kill pid 0 g_options q ≡ done (x, r)
        → seize (enter called) ≡ ok none (enter (record called { process = r }))
    unfolding seize my_ptrace my_wait
    seize-attached x r stop set_it =
        rw (taken, my_ptrace) (rw (waited, my_wait) (rw stop (rw (set_it, my_ptrace))))

    waited-Outcome : 0 < s.envs → Outcome k setup_modules pid s (attach_process setup_modules pid s)
    unfolding keep_exception
    waited-Outcome pos = elim (Bool-cases (is_other status)) [
      | inl other ↦
          rw
            (gives_up MyException.wait_exception (record called { process = q }) pos refl
              (seize-other_status other))
            (other_status w status p q taken waited other)
      | inr stop ↦ elim (Reply-cases (k.ptrace exit_kill pid 0 g_options q)) [
        | inr (e, refused) ↦
            rw
              (gives_up MyException.ptrace_exception (record called { process = q; errno = e }) pos
                refl (seize-no_options e stop refused))
              (no_options w status e p q taken waited stop refused)
        | inl ((x, r), set_it) ↦
            rw (goes_on (record called { process = r }) (seize-attached x r stop set_it))
              (attached w status x p q r taken waited stop set_it)
      ]
    ]

  -- Called inside a `try`, `attach_process` ends in one of five ways. If PTRACE_ATTACH, the wait and
  -- the setting of the options go well and the process has stopped by SIGSTOP, it goes on to
  -- `setup_modules` with that process attached. If a call of ptrace or the wait fails, or the status is
  -- another one, it makes no further call and throws, with no process attached. In each case the jump
  -- buffers are those of before, and no other part of the state is changed but the tracee, and errno by
  -- a call that fails.
  pub attach_process-Outcome :
      0 < s.envs → Outcome k setup_modules pid s (attach_process setup_modules pid s)
  unfolding keep_exception
  attach_process-Outcome pos = elim (Reply-cases (k.ptrace Request.attach pid 0 0 s.process)) [
    | inr (e, refused) ↦
        rw
          (gives_up MyException.ptrace_exception (record called { errno = e }) pos refl
            (seize-not_attached e refused))
          (not_attached e refused)
    | inl ((w, p), taken) ↦ elim (Reply-cases (k.wait pid p)) [
      | inr (e, refused) ↦
          rw
            (gives_up MyException.wait_exception (record called { process = p; errno = e }) pos refl
              (seize-not_waited w e p taken refused))
            (not_waited w e p taken refused)
      | inl ((status, q), waited) ↦ waited-Outcome w status p q taken waited pos
    ]
  ]
