-- ===== src/Elf/Lookup/Closing.antt =====
-- The exceptions of `get_address`.
use my_dbg.Base.{
  ◌⊎◌, Text, ap, ℕ, ◌+◌, ◌-◌, ◌<◌, ◌≡◌, refl, ◌∙◌, Option, none, some, arith, Bool-cases, inl, inr,
}
use my_dbg.Debugger.{MyException, Dbg, ok, thrown, M}
use my_dbg.Debugger.Exceptions.{catch_only}
use my_dbg.Debugger.Exceptions.Tries.{enter, leave, throw-thrown, try_catch-ok, try_catch-thrown}
use my_dbg.Memory.{Memory}
use my_dbg.Elf.{MyElf}
use my_dbg.Elf.Tracee.{Files}
use my_dbg.Elf.Lookup.{
  open_elf, close_elf, Found, searched, first_of, search_elf, close_found, deliver, look_up,
  get_address, get_address_internal,
}

module _ {P : Type 0} where
  -- Two jump buffers less are one less and one more and one less.
  leave-enter : (u : Dbg P) → leave (enter u) ≡ u
  leave-enter u =
      let same : u.envs + 1 - 1 ≡ u.envs = omega arith in ap (λ n. record u { envs = n }) same

module _ {P : Type 0} ⦃files : Files P⦄ ⦃mem : Memory P⦄ where
  close_elf-cases :
      (elf : Option MyElf) (s : Dbg P)
      → 0 < s.envs
      → (close_elf elf s ≡ ok tt s) ⊎ (close_elf elf s ≡ thrown MyException.io_exception s)
  unfolding close_elf
  close_elf-cases none s deep = inl refl
  close_elf-cases (some elf) s deep = elim (Bool-cases (files.exe_unmaps s.pid s.process)) [
    | inl closed ↦ inl (rw closed refl)
    | inr stuck ↦ inr (rw stuck (throw-thrown MyException.io_exception s deep))
  ]

  -- An exception from before is what is left.
  close_found_lem :
      (f : Found) (e : MyException) (s : Dbg P) → f.my_ex ≡ some e → close_found f s ≡ ok (some e) s
  unfolding close_found catch_only first_of
  close_found_lem f e s before = elim (close_elf-cases f.my_elf (enter s) (omega arith)) [
    | inl closed ↦
        try_catch-ok _ _ s (enter s) (some e) (rw (closed, before) refl) (omega arith)
        ∙ ap (ok (some e)) (leave-enter s)
    | inr failed ↦
        try_catch-thrown _ _ s (enter s) (enter s) MyException.io_exception (some e)
          (rw failed refl) (rw before refl) (omega arith)
        ∙ ap (ok (some e)) (leave-enter s)
  ]

  -- Inside a `try`, an exception of the search in the open file is the one that `get_address` ends
  -- with, whether the file can then be closed or not, and the jump buffer of its `try` is gone.
  look_up-thrown :
      (internal : MyElf → M P ℕ) (s t u : Dbg P) (elf : MyElf) (e : MyException)
      → open_elf (enter s) ≡ ok elf t
      → internal elf t ≡ thrown e u
      → 1 < u.envs
      → look_up internal s ≡ thrown e (leave u)
  unfolding look_up search_elf searched deliver
  look_up-thrown internal s t u elf e opened failed deep =
      let found : Found = record { my_elf = some elf; my_ex = some e; addr = 0 } in
      let first : search_elf internal s ≡ ok found (leave u) =
        try_catch-ok _ _ s u found (rw (opened, failed) refl) (omega arith) in
      let second : close_found found (leave u) ≡ ok (some e) (leave u) =
        close_found_lem found e (leave u) refl in
      rw (first, second) (throw-thrown e (leave u) (omega arith))

  -- Inside a `try`, where the file opens and the search of the function throws, `get_address` throws
  -- that exception, whether the file can then be closed or not, and the jump buffer of its own `try`
  -- is gone.
  pub get_address-thrown :
      (gnu_hash : Text → (l_ld l_addr : ℕ) → M P ℕ) (links fuel : ℕ) (function : Text)
      (s t u : Dbg P) (elf : MyElf) (e : MyException)
      → open_elf (enter s) ≡ ok elf t
      → get_address_internal (gnu_hash function) links fuel function elf t ≡ thrown e u
      → 1 < u.envs
      → get_address gnu_hash links fuel function s ≡ thrown e (leave u)
  unfolding get_address
  get_address-thrown gnu_hash links fuel function s t u elf e opened failed deep =
      look_up-thrown (get_address_internal (gnu_hash function) links fuel function) s t u elf e
        opened failed deep
