-- ===== src/Unwind/Depth.antt =====
-- How much `print_backtrace` writes.
use mathlib.Core.List.{append_assoc, append-nil}
use my_dbg.Base.{
  ap, sym, ◌∙◌, ◌⊎◌, inl, inr, ℕ, zero, suc, ◌+◌, ◌≤◌, ◌≡◌, refl, List, [], ◌∷◌, ◌++◌, Option, none,
  some, arith, length, Text, false, Bool-cases, ◌||◌, ◌==◌,
}
use my_dbg.Debugger.{Dbg, Line, Res, ok, pure}
use my_dbg.MemMappings.{MyMemMapping}
use my_dbg.Unwind.{
  Unwind, UnwError, unw_enomem, Unwound, went, error, print_error, print_frame, get_binary_file,
  frame_loop, walk,
}

module _ {P : Type 0} where
  -- It returns, has written at most `n` lines and changed nothing else.
  abbrev pub Writes : (n : ℕ) → Dbg P → Res P (Unit {0}) → Type 0
  Writes n s r =
      (lines : List Line) × (length lines ≤ n) × (r ≡ ok tt (record s { out = s.out ++ lines }))

  nothing : {n : ℕ} (s : Dbg P) → Writes n s (ok tt s)
  nothing s = ([], omega arith, ap (λ o. ok tt (record s { out = o })) (sym (append-nil s.out)))

  print_error-Writes : (n : ℕ) (e : UnwError) (s : Dbg P) → Writes (suc n) s (print_error e s)
  unfolding print_error
  print_error-Writes n UnwError.unw_einval s = (_ ∷ [], omega arith, refl)
  print_error-Writes n UnwError.unw_eunspec s = (_ ∷ [], omega arith, refl)
  print_error-Writes n UnwError.unw_ebadreg s = (_ ∷ [], omega arith, refl)
  print_error-Writes n UnwError.unw_enoinfo s = (_ ∷ [], omega arith, refl)
  print_error-Writes n UnwError.unw_ebadversion s = (_ ∷ [], omega arith, refl)
  print_error-Writes n UnwError.unw_einvalidip s = (_ ∷ [], omega arith, refl)
  print_error-Writes n UnwError.unw_ebadframe s = (_ ∷ [], omega arith, refl)
  print_error-Writes n UnwError.unw_estopunwind s = (_ ∷ [], omega arith, refl)
  print_error-Writes n UnwError.unw_other s = nothing s

  -- The line of a frame
  print_frame_lem :
      (count ip : ℕ) (name : ℕ × Text) (path : Option Text) (s : Dbg P)
      → (l : Line) × (print_frame count ip name path s ≡ ok tt (record s { out = s.out ++ l ∷ [] }))
  unfolding print_frame
  print_frame_lem count ip (ret, buf) path s = elim (Bool-cases (ret == 0 || ret == unw_enomem)) [
    | inl h ↦ (Line.frame count ip (some buf) (ret == unw_enomem) path, rw h refl)
    | inr h ↦ (Line.frame count ip none false path, rw h refl)
  ]

  -- One line more in front
  Writes-more :
      (n : ℕ) (l : Line) (s : Dbg P) (r : Res P (Unit {0}))
      → Writes n (record s { out = s.out ++ l ∷ [] }) r
      → Writes (suc n) s r
  Writes-more n l s r (lines, few, e) = (
    l ∷ lines,
    omega arith,
    e ∙ ap (λ o. ok tt (record s { out = o })) (append_assoc s.out (l ∷ []) lines),
  )

module _ {P C : Type 0} (unw : Unwind P C) where
  Unwound-cases :
      {A : Type 0} (u : Unwound A) → ((a : A) × (u ≡ went a)) ⊎ ((e : UnwError) × (u ≡ error e))
  Unwound-cases (went a) = inl (a, refl)
  Unwound-cases (error e) = inr (e, refl)

  frame_loop-Writes :
      (left count : ℕ) (mappings : List MyMemMapping) (cursor : C) (s : Dbg P)
      → Writes (suc left) s (frame_loop unw left count mappings cursor s)
  unfolding frame_loop
  frame_loop-Writes zero count mappings cursor s = nothing s
  frame_loop-Writes (suc left) count mappings cursor s =
      elim (Unwound-cases (unw.get_ip cursor s.process)) [
        | inr (e, failed) ↦ rw (failed, frame_loop) (print_error-Writes (suc left) e s)
        | inl (ip, got) ↦
            let (l, written) =
              print_frame_lem count ip (unw.proc_name cursor s.process)
                (get_binary_file unw mappings ip s) s in
            let t : Dbg P = record s { out = s.out ++ l ∷ [] } in
            rw (got, frame_loop)
              (rw written (
                Writes-more (suc left) l s _ (elim (Unwound-cases (unw.step cursor s.process)) [
                  | inr (e, failed) ↦ rw failed (print_error-Writes left e t)
                  | inl (next, stepped) ↦
                      rw stepped (go t next (frame_loop-Writes left (count + 1) mappings))
                ])))
      ]
    where
      go :
          (t : Dbg P) (next : Option C)
          → ((c : C) (u : Dbg P)
              → Writes (suc left) u (frame_loop unw left (count + 1) mappings c u))
          → Writes (suc left) t (elim next [
            | none ↦ pure tt t
            | some c ↦ frame_loop unw left (count + 1) mappings c t
          ])
      go t none more = nothing t
      go t (some c) more = more c t

  -- Once the mappings are read, a backtrace returns, writes at most 65 lines, and changes nothing but
  -- the output, however deep the stack is.
  pub walk-Writes : (mappings : List MyMemMapping) (s : Dbg P) → Writes 65 s (walk unw mappings s)
  unfolding walk
  walk-Writes mappings s = elim (Unwound-cases (unw.init_remote s.pid s.process)) [
    | inr (e, failed) ↦ rw (failed, walk) (print_error-Writes 64 e s)
    | inl (cursor, started) ↦ rw (started, walk) (frame_loop-Writes 64 0 mappings cursor s)
  ]
