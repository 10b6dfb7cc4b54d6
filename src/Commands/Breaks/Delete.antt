-- ===== src/Commands/Breaks/Delete.antt =====
-- `cmd_break_del` behind its argument: what deleting does to the breakpoints and to `g_syscalls`.
use my_dbg.Base.{
  ℕ, ◌-◌, ◌<◌, ◌≡◌, ◌≢◌, ap, sym, ◌∙◌, true, false, List, [], ◌∷◌, ◌++◌, some, arith, length,
  get_elem?, set, ltb, ◌==◌, ◌||◌, ◌⊎◌, inl, inr, minus_one, to_int, get_elem?-set_cases,
  get_elem?-set_self, get_elem?-set_ne, lt_of_get_elem?, if◌then◌else◌, Bool-cases, some_inj, ◌+◌,
  refl, ◌↔◌, get_elem?-append_end, set-append_end,
}
use my_dbg.Debugger.{Flags, Kernel, Bp, Dbg, Line, ok, fault}
use my_dbg.Debugger.Laws.{HasMemory}
use my_dbg.Breakpoints.{load_bp, place_breakpoint}
use my_dbg.Breakpoints.Memory.{Holds, new_bp, place_breakpoint-Holds}
use my_dbg.Syscalls.{in_syscalls}
use my_dbg.Syscalls.Watched.{Watches, IsWatched, IsLive, word_lt, in_syscalls-IsLive}
use my_dbg.Commands.Breaks.{delete_breakpoint}

-- The record after the deletion
abbrev pub gone : Bp → Bp
gone bp = record bp { deleted = true }

module _ (bps : List Bp) (calls : List ℕ) (i : ℕ) (bp : Bp) (w : IsWatched bps calls)
    (ws : Watches bps i bp) (kept : bp.deleted ≡ false) where
  -- A breakpoint of the list after the write is the deleted one or one at another index.
  origin :
      (j : ℕ) (b : Bp)
      → Watches (set bps i (gone bp)) j b
      → ((j ≡ i) × (b ≡ gone bp)) ⊎ ((j ≢ i) × Watches bps j b)
  origin j b wb = elim (get_elem?-set_cases bps i j (gone bp) b wb.found) [
    | inl h ↦ inl h
    | inr (h, e) ↦ inr (h, record { found = e; on_syscall = wb.on_syscall })
  ]

  -- Another breakpoint keeps its place.
  other : (j : ℕ) (b : Bp) → j ≢ i → Watches bps j b → Watches (set bps i (gone bp)) j b
  other j b ne wb = record {
    found = get_elem?-set_ne bps i j (gone bp) (λ p. ne (sym p)) ∙ wb.found;
    on_syscall = wb.on_syscall;
  }

  words_ne : (j : ℕ) (b : Bp) → j ≢ i → Watches bps j b → bp.word ≢ b.word
  words_ne j b ne wb e = ne (sym (w.apart i j bp b ws wb e))

  delete_entry :
      (j : ℕ) (b : Bp)
      → Watches (set bps i (gone bp)) j b
      → get_elem? (set calls bp.word minus_one) b.word
        ≡ some (if b.deleted then minus_one else to_int b.addr)
  delete_entry j b wb = elim (origin j b wb) [
    | inl (h, e) ↦ rw e (get_elem?-set_self calls bp.word minus_one (word_lt bps calls i bp w ws))
    | inr (h, old) ↦
        get_elem?-set_ne calls bp.word b.word minus_one (words_ne j b h old) ∙ w.entry j b old
  ]

  delete_apart :
      (j l : ℕ) (a b : Bp)
      → Watches (set bps i (gone bp)) j a
      → Watches (set bps i (gone bp)) l b
      → a.word ≡ b.word
      → j ≡ l
  delete_apart j l a b wa wb e = elim (origin j a wa) [
    | inl (h, f) ↦ elim (origin l b wb) [
      | inl (h', f') ↦ h ∙ sym h'
      | inr (ne, y) ↦ absurd (words_ne l b ne y (sym (ap (λ (z : Bp). z.word) f) ∙ e))
    ]
    | inr (ne, x) ↦ elim (origin l b wb) [
      | inl (h', f') ↦ absurd (words_ne j a ne x (sym (e ∙ ap (λ (z : Bp). z.word) f')))
      | inr (ne', y) ↦ w.apart j l a b x y e
    ]
  ]

  same_word : (l : ℕ) (b : Bp) → Watches bps l b → l ≡ i → b.word ≡ bp.word
  same_word l b wb p =
      ap (λ (z : Bp). z.word) (some_inj (sym wb.found ∙ ap (get_elem? bps) p ∙ ws.found))

  delete_owner :
      (j m : ℕ)
      → get_elem? (set calls bp.word minus_one) j ≡ some m
      → m ≢ minus_one
      → (l : ℕ) × (b : Bp) × Watches (set bps i (gone bp)) l b × (b.deleted ≡ false) × (b.word ≡ j)
  delete_owner j m e ne = elim (get_elem?-set_cases calls bp.word j minus_one m e) [
    | inl (h, f) ↦ absurd (ne f)
    | inr (h, f) ↦
        let (l, b, wb, d, x) = w.owner j m f ne in
        let apart : l ≢ i = λ p. h (sym x ∙ same_word l b wb p) in (l, b, other l b apart wb, d, x)
  ]

  IsWatched-delete : IsWatched (set bps i (gone bp)) (set calls bp.word minus_one)
  IsWatched-delete = record { entry = delete_entry; apart = delete_apart; owner = delete_owner }

-- The state in which a deletion of breakpoint `nb` leaves the debugger
abbrev pub deleted_state : {P : Type 0} → (nb : ℕ) → Bp → Dbg P → Dbg P
deleted_state nb bp s = record s {
  breakpoints = set s.breakpoints (nb - 1) (gone bp);
  syscalls = set s.syscalls bp.word minus_one;
  out = s.out ++ Line.breakpoint_deleted nb ∷ [];
}

module _ {P : Type 0} (nb : ℕ) (bp : Bp) (s : Dbg P) (pos : 0 < nb)
    (found : get_elem? s.breakpoints (nb - 1) ≡ some bp) (kept : bp.deleted ≡ false) where
  valid : (nb == 0 || ltb (length s.breakpoints) nb) ≡ false
  valid = ground (arith, lt_of_get_elem? s.breakpoints (nb - 1) bp found)

  -- Deleting a breakpoint that is not deleted yet writes -1 at the index `word` of `g_syscalls`,
  -- also when the breakpoint is not one on a system call and `word` is a word of the tracee's code.
  pub delete_breakpoint-run :
      delete_breakpoint nb s
      ≡ (if ltb bp.word (length s.syscalls) then ok tt (deleted_state nb bp s) else fault)
  unfolding delete_breakpoint
  delete_breakpoint-run = elim (Bool-cases (ltb bp.word (length s.syscalls))) [
    | inl h ↦ rw (valid, found, load_bp) (rw kept (rw h))
    | inr h ↦ rw (valid, found, load_bp) (rw kept (rw h))
  ]

  -- Where the lists are in step, deleting a breakpoint on a system call returns and keeps them in
  -- step.
  pub delete_breakpoint-IsWatched :
      bp.flags.syscall ≡ true
      → IsWatched s.breakpoints s.syscalls
      → (delete_breakpoint nb s ≡ ok tt (deleted_state nb bp s))
        × IsWatched (deleted_state nb bp s).breakpoints (deleted_state nb bp s).syscalls
  delete_breakpoint-IsWatched on_syscall w =
      let ws : Watches s.breakpoints (nb - 1) bp = record {
        found = found;
        on_syscall = on_syscall;
      } in
      let low = word_lt s.breakpoints s.syscalls (nb - 1) bp w ws in
      let in_range : ltb bp.word (length s.syscalls) ≡ true = ground arith in
      (
        rw delete_breakpoint-run (rw in_range),
        IsWatched-delete s.breakpoints s.syscalls (nb - 1) bp w ws kept,
      )

  -- Where the lists are in step, deleting a breakpoint on a system call that is not deleted yet
  -- returns, and then `in_syscalls` returns 1 exactly for the numbers, other than -1, of the other
  -- breakpoints on system calls that were not deleted before.
  pub delete_breakpoint-IsLive :
      (m : ℕ)
      → bp.flags.syscall ≡ true
      → IsWatched s.breakpoints s.syscalls
      → (t : Dbg P) × (delete_breakpoint nb s ≡ ok tt t)
        × ((in_syscalls m t ≡ ok true t)
            ↔ ((m ≢ minus_one) × (l : IsLive s.breakpoints m) × (l.index ≢ nb - 1)))
  delete_breakpoint-IsLive m on_syscall w =
      let (ended, w') = delete_breakpoint-IsWatched on_syscall w in
      let (there, back) = in_syscalls-IsLive m (deleted_state nb bp s) w' in
      (
        deleted_state nb bp s,
        ended,
        (
          λ e. let (ne, x) = there e in let (l, apart) = before x in (ne, l, apart),
          λ h. back (h.0, after h.1 h.2),
        ),
      )
    where
      ws : Watches s.breakpoints (nb - 1) bp
      ws = record { found = found; on_syscall = on_syscall }

      dead : (b : Bp) → b ≡ gone bp → b.deleted ≡ false → ⊥
      dead b e d = ground arith

      before :
          IsLive (deleted_state nb bp s).breakpoints m
          → (l : IsLive s.breakpoints m) × (l.index ≢ nb - 1)
      before l =
          elim (origin s.breakpoints s.syscalls (nb - 1) bp w ws kept l.index l.bp l.watches) [
            | inl (h, e) ↦ absurd (dead l.bp e l.kept)
            | inr (ne, old) ↦ (
              record {
                index = l.index;
                bp = l.bp;
                watches = old;
                kept = l.kept;
                number = l.number;
              },
              ne,
            )
          ]

      after :
          (l : IsLive s.breakpoints m)
          → l.index ≢ nb - 1
          → IsLive (deleted_state nb bp s).breakpoints m
      after l apart = record {
        index = l.index;
        bp = l.bp;
        watches = other s.breakpoints s.syscalls (nb - 1) bp w ws kept l.index l.bp apart l.watches;
        kept = l.kept;
        number = l.number;
      }

module _ {P : Type 0} ⦃k : Kernel P⦄ where
  -- A breakpoint on code is placed at a readable address and then deleted by its number: the word `w`
  -- of the tracee's code is taken for an index of `g_syscalls`. If the array is longer, its entry there
  -- becomes -1; otherwise the write is outside the array.
  pub delete_breakpoint-place_breakpoint :
      (law : HasMemory k) (s : Dbg P) (addr w : ℕ) (flags : Flags)
      → flags.syscall ≡ false
      → Holds k s addr w
      → (n : ℕ) × (t : Dbg P) × (place_breakpoint addr flags s ≡ ok n t)
        × (delete_breakpoint n t ≡ (
            if ltb w (length s.syscalls)
            then ok tt (record t {
              breakpoints = s.breakpoints ++ gone (new_bp n flags addr w) ∷ [];
              syscalls = set s.syscalls w minus_one;
              out = s.out ++ Line.breakpoint_deleted n ∷ [];
            })
            else fault))
  delete_breakpoint-place_breakpoint law s addr w flags plain e =
      let n = length s.breakpoints + 1 in
      let new : Bp = new_bp n flags addr w in
      let (p, placed, trap) = place_breakpoint-Holds law s addr w flags plain e in
      let t : Dbg P = record s { process = p; breakpoints = s.breakpoints ++ new ∷ [] } in
      let last : n - 1 ≡ length s.breakpoints = omega arith in
      let found : get_elem? t.breakpoints (n - 1) ≡ some new =
        rw last (get_elem?-append_end s.breakpoints new) in
      (
        n,
        t,
        placed,
        delete_breakpoint-run n new t (omega arith) found refl
            ∙ rw (last, set-append_end s.breakpoints new (gone new)) refl,
      )
