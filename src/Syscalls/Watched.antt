-- ===== src/Syscalls/Watched.antt =====
-- The numbers in `g_syscalls` are those of the breakpoints on system calls that are not deleted.
use my_dbg.Base.{
  ℕ, zero, suc, ◌+◌, ◌-◌, ◌^◌, ◌<◌, ◌≡◌, ◌≢◌, ◌↔◌, refl, ap, sym, ◌∙◌, true, false, List, [], ◌∷◌,
  ◌++◌, some, arith, length, get_elem?, ◌==◌, minus_one, to_int, to_int-sign_extend, Bool-cases,
  inl, inr, ◌⊎◌, get_elem?-append_cases, get_elem?-append_end, get_elem?-append_left, length-append,
  if◌then◌else◌, some_inj, lt_of_get_elem?,
}
use my_dbg.Debugger.{Kernel, Bp, Dbg, ok}
use my_dbg.Breakpoints.{place_breakpoint}
use my_dbg.Syscalls.{mem_syscalls, in_syscalls, add_syscall_break}

-- The breakpoint at index `i` watches the entry at index `j` of `g_syscalls`.
pub record Watches (bps : List Bp) (i : ℕ) (bp : Bp) : Type 0 where
  pub found : get_elem? bps i ≡ some bp
  pub on_syscall : bp.flags.syscall ≡ true

-- Every breakpoint on a system call has an entry of its own: its number, or -1 once it is deleted;
-- and every entry but -1 belongs to a breakpoint that is not deleted.
pub record IsWatched (bps : List Bp) (calls : List ℕ) : Type 0 where
  pub entry :
      (i : ℕ) (bp : Bp)
      → Watches bps i bp
      → get_elem? calls bp.word ≡ some (if bp.deleted then minus_one else to_int bp.addr)
  pub apart : (i j : ℕ) (a b : Bp) → Watches bps i a → Watches bps j b → a.word ≡ b.word → i ≡ j
  pub owner :
      (j n : ℕ)
      → get_elem? calls j ≡ some n
      → n ≢ minus_one
      → (i : ℕ) × (bp : Bp) × Watches bps i bp × (bp.deleted ≡ false) × (bp.word ≡ j)

-- A breakpoint on system call `n` that is not deleted
pub record IsLive (bps : List Bp) (n : ℕ) : Type 0 where
  pub index : ℕ
  pub bp : Bp
  pub watches : Watches bps index bp
  pub kept : bp.deleted ≡ false
  pub number : to_int bp.addr ≡ n

mem→get :
    (n : ℕ) (calls : List ℕ) → mem_syscalls n calls ≡ true → (j : ℕ) × (get_elem? calls j ≡ some n)
unfolding mem_syscalls
mem→get n [] h = cc
mem→get n (c ∷ cs) h = elim (Bool-cases (n == c)) [
  | inl e ↦ (0, ground arith)
  | inr e ↦ let (j, f) = mem→get n cs (rw e at h) in (suc j, f)
]

get→mem :
    (n : ℕ) (calls : List ℕ) (j : ℕ) → get_elem? calls j ≡ some n → mem_syscalls n calls ≡ true
unfolding mem_syscalls
get→mem n [] j e = cc
get→mem n (c ∷ cs) zero e = ground arith
get→mem n (c ∷ cs) (suc j) e = ground (arith, get→mem n cs j e)

-- What the entry of a breakpoint that is not deleted holds
pub kept_entry :
    (bps : List Bp) (calls : List ℕ) (i : ℕ) (bp : Bp)
    → IsWatched bps calls
    → Watches bps i bp
    → bp.deleted ≡ false
    → get_elem? calls bp.word ≡ some (to_int bp.addr)
kept_entry bps calls i bp w ws kept = w.entry i bp ws ∙ rw kept

pub mem_syscalls_end : (n : ℕ) (calls : List ℕ) → mem_syscalls n (calls ++ n ∷ []) ≡ true
mem_syscalls_end n calls = get→mem n (calls ++ n ∷ []) (length calls) (get_elem?-append_end calls n)

module _ {P : Type 0} where
  pub in_syscalls_lem :
      (n : ℕ) (s : Dbg P) → n ≢ minus_one → in_syscalls n s ≡ ok (mem_syscalls n s.syscalls) s
  unfolding in_syscalls
  in_syscalls_lem n s ne = let test : (n == minus_one) ≡ false = ground arith in rw test

  in_syscalls-minus_one : (n : ℕ) (s : Dbg P) → in_syscalls n s ≡ ok true s → n ≢ minus_one
  unfolding in_syscalls
  in_syscalls-minus_one n s e same = ground arith

  -- While the lists are in step, `in_syscalls` returns 1 exactly for the numbers, other than -1, of the
  -- breakpoints on system calls that are not deleted.
  pub in_syscalls-IsLive :
      (n : ℕ) (s : Dbg P)
      → IsWatched s.breakpoints s.syscalls
      → (in_syscalls n s ≡ ok true s) ↔ ((n ≢ minus_one) × IsLive s.breakpoints n)
  in_syscalls-IsLive n s w =
      (λ e. let ne = in_syscalls-minus_one n s e in (ne, found ne e), λ h. back h.0 h.1)
    where
      found : n ≢ minus_one → in_syscalls n s ≡ ok true s → IsLive s.breakpoints n
      found ne e =
          let (j, at_j) = mem→get n s.syscalls (cc (in_syscalls_lem n s ne)) in
          let (i, bp, ws, kept, word) = w.owner j n at_j ne in
          record {
            index = i;
            bp = bp;
            watches = ws;
            kept = kept;
            number =
                some_inj (sym (kept_entry s.breakpoints s.syscalls i bp w ws kept) ∙ rw word at_j);
          }

      back : n ≢ minus_one → IsLive s.breakpoints n → in_syscalls n s ≡ ok true s
      back ne l =
          let e : get_elem? s.syscalls l.bp.word ≡ some n =
            kept_entry s.breakpoints s.syscalls l.index l.bp w l.watches l.kept
            ∙ ap some l.number in
          rw (in_syscalls_lem n s ne, get→mem n s.syscalls l.bp.word e)

pub word_lt :
    (bps : List Bp) (calls : List ℕ) (i : ℕ) (bp : Bp)
    → IsWatched bps calls
    → Watches bps i bp
    → bp.word < length calls
word_lt bps calls i bp w ws = lt_of_get_elem? calls bp.word _ (w.entry i bp ws)

-- Appending a breakpoint on the system call `n`
module _ (bps : List Bp) (calls : List ℕ) (new : Bp) (n : ℕ) (w : IsWatched bps calls)
    (word : new.word ≡ length calls) (kept : new.deleted ≡ false) (number : to_int new.addr ≡ n)
    (on_syscall : new.flags.syscall ≡ true) where
  -- A breakpoint of the longer list is an old one or the new one.
  origin :
      (i : ℕ) (bp : Bp)
      → Watches (bps ++ new ∷ []) i bp
      → Watches bps i bp ⊎ ((i ≡ length bps) × (bp ≡ new))
  origin i bp ws = elim (get_elem?-append_cases bps new bp i ws.found) [
    | inl (h, e) ↦ inl (record { found = e; on_syscall = ws.on_syscall })
    | inr h ↦ inr h
  ]

  newest : Watches (bps ++ new ∷ []) (length bps) new
  newest = record { found = get_elem?-append_end bps new; on_syscall = on_syscall }

  append_entry :
      (i : ℕ) (bp : Bp)
      → Watches (bps ++ new ∷ []) i bp
      → get_elem? (calls ++ n ∷ []) bp.word
        ≡ some (if bp.deleted then minus_one else to_int bp.addr)
  append_entry i bp ws = elim (origin i bp ws) [
    | inl old ↦
        get_elem?-append_left calls (n ∷ []) bp.word (word_lt bps calls i bp w old)
        ∙ w.entry i bp old
    | inr (h, e) ↦ rw (e, word, kept, number) (get_elem?-append_end calls n)
  ]

  append_apart :
      (i j : ℕ) (a b : Bp)
      → Watches (bps ++ new ∷ []) i a
      → Watches (bps ++ new ∷ []) j b
      → a.word ≡ b.word
      → i ≡ j
  append_apart i j a b wa wb e = elim (origin i a wa) [
    | inl x ↦ elim (origin j b wb) [
      | inl y ↦ w.apart i j a b x y e
      | inr (h, f) ↦
          let g : b.word ≡ length calls = ap (λ (z : Bp). z.word) f ∙ word in
          absurd (omega (arith, word_lt bps calls i a w x))
    ]
    | inr (h, f) ↦ elim (origin j b wb) [
      | inl y ↦
          let g : a.word ≡ length calls = ap (λ (z : Bp). z.word) f ∙ word in
          absurd (omega (arith, word_lt bps calls j b w y))
      | inr (h', f') ↦ h ∙ sym h'
    ]
  ]

  append_owner :
      (j m : ℕ)
      → get_elem? (calls ++ n ∷ []) j ≡ some m
      → m ≢ minus_one
      → (i : ℕ) × (bp : Bp) × Watches (bps ++ new ∷ []) i bp × (bp.deleted ≡ false) × (bp.word ≡ j)
  append_owner j m e ne = elim (get_elem?-append_cases calls n m j e) [
    | inl (h, f) ↦
        let (i, bp, ws, d, x) = w.owner j m f ne in
        (
          i,
          bp,
          record {
            found =
                get_elem?-append_left bps (new ∷ []) i (lt_of_get_elem? bps i bp ws.found)
                ∙ ws.found;
            on_syscall = ws.on_syscall;
          },
          d,
          x,
        )
    | inr (h, f) ↦ (length bps, new, newest, kept, word ∙ sym h)
  ]

  pub IsWatched-append : IsWatched (bps ++ new ∷ []) (calls ++ n ∷ [])
  IsWatched-append = record { entry = append_entry; apart = append_apart; owner = append_owner }

module _ {P : Type 0} ⦃k : Kernel P⦄ where
  -- On any system call number `add_syscall_break` returns, adds one breakpoint and one number, and
  -- keeps the two lists in step. The bound on the array says that a `size_t` can count it.
  pub add_syscall_break-IsWatched :
      (n : ℕ) (s : Dbg P)
      → IsWatched s.breakpoints s.syscalls
      → n < 2 ^ 32
      → length s.syscalls < 2 ^ 64 - 1
      → (t : Dbg P) × (add_syscall_break n s ≡ ok tt t)
        × IsWatched t.breakpoints t.syscalls
        × (length t.breakpoints ≡ length s.breakpoints + 1)
        × (t.syscalls ≡ s.syscalls ++ n ∷ [])
  unfolding add_syscall_break place_breakpoint
  add_syscall_break-IsWatched n s w small fits = (
    _,
    refl,
    IsWatched-append s.breakpoints s.syscalls _ n w
        (omega (arith, length-append s.syscalls (n ∷ []))) refl (to_int-sign_extend n small) refl,
    length-append s.breakpoints _ ∙ omega arith,
    refl,
  )
