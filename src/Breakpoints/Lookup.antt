-- ===== src/Breakpoints/Lookup.antt =====
-- What `get_breakpoint` finds.
use my_dbg.Base.{
  ℕ, zero, suc, ◌+◌, ◌<◌, ◌≡◌, refl, true, false, List, [], ◌∷◌, ◌++◌, Option, none, some, arith,
  length, get_elem?, Bool-cases, Option-cases, ◌⊎◌, inl, inr,
}
use my_dbg.Debugger.{Kernel, Flags, Bp, Dbg, ok}
use my_dbg.Debugger.Laws.{HasMemory}
use my_dbg.Breakpoints.{is_at, get_loop, get_breakpoint, place_breakpoint}
use my_dbg.Breakpoints.Memory.{Holds, new_bp, place_breakpoint-Holds}

-- The breakpoint is a trap that is set at the address: enabled, not deleted, and not one on a
-- system call.
pub record IsTrap (addr : ℕ) (bp : Bp) : Type 0 where
  pub at_addr : bp.addr ≡ addr
  pub enabled : bp.enabled ≡ true
  pub kept : bp.deleted ≡ false
  pub code : bp.flags.syscall ≡ false

is_at_sound : (addr : ℕ) (bp : Bp) → is_at addr bp ≡ true → IsTrap addr bp
unfolding is_at
is_at_sound addr bp h = ground arith

is_at_complete : (addr : ℕ) (bp : Bp) → IsTrap addr bp → is_at addr bp ≡ true
unfolding is_at
is_at_complete addr bp t = ground arith

-- `i` is the first index of a trap at `addr`.
pub record IsFirst (addr : ℕ) (bps : List Bp) (i : ℕ) : Type 0 where
  pub bp : Bp
  pub found : get_elem? bps i ≡ some bp
  pub trap : IsTrap addr bp
  pub first : (j : ℕ) (b : Bp) → j < i → get_elem? bps j ≡ some b → ¬ IsTrap addr b

-- No breakpoint of the list is a trap at `addr`.
abbrev pub HasNone : ℕ → List Bp → Type 0
HasNone addr bps = (j : ℕ) (b : Bp) → get_elem? bps j ≡ some b → ¬ IsTrap addr b

abbrev pub Finds : (addr : ℕ) (bps : List Bp) → Option ℕ → Type 0
Finds addr bps none = HasNone addr bps
Finds addr bps (some i) = IsFirst addr bps i

not-IsTrap : (addr : ℕ) (bp b : Bp) → is_at addr bp ≡ false → some bp ≡ some b → ¬ IsTrap addr b
unfolding is_at
not-IsTrap addr bp b miss e t = ground arith

-- The loop counts from `i`; `rel` counts from the list's head.
get_loop-shift :
    (addr i : ℕ) (bps : List Bp)
    → ((get_loop addr i bps ≡ none) × HasNone addr bps)
      ⊎ ((rel : ℕ) × (get_loop addr i bps ≡ some (i + rel)) × IsFirst addr bps rel)
unfolding get_loop
get_loop-shift addr i [] = inl (refl, λ j b e. cc)
get_loop-shift addr i (bp ∷ bps) = elim (Bool-cases (is_at addr bp)) [
  | inl hit ↦ rw hit (
      inr (
        0,
        ground arith,
        record {
          bp = bp;
          found = refl;
          trap = is_at_sound addr bp hit;
          first = λ j b lt. absurd (omega arith);
        },
      ))
  | inr miss ↦ rw miss (elim (get_loop-shift addr (i + 1) bps) [
    | inl (e, h) ↦ inl (e, none_cons miss h)
    | inr (rel, e, h) ↦ inr (
      suc rel,
      ground arith,
      record {
        bp = h.bp;
        found = h.found;
        trap = h.trap;
        first = λ j b lt f. first_cons miss h j b lt f;
      },
    )
  ])
]
  where
    none_cons : is_at addr bp ≡ false → HasNone addr bps → HasNone addr (bp ∷ bps)
    none_cons miss h zero b e t = not-IsTrap addr bp b miss e t
    none_cons miss h (suc j) b e t = h j b e t

    first_cons :
        {rel : ℕ}
        → is_at addr bp ≡ false
        → IsFirst addr bps rel
        → (j : ℕ) (b : Bp) → j < suc rel
        → get_elem? (bp ∷ bps) j ≡ some b
        → ¬ IsTrap addr b
    first_cons miss h zero b lt e t = not-IsTrap addr bp b miss e t
    first_cons miss h (suc j) b lt e t = h.first j b (omega arith) e t

module _ {P : Type 0} where
  -- `get_breakpoint` changes nothing. It returns the first trap at the address, and none only if no
  -- breakpoint is an enabled, kept trap there.
  pub get_breakpoint-Finds :
      (addr : ℕ) (s : Dbg P)
      → (r : Option ℕ) × (get_breakpoint addr s ≡ ok r s) × Finds addr s.breakpoints r
  unfolding get_breakpoint
  get_breakpoint-Finds addr s = elim (get_loop-shift addr 0 s.breakpoints) [
    | inl (e, h) ↦ (none, rw e, h)
    | inr (i, e, h) ↦ (some i, rw e (ground arith), h)
  ]

get_loop-append_old :
    (addr i j : ℕ) (bps : List Bp) (bp : Bp)
    → get_loop addr i bps ≡ some j
    → get_loop addr i (bps ++ bp ∷ []) ≡ some j
unfolding get_loop
get_loop-append_old addr i j [] bp e = cc
get_loop-append_old addr i j (b ∷ bps) bp e =
    ground (arith, get_loop-append_old addr (i + 1) j bps bp)

get_loop-append_new :
    (addr i : ℕ) (bps : List Bp) (bp : Bp)
    → get_loop addr i bps ≡ none
    → is_at addr bp ≡ true
    → get_loop addr i (bps ++ bp ∷ []) ≡ some (i + length bps)
unfolding get_loop
get_loop-append_new addr i [] bp e h = rw h (ground arith)
get_loop-append_new addr i (b ∷ bps) bp e h =
    ground (arith, get_loop-append_new addr (i + 1) bps bp)

module _ {P : Type 0} ⦃k : Kernel P⦄ (law : HasMemory k) where
  -- Once a breakpoint is placed on code, `get_breakpoint` finds a trap at its address: the one that
  -- was there before, if there was one, and else the new one, whose number is its index plus one.
  pub get_breakpoint-place :
      (s : Dbg P) (addr w : ℕ) (flags : Flags)
      → flags.syscall ≡ false
      → Holds k s addr w
      → (t : Dbg P) × (place_breakpoint addr flags s ≡ ok (length s.breakpoints + 1) t)
        × (get_breakpoint addr t
            ≡ ok
                (some (elim (get_loop addr 0 s.breakpoints) [
                  | none ↦ length s.breakpoints
                  | some i ↦ i
                ]))
                t)
  unfolding get_breakpoint
  get_breakpoint-place s addr w flags plain e =
      let (p, placed, _) = place_breakpoint-Holds law s addr w flags plain e in
      let bp : Bp = new_bp (length s.breakpoints + 1) flags addr w in
      let here : is_at addr bp ≡ true =
        is_at_complete addr bp
          (record { at_addr = refl; enabled = refl; kept = refl; code = plain }) in
      (
        _,
        placed,
        elim (Option-cases (get_loop addr 0 s.breakpoints)) [
          | inl f ↦ rw (f, get_loop-append_new addr 0 s.breakpoints bp f here) (ground arith)
          | inr (i, f) ↦ rw (f, get_loop-append_old addr 0 i s.breakpoints bp f)
        ],
      )
