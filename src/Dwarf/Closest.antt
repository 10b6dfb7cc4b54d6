-- ===== src/Dwarf/Closest.antt =====
-- `get_nearest_state` of src/infos/my_dwarf.c gives the closest row below the address.
use my_dbg.Base.{
  ℕ, ◌-◌, ◌^◌, ◌≤◌, ◌<◌, ◌≡◌, ◌⊎◌, ◌++◌, All, inl, inr, refl, ap, false, List, [], ◌∷◌, ◌==◌, leb,
  arith, Option, none, some, Bool-cases,
}
use my_dbg.Dwarf.Machine.{Sm}
use my_dbg.Dwarf.Nearest.{addr_dist, state_addr, long_max, nearest_loop, get_nearest_state}

-- Addresses of user space
addr_dist-below : (a b : ℕ) → a ≤ b → b < 2 ^ 63 → addr_dist a b ≡ b - a
unfolding addr_dist
addr_dist-below a b le h = ground arith

addr_dist-above : (a b : ℕ) → b < a → a < 2 ^ 63 → addr_dist a b ≡ long_max
unfolding addr_dist
addr_dist-above a b le h = ground arith

module _ (base_addr addr : ℕ) (low : addr < 2 ^ 63 - 1) where
  -- The row is at the address or below it.
  abbrev pub IsBelow : Sm → Type 0
  IsBelow x = state_addr base_addr x ≤ addr

  -- A last one among the rows closest to the address, if any is below it
  pub data Closest : List Sm → Option Sm → Type 0 where
    no_row :
        (states : List Sm) → All (λ x. addr < state_addr base_addr x) states → Closest states none
    closest :
        (before : List Sm) (sm : Sm) (after : List Sm)
        → IsBelow sm
        → All (λ x. IsBelow x → state_addr base_addr x ≤ state_addr base_addr sm) before
        → All (λ x. IsBelow x → state_addr base_addr x < state_addr base_addr sm) after
        → Closest (before ++ sm ∷ after) (some sm)

  abbrev pub InUserSpace : Sm → Type 0
  InUserSpace x = state_addr base_addr x < 2 ^ 63

  -- What the loop does with `dist` and `my_sm`: it keeps them, or takes a row.
  abbrev Kept : (dist : ℕ) (my_sm : Option Sm) → List Sm → Option Sm → Type 0
  Kept dist my_sm states o =
      (o ≡ my_sm) × All (λ x. IsBelow x → dist < addr - state_addr base_addr x) states

  abbrev Taken : (dist : ℕ) → List Sm → Option Sm → Type 0
  Taken dist states o =
      (before after : List Sm) × (sm : Sm) × (o ≡ some sm)
      × (states ≡ before ++ sm ∷ after)
      × IsBelow sm
      × (addr - state_addr base_addr sm ≤ dist)
      × All (λ x. IsBelow x → state_addr base_addr x ≤ state_addr base_addr sm) before
      × All (λ x. IsBelow x → state_addr base_addr x < state_addr base_addr sm) after

  skip :
      (dist : ℕ) (my_sm o : Option Sm) (sm : Sm) (states : List Sm)
      → (IsBelow sm → dist < addr - state_addr base_addr sm)
      → Kept dist my_sm states o ⊎ Taken dist states o
      → Kept dist my_sm (sm ∷ states) o ⊎ Taken dist (sm ∷ states) o
  skip dist my_sm o sm states far (inl (e, all)) = inl (e, (far, all))
  skip dist my_sm o sm states far (inr (before, after, x, e, split, below, near, l, r)) = inr (
    sm ∷ before,
    after,
    x,
    e,
    ap (λ t. sm ∷ t) split,
    below,
    near,
    (λ b. omega (arith, far b, near, below, b), l),
    r,
  )

  All-imp : (A B : Sm → Type 0) (xs : List Sm) → ((x : Sm) → A x → B x) → All A xs → All B xs
  All-imp A B [] f h = tt
  All-imp A B (x ∷ xs) f (h, t) = (f x h, All-imp A B xs f t)

  take_row :
      (dist : ℕ) (my_sm o : Option Sm) (sm : Sm) (states : List Sm)
      → IsBelow sm
      → addr - state_addr base_addr sm ≤ dist
      → Kept (addr - state_addr base_addr sm) (some sm) states o
        ⊎ Taken (addr - state_addr base_addr sm) states o
      → Kept dist my_sm (sm ∷ states) o ⊎ Taken dist (sm ∷ states) o
  take_row dist my_sm o sm states here near (inl (e, all)) = inr (
    [],
    states,
    sm,
    e,
    refl,
    here,
    near,
    tt,
    All-imp _ _ states (λ x far b. omega (arith, far b, here, b)) all,
  )
  take_row dist my_sm o sm states here near (inr (before, after, x, e, split, below, near', l, r)) =
      inr (
        sm ∷ before,
        after,
        x,
        e,
        ap (λ t. sm ∷ t) split,
        below,
        omega (arith, near, near'),
        (λ b. omega (arith, near', below, b), l),
        r,
      )

  nearest_loop-lem :
      (dist : ℕ) (my_sm : Option Sm) (states : List Sm)
      → All InUserSpace states
      → Kept dist my_sm states (nearest_loop base_addr addr dist my_sm states)
        ⊎ Taken dist states (nearest_loop base_addr addr dist my_sm states)
  unfolding nearest_loop
  nearest_loop-lem dist my_sm [] all = inl (refl, tt)
  nearest_loop-lem dist my_sm (sm ∷ states) (user, all) =
      let skipped = nearest_loop-lem dist my_sm states all in
      let d = addr - state_addr base_addr sm in
      let taken = nearest_loop-lem d (some sm) states all in
      elim (Bool-cases (leb (state_addr base_addr sm) addr)) [
        | inl here ↦
            let le : state_addr base_addr sm ≤ addr = ground arith in
            let not_max : (d == long_max) ≡ false = ground arith in
            rw (addr_dist-below (state_addr base_addr sm) addr le (omega arith), not_max)
              (elim (Bool-cases (leb d dist)) [
                | inl near ↦ rw near (take_row dist my_sm _ sm states le (ground arith) taken)
                | inr far ↦ rw far (skip dist my_sm _ sm states (λ b. ground arith) skipped)
              ])
        | inr above ↦
            let lt : addr < state_addr base_addr sm = ground arith in
            rw (addr_dist-above (state_addr base_addr sm) addr lt user)
              (skip dist my_sm _ sm states (λ b. absurd (omega (arith, b))) skipped)
      ]

  -- For an address below 2 ^ 63 - 1 and rows below 2 ^ 63, `get_nearest_state` gives nothing only if
  -- all rows are above the address, and else the last one of the rows closest to it that are not
  -- above it.
  pub get_nearest_state-Closest :
      (states : List Sm)
      → All InUserSpace states
      → Closest states (get_nearest_state states addr base_addr)
  unfolding get_nearest_state
  get_nearest_state-Closest states all = elim (nearest_loop-lem long_max none states all) [
    | inl (e, far) ↦ rw e (no_row states (All-imp _ _ states (λ x f. ground (arith, f)) far))
    | inr (before, after, sm, e, split, below, near, l, r) ↦
        rw (e, split) (closest before sm after below l r)
  ]
