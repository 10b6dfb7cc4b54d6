-- ===== src/Dwarf/Lines.antt =====
-- `get_line_address_internal` and `get_nearest_state` of src/infos/my_dwarf.c together: the address that
-- `breakl` finds for a line, and the line that `list` then finds for the address.
use my_dbg.Base.{
  ℕ, zero, suc, ◌-◌, ◌^◌, ◌≤◌, ◌<◌, ◌≡◌, refl, ◌==◌, ==_iff, All, List, [], ◌∷◌, ◌++◌, Option, none,
  some, some_inj, arith, get_elem?, Bool-cases, inl, inr,
}
use mathlib.Core.Path.{subst}
use my_dbg.Dwarf.Result.{Dw, ok}
use my_dbg.Dwarf.Machine.{Sm}
use my_dbg.Dwarf.Nearest.{state_addr, get_nearest_state, get_line_address_internal}
use my_dbg.Dwarf.Closest.{Closest, no_row, closest, IsBelow, InUserSpace, get_nearest_state-Closest}

All-join :
    (Q : Sm → Type 0) (xs : List Sm) (y : Sm) (zs : List Sm)
    → All Q xs
    → Q y
    → All Q zs
    → All Q (xs ++ y ∷ zs)
All-join Q [] y zs h hy g = (hy, g)
All-join Q (x ∷ xs) y zs (hx, h) hy g = (hx, All-join Q xs y zs h hy g)

All-weaken : (Q R : Sm → Type 0) (xs : List Sm) → ((x : Sm) → Q x → R x) → All Q xs → All R xs
All-weaken Q R [] f h = tt
All-weaken Q R (x ∷ xs) f (hx, h) = (f x hx, All-weaken Q R xs f h)

All-middle : (Q : Sm → Type 0) (xs : List Sm) (y : Sm) (zs : List Sm) → All Q (xs ++ y ∷ zs) → Q y
All-middle Q [] y zs (h, _) = h
All-middle Q (x ∷ xs) y zs (_, h) = All-middle Q xs y zs h

-- A row with the line, as `get_line_address_internal` finds it
pub record HasRow (base_addr : ℕ) (states : List Sm) (line addr : ℕ) : Type 0 where
  pub row : Sm
  pub index : ℕ
  pub there : get_elem? states index ≡ some row
  pub on_line : row.line ≡ line
  pub at_addr : state_addr base_addr row ≡ addr

All-row :
    (Q : Sm → Type 0) (xs : List Sm) (i : ℕ) (x : Sm) → get_elem? xs i ≡ some x → All Q xs → Q x
All-row Q [] i x e h = cc
All-row Q (y ∷ ys) zero x e (h, _) = subst Q (some_inj e) h
All-row Q (y ∷ ys) (suc i) x e (_, h) = All-row Q ys i x e h

ok_inj : {a b : ℕ} → Dw.ok a ≡ Dw.ok b → a ≡ b
ok_inj e = cc

get_line_address_internal-HasRow :
    (base_addr line addr : ℕ) (states : List Sm)
    → get_line_address_internal base_addr states line ≡ ok addr
    → HasRow base_addr states line addr
unfolding get_line_address_internal
get_line_address_internal-HasRow base_addr line addr [] e = cc
get_line_address_internal-HasRow base_addr line addr (x ∷ xs) e =
    elim (Bool-cases (x.line == line)) [
      | inl h ↦ record {
        row = x;
        index = 0;
        there = refl;
        on_line = (==_iff x.line line).0 h;
        at_addr = ok_inj (rw h at e);
      }
      | inr h ↦
          let found = get_line_address_internal-HasRow base_addr line addr xs (rw h at e) in
          record {
            row = found.row;
            index = suc found.index;
            there = found.there;
            on_line = found.on_line;
            at_addr = found.at_addr;
          }
    ]

module _ (base_addr addr line : ℕ) (low : addr < 2 ^ 63 - 1) where
  -- The row at the address that the search gives, where some row is at the address
  at_row :
      (states : List Sm) (o : Option Sm)
      → Closest base_addr addr low states o
      → All (λ x. state_addr base_addr x ≡ addr → x.line ≡ line) states
      → HasRow base_addr states line addr
      → (sm : Sm) × (o ≡ some sm) × (state_addr base_addr sm ≡ addr) × (sm.line ≡ line)
  at_row _ none (no_row states above) only found =
      let here = All-row _ states found.index found.row found.there above in
      absurd (omega (arith, here, found.at_addr))
  at_row _ (some _) (closest before sm after below l r) only found =
      let near : All
          (λ x. IsBelow base_addr addr low x → state_addr base_addr x ≤ state_addr base_addr sm)
          (before ++ sm ∷ after) =
        All-join _ before sm after l (λ b. omega arith)
          (All-weaken _ _ after (λ x lt b. omega (arith, lt b)) r) in
      let le =
        All-row _ (before ++ sm ∷ after) found.index found.row found.there near
          (omega (arith, found.at_addr)) in
      let same : state_addr base_addr sm ≡ addr = omega (arith, le, below, found.at_addr) in
      (sm, refl, same, All-middle _ before sm after only same)

  -- Where the rows of an address are all rows of one line, and the rows and the address are in user
  -- space: at the address that is found for a line, the search for a row gives a row of that address and
  -- that line.
  pub get_nearest_state-get_line_address_internal :
      (states : List Sm)
      → All (InUserSpace base_addr addr low) states
      → All (λ x. state_addr base_addr x ≡ addr → x.line ≡ line) states
      → get_line_address_internal base_addr states line ≡ ok addr
      → (sm : Sm) × (get_nearest_state states addr base_addr ≡ some sm)
        × (state_addr base_addr sm ≡ addr)
        × (sm.line ≡ line)
  get_nearest_state-get_line_address_internal states user only e =
      at_row states (get_nearest_state states addr base_addr)
        (get_nearest_state-Closest base_addr addr low states user) only
        (get_line_address_internal-HasRow base_addr line addr states e)
