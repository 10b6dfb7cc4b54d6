-- ===== src/Session.antt =====
-- What no operation of the debugger undoes, from one state of a session to a later one: the numbers of
-- src/breakpoints.c, `g_quit` of src/my-dbg.c, and the output.
pub mod Rules
pub mod Reads
pub mod Elf
pub mod Gnu
pub mod Lookup
pub mod Lines
pub mod Prints
pub mod Frames
pub mod Places
pub mod Breaks
pub mod Commands
use mathlib.Core.List.{append-nil, append_assoc}
use my_dbg.Base.{
  ℕ, zero, suc, ◌+◌, ◌≡◌, refl, sym, ap, ◌∙◌, Bool, true, false, not, ◌&&◌, List, [], ◌∷◌, ◌++◌,
  some, some_inj, map, arith, length, get_elem?, set, Bool-cases, inl, inr,
}
use my_dbg.Debugger.{Flags, Bp, Dbg, Line}
use my_dbg.Control.Runs.{Runs, sealed, stays}

-- A breakpoint later: only `enabled` and `deleted` may have changed, and a deleted one stays deleted.
pub record SameBp (x y : Bp) : Type 0 where
  pub id : y.id ≡ x.id
  pub flags : y.flags ≡ x.flags
  pub addr : y.addr ≡ x.addr
  pub word : y.word ≡ x.word
  pub deleted : (x.deleted && not y.deleted) ≡ false

-- The breakpoints from index `n` on have the numbers from `n` + 1 on.
abbrev pub Numbered : (n : ℕ) → List Bp → Type 0
Numbered n [] = Unit {0}
Numbered n (x ∷ xs) = (x.id ≡ n + 1) × Numbered (n + 1) xs

-- The breakpoints from index `n` on, and the same later: each is still there at its index, and the ones
-- behind them are numbered.
abbrev pub Grows : (n : ℕ) (old new : List Bp) → Type 0
Grows n [] new = Numbered n new
Grows n (x ∷ xs) [] = ⊥
Grows n (x ∷ xs) (y ∷ ys) = SameBp x y × Grows (n + 1) xs ys

pub record Survives {P : Type 0} (s t : Dbg P) : Type 0 where
  pub quit : (s.quit && not t.quit) ≡ false
  pub table : Grows 0 s.breakpoints t.breakpoints
  pub printed : (new : List Line) × (t.out ≡ s.out ++ new)

SameBp-refl : (x : Bp) → SameBp x x
SameBp-refl x = record { id = refl; flags = refl; addr = refl; word = refl; deleted = ground arith }

SameBp-trans : (x y z : Bp) → SameBp x y → SameBp y z → SameBp x z
SameBp-trans x y z a b = record {
  id = b.id ∙ a.id;
  flags = b.flags ∙ a.flags;
  addr = b.addr ∙ a.addr;
  word = b.word ∙ a.word;
  deleted = stays x.deleted y.deleted z.deleted a.deleted b.deleted;
}

Grows-refl : (n : ℕ) (xs : List Bp) → Grows n xs xs
Grows-refl n [] = tt
Grows-refl n (x ∷ xs) = (SameBp-refl x, Grows-refl (n + 1) xs)

Numbered-Grows : (n : ℕ) (xs ys : List Bp) → Numbered n xs → Grows n xs ys → Numbered n ys
Numbered-Grows n [] ys h g = g
Numbered-Grows n (x ∷ xs) [] h g = absurd g
Numbered-Grows n (x ∷ xs) (y ∷ ys) (e, h) (same, g) =
    (same.id ∙ e, Numbered-Grows (n + 1) xs ys h g)

Grows-trans : (n : ℕ) (xs ys zs : List Bp) → Grows n xs ys → Grows n ys zs → Grows n xs zs
Grows-trans n [] ys zs g h = Numbered-Grows n ys zs g h
Grows-trans n (x ∷ xs) [] zs g h = absurd g
Grows-trans n (x ∷ xs) (y ∷ ys) [] g h = absurd h
Grows-trans n (x ∷ xs) (y ∷ ys) (z ∷ zs) (a, g) (b, h) =
    (SameBp-trans x y z a b, Grows-trans (n + 1) xs ys zs g h)

pub Grows-append :
    (n : ℕ) (xs : List Bp) (new : Bp) → new.id ≡ n + length xs + 1 → Grows n xs (xs ++ new ∷ [])
Grows-append n [] new e = (e ∙ omega arith, tt)
Grows-append n (x ∷ xs) new e = (SameBp-refl x, Grows-append (n + 1) xs new (e ∙ omega arith))

-- A breakpoint is marked as deleted.
pub Grows-delete :
    (n i : ℕ) (xs : List Bp) (bp : Bp)
    → get_elem? xs i ≡ some bp
    → Grows n xs (set xs i (record bp { deleted = true }))
Grows-delete n i [] bp e = tt
Grows-delete n zero (x ∷ xs) bp e =
    let same : x ≡ bp = some_inj e in
    (
      record {
        id = ap (λ (b : Bp). b.id) (sym same);
        flags = ap (λ (b : Bp). b.flags) (sym same);
        addr = ap (λ (b : Bp). b.addr) (sym same);
        word = ap (λ (b : Bp). b.word) (sym same);
        deleted = ground arith;
      },
      Grows-refl (n + 1) xs,
    )
Grows-delete n (suc i) (x ∷ xs) bp e = (SameBp-refl x, Grows-delete (n + 1) i xs bp e)

head_inj : {x y : Bp} {xs ys : List Bp} → x ∷ xs ≡ y ∷ ys → x ≡ y
head_inj e = cc

tail_inj : {x y : Bp} {xs ys : List Bp} → x ∷ xs ≡ y ∷ ys → xs ≡ ys
tail_inj e = cc

-- Only their `enabled` changes.
Grows-sealed : (n : ℕ) (xs ys : List Bp) → map sealed ys ≡ map sealed xs → Grows n xs ys
Grows-sealed n [] [] e = tt
Grows-sealed n [] (y ∷ ys) e = cc
Grows-sealed n (x ∷ xs) [] e = cc
Grows-sealed n (x ∷ xs) (y ∷ ys) e =
    let same : sealed y ≡ sealed x = head_inj e in
    (
      record {
        id = ap (λ (b : Bp). b.id) same;
        flags = ap (λ (b : Bp). b.flags) same;
        addr = ap (λ (b : Bp). b.addr) same;
        word = ap (λ (b : Bp). b.word) same;
        deleted =
            let d : y.deleted ≡ x.deleted = ap (λ (b : Bp). b.deleted) same in ground (arith, d);
      },
      Grows-sealed (n + 1) xs ys (tail_inj e),
    )

module _ {P : Type 0} where
  pub Survives-refl : (s : Dbg P) → Survives s s
  Survives-refl s = record {
    quit = ground arith;
    table = Grows-refl 0 s.breakpoints;
    printed = ([], sym (append-nil s.out));
  }

  pub Survives-trans : (s t u : Dbg P) → Survives s t → Survives t u → Survives s u
  Survives-trans s t u a b = record {
    quit = stays s.quit t.quit u.quit a.quit b.quit;
    table = Grows-trans 0 s.breakpoints t.breakpoints u.breakpoints a.table b.table;
    printed = (
      a.printed.0 ++ b.printed.0,
      b.printed.1
          ∙ ap (λ o. o ++ b.printed.0) a.printed.1
          ∙ append_assoc s.out a.printed.0 b.printed.0,
    );
  }

  pub Runs-Survives : (s t : Dbg P) → Runs s t → Survives s t
  Runs-Survives s t r = record {
    quit = r.quit;
    table = Grows-sealed 0 s.breakpoints t.breakpoints r.table;
    printed = r.printed;
  }
