-- ===== src/Tests/Store.antt =====
-- Temporary memory.
use my_dbg.Base.{
  Bool-cases, some_inj, ℕ, ◌≡◌, ◌≢◌, refl, sym, ◌⊎◌, inl, inr, List, [], ◌∷◌, Option, none, some,
  arith, ◌==◌, if◌then◌else◌,
}
use my_dbg.TempMemory.{Allocator, Blocks, Heap, HeapRes, put, tmp_free_all, tmp_realloc}
use my_dbg.TempMemory.Owned.{Freed, IsAllocator, Owned, tmp_free_all-Freed}
use my_dbg.TempMemory.Fresh.{After}
use my_dbg.TempMemory.Copy.{Copied, tmp_realloc-Copied}

-- An address if it is not live
abbrev if_free : (p : ℕ) → Option (List ℕ) → Option ℕ
if_free p none = some p
if_free p (some bytes) = none

-- An allocator with one place for new blocks, which never moves a block
abbrev small : Allocator
small = record {
  fresh = λ size b. if_free 0x5000 (b 0x5000);
  place = λ ptr size b. if ptr == 0 then none else some ptr;
  junk = λ i. 0xaa;
}

if_free_lem : (p q : ℕ) (o : Option (List ℕ)) → if_free p o ≡ some q → (q ≡ p) × (o ≡ none)
if_free_lem p q none e = (cc, refl)
if_free_lem p q (some bytes) e = cc

fresh_small : (p : ℕ) (b : Blocks) → if_free 0x5000 (b 0x5000) ≡ some p → (p ≢ 0) × (b p ≡ none)
fresh_small p b e =
    let (at, free) = if_free_lem 0x5000 p (b 0x5000) e in ((λ z. omega arith), rw at free)

none-≢some : {G : Type 0} {p : ℕ} → none ≡ some p → G
none-≢some e = cc

place_small :
    (ptr p : ℕ) (b : Blocks)
    → (if ptr == 0 then none else some ptr) ≡ some p
    → (p ≢ 0) × ((p ≡ ptr) ⊎ (b p ≡ none))
place_small ptr p b e = elim (Bool-cases (ptr == 0)) [
  | inl null ↦ none-≢some (rw null at e)
  | inr some_ptr ↦
      let same : ptr ≡ p = some_inj (rw some_ptr at e) in ((λ z. ground arith), inl (sym same))
]

small-IsAllocator : IsAllocator small
small-IsAllocator = record {
  fresh_lem = λ size p b e. fresh_small p b e;
  place_lem = λ ptr size p b e. place_small ptr p b e;
}

-- Two nodes at 0x1000 and 0x2000, whose pointers are 0x3000 and 0x4000
abbrev two_blocks : Heap
two_blocks = record {
  blocks = put 0x1000 (some (1 ∷ [])) (
      put 0x2000 (some (2 ∷ []))
        (put 0x3000 (some (7 ∷ 8 ∷ [])) (put 0x4000 (some (9 ∷ [])) (λ p. none))));
  nodes = (0x1000, 0x3000) ∷ (0x2000, 0x4000) ∷ [];
}

two_blocks-Owned : Owned two_blocks
two_blocks-Owned = (
  (
    ((λ e. omega arith), _, refl),
    (
      ((λ e. omega arith), _, refl),
      (((λ e. omega arith), _, refl), (((λ e. omega arith), _, refl), tt)),
    ),
  ),
  (
    ((λ e. omega arith), ((λ e. omega arith), ((λ e. omega arith), tt))),
    (((λ e. omega arith), ((λ e. omega arith), tt)), (((λ e. omega arith), tt), (tt, tt))),
  ),
)

tmp_free_all-Freed_example :
    (after : Blocks) × (tmp_free_all two_blocks
      ≡ HeapRes.ok tt (record { blocks = after; nodes = [] }))
    × Freed (0x3000 ∷ 0x1000 ∷ 0x4000 ∷ 0x2000 ∷ []) two_blocks.blocks after
tmp_free_all-Freed_example = tmp_free_all-Freed two_blocks two_blocks-Owned

tmp_realloc-Copied_example :
    After (Copied (7 ∷ 8 ∷ []) 2) Owned (tmp_realloc small 0x3000 2 5 two_blocks)
tmp_realloc-Copied_example =
    tmp_realloc-Copied small small-IsAllocator two_blocks (7 ∷ 8 ∷ []) 0x3000 2 5 two_blocks-Owned
      (λ e. omega arith) refl (omega arith)
