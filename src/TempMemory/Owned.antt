-- ===== src/TempMemory/Owned.antt =====
-- The list holds live blocks, each of them once, and `tmp_free_all` frees just these.
use my_dbg.Base.{
  ℕ, ◌≡◌, ◌≢◌, refl, sym, ◌∙◌, ◌⊎◌, inl, inr, true, false, List, [], ◌∷◌, Option, none, some, arith,
  ◌==◌, ==_refl, if◌then◌else◌, All, Bool-cases,
}
use my_dbg.TempMemory.{Allocator, Blocks, Heap, HeapRes, put, free, tmp_free_rec, tmp_free_all}

-- The addresses that the list answers for: its nodes, and their pointers that are not NULL
abbrev pub pointers : List (ℕ × ℕ) → List ℕ
pointers [] = []
pointers ((node, ptr) ∷ rest) =
    let more = pointers rest in if ptr == 0 then node ∷ more else ptr ∷ node ∷ more

abbrev pub Live : Blocks → ℕ → Type 0
Live blocks p = (p ≢ 0) × (bytes : List ℕ) × (blocks p ≡ some bytes)

abbrev pub Unique : List ℕ → Type 0
Unique [] = Unit {0}
Unique (p ∷ ps) = All (λ q. q ≢ p) ps × Unique ps

-- What the list answers for is allocated, and no block is in it twice.
abbrev pub Owned : Heap → Type 0
Owned h = All (Live h.blocks) (pointers h.nodes) × Unique (pointers h.nodes)

-- `after` is `before` without the blocks at `ps`.
abbrev pub Freed : (ps : List ℕ) → (before after : Blocks) → Type 0
Freed ps before after =
    All (λ p. after p ≡ none) ps × ((q : ℕ) → All (λ p. p ≢ q) ps → after q ≡ before q)

pub put_self : (p : ℕ) (c : Option (List ℕ)) (b : Blocks) → put p c b p ≡ c
put_self p c b = rw (==_refl p) refl

pub put_other : (p q : ℕ) (c : Option (List ℕ)) (b : Blocks) → q ≢ p → put p c b q ≡ b q
put_other p q c b ne = let differ : (q == p) ≡ false = ground arith in rw differ refl

free-Live :
    (p : ℕ) (h : Heap)
    → Live h.blocks p
    → free p h ≡ HeapRes.ok tt (record h { blocks = put p none h.blocks })
unfolding free
free-Live p h (ne, bytes, e) =
    let some_ptr : (p == 0) ≡ false = ground arith in rw (some_ptr, e) refl

free_null : (p : ℕ) (h : Heap) → (p == 0) ≡ true → free p h ≡ HeapRes.ok tt h
unfolding free
free_null p h e = rw e refl

pub All-map : {P Q : ℕ → Type 0} (ps : List ℕ) → ((p : ℕ) → P p → Q p) → All P ps → All Q ps
All-map [] f h = tt
All-map (p ∷ ps) f (h, hs) = (f p h, All-map ps f hs)

-- Freeing a block keeps the others alive.
pub Live-put :
    (p : ℕ) (b : Blocks) (ps : List ℕ)
    → All (λ q. q ≢ p) ps
    → All (Live b) ps
    → All (Live (put p none b)) ps
Live-put p b [] ne h = tt
Live-put p b (q ∷ ps) (q_ne, ne) ((nz, bytes, e), h) =
    ((nz, bytes, put_other p q none b q_ne ∙ e), Live-put p b ps ne h)

Freed-step :
    (p : ℕ) (ps : List ℕ) (before after : Blocks)
    → All (λ q. q ≢ p) ps
    → Freed ps (put p none before) after
    → Freed (p ∷ ps) before after
Freed-step p ps before after ne (gone, same) = (
  (same p ne ∙ put_self p none before, gone),
  λ q (p_ne, rest). same q rest ∙ put_other p q none before (λ e. p_ne (sym e)),
)

-- `tmp_free_rec` frees a list of blocks that are allocated, each of them once.
tmp_free_rec-Freed :
    (l : List (ℕ × ℕ)) (h : Heap)
    → All (Live h.blocks) (pointers l)
    → Unique (pointers l)
    → (after : Blocks) × (tmp_free_rec l h ≡ HeapRes.ok tt (record h { blocks = after }))
      × Freed (pointers l) h.blocks after
unfolding tmp_free_rec
tmp_free_rec-Freed [] h live uniq = (h.blocks, refl, (tt, λ q x. refl))
tmp_free_rec-Freed ((node, ptr) ∷ rest) h live uniq = elim (Bool-cases (ptr == 0)) [
  | inl null ↦
      let (node_live, rest_live) = rw null at live in
      let (node_ne, rest_uniq) = rw null at uniq in
      let b1 : Blocks = put node none h.blocks in
      let (after, done, freed) =
        tmp_free_rec-Freed rest (record h { blocks = b1 })
          (Live-put node h.blocks (pointers rest) node_ne rest_live) rest_uniq in
      (
        after,
        rw (free_null ptr h null, free-Live node h node_live, tmp_free_rec) done,
        rw null (Freed-step node (pointers rest) h.blocks after node_ne freed),
      )
  | inr some_ptr ↦
      let (ptr_live, (node_live, rest_live)) = rw some_ptr at live in
      let ((node_ne_ptr, ptr_ne), (node_ne, rest_uniq)) = rw some_ptr at uniq in
      let b1 : Blocks = put ptr none h.blocks in
      let b2 : Blocks = put node none b1 in
      let (node_live1, rest_live1) =
        Live-put ptr h.blocks (node ∷ pointers rest) (node_ne_ptr, ptr_ne) (node_live, rest_live) in
      let (after, done, freed) =
        tmp_free_rec-Freed rest (record h { blocks = b2 })
          (Live-put node b1 (pointers rest) node_ne rest_live1) rest_uniq in
      (
        after,
        rw
            (
              free-Live ptr h ptr_live,
              free-Live node (record h { blocks = b1 }) node_live1,
              tmp_free_rec,
            )
            done,
        rw some_ptr (
            Freed-step ptr (node ∷ pointers rest) h.blocks after (node_ne_ptr, ptr_ne)
              (Freed-step node (pointers rest) b1 after node_ne freed)),
      )
]

-- Where the list holds live blocks, each of them once, `tmp_free_all` frees each of these once and
-- no other block, and empties the list.
pub tmp_free_all-Freed :
    (h : Heap)
    → Owned h
    → (after : Blocks) × (tmp_free_all h ≡ HeapRes.ok tt (record { blocks = after; nodes = [] }))
      × Freed (pointers h.nodes) h.blocks after
unfolding tmp_free_all
tmp_free_all-Freed h (live, uniq) =
    let (after, done, freed) = tmp_free_rec-Freed h.nodes h live uniq in
    (after, rw (done, tmp_free_all) refl, freed)

-- What the C library says of an allocator: a new block is not at NULL and not at a live address,
-- and a moved one stays where it was or is there.
pub record IsAllocator (al : Allocator) : Type 0 where
  pub fresh_lem : (size p : ℕ) (b : Blocks) → al.fresh size b ≡ some p → (p ≢ 0) × (b p ≡ none)
  pub place_lem :
      (ptr size p : ℕ) (b : Blocks)
      → al.place ptr size b ≡ some p
      → (p ≢ 0) × ((p ≡ ptr) ⊎ (b p ≡ none))
