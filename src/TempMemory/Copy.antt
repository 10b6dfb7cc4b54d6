-- ===== src/TempMemory/Copy.antt =====
-- What `tmp_realloc` keeps.
use my_dbg.Base.{
  ℕ, zero, suc, ◌+◌, ◌≤◌, ◌≡◌, ◌≢◌, refl, ◌∙◌, ap, inl, inr, true, false, List, [], ◌∷◌, ◌++◌, none,
  some, arith, ltb, leb, ◌==◌, if◌then◌else◌, length, take, drop, All, Bool-cases, Option-cases,
}
use my_dbg.TempMemory.{
  Allocator, Blocks, Heap, HeapRes, ok, thrown, exited, fault, put, unspecified, tmp_malloc, resize,
  realloc, replace_head, copy_old, memcpy, realloc_from, tmp_realloc,
}
use my_dbg.TempMemory.Owned.{
  pointers, Live, Unique, Owned, IsAllocator, All-map, put_self, Live-put,
}
use my_dbg.TempMemory.Fresh.{After, unused-All, Live-new, Fresh, tmp_malloc-Fresh}

abbrev smaller : (a b : ℕ) → ℕ
smaller a b = if ltb a b then a else b

take-append_le : (n : ℕ) (xs ys : List ℕ) → n ≤ length xs → take n (xs ++ ys) ≡ take n xs
take-append_le zero xs ys h = refl
take-append_le (suc n) [] ys h = absurd (omega arith)
take-append_le (suc n) (x ∷ xs) ys h = ap (◌∷◌ x) (take-append_le n xs ys (omega arith))

take-take_le : (n m : ℕ) (xs : List ℕ) → n ≤ m → take n (take m xs) ≡ take n xs
take-take_le zero m xs h = refl
take-take_le (suc n) zero xs h = absurd (omega arith)
take-take_le (suc n) (suc m) [] h = refl
take-take_le (suc n) (suc m) (x ∷ xs) h = ap (◌∷◌ x) (take-take_le n m xs (omega arith))

length-take_le : (n : ℕ) (xs : List ℕ) → n ≤ length xs → length (take n xs) ≡ n
length-take_le zero xs h = refl
length-take_le (suc n) [] h = absurd (omega arith)
length-take_le (suc n) (x ∷ xs) h = ap suc (length-take_le n xs (omega arith))

length-unspecified : (al : Allocator) (size i : ℕ) → length (unspecified al size i) ≡ size
unfolding unspecified
length-unspecified al zero i = refl
length-unspecified al (suc size) i = ap suc (length-unspecified al size (i + 1))

-- The list is in order, and the block starts with the first bytes of the old one.
abbrev pub Copied : (old : List ℕ) → (count : ℕ) → ℕ → Heap → Type 0
Copied old count p t =
    Owned t × (bytes : List ℕ) × (t.blocks p ≡ some bytes) × (take count bytes ≡ take count old)

pub Live-self :
    (p : ℕ) (c : List ℕ) (b : Blocks) (ps : List ℕ)
    → p ≢ 0
    → All (Live b) ps
    → All (Live (put p (some c) b)) ps
Live-self p c b [] nz h = tt
Live-self p c b (q ∷ ps) nz ((q_nz, bytes, e), h) = elim (Bool-cases (q == p)) [
  | inl same ↦ ((q_nz, c, rw same refl), Live-self p c b ps nz h)
  | inr differ ↦ ((q_nz, bytes, rw differ e), Live-self p c b ps nz h)
]

module _ (al : Allocator) (law : IsAllocator al) where
  copy_old-Copied :
      (h : Heap) (old : List ℕ) (old_ptr old_size new_size : ℕ) (content : List ℕ) (r : HeapRes ℕ)
      → old_ptr ≢ 0
      → h.blocks old_ptr ≡ some old
      → smaller old_size new_size ≤ length old
      → smaller old_size new_size ≤ length content
      → After (Fresh h content) Owned r
      → After (Copied old (smaller old_size new_size)) Owned (copy_old old_ptr old_size new_size r)
  unfolding copy_old memcpy
  copy_old-Copied h old old_ptr old_size new_size content (thrown t) nz held fits fits' owned =
      owned
  copy_old-Copied h old old_ptr old_size new_size content exited nz held fits fits' owned = tt
  copy_old-Copied h old old_ptr old_size new_size content fault nz held fits fits' owned = owned
  copy_old-Copied h old old_ptr old_size new_size content (ok p t) nz held fits fits'
        ((live, uniq), p_nz, p_free, new, same) =
      let count = smaller old_size new_size in
      let some_ptr : (old_ptr == 0) ≡ false = ground arith in
      let from : t.blocks old_ptr ≡ some old = same old_ptr (nz, old, held) ∙ held in
      let in_old : leb count (length old) ≡ true = ground arith in
      let in_new : leb count (length content) ≡ true = ground arith in
      let front : List ℕ = take count old in
      let bytes : List ℕ = front ++ drop count content in
      let whole : count ≤ length front = omega (arith, length-take_le count old fits) in
      rw (some_ptr, After)
        (rw (new, After)
          (rw (from, After)
            (rw (in_old, in_new)
              (
                (Live-self p bytes t.blocks (pointers t.nodes) p_nz live, uniq),
                bytes,
                put_self p (some bytes) t.blocks,
                take-append_le count front (drop count content) whole
                    ∙ take-take_le count count old (omega arith),
              ))))

  resize-Copied :
      (h : Heap) (old : List ℕ) (node old_ptr new_size count : ℕ) (rest : List (ℕ × ℕ))
      → old_ptr ≢ 0
      → count ≤ length old
      → count ≤ new_size
      → All (Live h.blocks) (old_ptr ∷ node ∷ pointers rest)
      → Unique (old_ptr ∷ node ∷ pointers rest)
      → After
          (Copied old count)
          Owned
          (replace_head node rest (resize al old_ptr new_size (some old) h))
  unfolding replace_head resize
  resize-Copied h old node old_ptr new_size count rest nz fits small (old_live, live)
        (old_ne, uniq) =
      elim (Option-cases (al.place old_ptr new_size h.blocks)) [
        | inl full ↦ rw (full, After) (live, uniq)
        | inr (p, placed) ↦
            let (p_nz, where_p) = law.place_lem old_ptr new_size p h.blocks placed in
            let some_p : (p == 0) ≡ false = ground arith in
            let bytes : List ℕ = take new_size (old ++ unspecified al new_size 0) in
            let ps : List ℕ = node ∷ pointers rest in
            let b1 : Blocks = put old_ptr none h.blocks in
            let ne_p : All (λ q. q ≢ p) ps = elim where_p [
              | inl same ↦ All-map ps (λ q ne e. ne (e ∙ same)) old_ne
              | inr free ↦ unused-All p h.blocks ps free live
            ] in
            rw (placed, After)
              (rw (some_p, After)
                (rw some_p (
                  (
                    (
                      (p_nz, bytes, put_self p (some bytes) b1),
                      Live-new p (some bytes) b1 ps ne_p (Live-put old_ptr h.blocks ps old_ne live),
                    ),
                    (ne_p, uniq),
                  ),
                  bytes,
                  put_self p (some bytes) b1,
                  take-take_le count new_size (old ++ unspecified al new_size 0) small
                      ∙ take-append_le count old (unspecified al new_size 0) fits,
                )))
      ]

  -- Of a live block of at least `old_size` bytes, `tmp_realloc` returns one that starts with the
  -- same bytes, as many as fit in the smaller of the two sizes, or throws or exits. In each case
  -- the list still holds live blocks, each of them once.
  pub tmp_realloc-Copied :
      (h : Heap) (old : List ℕ) (old_ptr old_size new_size : ℕ)
      → Owned h
      → old_ptr ≢ 0
      → h.blocks old_ptr ≡ some old
      → old_size ≤ length old
      → After
          (Copied old (smaller old_size new_size))
          Owned
          (tmp_realloc al old_ptr old_size new_size h)
  unfolding tmp_realloc realloc_from realloc
  tmp_realloc-Copied h old old_ptr old_size new_size owned nz held fits = go h.nodes owned
    where
      moved :
          After
            (Copied old (smaller old_size new_size))
            Owned
            (copy_old old_ptr old_size new_size (tmp_malloc al new_size h))
      moved =
          copy_old-Copied h old old_ptr old_size new_size (unspecified al new_size 0)
            (tmp_malloc al new_size h) nz held (ground arith)
            (ground (arith, length-unspecified al new_size 0))
            (tmp_malloc-Fresh al law new_size h owned)

      go :
          (l : List (ℕ × ℕ))
          → All (Live h.blocks) (pointers l) × Unique (pointers l)
          → After
              (Copied old (smaller old_size new_size))
              Owned
              (realloc_from al old_ptr old_size new_size l h)
      go [] own = moved
      go ((node, ptr) ∷ rest) (live, uniq) = elim (Bool-cases (ptr == old_ptr)) [
        | inr other ↦ rw other moved
        | inl head ↦
            let same : ptr ≡ old_ptr = ground arith in
            let some_ptr : (old_ptr == 0) ≡ false = ground arith in
            rw head (
              rw (some_ptr, held)
                (resize-Copied h old node old_ptr new_size (smaller old_size new_size) rest nz
                  (ground arith) (ground arith) (rw (same, some_ptr) at live)
                  (rw (same, some_ptr) at uniq)))
      ]
