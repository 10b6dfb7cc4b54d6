-- ===== src/TempMemory/Fresh.antt =====
-- What `tmp_malloc` keeps.
use my_dbg.Base.{
  ℕ, ◌≡◌, ◌≢◌, sym, ◌∙◌, ap, inl, inr, false, List, [], ◌∷◌, Option, none, some, arith, ◌==◌, All,
  Option-cases,
}
use my_dbg.TempMemory.{
  Allocator, Blocks, Heap, HeapRes, ok, thrown, exited, fault, put, malloc, unspecified, my_malloc,
  add_ptr, keep, tmp_malloc,
}
use my_dbg.TempMemory.Owned.{pointers, Live, Owned, IsAllocator, put_self, put_other}

-- How an allocation ends: it returns an address, throws or exits, and is never undefined.
abbrev pub After : (ℕ → Heap → Type 0) → (Heap → Type 0) → HeapRes ℕ → Type 0
After Q E (ok p t) = Q p t
After Q E (thrown t) = E t
After Q E exited = Unit {0}
After Q E fault = ⊥

-- A new block is at none of the live addresses.
pub unused-All :
    (p : ℕ) (b : Blocks) (ps : List ℕ) → b p ≡ none → All (Live b) ps → All (λ q. q ≢ p) ps
unused-All p b [] free h = tt
unused-All p b (q ∷ ps) free ((nz, bytes, e), h) =
    (λ same. none≢some bytes (sym free ∙ (ap b (sym same) ∙ e)), unused-All p b ps free h)
  where
    none≢some : (bytes : List ℕ) → none ≢ some bytes
    none≢some bytes e = cc

pub Live-new :
    (p : ℕ) (c : Option (List ℕ)) (b : Blocks) (ps : List ℕ)
    → All (λ q. q ≢ p) ps
    → All (Live b) ps
    → All (Live (put p c b)) ps
Live-new p c b [] ne h = tt
Live-new p c b (q ∷ ps) (q_ne, ne) ((nz, bytes, e), h) =
    ((nz, bytes, put_other p q c b q_ne ∙ e), Live-new p c b ps ne h)

-- What `keep` makes of a new block with these bytes
abbrev pub Fresh : Heap → (content : List ℕ) → ℕ → Heap → Type 0
Fresh h content p t =
    Owned t
    × (p ≢ 0)
    × (h.blocks p ≡ none)
    × (t.blocks p ≡ some content)
    × ((q : ℕ) → Live h.blocks q → t.blocks q ≡ h.blocks q)

module _ (al : Allocator) (law : IsAllocator al) where
  keep-Fresh :
      (size : ℕ) (content : List ℕ) (h : Heap)
      → Owned h
      → After (Fresh h content) Owned (keep al (malloc al size content h))
  unfolding keep malloc add_ptr my_malloc
  keep-Fresh size content h (live, uniq) = elim (Option-cases (al.fresh size h.blocks)) [
    | inl no_room ↦ rw (no_room, After) (live, uniq)
    | inr (p, found) ↦
        let (p_nz, p_free) = law.fresh_lem size p h.blocks found in
        let p_ptr : (p == 0) ≡ false = ground arith in
        let b1 : Blocks = put p (some content) h.blocks in
        rw (found, After)
          (rw (p_ptr, After)
            (elim (Option-cases (al.fresh 16 b1)) [
              | inl no_node ↦ rw (no_node, After) tt
              | inr (node, found1) ↦
                  let (n_nz, n_free) = law.fresh_lem 16 node b1 found1 in
                  let n_ptr : (node == 0) ≡ false = ground arith in
                  rw (found1, After)
                    (rw (n_ptr, After)
                      (rw p_ptr
                        let ps : List ℕ = pointers h.nodes in
                          let live1 : All (Live b1) (p ∷ ps) = (
                            (p_nz, content, put_self p (some content) h.blocks),
                            Live-new p (some content) h.blocks ps
                                (unused-All p h.blocks ps p_free live) live,
                          ) in
                          let ne_n : All (λ q. q ≢ node) (p ∷ ps) =
                            unused-All node b1 (p ∷ ps) n_free live1 in
                          let (p_live, ps_live) =
                            Live-new node (some (unspecified al 16 0)) b1 (p ∷ ps) ne_n live1 in
                          (
                            (
                              (
                                p_live,
                                (
                                  (
                                    n_nz,
                                    unspecified al 16 0,
                                    put_self node (some (unspecified al 16 0)) b1,
                                  ),
                                  ps_live,
                                ),
                              ),
                              (
                                ((λ e. ne_n.0 (sym e)), unused-All p h.blocks ps p_free live),
                                (ne_n.1, uniq),
                              ),
                            ),
                            p_nz,
                            p_free,
                            put_other node p (some (unspecified al 16 0)) b1 ne_n.0
                                ∙ put_self p (some content) h.blocks,
                            λ q q_live.
                                let (q_ne, _) =
                                  unused-All p h.blocks (q ∷ []) p_free (q_live, tt) in
                                let q_live1 =
                                  Live-new p (some content) h.blocks (q ∷ []) (q_ne, tt)
                                    (q_live, tt) in
                                put_other node q (some (unspecified al 16 0)) b1
                                  (unused-All node b1 (q ∷ []) n_free q_live1).0
                                ∙ put_other p q (some content) h.blocks q_ne,
                          )))
            ]))
  ]

  -- From a list of live blocks, each in it once, `tmp_malloc` throws or exits, or returns a block
  -- that was free and puts it in the list; the other blocks keep their bytes.
  pub tmp_malloc-Fresh :
      (size : ℕ) (h : Heap)
      → Owned h
      → After (Fresh h (unspecified al size 0)) Owned (tmp_malloc al size h)
  unfolding tmp_malloc
  tmp_malloc-Fresh size h owned = keep-Fresh size (unspecified al size 0) h owned
