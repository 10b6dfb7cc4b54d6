-- ===== src/MemMappings/Find.antt =====
-- What the scanned lines and `find_mem_mappings` give.
use my_dbg.Base.{
  ℕ, ◌≤◌, ◌<◌, ◌&&◌, List, [], ◌∷◌, Option, none, some, arith, ltb, leb, Bool-cases, inl, inr,
}
use my_dbg.MemMappings.{MyMemMapping, find_mem_mappings}

abbrev pub Covers : MyMemMapping → ℕ → Type 0
Covers m addr = (m.start ≤ addr) × (addr < m.end)

-- The first mapping that covers the address, or `none` where none does
pub data FirstCover (addr : ℕ) : List MyMemMapping → Option MyMemMapping → Type 0 where
  end : FirstCover addr [] none
  first :
      (m : MyMemMapping) (ms : List MyMemMapping)
      → Covers m addr
      → FirstCover addr (m ∷ ms) (some m)
  later :
      (m : MyMemMapping) (ms : List MyMemMapping) (r : Option MyMemMapping)
      → (Covers m addr → ⊥)
      → FirstCover addr ms r
      → FirstCover addr (m ∷ ms) r

-- `find_mem_mappings` gives the first mapping that covers the address, and NULL only if none does.
pub find_mem_mappings-FirstCover :
    (mappings : List MyMemMapping) (addr : ℕ)
    → FirstCover addr mappings (find_mem_mappings mappings addr)
unfolding find_mem_mappings
find_mem_mappings-FirstCover [] addr = FirstCover.end
find_mem_mappings-FirstCover (m ∷ ms) addr =
    elim (Bool-cases (leb m.start addr && ltb addr m.end)) [
      | inl inside ↦ rw inside (FirstCover.first m ms (ground arith, ground arith))
      | inr outside ↦ rw outside (
          FirstCover.later m ms _ (λ (low, high). ground arith)
            (find_mem_mappings-FirstCover ms addr))
    ]
