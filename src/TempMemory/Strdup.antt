-- ===== src/TempMemory/Strdup.antt =====
-- `tmp_strdup` of src/utils/temp_memory_utils.c, and `my_calloc` and `my_realloc` of
-- src/utils/memory_utils.c.
use my_dbg.Base.{
  ℕ, ◌+◌, ◌*◌, ◌≡◌, Bool, not, ◌&&◌, List, [], ◌∷◌, ◌++◌, some, Text, ◌==◌, if◌then◌else◌, length,
}
use my_dbg.TempMemory.{
  Allocator, Heap, HeapRes, ok, thrown, exited, fault, put, malloc, realloc, zero_bytes,
  unspecified, tmp_malloc,
}
use my_dbg.TempMemory.Owned.{pointers, Owned, IsAllocator, put_self}
use my_dbg.TempMemory.Fresh.{After, Fresh, tmp_malloc-Fresh}
use my_dbg.TempMemory.Copy.{Live-self}

-- The test behind a call of the allocator
unfoldable pub exhausted : (needed : Bool) → HeapRes ℕ → HeapRes ℕ
exhausted needed (ok p h) = if needed && p == 0 then HeapRes.exited else HeapRes.ok p h
exhausted needed (thrown h) = HeapRes.thrown h
exhausted needed exited = HeapRes.exited
exhausted needed fault = HeapRes.fault

unfoldable pub my_calloc : Allocator → (nmemb size : ℕ) → Heap → HeapRes ℕ
unfolding exhausted malloc
my_calloc al nmemb size h =
    exhausted (not (nmemb == 0) && not (size == 0))
      (malloc al (nmemb * size) (zero_bytes (nmemb * size)) h)

unfoldable pub my_realloc : Allocator → (ptr size : ℕ) → Heap → HeapRes ℕ
unfolding exhausted realloc
my_realloc al ptr size h = exhausted (not (size == 0)) (realloc al ptr size h)

-- `strcpy`
unfoldable pub copy_string : Text → HeapRes ℕ → HeapRes ℕ
copy_string s (ok p h) = HeapRes.ok p (record h { blocks = put p (some (s ++ 0 ∷ [])) h.blocks })
copy_string s (thrown h) = HeapRes.thrown h
copy_string s exited = HeapRes.exited
copy_string s fault = HeapRes.fault

-- `s` is the text that the argument points to.
unfoldable pub tmp_strdup : Allocator → Text → Heap → HeapRes ℕ
unfolding copy_string tmp_malloc
tmp_strdup al s h = copy_string s (tmp_malloc al (length s + 1) h)

-- The list is in order, and the text and its terminator stand in the block.
abbrev pub Duplicate : Text → ℕ → Heap → Type 0
Duplicate s p t = Owned t × (t.blocks p ≡ some (s ++ 0 ∷ []))

copy_string-Duplicate :
    (s : Text) (content : List ℕ) (h : Heap) (r : HeapRes ℕ)
    → After (Fresh h content) Owned r
    → After (Duplicate s) Owned (copy_string s r)
unfolding copy_string
copy_string-Duplicate s content h (ok p t) ((live, uniq), p_nz, p_free, new, same) = (
  (Live-self p (s ++ 0 ∷ []) t.blocks (pointers t.nodes) p_nz live, uniq),
  put_self p (some (s ++ 0 ∷ [])) t.blocks,
)
copy_string-Duplicate s content h (thrown t) owned = owned
copy_string-Duplicate s content h exited owned = tt
copy_string-Duplicate s content h fault owned = owned

-- From a list of live blocks, each in it once, `tmp_strdup` throws or exits, or returns a block with
-- the text and its terminator; the list still holds live blocks, each of them once.
pub tmp_strdup-Duplicate :
    (al : Allocator) (law : IsAllocator al) (s : Text) (h : Heap)
    → Owned h
    → After (Duplicate s) Owned (tmp_strdup al s h)
unfolding tmp_strdup
tmp_strdup-Duplicate al law s h owned =
    copy_string-Duplicate s (unspecified al (length s + 1) 0) h (tmp_malloc al (length s + 1) h)
      (tmp_malloc-Fresh al law (length s + 1) h owned)
