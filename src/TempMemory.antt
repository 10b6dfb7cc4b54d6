-- ===== src/TempMemory.antt =====
-- src/utils/temp_memory_utils.c and src/utils/memory_utils.c: blocks that the debugger frees after
-- every command. The allocator of the C library is the parameter `Allocator`.
pub mod Owned
pub mod Fresh
pub mod Copy
pub mod Strdup
use my_dbg.Base.{
  ℕ, zero, suc, ◌+◌, ◌-◌, Bool, true, false, not, ◌&&◌, List, [], ◌∷◌, ◌++◌, Option, none, some,
  Text, ltb, leb, ◌==◌, if◌then◌else◌, length, take, drop,
}

-- The live blocks: their bytes by their address
abbrev pub Blocks : Type 0
Blocks = ℕ → Option (List ℕ)

-- What the allocator chooses: the address of a new block of so many bytes, the address that a block
-- is moved to when it is given another size, `none` where it returns NULL, and the bytes that C
-- leaves unspecified.
pub record Allocator : Type 0 where
  pub fresh : (size : ℕ) → Blocks → Option ℕ
  pub place : (ptr size : ℕ) → Blocks → Option ℕ
  pub junk : ℕ → ℕ

-- The blocks, and the list of `struct my_ptr_list` from `list` on: the address of the node and its
-- `ptr`. 0 is NULL.
pub record Heap : Type 0 where
  pub blocks : Blocks
  pub nodes : List (ℕ × ℕ)

-- `thrown` is a `MemoryException`, `exited` the `err` of `memory_exhausted`, and `fault` a use of
-- memory that is not allocated.
pub data HeapRes (A : Type 0) : Type 0 where
  ok : A → Heap → HeapRes A
  thrown : Heap → HeapRes A
  exited : HeapRes A
  fault : HeapRes A

abbrev pub put : ℕ → Option (List ℕ) → Blocks → Blocks
put p content blocks = λ q. if q == p then content else blocks q

-- `size` bytes of a new block, from index `i` on
unfoldable pub unspecified : Allocator → (size i : ℕ) → List ℕ
unspecified al zero i = []
unspecified al (suc size) i = al.junk i ∷ unspecified al size (i + 1)

-- `free`
unfoldable pub free : ℕ → Heap → HeapRes (Unit {0})
free p h = if p == 0 then HeapRes.ok tt h else elim (h.blocks p) [
  | none ↦ HeapRes.fault
  | some _ ↦ HeapRes.ok tt (record h { blocks = put p none h.blocks })
]

-- `malloc`, with the bytes of the new block; `calloc` is the same with zeros.
unfoldable pub malloc : Allocator → (size : ℕ) → (content : List ℕ) → Heap → HeapRes ℕ
malloc al size content h = elim (al.fresh size h.blocks) [
  | none ↦ HeapRes.ok 0 h
  | some p ↦ HeapRes.ok p (record h { blocks = put p (some content) h.blocks })
]

-- `realloc` of a block with these bytes
unfoldable pub resize : Allocator → (ptr size : ℕ) → Option (List ℕ) → Heap → HeapRes ℕ
unfolding unspecified
resize al ptr size none h = HeapRes.fault
resize al ptr size (some bytes) h = elim (al.place ptr size h.blocks) [
  | none ↦ HeapRes.ok 0 h
  | some p ↦ HeapRes.ok p (record h {
    blocks = put p (some (take size (bytes ++ unspecified al size 0))) (put ptr none h.blocks);
  })
]

unfoldable pub realloc : Allocator → (ptr size : ℕ) → Heap → HeapRes ℕ
unfolding malloc resize unspecified
realloc al ptr size h =
    if ptr == 0
    then malloc al size (unspecified al size 0) h
    else resize al ptr size (h.blocks ptr) h

-- `my_malloc` of a size that is not 0, and what follows it
unfoldable pub my_malloc :
    {A : Type 0} → Allocator → (size : ℕ) → Heap → (ℕ → Heap → HeapRes A) → HeapRes A
unfolding malloc unspecified
my_malloc al size h next = elim (malloc al size (unspecified al size 0) h) [
  | ok p h' ↦ if p == 0 then HeapRes.exited else next p h'
  | thrown h' ↦ HeapRes.thrown h'
  | exited ↦ HeapRes.exited
  | fault ↦ HeapRes.fault
]

-- A node takes 16 bytes.
unfoldable pub add_ptr : Allocator → (ptr : ℕ) → Heap → HeapRes ℕ
unfolding my_malloc
add_ptr al ptr h =
    my_malloc al 16 h (λ node h'. HeapRes.ok ptr (record h' { nodes = (node, ptr) ∷ h'.nodes }))

unfoldable pub keep : Allocator → HeapRes ℕ → HeapRes ℕ
unfolding add_ptr
keep al (ok ptr h) = if ptr == 0 then HeapRes.thrown h else add_ptr al ptr h
keep al (thrown h) = HeapRes.thrown h
keep al exited = HeapRes.exited
keep al fault = HeapRes.fault

unfoldable pub tmp_malloc : Allocator → (size : ℕ) → Heap → HeapRes ℕ
unfolding keep malloc
tmp_malloc al size h = keep al (malloc al size (unspecified al size 0) h)

abbrev pub zero_bytes : ℕ → List ℕ
zero_bytes zero = []
zero_bytes (suc n) = 0 ∷ zero_bytes n

-- `tmp_calloc(size, 1)`
unfoldable pub tmp_calloc : Allocator → (size : ℕ) → Heap → HeapRes ℕ
unfolding keep malloc
tmp_calloc al size h = keep al (malloc al size (zero_bytes size) h)

-- `memcpy(ptr, old_ptr, count)`: both blocks are to hold so many bytes.
unfoldable pub memcpy : (ptr old_ptr count : ℕ) → Heap → HeapRes ℕ
memcpy ptr old_ptr count h = elim (h.blocks ptr) [
  | none ↦ HeapRes.fault
  | some to ↦ elim (h.blocks old_ptr) [
    | none ↦ HeapRes.fault
    | some from ↦
        if leb count (length from) && leb count (length to)
        then HeapRes.ok ptr
            (record h { blocks = put ptr (some (take count from ++ drop count to)) h.blocks })
        else HeapRes.fault
  ]
]

-- The head of the list with what `realloc` gave
unfoldable pub replace_head : (node : ℕ) → (rest : List (ℕ × ℕ)) → HeapRes ℕ → HeapRes ℕ
replace_head node rest (ok p h) =
    if p == 0
    then HeapRes.thrown (record h { nodes = (node, p) ∷ rest })
    else HeapRes.ok p (record h { nodes = (node, p) ∷ rest })
replace_head node rest (thrown h) = HeapRes.thrown h
replace_head node rest exited = HeapRes.exited
replace_head node rest fault = HeapRes.fault

unfoldable pub copy_old : (old_ptr old_size new_size : ℕ) → HeapRes ℕ → HeapRes ℕ
unfolding memcpy
copy_old old_ptr old_size new_size (ok p h) =
    if old_ptr == 0
    then HeapRes.ok p h
    else memcpy p old_ptr (if ltb old_size new_size then old_size else new_size) h
copy_old old_ptr old_size new_size (thrown h) = HeapRes.thrown h
copy_old old_ptr old_size new_size exited = HeapRes.exited
copy_old old_ptr old_size new_size fault = HeapRes.fault

unfoldable pub realloc_from :
    Allocator → (old_ptr old_size new_size : ℕ) → List (ℕ × ℕ) → Heap → HeapRes ℕ
unfolding tmp_malloc copy_old realloc replace_head
realloc_from al old_ptr old_size new_size [] h =
    copy_old old_ptr old_size new_size (tmp_malloc al new_size h)
realloc_from al old_ptr old_size new_size ((node, ptr) ∷ rest) h =
    if ptr == old_ptr
    then replace_head node rest (realloc al old_ptr new_size h)
    else copy_old old_ptr old_size new_size (tmp_malloc al new_size h)

unfoldable pub tmp_realloc : Allocator → (old_ptr old_size new_size : ℕ) → Heap → HeapRes ℕ
unfolding realloc_from
tmp_realloc al old_ptr old_size new_size h = realloc_from al old_ptr old_size new_size h.nodes h

unfoldable pub tmp_free_rec : List (ℕ × ℕ) → Heap → HeapRes (Unit {0})
unfolding free
tmp_free_rec [] h = HeapRes.ok tt h
tmp_free_rec ((node, ptr) ∷ rest) h = elim (free ptr h) [
  | ok _ h1 ↦ elim (free node h1) [
    | ok _ h2 ↦ tmp_free_rec rest h2
    | thrown h2 ↦ HeapRes.thrown h2
    | exited ↦ HeapRes.exited
    | fault ↦ HeapRes.fault
  ]
  | thrown h1 ↦ HeapRes.thrown h1
  | exited ↦ HeapRes.exited
  | fault ↦ HeapRes.fault
]

-- `list` is still set while the blocks are freed.
unfoldable pub tmp_free_all : Heap → HeapRes (Unit {0})
unfolding tmp_free_rec
tmp_free_all h = elim (tmp_free_rec h.nodes h) [
  | ok _ h' ↦ HeapRes.ok tt (record h' { nodes = [] })
  | thrown h' ↦ HeapRes.thrown h'
  | exited ↦ HeapRes.exited
  | fault ↦ HeapRes.fault
]
