-- ===== src/Memory/Strings.antt =====
-- What `read_memory` and `read_mem_string` give.
use mathlib.Core.List.{append_assoc, append-nil}
use my_dbg.Base.{
  ℕ, zero, suc, ◌+◌, ◌-◌, ◌<◌, ◌≡◌, ◌⊎◌, refl, ◌∙◌, ap, true, false, List, [], ◌∷◌, ◌++◌, some,
  Text, All, arith, ◌==◌, ==_iff, length, length-append, Bool-cases, Option-cases, inl, inr,
}
use my_dbg.Debugger.{MyException, Dbg, ok}
use my_dbg.Debugger.Exceptions.{throw}
use my_dbg.Memory.{
  Memory, zeros, buffer_size, read_whole, read_memory, add_char, string_loop, read_mem_string,
}

pub length-zeros : (n : ℕ) → length (zeros n) ≡ n
length-zeros zero = refl
length-zeros (suc n) = ap suc (length-zeros n)

module _ {P : Type 0} ⦃mem : Memory P⦄ where
  -- The bytes at an address, one after the other
  abbrev pub HasBytes : Dbg P → (addr : ℕ) → Text → Type 0
  HasBytes s addr [] = Unit {0}
  HasBytes s addr (c ∷ cs) =
      (mem.pread s.pid addr 1 s.process ≡ some (c ∷ [])) × HasBytes s (addr + 1) cs

  string_loop_lem :
      (s : Dbg P) (t buf : Text) (addr fuel : ℕ)
      → ((n : ℕ) → mem.allocates n s.process ≡ true)
      → All (λ c. (c == 0) ≡ false) t
      → HasBytes s (addr + length buf) (t ++ 0 ∷ [])
      → length t < fuel
      → string_loop fuel addr buf s ≡ ok (buf ++ t) s
  unfolding string_loop add_char
  string_loop_lem s [] buf addr zero room text held enough = absurd (omega arith)
  string_loop_lem s (c ∷ t) buf addr zero room text held enough = absurd (omega arith)
  string_loop_lem s [] buf addr (suc fuel) room text (last, _) enough =
      rw (last, string_loop) (rw (room (length buf + 1), append-nil buf) refl)
  string_loop_lem s (c ∷ t) buf addr (suc fuel) room (c_ne, text) (first, held) enough =
      let at_next : addr + length buf + 1 ≡ addr + length (buf ++ c ∷ []) =
        omega (arith, length-append buf (c ∷ [])) in
      rw (first, string_loop)
        (rw (c_ne, room (length buf + 1))
          (string_loop_lem s t (buf ++ c ∷ []) addr fuel room text (rw at_next at held)
              (omega arith)
            ∙ rw (append_assoc buf (c ∷ []) t) refl))

  -- Where a text without a null byte and then a null byte stand at `addr`, and the allocator never
  -- fails, `read_mem_string` gives the text once the fuel is above its length.
  pub read_mem_string-HasBytes :
      (s : Dbg P) (t : Text) (addr fuel : ℕ)
      → mem.opens s.pid s.process ≡ true
      → ((n : ℕ) → mem.allocates n s.process ≡ true)
      → All (λ c. (c == 0) ≡ false) t
      → HasBytes s addr (t ++ 0 ∷ [])
      → length t < fuel
      → read_mem_string fuel addr s ≡ ok (some t) s
  unfolding read_mem_string
  read_mem_string-HasBytes s t addr fuel opened room text held enough =
      let here : addr ≡ addr + 0 = omega arith in
      rw (opened, string_loop_lem s t [] addr fuel room text (rw here at held) enough) refl

  -- `read_memory` throws `memory_exception`, or returns the bytes that `pread` gave, as many as
  -- were asked for, and zeros up to the next multiple of 8.
  pub read_memory-cases :
      (s : Dbg P) (addr size : ℕ)
      → (read_memory addr size s ≡ throw MyException.memory_exception s)
        ⊎ ((bytes : List ℕ) × (mem.pread s.pid addr size s.process ≡ some bytes)
            × (length bytes ≡ size)
            × (read_memory addr size s ≡ ok (bytes ++ zeros (buffer_size size - size)) s))
  unfolding read_memory read_whole
  read_memory-cases s addr size = elim (Bool-cases (mem.opens s.pid s.process)) [
    | inr closed ↦ inl (rw closed refl)
    | inl opened ↦ elim (Bool-cases (mem.allocates (buffer_size size) s.process)) [
      | inr full ↦ inl (rw (opened, full) refl)
      | inl room ↦ elim (Option-cases (mem.pread s.pid addr size s.process)) [
        | inl failed ↦ inl (rw (opened, room, failed) refl)
        | inr (bytes, read) ↦ elim (Bool-cases (length bytes == size)) [
          | inl whole ↦ inr (
            bytes,
            read,
            (==_iff (length bytes) size).0 whole,
            rw (opened, room, read, whole) refl,
          )
          | inr short ↦ inl (rw (opened, room, read, short) refl)
        ]
      ]
    ]
  ]
