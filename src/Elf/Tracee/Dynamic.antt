-- ===== src/Elf/Tracee/Dynamic.antt =====
-- Enough rounds for `get_dynamic_entry` to find an entry of the dynamic section.
use my_dbg.Base.{
  ℕ, zero, suc, ◌+◌, ◌%◌, ◌^◌, ◌≤◌, ◌≡◌, ◌≢◌, refl, true, false, List, some, arith, ◌==◌, ==_refl,
}
use my_dbg.Debugger.{Dbg, ok}
use my_dbg.Memory.{Memory, read_memory}
use my_dbg.Elf.{le_at}
use my_dbg.Elf.Tracee.{present, calc_address, get_dynamic_entry}

module _ {P : Type 0} ⦃mem : Memory P⦄ where
  -- The 16 bytes at `dyn` can be read, and are an entry with this tag and value.
  pub record EntryAt (s : Dbg P) (dyn tag value : ℕ) : Type 0 where
    pub bytes : List ℕ
    pub readable : read_memory dyn 16 s ≡ ok bytes s
    pub tag_of : le_at bytes 0 8 ≡ some tag
    pub value_of : le_at bytes 8 8 ≡ some value

  -- From `dyn` on, the first entry with the tag has the value, and `before` entries stand in front of
  -- it, none of them the last one of the section.
  pub data FirstEntry (s : Dbg P) (tag value : ℕ) : (dyn before : ℕ) → Type 0 where
    here : {dyn : ℕ} → EntryAt s dyn tag value → FirstEntry s tag value dyn 0
    there :
        {dyn before : ℕ} (other ptr : ℕ)
        → EntryAt s dyn other ptr
        → other ≢ tag
        → other ≢ 0
        → FirstEntry s tag value ((dyn + 16) % 2 ^ 64) before
        → FirstEntry s tag value dyn (suc before)

  -- With more fuel than entries in front of it, `get_dynamic_entry` returns the address that the
  -- first entry with the tag stands for, and changes nothing.
  pub get_dynamic_entry-FirstEntry :
      (s : Dbg P) (fuel base_addr dyn tag value before : ℕ)
      → FirstEntry s tag value dyn before
      → suc before ≤ fuel
      → get_dynamic_entry fuel base_addr dyn tag s ≡ ok (calc_address base_addr value) s
  unfolding get_dynamic_entry present
  get_dynamic_entry-FirstEntry s zero base_addr dyn tag value before entry enough =
      absurd (omega arith)
  get_dynamic_entry-FirstEntry s (suc fuel) base_addr dyn tag value zero (here entry) enough =
      let same : (tag == tag) ≡ true = ==_refl tag in
      rw (entry.readable, entry.tag_of, entry.value_of, same) refl
  get_dynamic_entry-FirstEntry s (suc fuel) base_addr dyn tag value (suc before)
        (there other ptr entry differ more rest) enough =
      let not_it : (other == tag) ≡ false = ground arith in
      let not_last : (other == 0) ≡ false = ground arith in
      rw (entry.readable, entry.tag_of, entry.value_of, not_it, not_last)
        (get_dynamic_entry-FirstEntry s fuel base_addr ((dyn + 16) % 2 ^ 64) tag value before rest
          (omega arith))
