-- ===== src/Session/Gnu.antt =====
-- The search of the GNU hash table in the tracee's memory.
use Prim.Native.Nat.{bit_and}
use my_dbg.Base.{ℕ, zero, suc, ◌+◌, ◌-◌, ◌*◌, ◌/◌, ◌%◌, ◌^◌, not, Text, ◌==◌, ltb, get_elem?}
use my_dbg.Memory.{Memory}
use my_dbg.Elf.{le_at, sym_at}
use my_dbg.GnuHash.{dl_new_hash, without_bit_0, bloom_bits}
use my_dbg.GnuHash.Tracee.{
  Ht, config_at, array_at, word_address, symbol_address, bloom_address, buckets_address,
  get_gnu_hash, symbol_rounds, look_in_bucket, look_filtered, look_in_table, get_address_gnu,
}
use my_dbg.Session.Rules.{IsSafe, then_next, branch, IsSafe-pure, IsSafe-fault, IsSafe-out_of_fuel}
use my_dbg.Session.Reads.{IsSafe-read_memory, IsSafe-read_mem_string}
use my_dbg.Session.Elf.{IsSafe-present, IsSafe-same_name, IsSafe-get_dynamic_entry}

module _ {P : Type 0} ⦃mem : Memory P⦄ where
  IsSafe-get_gnu_hash :
      (fuel dyn_section base_addr : ℕ) → IsSafe (get_gnu_hash {P = P} fuel dyn_section base_addr)
  unfolding get_gnu_hash
  IsSafe-get_gnu_hash fuel dyn_section base_addr =
      then_next (IsSafe-get_dynamic_entry fuel base_addr dyn_section 0x6ffffef5) λ at.
        then_next (IsSafe-read_memory at 16) λ conf_bytes.
          then_next (IsSafe-present (config_at conf_bytes)) λ conf.
            then_next (IsSafe-read_memory (bloom_address at) (8 * conf.maskwords)) λ bloom_bytes.
              then_next (IsSafe-present (array_at 8 conf.maskwords bloom_bytes)) λ bloom.
                then_next (IsSafe-read_memory (buckets_address at conf) (4 * conf.nbuckets))
                  λ bucket_bytes.
                    then_next (IsSafe-present (array_at 4 conf.nbuckets bucket_bytes))
                      λ buckets. IsSafe-pure _

  module _ (fuel : ℕ) (ht : Ht) (hash symtab strtab : ℕ) (function : Text) where
    IsSafe-symbol_rounds :
        (rounds i : ℕ) → IsSafe (symbol_rounds {P = P} rounds fuel ht hash i symtab strtab function)
    unfolding symbol_rounds
    IsSafe-symbol_rounds zero i = IsSafe-out_of_fuel
    IsSafe-symbol_rounds (suc rounds) i =
        then_next (IsSafe-read_memory (word_address ht i) 4) λ word.
          then_next (IsSafe-present (le_at word 0 4)) λ h.
            then_next (IsSafe-read_memory (symbol_address symtab i) 24) λ entry.
              then_next (IsSafe-present (sym_at entry 0)) λ sym.
                let rest =
                  branch (h % 2 == 1) (IsSafe-pure 0)
                    (IsSafe-symbol_rounds rounds ((i + 1) % 2 ^ 32)) in
                branch (hash == without_bit_0 h)
                  (then_next (IsSafe-read_mem_string fuel ((strtab + sym.st_name) % 2 ^ 64)) λ str.
                    then_next (IsSafe-same_name str function)
                      λ same. branch same (IsSafe-pure sym.st_value) rest)
                  rest

    IsSafe-look_in_bucket :
        (rounds : ℕ) → IsSafe (look_in_bucket {P = P} rounds fuel ht hash symtab strtab function)
    unfolding look_in_bucket
    IsSafe-look_in_bucket rounds = branch (ht.conf.nbuckets == 0) IsSafe-fault (
        then_next (IsSafe-present (get_elem? ht.buckets (hash % ht.conf.nbuckets)))
          λ i. branch (ltb i ht.conf.symndx) (IsSafe-pure 0) (IsSafe-symbol_rounds rounds i))

    IsSafe-look_filtered :
        (rounds : ℕ) → IsSafe (look_filtered {P = P} rounds fuel ht hash symtab strtab function)
    unfolding look_filtered
    IsSafe-look_filtered rounds =
        then_next
          (IsSafe-present
            (get_elem? ht.bloom (bit_and (hash / 64) ((ht.conf.maskwords + 2 ^ 32 - 1) % 2 ^ 32))))
          λ mask. branch (not (ltb ht.conf.shift2 32)) IsSafe-fault (
            branch (bloom_bits hash ht.conf.shift2 mask) (IsSafe-look_in_bucket rounds)
              (IsSafe-pure 0))

    IsSafe-look_in_table :
        (rounds : ℕ) → IsSafe (look_in_table {P = P} rounds fuel ht hash symtab strtab function)
    unfolding look_in_table
    IsSafe-look_in_table rounds =
        branch (not (ht.conf.maskwords == 1)) (IsSafe-look_filtered rounds) (
          then_next (IsSafe-present (get_elem? ht.bloom 0)) λ first.
            branch (not (first == 0)) (IsSafe-look_filtered rounds) (IsSafe-look_in_bucket rounds))

  pub IsSafe-get_address_gnu :
      (rounds fuel : ℕ) (function : Text) (dyn_section base_addr : ℕ)
      → IsSafe (get_address_gnu {P = P} rounds fuel function dyn_section base_addr)
  unfolding get_address_gnu
  IsSafe-get_address_gnu rounds fuel function dyn_section base_addr =
      then_next (IsSafe-get_dynamic_entry fuel base_addr dyn_section 6) λ symtab.
        then_next (IsSafe-get_dynamic_entry fuel base_addr dyn_section 5) λ strtab.
          then_next (IsSafe-get_gnu_hash fuel dyn_section base_addr)
            λ ht. IsSafe-look_in_table fuel ht (dl_new_hash function) symtab strtab function rounds
