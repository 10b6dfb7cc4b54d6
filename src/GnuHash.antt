-- ===== src/GnuHash.antt =====
-- src/infos/gnu_hash_table.c. The tables are what `get_gnu_hash` and `get_dynamic_entry` read of the
-- tracee: the Bloom filter and the buckets as copies, and a symbol for each index from `symndx` on.
pub mod Search
pub mod Tracee
use Prim.Native.Nat.{bit_and}
use my_dbg.Base.{
  ℕ, ◌+◌, ◌-◌, ◌*◌, ◌/◌, ◌%◌, ◌^◌, Bool, true, false, not, ◌||◌, ◌&&◌, List, [], ◌∷◌, some, none,
  Text, ◌==◌, ltb, if◌then◌else◌, get_elem?, drop, str_eq,
}

-- `struct my_gnu_ht_config`
pub record Config : Type 0 where
  pub nbuckets : ℕ
  pub symndx : ℕ
  pub maskwords : ℕ
  pub shift2 : ℕ

-- A symbol: its word of `symhash`, its name and its `st_value`
pub record Symbol : Type 0 where
  pub word : ℕ
  pub name : Text
  pub value : ℕ

-- `struct my_gnu_ht`, with the symbols
pub record Table : Type 0 where
  pub conf : Config
  pub bloom : List ℕ
  pub buckets : List ℕ
  pub symbols : List Symbol

-- The address, NULL, an exception of `read_memory` behind the last symbol, or an access outside a
-- copy or a division by 0
pub data Lookup : Type 0 where
  found : ℕ → Lookup
  absent : Lookup
  unreadable : Lookup
  fault : Lookup

-- The loop of `dl_new_hash`, on a 64-bit `uint_fast32_t`
unfoldable pub hash_loop : ℕ → Text → ℕ
hash_loop h [] = h
hash_loop h (c ∷ cs) = hash_loop ((h * 33 + c) % 2 ^ 64) cs

unfoldable pub dl_new_hash : Text → ℕ
unfolding hash_loop
dl_new_hash s = hash_loop 5381 s % 2 ^ 32

-- `h & (~1)`
unfoldable pub without_bit_0 : ℕ → ℕ
without_bit_0 h = h - h % 2

-- The loop of `get_address_gnu_hash`, on the symbols from the index `i` on
unfoldable pub chain_loop : (hash : ℕ) → Text → List Symbol → Lookup
unfolding without_bit_0 str_eq
chain_loop hash function [] = unreadable
chain_loop hash function (sym ∷ syms) =
    let rest = if sym.word % 2 == 1 then absent else chain_loop hash function syms in
    if hash == without_bit_0 sym.word && str_eq function sym.name then found sym.value else rest

-- Whether the Bloom filter lets the hash pass
unfoldable pub bloom_bits : (hash shift2 mask : ℕ) → Bool
bloom_bits hash shift2 mask =
    (mask / 2 ^ (hash % 64) % 2 == 1) && (mask / 2 ^ (hash / 2 ^ shift2 % 64) % 2 == 1)

-- From the bucket of the hash on
unfoldable pub search_bucket : Table → (hash : ℕ) → Text → Lookup
unfolding chain_loop
search_bucket ht hash function =
    if ht.conf.nbuckets == 0 then fault else elim (get_elem? ht.buckets (hash % ht.conf.nbuckets)) [
      | none ↦ fault
      | some i ↦
          if ltb i ht.conf.symndx
          then absent
          else chain_loop hash function (drop (i - ht.conf.symndx) ht.symbols)
    ]

-- Behind the test that the filter is in use; a shift of a `uint32_t` by 32 or more is undefined.
unfoldable pub filtered : Table → (hash : ℕ) → Text → Lookup
unfolding search_bucket bloom_bits
filtered ht hash function =
    elim (get_elem? ht.bloom (bit_and (hash / 64) ((ht.conf.maskwords + 2 ^ 32 - 1) % 2 ^ 32))) [
      | none ↦ fault
      | some mask ↦
          if not (ltb ht.conf.shift2 32)
          then fault
          else if bloom_bits hash ht.conf.shift2 mask
          then search_bucket ht hash function
          else absent
    ]

unfoldable pub get_address_gnu_hash : Table → Text → Lookup
unfolding filtered dl_new_hash
get_address_gnu_hash ht function =
    let hash = dl_new_hash function in
    if not (ht.conf.maskwords == 1) then filtered ht hash function else elim ht.bloom [
      | [] ↦ fault
      | first ∷ more ↦
          if not (first == 0) then filtered ht hash function else search_bucket ht hash function
    ]
