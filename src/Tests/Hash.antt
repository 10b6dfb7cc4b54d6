-- ===== src/Tests/Hash.antt =====
-- The GNU hash table.
use my_dbg.Base.{◌≡◌, ◌≢◌, refl, [], ◌∷◌, codes, str_eq}
use my_dbg.GnuHash.{
  Table, found, hash_loop, dl_new_hash, without_bit_0, chain_loop, search_bucket,
  get_address_gnu_hash,
}
use my_dbg.GnuHash.Search.{IsNamed, get_address_gnu_hash-IsNamed, get_address_gnu_hash-odd}

-- One bucket with the function `a`, whose hash is even, and behind it the function `b`, whose hash
-- is odd
abbrev pub table : Table
table = record {
  conf = record { nbuckets = 1; symndx = 1; maskwords = 1; shift2 = 0 };
  bloom = 0 ∷ [];
  buckets = 1 ∷ [];
  symbols =
      record { word = 177670; name = codes "a"; value = 0x4000 }
      ∷ record { word = 177671; name = codes "b"; value = 0x4010 }
      ∷ [];
}

a_run : get_address_gnu_hash table (codes "a") ≡ found 0x4000
unfolding get_address_gnu_hash search_bucket chain_loop dl_new_hash hash_loop without_bit_0 str_eq
a_run = refl

get_address_gnu_hash-IsNamed_example : IsNamed table (codes "a") 0x4000
get_address_gnu_hash-IsNamed_example = get_address_gnu_hash-IsNamed table (codes "a") 0x4000 a_run

get_address_gnu_hash-odd_example : get_address_gnu_hash table (codes "b") ≢ found 0x4010
unfolding dl_new_hash hash_loop
get_address_gnu_hash-odd_example = get_address_gnu_hash-odd table (codes "b") 0x4010 refl
