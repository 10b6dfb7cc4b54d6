-- ===== src/GnuHash/Search.antt =====
-- What the search of src/infos/gnu_hash_table.c finds.
use Prim.Native.Nat.{bit_and}
use my_dbg.Base.{
  ◌/◌, ◌^◌, ==_iff, Bool-cases, Option-cases, inl, inr, ◌&&◌, not, ltb, zero, sym, ◌%◌, ℕ, suc, ◌+◌,
  ◌-◌, ◌≡◌, ◌≢◌, refl, Bool, true, false, List, [], ◌∷◌, some, Text, ◌==◌, str_eq, str_eq→eq, arith,
  drop, get_elem?,
}
use my_dbg.GnuHash.{
  Table, Symbol, found, without_bit_0, dl_new_hash, chain_loop, bloom_bits, search_bucket, filtered,
  get_address_gnu_hash,
}

-- What an address of the search says of the tables: it is the value of a symbol with the name, whose
-- hash has bit 0 clear.
pub record IsNamed (ht : Table) (function : Text) (value : ℕ) : Type 0 where
  pub index : ℕ
  pub symbol : Symbol
  pub at_index : get_elem? ht.symbols index ≡ some symbol
  pub named : symbol.name ≡ function
  pub address : symbol.value ≡ value
  pub hash : dl_new_hash function ≡ without_bit_0 symbol.word

abbrev Found : (syms : List Symbol) (hash : ℕ) (function : Text) (value : ℕ) → Type 0
Found syms hash function value =
    (i : ℕ) × (entry : Symbol) × (get_elem? syms i ≡ some entry)
    × (entry.name ≡ function)
    × (entry.value ≡ value)
    × (hash ≡ without_bit_0 entry.word)

found_inj : {a b : ℕ} → found a ≡ found b → a ≡ b
found_inj e = cc

-- The two tests of a round of the loop
both : (a b : Bool) → (a && b) ≡ true → (a ≡ true) × (b ≡ true)
both a b h = ground arith

chain_loop-Found :
    (hash : ℕ) (function : Text) (syms : List Symbol) (value : ℕ)
    → chain_loop hash function syms ≡ found value
    → Found syms hash function value
unfolding chain_loop
chain_loop-Found hash function [] value e = cc
chain_loop-Found hash function (s ∷ ss) value e =
    elim (Bool-cases (hash == without_bit_0 s.word && str_eq function s.name)) [
      | inl h ↦
          let (same, name) = both (hash == without_bit_0 s.word) (str_eq function s.name) h in
          (
            0,
            s,
            refl,
            sym (str_eq→eq function s.name name),
            found_inj (rw h at e),
            (==_iff hash (without_bit_0 s.word)).0 same,
          )
      | inr h ↦ elim (Bool-cases (s.word % 2 == 1)) [
        | inl last ↦ cc (rw (h, last) at e)
        | inr more ↦
            let (i, x, at_i, name, address, same) =
              chain_loop-Found hash function ss value (rw (h, more) at e) in
            (suc i, x, at_i, name, address, same)
      ]
    ]

get_elem?-drop :
    (n i : ℕ) (syms : List Symbol) (x : Symbol)
    → get_elem? (drop n syms) i ≡ some x
    → (j : ℕ) × (get_elem? syms j ≡ some x)
get_elem?-drop zero i syms x e = (i, e)
get_elem?-drop (suc n) i [] x e = cc
get_elem?-drop (suc n) i (s ∷ ss) x e = let (j, f) = get_elem?-drop n i ss x e in (suc j, f)

search_bucket-Found :
    (ht : Table) (hash : ℕ) (function : Text) (value : ℕ)
    → search_bucket ht hash function ≡ found value
    → Found ht.symbols hash function value
unfolding search_bucket
search_bucket-Found ht hash function value e = elim (Bool-cases (ht.conf.nbuckets == 0)) [
  | inl none_at_all ↦ cc (rw none_at_all at e)
  | inr some_at_all ↦ elim (Option-cases (get_elem? ht.buckets (hash % ht.conf.nbuckets))) [
    | inl out ↦ cc (rw (some_at_all, out) at e)
    | inr (i, bucket) ↦ elim (Bool-cases (ltb i ht.conf.symndx)) [
      | inl empty ↦ cc (rw (some_at_all, bucket, empty) at e)
      | inr full ↦
          let (j, x, at_j, name, address, same) =
            chain_loop-Found hash function (drop (i - ht.conf.symndx) ht.symbols) value
              (rw (some_at_all, bucket, full) at e) in
          let (l, at_l) = get_elem?-drop (i - ht.conf.symndx) j ht.symbols x at_j in
          (l, x, at_l, name, address, same)
    ]
  ]
]

filtered-Found :
    (ht : Table) (hash : ℕ) (function : Text) (value : ℕ)
    → filtered ht hash function ≡ found value
    → Found ht.symbols hash function value
unfolding filtered
filtered-Found ht hash function value e =
    elim (Option-cases
      (get_elem? ht.bloom (bit_and (hash / 64) ((ht.conf.maskwords + 2 ^ 32 - 1) % 2 ^ 32)))) [
        | inl out ↦ cc (rw (out, filtered) at e)
        | inr (mask, word) ↦ elim (Bool-cases (not (ltb ht.conf.shift2 32))) [
          | inl wide ↦ cc (rw (word, filtered, wide) at e)
          | inr ok ↦ elim (Bool-cases (bloom_bits hash ht.conf.shift2 mask)) [
            | inl pass ↦
                search_bucket-Found ht hash function value (rw (word, filtered, ok, pass) at e)
            | inr stop ↦ cc (rw (word, filtered, ok, stop) at e)
          ]
        ]
      ]

-- An address that the search returns is the value of a symbol of the table with that very name.
pub get_address_gnu_hash-IsNamed :
    (ht : Table) (function : Text) (value : ℕ)
    → get_address_gnu_hash ht function ≡ found value
    → IsNamed ht function value
unfolding get_address_gnu_hash
get_address_gnu_hash-IsNamed ht function value e =
    let (i, x, at_i, name, address, same) : Found ht.symbols (dl_new_hash function) function value =
      elim (Bool-cases (not (ht.conf.maskwords == 1))) [
        | inl many ↦ filtered-Found ht (dl_new_hash function) function value (rw many at e)
        | inr one ↦ one_word ht.bloom refl one
      ] in
    record { index = i; symbol = x; at_index = at_i; named = name; address = address; hash = same }
  where
    one_word :
        (bloom : List ℕ)
        → ht.bloom ≡ bloom
        → not (ht.conf.maskwords == 1) ≡ false
        → Found ht.symbols (dl_new_hash function) function value
    one_word [] b one = cc (rw (one, b) at e)
    one_word (w ∷ ws) b one = elim (Bool-cases (not (w == 0))) [
      | inl used ↦ filtered-Found ht (dl_new_hash function) function value (rw (one, b, used) at e)
      | inr unused ↦
          search_bucket-Found ht (dl_new_hash function) function value (rw (one, b, unused) at e)
    ]

-- A function whose hash is odd is never found, whatever the tables hold.
pub get_address_gnu_hash-odd :
    (ht : Table) (function : Text) (value : ℕ)
    → dl_new_hash function % 2 ≡ 1
    → get_address_gnu_hash ht function ≢ found value
unfolding without_bit_0
get_address_gnu_hash-odd ht function value odd e =
    let n = get_address_gnu_hash-IsNamed ht function value e in
    let even = n.hash in omega (arith, odd, even)
