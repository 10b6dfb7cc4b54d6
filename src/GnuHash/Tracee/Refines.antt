-- ===== src/GnuHash/Tracee/Refines.antt =====
-- The search of the tracee's memory against the search of the tables.
use Prim.Native.Nat.{bit_and}
use my_dbg.Base.{
  ℕ, zero, suc, ◌+◌, ◌-◌, ◌*◌, ◌/◌, ◌%◌, ◌^◌, ◌≤◌, ◌<◌, ◌≡◌, ◌≢◌, refl, false, not, List, [], ◌∷◌,
  some, Text, ◌==◌, ltb, str_eq, get_elem?, drop, arith, Bool-cases, if◌then◌else◌, str_eq_comm,
  Option-cases, inl, inr, length, length-drop,
}
use my_dbg.Debugger.{M, ◌>>=◌, pure, Dbg, Res, ok, fault}
use my_dbg.Memory.{Memory, read_memory, read_mem_string}
use my_dbg.Elf.{le_at, sym_at, Sym}
use my_dbg.Elf.Tracee.{present, same_name, calc_address}
use my_dbg.Elf.Tracee.Dynamic.{FirstEntry, get_dynamic_entry-FirstEntry}
use my_dbg.GnuHash.{
  Symbol, Table, Lookup, found, absent, unreadable, without_bit_0, dl_new_hash, bloom_bits,
  chain_loop, search_bucket, filtered, get_address_gnu_hash,
}
use my_dbg.GnuHash.Tracee.{
  Ht, config_at, array_at, word_address, symbol_address, bloom_address, buckets_address,
  symhash_address, get_gnu_hash, symbol_rounds, look_in_bucket, look_filtered, look_in_table,
  get_address_gnu,
}

index_from : (i n : ℕ) → ltb i n ≡ false → n + (i - n) ≡ i
index_from i n h = ground arith

-- The copies of the tables, with the address of the words
abbrev pub in_tracee : Table → (symhash : ℕ) → Ht
in_tracee t symhash = record {
  conf = t.conf;
  bloom = t.bloom;
  buckets = t.buckets;
  symhash = symhash;
}

module _ {P : Type 0} ⦃mem : Memory P⦄ where
  -- A search of the tracee that returns what the search of the tables found, in an unchanged state
  abbrev pub Answers : Dbg P → Lookup → Res P ℕ → Type 0
  Answers s (found value) r = r ≡ ok value s
  Answers s absent r = r ≡ ok 0 s
  Answers s Lookup.fault r = r ≡ fault
  Answers s unreadable r = Unit

  -- The tracee holds the word, the entry and the name of symbol `i`.
  pub record HoldsSymbol (s : Dbg P) (fuel : ℕ) (ht : Ht) (symtab strtab i : ℕ) (x : Symbol)
      : Type 0 where
    pub word_bytes : List ℕ
    pub word_read : read_memory (word_address ht i) 4 s ≡ ok word_bytes s
    pub word_of : le_at word_bytes 0 4 ≡ some x.word
    pub entry : List ℕ
    pub entry_read : read_memory (symbol_address symtab i) 24 s ≡ ok entry s
    pub symbol : Sym
    pub symbol_of : sym_at entry 0 ≡ some symbol
    pub value_of : symbol.st_value ≡ x.value
    pub name_read : read_mem_string fuel ((strtab + symbol.st_name) % 2 ^ 64) s ≡ ok (some x.name) s

  -- It holds the symbols of a list, from symbol `i` on.
  abbrev pub HoldsSymbols :
      (s : Dbg P) (fuel : ℕ) (ht : Ht) (symtab strtab i : ℕ) → List Symbol → Type 0
  HoldsSymbols s fuel ht symtab strtab i [] = Unit {0}
  HoldsSymbols s fuel ht symtab strtab i (x ∷ xs) =
      HoldsSymbol s fuel ht symtab strtab i x × HoldsSymbols s fuel ht symtab strtab (i + 1) xs

  HoldsSymbols-drop :
      (s : Dbg P) (fuel : ℕ) (ht : Ht) (symtab strtab i n : ℕ) (xs : List Symbol)
      → HoldsSymbols s fuel ht symtab strtab i xs
      → HoldsSymbols s fuel ht symtab strtab (i + n) (drop n xs)
  HoldsSymbols-drop s fuel ht symtab strtab i zero xs held =
      let e : i ≡ i + 0 = omega arith in rw e at held
  HoldsSymbols-drop s fuel ht symtab strtab i (suc n) [] held = tt
  HoldsSymbols-drop s fuel ht symtab strtab i (suc n) (x ∷ xs) (_, held) =
      let e : i + 1 + n ≡ i + suc n = omega arith in
      rw e at (HoldsSymbols-drop s fuel ht symtab strtab (i + 1) n xs held)

  symbol_rounds-Answers :
      (s : Dbg P) (rounds fuel : ℕ) (ht : Ht) (hash i symtab strtab : ℕ) (function : Text)
      (xs : List Symbol)
      → HoldsSymbols s fuel ht symtab strtab i xs
      → (length xs ≢ 0 → i + length xs < 2 ^ 32)
      → length xs ≤ rounds
      → Answers s
          (chain_loop hash function xs)
          (symbol_rounds rounds fuel ht hash i symtab strtab function s)
  unfolding symbol_rounds chain_loop present same_name
  symbol_rounds-Answers s rounds fuel ht hash i symtab strtab function [] held small enough = tt
  symbol_rounds-Answers s zero fuel ht hash i symtab strtab function (x ∷ xs) held small enough =
      absurd (omega arith)
  symbol_rounds-Answers s (suc rounds) fuel ht hash i symtab strtab function (x ∷ xs) (here, held)
        small enough =
      rw (here.word_read, here.word_of, here.entry_read, here.symbol_of)
        (let next : Answers s (if x.word % 2 == 1 then absent else chain_loop hash function xs) (
              (if x.word % 2 == 1
                  then pure 0
                  else symbol_rounds rounds fuel ht hash ((i + 1) % 2 ^ 32) symtab strtab function)
                s) =
            elim (Bool-cases (x.word % 2 == 1)) [
              | inl last ↦ rw last refl
              | inr more ↦
                  let below : i + length (x ∷ xs) < 2 ^ 32 = small (λ e. omega (arith, e)) in
                  let step : (i + 1) % 2 ^ 32 ≡ i + 1 = omega (arith, below) in
                  rw (more, step)
                    (symbol_rounds-Answers s rounds fuel ht hash (i + 1) symtab strtab function xs
                      held (λ _. omega (arith, below)) (omega arith))
            ] in
          elim (Bool-cases (hash == without_bit_0 x.word)) [
            | inr differ ↦ rw differ next
            | inl same ↦
                let turned : str_eq x.name function ≡ str_eq function x.name =
                  str_eq_comm x.name function in
                elim (Bool-cases (str_eq function x.name)) [
                  | inl named ↦
                      rw (same, named, here.name_read, turned) (rw (named, here.value_of) refl)
                  | inr other ↦ rw (same, other, here.name_read, turned) (rw other next)
                ]
          ])

  -- The test of the first word of the filter
  first_word :
      (s : Dbg P) (bloom : List ℕ) (a b : Lookup) (m n : M P ℕ)
      → Answers s a (m s)
      → Answers s b (n s)
      → Answers s
          (elim bloom [ [] ↦ Lookup.fault | first ∷ more ↦ if not (first == 0) then a else b ])
          ((present (get_elem? bloom 0) >>= λ first. if not (first == 0) then m else n) s)
  unfolding present
  first_word s [] a b m n ha hb = refl
  first_word s (w ∷ ws) a b m n ha hb = elim (Bool-cases (not (w == 0))) [
    | inl used ↦ rw used ha
    | inr unused ↦ rw unused hb
  ]

  module _ (s : Dbg P) (rounds fuel symhash symtab strtab : ℕ) (t : Table)
      (held : HoldsSymbols s fuel (in_tracee t symhash) symtab strtab t.conf.symndx t.symbols)
      (small : t.conf.symndx + length t.symbols < 2 ^ 32) (enough : length t.symbols ≤ rounds)
      (hash : ℕ) (function : Text) where
    look_in_bucket-Answers :
        Answers s
          (search_bucket t hash function)
          (look_in_bucket rounds fuel (in_tracee t symhash) hash symtab strtab function s)
    unfolding look_in_bucket search_bucket present
    look_in_bucket-Answers = elim (Bool-cases (t.conf.nbuckets == 0)) [
      | inl none_at_all ↦ rw none_at_all refl
      | inr some_at_all ↦ elim (Option-cases (get_elem? t.buckets (hash % t.conf.nbuckets))) [
        | inl out ↦ rw (some_at_all, out) refl
        | inr (i, bucket) ↦ elim (Bool-cases (ltb i t.conf.symndx)) [
          | inl empty ↦ rw (some_at_all, bucket, empty) refl
          | inr full ↦
              rw (some_at_all, bucket, full)
                (let at_i : t.conf.symndx + (i - t.conf.symndx) ≡ i =
                    index_from i t.conf.symndx full in
                  let more : length (drop (i - t.conf.symndx) t.symbols)
                      ≡ length t.symbols - (i - t.conf.symndx) =
                    length-drop (i - t.conf.symndx) t.symbols in
                  symbol_rounds-Answers s rounds fuel (in_tracee t symhash) hash i symtab strtab
                    function (drop (i - t.conf.symndx) t.symbols)
                    (rw at_i at (
                      HoldsSymbols-drop s fuel (in_tracee t symhash) symtab strtab t.conf.symndx
                        (i - t.conf.symndx) t.symbols held))
                    (λ some_left. omega (arith, some_left, more, at_i)) (omega (arith, more)))
        ]
      ]
    ]

    look_filtered-Answers :
        Answers s
          (filtered t hash function)
          (look_filtered rounds fuel (in_tracee t symhash) hash symtab strtab function s)
    unfolding look_filtered filtered present
    look_filtered-Answers =
        elim (Option-cases
          (get_elem? t.bloom (bit_and (hash / 64) ((t.conf.maskwords + 2 ^ 32 - 1) % 2 ^ 32)))) [
            | inl out ↦ rw (out, filtered, look_filtered) refl
            | inr (mask, word) ↦ elim (Bool-cases (not (ltb t.conf.shift2 32))) [
              | inl wide ↦ rw (word, filtered, look_filtered, wide) refl
              | inr narrow ↦ elim (Bool-cases (bloom_bits hash t.conf.shift2 mask)) [
                | inl pass ↦ rw (word, filtered, look_filtered, narrow, pass) look_in_bucket-Answers
                | inr stop ↦ rw (word, filtered, look_filtered, narrow, stop) refl
              ]
            ]
          ]

  look_in_table-Answers :
      (s : Dbg P) (rounds fuel symhash symtab strtab : ℕ) (t : Table) (function : Text)
      → HoldsSymbols s fuel (in_tracee t symhash) symtab strtab t.conf.symndx t.symbols
      → t.conf.symndx + length t.symbols < 2 ^ 32
      → length t.symbols ≤ rounds
      → Answers s (get_address_gnu_hash t function) (
          look_in_table rounds fuel
            (in_tracee t symhash)
            (dl_new_hash function)
            symtab
            strtab
            function
            s)
  unfolding look_in_table get_address_gnu_hash
  look_in_table-Answers s rounds fuel symhash symtab strtab t function held small enough =
      let hash = dl_new_hash function in
      let in_filter =
        look_filtered-Answers s rounds fuel symhash symtab strtab t held small enough hash
          function in
      elim (Bool-cases (not (t.conf.maskwords == 1))) [
        | inl many ↦ rw many in_filter
        | inr one ↦ rw one (
            first_word s t.bloom (filtered t hash function) (search_bucket t hash function)
              (look_filtered rounds fuel (in_tracee t symhash) hash symtab strtab function)
              (look_in_bucket rounds fuel (in_tracee t symhash) hash symtab strtab function)
              in_filter
              (look_in_bucket-Answers s rounds fuel symhash symtab strtab t held small enough hash
                function))
      ]

  -- The dynamic section at `dyn` has the entries of the symbols, their names and the hash table, and the
  -- tables and the symbols of `t` stand where these point to.
  pub record HoldsTable (s : Dbg P) (fuel dyn base_addr : ℕ) (t : Table) : Type 0 where
    pub symtab : ℕ
    pub strtab : ℕ
    pub at : ℕ
    pub before : ℕ × ℕ × ℕ
    pub symtab_entry : FirstEntry s 6 symtab dyn before.0
    pub strtab_entry : FirstEntry s 5 strtab dyn before.1
    pub hash_entry : FirstEntry s 0x6ffffef5 at dyn before.2
    pub near : (before.0 < fuel) × (before.1 < fuel) × (before.2 < fuel)
    pub conf_bytes : List ℕ
    pub conf_read : read_memory (calc_address base_addr at) 16 s ≡ ok conf_bytes s
    pub conf_of : config_at conf_bytes ≡ some t.conf
    pub bloom_bytes : List ℕ
    pub bloom_read :
        read_memory (bloom_address (calc_address base_addr at)) (8 * t.conf.maskwords) s
        ≡ ok bloom_bytes s
    pub bloom_of : array_at 8 t.conf.maskwords bloom_bytes ≡ some t.bloom
    pub bucket_bytes : List ℕ
    pub bucket_read :
        read_memory (buckets_address (calc_address base_addr at) t.conf) (4 * t.conf.nbuckets) s
        ≡ ok bucket_bytes s
    pub bucket_of : array_at 4 t.conf.nbuckets bucket_bytes ≡ some t.buckets
    pub symbols :
        HoldsSymbols s fuel
          (in_tracee t (symhash_address (calc_address base_addr at) t.conf))
          (calc_address base_addr symtab)
          (calc_address base_addr strtab)
          t.conf.symndx
          t.symbols

  -- Where the tracee's memory holds the tables and the symbols of `t`, which have numbers below 2^32, and
  -- there are as many rounds as symbols, the search of the tracee's memory returns what the search of
  -- `t` does: the address, NULL where it is absent, or the same bad access; it changes nothing. Of a
  -- search of `t` that runs over the last symbol, nothing is said.
  pub get_address_gnu-Answers :
      (s : Dbg P) (rounds fuel : ℕ) (function : Text) (dyn base_addr : ℕ) (t : Table)
      → HoldsTable s fuel dyn base_addr t
      → t.conf.symndx + length t.symbols < 2 ^ 32
      → length t.symbols ≤ rounds
      → Answers s
          (get_address_gnu_hash t function)
          (get_address_gnu rounds fuel function dyn base_addr s)
  unfolding get_address_gnu get_gnu_hash present
  get_address_gnu-Answers s rounds fuel function dyn base_addr t held small enough =
      let (a, b, c) = held.near in
      let e6 =
        get_dynamic_entry-FirstEntry s fuel base_addr dyn 6 held.symtab held.before.0
          held.symtab_entry (omega (arith, a)) in
      let e5 =
        get_dynamic_entry-FirstEntry s fuel base_addr dyn 5 held.strtab held.before.1
          held.strtab_entry (omega (arith, b)) in
      let eg =
        get_dynamic_entry-FirstEntry s fuel base_addr dyn 0x6ffffef5 held.at held.before.2
          held.hash_entry (omega (arith, c)) in
      rw
        (
          e6, e5, eg, held.conf_read, held.conf_of, held.bloom_read, held.bloom_of,
          held.bucket_read, held.bucket_of,
        )
        (look_in_table-Answers s rounds fuel
          (symhash_address (calc_address base_addr held.at) t.conf)
          (calc_address base_addr held.symtab) (calc_address base_addr held.strtab) t function
          held.symbols small enough)
