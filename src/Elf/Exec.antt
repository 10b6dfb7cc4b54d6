-- ===== src/Elf/Exec.antt =====
-- What `get_address_exec` finds.
use my_dbg.Base.{
  refl, ℕ, zero, suc, ◌+◌, ◌*◌, ◌/◌, ◌≤◌, ◌<◌, ◌≡◌, ◌≢◌, sym, ◌∙◌, ap, true, List, Option, none,
  some, Text, arith, str_eq, str_eq→eq, Bool-cases, Option-cases, inl, inr, some_inj,
}
use my_dbg.Elf.{
  Ehdr, Shdr, Sym, shdr_at, sym_at, is_func, elf_symbol_name, symbol_loop, has_symbols, exec_loop,
  get_address_exec,
}

-- Symbol `j` of section `i` is a function of that name with that value.
pub record Names (elf : List ℕ) (s_headers : ℕ) (function : Text) (value i j : ℕ) : Type 0 where
  pub sh : Shdr
  pub symbol : Sym
  pub section : shdr_at elf s_headers i ≡ some sh
  pub kind : has_symbols sh ≡ true
  pub in_section : j < sh.sh_size / 24
  pub entry : sym_at elf (sh.sh_offset + 24 * j) ≡ some symbol
  pub function_type : is_func symbol ≡ true
  pub name : elf_symbol_name elf s_headers sh symbol ≡ some function
  pub value_of : symbol.st_value ≡ value

none-≢some : {A G : Type 0} {a : A} → none ≡ some a → G
none-≢some e = cc

pub symbol_loop-Names :
    (left j : ℕ) (function : Text) (elf : List ℕ) (s_headers i value : ℕ) (sh : Shdr)
    → shdr_at elf s_headers i ≡ some sh
    → has_symbols sh ≡ true
    → j + left ≤ sh.sh_size / 24
    → symbol_loop left j function elf s_headers sh ≡ some (some value)
    → (k : ℕ) × Names elf s_headers function value i k
unfolding symbol_loop
symbol_loop-Names zero j function elf s_headers i value sh section kind fits e = cc
symbol_loop-Names (suc left) j function elf s_headers i value sh section kind fits e =
    let next : symbol_loop left (j + 1) function elf s_headers sh ≡ some (some value)
        → (k : ℕ) × Names elf s_headers function value i k =
      symbol_loop-Names left (j + 1) function elf s_headers i value sh section kind
        (omega (arith, fits)) in
    elim (Option-cases (sym_at elf (sh.sh_offset + 24 * j))) [
      | inl missing ↦ none-≢some (rw missing at e)
      | inr (symbol, entry) ↦ elim (Bool-cases (is_func symbol)) [
        | inr other ↦ next (rw (entry, other) at e)
        | inl func ↦ elim (Option-cases (elf_symbol_name elf s_headers sh symbol)) [
          | inl missing ↦ none-≢some (rw (entry, func, missing) at e)
          | inr (name, named) ↦ elim (Bool-cases (str_eq name function)) [
            | inr differ ↦ next (rw (entry, func, named, differ) at e)
            | inl same ↦ (
              j,
              record {
                sh = sh;
                symbol = symbol;
                section = section;
                kind = kind;
                in_section = omega (arith, fits);
                entry = entry;
                function_type = func;
                name = named ∙ ap some (str_eq→eq name function same);
                value_of = some_inj (some_inj (rw (entry, func, named, same) at e));
              },
            )
          ]
        ]
      ]
    ]

-- What was found in a section, or else in the others
pub Found-cases :
    {G : Type 0} (found rest : Option ℕ) (value : ℕ)
    → (elim found [ some v ↦ some v | none ↦ rest ]) ≡ some value
    → (found ≡ some value → G)
    → (found ≡ none → rest ≡ some value → G)
    → G
Found-cases none rest value e here later = later refl e
Found-cases (some v) rest value e here later = here e

exec_loop-Names :
    (left i : ℕ) (function : Text) (elf : List ℕ) (s_headers value : ℕ)
    → exec_loop left i function elf s_headers ≡ some value
    → value ≢ 0
    → (k j : ℕ) × (k < i + left) × Names elf s_headers function value k j
unfolding exec_loop
exec_loop-Names zero i function elf s_headers value e nz = absurd (nz (sym (some_inj e)))
exec_loop-Names (suc left) i function elf s_headers value e nz =
    let next : exec_loop left (i + 1) function elf s_headers ≡ some value
        → (k j : ℕ) × (k < i + suc left) × Names elf s_headers function value k j =
      λ f.
        let (k, j, below, names) = exec_loop-Names left (i + 1) function elf s_headers value f nz in
        (k, j, omega (arith, below), names) in
    elim (Option-cases (shdr_at elf s_headers i)) [
      | inl missing ↦ none-≢some (rw missing at e)
      | inr (sh, section) ↦ elim (Bool-cases (has_symbols sh)) [
        | inr other ↦ next (rw (section, other) at e)
        | inl kind ↦
            elim (Option-cases (symbol_loop (sh.sh_size / 24) 0 function elf s_headers sh)) [
              | inl outside ↦ none-≢some (rw (section, kind, outside) at e)
              | inr (found, searched) ↦
                  Found-cases found (exec_loop left (i + 1) function elf s_headers) value
                    (rw (section, kind, searched) at e)
                    (λ here.
                      let (j, names) =
                        symbol_loop-Names (sh.sh_size / 24) 0 function elf s_headers i value sh
                          section kind (omega arith) (searched ∙ ap some here) in
                      (i, j, omega arith, names))
                    (λ nothing. next)
            ]
      ]
    ]

-- An address other than NULL that `get_address_exec` returns is the value of a symbol of the file: a
-- function with just that name, inside a section of symbols of the section table.
pub get_address_exec-Names :
    (function : Text) (elf : List ℕ) (header : Ehdr) (s_headers value : ℕ)
    → get_address_exec function elf header s_headers ≡ some value
    → value ≢ 0
    → (i j : ℕ) × (i < header.e_shnum) × Names elf s_headers function value i j
unfolding get_address_exec
get_address_exec-Names function elf header s_headers value e nz =
    let (i, j, below, names) = exec_loop-Names header.e_shnum 0 function elf s_headers value e nz in
    (i, j, omega (arith, below), names)
