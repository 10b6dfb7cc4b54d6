-- ===== src/Elf/Missing.antt =====
-- When `get_address_exec` finds nothing.
use my_dbg.Base.{
  ==_iff, ℕ, zero, suc, ◌+◌, ◌*◌, ◌/◌, ◌≤◌, ◌<◌, ◌≡◌, ◌≢◌, sym, ◌∙◌, ap, Bool, true, false, List,
  Option, none, some, Text, arith, ◌==◌, str_eq, str_eq_refl, Bool-cases, Option-cases, inl, inr,
  some_inj,
}
use my_dbg.Elf.{
  Ehdr, Shdr, Sym, shdr_at, sym_at, is_func, elf_symbol_name, symbol_loop, has_symbols, exec_loop,
  get_address_exec,
}
use my_dbg.Elf.Exec.{Names, symbol_loop-Names, Found-cases, get_address_exec-Names}

none-≢some : {A G : Type 0} {a : A} → none ≡ some a → G
none-≢some e = cc

true-≢false : {G : Type 0} {b : Bool} → b ≡ true → b ≡ false → G
true-≢false p q = cc

some_none-≢some : {G : Type 0} {v : ℕ} → Option.some (some v) ≡ some none → G
some_none-≢some e = cc

-- A section without a result has no function with the name.
symbol_loop-none :
    (left j : ℕ) (function : Text) (elf : List ℕ) (s_headers : ℕ) (sh : Shdr) (k : ℕ) (symbol : Sym)
    → symbol_loop left j function elf s_headers sh ≡ some none
    → j ≤ k
    → k < j + left
    → sym_at elf (sh.sh_offset + 24 * k) ≡ some symbol
    → is_func symbol ≡ true
    → elf_symbol_name elf s_headers sh symbol ≡ some function
    → ⊥
unfolding symbol_loop
symbol_loop-none zero j function elf s_headers sh k symbol e low high entry func name =
    absurd (omega (arith, low, high))
symbol_loop-none (suc left) j function elf s_headers sh k symbol e low high entry func name =
    elim (Bool-cases (k == j)) [
      | inl here ↦
          let at : k ≡ j = ground arith in
          let entry' : sym_at elf (sh.sh_offset + 24 * j) ≡ some symbol = rw at at entry in
          let same : str_eq function function ≡ true = str_eq_refl function in
          some_none-≢some (rw (entry', func, name, same) at e)
      | inr later ↦
          let next : symbol_loop left (j + 1) function elf s_headers sh ≡ some none → ⊥ = λ f.
            symbol_loop-none left (j + 1) function elf s_headers sh k symbol f (ground arith)
              (omega (arith, high)) entry func name in
          elim (Option-cases (sym_at elf (sh.sh_offset + 24 * j))) [
            | inl missing ↦ none-≢some (rw missing at e)
            | inr (other, at_j) ↦ elim (Bool-cases (is_func other)) [
              | inr no_func ↦ next (rw (at_j, no_func) at e)
              | inl is_f ↦ elim (Option-cases (elf_symbol_name elf s_headers sh other)) [
                | inl missing ↦ none-≢some (rw (at_j, is_f, missing) at e)
                | inr (own, named) ↦ elim (Bool-cases (str_eq own function)) [
                  | inr differ ↦ next (rw (at_j, is_f, named, differ) at e)
                  | inl same ↦ some_none-≢some (rw (at_j, is_f, named, same) at e)
                ]
              ]
            ]
          ]
    ]

above_of : (i k : ℕ) → i ≤ k → (k == i) ≡ false → i < k
above_of i k low differ = ground arith

exec_loop-none :
    (left i : ℕ) (function : Text) (elf : List ℕ) (s_headers value k l : ℕ)
    → exec_loop left i function elf s_headers ≡ some 0
    → i ≤ k
    → k < i + left
    → Names elf s_headers function value k l
    → (k' l' : ℕ) × Names elf s_headers function 0 k' l'
unfolding exec_loop
exec_loop-none zero i function elf s_headers value k l e low high names =
    absurd (omega (arith, low, high))
exec_loop-none (suc left) i function elf s_headers value k l e low high names =
    let next : i < k
        → exec_loop left (i + 1) function elf s_headers ≡ some 0
        → (k' l' : ℕ) × Names elf s_headers function 0 k' l' =
      λ above f.
        exec_loop-none left (i + 1) function elf s_headers value k l f (omega (arith, above))
          (omega (arith, high)) names in
    elim (Option-cases (shdr_at elf s_headers i)) [
      | inl missing ↦ none-≢some (rw missing at e)
      | inr (sh, section) ↦
          let same : k ≡ i → names.sh ≡ sh =
            λ at. some_inj (sym names.section ∙ (ap (shdr_at elf s_headers) at ∙ section)) in
          elim (Bool-cases (has_symbols sh)) [
            | inr other ↦ elim (Bool-cases (k == i)) [
              | inl here ↦
                  true-≢false names.kind (ap has_symbols (same ((==_iff k i).0 here)) ∙ other)
              | inr later ↦ next (above_of i k low later) (rw (section, other) at e)
            ]
            | inl kind ↦
                elim (Option-cases (symbol_loop (sh.sh_size / 24) 0 function elf s_headers sh)) [
                  | inl outside ↦ none-≢some (rw (section, kind, outside) at e)
                  | inr (found, searched) ↦
                      Found-cases found (exec_loop left (i + 1) function elf s_headers) 0
                        (rw (section, kind, searched) at e)
                        (λ some_0.
                          let (j, first) =
                            symbol_loop-Names (sh.sh_size / 24) 0 function elf s_headers i 0 sh
                              section kind (omega arith) (searched ∙ ap some some_0) in
                          (i, j, first))
                        (λ nothing f. elim (Bool-cases (k == i)) [
                          | inr later ↦ next (above_of i k low later) f
                          | inl here ↦
                              let it : names.sh ≡ sh = same ((==_iff k i).0 here) in
                              absurd (
                                symbol_loop-none (names.sh.sh_size / 24) 0 function elf s_headers
                                  names.sh l names.symbol
                                  (rw (sym it) at (searched ∙ ap some nothing)) (omega arith)
                                  (omega (arith, names.in_section)) names.entry names.function_type
                                  names.name)
                        ])
                ]
          ]
    ]

-- What an answer of `get_address_exec` says of the functions of the file with the name: an address is
-- the value of one of them, and where it is NULL, either none has the name or one has the value 0.
abbrev pub Answers : (elf : List ℕ) (s_headers : ℕ) (function : Text) (sections value : ℕ) → Type 0
Answers elf s_headers function sections value =
    (value ≢ 0 → (i j : ℕ) × (i < sections) × Names elf s_headers function value i j)
    × (value ≡ 0
        → (v i j : ℕ) → i < sections
        → Names elf s_headers function v i j
        → (i' j' : ℕ) × Names elf s_headers function 0 i' j')

-- An address other than NULL that `get_address_exec` returns is the value of a symbol of the file, a
-- function with just that name in a section of symbols; and where it returns NULL though such a
-- function is there, one of that name has the value 0.
pub get_address_exec-Answers :
    (function : Text) (elf : List ℕ) (header : Ehdr) (s_headers value : ℕ)
    → get_address_exec function elf header s_headers ≡ some value
    → Answers elf s_headers function header.e_shnum value
unfolding get_address_exec
get_address_exec-Answers function elf header s_headers value e = (
  get_address_exec-Names function elf header s_headers value e,
  λ zero_value v i j below names.
      exec_loop-none header.e_shnum 0 function elf s_headers v i j (e ∙ ap some zero_value)
        (omega arith) (omega (arith, below)) names,
)
