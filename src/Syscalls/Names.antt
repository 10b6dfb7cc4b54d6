-- ===== src/Syscalls/Names.antt =====
-- Names and numbers of system calls.
use my_dbg.Base.{
  ℕ, ◌≡◌, ◌≢◌, refl, false, List, [], ◌∷◌, some, Text, arith, ◌==◌, str_eq, str_eq_refl, str_eq→eq,
  minus_one, Bool-cases, inl, inr, ap, sym, ◌∙◌, ==_iff, some_inj,
}
use my_dbg.Debugger.Exceptions.{throw}
use my_dbg.Debugger.{Kernel, Dbg, ok}
use my_dbg.SyscallTable.{syscall_names}
use my_dbg.Syscalls.{name_of, num_of, found_name, syscall_name, syscall_num_aux, syscall_num}

number-name_of :
    (number : Text → ℕ) (n : ℕ) (names : List Text) (name : Text)
    → name_of number n names ≡ some name
    → number name ≡ n
unfolding name_of
number-name_of number n [] name e = cc
number-name_of number n (s ∷ ss) name e = elim (Bool-cases (n == number s)) [
  | inl h ↦
      let same : s ≡ name = some_inj (rw h at e) in
      ap number (sym same) ∙ sym ((==_iff n (number s)).0 h)
  | inr h ↦ number-name_of number n ss name (rw h at e)
]

-- The first name with the number has that number, also when it is looked up by its text.
num_of-name_of :
    (number : Text → ℕ) (n : ℕ) (names : List Text) (name : Text)
    → name_of number n names ≡ some name
    → num_of number name names ≡ some n
unfolding name_of num_of
num_of-name_of number n [] name e = cc
num_of-name_of number n (s ∷ ss) name e = elim (Bool-cases (str_eq name s)) [
  | inl h ↦
      rw h
        (ap some (ap number (sym (str_eq→eq name s h)) ∙ number-name_of number n (s ∷ ss) name e))
  | inr h ↦ rw h (elim (Bool-cases (n == number s)) [
    | inl g ↦ absurd (misses h (some_inj (rw g at e)))
    | inr g ↦ num_of-name_of number n ss name (rw g at e)
  ])
]
  where
    misses : str_eq name s ≡ false → s ≡ name → ⊥
    misses h p = cc (str_eq_refl name, ap (str_eq name) p)

-- A name with the number `n` in the list is enough for `name_of` to find one.
name_of-num_of :
    (number : Text → ℕ) (n : ℕ) (names : List Text) (name : Text)
    → num_of number name names ≡ some n
    → (other : Text) × (name_of number n names ≡ some other)
unfolding name_of num_of
name_of-num_of number n [] name e = cc
name_of-num_of number n (s ∷ ss) name e = elim (Bool-cases (n == number s)) [
  | inl h ↦ rw h (s, refl)
  | inr h ↦ rw h (elim (Bool-cases (str_eq name s)) [
    | inl g ↦ absurd (misses h (some_inj (rw g at e)))
    | inr g ↦ name_of-num_of number n ss name (rw g at e)
  ])
]
  where
    misses : (n == number s) ≡ false → number s ≡ n → ⊥
    misses h p = ground arith

module _ {P : Type 0} ⦃k : Kernel P⦄ where
  syscall_name-some :
      (n : ℕ) (name : Text) (s t : Dbg P)
      → syscall_name n s ≡ ok name t
      → (n ≢ minus_one) × (name_of k.number n syscall_names ≡ some name) × (t ≡ s)
  unfolding syscall_name throw found_name
  syscall_name-some n name s t e = ground arith

  -- Whatever numbers the system's header has: from a name that `syscall_name` gives for a number,
  -- `syscall_num` reads the number back.
  pub syscall_num-syscall_name :
      (n : ℕ) (name : Text) (s t : Dbg P)
      → syscall_name n s ≡ ok name t
      → syscall_num name s ≡ ok n s
  unfolding syscall_num syscall_num_aux
  syscall_num-syscall_name n name s t e =
      let (ne, found, _) = syscall_name-some n name s t e in
      let test : (n == minus_one) ≡ false = ground arith in
      rw (num_of-name_of k.number n syscall_names name found, syscall_num_aux) (rw test)

  syscall_num-some :
      (name : Text) (n : ℕ) (s t : Dbg P)
      → syscall_num name s ≡ ok n t
      → (n ≢ minus_one) × (num_of k.number name syscall_names ≡ some n)
  unfolding syscall_num throw syscall_num_aux
  syscall_num-some name n s t e = ground arith

  -- A number that `syscall_num` reads has a name; read back, that name gives the same number.
  pub syscall_name-syscall_num :
      (name : Text) (n : ℕ) (s t : Dbg P)
      → syscall_num name s ≡ ok n t
      → (other : Text) × (syscall_name n s ≡ ok other s) × (syscall_num other s ≡ ok n s)
  unfolding syscall_name found_name
  syscall_name-syscall_num name n s t e =
      let (ne, found) = syscall_num-some name n s t e in
      let (other, f) = name_of-num_of k.number n syscall_names name found in
      let test : (n == minus_one) ≡ false = ground arith in
      let named : syscall_name n s ≡ ok other s = rw (test, f, syscall_name) in
      (other, named, syscall_num-syscall_name n other s s named)
