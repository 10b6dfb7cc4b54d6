-- ===== src/Format/Unread.antt =====
-- `read_size` on a text that is no number.
use my_dbg.Base.{
  ℕ, ◌<◌, ◌≤◌, ◌≡◌, refl, true, false, ◌==◌, ltb, leb, Bool, if◌then◌else◌, ◌∷◌, none, some, Text,
  codes, arith, length, str_eq, starts_with, Bool-cases, Option-cases, inl, inr,
}
use my_dbg.Debugger.{MyException, Kernel, Dbg, Line, thrown}
use my_dbg.Debugger.Exceptions.{ex_depth}
use my_dbg.Debugger.Exceptions.Tries.{throw-thrown}
use my_dbg.Format.{
  is_space, digit_value, scan_digits, skip_space, scan_sign, scan_zu, whole, invalid, read_size,
}

module _ (c : ℕ) (cs : Text) (letter : (95 ≤ c) × (c ≤ 122)) where
  pub starts_with-letter : (d : ℕ) (ds : Text) → d < 95 → starts_with (c ∷ cs) (d ∷ ds) ≡ false
  unfolding starts_with str_eq
  starts_with-letter d ds below =
      let (low, high) = letter in
      let other : (c == d) ≡ false = ground (arith, low) in
      elim (Bool-cases (ltb (length (c ∷ cs)) (length (d ∷ ds)))) [
        | inl h ↦ rw h refl
        | inr h ↦ rw (h, other) refl
      ]

  digit_value-letter : (d : ℕ) → digit_value c ≡ some d → ltb d 10 ≡ false
  unfolding digit_value
  digit_value-letter d e = let (low, high) = letter in ground (arith, low)

  scan_digits-letter : scan_digits 10 0 0 (c ∷ cs) ≡ (0, 0, c ∷ cs)
  unfolding scan_digits
  scan_digits-letter = elim (Option-cases (digit_value c)) [
    | inl e ↦ rw (e, scan_digits)
    | inr (d, e) ↦ rw (e, scan_digits) (rw (digit_value-letter d e))
  ]

  pub scan_zu-letter : scan_zu (c ∷ cs) ≡ none
  unfolding scan_zu skip_space scan_sign
  scan_zu-letter =
      let (low, high) = letter in
      let space : is_space c ≡ false = ground (arith, low) in
      let minus : (c == b'-') ≡ false = ground (arith, low) in
      let plus : (c == b'+') ≡ false = ground (arith, low) in
      rw (space, minus, plus, scan_digits-letter) refl

whole-none : (b : Bool) → (if b then whole none else none) ≡ none
unfolding whole
whole-none true = refl
whole-none false = refl

shallow : (depth : ℕ) → 1 < depth → leb depth 1 ≡ false
shallow depth deep = ground arith

module _ {P : Type 0} where
  invalid_hidden :
      (message : Line) (s : Dbg P) → 1 < s.envs → invalid message s ≡ thrown MyException.exception s
  unfolding invalid ex_depth
  invalid_hidden message s deep =
      rw (shallow s.envs deep) (throw-thrown MyException.exception s (omega arith))

module _ {P : Type 0} ⦃k : Kernel P⦄ where
  -- Under a second `try` the message is hidden.
  pub read_size_unread :
      (str : Text) (s : Dbg P)
      → 1 < s.envs
      → starts_with str (codes "0x") ≡ false
      → starts_with str (codes "%") ≡ false
      → scan_zu str ≡ none
      → read_size str s ≡ thrown MyException.exception s
  unfolding read_size
  read_size_unread str s deep hex percent unread =
      rw (hex, percent, unread, whole-none) (invalid_hidden _ s deep)
