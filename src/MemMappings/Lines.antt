-- ===== src/MemMappings/Lines.antt =====
-- The lines of /proc/<pid>/maps, as proc(5) describes them, against `scan_line`.
use my_dbg.Base.{
  ℕ, zero, suc, ◌^◌, ◌<◌, ◌≡◌, refl, ◌∙◌, false, [], ◌∷◌, ◌++◌, some, arith, All, Text,
}
use my_dbg.Printing.{digits}
use my_dbg.Format.{is_space, digit_value, skip_space}
use my_dbg.Format.Digits.{Fits}
use my_dbg.MemMappings.{scan_c, scan_char, word, scan_line}
use my_dbg.MemMappings.Numbers.{
  fixed, scan_zx-fixed, scan_width-fixed, scan_width-space, scan_zu-digits,
}

-- A line of the file: the addresses in `p` and `q` digits, four letters, the offset in 8 digits, the
-- device in 2 and 2, the inode, and what follows it.
abbrev pub maps_line :
    (p start q end : ℕ) (r w x s : ℕ) (offset major minor inode : ℕ) (tail : Text) → Text
maps_line p start q end r w x s offset major minor inode tail =
    fixed p 16 start
    ++ b'-'
      ∷ (fixed q 16 end
          ++ b' '
            ∷ r
            ∷ w
            ∷ x
            ∷ s
            ∷ b' '
            ∷ (fixed 8 16 offset
                ++ b' '
                  ∷ (fixed 2 16 major
                      ++ b':' ∷ (fixed 2 16 minor ++ b' ' ∷ (digits 20 10 inode ++ b' ' ∷ tail)))))

abbrev pub blanks : ℕ → Text
blanks zero = []
blanks (suc n) = b' ' ∷ blanks n

skip_space-blanks : (n : ℕ) (t : Text) → skip_space (blanks n ++ t) ≡ skip_space t
unfolding skip_space
skip_space-blanks zero t = refl
skip_space-blanks (suc n) t = skip_space-blanks n t

word_lem : (name : Text) → All (λ c. is_space c ≡ false) name → word (name ++ 10 ∷ []) ≡ name
unfolding word
word_lem [] h = refl
word_lem (c ∷ cs) (hc, h) = rw (word_lem cs h, hc) refl

word_end : word [] ≡ []
unfolding word
word_end = refl

-- The last word of a line
last_word :
    (name : Text) → All (λ c. is_space c ≡ false) name → word (skip_space (name ++ 10 ∷ [])) ≡ name
unfolding skip_space
last_word [] h = word_end
last_word (c ∷ cs) (hc, h) = rw hc (word_lem (c ∷ cs) (hc, h))

scan_line_lem :
    (p start q end : ℕ) (r w x s : ℕ) (offset major minor inode : ℕ) (tail : Text)
    → 1 < p
    → Fits p 16 start
    → start < 2 ^ 64
    → 1 < q
    → Fits q 16 end
    → end < 2 ^ 64
    → is_space r ≡ false
    → offset < 2 ^ 32
    → major < 2 ^ 8
    → minor < 2 ^ 8
    → inode < 10 ^ 19
    → scan_line (maps_line p start q end r w x s offset major minor inode tail)
      ≡ some (record {
        start = start;
        end = end;
        offset = offset;
        objfile = word (skip_space (b' ' ∷ tail));
      })
unfolding scan_line scan_char scan_c digit_value
scan_line_lem p start q end r w x s offset major minor inode tail p2 pf ps q2 qf qs letter o mj mn
      ino =
    let t5 : Text = digits 20 10 inode ++ b' ' ∷ tail in
    let t4 : Text = fixed 2 16 minor ++ b' ' ∷ t5 in
    let t3 : Text = fixed 2 16 major ++ b':' ∷ t4 in
    let t2 : Text = fixed 8 16 offset ++ b' ' ∷ t3 in
    let t1 : Text = fixed q 16 end ++ b' ' ∷ r ∷ w ∷ x ∷ s ∷ b' ' ∷ t2 in
    rw (scan_zx-fixed p start (b'-' ∷ t1) p2 ps pf refl) (
      rw (scan_zx-fixed q end (b' ' ∷ r ∷ w ∷ x ∷ s ∷ b' ' ∷ t2) q2 qs qf refl) (
        rw letter (
          rw
            (
              scan_width-space 8 t2,
              scan_width-fixed 8 offset (b' ' ∷ t3) (omega arith) (omega (arith, o))
                  (omega (arith, o)),
            )
            (rw
              (
                scan_width-space 2 t3,
                scan_width-fixed 2 major (b':' ∷ t4) (omega arith) (omega (arith, mj))
                    (omega (arith, mj)),
              )
              (rw
                (scan_width-fixed 2 minor (b' ' ∷ t5) (omega arith) (omega (arith, mn))
                  (omega (arith, mn)))
                (rw (scan_zu-digits inode (b' ' ∷ tail) ino refl) refl))))))

-- What proc(5) lets the parts of a line be, where the scan has room for them
pub record Printable (p start q end letter offset major minor inode : ℕ) (name : Text)
    : Type 0 where
  pub start_places : 1 < p
  pub start_fits : Fits p 16 start
  pub start_lt : start < 2 ^ 64
  pub end_places : 1 < q
  pub end_fits : Fits q 16 end
  pub end_lt : end < 2 ^ 64
  pub letter_ok : is_space letter ≡ false
  pub offset_lt : offset < 2 ^ 32
  pub major_lt : major < 2 ^ 8
  pub minor_lt : minor < 2 ^ 8
  pub inode_lt : inode < 10 ^ 19
  pub name_ok : All (λ c. is_space c ≡ false) name

-- From a line with an offset below 2 ^ 32, device numbers below 2 ^ 8 and a name without white space,
-- which may be empty, `scan_line` reads the addresses, the offset and the name.
pub scan_line-maps_line :
    (p start q end : ℕ) (r w x s : ℕ) (offset major minor inode pad : ℕ) (name : Text)
    → Printable p start q end r offset major minor inode name
    → scan_line
        (maps_line p start q end r w x s offset major minor inode (blanks pad ++ (name ++ 10 ∷ [])))
      ≡ some (record { start = start; end = end; offset = offset; objfile = name })
scan_line-maps_line p start q end r w x s offset major minor inode pad name h =
    scan_line_lem p start q end r w x s offset major minor inode (blanks pad ++ (name ++ 10 ∷ []))
      h.start_places h.start_fits h.start_lt h.end_places h.end_fits h.end_lt h.letter_ok
      h.offset_lt h.major_lt h.minor_lt h.inode_lt
    ∙ rw (skip_space-blanks (suc pad) (name ++ 10 ∷ []), last_word name h.name_ok) refl
