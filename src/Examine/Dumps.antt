-- ===== src/Examine/Dumps.antt =====
-- The dumps can be read back.
use mathlib.Core.List.{append_assoc}
use my_dbg.Base.{
  ap, ℕ, ◌+◌, ◌-◌, ◌*◌, ◌/◌, ◌%◌, ◌<◌, ◌≡◌, refl, Bool, false, ◌||◌, List, [], ◌∷◌, ◌++◌, some,
  Text, All, arith, ltb, ◌==◌, if◌then◌else◌, length, length-append, get_elem?, Bool-cases, inl,
  inr,
}
use my_dbg.Printing.{digit, print_hhx}
use my_dbg.Examine.{
  in_array, is_special_char, get_special_char, print_char, separator, hexa_loop, examine_hexa,
  string_loop, examine_string,
}

-- The value of a digit that `digit` writes
abbrev pub undigit : ℕ → ℕ
undigit c = if ltb c 58 then c - 48 else c - 87

-- A reader of hexadecimal dumps: it passes over white space, and two digits make a byte.
abbrev pub is_white : ℕ → Bool
is_white c = c == 32 || c == 10

pub data Half : Type 0 where
  between : Half
  after : ℕ → Half

abbrev step_hexa : Half → ℕ → List ℕ × Half
step_hexa between c = if is_white c then ([], Half.between) else ([], Half.after (undigit c))
step_hexa (after h) c = ((16 * h + undigit c) ∷ [], Half.between)

unfoldable pub read_hexa : Half → Text → List ℕ
read_hexa m [] = []
read_hexa m (c ∷ cs) = let (out, n) = step_hexa m c in out ++ read_hexa n cs

read_hexa-separator :
    (i : ℕ) (rest : Text)
    → read_hexa Half.between (separator i ++ rest) ≡ read_hexa Half.between rest
unfolding separator read_hexa
read_hexa-separator i rest = elim (Bool-cases (i == 0)) [
  | inl start ↦ rw start refl
  | inr later ↦ rw later (elim (Bool-cases (i % 16 == 0)) [
    | inl line ↦ rw line (elim (Bool-cases (i % 2 == 0)) [ inl e ↦ rw e refl | inr o ↦ rw o refl ])
    | inr inside ↦
        rw inside (elim (Bool-cases (i % 2 == 0)) [ inl e ↦ rw e refl | inr o ↦ rw o refl ])
  ])
]

read_hexa-print_hhx :
    (b : ℕ) (rest : Text)
    → b < 256
    → read_hexa Half.between (print_hhx b ++ rest) ≡ b ∷ read_hexa Half.between rest
unfolding read_hexa
read_hexa-print_hhx b rest h =
    let no_space : is_white (digit (b / 16)) ≡ false = ground arith in
    let value : 16 * undigit (digit (b / 16)) + undigit (digit (b % 16)) ≡ b = ground arith in
    rw (no_space, value) refl

get_elem?-append_middle :
    (front : List ℕ) (b : ℕ) (rest : List ℕ) → get_elem? (front ++ b ∷ rest) (length front) ≡ some b
get_elem?-append_middle [] b rest = refl
get_elem?-append_middle (x ∷ front) b rest = get_elem?-append_middle front b rest

read_hexa_end : read_hexa Half.between (10 ∷ []) ≡ []
unfolding read_hexa
read_hexa_end = refl

hexa_loop_lem :
    (front bs tail : List ℕ)
    → All (λ b. b < 256) bs
    → (t : Text) × (hexa_loop (length bs) (length front) (front ++ (bs ++ tail)) ≡ some t)
      × (read_hexa Half.between t ≡ bs)
unfolding hexa_loop
hexa_loop_lem front [] tail small = (10 ∷ [], refl, read_hexa_end)
hexa_loop_lem front (b ∷ bs) tail (h, small) =
    let (t, out, back) = hexa_loop_lem (front ++ b ∷ []) bs tail small in
    let next : length (front ++ b ∷ []) ≡ length front + 1 =
      omega (arith, length-append front (b ∷ [])) in
    let piece = separator (length front) ++ print_hhx b in
    (
      piece ++ t,
      rw (get_elem?-append_middle front b (bs ++ tail), hexa_loop)
          (rw (rw (append_assoc front (b ∷ []) (bs ++ tail), next) at out) refl),
      rw
          (
            append_assoc (separator (length front)) (print_hhx b) t,
            read_hexa-separator (length front) (print_hhx b ++ t),
            read_hexa-print_hhx b t h,
          )
          (ap (◌∷◌ b) back),
    )

-- A reader of C strings that takes two digits behind "\\x" and stops at the closing quote
pub data Mode : Type 0 where
  opening plain slash first closed : Mode
  second : ℕ → Mode

abbrev escaped : ℕ → ℕ
escaped c =
    if c == b'a'
    then 7
    else if c == b'b'
    then 8
    else if c == b'f'
    then 12
    else if c == b'n'
    then 10
    else if c == b'r'
    then 13
    else if c == b't'
    then 9
    else if c == b'v'
    then 11
    else c

abbrev step_string : Mode → ℕ → List ℕ × Mode
step_string opening c = ([], Mode.plain)
step_string plain c =
    if c == b'\\'
    then ([], Mode.slash)
    else if c == b'"'
    then ([], Mode.closed)
    else (c ∷ [], Mode.plain)
step_string slash c = if c == b'x' then ([], Mode.first) else (escaped c ∷ [], Mode.plain)
step_string first c = ([], Mode.second (undigit c))
step_string (second h) c = ((16 * h + undigit c) ∷ [], Mode.plain)
step_string closed c = ([], Mode.closed)

unfoldable pub read_string : Mode → Text → List ℕ
read_string m [] = []
read_string m (c ∷ cs) = let (out, n) = step_string m c in out ++ read_string n cs

read_string-print_char :
    (b : ℕ) (rest : Text)
    → b < 256
    → read_string Mode.plain (print_char b ++ rest) ≡ b ∷ read_string Mode.plain rest
unfolding read_string print_char is_special_char in_array get_special_char
read_string-print_char b rest h = ground arith

read_string_end : read_string Mode.plain (b'"' ∷ 10 ∷ []) ≡ []
unfolding read_string
read_string_end = refl

read_string_start : (t : Text) → read_string Mode.opening (b'"' ∷ t) ≡ read_string Mode.plain t
unfolding read_string
read_string_start t = refl

string_loop_lem :
    (front bs tail : List ℕ)
    → All (λ b. b < 256) bs
    → (t : Text) × (string_loop (length bs) (length front) (front ++ (bs ++ tail)) ≡ some t)
      × (read_string Mode.plain t ≡ bs)
unfolding string_loop
string_loop_lem front [] tail small = (b'"' ∷ 10 ∷ [], refl, read_string_end)
string_loop_lem front (b ∷ bs) tail (h, small) =
    let (t, out, back) = string_loop_lem (front ++ b ∷ []) bs tail small in
    let next : length (front ++ b ∷ []) ≡ length front + 1 =
      omega (arith, length-append front (b ∷ [])) in
    (
      print_char b ++ t,
      rw (get_elem?-append_middle front b (bs ++ tail), string_loop)
          (rw (rw (append_assoc front (b ∷ []) (bs ++ tail), next) at out) refl),
      rw (read_string-print_char b t h) (ap (◌∷◌ b) back),
    )

-- The hexadecimal dump of some bytes, whatever follows them in the buffer, reads nothing outside
-- the buffer, and the reader of such dumps gives the bytes back.
pub examine_hexa-read_hexa :
    (bytes tail : List ℕ)
    → All (λ b. b < 256) bytes
    → (t : Text) × (examine_hexa (bytes ++ tail) (length bytes) ≡ some t)
      × (read_hexa Half.between t ≡ bytes)
unfolding examine_hexa
examine_hexa-read_hexa bytes tail small = hexa_loop_lem [] bytes tail small

-- The dump as a string, whatever follows the bytes in the buffer, reads nothing outside the buffer,
-- and the reader of strings gives the bytes back.
pub examine_string-read_string :
    (bytes tail : List ℕ)
    → All (λ b. b < 256) bytes
    → (t : Text) × (examine_string (bytes ++ tail) (length bytes) ≡ some t)
      × (read_string Mode.opening t ≡ bytes)
unfolding examine_string
examine_string-read_string bytes tail small =
    let (t, out, back) = string_loop_lem [] bytes tail small in
    (b'"' ∷ t, rw out refl, rw (read_string_start t) back)
